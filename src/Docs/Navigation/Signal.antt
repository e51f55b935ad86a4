-- ===== src/Docs/Navigation/Signal.antt =====
-- The link to the document docs/signal.md, an old address that website/src/app/docs/[...slug]/page.tsx
-- redirects to itself.
use shadownet_agent.Common.Text.{Text, txt, same, join}
use shadownet_agent.Common.{
  ◌≡◌, ◌≢◌, refl, ◌∙◌, Option, some, List, [], ◌∷◌, ◌++◌, All, append_assoc,
}
use shadownet_agent.Docs.Lookup.{IsPart}
use shadownet_agent.Docs.Navigation.{doc_href}
use shadownet_agent.Docs.Pages.Hidden.{doc_page-ne-old}
use shadownet_agent.Docs.Pages.Links.{NotFarsi}
use shadownet_agent.Docs.Pages.Reading.{Readable}
use shadownet_agent.Docs.Pages.{
  Server, Shown, redirect, shown, legacy_target, try_legacy_redirect, ends_in_index, is_index,
  resolved_base, doc_page,
}

abbrev pub signal_slug : List Text
signal_slug = txt "signal" ∷ []

signal_old : (srv : Server) → try_legacy_redirect srv signal_slug ≡ some (txt "/docs/signal")
unfolding try_legacy_redirect legacy_target txt same
signal_old srv = refl

signal_href : (base : Text) → doc_href base signal_slug ≡ base ++ txt "/docs/signal"
unfolding doc_href is_index ends_in_index txt same join
signal_href base =
    append_assoc (base ++ txt "/docs") (txt "/") (txt "signal")
    ∙ append_assoc base (txt "/docs") (txt "/" ++ txt "signal")

-- The address that the navigation gives the document with the slug signal is redirected to itself, and no
-- other address, but one in Farsi, shows that document.
pub signal_lem :
    (srv : Server) (base_prefix : Option Text) (slug : List Text) (s : Shown)
    → Readable srv
    → NotFarsi base_prefix
    → All IsPart slug
    → doc_page srv base_prefix slug ≡ shown s
    → (doc_page srv base_prefix signal_slug
        ≡ redirect (doc_href (resolved_base base_prefix) signal_slug))
      × (s.doc.slug ≢ signal_slug)
unfolding doc_page
signal_lem srv base_prefix slug s readable nf parts page = (
  rw (signal_old srv, doc_page, signal_href (resolved_base base_prefix)) refl,
  doc_page-ne-old srv base_prefix (txt "signal") (txt "/docs/signal") slug s readable nf parts
      (signal_old srv) page,
)
