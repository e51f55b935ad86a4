-- ===== src/Docs/Navigation/Sidebar.antt =====
-- The links of the side bar of website/src/app/docs/layout.tsx lead to pages.
use shadownet_agent.Common.Dict.{Dict, set, Values, Values-set, Values-get}
use shadownet_agent.Common.Text.{Text, txt, join}
use shadownet_agent.Common.{
  ◌≡◌, refl, sym, ◌∙◌, ◌⊎◌, inl, inr, Option, List, [], ◌∷◌, ◌++◌, All, append_assoc, Bool-cases,
  Option-cases, is_empty,
}
use shadownet_agent.Docs.Navigation.{
  doc_href, NavItem, nav_from, nav_index, pick, picked, NavSection, sections_of_slugs,
  filled_sections, nav_sections,
}
use shadownet_agent.Docs.Pages.Links.{NotFarsi, Leads, IsTidy, params_of-Leads}
use shadownet_agent.Docs.Pages.Reading.{Readable, listed, Listed}
use shadownet_agent.Docs.Pages.{
  Server, is_index, ends_in_index, all_but_last, params_of, resolved_base,
}
use shadownet_agent.Docs.{DocEntry, slug_key}

-- A link to the start of the documents, or to a slug that leads on.
abbrev pub LinksOn : Server → Option Text → Text → Type 0
LinksOn srv base_prefix href =
    (href ≡ resolved_base base_prefix ++ txt "/docs")
    ⊎ ((slug : List Text) × (href
          ≡ resolved_base base_prefix ++ txt "/docs" ++ txt "/" ++ join (txt "/") slug)
        × Leads srv base_prefix slug)

abbrev ItemLinksOn : Server → Option Text → NavItem → Type 0
ItemLinksOn srv base_prefix item = LinksOn srv base_prefix item.href

-- The link to a document of the index.
pub doc_href-LinksOn :
    (srv : Server) (base_prefix : Option Text) (e : DocEntry)
    → Readable srv
    → NotFarsi base_prefix
    → Listed srv e
    → IsTidy e
    → LinksOn srv base_prefix (doc_href (resolved_base base_prefix) e.slug)
unfolding doc_href params_of
doc_href-LinksOn srv base_prefix e readable nf l tidy =
    let leads = params_of-Leads srv base_prefix e readable nf l tidy in
    elim (Bool-cases (is_index e.slug)) [
      | inl i ↦ inl (rw (i, doc_href) refl)
      | inr i ↦ elim (Bool-cases (ends_in_index e.slug)) [
        | inl j ↦
            inr (all_but_last e.slug, rw (i, doc_href, j) refl, (rw (i, params_of, j) at leads).1.0)
        | inr j ↦ inr (e.slug, rw (i, doc_href, j) refl, (rw (i, params_of, j) at leads).0)
      ]
    ]

nav_from-LinksOn :
    (srv : Server) (base_prefix : Option Text) (index : Dict NavItem) (before after : List DocEntry)
    → Readable srv
    → NotFarsi base_prefix
    → listed srv ≡ before ++ after
    → All IsTidy after
    → Values (ItemLinksOn srv base_prefix) index
    → Values (ItemLinksOn srv base_prefix) (nav_from (resolved_base base_prefix) index after)
unfolding nav_from
nav_from-LinksOn srv base_prefix index before [] readable nf k t h = h
nav_from-LinksOn srv base_prefix index before (e ∷ after) readable nf k (t, ts) h =
    nav_from-LinksOn srv base_prefix
      (set (slug_key e.slug)
        (record { label = e.title; href = doc_href (resolved_base base_prefix) e.slug }) index)
      (before ++ e ∷ []) after readable nf (k ∙ sym (append_assoc before (e ∷ []) after)) ts
      (Values-set (ItemLinksOn srv base_prefix) (slug_key e.slug)
        (record { label = e.title; href = doc_href (resolved_base base_prefix) e.slug }) index
        (doc_href-LinksOn srv base_prefix e readable nf (before, after, k) t) h)

picked-All :
    (P : NavItem → Type 0) (index : Dict NavItem) (slugs : List (List Text))
    → Values P index
    → All P (picked index slugs)
unfolding picked pick
picked-All P index [] h = tt
picked-All P index (slug ∷ more) h = elim (Option-cases (pick index slug)) [
  | inl e ↦ rw (e, picked) (picked-All P index more h)
  | inr (item, e) ↦
      rw (e, picked) (Values-get P (slug_key slug) item index h e, picked-All P index more h)
]

filled-All :
    (P : NavItem → Type 0) (index : Dict NavItem) (sections : List (Text × List (List Text)))
    → Values P index
    → All (λ (s : NavSection). All P s.items) (filled_sections index sections)
unfolding filled_sections
filled-All P index [] h = tt
filled-All P index ((title, slugs) ∷ more) h = elim (Bool-cases (is_empty (picked index slugs))) [
  | inl e ↦ rw (e, filled_sections) (filled-All P index more h)
  | inr e ↦ rw (e, filled_sections) (picked-All P index slugs h, filled-All P index more h)
]

-- Each link of the side bar leads to the start of the documents, or to a page that redirects an old address or
-- shows the document of its slug or the index below it. The documents have slugs, none an index below an index,
-- and can be read.
pub nav_sections-LinksOn :
    (srv : Server) (base_prefix : Option Text)
    → Readable srv
    → NotFarsi base_prefix
    → All IsTidy (listed srv)
    → All
        (λ (s : NavSection). All (λ (item : NavItem). LinksOn srv base_prefix item.href) s.items)
        (nav_sections (resolved_base base_prefix) (listed srv))
unfolding nav_sections nav_index
nav_sections-LinksOn srv base_prefix readable nf h =
    filled-All (ItemLinksOn srv base_prefix) (nav_index (resolved_base base_prefix) (listed srv))
      sections_of_slugs (nav_from-LinksOn srv base_prefix [] [] (listed srv) readable nf refl h tt)
