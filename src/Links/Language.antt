-- ===== src/Links/Language.antt =====
-- The links of website/src/components/LocalizedLink.tsx stay in the language of the page.
use mathlib.Core.Bool.{true≢false}
use shadownet_agent.Common.{
  ◌≡◌, refl, sym, ap, ◌∙◌, ◌⊎◌, inl, inr, arith, Bool, true, false, ◌||◌, some, [], ◌++◌,
  append_assoc, drop, is_empty, known_branch, Bool-cases,
}
use shadownet_agent.Common.Text.Laws.{starts_with-append, starts_with_sound, same_iff, same_refl}
use shadownet_agent.Common.Text.{Text, txt, same, starts_with}
use shadownet_agent.Links.{is_under, get_lang_prefix, resolved_href}

-- A link within the site.
abbrev pub Internal : Text → Type 0
Internal href = starts_with href (txt "/") ≡ true

or_true : (a : Bool) {b : Bool} → b ≡ true → (a || b) ≡ true
or_true a h = ground arith

pub is_under_self : (prefix : Text) → is_under prefix prefix ≡ true
unfolding is_under
is_under_self prefix = ground (arith, same_refl prefix)

pub is_under-append : (prefix href : Text) → Internal href → is_under prefix (prefix ++ href) ≡ true
unfolding is_under txt
is_under-append prefix href h =
    let e =
      ap (λ (t : Text). prefix ++ t) (starts_with_sound href (txt "/") h)
      ∙ sym (append_assoc prefix (txt "/") (drop 1 href)) in
    or_true (same (prefix ++ href) prefix) (
      ap (λ (t : Text). starts_with t (prefix ++ txt "/")) e
      ∙ starts_with-append (prefix ++ txt "/") (drop 1 href))

-- A link within the site, followed from a page under a prefix, leads under that prefix.
pub resolved_href-is_under :
    (prefix href : Text)
    → is_empty prefix ≡ false
    → Internal href
    → is_under prefix (resolved_href prefix href) ≡ true
unfolding resolved_href
resolved_href-is_under prefix href k h =
    rw (h, k, resolved_href)
      (known_branch (λ (t : Text). is_under prefix t ≡ true) (same href (txt "/"))
        (λ e. is_under_self prefix)
        (λ e.
          known_branch (λ (t : Text). is_under prefix t ≡ true) (is_under prefix href) (λ u. u)
            (λ u. is_under-append prefix href h)))

pub en_not_fa : (t : Text) → is_under (txt "/en") t ≡ true → is_under (txt "/fa") t ≡ false
unfolding is_under same starts_with txt
en_not_fa t h = elim (Bool-cases (same t (txt "/en"))) [
  | inl e ↦ ap (is_under (txt "/fa")) ((same_iff t (txt "/en")).0 e)
  | inr e ↦ ap (is_under (txt "/fa")) (starts_with_sound t (txt "/en/") (rw e at h))
]

prefix_of_fa : (t : Text) → is_under (txt "/fa") t ≡ true → get_lang_prefix (some t) ≡ txt "/fa"
unfolding get_lang_prefix
prefix_of_fa t h = rw h refl

prefix_of_en : (t : Text) → is_under (txt "/en") t ≡ true → get_lang_prefix (some t) ≡ txt "/en"
unfolding get_lang_prefix
prefix_of_en t h = rw (h, en_not_fa t h) refl

prefix_cases :
    (pathname : Text)
    → (get_lang_prefix (some pathname) ≡ [])
      ⊎ ((get_lang_prefix (some pathname) ≡ txt "/fa")
          ⊎ (get_lang_prefix (some pathname) ≡ txt "/en"))
unfolding get_lang_prefix
prefix_cases pathname = ground arith

-- From a page under /fa or /en, a link within the site leads to a page under the same of the two.
pub resolved_href-lang :
    (pathname href : Text)
    → is_empty (get_lang_prefix (some pathname)) ≡ false
    → Internal href
    → get_lang_prefix (some (resolved_href (get_lang_prefix (some pathname)) href))
      ≡ get_lang_prefix (some pathname)
unfolding txt
resolved_href-lang pathname href k h = elim (prefix_cases pathname) [
  | inl e ↦ absurd (true≢false (sym (ap is_empty e) ∙ k))
  | inr (inl e) ↦ rw e (
      prefix_of_fa (resolved_href (txt "/fa") href)
        (resolved_href-is_under (txt "/fa") href refl h))
  | inr (inr e) ↦ rw e (
      prefix_of_en (resolved_href (txt "/en") href)
        (resolved_href-is_under (txt "/en") href refl h))
]
