-- ===== src/Links/Header/Switch.antt =====
-- The link to the other language in website/src/components/SiteHeader.tsx.
use mathlib.Core.Bool.{true≢false}
use shadownet_agent.Common.{
  ◌≡◌, refl, sym, ap, subst, ◌∙◌, inl, inr, true, false, some, [], ◌∷◌, ◌++◌, append_assoc,
  append-nil, drop, length, is_empty, Bool-cases, if◌then◌else◌,
}
use shadownet_agent.Common.Text.Laws.{starts_with_sound, same_sound, drop-append}
use shadownet_agent.Common.Text.{Text, txt, same, starts_with}
use shadownet_agent.Links.Header.{
  or_root, lang_match, normalized_path, other_lang, lang_prefix, other_lang_href,
}
use shadownet_agent.Links.Language.{Internal, en_not_fa, is_under-append, is_under_self}
use shadownet_agent.Links.{UiLang, en, fa, is_under, get_ui_lang_from_pathname}

-- A path below a prefix, or the prefix itself where the path is the root.
abbrev below : UiLang → Text → Text
below lang path = lang_prefix lang ++ (if same path (txt "/") then [] else path)

root-Internal : Internal (txt "/")
unfolding txt starts_with
root-Internal = refl

below-is_under :
    (lang : UiLang) (path : Text)
    → Internal path
    → is_under (lang_prefix lang) (below lang path) ≡ true
below-is_under lang path h = elim (Bool-cases (same path (txt "/"))) [
  | inl e ↦ rw e (
      subst (λ t. is_under (lang_prefix lang) t ≡ true) (sym (append-nil (lang_prefix lang)))
        (is_under_self (lang_prefix lang)))
  | inr e ↦ rw e (is_under-append (lang_prefix lang) path h)
]

lang_match-below :
    (lang : UiLang) (path : Text) → Internal path → lang_match (below lang path) ≡ lang_prefix lang
unfolding lang_match
lang_match-below fa path h = rw (below-is_under fa path h) refl
lang_match-below en path h =
    rw (en_not_fa (below en path) (below-is_under en path h), below-is_under en path h) refl

get_ui_lang-below :
    (lang : UiLang) (path : Text)
    → Internal path
    → get_ui_lang_from_pathname (some (below lang path)) ≡ lang
unfolding get_ui_lang_from_pathname
get_ui_lang-below fa path h = rw (below-is_under fa path h) refl
get_ui_lang-below en path h = rw (en_not_fa (below en path) (below-is_under en path h)) refl

normalized_lem :
    (t m : Text)
    → is_empty t ≡ false
    → lang_match t ≡ m
    → is_empty m ≡ false
    → normalized_path (some t) ≡ or_root (drop (length m) t)
unfolding normalized_path
normalized_lem t m h k n = rw (h, normalized_path, k, n) refl

lang_prefix_not_empty : (lang : UiLang) → is_empty (lang_prefix lang) ≡ false
unfolding txt
lang_prefix_not_empty en = refl
lang_prefix_not_empty fa = refl

below_not_empty : (lang : UiLang) (path : Text) → is_empty (below lang path) ≡ false
unfolding txt
below_not_empty en path = refl
below_not_empty fa path = refl

root_or : (path : Text) → Internal path → or_root (if same path (txt "/") then [] else path) ≡ path
unfolding txt starts_with
root_or [] h = absurd (true≢false (sym h))
root_or (c ∷ path) h = elim (Bool-cases (same (c ∷ path) (txt "/"))) [
  | inl e ↦ rw e (sym (same_sound (c ∷ path) (txt "/") e))
  | inr e ↦ rw e refl
]

normalized_path-below :
    (lang : UiLang) (path : Text) → Internal path → normalized_path (some (below lang path)) ≡ path
normalized_path-below lang path h =
    normalized_lem (below lang path) (lang_prefix lang) (below_not_empty lang path)
      (lang_match-below lang path h) (lang_prefix_not_empty lang)
    ∙ (ap or_root (drop-append (lang_prefix lang) (if same path (txt "/") then [] else path))
        ∙ root_or path h)

drop_all : (p : Text) → drop (length p) p ≡ []
drop_all [] = refl
drop_all (c ∷ p) = drop_all p

or_root-Internal : (r : Text) → Internal (or_root (txt "/" ++ r))
unfolding txt starts_with
or_root-Internal [] = refl
or_root-Internal (c ∷ r) = refl

rest-Internal :
    (prefix p : Text) → is_under prefix p ≡ true → Internal (or_root (drop (length prefix) p))
unfolding is_under
rest-Internal prefix p h = elim (Bool-cases (same p prefix)) [
  | inl e ↦
      subst (λ t. Internal (or_root (drop (length prefix) t))) (sym (same_sound p prefix e))
        (subst (λ t. Internal (or_root t)) (sym (drop_all prefix)) root-Internal)
  | inr e ↦
      let rest = drop (length (prefix ++ txt "/")) p in
      subst (λ t. Internal (or_root (drop (length prefix) t)))
        (sym (
          starts_with_sound p (prefix ++ txt "/") (rw e at h) ∙ append_assoc prefix (txt "/") rest))
        (subst (λ t. Internal (or_root t)) (sym (drop-append prefix (txt "/" ++ rest)))
          (or_root-Internal rest))
]

by_prefix :
    (lang : UiLang) (pathname : Text)
    → is_empty pathname ≡ false
    → lang_match pathname ≡ lang_prefix lang
    → is_under (lang_prefix lang) pathname ≡ true
    → Internal (normalized_path (some pathname))
by_prefix lang pathname e m u =
    subst Internal
      (sym (normalized_lem pathname (lang_prefix lang) e m (lang_prefix_not_empty lang)))
      (rest-Internal (lang_prefix lang) pathname u)

normalized_path-Internal :
    (pathname : Text) → Internal pathname → Internal (normalized_path (some pathname))
unfolding normalized_path lang_match
normalized_path-Internal pathname h = elim (Bool-cases (is_empty pathname)) [
  | inl e ↦ rw (e, normalized_path) root-Internal
  | inr e ↦ elim (Bool-cases (is_under (txt "/fa") pathname)) [
    | inl k ↦ by_prefix fa pathname e (rw (k, lang_match) refl) k
    | inr k ↦ elim (Bool-cases (is_under (txt "/en") pathname)) [
      | inl l ↦ by_prefix en pathname e (rw (k, lang_match, l) refl) l
      | inr l ↦ rw (e, normalized_path, k, lang_match, l) h
    ]
  ]
]

-- From a path within the site, the link to the other language leads to a path of the other language, and to the
-- same path less the language prefix.
pub other_lang_href_lem :
    (pathname : Text)
    → Internal pathname
    → (get_ui_lang_from_pathname (some (other_lang_href (some pathname)))
        ≡ other_lang (get_ui_lang_from_pathname (some pathname)))
      × (normalized_path (some (other_lang_href (some pathname))) ≡ normalized_path (some pathname))
unfolding other_lang_href
other_lang_href_lem pathname h =
    let path = normalized_path (some pathname) in
    let k = normalized_path-Internal pathname h in
    let lang = other_lang (get_ui_lang_from_pathname (some pathname)) in
    (get_ui_lang-below lang path k, normalized_path-below lang path k)
