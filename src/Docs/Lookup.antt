-- ===== src/Docs/Lookup.antt =====
-- A listed document is found by its slug: getDocBySlug of website/src/lib/docs/fs.ts.
use mathlib.Core.Bool.{true≢false}
use mathlib.Core.Option.{some_inj}
use shadownet_agent.Common.Sort.{All-sort}
use shadownet_agent.Common.Text.Laws.{Lacks, split-Lacks, same_refl, same_sound}
use shadownet_agent.Common.Text.{Text, txt, same, split, split_from, join, Unicode}
use shadownet_agent.Common.Int.{ℤ}
use shadownet_agent.Common.{
  ◌≡◌, refl, sym, ap, subst, ◌∙◌, arith, false, not, some, none_absurd, List, [], ◌∷◌, ◌++◌,
  append_assoc, append-nil, filter, find, is_empty, Bool-cases, inl, inr, All, All-append,
}
use shadownet_agent.Docs.{
  Entries, end, file, directory, other, DocEntry, slug_of, entry_of, walk, slug_key, entry_le,
  get_docs_index, get_doc_by_slug, is_hidden,
}

-- A part of a slug: not empty, and without a slash.
abbrev pub IsPart : Text → Type 0
IsPart part = (is_empty part ≡ false) × Lacks b'/' part

split_from-nil : (cur p : Text) → Lacks b'/' p → split_from b'/' cur p ≡ (cur ++ p) ∷ []
unfolding split_from
split_from-nil cur [] h = ap (λ (t : Text). t ∷ []) (sym (append-nil cur))
split_from-nil cur (c ∷ p) (k, h) =
    ground (arith, split_from-nil (cur ++ c ∷ []) p h, append_assoc cur (c ∷ []) p)

split_from-append :
    (cur p s : Text)
    → Lacks b'/' p
    → split_from b'/' cur (p ++ (txt "/" ++ s)) ≡ (cur ++ p) ∷ split_from b'/' [] s
unfolding split_from txt
split_from-append cur [] s h = ap (λ (t : Text). t ∷ split_from b'/' [] s) (sym (append-nil cur))
split_from-append cur (c ∷ p) s (k, h) =
    ground (arith, split_from-append (cur ++ c ∷ []) p s h, append_assoc cur (c ∷ []) p)

-- Joining and splitting a slug gives its parts again.
split-join :
    (part : Text) (parts : List Text)
    → All IsPart (part ∷ parts)
    → split b'/' (join (txt "/") (part ∷ parts)) ≡ part ∷ parts
unfolding split join
split-join part [] ((k, h), t) = split_from-nil [] part h
split-join part (q ∷ qs) ((k, h), t) =
    split_from-append [] part (join (txt "/") (q ∷ qs)) h
    ∙ ap (λ (ts : List Text). part ∷ ts) (split-join q qs t)

is_empty-append : (p s : Text) → is_empty p ≡ false → is_empty (p ++ s) ≡ false
is_empty-append [] s h = absurd (true≢false h)
is_empty-append (c ∷ p) s h = refl

is_empty-join :
    (part : Text) (parts : List Text)
    → is_empty part ≡ false
    → is_empty (join (txt "/") (part ∷ parts)) ≡ false
unfolding join
is_empty-join part [] h = h
is_empty-join part (q ∷ qs) h = is_empty-append part (txt "/" ++ join (txt "/") (q ∷ qs)) h

pub slug_key_inj :
    (xs ys : List Text) → All IsPart xs → All IsPart ys → slug_key xs ≡ slug_key ys → xs ≡ ys
unfolding join
slug_key_inj [] [] h k e = refl
slug_key_inj [] (y ∷ ys) h (k, t) e = absurd (true≢false (ap is_empty e ∙ is_empty-join y ys k.0))
slug_key_inj (x ∷ xs) [] (h, t) k e =
    absurd (true≢false (sym (ap is_empty e) ∙ is_empty-join x xs h.0))
slug_key_inj (x ∷ xs) (y ∷ ys) h k e =
    sym (split-join x xs h) ∙ (ap (split b'/') e ∙ split-join y ys k)

IsPart-filter :
    (parts : List Text)
    → All (Lacks b'/') parts
    → All IsPart (filter (λ (part : Text). not (is_empty part)) parts)
IsPart-filter [] h = tt
IsPart-filter (p ∷ ps) (k, h) = ground (arith, IsPart-filter ps h, k)

-- The entries of the walk have slugs of parts.
abbrev pub HasSlug : DocEntry → Type 0
HasSlug e = All IsPart e.slug

slug_of-IsPart : (path : List Text) → All IsPart (slug_of path)
unfolding slug_of
slug_of-IsPart path = IsPart-filter (split b'/' _) (split-Lacks b'/' _)

pub walk-HasSlug : (u : Unicode) (dirs : List Text) (es : Entries) → All HasSlug (walk u dirs es)
unfolding walk entry_of
walk-HasSlug u dirs end = tt
walk-HasSlug u dirs (other name more) = walk-HasSlug u dirs more
walk-HasSlug u dirs (file name contents more) =
    ground (arith, walk-HasSlug u dirs more, slug_of-IsPart (dirs ++ name ∷ []))
walk-HasSlug u dirs (directory name es more) = elim (Bool-cases (is_hidden name)) [
  | inl e ↦ rw e (walk-HasSlug u dirs more)
  | inr e ↦ rw e (
      All-append HasSlug (walk u (dirs ++ name ∷ []) es) (walk u dirs more)
        (walk-HasSlug u (dirs ++ name ∷ []) es) (walk-HasSlug u dirs more))
]

find_slug :
    (before after : List DocEntry) (e : DocEntry)
    → All HasSlug (before ++ e ∷ after)
    → (f : DocEntry) × (find
          (λ (x : DocEntry). same (slug_key x.slug) (slug_key e.slug))
          (before ++ e ∷ after)
        ≡ some f)
      × (f.slug ≡ e.slug)
find_slug [] after e h = (e, rw (same_refl (slug_key e.slug)) refl, refl)
find_slug (b ∷ before) after e (k, h) =
    elim (Bool-cases (same (slug_key b.slug) (slug_key e.slug))) [
      | inl t ↦ (
        b,
        rw t refl,
        slug_key_inj b.slug e.slug k (of_middle before h)
            (same_sound (slug_key b.slug) (slug_key e.slug) t),
      )
      | inr t ↦ let (f, p, q) = find_slug before after e h in (f, rw t p, q)
    ]
  where
    of_middle : (xs : List DocEntry) → All HasSlug (xs ++ e ∷ after) → HasSlug e
    of_middle [] (p, q) = p
    of_middle (x ∷ xs) (p, q) = of_middle xs q

-- Each document of the index is found by its slug, or another with the very same slug is: no slug of
-- the index is read as a different one.
pub get_doc_by_slug_lem :
    (u : Unicode) (collate : Text → Text → ℤ) (root : Entries) (before after : List DocEntry)
    (e : DocEntry)
    → get_docs_index u collate root ≡ before ++ e ∷ after
    → (f : DocEntry) × (get_doc_by_slug u collate root e.slug ≡ some f) × (f.slug ≡ e.slug)
unfolding get_doc_by_slug get_docs_index
get_doc_by_slug_lem u collate root before after e h =
    let listed = All-sort (entry_le collate) HasSlug (walk u [] root) (walk-HasSlug u [] root) in
    let (f, p, q) = find_slug before after e (subst (All HasSlug) h listed) in
    (f, ap (find (λ (x : DocEntry). same (slug_key x.slug) (slug_key e.slug))) h ∙ p, q)

find-slug :
    (listed : List DocEntry) (slug : List Text) (f : DocEntry)
    → All HasSlug listed
    → All IsPart slug
    → find (λ (x : DocEntry). same (slug_key x.slug) (slug_key slug)) listed ≡ some f
    → f.slug ≡ slug
find-slug [] slug f h p k = none_absurd k
find-slug (d ∷ listed) slug f (q, h) p k =
    elim (Bool-cases (same (slug_key d.slug) (slug_key slug))) [
      | inl t ↦
          ap (λ (x : DocEntry). x.slug) (sym (some_inj.0 (rw t at k)))
          ∙ slug_key_inj d.slug slug q p (same_sound (slug_key d.slug) (slug_key slug) t)
      | inr t ↦ find-slug listed slug f h p (rw t at k)
    ]

-- What is found by a slug of parts has that slug.
pub get_doc_by_slug-slug :
    (u : Unicode) (collate : Text → Text → ℤ) (root : Entries) (slug : List Text) (f : DocEntry)
    → All IsPart slug
    → get_doc_by_slug u collate root slug ≡ some f
    → f.slug ≡ slug
unfolding get_doc_by_slug get_docs_index
get_doc_by_slug-slug u collate root slug f p h =
    find-slug (get_docs_index u collate root) slug f
      (All-sort (entry_le collate) HasSlug (walk u [] root) (walk-HasSlug u [] root)) p h
