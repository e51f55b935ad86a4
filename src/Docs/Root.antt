-- ===== src/Docs/Root.antt =====
-- The search for the directory of documents: findDocsRoot of website/src/lib/docs/fs.ts and
-- findContentRoot of website/src/lib/content/fs.ts, which differ in the name of the directory and
-- in the test of a root.
use shadownet_agent.Common.{
  ℕ, zero, suc, ◌≡◌, refl, Bool, true, false, Option, none, some, List, [], ◌∷◌, ◌++◌, find,
  if◌then◌else◌, inl, inr, ◌⊎◌, All, All-append, arith, ◌&&◌,
}
use shadownet_agent.Common.Text.{Text, txt, same}

-- What node's `path` gives, the name of the directory, and the test of a root.
pub record Paths : Type 0 where
  pub cwd : Text
  pub join : List Text → Text
  pub dirname : Text → Text
  pub name : Text
  pub is_root : Text → Bool

unfoldable pub direct_candidates : Paths → List Text
direct_candidates p =
    p.join (p.cwd ∷ p.name ∷ [])
    ∷ p.join (p.cwd ∷ txt ".." ∷ p.name ∷ [])
    ∷ p.join (p.cwd ∷ txt ".." ∷ txt ".." ∷ p.name ∷ [])
    ∷ []

-- The loop upwards, for as many rounds as are left.
unfoldable pub climb : Paths → ℕ → Text → Option Text
climb p zero dir = none
climb p (suc n) dir =
    let rest = climb p n (p.dirname dir) in
    let c = p.join (dir ∷ p.name ∷ []) in
    if p.is_root c then some c else if same (p.dirname dir) dir then none else rest

unfoldable pub find_root : Paths → Text
find_root p = elim (find p.is_root (direct_candidates p)) [
  | some c ↦ c
  | none ↦ elim (climb p 8 p.cwd) [ some c ↦ c | none ↦ p.join (p.cwd ∷ p.name ∷ []) ]
]

-- What node tells of a path: `none` where `statSync` throws, else whether it is a directory.
pub record Disk : Type 0 where
  pub stat_directory : Text → Option Bool
  pub exists : Text → Bool
  pub join : List Text → Text
  pub dirname : Text → Text
  pub cwd : Text

abbrev is_directory : Option Bool → Bool
is_directory none = false
is_directory (some d) = d

-- isDocsRoot
unfoldable pub is_docs_root : Disk → Text → Bool
is_docs_root d candidate =
    is_directory (d.stat_directory candidate) && d.exists (d.join (candidate ∷ txt "index.md" ∷ []))

-- isContentRoot
unfoldable pub is_content_root : Disk → Text → Bool
is_content_root d candidate =
    is_directory (d.stat_directory candidate)
    && d.exists (d.join (candidate ∷ txt "en" ∷ []))
    && d.exists (d.join (candidate ∷ txt "fa" ∷ []))

abbrev pub paths_of : Disk → Text → (Text → Bool) → Paths
paths_of d name is_root = record {
  cwd = d.cwd;
  join = d.join;
  dirname = d.dirname;
  name = name;
  is_root = is_root;
}

-- findDocsRoot
unfoldable pub find_docs_root : Disk → Text
find_docs_root d = find_root (paths_of d (txt "docs") (is_docs_root d))

-- findContentRoot
unfoldable pub find_content_root : Disk → Text
find_content_root d = find_root (paths_of d (txt "content") (is_content_root d))

-- The directories that the loop looks at, the nearest first.
abbrev pub ancestors : Paths → ℕ → Text → List Text
ancestors p zero dir = []
ancestors p (suc n) dir =
    let rest = ancestors p n (p.dirname dir) in
    p.join (dir ∷ p.name ∷ []) ∷ (if same (p.dirname dir) dir then [] else rest)

abbrev pub candidates : Paths → List Text
candidates p = direct_candidates p ++ ancestors p 8 p.cwd

climb_step :
    (t : Text → Bool) (found top : Bool) (x : Text) (rest : Option Text) (above : List Text)
    → rest ≡ find t above
    → (if found then some x else if top then none else rest)
      ≡ (if found then some x else find t (if top then [] else above))
climb_step t true top x rest above h = refl
climb_step t false true x rest above h = refl
climb_step t false false x rest above h = h

climb-ancestors :
    (p : Paths) (n : ℕ) (dir : Text) → climb p n dir ≡ find p.is_root (ancestors p n dir)
unfolding climb
climb-ancestors p zero dir = refl
climb-ancestors p (suc n) dir =
    climb_step p.is_root (p.is_root (p.join (dir ∷ p.name ∷ []))) (same (p.dirname dir) dir)
      (p.join (dir ∷ p.name ∷ [])) (climb p n (p.dirname dir)) (ancestors p n (p.dirname dir))
      (climb-ancestors p n (p.dirname dir))

find_lem :
    (t : Text → Bool) (xs : List Text)
    → ((c : Text) × ((find t xs ≡ some c) × (t c ≡ true)))
      ⊎ ((find t xs ≡ none) × All (λ c. t c ≡ false) xs)
find_lem t [] = inr (refl, tt)
find_lem t (x ∷ xs) = ground (arith, find_lem t xs)

-- The directory found is a root, unless none of the three direct candidates and none of those at the
-- working directory and up to seven directories above it is: then it is the one at the working directory.
pub find_root_lem :
    (p : Paths)
    → (p.is_root (find_root p) ≡ true)
      ⊎ (All (λ c. p.is_root c ≡ false) (candidates p)
          × (find_root p ≡ p.join (p.cwd ∷ p.name ∷ [])))
unfolding find_root
find_root_lem p = elim (find_lem p.is_root (direct_candidates p)) [
  | inl (c, (e, t)) ↦ inl (rw (e, find_root) t)
  | inr (e, h) ↦ elim (find_lem p.is_root (ancestors p 8 p.cwd)) [
    | inl (c, (f, t)) ↦ inl (rw (e, climb-ancestors p 8 p.cwd, f, find_root) t)
    | inr (f, k) ↦ inr (
      All-append (λ c. p.is_root c ≡ false) (direct_candidates p) (ancestors p 8 p.cwd) h k,
      rw (e, climb-ancestors p 8 p.cwd, f, find_root) refl,
    )
  ]
]
