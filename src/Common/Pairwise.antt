-- ===== src/Common/Pairwise.antt =====
-- Lists whose elements are related in pairs, an earlier one to every later one.
use shadownet_agent.Common.{
  ℕ, zero, suc, ◌≡◌, Bool, true, List, [], ◌∷◌, ◌++◌, take, All, All-append, All-take, Bool-cases,
  inl, inr,
}
use shadownet_agent.Common.Sort.{sort, insert, IsSorted, All-insert, All-sort}

module _ {A : Type 0} (R : A → A → Type 0) where
  abbrev pub Pairwise : List A → Type 0
  Pairwise [] = Unit
  Pairwise (x ∷ xs) = All (R x) xs × Pairwise xs

  pub Pairwise-take : (n : ℕ) (xs : List A) → Pairwise xs → Pairwise (take n xs)
  Pairwise-take zero xs h = tt
  Pairwise-take (suc n) [] h = tt
  Pairwise-take (suc n) (x ∷ xs) (p, h) = (All-take (R x) n xs p, Pairwise-take n xs h)

  pub Pairwise-snoc :
      (xs : List A) (x : A) → Pairwise xs → All (λ y. R y x) xs → Pairwise (xs ++ x ∷ [])
  Pairwise-snoc [] x h k = (tt, tt)
  Pairwise-snoc (y ∷ ys) x (p, h) (q, k) =
      (All-append (R y) ys (x ∷ []) p (q, tt), Pairwise-snoc ys x h k)

  module _ (le : A → A → Bool) (symmetric : (x y : A) → R x y → R y x) where
    Pairwise-insert : (x : A) (ys : List A) → All (R x) ys → Pairwise ys → Pairwise (insert le x ys)
    unfolding insert
    Pairwise-insert x [] p h = (tt, tt)
    Pairwise-insert x (y ∷ ys) (r, p) (q, h) = elim (Bool-cases (le x y)) [
      | inl e ↦ rw e ((r, p), (q, h))
      | inr e ↦ rw e (All-insert le (R y) x ys (symmetric x y r) q, Pairwise-insert x ys p h)
    ]

    -- A symmetric relation does not mind the order.
    pub Pairwise-sort : (xs : List A) → Pairwise xs → Pairwise (sort le xs)
    unfolding sort
    Pairwise-sort [] h = tt
    Pairwise-sort (x ∷ xs) (p, h) =
        Pairwise-insert x (sort le xs) (All-sort le (R x) xs p) (Pairwise-sort xs h)

pub IsSorted-take :
    {A : Type 0} (le : A → A → Bool) (n : ℕ) (xs : List A)
    → IsSorted le xs
    → IsSorted le (take n xs)
IsSorted-take le zero xs s = tt
IsSorted-take le (suc n) [] s = tt
IsSorted-take le (suc n) (x ∷ xs) (least, s) =
    (All-take (λ y. le x y ≡ true) n xs least, IsSorted-take le n xs s)
