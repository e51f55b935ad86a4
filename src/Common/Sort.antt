-- ===== src/Common/Sort.antt =====
-- `Array.prototype.sort`: a stable sort by a comparison, `le a b` standing for `compare(a, b) <= 0`.
use mathlib.Core.List.Perm
use mathlib.Core.List.{Perm, reverse-cons}
use shadownet_agent.Common.{
  ◌≡◌, sym, Bool, true, false, List, [], ◌∷◌, if◌then◌else◌, All, Bool-cases, inl, inr, reverse,
  ◌++◌, subst, All-reverse, All-append,
}

module _ {A : Type 0} (le : A → A → Bool) where
  -- Before the first element that is not smaller.
  unfoldable pub insert : A → List A → List A
  insert x [] = x ∷ []
  insert x (y ∷ ys) = if le x y then x ∷ y ∷ ys else y ∷ insert x ys

  unfoldable pub sort : List A → List A
  unfolding insert
  sort [] = []
  sort (x ∷ xs) = insert x (sort xs)

  abbrev pub IsSorted : List A → Type 0
  IsSorted [] = Unit
  IsSorted (x ∷ xs) = All (λ y. le x y ≡ true) xs × IsSorted xs

  pub All-insert : (P : A → Type 0) (x : A) (ys : List A) → P x → All P ys → All P (insert x ys)
  unfolding insert
  All-insert P x [] p h = (p, tt)
  All-insert P x (y ∷ ys) p (q, h) = elim (Bool-cases (le x y)) [
    | inl e ↦ rw e (p, (q, h))
    | inr e ↦ rw e (q, All-insert P x ys p h)
  ]

  -- What holds of all elements holds of all after sorting.
  pub All-sort : (P : A → Type 0) (xs : List A) → All P xs → All P (sort xs)
  unfolding sort
  All-sort P [] h = tt
  All-sort P (x ∷ xs) (p, h) = All-insert P x (sort xs) p (All-sort P xs h)

  insert-perm : (x : A) (ys : List A) → Perm (insert x ys) (x ∷ ys)
  unfolding insert
  insert-perm x [] = Perm.refl _
  insert-perm x (y ∷ ys) = elim (Bool-cases (le x y)) [
    | inl e ↦ rw e (Perm.refl _)
    | inr e ↦ rw e (Perm.trans (Perm.cons y (insert-perm x ys)) (Perm.swap x y ys))
  ]

  pub sort-perm : (xs : List A) → Perm (sort xs) xs
  unfolding sort
  sort-perm [] = Perm.refl _
  sort-perm (x ∷ xs) = Perm.trans (insert-perm x (sort xs)) (Perm.cons x (sort-perm xs))

-- The order laws are asked of the elements of the list alone: `P` is what is known of them.
module _ {A : Type 0} (le : A → A → Bool) (P : A → Type 0)
    (trans : (x y z : A) → P x → P y → P z → le x y ≡ true → le y z ≡ true → le x z ≡ true)
    (total : (x y : A) → P x → P y → le x y ≡ false → le y x ≡ true) where
  All-le_trans :
      (x y : A) (ys : List A)
      → P x
      → P y
      → All P ys
      → le x y ≡ true
      → All (λ z. le y z ≡ true) ys
      → All (λ z. le x z ≡ true) ys
  All-le_trans x y [] px py h xy k = tt
  All-le_trans x y (z ∷ zs) px py (pz, h) xy (yz, k) =
      (trans x y z px py pz xy yz, All-le_trans x y zs px py h xy k)

  insert-IsSorted :
      (x : A) (ys : List A) → P x → All P ys → IsSorted le ys → IsSorted le (insert le x ys)
  unfolding insert
  insert-IsSorted x [] px h s = (tt, tt)
  insert-IsSorted x (y ∷ ys) px (py, h) (least, s) = elim (Bool-cases (le x y)) [
    | inl e ↦ rw e ((e, All-le_trans x y ys px py h e least), (least, s))
    | inr e ↦ rw e (
      All-insert le (λ z. le y z ≡ true) x ys (total x y px py e) least,
      insert-IsSorted x ys px h s,
    )
  ]

  -- Sorting orders the list.
  pub sort-IsSorted : (xs : List A) → All P xs → IsSorted le (sort le xs)
  unfolding sort
  sort-IsSorted [] h = tt
  sort-IsSorted (x ∷ xs) (p, h) =
      insert-IsSorted x (sort le xs) p (All-sort le P xs h) (sort-IsSorted xs h)

module _ {A : Type 0} (le : A → A → Bool) where
  IsSorted-snoc :
      (xs : List A) (x : A)
      → IsSorted le xs
      → All (λ y. le y x ≡ true) xs
      → IsSorted le (xs ++ x ∷ [])
  IsSorted-snoc [] x s h = (tt, tt)
  IsSorted-snoc (y ∷ ys) x (least, s) (p, h) =
      (All-append (λ z. le y z ≡ true) ys (x ∷ []) least (p, tt), IsSorted-snoc ys x s h)

-- A sorted list backwards is sorted the other way.
pub IsSorted-reverse :
    {A : Type 0} (le : A → A → Bool) (xs : List A)
    → IsSorted le xs
    → IsSorted (λ a b. le b a) (reverse xs)
IsSorted-reverse le [] s = tt
IsSorted-reverse le (x ∷ xs) (least, s) =
    subst (IsSorted (λ a b. le b a)) (sym (reverse-cons x xs)) (
      IsSorted-snoc (λ a b. le b a) (reverse xs) x (IsSorted-reverse le xs s)
        (All-reverse (λ y. le x y ≡ true) xs least))
