-- ===== src/Base/Sort.antt =====
-- sort.Slice, sort.SliceStable and sort.Strings: a stable insertion sort by an order test.
use mirror_sync.Base.{
  ◌≡◌, refl, Bool, true, false, ◌||◌, List, [], ◌∷◌, arith, if◌then◌else◌, All, All-map, any_by,
  Bool-cases, inl, inr,
}
use mirror_sync.Base.Text.{Bytes, text_leb, contains, ◌=ˢ◌}
use mathlib.Core.List.{Perm}
use mathlib.Core.List.Perm

module _ {A : Type 0} (le : A → A → Bool) where
  unfoldable pub insert : A → List A → List A
  insert a [] = a ∷ []
  insert a (x ∷ xs) = let rest = insert a xs in if le a x then a ∷ x ∷ xs else x ∷ rest

  unfoldable pub sort : List A → List A
  unfolding insert
  sort [] = []
  sort (x ∷ xs) = insert x (sort xs)

  -- Each element is in order with all that follow it.
  abbrev pub Sorted : List A → Type 0
  Sorted [] = Unit
  Sorted (x ∷ xs) = All (λ y. le x y ≡ true) xs × Sorted xs

  pub insert-All : (P : A → Type 0) (a : A) (xs : List A) → P a → All P xs → All P (insert a xs)
  unfolding insert
  insert-All P a [] pa _ = (pa, tt)
  insert-All P a (x ∷ xs) pa (px, h) = elim (Bool-cases (le a x)) [
    | inl e ↦ rw e (pa, (px, h))
    | inr e ↦ rw e (px, insert-All P a xs pa h)
  ]

  pub sort-All : (P : A → Type 0) (xs : List A) → All P xs → All P (sort xs)
  unfolding sort
  sort-All P [] _ = tt
  sort-All P (x ∷ xs) (px, h) = insert-All P x (sort xs) px (sort-All P xs h)

  pub insert-any_by :
      (p : A → Bool) (a : A) (xs : List A) → any_by p (insert a xs) ≡ (p a || any_by p xs)
  unfolding insert
  insert-any_by p a [] = refl
  insert-any_by p a (x ∷ xs) = ground (arith, insert-any_by p a xs)

  pub sort-any_by : (p : A → Bool) (xs : List A) → any_by p (sort xs) ≡ any_by p xs
  unfolding sort
  sort-any_by p [] = refl
  sort-any_by p (x ∷ xs) = ground (arith, insert-any_by p x (sort xs), sort-any_by p xs)

  insert-perm : (a : A) (xs : List A) → Perm (insert a xs) (a ∷ xs)
  unfolding insert
  insert-perm a [] = Perm.refl _
  insert-perm a (x ∷ xs) = elim (Bool-cases (le a x)) [
    | inl e ↦ rw e (Perm.refl _)
    | inr e ↦ rw e (Perm.trans (Perm.cons x (insert-perm a xs)) (Perm.swap a x xs))
  ]

  -- The result holds the same elements, as often.
  pub sort-perm : (xs : List A) → Perm (sort xs) xs
  unfolding sort
  sort-perm [] = Perm.refl _
  sort-perm (x ∷ xs) = Perm.trans (insert-perm x (sort xs)) (Perm.cons x (sort-perm xs))

  module _ (le_total : (a b : A) → le a b ≡ false → le b a ≡ true)
      (le_trans : (a b c : A) → le a b ≡ true → le b c ≡ true → le a c ≡ true) where
    insert-Sorted : (a : A) (xs : List A) → Sorted xs → Sorted (insert a xs)
    unfolding insert
    insert-Sorted a [] _ = (tt, tt)
    insert-Sorted a (x ∷ xs) (hx, s) = elim (Bool-cases (le a x)) [
      | inl e ↦ rw e (
        (e, All-map (λ y. le x y ≡ true) (λ y. le a y ≡ true) (λ y h. le_trans a x y e h) xs hx),
        (hx, s),
      )
      | inr e ↦
          rw e (insert-All (λ y. le x y ≡ true) a xs (le_total a x e) hx, insert-Sorted a xs s)
    ]

    pub sort-Sorted : (xs : List A) → Sorted (sort xs)
    unfolding sort
    sort-Sorted [] = tt
    sort-Sorted (x ∷ xs) = insert-Sorted x (sort xs) (sort-Sorted xs)

-- sort.Strings
unfoldable pub sort_strings : List Bytes → List Bytes
unfolding sort text_leb
sort_strings = sort text_leb

pub contains-sort_strings :
    (xs : List Bytes) (k : Bytes) → contains (sort_strings xs) k ≡ contains xs k
unfolding sort_strings
contains-sort_strings xs k = unfold contains in sort-any_by text_leb (λ x. x =ˢ k) xs
