-- ===== src/Base/Dict.antt =====
-- Go maps with text keys, as association lists that hold a key once.
use mirror_sync.Base.{
  ◌≡◌, refl, false, ◌||◌, Option, none, some, List, [], ◌∷◌, arith, if◌then◌else◌, All, Bool-cases,
  inl, inr, subst,
}
use mathlib.Core.Option.{some-injective}
use mirror_sync.Base.Text.{Bytes, ◌=ˢ◌, contains}
use mirror_sync.Base.Text.Laws.{=ˢ_iff}

abbrev pub Dict : Type 0 → Type 0
Dict V = List (Bytes × V)

-- A set, `map[string]bool`, as the list of its members.
abbrev pub Set : Type 0
Set = List Bytes

module _ {V : Type 0} where
  unfoldable pub lookup : Bytes → Dict V → Option V
  unfolding ◌=ˢ◌
  lookup k [] = none
  lookup k ((j, v) ∷ m) = if j =ˢ k then some v else lookup k m

  unfoldable pub insert : Bytes → V → Dict V → Dict V
  unfolding ◌=ˢ◌
  insert k v [] = (k, v) ∷ []
  insert k v ((j, w) ∷ m) = if j =ˢ k then (k, v) ∷ m else (j, w) ∷ insert k v m

  unfoldable pub keys : Dict V → List Bytes
  keys [] = []
  keys ((k, v) ∷ m) = k ∷ keys m

  unfoldable pub values : Dict V → List V
  values [] = []
  values ((k, v) ∷ m) = v ∷ values m

  pub lookup-insert :
      (k j : Bytes) (v : V) (m : Dict V)
      → lookup j (insert k v m) ≡ (if k =ˢ j then some v else lookup j m)
  unfolding lookup insert
  lookup-insert k j v [] = refl
  lookup-insert k j v ((i, w) ∷ m) =
      ground (arith, =ˢ_iff k j, =ˢ_iff i k, =ˢ_iff i j, lookup-insert k j v m)

-- set[k] = true
unfoldable pub add : Bytes → Set → Set
unfolding contains
add k s = if contains s k then s else k ∷ s

-- delete(set, k)
unfoldable pub remove : Bytes → Set → Set
unfolding ◌=ˢ◌
remove k [] = []
remove k (x ∷ s) = let rest = remove k s in if x =ˢ k then rest else x ∷ rest

pub contains-add : (k j : Bytes) (s : Set) → contains (add k s) j ≡ (k =ˢ j || contains s j)
unfolding add contains
contains-add k j s = ground (arith, =ˢ_iff k j)

pub contains-remove :
    (k j : Bytes) (s : Set) → contains (remove k s) j ≡ (if k =ˢ j then false else contains s j)
unfolding remove contains
contains-remove k j [] = ground arith
contains-remove k j (x ∷ s) =
    ground (arith, =ˢ_iff k j, =ˢ_iff x k, =ˢ_iff x j, contains-remove k j s)

module _ {V : Type 0} (P : Bytes × V → Type 0) where
  pub insert-All : (k : Bytes) (v : V) (m : Dict V) → P (k, v) → All P m → All P (insert k v m)
  unfolding insert
  insert-All k v [] p _ = (p, tt)
  insert-All k v ((j, w) ∷ m) p (q, h) = elim (Bool-cases (j =ˢ k)) [
    | inl e ↦ rw e (p, h)
    | inr e ↦ rw e (q, insert-All k v m p h)
  ]

  pub lookup-All : (k : Bytes) (m : Dict V) {v : V} → All P m → lookup k m ≡ some v → P (k, v)
  unfolding lookup
  lookup-All k [] h e = absurd (cc)
  lookup-All k ((j, w) ∷ m) {v} (q, h) e = elim (Bool-cases (j =ˢ k)) [
    | inl same ↦
        subst (λ x. P (x, v)) ((=ˢ_iff j k).0 same)
          (subst (λ x. P (j, x)) (some-injective w v (rw same at e)) q)
    | inr other ↦ lookup-All k m h (rw other at e)
  ]

module _ {V : Type 0} (P : V → Type 0) where
  pub values-All : (m : Dict V) → All (λ (e : Bytes × V). P e.1) m → All P (values m)
  unfolding values
  values-All [] _ = tt
  values-All ((k, v) ∷ m) (p, h) = (p, values-All m h)

-- No text is listed twice.
abbrev pub Distinct : List Bytes → Type 0
Distinct [] = Unit
Distinct (k ∷ ks) = (contains ks k ≡ false) × Distinct ks

module _ {V : Type 0} where
  contains-keys-insert :
      (k j : Bytes) (v : V) (m : Dict V)
      → contains (keys (insert k v m)) j ≡ (k =ˢ j || contains (keys m) j)
  unfolding contains keys insert
  contains-keys-insert k j v [] = refl
  contains-keys-insert k j v ((i, w) ∷ m) =
      ground (arith, =ˢ_iff i k, =ˢ_iff k j, =ˢ_iff i j, contains-keys-insert k j v m)

  -- A map holds a key once.
  pub insert-Distinct :
      (k : Bytes) (v : V) (m : Dict V) → Distinct (keys m) → Distinct (keys (insert k v m))
  unfolding keys insert
  insert-Distinct k v [] h = (unfold contains in refl, tt)
  insert-Distinct k v ((i, w) ∷ m) h =
      ground (arith, =ˢ_iff i k, =ˢ_iff k i, contains-keys-insert k i v m, insert-Distinct k v m)
