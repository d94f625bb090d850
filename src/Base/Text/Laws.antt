-- ===== src/Base/Text/Laws.antt =====
-- Laws of the text functions.
use mirror_sync.Base.{ℕ, ◌≡◌, ◌≢◌, refl, ◌↔◌, true, false, ◌||◌, List, [], ◌∷◌, ◌++◌, arith, All}
use mirror_sync.Base.Text.{Bytes, ◌=ˢ◌, split, grow, join, text_leb, contains, equal_fold, to_lower}

pub =ˢ_iff : (a b : Bytes) → ((a =ˢ b) ≡ true) ↔ (a ≡ b)
unfolding ◌=ˢ◌
=ˢ_iff [] [] = ground arith
=ˢ_iff [] (y ∷ ys) = ground arith
=ˢ_iff (x ∷ xs) [] = ground arith
=ˢ_iff (x ∷ xs) (y ∷ ys) = ground (arith, =ˢ_iff xs ys)

pub =ˢ_refl : (a : Bytes) → (a =ˢ a) ≡ true
=ˢ_refl a = (=ˢ_iff a a).1 refl

pub equal_fold_refl : (a : Bytes) → equal_fold a a ≡ true
unfolding equal_fold
equal_fold_refl a = =ˢ_refl (to_lower a)

pub equal_fold_sym : (a b : Bytes) → equal_fold a b ≡ equal_fold b a
unfolding equal_fold
equal_fold_sym a b =
    ground (arith, =ˢ_iff (to_lower a) (to_lower b), =ˢ_iff (to_lower b) (to_lower a))

pub equal_fold_trans :
    (a b c : Bytes) → equal_fold a b ≡ true → equal_fold b c ≡ true → equal_fold a c ≡ true
unfolding equal_fold
equal_fold_trans a b c h k = ground (
  arith,
  =ˢ_iff (to_lower a) (to_lower b),
  =ˢ_iff (to_lower b) (to_lower c),
  =ˢ_iff (to_lower a) (to_lower c),
)

pub split-ne-nil : (s : Bytes) (sep : ℕ) → split s sep ≢ []
unfolding split
split-ne-nil [] sep = ground arith
split-ne-nil (c ∷ s) sep = ground (arith, split-ne-nil s sep)

pub grow-append : (c : ℕ) (ps qs : List Bytes) → ps ≢ [] → grow c ps ++ qs ≡ grow c (ps ++ qs)
unfolding grow
grow-append c [] qs h = absurd (h refl)
grow-append c (p ∷ ps) qs h = refl

-- A separator between two texts splits them apart.
pub split-append : (a b : Bytes) (sep : ℕ) → split (a ++ (sep ∷ b)) sep ≡ split a sep ++ split b sep
unfolding split
split-append [] b sep = ground arith
split-append (c ∷ a) b sep =
    ground
      (arith, split-append a b sep, grow-append c (split a sep) (split b sep), split-ne-nil a sep)

abbrev pub Lacks : ℕ → Bytes → Type 0
Lacks sep = All (λ c. c ≢ sep)

pub split_one : (p : Bytes) (sep : ℕ) → Lacks sep p → split p sep ≡ p ∷ []
unfolding split
split_one [] sep _ = refl
split_one (c ∷ p) sep (hc, hp) = ground (arith, split_one p sep hp)

-- Joined parts that hold no separator are split into the same parts.
pub split-join :
    (ps : List Bytes) (sep : ℕ) → ps ≢ [] → All (Lacks sep) ps → split (join ps sep) sep ≡ ps
unfolding join
split-join [] sep h _ = absurd (h refl)
split-join (p ∷ []) sep h (hp, _) = split_one p sep hp
split-join (p ∷ q ∷ ps) sep h (hp, hq) = ground (
  arith,
  split-append p (join (q ∷ ps) sep) sep,
  split_one p sep hp,
  split-join (q ∷ ps) sep (ground arith) hq,
)

-- No part of a split holds the separator.
pub split-Lacks : (s : Bytes) (sep : ℕ) → All (Lacks sep) (split s sep)
unfolding split
split-Lacks [] sep = (tt, tt)
split-Lacks (c ∷ s) sep = ground (arith, split-Lacks s sep)

pub contains-append :
    (xs ys : List Bytes) (k : Bytes) → contains (xs ++ ys) k ≡ (contains xs k || contains ys k)
unfolding contains
contains-append [] ys k = refl
contains-append (x ∷ xs) ys k = ground (arith, contains-append xs ys k)

pub text_leb_refl : (a : Bytes) → text_leb a a ≡ true
unfolding text_leb
text_leb_refl [] = refl
text_leb_refl (x ∷ xs) = ground (arith, text_leb_refl xs)

pub text_leb_total : (a b : Bytes) → text_leb a b ≡ false → text_leb b a ≡ true
unfolding text_leb
text_leb_total [] b h = cc
text_leb_total (x ∷ xs) [] h = refl
text_leb_total (x ∷ xs) (y ∷ ys) h = ground (arith, text_leb_total xs ys)

pub text_leb_trans :
    (a b c : Bytes) → text_leb a b ≡ true → text_leb b c ≡ true → text_leb a c ≡ true
unfolding text_leb
text_leb_trans [] b c h k = refl
text_leb_trans (x ∷ xs) [] c h k = cc
text_leb_trans (x ∷ xs) (y ∷ ys) [] h k = cc
text_leb_trans (x ∷ xs) (y ∷ ys) (z ∷ zs) h k = ground (arith, text_leb_trans xs ys zs)

pub text_leb_antisym : (a b : Bytes) → text_leb a b ≡ true → text_leb b a ≡ true → a ≡ b
unfolding text_leb
text_leb_antisym [] [] h k = refl
text_leb_antisym [] (y ∷ ys) h k = cc
text_leb_antisym (x ∷ xs) [] h k = cc
text_leb_antisym (x ∷ xs) (y ∷ ys) h k = ground (arith, text_leb_antisym xs ys)
