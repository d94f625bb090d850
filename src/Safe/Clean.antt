-- ===== src/Safe/Clean.antt =====
-- Cleaned paths: what their elements are, and that cleaning again changes nothing.
use mirror_sync.Base.{
  ◌≡◌, refl, sym, ap, ◌∙◌, ◌≢◌, Bool, true, false, List, [], ◌∷◌, ◌++◌, foldl, reverse, arith, All,
  append_assoc, append-nil, ◌⊎◌, inl, inr, Bool-cases,
}
use mathlib.Core.List.{reverse-cons, reverse_aux}
use mirror_sync.Base.Text.{Bytes, str, ◌=ˢ◌, split, join}
use mirror_sync.Base.Text.Laws.{=ˢ_iff, Lacks, split-Lacks, split-join}
use mirror_sync.Safe.{is_abs, push, elements, render, clean}

-- An element of a path that is neither empty nor `.`, and holds no slash.
abbrev pub IsElement : Bytes → Type 0
IsElement p = Lacks b'/' p × (p ≢ []) × (p ≢ str ".")

-- An element that is not `..` either.
abbrev pub IsName : Bytes → Type 0
IsName p = IsElement p × (p ≢ str "..")

-- A stack of elements: names, above a run of `..`.
abbrev Shape : List Bytes → Type 0
Shape [] = Unit {0}
Shape (p ∷ ps) = IsElement p × ((p ≢ str "..") ⊎ All (λ q. q ≡ str "..") ps) × Shape ps

push-Shape :
    (rooted : Bool) (st : List Bytes) (p : Bytes)
    → Lacks b'/' p
    → Shape st
    → Shape (push rooted st p)
unfolding push
push-Shape true [] p l s = ground (arith, =ˢ_iff p (str "."), =ˢ_iff p (str ".."))
push-Shape false [] p l s = ground (arith, =ˢ_iff p (str "."), =ˢ_iff p (str ".."))
push-Shape rooted (q ∷ st) p l s =
    ground (arith, =ˢ_iff p (str "."), =ˢ_iff p (str ".."), =ˢ_iff q (str ".."))

fold-Shape :
    (rooted : Bool) (ps st : List Bytes)
    → All (Lacks b'/') ps
    → Shape st
    → Shape (foldl (push rooted) st ps)
fold-Shape rooted [] st _ s = s
fold-Shape rooted (p ∷ ps) st (l, h) s =
    fold-Shape rooted ps (push rooted st p) h (push-Shape rooted st p l s)

push-IsName :
    (st : List Bytes) (p : Bytes) → Lacks b'/' p → All IsName st → All IsName (push true st p)
unfolding push
push-IsName [] p l s = ground (arith, =ˢ_iff p (str "."), =ˢ_iff p (str ".."))
push-IsName (q ∷ st) p l s =
    ground (arith, =ˢ_iff p (str "."), =ˢ_iff p (str ".."), =ˢ_iff q (str ".."))

fold-IsName :
    (ps st : List Bytes)
    → All (Lacks b'/') ps
    → All IsName st
    → All IsName (foldl (push true) st ps)
fold-IsName [] st _ s = s
fold-IsName (p ∷ ps) st (l, h) s = fold-IsName ps (push true st p) h (push-IsName st p l s)

push_name : (rooted : Bool) (st : List Bytes) (p : Bytes) → IsName p → push rooted st p ≡ p ∷ st
unfolding push
push_name rooted st [] n = absurd (n.0.1 refl)
push_name rooted st (c ∷ p) n = ground (arith, =ˢ_iff (c ∷ p) (str "."), =ˢ_iff (c ∷ p) (str ".."))

-- Names are pushed one by one.
pub fold-names :
    (rooted : Bool) (ps st : List Bytes)
    → All IsName ps
    → reverse (foldl (push rooted) st ps) ≡ reverse st ++ ps
fold-names rooted [] st _ = sym (append-nil (reverse st))
fold-names rooted (p ∷ ps) st (n, h) = rw (push_name rooted st p n) (
    fold-names rooted ps (p ∷ st) h
    ∙ (ap (λ xs. xs ++ ps) (reverse-cons p st) ∙ append_assoc (reverse st) (p ∷ []) ps))

reverse_aux-All :
    (P : Bytes → Type 0) (xs r : List Bytes) → All P xs → All P r → All P (reverse_aux xs r)
reverse_aux-All P [] r _ h = h
reverse_aux-All P (x ∷ xs) r (px, hx) h = reverse_aux-All P xs (x ∷ r) hx (px, h)

pub elements-IsName : (p : Bytes) → is_abs p ≡ true → All IsName (elements p)
unfolding elements
elements-IsName p e = rw e (
    reverse_aux-All IsName (foldl (push true) [] (split p b'/')) []
      (fold-IsName (split p b'/') [] (split-Lacks p b'/') tt) tt)

-- The first element is `..`.
abbrev pub StartsUp : List Bytes → Type 0
StartsUp [] = ⊥
StartsUp (p ∷ ps) = p ≡ str ".."

dots-StartsUp :
    (ps acc : List Bytes)
    → All (λ q. q ≡ str "..") ps
    → StartsUp acc
    → StartsUp (reverse_aux ps acc)
dots-StartsUp [] acc _ h = h
dots-StartsUp (p ∷ ps) acc (e, es) h = dots-StartsUp ps (p ∷ acc) es e

Shape-cases :
    (st acc : List Bytes)
    → Shape st
    → All IsName acc
    → All IsName (reverse_aux st acc) ⊎ StartsUp (reverse_aux st acc)
Shape-cases [] acc _ h = inl h
Shape-cases (p ∷ st) acc (el, inl n, s) h = Shape-cases st (p ∷ acc) s ((el, n), h)
Shape-cases (p ∷ st) acc (el, inr dots, s) h = elim (Bool-cases (p =ˢ str "..")) [
  | inl e ↦ inr (dots-StartsUp st (p ∷ acc) dots ((=ˢ_iff p (str "..")).0 e))
  | inr e ↦ Shape-cases st (p ∷ acc) s ((el, λ q. ground (arith, =ˢ_iff p (str ".."))), h)
]

pub elements-cases : (p : Bytes) → All IsName (elements p) ⊎ StartsUp (elements p)
unfolding elements
elements-cases p =
    Shape-cases (foldl (push (is_abs p)) [] (split p b'/')) []
      (fold-Shape (is_abs p) (split p b'/') [] (split-Lacks p b'/') tt) tt

names-Lacks : (es : List Bytes) → All IsName es → All (Lacks b'/') es
names-Lacks [] _ = tt
names-Lacks (e ∷ es) (n, h) = (n.0.0, names-Lacks es h)

-- A rendered list of names is split and pushed as these names.
pub fold-render :
    (b rooted : Bool) (es st : List Bytes)
    → All IsName es
    → foldl (push b) st (split (render rooted es) b'/') ≡ foldl (push b) st es
unfolding render push split
fold-render b true [] st h = refl
fold-render b false [] st h = refl
fold-render b true (e ∷ es) st h =
    ap (foldl (push b) st) (split-join (e ∷ es) b'/' (ground arith) (names-Lacks (e ∷ es) h))
fold-render b false (e ∷ es) st h =
    ap (foldl (push b) st) (split-join (e ∷ es) b'/' (ground arith) (names-Lacks (e ∷ es) h))

is_abs-join : (e : Bytes) (es : List Bytes) → IsName e → is_abs (join (e ∷ es) b'/') ≡ false
unfolding is_abs join
is_abs-join [] es n = absurd (n.0.1 refl)
is_abs-join (c ∷ e) [] n = ground (arith, n.0.0.0)
is_abs-join (c ∷ e) (_ ∷ es) n = ground (arith, n.0.0.0)

-- A path made of names is cleaned to these names.
pub elements-render :
    (rooted : Bool) (es : List Bytes) → All IsName es → elements (render rooted es) ≡ es
unfolding elements
elements-render rooted es h =
    rw (fold-render (is_abs (render rooted es)) rooted es [] h) (fold-names _ es [] h)

pub is_abs-render_rooted : (es : List Bytes) → is_abs (render true es) ≡ true
unfolding is_abs render
is_abs-render_rooted es = refl

pub is_abs-render :
    (e : Bytes) (es : List Bytes) → All IsName (e ∷ es) → is_abs (render false (e ∷ es)) ≡ false
unfolding render
is_abs-render e es (n, h) = is_abs-join e es n

-- A rooted path has the elements of its cleaned form.
pub elements-clean : (p : Bytes) → is_abs p ≡ true → elements (clean p) ≡ elements p
unfolding clean
elements-clean p e = elements-render (is_abs p) (elements p) (elements-IsName p e)

pub is_abs-clean : (p : Bytes) → is_abs p ≡ true → is_abs (clean p) ≡ true
unfolding clean
is_abs-clean p e = rw e (is_abs-render_rooted (elements p))
