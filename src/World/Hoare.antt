-- ===== src/World/Hoare.antt =====
-- Pre- and postconditions of the computations on the world.
use mirror_sync.Base.{
  ◌≡◌, refl, Bool, true, false, Option, none, some, Result, ok, err, if◌then◌else◌, Option-cases,
  inl, inr,
}
use mirror_sync.Base.Text.{Bytes}
use mirror_sync.World.{
  World, Fault, Node, Op, Env, Io, after, ◌>>=◌, try, tick, put, call, remove, answered, changing,
  changed, settled, op_remove, Node, rename, op_rename,
}

-- A condition on the result, and one on the world that an error leaves.
abbrev pub Post :
    {A : Type 0} → (A → World → Type 0) → (World → Type 0) → World × Result Fault A → Type 0
Post Q R (w, ok a) = Q a w
Post Q R (w, err e) = R w

abbrev pub Run :
    {A : Type 0} → (World → Type 0) → Io A → (A → World → Type 0) → (World → Type 0) → Type 0
Run P m Q R = (w : World) → P w → Post Q R (m w)

module _ {A B : Type 0} (Q : A → World → Type 0) (S : B → World → Type 0) (R : World → Type 0) where
  after-Post :
      (r : World × Result Fault A) (f : A → Io B)
      → Post Q R r
      → ((a : A) → Run (Q a) (f a) S R)
      → Post S R (after r f)
  after-Post (w, ok a) f q h = h a w q
  after-Post (w, err e) f q h = q

  pub bind :
      (P : World → Type 0) (m : Io A) (f : A → Io B)
      → Run P m Q R
      → ((a : A) → Run (Q a) (f a) S R)
      → Run P (m >>= f) S R
  unfolding ◌>>=◌
  bind P m f h k w p = after-Post (m w) f (h w p) k

module _ {A : Type 0} (Q : A → World → Type 0) (R : World → Type 0) where
  pub choice :
      (P : World → Type 0) (b : Bool) (m n : Io A)
      → (b ≡ true → Run P m Q R)
      → (b ≡ false → Run P n Q R)
      → Run P (if b then m else n) Q R
  choice P true m n h k = h refl
  choice P false m n h k = k refl

  -- The condition on the result or on the error, of the two as one value.
  abbrev pub Either : Result Fault A → World → Type 0
  Either (ok a) w = Q a w
  Either (err e) w = R w

  try-Post : (r : World × Result Fault A) → Post Q R r → Either r.1 r.0
  try-Post (w, ok a) h = h
  try-Post (w, err e) h = h

  pub tried : (P R' : World → Type 0) (m : Io A) → Run P m Q R → Run P (try m) Either R'
  unfolding try
  tried P R' m h w p = try-Post (m w) (h w p)

-- What the basic calls do to a condition.
module _ (env : Env) (P Q R : World → Type 0) where
  pub call-Run :
      (op : Op) (p : Bytes)
      → ((w : World) → P w → Q (tick w))
      → ((w : World) → P w → R (tick w))
      → Run P (call env op p) (λ _. Q) R
  unfolding call
  call-Run op p h k w at_start = go (env.fails w.clock op p)
    where
      go : (o : Option Fault) → Post (λ _. Q) R (answered o (tick w))
      go none = h w at_start
      go (some e) = k w at_start

  pub changing-Run :
      (op : Op) (p : Bytes) (change : World → World)
      → ((w : World) → P w → Q (tick (change w)))
      → ((w : World) → P w → R (tick w))
      → Run P (changing env op p change) (λ _. Q) R
  changing-Run op p change h k w at_start = go (env.fails w.clock op p)
    where
      go : (o : Option Fault) → Post (λ _. Q) R (changed o (tick (change w)) (tick w))
      go none = h w at_start
      go (some e) = k w at_start

  pub remove-Run :
      (p : Bytes)
      → ((w : World) → P w → Q (tick (put p none w)))
      → ((w : World) → P w → Q (tick w))
      → Run P (remove env p) (λ _. Q) R
  unfolding remove
  remove-Run p h k w at_start = go (env.fails w.clock op_remove p)
    where
      go : (o : Option Fault) → Q (settled o (tick (put p none w)) (tick w))
      go none = h w at_start
      go (some e) = k w at_start

  pub rename-Run :
      (p q : Bytes)
      → ((w : World) (node : Node)
          → P w
          → w.files p ≡ some node
          → Q (tick (put q (some node) (put p none w))))
      → ((w : World) → P w → R (tick w))
      → Run P (rename env p q) (λ _. Q) R
  unfolding rename
  rename-Run p q h k w at_start = elim (Option-cases (w.files p)) [
    | inl e ↦ rw e (k w at_start)
    | inr (node, e) ↦ rw e (go node e (env.fails w.clock op_rename p))
  ]
    where
      go :
          (node : Node)
          → w.files p ≡ some node
          → (o : Option Fault)
          → Post (λ _. Q) R (changed o (tick (put q (some node) (put p none w))) (tick w))
      go node e none = h w node at_start e
      go node e (some x) = k w at_start

module _ {A : Type 0} (Q Q' : A → World → Type 0) (R R' : World → Type 0) where
  pub weaken :
      (P : World → Type 0) (m : Io A)
      → Run P m Q R
      → ((a : A) (w : World) → Q a w → Q' a w)
      → ((w : World) → R w → R' w)
      → Run P m Q' R'
  weaken P m h k l w p = go (m w) (h w p)
    where
      go : (r : World × Result Fault A) → Post Q R r → Post Q' R' r
      go (w', ok a) = k a w'
      go (w', err e) = l w'
