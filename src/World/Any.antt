-- ===== src/World/Any.antt =====
-- Computations of which nothing is asked.
use mirror_sync.Base.{Result, ok, err}
use mirror_sync.World.{World, Fault, Io, ◌>>=◌}
use mirror_sync.World.Hoare.{Post, Run, bind}

abbrev pub Always : World → Type 0
Always w = Unit

any_Post : {A : Type 0} (r : World × Result Fault A) → Post (λ _. Always) Always r
any_Post (w, ok a) = tt
any_Post (w, err e) = tt

pub any_Run : {A : Type 0} (m : Io A) → Run Always m (λ _. Always) Always
any_Run m w _ = any_Post (m w)

-- A step of which nothing is asked, in front of the others.
module _ {A B : Type 0} (S : B → World → Type 0) where
  pub then_any :
      (m : Io A) (f : A → Io B)
      → ((a : A) → Run Always (f a) S Always)
      → Run Always (m >>= f) S Always
  then_any m f h = bind (λ _. Always) S Always Always m f (any_Run m) (λ a. h a)
