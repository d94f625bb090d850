-- ===== src/World/Keeps.antt =====
-- Conditions on the files, and the computations that keep them.
use mirror_sync.Base.{◌≡◌, ◌≢◌, refl, Option, arith}
use mirror_sync.Base.Text.{Bytes}
use mirror_sync.Base.Text.Laws.{=ˢ_iff, =ˢ_refl}
use mirror_sync.World.{World, Node, Op, Env, Io, ◌>>=◌, Files, set_file, call}
use mirror_sync.World.Hoare.{Run, bind, call-Run}

pub set_file_same : (p : Bytes) (n : Option Node) (files : Files) → set_file p n files p ≡ n
set_file_same p n files = rw =ˢ_refl refl

pub set_file_other :
    (p q : Bytes) (n : Option Node) (files : Files) → p ≢ q → set_file p n files q ≡ files q
set_file_other p q n files h = ground (arith, =ˢ_iff q p)

-- A condition on the files.
abbrev pub At : (Files → Type 0) → World → Type 0
At F w = F w.files

-- The files are those of another time.
abbrev pub Unchanged : Files → Files → Type 0
Unchanged before files = (q : Bytes) → files q ≡ before q

module _ (env : Env) (F : Files → Type 0) where
  abbrev pub Keeps : {A : Type 0} → Io A → Type 0
  Keeps m = Run (At F) m (λ _. At F) (At F)

  pub call-Keeps : (op : Op) (p : Bytes) → Keeps (call env op p)
  call-Keeps op p = call-Run env (At F) (At F) (At F) op p (λ w h. h) (λ w h. h)

  pub bind-Keeps :
      {A B : Type 0} (m : Io A) (f : A → Io B) → Keeps m → ((a : A) → Keeps (f a)) → Keeps (m >>= f)
  bind-Keeps m f h k = bind (λ _. At F) (λ _. At F) (At F) (At F) m f h k
