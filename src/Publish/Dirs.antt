-- ===== src/Publish/Dirs.antt =====
-- `ensurePublishedDirs` changes no file.
use mirror_sync.Base.{◌≡◌, String, Result, ok, err, [], ◌∷◌, List}
use mirror_sync.Base.Text.{Bytes, str, ◌=ˢ◌, split}
use mirror_sync.Safe.{join_path, abs, clean}
use mirror_sync.World.{World, Io, Env, Files, ◌>>=◌, op_mkdir, op_chmod}
use mirror_sync.World.Hoare.{Run, choice}
use mirror_sync.World.Keeps.{At, Keeps, call-Keeps, bind-Keeps}
use mirror_sync.Publish.{lift, chmod_each, ensure_published_dirs}

module _ (env : Env) (F : Files → Type 0) where
  pub lift-Keeps : {A : Type 0} (r : Result String A) → Keeps env F (lift r)
  lift-Keeps (ok a) w h = h
  lift-Keeps (err e) w h = h

  chmod_each-Keeps : (cur : Bytes) (elems : List Bytes) → Keeps env F (chmod_each env cur elems)
  unfolding chmod_each
  chmod_each-Keeps cur [] = λ w h. h
  chmod_each-Keeps cur (elem ∷ elems) =
      bind-Keeps env F _ _ (call-Keeps env F op_chmod (join_path cur elem))
        (λ _. chmod_each-Keeps (join_path cur elem) elems)

  pub ensure_published_dirs-Keeps :
      (cwd root dir : Bytes) → Keeps env F (ensure_published_dirs env cwd root dir)
  unfolding ensure_published_dirs
  ensure_published_dirs-Keeps cwd root dir = bind-Keeps env F _ _ (lift-Keeps _) (λ d.
      bind-Keeps env F _ _ (lift-Keeps _) (λ _.
        bind-Keeps env F _ _ (call-Keeps env F op_mkdir _) (λ _.
          bind-Keeps env F _ _ (call-Keeps env F op_chmod _) (λ _.
            choice (λ _. At F) (At F) (At F) (d =ˢ str ".") _ _ (λ _ w h. h)
              (λ _. chmod_each-Keeps (abs cwd (clean root)) (split d b'/'))))))

-- A lifted result that is known.
pub lifted :
    {A B : Type 0} (P : World → Type 0) (Q : B → World → Type 0) (R : World → Type 0)
    (r : Result String A) {a : A} (f : A → Io B)
    → r ≡ ok a
    → Run P (f a) Q R
    → Run P (lift r >>= f) Q R
unfolding ◌>>=◌
lifted P Q R r f e k = rw e k
