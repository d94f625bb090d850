-- ===== src/Publish/ByHash/Steps.antt =====
-- The conditions that the steps of `MaterializeByHash` of internal/publish/publish.go keep.
use mirror_sync.Base.{Bool, true, false, Option, none, some, [], Result, ok, err, String}
use mirror_sync.Base.Text.{Bytes}
use mirror_sync.Model.{ByHashFile}
use mirror_sync.World.{
  World, Fault, Node, regular, Env, Io, Files, set_file, ◌>>=◌, fail, done, try, remove, rename,
  op_sync, op_open, op_remove, op_link, op_write, write, read_file, reading, read_outcome, tick,
  put,
}
use mirror_sync.World.Hoare.{
  Post, Run, Either, bind, tried, weaken, changing-Run, remove-Run, rename-Run,
}
use mirror_sync.World.Keeps.{At, Keeps, call-Keeps, bind-Keeps}
use mirror_sync.Publish.{lift, or_remove, supported_hash, checksum_file, publish_file}
use mirror_sync.Publish.ByHash.{
  demand, remove_old, linked, link, created, create_new, copied, copy_by_hash, copy_if_unlinked,
}

-- A condition that the content of a path does not matter to.
abbrev pub Ignores : (Files → Type 0) → Bytes → Type 0
Ignores F tmp = (n : Option Node) (files : Files) → F files → F (set_file tmp n files)

module _ (env : Env) (F : Files → Type 0) where
  pub remove-Keeps : (p : Bytes) → Ignores F p → Keeps env F (remove env p)
  remove-Keeps p free =
      remove-Run env (At F) (At F) (At F) p (λ w h. free none w.files h) (λ w h. h)

  pub remove_old-Keeps : (p : Bytes) → Ignores F p → Keeps env F (remove_old env p)
  remove_old-Keeps p free =
      changing-Run env (At F) (At F) (At F) op_remove p _ (λ w h. free none w.files h) (λ w h. h)

  pub demand-Keeps : (b : Bool) (text : String) → Keeps env F (demand b text)
  demand-Keeps true text w h = h
  demand-Keeps false text w h = h

  either : {A : Type 0} (r : Result Fault A) (w : World) → Either (λ _. At F) (At F) r w → At F w
  either (ok a) w h = h
  either (err e) w h = h

  pub try-Keeps : {A : Type 0} (m : Io A) → Keeps env F m → Keeps env F (try m)
  try-Keeps m h =
      weaken (Either (λ _. At F) (At F)) (λ _. At F) (At F) (At F) (At F) (try m)
        (tried (λ _. At F) (At F) (At F) (At F) m h) (λ r w k. either r w k) (λ w k. k)

  pub read_file-Keeps : (p : Bytes) → Keeps env F (read_file env p)
  unfolding read_file
  read_file-Keeps p w h = go (reading env w p)
    where
      go : (o : Option Bytes) → Post (λ _. At F) (At F) (tick w, read_outcome env o)
      go none = h
      go (some content) = h

  pub link-Keeps : (p q : Bytes) → Ignores F q → Keeps env F (link env p q)
  unfolding link
  link-Keeps p q free w h = go (w.files p) (w.files q)
    where
      go : (a b : Option Node) → Post (λ _. At F) (At F) (linked env q a b w)
      go none b = h
      go (some node) none =
          changing-Run env (At F) (At F) (At F) op_link q (put q (some node))
            (λ w h. free (some node) w.files h) (λ w h. h) w h
      go (some node) (some other) = h

  pub create_new-Keeps : (p : Bytes) → Ignores F p → Keeps env F (create_new env p)
  unfolding create_new mirror_sync.Publish.create_temp
  create_new-Keeps p free w h = go (w.files p)
    where
      go : (a : Option Node) → Post (λ _. At F) (At F) (created env p a w)
      go none =
          changing-Run env (At F) (At F) (At F) op_open p (put p (some (regular [])))
            (λ w h. free (some (regular [])) w.files h) (λ w h. h) w h
      go (some other) = h

-- A step whose failure removes a temporary file that neither condition depends on.
pub or_remove-Run :
    (env : Env) (P Q R : Files → Type 0) (tmp : Bytes) (m : Io (Unit {0}))
    → Ignores R tmp
    → Run (At P) m (λ _. At Q) (At R)
    → Run (At P) (or_remove env tmp m) (λ _. At Q) (At R)
or_remove-Run env P Q R tmp m free h =
    bind (Either (λ _. At Q) (At R)) (λ _. At Q) (At R) (At P) (try m) _
      (tried (λ _. At Q) (At R) (At P) (At R) m h) (λ r. after_try r)
  where
    after_try :
        (r : Result Fault (Unit {0}))
        → Run
            (Either (λ _. At Q) (At R) r)
            (elim r [ ok _ ↦ done tt | err e ↦ remove env tmp >>= λ _. fail e ])
            (λ _. At Q)
            (At R)
    after_try (ok _) = λ w h. h
    after_try (err e) =
        bind (λ _. At R) (λ _. At Q) (At R) (At R) (remove env tmp) _ (remove-Keeps env R tmp free)
          (λ _ w h. h)

module _ (env : Env) (F : Files → Type 0) (cwd root : Bytes) (expected : ByHashFile)
    (staged partial : Bytes) (free_staged : Ignores F staged)
    (free_partial : Ignores F partial) where
  write-Keeps : (content : Bytes) → Keeps env F (write env partial content)
  unfolding write
  write-Keeps content =
      changing-Run env (At F) (At F) (At F) op_write partial (put partial (some (regular content)))
        (λ w h. free_partial (some (regular content)) w.files h) (λ w h. h)

  copied-Keeps : (source : Bytes) → Keeps env F (copied env source partial expected)
  copied-Keeps source = bind-Keeps env F _ _ (demand-Keeps env F _ _) λ _.
      bind-Keeps env F _ _ (read_file-Keeps env F source) λ content.
        bind-Keeps env F _ _ (write-Keeps content) λ _.
          bind-Keeps env F _ _ (demand-Keeps env F _ _)
            λ _. bind-Keeps env F _ _ (demand-Keeps env F _ _) λ _. call-Keeps env F op_sync partial

  rename-Keeps : Keeps env F (rename env partial staged)
  rename-Keeps =
      rename-Run env (At F) (At F) (At F) partial staged
        (λ w node h e.
          free_staged (some node) (set_file partial none w.files) (free_partial none w.files h))
        (λ w h. h)

  copy_by_hash-Keeps : (source : Bytes) → Keeps env F (copy_by_hash env source partial expected)
  unfolding copy_by_hash
  copy_by_hash-Keeps source = bind-Keeps env F _ _ (call-Keeps env F op_open source) λ _.
      bind-Keeps env F _ _ (create_new-Keeps env F partial free_partial)
        λ _. or_remove-Run env F F F partial _ free_partial (copied-Keeps source)

  pub copy_if_unlinked-Keeps :
      (canonical : Bytes) (r : Result Fault (Unit {0}))
      → Keeps env F (copy_if_unlinked env canonical partial staged expected r)
  copy_if_unlinked-Keeps canonical (ok _) = λ w h. h
  copy_if_unlinked-Keeps canonical (err e) =
      bind-Keeps env F _ _ (copy_by_hash-Keeps canonical)
        λ _. or_remove-Run env F F F partial _ free_partial rename-Keeps
