-- ===== src/Publish/ByHash/Copies.antt =====
-- What `MaterializeByHash` of internal/publish/publish.go publishes.
use mirror_sync.Base.{
  ◌≡◌, ◌≢◌, refl, sym, ◌∙◌, ◌⊎◌, inl, inr, Bool, true, false, none, some, ok, String, if◌then◌else◌,
  ◌++◌,
}
use mirror_sync.Base.Text.{Bytes, str}
use mirror_sync.Model.{ByHashFile}
use mirror_sync.Safe.{safe_join, join_path, path_dir}
use mirror_sync.World.{
  World, Node, Env, Io, Files, set_file, ◌>>=◌, op_mkdir, op_sync, op_chmod, op_open,
}
use mirror_sync.World.Hoare.{Post, Run, bind, weaken, call-Run, rename-Run}
use mirror_sync.World.Keeps.{At, Keeps, set_file_same, set_file_other, call-Keeps}
use mirror_sync.Publish.{publish_file}
use mirror_sync.Publish.Dirs.{ensure_published_dirs-Keeps, lifted}
use mirror_sync.Publish.ByHash.{
  demand, verify_regular_no_symlink, publish_copy, replace_copy, make_copy, keep_copy,
  materialize_by_hash,
}
use mirror_sync.Publish.ByHash.Checking.{Hashed, verify_regular_no_symlink-Run}
use mirror_sync.Publish.ByHash.Steps.{
  Ignores, remove_old-Keeps, try-Keeps, link-Keeps, copy_if_unlinked-Keeps, or_remove-Run,
}

module _ (env : Env) (expected : ByHashFile) (final staged partial : Bytes) (before : Files) where
  -- All files but the copy and the two temporary ones are as before.
  abbrev pub Rest : Files → Type 0
  Rest files = (q : Bytes) → q ≢ final → q ≢ staged → q ≢ partial → files q ≡ before q

  abbrev pub Old : Files → Type 0
  Old files = (files final ≡ before final) × Rest files

  abbrev pub Fine : Files → Type 0
  Fine files = Hashed env expected final files × Rest files

  abbrev pub Settled : Files → Type 0
  Settled files = ((files final ≡ before final) ⊎ Hashed env expected final files) × Rest files

  abbrev Ready : Files → Type 0
  Ready files = Old files × Hashed env expected staged files

  -- A path that is not the copy's, and that the condition on the other files is not about.
  abbrev Scratch : Bytes → Type 0
  Scratch tmp = (tmp ≢ final) × ((q : Bytes) → q ≢ staged → q ≢ partial → tmp ≢ q)

  Rest-Ignores : (tmp : Bytes) → Scratch tmp → Ignores Rest tmp
  Rest-Ignores tmp s n files h q a b c = set_file_other tmp q n files (s.1 q b c) ∙ h q a b c

  Old-Ignores : (tmp : Bytes) → Scratch tmp → Ignores Old tmp
  Old-Ignores tmp s n files (h, k) =
      (set_file_other tmp final n files s.0 ∙ h, Rest-Ignores tmp s n files k)

  Settled-Ignores : (tmp : Bytes) → Scratch tmp → Ignores Settled tmp
  Settled-Ignores tmp s n files (inl h, k) =
      (inl (set_file_other tmp final n files s.0 ∙ h), Rest-Ignores tmp s n files k)
  Settled-Ignores tmp s n files (inr (content, here, size, known, equal), k) = (
    inr (content, set_file_other tmp final n files s.0 ∙ here, size, known, equal),
    Rest-Ignores tmp s n files k,
  )

  Old-Settled : (w : World) → At Old w → At Settled w
  Old-Settled w (h, k) = (inl h, k)

  Ready-Settled : (w : World) → At Ready w → At Settled w
  Ready-Settled w h = Old-Settled w h.0

  Fine-Settled : (w : World) → At Fine w → At Settled w
  Fine-Settled w (h, k) = (inr h, k)

  -- A step that keeps a condition, in front of others.
  step :
      (F : Files → Type 0) {A B : Type 0} (Q : B → World → Type 0) (m : Io A) (f : A → Io B)
      → ((w : World) → At F w → At Settled w)
      → Keeps env F m
      → ((a : A) → Run (At F) (f a) Q (At Settled))
      → Run (At F) (m >>= f) Q (At Settled)
  step F Q m f early h k =
      bind (λ _. At F) Q (At Settled) (At F) m f
        (weaken (λ _. At F) (λ _. At F) (At F) (At Settled) (At F) m h (λ _ w k. k) early) k

  -- A test of a file, which must be passed.
  tested :
      (F G : Files → Type 0) (p : Bytes) (text : String) {B : Type 0} (Q : B → World → Type 0)
      (f : Io B)
      → ((w : World) → At F w → At Settled w)
      → ((files : Files) → F files → Hashed env expected p files → G files)
      → Run (At G) f Q (At Settled)
      → Run
          (At F)
          (verify_regular_no_symlink env p expected.size expected.algorithm expected.digest
            >>= λ valid. demand valid text >>= λ _. f)
          Q
          (At Settled)
  unfolding ◌>>=◌
  tested F G p text Q f early seen k =
      bind (λ b w. At F w × (b ≡ true → Hashed env expected p w.files)) Q (At Settled) (At F)
        (verify_regular_no_symlink env p expected.size expected.algorithm expected.digest)
        (λ valid. demand valid text >>= λ _. f)
        (weaken (λ b w. At F w × (b ≡ true → Hashed env expected p w.files))
          (λ b w. At F w × (b ≡ true → Hashed env expected p w.files)) (At F) (At Settled) (At F)
          (verify_regular_no_symlink env p expected.size expected.algorithm expected.digest)
          (verify_regular_no_symlink-Run env expected F p) (λ _ w h. h) early)
        demanded
    where
      demanded :
          (b : Bool)
          → Run
              (λ w. At F w × (b ≡ true → Hashed env expected p w.files))
              (demand b text >>= λ _. f)
              Q
              (At Settled)
      demanded true w (h, v) = k w (seen w.files h (v refl))
      demanded false w (h, v) = early w h

  renamed :
      (apart : staged ≢ final) (files : Files) (node : Node)
      → Ready files
      → files staged ≡ some node
      → Fine (set_file final (some node) (set_file staged none files))
  renamed apart files node (old, (content, here, size, known, equal)) now = (
    (
      content,
      set_file_same final (some node) (set_file staged none files) ∙ sym now ∙ here,
      size,
      known,
      equal,
    ),
    λ q a b c.
        set_file_other final q (some node) (set_file staged none files) (λ e. a (sym e))
        ∙ (set_file_other staged q none files (λ e. b (sym e)) ∙ old.1 q a b c),
  )

  publish_file-Run :
      (cwd root : Bytes)
      → staged ≢ final
      → Run (At Ready) (publish_file env cwd root staged final) (λ _. At Fine) (At Settled)
  unfolding publish_file
  publish_file-Run cwd root apart =
      step Ready (λ _. At Fine) _ _ Ready-Settled
        (ensure_published_dirs-Keeps env Ready cwd root (path_dir final))
        λ _.
          step Ready (λ _. At Fine) _ _ Ready-Settled (call-Keeps env Ready op_chmod staged)
            λ _.
              bind (λ _. At Fine) (λ _. At Fine) (At Settled) (At Ready) _ _
                (rename-Run env (At Ready) (At Fine) (At Settled) staged final
                  (λ w node h e. renamed apart w.files node h e) Ready-Settled)
                λ _.
                  call-Run env (At Fine) (At Fine) (At Settled) op_sync (path_dir final) (λ w h. h)
                    Fine-Settled

  publish_copy-Run :
      (cwd root : Bytes)
      → staged ≢ final
      → Run (At Old) (publish_copy env cwd root staged final expected) (λ _. At Fine) (At Settled)
  publish_copy-Run cwd root apart =
      tested Old Ready staged _ (λ _. At Fine) _ Old-Settled (λ files h k. (h, k))
        (step Ready (λ _. At Fine) _ _ Ready-Settled (call-Keeps env Ready op_chmod staged)
          λ _.
            step Ready (λ _. At Fine) _ _ Ready-Settled (call-Keeps env Ready op_open staged)
              λ _.
                step Ready (λ _. At Fine) _ _ Ready-Settled (call-Keeps env Ready op_sync staged)
                  λ _. publish_file-Run cwd root apart)

  replace_copy-Run :
      (cwd root canonical : Bytes)
      → staged ≢ final
      → partial ≢ final
      → Run
          (At Old)
          (replace_copy env cwd root canonical final staged partial expected)
          (λ _. At Fine)
          (At Settled)
  replace_copy-Run cwd root canonical apart apart' =
      step Old (λ _. At Fine) _ _ Old-Settled (call-Keeps env Old op_mkdir (path_dir staged))
        λ _.
          step Old (λ _. At Fine) _ _ Old-Settled (remove_old-Keeps env Old staged old_staged)
            λ _.
              step Old (λ _. At Fine) _ _ Old-Settled (remove_old-Keeps env Old partial old_partial)
                λ _.
                  step Old (λ _. At Fine) _ _ Old-Settled
                    (try-Keeps env Old _ (link-Keeps env Old canonical staged old_staged))
                    λ outcome.
                      step Old (λ _. At Fine) _ _ Old-Settled
                        (copy_if_unlinked-Keeps env Old cwd root expected staged partial old_staged
                          old_partial canonical outcome)
                        λ _.
                          or_remove-Run env Old Fine Settled partial _
                            (Settled-Ignores partial for_partial)
                            (or_remove-Run env Old Fine Settled staged _
                              (Settled-Ignores staged for_staged) (publish_copy-Run cwd root apart))
    where
      for_staged : Scratch staged
      for_staged = (apart, λ q b c e. b (sym e))

      for_partial : Scratch partial
      for_partial = (apart', λ q b c e. c (sym e))

      old_staged : Ignores Old staged
      old_staged = Old-Ignores staged for_staged

      old_partial : Ignores Old partial
      old_partial = Old-Ignores partial for_partial

  keep_copy-Run :
      (cwd root : Bytes) → Run (At Fine) (keep_copy env cwd root final) (λ _. At Fine) (At Settled)
  keep_copy-Run cwd root =
      step Fine (λ _. At Fine) _ _ Fine-Settled
        (ensure_published_dirs-Keeps env Fine cwd root (path_dir final))
        λ _.
          step Fine (λ _. At Fine) _ _ Fine-Settled (call-Keeps env Fine op_chmod final)
            λ _.
              step Fine (λ _. At Fine) _ _ Fine-Settled (call-Keeps env Fine op_open final)
                λ _.
                  call-Run env (At Fine) (At Fine) (At Settled) op_sync final (λ w h. h)
                    Fine-Settled

-- A copy that is materialized without an error is a regular file with the expected size and digest;
-- on an error there is at its path the file of before, or such a copy. In both cases no other file
-- has changed but the staged copy and its partial form, the canonical file included. The two differ
-- from the copy's path.
pub materialize_by_hash-safe :
    (env : Env) (cwd root staging_root : Bytes) (expected : ByHashFile)
    {canonical final staged : Bytes}
    → safe_join cwd root expected.canonical_path ≡ ok canonical
    → safe_join cwd root expected.path ≡ ok final
    → safe_join cwd (join_path staging_root (str "by-hash")) expected.path ≡ ok staged
    → staged ≢ final
    → staged ++ str ".partial" ≢ final
    → (w : World)
    → Post
        (λ _ w'. Fine env expected final staged (staged ++ str ".partial") w.files w'.files)
        (λ w'. Settled env expected final staged (staged ++ str ".partial") w.files w'.files)
        (materialize_by_hash env cwd root staging_root expected w)
unfolding materialize_by_hash make_copy
materialize_by_hash-safe env cwd root staging_root expected {canonical} {final} {staged} e e' e''
      apart apart' w =
    lifted (At old) (λ _. At fine) (At settled) (safe_join cwd root expected.canonical_path) _ e
      (lifted (At old) (λ _. At fine) (At settled) (safe_join cwd root expected.path) _ e'
        (bind (λ b w'. At old w' × (b ≡ true → Hashed env expected final w'.files)) (λ _. At fine)
          (At settled) (At old)
          (verify_regular_no_symlink env final expected.size expected.algorithm expected.digest) _
          (weaken (λ b w'. At old w' × (b ≡ true → Hashed env expected final w'.files))
            (λ b w'. At old w' × (b ≡ true → Hashed env expected final w'.files)) (At old)
            (At settled) (At old)
            (verify_regular_no_symlink env final expected.size expected.algorithm expected.digest)
            (verify_regular_no_symlink-Run env expected old final) (λ _ w h. h) early)
          chosen))
      w (refl, λ q a b c. refl)
  where
    partial : Bytes
    partial = staged ++ str ".partial"

    old : Files → Type 0
    old = Old env expected final staged partial w.files

    fine : Files → Type 0
    fine = Fine env expected final staged partial w.files

    settled : Files → Type 0
    settled = Settled env expected final staged partial w.files

    early : (v : World) → At old v → At settled v
    early = Old-Settled env expected final staged partial w.files

    making :
        Run
          (At old)
          (make_copy env cwd root staging_root canonical final expected)
          (λ _. At fine)
          (At settled)
    making =
        tested env expected final staged partial w.files old old canonical _ (λ _. At fine) _ early
          (λ files h _. h)
          (lifted (At old) (λ _. At fine) (At settled)
            (safe_join cwd (join_path staging_root (str "by-hash")) expected.path) _ e''
            (replace_copy-Run env expected final staged partial w.files cwd root canonical apart
              apart'))

    chosen :
        (b : Bool)
        → Run
            (λ v. At old v × (b ≡ true → Hashed env expected final v.files))
            (if b
              then keep_copy env cwd root final
              else make_copy env cwd root staging_root canonical final expected)
            (λ _. At fine)
            (At settled)
    chosen true v (h, k) =
        keep_copy-Run env expected final staged partial w.files cwd root v (k refl, h.1)
    chosen false v (h, _) = making v h
