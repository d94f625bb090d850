-- ===== src/Publish/Atomic.antt =====
-- Atomicity of `AtomicWrite`: the published path holds the old file or the whole new one.
use mirror_sync.Base.{
  ◌≡◌, ◌≢◌, refl, sym, ◌∙◌, ◌⊎◌, inl, inr, Bool, true, Option, none, some, Result, ok, err, arith,
  subst, if◌then◌else◌, Bool-cases,
}
use mirror_sync.Base.Text.{Bytes}
use mirror_sync.Base.Text.Laws.{=ˢ_iff}
use mirror_sync.Safe.{safe_join, path_dir}
use mirror_sync.World.{
  World, Fault, Node, regular, special, Env, Io, Files, set_file, call, write, ◌>>=◌, fail, done,
  try, remove, op_mkdir, op_sync, op_chmod, op_open, op_read, op_write,
}
use mirror_sync.World.Hoare.{
  Post, Run, Either, bind, choice, tried, weaken, call-Run, changing-Run, remove-Run, rename-Run,
}
use mirror_sync.World.Keeps.{At, set_file_same, set_file_other, call-Keeps, bind-Keeps}
use mirror_sync.Publish.{
  atomic_write, write_new, replace_file, create_temp, or_remove, keep_file, preserve_matching_file,
  same_node, ensure_published_dirs,
}
use mirror_sync.Publish.Dirs.{ensure_published_dirs-Keeps}

module _ (env : Env) (final tmp content : Bytes) (apart : tmp ≢ final) (before : Files) where
  -- All files but two are as before.
  abbrev Frame : Files → Type 0
  Frame files = (q : Bytes) → q ≢ final → q ≢ tmp → files q ≡ before q

  abbrev Old : Files → Type 0
  Old files = (files final ≡ before final) × Frame files

  abbrev New : Files → Type 0
  New files = (files final ≡ some (regular content)) × Frame files

  abbrev Mid : Files → Type 0
  Mid files = Old files × (files tmp ≡ some (regular content))

  put_tmp : (n : Option Node) (files : Files) → Old files → Old (set_file tmp n files)
  put_tmp n files (h, k) = (
    set_file_other tmp final n files apart ∙ h,
    λ q a b. set_file_other tmp q n files (λ e. b (sym e)) ∙ k q a b,
  )

  renamed :
      (files : Files) (node : Node)
      → Mid files
      → files tmp ≡ some node
      → New (set_file final (some node) (set_file tmp none files))
  renamed files node (o, e) now = (
    set_file_same final (some node) (set_file tmp none files) ∙ sym now ∙ e,
    λ q a b.
        set_file_other final q (some node) (set_file tmp none files) (λ e. a (sym e))
        ∙ (put_tmp none files o).1 q a b,
  )

  replace_file-Run :
      (cwd root : Bytes)
      → Run (At Old) (replace_file env cwd root tmp final content) (λ _. At New) (At Old)
  unfolding replace_file write
  replace_file-Run cwd root =
      bind (λ _. At Mid) (λ _. At New) (At Old) (At Old) _ _
        (changing-Run env (At Old) (At Mid) (At Old) op_write tmp _
          (λ w h. (put_tmp _ w.files h, set_file_same tmp _ w.files)) (λ w h. h))
        (λ _.
          bind (λ _. At Mid) (λ _. At New) (At Old) (At Mid) _ _
            (call-Run env (At Mid) (At Mid) (At Old) op_sync tmp (λ w h. h) (λ w h. h.0))
            (λ _.
              bind (λ _. At Mid) (λ _. At New) (At Old) (At Mid) _ _
                (call-Run env (At Mid) (At Mid) (At Old) op_chmod tmp (λ w h. h) (λ w h. h.0))
                (λ _.
                  bind (λ _. At Mid) (λ _. At New) (At Old) (At Mid) _ _
                    (weaken (λ _. At Mid) (λ _. At Mid) (At Mid) (At Old) (At Mid)
                      (ensure_published_dirs env cwd root (path_dir final))
                      (ensure_published_dirs-Keeps env Mid cwd root (path_dir final)) (λ _ w h. h)
                      (λ w h. h.0))
                    (λ _.
                      rename-Run env (At Mid) (At New) (At Old) tmp final
                        (λ w node h e. renamed w.files node h e) (λ w h. h.0)))))

  or_remove-Run :
      (m : Io (Unit {0}))
      → Run (At Old) m (λ _. At New) (At Old)
      → Run (At Old) (or_remove env tmp m) (λ _. At New) (At Old)
  or_remove-Run m h =
      bind (Either (λ _. At New) (At Old)) (λ _. At New) (At Old) (At Old) _ _
        (tried (λ _. At New) (At Old) (At Old) (At Old) m h) settle
    where
      settle :
          (r : Result Fault (Unit {0}))
          → Run
              (Either (λ _. At New) (At Old) r)
              (elim r [ ok _ ↦ done tt | err e ↦ remove env tmp >>= λ _. fail e ])
              (λ _. At New)
              (At Old)
      settle (ok _) = λ w h. h
      settle (err e) =
          bind (λ _. At Old) (λ _. At New) (At Old) (At Old) _ _
            (remove-Run env (At Old) (At Old) (At Old) tmp (λ w h. put_tmp none w.files h)
              (λ w h. h))
            (λ _ w h. h)

  abbrev OldOrNew : Files → Type 0
  OldOrNew files =
      ((files final ≡ before final) ⊎ (files final ≡ some (regular content))) × Frame files

  old : (w : World) → At Old w → At OldOrNew w
  old w h = (inl h.0, h.1)

  new : (w : World) → At New w → At OldOrNew w
  new w h = (inr h.0, h.1)

  write_new-Run :
      (cwd root staging_root path : Bytes)
      → Run
          (At Old)
          (write_new env cwd root staging_root tmp path final content)
          (λ _. At New)
          (At OldOrNew)
  unfolding write_new create_temp
  write_new-Run cwd root staging_root path =
      bind (λ _. At Old) (λ _. At New) (At OldOrNew) (At Old) _ _
        (call-Run env (At Old) (At Old) (At OldOrNew) op_mkdir _ (λ w h. h) old)
        (λ _.
          bind (λ _. At Old) (λ _. At New) (At OldOrNew) (At Old) _ _
            (changing-Run env (At Old) (At Old) (At OldOrNew) op_open tmp _
              (λ w h. put_tmp _ w.files h) old)
            (λ _.
              bind (λ _. At New) (λ _. At New) (At OldOrNew) (At Old) _ _
                (weaken (λ _. At New) (λ _. At New) (At Old) (At OldOrNew) (At Old)
                  (or_remove env tmp (replace_file env cwd root tmp final content))
                  (or_remove-Run _ (replace_file-Run cwd root)) (λ _ w h. h) old)
                (λ _.
                  call-Run env (At New) (At New) (At OldOrNew) op_sync (path_dir final) (λ w h. h)
                    new)))

  -- Whether the old file is found to be the same, which it then is.
  abbrev Seen : Bool → World → Type 0
  Seen same w = At Old w × (same ≡ true → before final ≡ some (regular content))

  same_node_lem : (n : Option Node) → same_node content n ≡ true → n ≡ some (regular content)
  same_node_lem none h = absurd (cc)
  same_node_lem (some special) h = absurd (cc)
  same_node_lem (some (regular c)) h = ground (arith, =ˢ_iff c content)

  preserve-Run : Run (At Old) (preserve_matching_file env final content) Seen (At OldOrNew)
  unfolding preserve_matching_file
  preserve-Run w h = elim (Bool-cases (same_node content (w.files final))) [
    | inr e ↦ rw e (h, λ bad. absurd (cc))
    | inl e ↦ rw e (compare (sym h.0 ∙ same_node_lem (w.files final) e) w h)
  ]
    where
      keep :
          before final ≡ some (regular content)
          → (seen : Result Fault (Unit {0}))
          → Run (Either (λ _. At Old) (At Old) seen) (keep_file env final seen) Seen (At OldOrNew)
      keep same (err e) = λ w h. (h, λ bad. absurd (cc))
      keep same (ok _) =
          bind (λ _. At Old) Seen (At OldOrNew) (At Old) (call env op_chmod final) _
            (call-Run env (At Old) (At Old) (At OldOrNew) op_chmod final (λ w h. h) old)
            (λ _ w h. (h, λ _. same))

      compare :
          before final ≡ some (regular content)
          → Run
              (At Old)
              (try (call env op_open final >>= λ _. call env op_read final) >>= keep_file env final)
              Seen
              (At OldOrNew)
      compare same =
          bind (Either (λ _. At Old) (At Old)) Seen (At OldOrNew) (At Old) _ _
            (tried (λ _. At Old) (At Old) (At Old) (At OldOrNew) _
              (bind-Keeps env Old _ _ (call-Keeps env Old op_open final)
                (λ _. call-Keeps env Old op_read final)))
            (keep same)

  atomic_write-Run :
      (cwd root staging_root path : Bytes)
      → safe_join cwd root path ≡ ok final
      → Run
          (At Old)
          (atomic_write env cwd root staging_root tmp path content)
          (λ _. At New)
          (At OldOrNew)
  unfolding atomic_write
  atomic_write-Run cwd root staging_root path e =
      bind (λ f w. (f ≡ final) × At Old w) (λ _. At New) (At OldOrNew) (At Old) _ _
        (rw e (λ w h. (refl, h)))
        (λ f w h. subst (λ g. Post (λ _. At New) (At OldOrNew) (behind g w)) (sym h.0) (go w h.1))
    where
      behind : Bytes → Io (Unit {0})
      behind f = preserve_matching_file env f content >>= λ unchanged.
          if unchanged then done tt else write_new env cwd root staging_root tmp path f content

      go : Run (At Old) (behind final) (λ _. At New) (At OldOrNew)
      go =
          bind Seen (λ _. At New) (At OldOrNew) (At Old) _ _ preserve-Run
            (λ b.
              choice (λ _. At New) (At OldOrNew) (Seen b) b _ _ (λ e w h. (h.0.0 ∙ h.1 e, h.0.1))
                (λ _ w h. write_new-Run cwd root staging_root path w h.0))

-- An atomic write that succeeds leaves the content at the published path; one that fails leaves
-- there the file of before or the whole content; all files but it and the temporary one, which has
-- another path, are as before in both cases.
pub atomic_write-atomic :
    (env : Env) (cwd root staging_root tmp path content : Bytes) {final : Bytes}
    → safe_join cwd root path ≡ ok final
    → tmp ≢ final
    → (w : World)
    → Post
        (λ _ w'.
          (w'.files final ≡ some (regular content))
          × ((q : Bytes) → q ≢ final → q ≢ tmp → w'.files q ≡ w.files q))
        (λ w'.
          ((w'.files final ≡ w.files final) ⊎ (w'.files final ≡ some (regular content)))
          × ((q : Bytes) → q ≢ final → q ≢ tmp → w'.files q ≡ w.files q))
        (atomic_write env cwd root staging_root tmp path content w)
atomic_write-atomic env cwd root staging_root tmp path content {final} e apart w =
    atomic_write-Run env final tmp content apart w.files cwd root staging_root path e w
      (refl, λ q _ _. refl)
