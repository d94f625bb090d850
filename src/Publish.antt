-- ===== src/Publish.antt =====
-- internal/publish/publish.go: verification of files, atomic writes, the order in which metadata is
-- published, and pruning. `cwd` is the working directory.
pub mod Order
pub mod Dirs
pub mod Checks
pub mod Atomic
pub mod Pruning
pub mod ByHash
use mirror_sync.Base.{
  ℕ, String, Bool, true, false, ◌&&◌, ◌||◌, ◌==◌, leb, map, Option, none, some, List, [], ◌∷◌, ◌++◌,
  Result, ok, err, if◌then◌else◌, length,
}
use mirror_sync.Base.Int.{ℤ, pos, ◌==ℤ◌}
use mirror_sync.Base.Text.{
  Bytes, str, ◌=ˢ◌, is_empty, equal_fold, to_upper, split, text_leb, contains,
}
use mirror_sync.Base.Dict.{Set}
use mirror_sync.Base.Sort.{sort, sort_strings}
use mirror_sync.Model.{MetadataFile}
use mirror_sync.Safe.{
  clean, abs, file_rel, goes_up, safe_join, join_path, path_dir, path_base, join_all,
}
use mirror_sync.World.{
  Fault, World, World, failure, Node, regular, special, Env, Io, done, fail, try, ◌>>=◌, ◌>>◌, call,
  remove, rename, write, changing, put, op_mkdir, op_open, op_read, op_sync, op_stat, op_chmod,
  op_remove, op_lock, open_or_create,
}

abbrev pub lift : {A : Type 0} → Result String A → Io A
lift (ok a) = done a
lift (err e) = fail (failure e)

pub data VerifyOption : Type 0 where
  size_check : ℤ → VerifyOption
  checksum_check : Bytes → Bytes → VerifyOption
  func_check : Option (Bytes → Bool) → VerifyOption

abbrev with_sha256 : Bytes → VerifyOption
with_sha256 digest = checksum_check (str "SHA256") digest

unfoldable pub supported_hash : Bytes → Bool
supported_hash algorithm =
    let name = to_upper algorithm in
    name =ˢ str "MD5"
    || name =ˢ str "MD5SUM"
    || name =ˢ str "SHA1"
    || name =ˢ str "SHA256"
    || name =ˢ str "SHA512"

abbrev pub passes_check : Option (Bytes → Bool) → Bytes → Bool
passes_check none content = true
passes_check (some check) content = check content

abbrev pub same_node : Bytes → Option Node → Bool
same_node content (some (regular old)) = length old == length content && old =ˢ content
same_node content _ = false

module _ (env : Env) where
  -- The digest of a file with this content.
  unfoldable pub checksum_file : Bytes → Bytes → Bytes → Io Bytes
  checksum_file p algorithm content =
      if supported_hash algorithm
      then call env op_open p
        >> (call env op_read p >> done (env.digest (to_upper algorithm) content))
      else fail (failure "unsupported checksum algorithm")

  unfoldable pub verify_option : Bytes → Bytes → VerifyOption → Io Bool
  verify_option p content (size_check size) = done (pos (length content) ==ℤ size)
  verify_option p content (checksum_check algorithm hex) =
      if is_empty hex
      then done true
      else checksum_file p algorithm content >>= λ got. done (equal_fold got hex)
  verify_option p content (func_check check) = done (passes_check check content)

  -- The loop over the options, of which a nil one is skipped.
  unfoldable pub verify_options : Bytes → Bytes → List (Option VerifyOption) → Io Bool
  verify_options p content [] = done true
  verify_options p content (none ∷ options) = verify_options p content options
  verify_options p content (some option ∷ options) =
      let rest = verify_options p content options in
      verify_option p content option >>= λ passed. if passed then rest else done false

  abbrev pub verify_node : Bytes → List (Option VerifyOption) → Option Node → Io Bool
  verify_node p options none = done false
  verify_node p options (some special) = done false
  verify_node p options (some (regular content)) = verify_options p content options

  unfoldable pub verify : Bytes → List (Option VerifyOption) → Io Bool
  verify p options = call env op_stat p >> λ w. verify_node p options (w.files p) w

  -- The loop over the elements of the path from the root to a directory.
  unfoldable pub chmod_each : Bytes → List Bytes → Io (Unit {0})
  chmod_each cur [] = done tt
  chmod_each cur (elem ∷ elems) =
      call env op_chmod (join_path cur elem) >> chmod_each (join_path cur elem) elems

  unfoldable pub ensure_published_dirs : Bytes → Bytes → Bytes → Io (Unit {0})
  ensure_published_dirs cwd root dir = do
    let root_abs = abs cwd (clean root)
    let dir_abs = abs cwd (clean dir)
    d ← lift (file_rel root_abs dir_abs)
    lift (if goes_up d then err "published directory escapes root" else ok tt)
    call env op_mkdir dir_abs
    call env op_chmod root_abs
    if d =ˢ str "." then done tt else chmod_each root_abs (split d b'/')

  unfoldable pub publish_file : Bytes → Bytes → Bytes → Bytes → Io (Unit {0})
  publish_file cwd root staged final = do
    ensure_published_dirs cwd root (path_dir final)
    call env op_chmod staged
    rename env staged final
    call env op_sync (path_dir final)

  -- What follows the reading of an equal file: a failure to read it is as if it differed.
  abbrev pub keep_file : Bytes → Result Fault (Unit {0}) → Io Bool
  keep_file p (ok _) = call env op_chmod p >> done true
  keep_file p (err e) = done false

  unfoldable pub preserve_matching_file : Bytes → Bytes → Io Bool
  preserve_matching_file p content w =
      if same_node content (w.files p)
      then (try (call env op_open p >> call env op_read p) >>= keep_file p) w
      else (w, ok false)

  -- A step whose failure removes the temporary file.
  abbrev pub or_remove : Bytes → Io (Unit {0}) → Io (Unit {0})
  or_remove tmp m =
      try m >>= λ outcome. elim outcome [ ok _ ↦ done tt | err e ↦ remove env tmp >> fail e ]

  -- The write of the temporary file, and its renaming. Closing it is part of the sync.
  unfoldable pub replace_file : Bytes → Bytes → Bytes → Bytes → Bytes → Io (Unit {0})
  replace_file cwd root tmp final content = do
    write env tmp content
    call env op_sync tmp
    call env op_chmod tmp
    ensure_published_dirs cwd root (path_dir final)
    rename env tmp final

  -- os.CreateTemp, whose choice of the name is `tmp`.
  unfoldable pub create_temp : Bytes → Io (Unit {0})
  create_temp tmp = changing env op_open tmp (put tmp (some (regular [])))

  -- What follows if the old file differs.
  unfoldable pub write_new : Bytes → Bytes → Bytes → Bytes → Bytes → Bytes → Bytes → Io (Unit {0})
  write_new cwd root staging_root tmp path final content = do
    call env op_mkdir (join_path (join_path staging_root (str "metadata-tmp")) (path_dir path))
    create_temp tmp
    or_remove tmp (replace_file cwd root tmp final content)
    call env op_sync (path_dir final)

  unfoldable pub atomic_write : Bytes → Bytes → Bytes → Bytes → Bytes → Bytes → Io (Unit {0})
  atomic_write cwd root staging_root tmp path content = do
    final ← lift (safe_join cwd root path)
    unchanged ← preserve_matching_file final content
    if unchanged then done tt else write_new cwd root staging_root tmp path final content

-- `metadataPriority`
unfoldable pub metadata_priority : MetadataFile → ℕ
metadata_priority f =
    if f.signed_last then 2 else if path_base f.path =ˢ str "Release" then 1 else 0

abbrev pub metadata_leb : MetadataFile → MetadataFile → Bool
metadata_leb f g =
    if metadata_priority f == metadata_priority g
    then text_leb f.path g.path
    else leb (metadata_priority f) (metadata_priority g)

unfoldable pub publish_order : List MetadataFile → List MetadataFile
publish_order files = sort metadata_leb files

module _ (env : Env) where
  -- The loop over the sorted files; `names` are the temporary names that the system chooses.
  unfoldable pub write_files :
      Bytes → Bytes → Bytes → (Bytes → Bytes) → List MetadataFile → Io (Unit {0})
  write_files cwd root staging_root names [] = done tt
  write_files cwd root staging_root names (f ∷ files) =
      atomic_write env cwd root staging_root (names f.path) f.path f.content
      >> write_files cwd root staging_root names files

  unfoldable pub publish_metadata :
      Bytes → Bytes → Bytes → (Bytes → Bytes) → List MetadataFile → Io (Unit {0})
  publish_metadata cwd root staging_root names files =
      write_files cwd root staging_root names (publish_order files)

  -- The walk over the files below the root, each as its path from there.
  unfoldable pub prune_walk : Bytes → Set → List Bytes → List Bytes → Io (List Bytes)
  prune_walk root keep [] removed = done removed
  prune_walk root keep (path ∷ paths) removed =
      if contains keep path
      then prune_walk root keep paths removed
      else (changing env op_remove (join_path root path) (put (join_path root path) none)
          >> prune_walk root keep paths (removed ++ (path ∷ [])))

  -- `Prune`. The removal of the empty directories behind it changes no file, and the list that an
  -- error comes with is left out.
  unfoldable pub prune : Bytes → Set → List Bytes → Io (List Bytes)
  prune root keep walked = prune_walk root keep walked [] >>= λ removed. done (sort_strings removed)

abbrev lock_byte : ℕ → ℕ
lock_byte c = if c == b'/' || c == b'\\' || c == b':' then b'_' else c

unfoldable pub lock_path : Bytes → Bytes → Bytes → Bytes
lock_path staging_root kind name =
    join_all
      (staging_root ∷ str "locks" ∷ map lock_byte (kind ++ (b'-' ∷ (name ++ str ".lock"))) ∷ [])

-- `AcquireLock`: the call of Flock returns when the lock is held, or with an error.
unfoldable pub acquire_lock : Env → Bytes → Bytes → Bytes → Io (Unit {0})
acquire_lock env staging_root kind name = do
  call env op_mkdir (path_dir (lock_path staging_root kind name))
  open_or_create env (lock_path staging_root kind name)
  call env op_lock (lock_path staging_root kind name)
