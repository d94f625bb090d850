-- ===== src/Publish/ByHash.antt =====
-- internal/publish/publish.go: `MaterializeByHash`, which publishes a copy of a file under its
-- digest. A hard link is a second name with the same content; that the two names share it is not
-- modelled, since published files are replaced by renaming and never written to.
pub mod Checking
pub mod Steps
pub mod Copies
use mirror_sync.Base.{
  String, Bool, true, false, not, Option, none, some, List, [], ◌∷◌, ◌++◌, Result, ok, err,
  if◌then◌else◌, length,
}
use mirror_sync.Base.Int.{ℤ, pos, ◌==ℤ◌}
use mirror_sync.Base.Text.{Bytes, str, equal_fold, to_upper}
use mirror_sync.Model.{ByHashFile}
use mirror_sync.Safe.{safe_join, join_path, path_dir}
use mirror_sync.World.{
  World, Fault, failure, Node, regular, special, Env, Io, done, fail, try, ◌>>=◌, ◌>>◌, call,
  changing, put, tick, rename, remove, write, read_file, op_mkdir, op_open, op_sync, op_stat,
  op_chmod, op_remove, op_link,
}
use mirror_sync.Publish.{
  lift, supported_hash, checksum_file, ensure_published_dirs, publish_file, or_remove, create_temp,
}

abbrev pub demand : Bool → String → Io (Unit {0})
demand true text = done tt
demand false text = fail (failure text)

module _ (env : Env) where
  abbrev pub verify_sized : Bytes → Bytes → Bytes → Bytes → Bool → Io Bool
  verify_sized p algorithm digest content false = done false
  verify_sized p algorithm digest content true =
      checksum_file env p algorithm content >>= λ got. done (equal_fold got digest)

  abbrev pub verify_regular : Bytes → ℤ → Bytes → Bytes → Option Node → Io Bool
  verify_regular p size algorithm digest none = done false
  verify_regular p size algorithm digest (some special) = done false
  verify_regular p size algorithm digest (some (regular content)) =
      verify_sized p algorithm digest content (pos (length content) ==ℤ size)

  unfoldable pub verify_regular_no_symlink : Bytes → ℤ → Bytes → Bytes → Io Bool
  verify_regular_no_symlink p size algorithm digest =
      call env op_stat p >> λ w. verify_regular p size algorithm digest (w.files p) w

  -- os.Remove, whose error counts.
  abbrev pub remove_old : Bytes → Io (Unit {0})
  remove_old p = changing env op_remove p (put p none)

  abbrev pub linked : Bytes → Option Node → Option Node → Io (Unit {0})
  linked q (some node) none = changing env op_link q (put q (some node))
  linked q (some node) (some other) = fail (failure "file exists")
  linked q none other = fail (failure "no such file")

  -- os.Link
  unfoldable pub link : Bytes → Bytes → Io (Unit {0})
  link p q w = linked q (w.files p) (w.files q) w

  -- os.OpenFile with O_CREATE and O_EXCL.
  abbrev pub created : Bytes → Option Node → Io (Unit {0})
  created p none = create_temp env p
  created p (some node) = fail (failure "file exists")

  unfoldable pub create_new : Bytes → Io (Unit {0})
  create_new p w = created p (w.files p) w

  -- What follows the creation of the copy.
  abbrev pub copied : Bytes → Bytes → ByHashFile → Io (Unit {0})
  copied source destination expected = do
    demand (supported_hash expected.algorithm) "unsupported checksum algorithm"
    content ← read_file env source
    write env destination content
    demand (pos (length content) ==ℤ expected.size) "size mismatch"
    demand (equal_fold (env.digest (to_upper expected.algorithm) content) expected.digest)
        "checksum mismatch"
    call env op_sync destination

  unfoldable pub copy_by_hash : Bytes → Bytes → ByHashFile → Io (Unit {0})
  copy_by_hash source destination expected = do
    call env op_open source
    create_new destination
    or_remove env destination (copied source destination expected)

  abbrev pub copy_if_unlinked :
      Bytes → Bytes → Bytes → ByHashFile → Result Fault (Unit {0}) → Io (Unit {0})
  copy_if_unlinked canonical partial staged expected (ok _) = done tt
  copy_if_unlinked canonical partial staged expected (err e) =
      copy_by_hash canonical partial expected >> or_remove env partial (rename env partial staged)

  abbrev pub publish_copy : Bytes → Bytes → Bytes → Bytes → ByHashFile → Io (Unit {0})
  publish_copy cwd root staged final expected = do
    valid ← verify_regular_no_symlink staged expected.size expected.algorithm expected.digest
    demand valid "staged by-hash file failed verification"
    call env op_chmod staged
    call env op_open staged
    call env op_sync staged
    publish_file env cwd root staged final

  -- What follows the verification of the canonical file.
  abbrev pub replace_copy :
      Bytes → Bytes → Bytes → Bytes → Bytes → Bytes → ByHashFile → Io (Unit {0})
  replace_copy cwd root canonical final staged partial expected = do
    call env op_mkdir (path_dir staged)
    remove_old staged
    remove_old partial
    outcome ← try (link canonical staged)
    copy_if_unlinked canonical partial staged expected outcome
    or_remove env partial (or_remove env staged (publish_copy cwd root staged final expected))

  -- What follows if there is no such copy yet.
  unfoldable pub make_copy : Bytes → Bytes → Bytes → Bytes → Bytes → ByHashFile → Io (Unit {0})
  make_copy cwd root staging_root canonical final expected = do
    valid ← verify_regular_no_symlink canonical expected.size expected.algorithm expected.digest
    demand valid "canonical file does not match"
    staged ← lift (safe_join cwd (join_path staging_root (str "by-hash")) expected.path)
    replace_copy cwd root canonical final staged (staged ++ str ".partial") expected

  abbrev pub keep_copy : Bytes → Bytes → Bytes → Io (Unit {0})
  keep_copy cwd root final = do
    ensure_published_dirs env cwd root (path_dir final)
    call env op_chmod final
    call env op_open final
    call env op_sync final

  unfoldable pub materialize_by_hash : Bytes → Bytes → Bytes → ByHashFile → Io (Unit {0})
  materialize_by_hash cwd root staging_root expected = do
    canonical ← lift (safe_join cwd root expected.canonical_path)
    final ← lift (safe_join cwd root expected.path)
    present ← verify_regular_no_symlink final expected.size expected.algorithm expected.digest
    if present
        then keep_copy cwd root final
        else make_copy cwd root staging_root canonical final expected
