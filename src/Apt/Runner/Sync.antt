-- ===== src/Apt/Runner/Sync.antt =====
-- internal/apt/apt.go, internal/apt/byhash.go and internal/apt/resolved_state.go: `Sync` and
-- `Verify` of the runner, under their lock, which is given back in any case. The files are fetched
-- one after the other.
use mirror_sync.Base.{
  ◌+◌, String, Bool, true, false, ◌||◌, Option, none, some, List, [], ◌∷◌, ◌++◌, Result, ok, err,
  if◌then◌else◌, is_some, length,
}
use mirror_sync.Base.Int.{pos}
use mirror_sync.Base.Text.{Bytes, str}
use mirror_sync.Model.{OperationStats, no_stats, add_stats, RepositoryState, ByHashFile}
use mirror_sync.Safe.{join_path, path_dir, safe_join}
use mirror_sync.World.{Fault, Io, done, try, ◌>>=◌, ◌>>◌, call, op_stat}
use mirror_sync.Httpx.{Client}
use mirror_sync.Publish.{lift, acquire_lock, atomic_write, publish_metadata}
use mirror_sync.Publish.ByHash.{materialize_by_hash, verify_regular_no_symlink}
use mirror_sync.Download.{
  Expected, ensure_many, ensure_synced_one, ensure_repaired_one, payload_expected,
}
use mirror_sync.Apt.Release.{dists_path}
use mirror_sync.Apt.Select.{AptSuite}
use mirror_sync.Apt.History.{
  ByHashHistory, ByHashHistoryRecord, ByHashHistoryGeneration, update_by_hash_history,
}
use mirror_sync.Apt.Indexes.{filepath_for}
use mirror_sync.Apt.Resolved.{
  ResolvedReleaseState, resolved_records, prepare_resolved_release_state, checked_state,
}
use mirror_sync.Apt.Runner.{
  Setup, staging, manifest_missing, payload_clients, apt_file_expected, load_resolved_release_state,
}
use mirror_sync.Apt.Runner.Fetch.{fetch_state}
use mirror_sync.Apt.Runner.Published.{read_published_release_state, read_published_state}
use mirror_sync.Apt.Runner.Manifest.{
  HistoryStatus, history_valid, history_missing, history_corrupt, Loaded, load_by_hash_history,
  write_by_hash_history,
}
use mirror_sync.Apt.Runner.Keep.{prune_state_with_history}

abbrev pub resolved_file : Bytes
resolved_file = str "resolved-release-files.json"

abbrev pub is_corrupt : HistoryStatus → Bool
is_corrupt history_valid = false
is_corrupt history_missing = false
is_corrupt history_corrupt = true

-- The state that was published, if it was found and could be read.
abbrev pub old_state : Result Fault (Option RepositoryState) → Option RepositoryState
old_state (ok found) = found
old_state (err e) = none

abbrev pub is_unsafe : Result Fault (Option RepositoryState) → Bool
is_unsafe (ok found) = false
is_unsafe (err e) = true

abbrev pub with_old : Option RepositoryState → ByHashHistory → ByHashHistory
with_old none history = history
with_old (some old) history = update_by_hash_history history old

abbrev pub old_copies : Option RepositoryState → List ByHashFile
old_copies none = []
old_copies (some old) = old.by_hash_files

module _ (setup : Setup) where
  abbrev pub there : Bytes → Io Bool
  there p = call setup.env op_stat p >> λ w. done (is_some (w.files p)) w

  unfoldable pub any_there : List Bytes → Io Bool
  any_there [] = done false
  any_there (p ∷ ps) =
      let rest = any_there ps in there p >>= λ found. if found then done true else rest

  abbrev pub release_paths : List AptSuite → List Bytes
  release_paths [] = []
  release_paths (suite ∷ suites) =
      filepath_for setup.host.cwd setup.repo.abs_publish_path
        (dists_path suite.name (str "InRelease"))
      ∷ filepath_for setup.host.cwd setup.repo.abs_publish_path
          (dists_path suite.name (str "Release"))
      ∷ release_paths suites

  abbrev pub if_there : Bool → Io (Option RepositoryState)
  if_there false = done none
  if_there true = read_published_release_state setup >>= λ state. done (some state)

  unfoldable pub read_published_release_state_optional : Io (Option RepositoryState)
  read_published_release_state_optional = any_there (release_paths setup.repo.suites) >>= if_there

  abbrev pub materialize : ByHashFile → Io (Unit {0})
  materialize f =
      materialize_by_hash setup.env setup.host.cwd setup.repo.abs_publish_path (staging setup) f

  -- `materializeByHash`
  unfoldable pub materialize_all : List ByHashFile → Io (Unit {0})
  materialize_all [] = done tt
  materialize_all (f ∷ fs) = materialize f >> materialize_all fs

  -- Whatever becomes of a copy, the next one follows.
  unfoldable pub preserve_by_hash : List ByHashFile → Io (Unit {0})
  preserve_by_hash [] = done tt
  preserve_by_hash (f ∷ fs) = try (materialize f) >>= λ _. preserve_by_hash fs

  abbrev pub resolved_path : Bytes
  resolved_path = join_path (staging setup) resolved_file

  unfoldable pub write_resolved_release_state : ResolvedReleaseState → Io (Unit {0})
  write_resolved_release_state state =
      if manifest_missing setup
      then done tt
      else lift (checked_state state) >>= λ sorted.
          atomic_write setup.env setup.host.cwd (path_dir resolved_path) (path_dir resolved_path)
            (setup.names resolved_file) resolved_file (setup.encode_resolved sorted ++ (b'\n' ∷ []))

  -- `prepareResolvedReleaseState`
  unfoldable pub prepare_resolved : RepositoryState → Io (Unit {0})
  prepare_resolved state = do
    current ← load_resolved_release_state setup
    write_resolved_release_state (prepare_resolved_release_state current.0 state)

  unfoldable pub commit_resolved_release_state : RepositoryState → Io (Unit {0})
  commit_resolved_release_state state =
      write_resolved_release_state (record { version = pos 2; releases = resolved_records state })

  unfoldable pub ensure_repaired : List Client → List Expected → Io OperationStats
  ensure_repaired clients expected =
      ensure_many setup.env
        (ensure_repaired_one setup.env setup.host.cwd setup.repo.abs_publish_path (staging setup)
          clients)
        expected no_stats

  unfoldable pub ensure_synced : List Client → List Expected → Io OperationStats
  ensure_synced clients expected =
      ensure_many setup.env
        (ensure_synced_one setup.env setup.host.cwd setup.repo.abs_publish_path (staging setup)
          clients)
        expected no_stats

  abbrev pub pruned :
      Bool → RepositoryState → ByHashHistory → Bool → OperationStats → Io OperationStats
  pruned false state history protect stats = done stats
  pruned true state history protect stats =
      prune_state_with_history setup state history protect >>= λ removed.
      done (record stats { files_pruned = stats.files_pruned + length removed })

  unfoldable pub sync : Io OperationStats
  sync = do
    acquire_lock setup.env setup.config.storage.staging (str "apt") setup.repo.name
    found ← try read_published_release_state_optional
    loaded ← load_by_hash_history setup
    state ← fetch_state setup
    preserve_by_hash (old_copies (old_state found))
    clients ← payload_clients setup
    packages ← ensure_synced clients (payload_expected state.packages)
    files ← ensure_repaired clients (apt_file_expected state.files)
    materialize_all state.by_hash_files
    prepare_resolved state
    publish_metadata setup.env setup.host.cwd setup.repo.abs_publish_path (staging setup)
        setup.names state.metadata
    commit_resolved_release_state state
    let history = update_by_hash_history (with_old (old_state found) loaded.0) state
    write_by_hash_history setup history
    pruned setup.config.sync.prune state history (is_corrupt loaded.1 || is_unsafe found)
        (add_stats packages files)

  -- The loops of `verifyHistoricByHash`, whose results are ignored.
  abbrev pub check_copy : ByHashHistoryGeneration → Bytes → Result String Bytes → Io (Unit {0})
  check_copy g algorithm (err e) = done tt
  check_copy g algorithm (ok p) =
      try (verify_regular_no_symlink setup.env p g.size algorithm g.digest) >>= λ _. done tt

  unfoldable pub check_generations : Bytes → List ByHashHistoryGeneration → Io (Unit {0})
  check_generations algorithm [] = done tt
  check_generations algorithm (g ∷ gs) =
      check_copy g algorithm (safe_join setup.host.cwd setup.repo.abs_publish_path g.path)
      >> check_generations algorithm gs

  unfoldable pub check_records : List ByHashHistoryRecord → Io (Unit {0})
  check_records [] = done tt
  check_records (r ∷ rs) = check_generations r.algorithm r.generations >> check_records rs

  abbrev pub check_loaded : Result Fault Loaded → Io (Unit {0})
  check_loaded (ok (history, history_valid)) = check_records history.records
  check_loaded (ok (history, history_missing)) = done tt
  check_loaded (ok (history, history_corrupt)) = done tt
  check_loaded (err e) = done tt

  unfoldable pub verify_historic_by_hash : Io (Unit {0})
  verify_historic_by_hash = try (load_by_hash_history setup) >>= check_loaded

  unfoldable pub verify : Io OperationStats
  verify = do
    acquire_lock setup.env setup.config.storage.staging (str "apt") setup.repo.name
    release_state ← read_published_release_state setup
    clients ← payload_clients setup
    files ← ensure_repaired clients (apt_file_expected release_state.files)
    materialize_all release_state.by_hash_files
    verify_historic_by_hash
    state ← read_published_state setup
    packages ← ensure_repaired clients (payload_expected state.packages)
    done (add_stats files packages)
