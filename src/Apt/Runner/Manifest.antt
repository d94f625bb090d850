-- ===== src/Apt/Runner/Manifest.antt =====
-- internal/apt/byhash.go: the manifest of the by-hash history, `loadByHashHistory` and
-- `writeByHashHistory`.
use mirror_sync.Base.{
  ◌≡◌, ◌≢◌, refl, String, false, Option, none, some, [], ◌∷◌, ◌++◌, if◌then◌else◌, Result, ok, err,
  ◌⊎◌,
}
use mirror_sync.Base.Text.{Bytes, str}
use mirror_sync.Safe.{join_path, path_dir, safe_join}
use mirror_sync.World.{
  World, Fault, Io, regular, done, ◌>>=◌, read_optional, optional, tick, op_read, after,
}
use mirror_sync.World.Hoare.{Post}
use mirror_sync.Publish.{lift, atomic_write}
use mirror_sync.Publish.Atomic.{atomic_write-atomic}
use mirror_sync.Apt.History.{ByHashHistory, empty_by_hash_history, validate_by_hash_history}
use mirror_sync.Apt.Runner.{Setup, staging, manifest_missing}

pub data HistoryStatus : Type 0 where
  history_valid : HistoryStatus
  history_missing : HistoryStatus
  history_corrupt : HistoryStatus

abbrev pub history_file : Bytes
history_file = str "by-hash-history.json"

abbrev pub Loaded : Type 0
Loaded = ByHashHistory × HistoryStatus

abbrev pub checked_history : ByHashHistory → Result String (Unit {0}) → Loaded
checked_history history (ok _) = (history, history_valid)
checked_history history (err e) = (empty_by_hash_history, history_corrupt)

abbrev pub decoded_history : Option ByHashHistory → Loaded
decoded_history none = (empty_by_hash_history, history_corrupt)
decoded_history (some history) = checked_history history (validate_by_hash_history history)

module _ (setup : Setup) where
  unfoldable pub by_hash_history_path : Bytes
  by_hash_history_path = join_path (staging setup) history_file

  abbrev pub history_of_file : Option Bytes → Loaded
  history_of_file none = (empty_by_hash_history, history_missing)
  history_of_file (some content) = decoded_history (setup.decode_history content)

  unfoldable pub load_by_hash_history : Io Loaded
  load_by_hash_history =
      if manifest_missing setup
      then done (empty_by_hash_history, history_missing)
      else read_optional setup.env by_hash_history_path >>= λ content.
          done (history_of_file content)

  unfoldable pub write_by_hash_history : ByHashHistory → Io (Unit {0})
  write_by_hash_history history =
      if manifest_missing setup
      then done tt
      else lift (validate_by_hash_history history) >>= λ _.
          atomic_write setup.env setup.host.cwd (path_dir by_hash_history_path)
            (path_dir by_hash_history_path) (setup.names history_file) history_file
            (setup.encode_history history ++ (b'\n' ∷ []))

  -- A load that reads something finds this history, and finds it valid.
  abbrev pub Loads : ByHashHistory → World → Type 0
  Loads history w =
      Post (λ r _. Path Loaded r (history, history_valid)) (λ _. Unit) (load_by_hash_history w)

  read_back :
      (history : ByHashHistory) (w : World)
      → manifest_missing setup ≡ false
      → setup.decode_history (setup.encode_history history ++ (b'\n' ∷ [])) ≡ some history
      → validate_by_hash_history history ≡ ok tt
      → w.files by_hash_history_path ≡ some (regular (setup.encode_history history ++ (b'\n' ∷ [])))
      → Loads history w
  unfolding load_by_hash_history read_optional ◌>>=◌
  read_back history w present codec valid here =
      rw (present, here) (go (setup.env.fails w.clock op_read by_hash_history_path))
    where
      go :
          (e : Option Fault)
          → Post
              (λ r _. Path Loaded r (history, history_valid))
              (λ _. Unit)
              (after
                (
                  tick w,
                  optional setup.env
                      (some (regular (setup.encode_history history ++ (b'\n' ∷ []))))
                      e,
                )
                (λ content. done (history_of_file content)))
      go none = rw (codec, valid) refl
      go (some x) = tt

  -- A history that is written is read back as it was, and as a valid one, unless the reading fails.
  -- The conditions: the runner has a manifest, its path is the one that the atomic write publishes
  -- to and not that of the temporary file, and the JSON of this history decodes to it.
  pub write-load_by_hash_history :
      (history : ByHashHistory)
      → manifest_missing setup ≡ false
      → safe_join setup.host.cwd (path_dir by_hash_history_path) history_file
        ≡ ok by_hash_history_path
      → setup.names history_file ≢ by_hash_history_path
      → setup.decode_history (setup.encode_history history ++ (b'\n' ∷ [])) ≡ some history
      → (w : World) → Post (λ _ w'. Loads history w') (λ _. Unit) (write_by_hash_history history w)
  unfolding write_by_hash_history ◌>>=◌
  write-load_by_hash_history history present joined apart codec w =
      rw present (validated (validate_by_hash_history history) refl)
    where
      content : Bytes
      content = setup.encode_history history ++ (b'\n' ∷ [])

      writing : Io (Unit {0})
      writing =
          atomic_write setup.env setup.host.cwd (path_dir by_hash_history_path)
            (path_dir by_hash_history_path) (setup.names history_file) history_file content

      written :
          validate_by_hash_history history ≡ ok tt
          → (r : World × Result Fault (Unit {0}))
          → Post
              (λ _ w'.
                (w'.files by_hash_history_path ≡ some (regular content))
                × ((q : Bytes)
                    → q ≢ by_hash_history_path
                    → q ≢ setup.names history_file
                    → w'.files q ≡ w.files q))
              (λ w'.
                ((w'.files by_hash_history_path ≡ w.files by_hash_history_path)
                  ⊎ (w'.files by_hash_history_path ≡ some (regular content)))
                × ((q : Bytes)
                    → q ≢ by_hash_history_path
                    → q ≢ setup.names history_file
                    → w'.files q ≡ w.files q))
              r
          → Post (λ _ w'. Loads history w') (λ _. Unit) r
      written valid (w', ok u) h = read_back history w' present codec valid h.0
      written valid (w', err e) h = tt

      validated :
          (r : Result String (Unit {0}))
          → validate_by_hash_history history ≡ r
          → Post (λ _ w'. Loads history w') (λ _. Unit) ((lift r >>= λ _. writing) w)
      validated (err e) same = tt
      validated (ok _) same = written same (writing w) (
          atomic_write-atomic setup.env setup.host.cwd (path_dir by_hash_history_path)
            (path_dir by_hash_history_path) (setup.names history_file) history_file content joined
            apart w)
