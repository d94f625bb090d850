-- ===== src/Apk/Runner.antt =====
-- internal/apk/apk.go: the runner of a repository, over the world of files and servers. `Setup` is
-- what the operations share; `walk` is what a walk below the published root meets, as paths from
-- there, and `names` the temporary names that the system chooses.
pub mod State
pub mod Pruning
use mirror_sync.Base.{
  ℕ, ◌*◌, String, Bool, true, false, Option, none, some, List, [], ◌∷◌, ◌++◌, map, if◌then◌else◌,
  Result, ok, err, ◌^◌, length, ◌+◌,
}
use mirror_sync.Base.Int.{ℤ, pos}
use mirror_sync.Base.Text.{Bytes, str}
use mirror_sync.Base.Dict.{Dict, Set, keys, add}
use mirror_sync.Model.{Payload, MetadataFile, RepositoryState, OperationStats, no_stats, add_stats}
use mirror_sync.Safe.{safe_join, join_all}
use mirror_sync.World.{World, Fault, Env, Io, done, fail, ◌>>=◌, ◌>>◌, tick, reading, read_file}
use mirror_sync.Httpx.{Client, new_client, get_bytes}
use mirror_sync.Publish.{lift, publish_metadata, prune, acquire_lock}
use mirror_sync.Download.{ensure_many, ensure_synced_one, ensure_repaired_one, payload_expected}
use mirror_sync.Config.{
  Host, Config, ApkRepository, ApkVersion, EffectiveSource, repo_apk, source_primary, effective,
  payload_sources,
}
use mirror_sync.Apk.{Formats, TarMember, verify_apk_index}
use mirror_sync.Apk.Index.{IndexScan, parse_index}

pub record Setup (Key : Type 0) : Type 0 where
  pub env : Env
  pub host : Host
  pub formats : Formats Key
  pub config : Config
  pub repo : ApkRepository
  pub global_limiter : Option ℕ
  pub walk : List Bytes
  pub names : Bytes → Bytes

abbrev pub no_state : RepositoryState
no_state = record {
  metadata = [];
  selected_files = [];
  files = [];
  by_hash_files = [];
  by_hash_enabled = [];
  release_fingerprints = [];
  packages = [];
}

unfoldable pub repo_staging : Config → Bytes → Bytes → Bytes
repo_staging c kind name = join_all (c.storage.staging ∷ str "repos" ∷ kind ∷ name ∷ [])

-- `filepathFor`, which drops the error of Join.
unfoldable pub filepath_for : Bytes → Bytes → Bytes → Bytes
filepath_for cwd root rel = elim (safe_join cwd root rel) [ ok p ↦ p | err e ↦ [] ]

module _ {Key : Type 0} (setup : Setup Key) where
  -- The index of a state's payloads, as its callbacks read it from a tar member.
  abbrev pub index_of : Bytes → Dict Payload → TarMember → Result String IndexScan
  index_of base packages m = parse_index setup.formats base m.content m.failure packages

  -- An index whose bytes are at hand is checked and read; the key's file is read meanwhile.
  unfoldable pub read_index : Bytes → Bytes → Dict Payload → Io (Dict Payload)
  read_index base text packages w =
      (lift (
            verify_apk_index setup.formats (reading setup.env w) setup.repo.abs_keys_dir text
              (index_of base packages))
          >>= λ scan. done scan.1)
        (tick w)

  abbrev pub index_file : Bytes → Bytes → MetadataFile
  index_file rel text = record { path = rel; content = text; signed_last = true }

  -- The bodies of the loops of `fetchState` and `readPublishedState`, which differ in `get` only.
  module _ (get : Bytes → Io Bytes) where
    unfoldable pub read_architecture : Bytes → Bytes → Bytes → RepositoryState → Io RepositoryState
    read_architecture version repo arch state = do
      let rel = join_all (version ∷ repo ∷ arch ∷ str "APKINDEX.tar.gz" ∷ [])
      text ← get rel
      packages ← read_index (join_all (version ∷ repo ∷ arch ∷ [])) text state.packages
      done (record state {
        metadata = state.metadata ++ (index_file rel text ∷ []);
        packages = packages;
      })

    unfoldable pub read_architectures :
        Bytes → Bytes → List Bytes → RepositoryState → Io RepositoryState
    read_architectures version repo [] state = done state
    read_architectures version repo (arch ∷ archs) state =
        read_architecture version repo arch state >>= read_architectures version repo archs

    unfoldable pub read_repositories : Bytes → List Bytes → RepositoryState → Io RepositoryState
    read_repositories version [] state = done state
    read_repositories version (repo ∷ repos) state =
        read_architectures version repo setup.repo.architectures state
        >>= read_repositories version repos

    unfoldable pub read_versions : List ApkVersion → RepositoryState → Io RepositoryState
    read_versions [] state = done state
    read_versions (v ∷ vs) state =
        read_repositories v.name v.repositories state >>= read_versions vs

  abbrev pub connect : EffectiveSource → Result String Client
  connect src =
      new_client (λ url. elim (setup.host.scheme url) [ none ↦ false | some s ↦ true ])
        setup.config.sync.download.retries setup.global_limiter src

  unfoldable pub fetch_state : Io RepositoryState
  fetch_state = do
    primary ← lift (
        effective setup.host setup.config setup.repo.name repo_apk source_primary 0
          setup.repo.primary_source)
    client ← lift (connect primary)
    read_versions (λ rel. get_bytes setup.env client rel (128 * 2 ^ 20)) setup.repo.versions
        no_state

  unfoldable pub read_published_state : Io RepositoryState
  read_published_state =
      read_versions
        (λ rel. read_file setup.env (filepath_for setup.host.cwd setup.repo.abs_publish_path rel))
        setup.repo.versions no_state

  unfoldable pub connect_all : List EffectiveSource → Io (List Client)
  connect_all [] = done []
  connect_all (src ∷ srcs) = do
    client ← lift (connect src)
    clients ← connect_all srcs
    done (client ∷ clients)

  unfoldable pub payload_clients : Io (List Client)
  payload_clients =
      lift (
        payload_sources setup.host setup.config setup.repo.name repo_apk setup.repo.primary_source
          setup.repo.mirror_sources)
      >>= connect_all

  abbrev pub staging : Bytes
  staging = repo_staging setup.config (str "apk") setup.repo.name

  abbrev pub add_all : List Bytes → Set → Set
  add_all [] keep = keep
  add_all (k ∷ ks) keep = add k (add_all ks keep)

  -- The paths that a prune keeps.
  unfoldable pub kept_paths : RepositoryState → Set
  kept_paths state = add_all (keys state.packages) (add_all (map (λ f. f.path) state.metadata) [])

  unfoldable pub prune_repository : Io (List Bytes)
  prune_repository = do
    state ← read_published_state
    prune setup.env setup.repo.abs_publish_path (kept_paths state) setup.walk

  unfoldable pub prune_if : Bool → OperationStats → Io OperationStats
  prune_if false stats = done stats
  prune_if true stats = do
    removed ← prune_repository
    done (record stats { files_pruned = stats.files_pruned + length removed })

  -- `Sync` under its lock, which is given back in any case.
  unfoldable pub sync : Io OperationStats
  sync = do
    acquire_lock setup.env setup.config.storage.staging (str "apk") setup.repo.name
    state ← fetch_state
    clients ← payload_clients
    stats ←
        ensure_many setup.env
          (ensure_synced_one setup.env setup.host.cwd setup.repo.abs_publish_path staging clients)
          (payload_expected state.packages) no_stats
    publish_metadata setup.env setup.host.cwd setup.repo.abs_publish_path staging setup.names
        state.metadata
    prune_if setup.config.sync.prune stats

  unfoldable pub verify : Io OperationStats
  verify = do
    acquire_lock setup.env setup.config.storage.staging (str "apk") setup.repo.name
    state ← read_published_state
    clients ← payload_clients
    ensure_many setup.env
        (ensure_repaired_one setup.env setup.host.cwd setup.repo.abs_publish_path staging clients)
        (payload_expected state.packages) no_stats
