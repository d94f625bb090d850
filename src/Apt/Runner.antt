-- ===== src/Apt/Runner.antt =====
-- internal/apt/apt.go and internal/apt/byhash.go: the runner of a repository. `Setup` is what the
-- operations share: also what packages openpgp and encoding/json make of the keyring's file and of
-- the manifests, what a walk below the published root meets, as paths from there, and the temporary
-- names that the system chooses.
pub mod Fetch
pub mod Trust
pub mod Published
pub mod Sync
pub mod Keep
pub mod Pruning
pub mod Manifest
use mirror_sync.Base.{
  ℕ, ◌*◌, ◌^◌, String, Bool, true, false, not, ◌&&◌, ◌||◌, Option, none, some, List, [], ◌∷◌, ◌++◌,
  map, if◌then◌else◌, Result, ok, err, is_some,
}
use mirror_sync.Base.Int.{ℤ, pos, ◌==ℤ◌}
use mirror_sync.Base.Text.{Bytes, str, is_empty, has_prefix, contains, contains_text}
use mirror_sync.Base.Dict.{Dict, Set, insert, keys, add}
use mirror_sync.Model.{
  Payload, MetadataFile, RepositoryFile, ByHashFile, RepositoryState, no_digest, Checksums,
}
use mirror_sync.Safe.{join_all, join_path}
use mirror_sync.World.{
  World, Fault, failure, Env, Io, done, fail, ◌>>=◌, ◌>>◌, call, op_stat, read_file, read_optional,
}
use mirror_sync.Httpx.{Client, new_client}
use mirror_sync.Publish.{lift, prune, acquire_lock, atomic_write}
use mirror_sync.Download.{Expected, resolve_exact}
use mirror_sync.Config
use mirror_sync.Config.{
  Host, Config, AptRepository, EffectiveSource, repo_apt, source_primary, source_mirror, effective,
  effective_mirrors, payload_sources,
}
use mirror_sync.Apt.Signed.{OpenPgp}
use mirror_sync.Apt.Release.{VerifiedRelease, select_release_forms, dists_path}
use mirror_sync.Apt.Select.{
  AptSuite, select_release_files, release_files_to_resolve, package_index_architectures,
  selected_architecture_names, allowed_package_architectures,
}
use mirror_sync.Apt.ByHash.{parse_acquire_by_hash, derive_by_hash_files, sorted_files}
use mirror_sync.Apt.History.{
  ByHashHistory, ByHashHistoryRecord, ByHashHistoryGeneration, empty_by_hash_history,
  validate_by_hash_history, update_by_hash_history,
}
use mirror_sync.Apt.Resolved.{
  ResolvedReleaseState, empty_resolved_release_state, resolution, validate_resolved_release_state,
  upgrade_resolved_release_state_v1,
}
use mirror_sync.Apt.Indexes.{
  IndexName, IndexKind, packages_index, sources_index, Opened, fetch_optional,
  open_resolved_named_index, read_indexes,
}

pub record Setup : Type 0 where
  pub env : Env
  pub host : Host
  pub config : Config
  pub repo : AptRepository
  pub global_limiter : Option ℕ
  pub read_key_ring : Bytes → Result String OpenPgp
  pub decode_history : Bytes → Option ByHashHistory
  pub encode_history : ByHashHistory → Bytes
  pub encode_resolved : ResolvedReleaseState → Bytes
  pub decode_resolved : Bytes → Option ResolvedReleaseState
  pub walk : List Bytes
  pub names : Bytes → Bytes

abbrev pub no_state : RepositoryState
no_state = record {
  metadata = [];
  selected_files = [];
  files = [];
  by_hash_files = [];
  by_hash_enabled = [];
  release_fingerprints = [];
  packages = [];
}

unfoldable pub repo_staging : Config → Bytes → Bytes → Bytes
repo_staging c kind name = join_all (c.storage.staging ∷ str "repos" ∷ kind ∷ name ∷ [])

abbrev pub expected_of : RepositoryFile → Expected
expected_of f = record {
  rel_path = f.path;
  size = f.size;
  sha256 = [];
  checksums = f.checksums;
  verify = none;
  verify_on_sync = true;
  sources = [];
}

unfoldable pub apt_file_expected : List RepositoryFile → List Expected
apt_file_expected files = map expected_of (sorted_files files)

abbrev pub file_of : Expected → RepositoryFile
file_of e = record {
  path = e.rel_path;
  size = e.size;
  checksums =
      if no_digest e.checksums && not (is_empty e.sha256)
      then record (e.checksums) { sha256 = e.sha256 }
      else e.checksums;
}

unfoldable pub repository_files_from_expected : List Expected → List RepositoryFile
repository_files_from_expected expected = map file_of expected

-- The indexes of a component, in the order in which they are read.
unfoldable pub index_names : List Bytes → Bytes → List IndexName
index_names archs component =
    map
      (λ (arch : Bytes). record {
        dir = join_path component (str "binary-" ++ arch);
        name = str "Packages";
        kind = packages_index;
      })
      (package_index_architectures archs)
    ++ (map
          (λ (arch : Bytes). record {
            dir = join_all (component ∷ str "debian-installer" ∷ (str "binary-" ++ arch) ∷ []);
            name = str "Packages";
            kind = packages_index;
          })
          (selected_architecture_names archs)
        ++ (record {
          dir = join_path component (str "source");
          name = str "Sources";
          kind = sources_index;
        }
            ∷ []))

-- What is known of a Release from before: the selected and resolved paths, and whether the
-- selection is complete; nothing if it is not found.
abbrev pub known : Option (Set × Set × Bool) → Set × Set × Bool
known none = ([], [], false)
known (some r) = r

-- What a load of the resolved state finds, and whether there is a manifest.
abbrev pub LoadedState : Type 0
LoadedState = ResolvedReleaseState × Bool

abbrev pub valid_state : ResolvedReleaseState → Result String (Unit {0}) → Result String LoadedState
valid_state state (err e) = err e
valid_state state (ok _) =
    ok (if state.version ==ℤ pos 1 then upgrade_resolved_release_state_v1 state else state, true)

module _ (setup : Setup) where
  abbrev pub staging : Bytes
  staging = repo_staging setup.config (str "apt") setup.repo.name

  unfoldable pub load_keyring : Io OpenPgp
  load_keyring = do
    content ← read_file setup.env setup.repo.abs_keyring
    lift (setup.read_key_ring content)

  abbrev pub connect : EffectiveSource → Result String Client
  connect src =
      new_client (λ url. is_some (setup.host.scheme url)) setup.config.sync.download.retries
        setup.global_limiter src

  unfoldable pub connect_all : List EffectiveSource → Io (List Client)
  connect_all [] = done []
  connect_all (src ∷ srcs) = do
    client ← lift (connect src)
    clients ← connect_all srcs
    done (client ∷ clients)

  abbrev pub primary_settings : Result String EffectiveSource
  primary_settings =
      effective setup.host setup.config setup.repo.name repo_apt source_primary 0
        setup.repo.primary_source

  unfoldable pub payload_clients : Io (List Client)
  payload_clients = do
    sources ← lift (
        payload_sources setup.host setup.config setup.repo.name repo_apt setup.repo.primary_source
          setup.repo.mirror_sources)
    connect_all sources

  unfoldable pub dists_clients : Io (List Client)
  dists_clients = do
    mirrors ← lift (
        effective_mirrors setup.host setup.config setup.repo.name repo_apt 0
          setup.repo.mirror_sources)
    primary ← lift primary_settings
    connect_all (mirrors ++ (primary ∷ []))

  unfoldable pub fetch_release : OpenPgp → Client → Bytes → Io VerifiedRelease
  fetch_release pgp client suite = do
    in_release ← fetch_optional setup.env client (dists_path suite (str "InRelease")) (64 * 2 ^ 20)
    release ← fetch_optional setup.env client (dists_path suite (str "Release")) (64 * 2 ^ 20)
    sig ← fetch_optional setup.env client (dists_path suite (str "Release.gpg")) (16 * 2 ^ 20)
    lift (select_release_forms pgp suite in_release release sig)

  abbrev pub manifest_missing : Bool
  manifest_missing = is_empty setup.config.storage.staging || is_empty setup.repo.name

  -- A manifest that does not decode, or is not valid, is an error here.
  abbrev pub resolved_of_file : Option Bytes → Result String LoadedState
  resolved_of_file none = ok (empty_resolved_release_state, false)
  resolved_of_file (some content) = elim (setup.decode_resolved content) [
    | none ↦ err "decode"
    | some state ↦ valid_state state (validate_resolved_release_state state)
  ]

  unfoldable pub load_resolved_release_state : Io LoadedState
  load_resolved_release_state =
      if manifest_missing
      then done (empty_resolved_release_state, false)
      else (read_optional setup.env (join_path staging (str "resolved-release-files.json"))
          >>= λ content. lift (resolved_of_file content))
