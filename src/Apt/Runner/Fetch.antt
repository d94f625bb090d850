-- ===== src/Apt/Runner/Fetch.antt =====
-- `fetchState` of internal/apt/apt.go, and the states that it makes.
use mirror_sync.Base.{String, Bool, true, false, List, [], ◌∷◌, ◌++◌, Result, ok}
use mirror_sync.Base.Text.{Bytes, str}
use mirror_sync.Base.Dict.{Dict, insert}
use mirror_sync.Model.{Payload, RepositoryFile, ByHashFile, RepositoryState}
use mirror_sync.World.{Io, done, ◌>>=◌}
use mirror_sync.Httpx.{Client}
use mirror_sync.Publish.{lift}
use mirror_sync.Download.{resolve_exact}
use mirror_sync.Apt.Signed.{OpenPgp}
use mirror_sync.Apt.Release.{VerifiedRelease}
use mirror_sync.Apt.Select.{
  AptSuite, select_release_files, release_files_to_resolve, allowed_package_architectures,
}
use mirror_sync.Apt.ByHash.{parse_acquire_by_hash, derive_by_hash_files}
use mirror_sync.Apt.Resolved.{ResolvedReleaseState, resolution}
use mirror_sync.Apt.Indexes.{IndexName, open_resolved_named_index, read_indexes}
use mirror_sync.Apt.Runner.{
  Setup, no_state, staging, known, index_names, apt_file_expected, repository_files_from_expected,
  load_keyring, connect, primary_settings, dists_clients, fetch_release,
  load_resolved_release_state,
}

module _ (setup : Setup) where
  abbrev pub nothing_missing : IndexName → Io (Unit {0})
  nothing_missing index = done tt

  -- The loop over the components of a suite, whose Release advertises `v.hashes`.
  unfoldable pub read_components :
      AptSuite
      → VerifiedRelease
      → List RepositoryFile
      → List Bytes
      → Dict Payload
      → Io (Dict Payload)
  read_components suite v files [] out = done out
  read_components suite v files (component ∷ components) out = do
    out' ←
        read_indexes setup.env (allowed_package_architectures setup.repo.architectures)
          (open_resolved_named_index setup.env setup.host.cwd (staging setup)
            setup.repo.abs_publish_path suite.name v.hashes files)
          nothing_missing (index_names setup.repo.architectures component) out
    read_components suite v files components out'

  abbrev pub by_hash_of : Bool → List RepositoryFile → Result String (List ByHashFile)
  by_hash_of false files = ok []
  by_hash_of true files = derive_by_hash_files files

  abbrev pub release_fingerprint : Bytes → Bytes
  release_fingerprint text = setup.env.digest (str "SHA256") text

  -- The files of a Release that are asked for again, and what is found of them.
  unfoldable pub resolve_suite :
      List Client
      → ResolvedReleaseState
      → AptSuite
      → VerifiedRelease
      → List RepositoryFile
      → Io (List RepositoryFile)
  resolve_suite clients resolved suite v advertised = do
    let found = resolution resolved.releases suite.name (release_fingerprint v.text)
    let before = known found
    let wanted = release_files_to_resolve advertised before.0 before.1 before.2
    expected ←
        resolve_exact setup.env setup.host.cwd setup.repo.abs_publish_path (staging setup) before.1
          clients (apt_file_expected wanted)
    done (repository_files_from_expected expected)

  -- One suite of the loop.
  unfoldable pub fetch_suite :
      OpenPgp
      → Client
      → List Client
      → ResolvedReleaseState
      → AptSuite
      → RepositoryState
      → Io RepositoryState
  fetch_suite pgp client clients resolved suite state = do
    v ← fetch_release setup pgp client suite.name
    enabled ← lift (parse_acquire_by_hash v.text)
    advertised ← lift (select_release_files suite setup.repo.architectures v.hashes)
    files ← resolve_suite clients resolved suite v advertised
    by_hash ← lift (by_hash_of enabled files)
    packages ← read_components suite v files suite.components state.packages
    done (record {
      metadata = state.metadata ++ v.metadata;
      selected_files = state.selected_files ++ advertised;
      files = state.files ++ files;
      by_hash_files = state.by_hash_files ++ by_hash;
      by_hash_enabled = insert suite.name enabled state.by_hash_enabled;
      release_fingerprints =
          insert suite.name (release_fingerprint v.text) state.release_fingerprints;
      packages = packages;
    })

  unfoldable pub fetch_suites :
      OpenPgp
      → Client
      → List Client
      → ResolvedReleaseState
      → List AptSuite
      → RepositoryState
      → Io RepositoryState
  fetch_suites pgp client clients resolved [] state = done state
  fetch_suites pgp client clients resolved (suite ∷ suites) state =
      fetch_suite pgp client clients resolved suite state
      >>= fetch_suites pgp client clients resolved suites

  unfoldable pub fetch_state : Io RepositoryState
  fetch_state = do
    pgp ← load_keyring setup
    primary ← lift (primary_settings setup)
    client ← lift (connect setup primary)
    clients ← dists_clients setup
    resolved ← load_resolved_release_state setup
    fetch_suites pgp client clients resolved.0 setup.repo.suites no_state
