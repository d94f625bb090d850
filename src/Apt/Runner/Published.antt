-- ===== src/Apt/Runner/Published.antt =====
-- internal/apt/apt.go: the state of the published files, `readPublishedReleaseState` and
-- `readPublishedState`, and `Prune`.
pub mod Trust
use mirror_sync.Base.{
  String, Bool, true, false, Option, none, some, List, [], ◌∷◌, ◌++◌, map, Result, ok, err,
  filter_by, or_default, All, All-append, Result-cases, inl, inr, ◌≡◌, refl, sym, subst,
}
use mirror_sync.Base.Text.{Bytes, str, contains}
use mirror_sync.Base.Dict.{Dict, Set, insert, lookup}
use mirror_sync.Model.{Payload, MetadataFile, RepositoryFile, RepositoryState}
use mirror_sync.Safe.{join_all}
use mirror_sync.World.{World, Io, done, ◌>>=◌, ◌>>◌}
use mirror_sync.World.Hoare.{Post, Run, bind}
use mirror_sync.World.Any.{Always, then_any}
use mirror_sync.Publish.{lift, acquire_lock}
use mirror_sync.Apt.Signed.{OpenPgp}
use mirror_sync.Apt.Release.{ReleaseFile, VerifiedRelease, select_release_forms, dists_path}
use mirror_sync.Apt.Release.Forms.{Covered}
use mirror_sync.Apt.Select.{
  AptSuite, select_release_files, filter_repository_files, allowed_package_architectures,
}
use mirror_sync.Apt.ByHash.{parse_acquire_by_hash}
use mirror_sync.Apt.Resolved.{resolved_of}
use mirror_sync.Apt.Indexes.{
  read_optional_published, open_published_named_index, must_be_there, read_indexes,
}
use mirror_sync.Apt.Runner.{
  Setup, LoadedState, no_state, index_names, load_keyring, load_resolved_release_state,
}
use mirror_sync.Apt.Runner.Fetch.{by_hash_of, release_fingerprint}
use mirror_sync.Apt.Runner.Keep.{prune_state}

abbrev pub filtered : List RepositoryFile → Option Set → Result String (List RepositoryFile)
filtered files none = err "no resolved-path state"
filtered files (some paths) = ok (filter_repository_files files paths)

-- Of the files of a Release, those that were resolved; all of them if there is no manifest.
unfoldable pub resolved_files :
    LoadedState → Bytes → Bytes → List RepositoryFile → Result String (List RepositoryFile)
resolved_files (resolved, false) suite fingerprint files = ok files
resolved_files (resolved, true) suite fingerprint files =
    filtered files (resolved_of resolved.releases suite fingerprint)

module _ (setup : Setup) where
  abbrev pub read_named : Bytes → Bytes → Io (Option Bytes)
  read_named suite name =
      read_optional_published setup.env setup.host.cwd setup.repo.abs_publish_path
        (dists_path suite name)

  unfoldable pub read_published_suite_release : OpenPgp → Bytes → Io VerifiedRelease
  read_published_suite_release pgp suite = do
    in_release ← read_named suite (str "InRelease")
    release ← read_named suite (str "Release")
    sig ← read_named suite (str "Release.gpg")
    lift (select_release_forms pgp suite in_release release sig)

  -- One suite of the loop.
  unfoldable pub published_suite :
      OpenPgp → LoadedState → AptSuite → RepositoryState → Io RepositoryState
  published_suite pgp resolved suite state = do
    v ← read_published_suite_release pgp suite.name
    enabled ← lift (parse_acquire_by_hash v.text)
    advertised ← lift (select_release_files suite setup.repo.architectures v.hashes)
    files ← lift (resolved_files resolved suite.name (release_fingerprint setup v.text) advertised)
    by_hash ← lift (by_hash_of setup enabled files)
    done (record {
      metadata = state.metadata ++ v.metadata;
      selected_files = state.selected_files ++ advertised;
      files = state.files ++ files;
      by_hash_files = state.by_hash_files ++ by_hash;
      by_hash_enabled = insert suite.name enabled state.by_hash_enabled;
      release_fingerprints =
          insert suite.name (release_fingerprint setup v.text) state.release_fingerprints;
      packages = state.packages;
    })

  unfoldable pub published_suites :
      OpenPgp → LoadedState → List AptSuite → RepositoryState → Io RepositoryState
  published_suites pgp resolved [] state = done state
  published_suites pgp resolved (suite ∷ suites) state =
      published_suite pgp resolved suite state >>= published_suites pgp resolved suites

  unfoldable pub read_published_release_state : Io RepositoryState
  read_published_release_state = do
    pgp ← load_keyring setup
    resolved ← load_resolved_release_state setup
    published_suites pgp resolved setup.repo.suites no_state

  unfoldable pub read_published_release_hashes : Bytes → Io (Dict ReleaseFile)
  read_published_release_hashes suite = do
    pgp ← load_keyring setup
    v ← read_published_suite_release pgp suite
    done v.hashes

  -- The files of a Release that are files of the state.
  unfoldable pub resolved_hashes : Bytes → List RepositoryFile → Dict ReleaseFile → Dict ReleaseFile
  resolved_hashes suite files hashes =
      filter_by
        (λ (e : Bytes × ReleaseFile).
          contains (map (λ (f : RepositoryFile). f.path) files)
            (join_all (str "dists" ∷ suite ∷ e.0 ∷ [])))
        hashes

  unfoldable pub hashes_by_suite :
      List RepositoryFile → List AptSuite → Dict (Dict ReleaseFile) → Io (Dict (Dict ReleaseFile))
  hashes_by_suite files [] out = done out
  hashes_by_suite files (suite ∷ suites) out = do
    hashes ← read_published_release_hashes suite.name
    hashes_by_suite files suites (insert suite.name (resolved_hashes suite.name files hashes) out)

  unfoldable pub published_components :
      AptSuite → Dict ReleaseFile → List Bytes → Dict Payload → Io (Dict Payload)
  published_components suite hashes [] out = done out
  published_components suite hashes (component ∷ components) out = do
    out' ←
        read_indexes setup.env (allowed_package_architectures setup.repo.architectures)
          (open_published_named_index setup.env setup.host.cwd setup.repo.abs_publish_path
            suite.name hashes)
          (must_be_there setup.env hashes) (index_names setup.repo.architectures component) out
    published_components suite hashes components out'

  unfoldable pub published_packages :
      Dict (Dict ReleaseFile) → List AptSuite → Dict Payload → Io (Dict Payload)
  published_packages by_suite [] out = done out
  published_packages by_suite (suite ∷ suites) out =
      published_components suite (or_default (lookup suite.name by_suite) []) suite.components out
      >>= published_packages by_suite suites

  unfoldable pub read_published_state : Io RepositoryState
  read_published_state = do
    state ← read_published_release_state
    by_suite ← hashes_by_suite state.files setup.repo.suites []
    packages ← published_packages by_suite setup.repo.suites state.packages
    done (record state { packages = packages })

  -- `Prune` under its lock, which is given back in any case.
  unfoldable pub prune_repository : Io (List Bytes)
  prune_repository = do
    acquire_lock setup.env setup.config.storage.staging (str "apt") setup.repo.name
    state ← read_published_state
    prune_state setup state
