-- ===== src/Apt/Runner/Published/Trust.antt =====
-- What `readPublishedState` of internal/apt/apt.go trusts.
use mirror_sync.Base.{List, [], ◌∷◌, All, All-append, or_default, ◌≡◌, refl, sym, subst}
use mirror_sync.Base.Dict.{Dict, lookup}
use mirror_sync.Base.Text.{Bytes}
use mirror_sync.Model.{Payload, RepositoryState}
use mirror_sync.World.{World}
use mirror_sync.World.Hoare.{Post, Run, bind}
use mirror_sync.World.Any.{Always, then_any}
use mirror_sync.Apt.Signed.{OpenPgp}
use mirror_sync.Apt.Release.{ReleaseFile}
use mirror_sync.Apt.Release.Forms.{Covered}
use mirror_sync.Apt.Select.{AptSuite, allowed_package_architectures}
use mirror_sync.Apt.Control.Payloads.{SafeKey}
use mirror_sync.Apt.Indexes.{open_published_named_index, must_be_there}
use mirror_sync.Apt.Runner.{Setup, LoadedState, no_state, index_names, load_resolved_release_state}
use mirror_sync.Apt.Runner.Published.{
  read_published_suite_release, published_suite, published_suites, read_published_release_state,
  published_components, published_packages, read_published_state,
}
use mirror_sync.Apt.Runner.Trust.{
  Safe, IsTrusted, FromKeyring, selected-Covered, read_indexes-Safe, with_keyring,
}

module _ (setup : Setup) where
  published_components-Safe :
      (suite : AptSuite) (hashes : Dict ReleaseFile) (components : List Bytes) (out : Dict Payload)
      → All SafeKey out
      → Run Always (published_components setup suite hashes components out) Safe Always
  unfolding published_components
  published_components-Safe suite hashes [] out h = λ w _. h
  published_components-Safe suite hashes (component ∷ components) out h =
      bind Safe Safe Always Always _ _
        (read_indexes-Safe setup.env (allowed_package_architectures setup.repo.architectures)
          (open_published_named_index setup.env setup.host.cwd setup.repo.abs_publish_path
            suite.name hashes)
          (must_be_there setup.env hashes) (index_names setup.repo.architectures component) out h)
        λ out' w h'. published_components-Safe suite hashes components out' h' w tt

  published_packages-Safe :
      (by_suite : Dict (Dict ReleaseFile)) (suites : List AptSuite) (out : Dict Payload)
      → All SafeKey out
      → Run Always (published_packages setup by_suite suites out) Safe Always
  unfolding published_packages
  published_packages-Safe by_suite [] out h = λ w _. h
  published_packages-Safe by_suite (suite ∷ suites) out h =
      bind Safe Safe Always Always _ _
        (published_components-Safe suite (or_default (lookup suite.name by_suite) [])
          suite.components out h)
        λ out' w h'. published_packages-Safe by_suite suites out' h' w tt

  module _ (pgp : OpenPgp) where
    read_published_suite_release-Covered :
        (suite : Bytes)
        → Run Always
            (read_published_suite_release setup pgp suite)
            (λ v _. All (Covered pgp) v.metadata)
            Always
    unfolding read_published_suite_release
    read_published_suite_release-Covered suite =
        then_any (λ v _. All (Covered pgp) v.metadata) _ _
          λ in_release.
            then_any (λ v _. All (Covered pgp) v.metadata) _ _
              λ release.
                then_any (λ v _. All (Covered pgp) v.metadata) _ _
                  λ sig w _. selected-Covered setup pgp suite in_release release sig w

    published_suite-IsTrusted :
        (resolved : LoadedState) (suite : AptSuite) (state : RepositoryState)
        → IsTrusted setup pgp state
        → Run Always
            (published_suite setup pgp resolved suite state)
            (λ s _. IsTrusted setup pgp s)
            Always
    unfolding published_suite
    published_suite-IsTrusted resolved suite state (covered, safe) =
        bind (λ v _. All (Covered pgp) v.metadata) (λ s _. IsTrusted setup pgp s) Always Always _ _
          (read_published_suite_release-Covered suite.name)
          λ v w covered'.
            then_any (λ s _. IsTrusted setup pgp s) _ _
              (λ enabled.
                then_any (λ s _. IsTrusted setup pgp s) _ _
                  λ advertised.
                    then_any (λ s _. IsTrusted setup pgp s) _ _
                      λ files.
                        then_any (λ s _. IsTrusted setup pgp s) _ _
                          λ by_hash w' _. (
                            All-append (Covered pgp) state.metadata v.metadata covered covered',
                            safe,
                          ))
              w tt

    published_suites-IsTrusted :
        (resolved : LoadedState) (suites : List AptSuite) (state : RepositoryState)
        → IsTrusted setup pgp state
        → Run Always
            (published_suites setup pgp resolved suites state)
            (λ s _. IsTrusted setup pgp s)
            Always
    unfolding published_suites
    published_suites-IsTrusted resolved [] state h = λ w _. h
    published_suites-IsTrusted resolved (suite ∷ suites) state h =
        bind (λ s _. IsTrusted setup pgp s) (λ s _. IsTrusted setup pgp s) Always Always _ _
          (published_suite-IsTrusted resolved suite state h)
          λ s w h'. published_suites-IsTrusted resolved suites s h' w tt

  release_state-FromKeyring :
      (w : World)
      → Post (λ s _. FromKeyring setup w s) Always (read_published_release_state setup w)
  unfolding read_published_release_state
  release_state-FromKeyring = with_keyring setup _ λ pgp.
      then_any (λ s _. IsTrusted setup pgp s) (load_resolved_release_state setup)
        (λ resolved. published_suites setup pgp resolved setup.repo.suites no_state)
        λ resolved. published_suites-IsTrusted pgp resolved setup.repo.suites no_state (tt, tt)

  -- Whatever has become of the published files, the state that is read from them names metadata
  -- files that the keys in the repository's keyring file verify, and payloads whose paths stay
  -- below the published root.
  pub read_published_state-FromKeyring :
      (w : World) → Post (λ s _. FromKeyring setup w s) (λ _. Unit) (read_published_state setup w)
  unfolding read_published_state
  read_published_state-FromKeyring w =
      bind (λ s _. FromKeyring setup w s) (λ s _. FromKeyring setup w s) Always (λ v. v ≡ w) _ _
        (λ v e.
          subst
            (λ u. Post (λ s _. FromKeyring setup w s) Always (read_published_release_state setup u))
            (sym e) (release_state-FromKeyring w))
        (λ s v (pgp, held, (covered, safe)).
          then_any (λ s _. FromKeyring setup w s) _ _
            (λ by_suite.
              bind Safe (λ s _. FromKeyring setup w s) Always Always _ _
                (published_packages-Safe by_suite setup.repo.suites s.packages safe)
                λ packages w' safe'. (pgp, held, (covered, safe')))
            v tt)
        w refl
