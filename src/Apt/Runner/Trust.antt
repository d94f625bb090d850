-- ===== src/Apt/Runner/Trust.antt =====
-- What holds of every state that `fetchState` of internal/apt/apt.go makes.
use mirror_sync.Base.{
  ◌≡◌, refl, String, Option, none, some, List, [], ◌∷◌, Result, ok, err, All, All-append,
  Result-cases, inl, inr, subst, sym,
}
use mirror_sync.Base.Text.{Bytes}
use mirror_sync.Base.Dict.{Dict, Set}
use mirror_sync.Model.{Payload, RepositoryFile, RepositoryState}
use mirror_sync.World.{
  World, Fault, Env, Io, Stream, ◌>>=◌, read_file, node_bytes, unless_failed, read_outcome, tick,
  op_read, after,
}
use mirror_sync.World.Hoare.{Post, Run, bind, weaken}
use mirror_sync.World.Any.{Always, then_any}
use mirror_sync.Httpx.{Client}
use mirror_sync.Publish.{lift}
use mirror_sync.Apt.Signed.{OpenPgp}
use mirror_sync.Apt.Release.{VerifiedRelease, select_release_forms}
use mirror_sync.Apt.Release.Forms.{Covered, select_release_forms-Trusted}
use mirror_sync.Apt.Select.{AptSuite, allowed_package_architectures}
use mirror_sync.Apt.Control.Payloads.{SafeKey}
use mirror_sync.Apt.Packages.{parse_packages}
use mirror_sync.Apt.Packages.Safety.{parse_packages-SafeKey}
use mirror_sync.Apt.Sources.{parse_sources}
use mirror_sync.Apt.Sources.Safety.{parse_sources-SafeKey}
use mirror_sync.Apt.Resolved.{ResolvedReleaseState}
use mirror_sync.Apt.Indexes.{
  IndexName, IndexKind, packages_index, sources_index, Opened, parse_into, parse_stream,
  index_stream, consume_index, consume_opened, failure_text, read_indexes,
}
use mirror_sync.Apt.Runner.{
  Setup, no_state, index_names, load_keyring, fetch_release, load_resolved_release_state,
}
use mirror_sync.Apt.Runner.Fetch.{
  read_components, fetch_suite, fetch_suites, fetch_state, nothing_missing,
}

abbrev pub Safe : Dict Payload → World → Type 0
Safe out w = All SafeKey out

module _ (env : Env) where
  parse_into-Safe :
      (kind : IndexKind) (allowed : Set) (stream : Stream) (out : Dict Payload)
      → All SafeKey out
      → Run Always (lift (parse_into env kind allowed stream out)) Safe Always
  unfolding parse_into
  parse_into-Safe packages_index allowed stream out h w _ =
      elim (Result-cases (parse_packages allowed stream.0 (failure_text env stream.1) out)) [
        | inl (s, e) ↦ rw e (parse_packages-SafeKey allowed stream.0 _ out h e)
        | inr (x, e) ↦ rw e tt
      ]
  parse_into-Safe sources_index allowed stream out h w _ =
      elim (Result-cases (parse_sources stream.0 (failure_text env stream.1) out)) [
        | inl (s, e) ↦ rw e (parse_sources-SafeKey stream.0 _ out h e)
        | inr (x, e) ↦ rw e tt
      ]

  parse_stream-Safe :
      (kind : IndexKind) (allowed : Set) (out : Dict Payload) (r : Result Fault Stream)
      → All SafeKey out
      → Run Always (parse_stream env kind allowed out r) Safe Always
  parse_stream-Safe kind allowed out (err e) h = λ w _. tt
  parse_stream-Safe kind allowed out (ok stream) h = parse_into-Safe kind allowed stream out h

  module _ (allowed : Set) (opening : IndexName → Io Opened)
      (missing : IndexName → Io (Unit {0})) where
    consume_opened-Safe :
        (index : IndexName) (out : Dict Payload) (opened : Opened)
        → All SafeKey out
        → Run Always (consume_opened env allowed opening missing index out opened) Safe Always
    unfolding consume_index
    consume_opened-Safe index out none h = then_any Safe _ _ (λ _ w _. h)
    consume_opened-Safe index out (some (rel, content)) h =
        parse_stream-Safe index.kind allowed out (index_stream env rel content) h

    -- Indexes add safe paths only, whatever opens them.
    pub read_indexes-Safe :
        (indexes : List IndexName) (out : Dict Payload)
        → All SafeKey out
        → Run Always (read_indexes env allowed opening missing indexes out) Safe Always
    unfolding read_indexes
    read_indexes-Safe [] out h = λ w _. h
    read_indexes-Safe (index ∷ indexes) out h = then_any Safe _ _ λ opened.
        bind Safe Safe Always Always _ _ (consume_opened-Safe index out opened h)
          λ out' w h'. read_indexes-Safe indexes out' h' w tt

module _ (setup : Setup) where
  read_components-Safe :
      (suite : AptSuite) (v : VerifiedRelease) (files : List RepositoryFile)
      (components : List Bytes) (out : Dict Payload)
      → All SafeKey out
      → Run Always (read_components setup suite v files components out) Safe Always
  unfolding read_components
  read_components-Safe suite v files [] out h = λ w _. h
  read_components-Safe suite v files (component ∷ components) out h =
      bind Safe Safe Always Always _ _
        (read_indexes-Safe setup.env (allowed_package_architectures setup.repo.architectures) _
          (nothing_missing setup) (index_names setup.repo.architectures component) out h)
        λ out' w h'. read_components-Safe suite v files components out' h' w tt

  module _ (pgp : OpenPgp) where
    -- Signatures cover all metadata, and every payload has a safe path.
    abbrev pub IsTrusted : RepositoryState → Type 0
    IsTrusted state = All (Covered pgp) state.metadata × All SafeKey state.packages

    pub selected-Covered :
        (suite : Bytes) (in_release release sig : Option Bytes) (w : World)
        → Post
            (λ v _. All (Covered pgp) v.metadata)
            Always
            (lift (select_release_forms pgp suite in_release release sig) w)
    selected-Covered suite in_release release sig w =
        elim (Result-cases (select_release_forms pgp suite in_release release sig)) [
          | inl (v, e) ↦
              rw e ((select_release_forms-Trusted pgp suite in_release release sig e).covered)
          | inr (x, e) ↦ rw e tt
        ]

    fetch_release-Covered :
        (client : Client) (suite : Bytes)
        → Run Always
            (fetch_release setup pgp client suite)
            (λ v _. All (Covered pgp) v.metadata)
            Always
    unfolding fetch_release
    fetch_release-Covered client suite =
        then_any (λ v _. All (Covered pgp) v.metadata) _ _
          λ in_release.
            then_any (λ v _. All (Covered pgp) v.metadata) _ _
              λ release.
                then_any (λ v _. All (Covered pgp) v.metadata) _ _
                  λ sig w _. selected-Covered suite in_release release sig w

    fetch_suite-IsTrusted :
        (client : Client) (clients : List Client) (resolved : ResolvedReleaseState)
        (suite : AptSuite) (state : RepositoryState)
        → IsTrusted state
        → Run Always
            (fetch_suite setup pgp client clients resolved suite state)
            (λ s _. IsTrusted s)
            Always
    unfolding fetch_suite
    fetch_suite-IsTrusted client clients resolved suite state (covered, safe) =
        bind (λ v _. All (Covered pgp) v.metadata) (λ s _. IsTrusted s) Always Always _ _
          (fetch_release-Covered client suite.name)
          λ v w covered'.
            then_any (λ s _. IsTrusted s) _ _
              (λ enabled.
                then_any (λ s _. IsTrusted s) _ _
                  λ advertised.
                    then_any (λ s _. IsTrusted s) _ _
                      λ files.
                        then_any (λ s _. IsTrusted s) _ _
                          λ by_hash.
                            bind Safe (λ s _. IsTrusted s) Always Always _ _
                              (read_components-Safe suite v files suite.components state.packages
                                safe)
                              λ packages w' safe'. (
                                All-append (Covered pgp) state.metadata v.metadata covered covered',
                                safe',
                              ))
              w tt

    fetch_suites-IsTrusted :
        (client : Client) (clients : List Client) (resolved : ResolvedReleaseState)
        (suites : List AptSuite) (state : RepositoryState)
        → IsTrusted state
        → Run Always
            (fetch_suites setup pgp client clients resolved suites state)
            (λ s _. IsTrusted s)
            Always
    unfolding fetch_suites
    fetch_suites-IsTrusted client clients resolved [] state h = λ w _. h
    fetch_suites-IsTrusted client clients resolved (suite ∷ suites) state h =
        bind (λ s _. IsTrusted s) (λ s _. IsTrusted s) Always Always _ _
          (fetch_suite-IsTrusted client clients resolved suite state h)
          λ s w h'. fetch_suites-IsTrusted client clients resolved suites s h' w tt

  -- The keyring that the repository's file held.
  abbrev pub IsKeyring : World → OpenPgp → Type 0
  IsKeyring w pgp =
      (content : Bytes) × (node_bytes (w.files setup.repo.abs_keyring) ≡ some content)
      × (setup.read_key_ring content ≡ ok pgp)

  pub load_keyring-IsKeyring :
      (w : World) → Post (λ pgp _. IsKeyring w pgp) Always (load_keyring setup w)
  unfolding load_keyring read_file ◌>>=◌
  load_keyring-IsKeyring w =
      go (setup.env.fails w.clock op_read setup.repo.abs_keyring)
        (node_bytes (w.files setup.repo.abs_keyring)) refl
    where
      parsed :
          (content : Bytes)
          → node_bytes (w.files setup.repo.abs_keyring) ≡ some content
          → (r : Result String OpenPgp) → setup.read_key_ring content ≡ r
          → Post (λ pgp _. IsKeyring w pgp) Always (lift r (tick w))
      parsed content here (ok pgp) same = (content, here, same)
      parsed content here (err x) same = tt

      go :
          (e : Option Fault) (o : Option Bytes)
          → node_bytes (w.files setup.repo.abs_keyring) ≡ o
          → Post
              (λ pgp _. IsKeyring w pgp)
              Always
              (after
                (tick w, read_outcome setup.env (unless_failed e o))
                λ content. lift (setup.read_key_ring content))
      go none none here = tt
      go none (some content) here = parsed content here (setup.read_key_ring content) refl
      go (some x) o here = tt

  -- The keyring of a state, and what it covers.
  abbrev pub FromKeyring : World → RepositoryState → Type 0
  FromKeyring w state = (pgp : OpenPgp) × IsKeyring w pgp × IsTrusted pgp state

  -- What is made with the keyring of the file, as it is at first.
  pub with_keyring :
      (make : OpenPgp → Io RepositoryState)
      → ((pgp : OpenPgp) → Run Always (make pgp) (λ s _. IsTrusted pgp s) Always)
      → (w : World) → Post (λ s _. FromKeyring w s) Always ((load_keyring setup >>= make) w)
  with_keyring make trusted w =
      bind (λ pgp _. IsKeyring w pgp) (λ s _. FromKeyring w s) Always (λ v. v ≡ w)
        (load_keyring setup) make
        (λ v e.
          subst (λ u. Post (λ pgp _. IsKeyring w pgp) Always (load_keyring setup u)) (sym e)
            (load_keyring-IsKeyring w))
        (λ pgp v held.
          weaken (λ s _. IsTrusted pgp s) (λ s _. FromKeyring w s) Always Always Always (make pgp)
            (trusted pgp) (λ s _ h. (pgp, held, h)) (λ _ _. tt) v tt)
        w refl

  -- Whatever the servers send, each metadata file of a state that is fetched is a clearsigned
  -- document or one half of a detached pair that the keys in the repository's keyring file verify,
  -- and each payload of its indexes has a path that stays below the published root.
  pub fetch_state-FromKeyring :
      (w : World) → Post (λ s _. FromKeyring w s) (λ _. Unit) (fetch_state setup w)
  unfolding fetch_state
  fetch_state-FromKeyring = with_keyring _ λ pgp.
      then_any (λ s _. IsTrusted pgp s) _ _
        λ primary.
          then_any (λ s _. IsTrusted pgp s) _ _
            λ client.
              then_any (λ s _. IsTrusted pgp s) _ _
                λ clients.
                  then_any (λ s _. IsTrusted pgp s) (load_resolved_release_state setup)
                    (λ resolved.
                      fetch_suites setup pgp client clients resolved.0 setup.repo.suites no_state)
                    λ resolved.
                      fetch_suites-IsTrusted pgp client clients resolved.0 setup.repo.suites
                        no_state (tt, tt)
