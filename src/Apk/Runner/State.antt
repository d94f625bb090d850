-- ===== src/Apk/Runner/State.antt =====
-- The states that `fetchState` and `readPublishedState` of internal/apk/apk.go make.
use mirror_sync.Base.{
  ◌≡◌, refl, String, Option, none, some, List, [], ◌∷◌, Result, ok, err, Result-cases, inl, inr, ℕ,
  true, false, arith, subst, sym, ap, map, ◌++◌, ◌*◌, ◌^◌,
}
use mirror_sync.Base.Text.{Bytes, str}
use mirror_sync.Base.Dict.{Dict}
use mirror_sync.Model.{Payload, RepositoryState}
use mirror_sync.Base.Int.{is_negative}
use mirror_sync.Safe.{join_all, join_path}
use mirror_sync.World.{
  World, Fault, Io, ◌>>=◌, tick, reading, read_file, Files, Stream, node_bytes, unless_failed,
  read_outcome, op_read,
}
use mirror_sync.World.Hoare.{Post, Run, bind, weaken}
use mirror_sync.World.Keeps.{At, Keeps, Unchanged}
use mirror_sync.Httpx.{Client, new_client, get_bytes, whole, limited}
use mirror_sync.Httpx.Permits.{Held, do_request-balanced}
use mirror_sync.Publish.{lift}
use mirror_sync.Config.{ApkVersion, EffectiveSource}
use mirror_sync.Apk.{Formats, TarMember, verify_apk_index, load_rsa_public_key}
use mirror_sync.Apt.Control.{read_lines}
use mirror_sync.Apt.Control.Stanzas.{stanzas}
use mirror_sync.Apk.Index.Entries.{AddAll, parse_index-AddAll}
use mirror_sync.Apk.Signature.{SignedUse, verify_apk_index_lem}
use mirror_sync.Apk.Runner.{
  Setup, no_state, index_of, read_index, read_architecture, read_architectures, read_repositories,
  read_versions, fetch_state, read_published_state, connect, filepath_for,
}

abbrev reader : Files → Bytes → Option Bytes
reader files p = node_bytes (files p)

-- A key that was loaded is one that the file holds.
load_reading :
    {Key : Type 0} (formats : Formats Key) (e : Option Fault) (o : Option Bytes) {key : Key}
    → load_rsa_public_key formats (unless_failed e o) ≡ ok key
    → load_rsa_public_key formats o ≡ ok key
unfolding load_rsa_public_key
load_reading formats none o h = h
load_reading formats (some x) o h = absurd (ground arith)

-- A place of an index: the names of its version, its repository and its architecture.
abbrev pub Place : Type 0
Place = Bytes × Bytes × Bytes

abbrev pub index_base : Place → Bytes
index_base (version, repo, arch) = join_all (version ∷ repo ∷ arch ∷ [])

abbrev pub index_path : Place → Bytes
index_path (version, repo, arch) = join_all (version ∷ repo ∷ arch ∷ str "APKINDEX.tar.gz" ∷ [])

-- The configured places, by version, repository and architecture.
abbrev pub arch_places : Bytes → Bytes → List Bytes → List Place
arch_places version repo = map (λ arch. (version, repo, arch))

abbrev pub repo_places : Bytes → List Bytes → List Bytes → List Place
repo_places version archs [] = []
repo_places version archs (repo ∷ repos) =
    arch_places version repo archs ++ repo_places version archs repos

abbrev pub places : List Bytes → List ApkVersion → List Place
places archs [] = []
places archs (v ∷ vs) = repo_places v.name archs v.repositories ++ places archs vs

module _ {Key : Type 0} (setup : Setup Key) (before : Files) (Source : Bytes → Bytes → Type 0) where
  -- The tar member is the index of the archive, whose signature is valid for the key that is read
  -- from the directory of keys joined with the name that the signature member has.
  abbrev pub SignedMember : Bytes → TarMember → Type 0
  SignedMember text m =
      SignedUse setup.formats (λ m'. ok m') (reader before) setup.repo.abs_keys_dir text m

  -- The packages of the signed index of the archive are added.
  abbrev pub AddsIndex : Bytes → Bytes → Dict Payload → Dict Payload → Type 0
  AddsIndex base text out out' =
      (m : TarMember) × SignedMember text m
      × AddAll setup.formats base (stanzas (read_lines m.content)) out out'

  -- The index of a place is appended to the metadata, and its packages are added.
  abbrev pub Gathers : Place → RepositoryState → RepositoryState → Type 0
  Gathers place s t =
      (text : Bytes) × (packages : Dict Payload) × Source (index_path place) text
      × AddsIndex (index_base place) text s.packages packages
      × Path RepositoryState t (record s {
        metadata =
            s.metadata
            ++ (record { path = index_path place; content = text; signed_last = true } ∷ []);
        packages = packages;
      })

  abbrev pub GathersAll : List Place → RepositoryState → RepositoryState → Type 0
  GathersAll [] s t = Path RepositoryState t s
  GathersAll (place ∷ rest) s t =
      (mid : RepositoryState) × Gathers place s mid × GathersAll rest mid t

  gathers_append :
      (xs ys : List Place) (s m t : RepositoryState)
      → GathersAll xs s m
      → GathersAll ys m t
      → GathersAll (xs ++ ys) s t
  gathers_append [] ys s m t same h = subst (λ r. GathersAll ys r t) same h
  gathers_append (x ∷ xs) ys s m t (mid, first, rest) h =
      (mid, first, gathers_append xs ys mid m t rest h)

  abbrev Kept : Files → Type 0
  Kept = Unchanged before

  -- What steps over these places, from a state, promise of the state that they yield.
  abbrev pub Yields : List Place → RepositoryState → RepositoryState → World → Type 0
  Yields ps s t w = GathersAll ps s t × Kept w.files

  read_index-Run :
      (base text : Bytes) (packages : Dict Payload)
      → Run
          (At Kept)
          (read_index setup base text packages)
          (λ out w. AddsIndex base text packages out × Kept w.files)
          (At Kept)
  unfolding read_index ◌>>=◌
  read_index-Run base text packages w kept =
      elim (Result-cases (
        verify_apk_index setup.formats (reading setup.env w) setup.repo.abs_keys_dir text
          (index_of setup base packages))) [
            | inr (x, bad) ↦ rw bad kept
            | inl (scan, good) ↦
                let (parts, key, members, m, split, loaded, valid, opened, inside, named, parsed) =
                  verify_apk_index_lem setup.formats (index_of setup base packages)
                    (reading setup.env w) setup.repo.abs_keys_dir text good in
                let path = join_path setup.repo.abs_keys_dir parts.1 in
                let loaded' =
                  subst (λ n. load_rsa_public_key setup.formats (node_bytes n) ≡ ok key) (kept path)
                    (load_reading setup.formats (setup.env.fails w.clock op_read path)
                      (node_bytes (w.files path)) loaded) in
                rw good (
                  (
                    m,
                    (parts, key, members, m, split, loaded', valid, opened, inside, named, refl),
                    parse_index-AddAll setup.formats base m.content m.failure packages parsed,
                  ),
                  kept,
                )
          ]

  -- Steps over more places, after steps over some.
  continue :
      (xs ys : List Place) (s : RepositoryState) (step : Io RepositoryState)
      → (next : RepositoryState → Io RepositoryState) → Run (At Kept) step (Yields xs s) (At Kept)
      → ((m : RepositoryState) → Run (At Kept) (next m) (Yields ys m) (At Kept))
      → Run (At Kept) (step >>= next) (Yields (xs ++ ys) s) (At Kept)
  continue xs ys s step next h k =
      bind (Yields xs s) (Yields (xs ++ ys) s) (At Kept) (At Kept) step next h λ m w (first, kept).
        weaken (Yields ys m) (Yields (xs ++ ys) s) (At Kept) (At Kept) (At Kept) (next m) (k m)
          (λ t v (rest, kept'). (gathers_append xs ys s m t first rest, kept')) (λ v h'. h') w kept

  module _ (get : Bytes → Io Bytes)
      (gets : (rel : Bytes)
        → Run (At Kept) (get rel) (λ text w. Source rel text × Kept w.files) (At Kept)) where
    read_architecture-Yields :
        (version repo arch : Bytes) (s : RepositoryState)
        → Run
            (At Kept)
            (read_architecture setup get version repo arch s)
            (Yields (arch_places version repo (arch ∷ [])) s)
            (At Kept)
    unfolding read_architecture
    read_architecture-Yields version repo arch s =
        let place : Place = (version, repo, arch) in
        bind (λ text w. Source (index_path place) text × Kept w.files) (Yields (place ∷ []) s)
          (At Kept) (At Kept) _ _ (gets (index_path place))
          λ text w (source, kept).
            bind (λ out v. AddsIndex (index_base place) text s.packages out × Kept v.files)
              (Yields (place ∷ []) s) (At Kept) (At Kept) _ _
              (read_index-Run (index_base place) text s.packages)
              (λ out v (adds, kept'). ((_, (text, out, source, adds, refl), refl), kept')) w kept

    read_architectures-Yields :
        (version repo : Bytes) (archs : List Bytes) (s : RepositoryState)
        → Run
            (At Kept)
            (read_architectures setup get version repo archs s)
            (Yields (arch_places version repo archs) s)
            (At Kept)
    unfolding read_architectures
    read_architectures-Yields version repo [] s = λ w kept. (refl, kept)
    read_architectures-Yields version repo (arch ∷ archs) s =
        let one = arch_places version repo (arch ∷ []) in
        let rest = arch_places version repo archs in
        continue one rest s _ _ (read_architecture-Yields version repo arch s)
          (read_architectures-Yields version repo archs)

    read_repositories-Yields :
        (version : Bytes) (repos : List Bytes) (s : RepositoryState)
        → Run
            (At Kept)
            (read_repositories setup get version repos s)
            (Yields (repo_places version setup.repo.architectures repos) s)
            (At Kept)
    unfolding read_repositories
    read_repositories-Yields version [] s = λ w kept. (refl, kept)
    read_repositories-Yields version (repo ∷ repos) s =
        continue (arch_places version repo setup.repo.architectures)
          (repo_places version setup.repo.architectures repos) s _ _
          (read_architectures-Yields version repo setup.repo.architectures s)
          (read_repositories-Yields version repos)

    read_versions-Yields :
        (vs : List ApkVersion) (s : RepositoryState)
        → Run
            (At Kept)
            (read_versions setup get vs s)
            (Yields (places setup.repo.architectures vs) s)
            (At Kept)
    unfolding read_versions
    read_versions-Yields [] s = λ w kept. (refl, kept)
    read_versions-Yields (v ∷ vs) s =
        continue (repo_places v.name setup.repo.architectures v.repositories)
          (places setup.repo.architectures vs) s _ _
          (read_repositories-Yields v.name v.repositories s) (read_versions-Yields vs)

module _ {Key : Type 0} (setup : Setup Key) (before : Files) where
  -- The text is that of the published file at the path.
  abbrev pub IsPublished : Bytes → Bytes → Type 0
  IsPublished rel text =
      reader before (filepath_for setup.host.cwd setup.repo.abs_publish_path rel) ≡ some text

  -- A read that succeeds gives the content of the file.
  read_file-IsPublished :
      (rel : Bytes)
      → Run
          (At (Unchanged before))
          (read_file setup.env (filepath_for setup.host.cwd setup.repo.abs_publish_path rel))
          (λ text w. IsPublished rel text × Unchanged before w.files)
          (At (Unchanged before))
  unfolding read_file
  read_file-IsPublished rel w kept =
      let path = filepath_for setup.host.cwd setup.repo.abs_publish_path rel in
      go (setup.env.fails w.clock op_read path) (node_bytes (w.files path))
        (ap node_bytes (kept path))
    where
      go :
          (e : Option Fault) (o : Option Bytes)
          → o ≡ reader before (filepath_for setup.host.cwd setup.repo.abs_publish_path rel)
          → Post
              (λ text w. IsPublished rel text × Unchanged before w.files)
              (At (Unchanged before))
              (tick w, read_outcome setup.env (unless_failed e o))
      go none none same = kept
      go none (some content) same = (sym same, kept)
      go (some x) o same = kept

  pub read_published_state-Yields :
      Run
        (At (Unchanged before))
        (read_published_state setup)
        (Yields setup before IsPublished
          (places setup.repo.architectures setup.repo.versions)
          no_state)
        (At (Unchanged before))
  unfolding read_published_state
  read_published_state-Yields =
      read_versions-Yields setup before IsPublished _ read_file-IsPublished setup.repo.versions
        no_state

  abbrev Unmoved : Files → Type 0
  Unmoved = Unchanged before

  -- Any text may come from a server.
  abbrev pub FromServer : Bytes → Bytes → Type 0
  FromServer rel text = Unit

  whole_Run :
      (s g : ℕ) (body : Stream)
      → Run (Held s g Unmoved) (whole setup.env body) (λ _. Held s g Unmoved) (Held s g Unmoved)
  whole_Run s g (content, none) w h = h
  whole_Run s g (content, some e) w h = h

  dropped :
      (w : World) (r : World × Result Fault Bytes)
      → Post
          (λ a w'.
            (w'.source_held ≡ w.source_held) × (w'.global_held ≡ w.global_held) × Unmoved w'.files)
          (λ w'.
            (w'.source_held ≡ w.source_held) × (w'.global_held ≡ w.global_held) × Unmoved w'.files)
          r
      → Post (λ _. At Unmoved) (At Unmoved) r
  dropped w (w', ok a) h = h.2
  dropped w (w', err e) h = h.2

  lifting : {A : Type 0} (r : Result String A) → Keeps setup.env Unmoved (lift r)
  lifting (ok a) w h = h
  lifting (err e) w h = h

  abbrev Connected : Client → World → Type 0
  Connected client w = (is_negative client.retries ≡ false) × Unmoved w.files

  connect-Connected :
      is_negative setup.config.sync.download.retries ≡ false
      → (src : EffectiveSource) → Run (At Unmoved) (lift (connect setup src)) Connected (At Unmoved)
  unfolding new_client
  connect-Connected h src w kept = elim (Result-cases (connect setup src)) [
    | inl (client, e) ↦ rw e (ground arith, kept)
    | inr (x, e) ↦ rw e kept
  ]

  get_bytes-Keeps :
      (client : Client) (rel : Bytes) (max_bytes : ℕ)
      → is_negative client.retries ≡ false
      → Keeps setup.env Unmoved (get_bytes setup.env client rel max_bytes)
  unfolding get_bytes
  get_bytes-Keeps client rel max_bytes h w kept =
      dropped w (get_bytes setup.env client rel max_bytes w) (
        do_request-balanced setup.env client
          (λ resp. whole setup.env (limited setup.env max_bytes resp.body)) Unmoved (λ _. Unmoved)
          (λ resp s g _. whole_Run s g (limited setup.env max_bytes resp.body)) rel [] h w kept)

  got :
      {A : Type 0} (r : World × Result Fault A)
      → Post (λ _. At Unmoved) (At Unmoved) r
      → Post (λ _ w. Unit × Unmoved w.files) (At Unmoved) r
  got (w, ok a) h = (tt, h)
  got (w, err e) h = h

  fetch_state-Yields :
      is_negative setup.config.sync.download.retries ≡ false
      → Run
          (At Unmoved)
          (fetch_state setup)
          (Yields setup before FromServer
            (places setup.repo.architectures setup.repo.versions)
            no_state)
          (At Unmoved)
  unfolding fetch_state
  fetch_state-Yields h =
      let all =
        Yields setup before FromServer (places setup.repo.architectures setup.repo.versions)
          no_state in
      bind (λ _. At Unmoved) all (At Unmoved) (At Unmoved) _ _ (lifting _)
        λ src.
          bind (λ client. Connected client) all (At Unmoved) (At Unmoved) _ _
            (connect-Connected h src)
            λ client w (same, kept).
              read_versions-Yields setup before FromServer _
                (λ rel v k.
                  got (get_bytes setup.env client rel (128 * 2 ^ 20) v)
                    (get_bytes-Keeps client rel (128 * 2 ^ 20) same v k))
                setup.repo.versions no_state w kept

-- Whatever the servers send, a state that is fetched is that of the signed indexes of the
-- configured versions, repositories and architectures, in this order. Each index is a metadata file
-- at its path; its signature is valid for the key in the file that the directory of keys joined
-- with the signature's name gives; and its stanzas add their packages one after another, each with
-- a path that stays below the published root, the stanza's size and a check against the stanza's
-- checksum. Fetching changes no file. The condition is that the configured number of retries is not
-- negative.
pub fetch_state-Trusted :
    {Key : Type 0} (setup : Setup Key) (w : World)
    → is_negative setup.config.sync.download.retries ≡ false
    → Post
        (λ s w'.
          GathersAll setup w.files
            (FromServer setup w.files)
            (places setup.repo.architectures setup.repo.versions)
            no_state
            s
          × Unchanged w.files w'.files)
        (λ w'. Unchanged w.files w'.files)
        (fetch_state setup w)
fetch_state-Trusted setup w h = fetch_state-Yields setup w.files h w (λ q. refl)
