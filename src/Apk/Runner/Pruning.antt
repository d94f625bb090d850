-- ===== src/Apk/Runner/Pruning.antt =====
-- What `Prune` of internal/apk/apk.go keeps.
use mirror_sync.Base.{
  ◌≡◌, refl, ◌∙◌, sym, Bool, false, ◌||◌, none, List, [], ◌∷◌, map, arith, if◌then◌else◌, any_by,
  Result, ok, err,
}
use mirror_sync.Base.Text.{Bytes, ◌=ˢ◌, contains}
use mirror_sync.Base.Dict.{Set, keys, contains-add}
use mirror_sync.Base.Sort.{sort_strings}
use mirror_sync.Model.{RepositoryState}
use mirror_sync.Safe.{join_path}
use mirror_sync.World.{World, Fault, Env}
use mirror_sync.World.Hoare.{Post, bind, weaken}
use mirror_sync.World.Keeps.{At, Unchanged}
use mirror_sync.Publish.{prune}
use mirror_sync.Publish.Pruning.{doomed, is_doomed, prune_lem}
use mirror_sync.Apk.Runner.{
  Setup, add_all, kept_paths, prune_repository, read_published_state, no_state,
}
use mirror_sync.Apk.Runner.State.{
  GathersAll, IsPublished, Yields, places, read_published_state-Yields,
}

contains-add_all :
    {Key : Type 0} (setup : Setup Key) (ks : List Bytes) (keep : Set) (p : Bytes)
    → contains (add_all setup ks keep) p ≡ (contains ks p || contains keep p)
unfolding contains
contains-add_all setup [] keep p = refl
contains-add_all setup (k ∷ ks) keep p =
    ground (arith, contains-add k p (add_all setup ks keep), contains-add_all setup ks keep p)

contains-nil : (p : Bytes) → contains [] p ≡ false
unfolding contains
contains-nil p = refl

-- The path is that of a metadata file or of a payload of the state.
abbrev pub named : RepositoryState → Bytes → Bool
named state p = contains (keys state.packages) p || contains (map (λ f. f.path) state.metadata) p

pub contains-kept_paths :
    {Key : Type 0} (setup : Setup Key) (state : RepositoryState) (p : Bytes)
    → contains (kept_paths setup state) p ≡ named state p
unfolding kept_paths
contains-kept_paths setup state p =
    let paths = map (λ f. f.path) state.metadata in
    ground (
      arith,
      contains-add_all setup (keys state.packages) (add_all setup paths []) p,
      contains-add_all setup paths [] p,
      contains-nil p,
    )

unwalked :
    (env : Env) (root : Bytes) (keep : Set) (walk : List Bytes) (q : Bytes)
    → any_by (λ p. join_path root p =ˢ q) walk ≡ false
    → is_doomed env root keep walk q ≡ false
unwalked env root keep [] q h = refl
unwalked env root keep (p ∷ walk) q h = ground (arith, unwalked env root keep walk q)

module _ {Key : Type 0} (setup : Setup Key) where
  -- The state is that of the signed indexes that are published at the configured places.
  abbrev pub PublishedState : World → RepositoryState → Type 0
  PublishedState w =
      GathersAll setup w.files (IsPublished setup w.files)
        (places setup.repo.architectures setup.repo.versions) no_state

  -- A walked path that is neither that of a metadata file nor of a payload of the state is removed.
  abbrev pub PrunedTo : World → List Bytes → World → Type 0
  PrunedTo w removed w' =
      let root = setup.repo.abs_publish_path in
      (state : RepositoryState) × (keep : Set) × PublishedState w state
      × ((p : Bytes) → contains keep p ≡ named state p)
      × (removed ≡ sort_strings (doomed setup.env root keep setup.walk))
      × ((q : Bytes)
          → w'.files q ≡ (if is_doomed setup.env root keep setup.walk q then none else w.files q))

  -- Only files that the walk met may be gone.
  abbrev pub Spares : World → World → Type 0
  Spares w w' =
      (q : Bytes)
      → any_by (λ p. join_path setup.repo.abs_publish_path p =ˢ q) setup.walk ≡ false
      → w'.files q ≡ w.files q

  -- A prune that succeeds removes exactly the walked files that are neither a metadata file nor a
  -- payload of the published state, and every other file stays. That state is of the signed indexes
  -- published for the configured versions, repositories and architectures: each index is a metadata
  -- file, and its stanzas add their packages one after another. If the prune fails, all files that
  -- the walk did not meet are as before.
  pub prune_repository_lem : (w : World) → Post (PrunedTo w) (Spares w) (prune_repository setup w)
  unfolding prune_repository
  prune_repository_lem w =
      let yields =
        Yields setup w.files (IsPublished setup w.files)
          (places setup.repo.architectures setup.repo.versions) no_state in
      bind yields (PrunedTo w) (Spares w) (At (Unchanged w.files)) _ _
        (weaken yields yields (At (Unchanged w.files)) (Spares w) (At (Unchanged w.files))
          (read_published_state setup) (read_published_state-Yields setup w.files) (λ s v h. h)
          (λ v h q _. h q))
        (λ state v (gathered, kept).
          finish state v gathered kept
            (prune setup.env setup.repo.abs_publish_path (kept_paths setup state) setup.walk v)
            (prune_lem setup.env setup.repo.abs_publish_path (kept_paths setup state) setup.walk v))
        w (λ q. refl)
    where
      finish :
          (state : RepositoryState) (v : World)
          → PublishedState w state
          → Unchanged w.files v.files
          → (r : World × Result Fault (List Bytes))
          → Post
              (λ removed w'.
                (removed
                  ≡ sort_strings (
                      doomed setup.env setup.repo.abs_publish_path
                        (kept_paths setup state)
                        setup.walk))
                × ((q : Bytes)
                    → w'.files q ≡ (
                        if is_doomed setup.env setup.repo.abs_publish_path
                          (kept_paths setup state)
                          setup.walk
                          q
                        then none
                        else v.files q)))
              (λ w'.
                (q : Bytes)
                → is_doomed setup.env setup.repo.abs_publish_path
                    (kept_paths setup state)
                    setup.walk
                    q
                  ≡ false
                → w'.files q ≡ v.files q)
              r
          → Post (PrunedTo w) (Spares w) r
      finish state v gathered kept (w', ok removed) (same, files) = (
        state,
        kept_paths setup state,
        gathered,
        contains-kept_paths setup state,
        same,
        λ q. rw (sym (kept q)) (files q),
      )
      finish state v gathered kept (w', err e) files =
          λ q h. files q (unwalked setup.env _ _ setup.walk q h) ∙ kept q
