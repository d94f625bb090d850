-- ===== src/Apt/Runner/Keep.antt =====
-- internal/apt/apt.go and internal/apt/byhash.go: `pruneStateWithHistory`, `keepExistingByHash` and
-- `pruneState`.
use mirror_sync.Base.{
  ◌≡◌, refl, Bool, true, false, ◌||◌, ◌&&◌, List, [], ◌∷◌, map, arith, if◌then◌else◌, any_by,
}
use mirror_sync.Base.Text.{Bytes, str, contains, has_prefix, contains_text}
use mirror_sync.Base.Text.Laws.{=ˢ_iff}
use mirror_sync.Base.Dict.{Set, keys, add, contains-add}
use mirror_sync.Model.{RepositoryState, MetadataFile, RepositoryFile, ByHashFile}
use mirror_sync.World.{Io, done, ◌>>=◌, ◌>>◌, call, op_stat}
use mirror_sync.Publish.{prune}
use mirror_sync.Apt.History.{
  ByHashHistory, ByHashHistoryRecord, ByHashHistoryGeneration, update_by_hash_history,
}
use mirror_sync.Apt.Runner.{Setup}
use mirror_sync.Apt.Runner.Manifest.{
  history_valid, history_missing, history_corrupt, Loaded, load_by_hash_history,
  write_by_hash_history,
}

abbrev pub add_paths : List Bytes → Set → Set
add_paths [] keep = keep
add_paths (k ∷ ks) keep = add_paths ks (add k keep)

-- The paths of a record's generations.
abbrev pub generation_paths : ByHashHistoryRecord → List Bytes
generation_paths r = map (λ (g : ByHashHistoryGeneration). g.path) r.generations

unfoldable pub add_records : List ByHashHistoryRecord → Set → Set
add_records [] keep = keep
add_records (r ∷ rs) keep = add_records rs (add_paths (generation_paths r) keep)

unfoldable pub kept_paths : RepositoryState → ByHashHistory → Set
kept_paths state history = add_paths (keys state.packages) (
    add_records history.records (
      add_paths (map (λ (f : ByHashFile). f.path) state.by_hash_files) (
        add_paths (map (λ (f : RepositoryFile). f.path) state.files)
          (add_paths (map (λ (f : MetadataFile). f.path) state.metadata) []))))

unfoldable pub is_by_hash : Bytes → Bool
is_by_hash rel = has_prefix rel (str "by-hash/") || contains_text rel (str "/by-hash/")

-- The walk of `keepExistingByHash`.
unfoldable pub keep_existing_by_hash : List Bytes → Set → Set
keep_existing_by_hash [] keep = keep
keep_existing_by_hash (p ∷ walk) keep =
    keep_existing_by_hash walk (if is_by_hash p then add p keep else keep)

module _ (setup : Setup) where
  -- The state of the root is asked for first; a root that does not exist has an empty walk.
  abbrev pub protected : Bool → Set → Io Set
  protected false keep = done keep
  protected true keep =
      call setup.env op_stat setup.repo.abs_publish_path
      >> done (keep_existing_by_hash setup.walk keep)

  unfoldable pub prune_state_with_history : RepositoryState → ByHashHistory → Bool → Io (List Bytes)
  prune_state_with_history state history protect_unknown =
      protected protect_unknown (kept_paths state history) >>= λ keep.
      prune setup.env setup.repo.abs_publish_path keep setup.walk

  -- A history that is missing is made from the state, and written.
  abbrev pub prune_loaded : RepositoryState → Loaded → Io (List Bytes)
  prune_loaded state (history, history_missing) =
      write_by_hash_history setup (update_by_hash_history history state)
      >> prune_state_with_history state (update_by_hash_history history state) false
  prune_loaded state (history, history_valid) = prune_state_with_history state history false
  prune_loaded state (history, history_corrupt) = prune_state_with_history state history true

  unfoldable pub prune_state : RepositoryState → Io (List Bytes)
  prune_state state = load_by_hash_history setup >>= prune_loaded state

contains-add_paths :
    (ks : List Bytes) (keep : Set) (p : Bytes)
    → contains (add_paths ks keep) p ≡ (contains ks p || contains keep p)
unfolding contains
contains-add_paths [] keep p = refl
contains-add_paths (k ∷ ks) keep p =
    ground (arith, contains-add k p keep, contains-add_paths ks (add k keep) p)

-- The path is that of a generation of the history.
unfoldable pub in_history : List ByHashHistoryRecord → Bytes → Bool
in_history rs p = any_by (λ r. contains (generation_paths r) p) rs

contains-add_records :
    (rs : List ByHashHistoryRecord) (keep : Set) (p : Bytes)
    → contains (add_records rs keep) p ≡ (in_history rs p || contains keep p)
unfolding add_records in_history
contains-add_records [] keep p = refl
contains-add_records (r ∷ rs) keep p = ground (
  arith,
  contains-add_paths (generation_paths r) keep p,
  contains-add_records rs (add_paths (generation_paths r) keep) p,
)

pub contains-keep_existing :
    (walk : List Bytes) (keep : Set) (p : Bytes)
    → contains (keep_existing_by_hash walk keep) p
      ≡ (is_by_hash p && contains walk p || contains keep p)
unfolding keep_existing_by_hash contains
contains-keep_existing [] keep p = ground arith
contains-keep_existing (q ∷ walk) keep p = ground (
  arith,
  =ˢ_iff q p,
  contains-add q p keep,
  contains-keep_existing walk (if is_by_hash q then add q keep else keep) p,
)

-- The path is named: by the metadata, the files, the by-hash files or the payloads of the state, or
-- by a generation of the history.
abbrev pub named : RepositoryState → ByHashHistory → Bytes → Bool
named state history p =
    contains (keys state.packages) p
    || in_history history.records p
    || contains (map (λ (f : ByHashFile). f.path) state.by_hash_files) p
    || contains (map (λ (f : RepositoryFile). f.path) state.files) p
    || contains (map (λ (f : MetadataFile). f.path) state.metadata) p

contains-nil : (p : Bytes) → contains [] p ≡ false
unfolding contains
contains-nil p = refl

pub contains-kept_paths :
    (state : RepositoryState) (history : ByHashHistory) (p : Bytes)
    → contains (kept_paths state history) p ≡ named state history p
unfolding kept_paths
contains-kept_paths state history p =
    let ms = map (λ (f : MetadataFile). f.path) state.metadata in
    let fs = map (λ (f : RepositoryFile). f.path) state.files in
    let bs = map (λ (f : ByHashFile). f.path) state.by_hash_files in
    let k1 = add_paths ms [] in
    let k2 = add_paths fs k1 in
    let k3 = add_paths bs k2 in
    ground (
      arith,
      contains-add_paths (keys state.packages) (add_records history.records k3) p,
      contains-add_records history.records k3 p,
      contains-add_paths bs k2 p,
      contains-add_paths fs k1 p,
      contains-add_paths ms [] p,
      contains-nil p,
    )
