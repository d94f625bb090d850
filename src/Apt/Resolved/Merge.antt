-- ===== src/Apt/Resolved/Merge.antt =====
-- What a merge and an upgrade leave in the state of resolved Release files.
use mirror_sync.Base.{◌≡◌, refl, true, false, not, ◌&&◌, ◌||◌, List, [], ◌∷◌, map, arith, ok}
use mirror_sync.Base.Int.{pos, ==ℤ_iff}
use mirror_sync.Base.Text.{Bytes, contains}
use mirror_sync.Base.Dict.{Set, contains-add, contains-remove}
use mirror_sync.Base.Sort.{contains-sort_strings}
use mirror_sync.Apt.Select.{set_from_slice}
use mirror_sync.Apt.Resolved.{
  ResolvedReleaseRecord, ResolvedReleaseState, merge_resolved_release_records, merge_selected,
  merge_resolved, add_all, remove_all, validate_resolved_release_state, validate_releases,
  validate_release, upgrade_resolved_release_state_v1, upgrade_record, release_key,
}

contains-set_from_slice :
    (paths : List Bytes) (k : Bytes) → contains (set_from_slice paths) k ≡ contains paths k
unfolding set_from_slice contains
contains-set_from_slice [] k = refl
contains-set_from_slice (path ∷ paths) k =
    ground (arith, contains-add path k (set_from_slice paths), contains-set_from_slice paths k)

contains-add_all :
    (paths : List Bytes) (s : Set) (k : Bytes)
    → contains (add_all paths s) k ≡ (contains paths k || contains s k)
unfolding contains
contains-add_all [] s k = refl
contains-add_all (path ∷ paths) s k =
    ground (arith, contains-add path k (add_all paths s), contains-add_all paths s k)

contains-remove_all :
    (paths : List Bytes) (s : Set) (k : Bytes)
    → contains (remove_all paths s) k ≡ (contains s k && not (contains paths k))
unfolding contains
contains-remove_all [] s k = ground arith
contains-remove_all (path ∷ paths) s k =
    ground (arith, contains-remove path k (remove_all paths s), contains-remove_all paths s k)

-- A merge selects what either record selects; and it holds a path for resolved if the newer
-- record does, or if the older one does and the newer one did not select it.
pub merge_resolved_release_records_lem :
    (a b : ResolvedReleaseRecord) (k : Bytes)
    → (contains (merge_resolved_release_records a b).selected_paths k
        ≡ (contains a.selected_paths k || contains b.selected_paths k))
      × (contains (merge_resolved_release_records a b).resolved_paths k ≡ (
          contains b.resolved_paths k
          || (contains a.resolved_paths k && not (contains b.selected_paths k))))
unfolding merge_resolved_release_records merge_selected merge_resolved
merge_resolved_release_records_lem a b k = (
  ground (
    arith,
    contains-sort_strings (add_all b.selected_paths (set_from_slice a.selected_paths)) k,
    contains-add_all b.selected_paths (set_from_slice a.selected_paths) k,
    contains-set_from_slice a.selected_paths k,
  ),
  ground (
    arith,
    contains-sort_strings
        (add_all b.resolved_paths (remove_all b.selected_paths (set_from_slice a.resolved_paths)))
        k,
    contains-add_all b.resolved_paths
        (remove_all b.selected_paths (set_from_slice a.resolved_paths)) k,
    contains-remove_all b.selected_paths (set_from_slice a.resolved_paths) k,
    contains-set_from_slice a.resolved_paths k,
  ),
)

upgraded :
    (rs : List ResolvedReleaseRecord) (seen : Set)
    → validate_releases true rs seen ≡ ok tt
    → validate_releases false (map upgrade_record rs) seen ≡ ok tt
unfolding validate_releases validate_release
upgraded [] seen h = refl
upgraded (r ∷ rs) seen h = ground (arith, upgraded rs (release_key r ∷ seen))

-- The upgrade of a valid state of version 1 is a valid state, of version 2.
pub upgrade_resolved_release_state_v1-valid :
    (state : ResolvedReleaseState)
    → state.version ≡ pos 1
    → validate_resolved_release_state state ≡ ok tt
    → (validate_resolved_release_state (upgrade_resolved_release_state_v1 state) ≡ ok tt)
      × ((upgrade_resolved_release_state_v1 state).version ≡ pos 2)
unfolding validate_resolved_release_state upgrade_resolved_release_state_v1
upgrade_resolved_release_state_v1-valid state v h =
    (ground (arith, ==ℤ_iff state.version (pos 1), upgraded state.releases []), refl)
