-- ===== src/Apt/Resolved.antt =====
-- internal/apt/resolved_state.go: which selected files of a Release were resolved. Reading and
-- writing the file, and its encoding, are not modelled.
pub mod Merge
pub mod Valid
pub mod Union
use mirror_sync.Base.{
  String, Bool, true, not, ◌&&◌, ◌||◌, ◌==◌, Option, none, some, List, [], ◌∷◌, ◌++◌, if◌then◌else◌,
  length, map, any_by, Result, ok, ◌>>=◌, ◌>>◌, reject_if,
}
use mirror_sync.Base.Int.{ℤ, pos, ◌==ℤ◌}
use mirror_sync.Base.Text.{
  Bytes, str, ◌=ˢ◌, is_empty, has_prefix, to_lower, equal_fold, contains, is_hex, text_leb,
}
use mirror_sync.Base.Dict.{Dict, Set, add, remove}
use mirror_sync.Base.Sort.{sort, sort_strings}
use mirror_sync.Model.{RepositoryState, RepositoryFile}
use mirror_sync.Safe.{rel}
use mirror_sync.Apt.ByHash.{suite_from_canonical}
use mirror_sync.Apt.History.{is_path}
use mirror_sync.Apt.Select.{set_from_slice}

pub record ResolvedReleaseRecord : Type 0 where
  pub suite : Bytes
  pub fingerprint : Bytes
  pub selected_paths : List Bytes
  pub resolved_paths : List Bytes
  pub selection_complete : Bool
  pub paths : List Bytes

pub record ResolvedReleaseState : Type 0 where
  pub version : ℤ
  pub releases : List ResolvedReleaseRecord

abbrev pub empty_resolved_release_state : ResolvedReleaseState
empty_resolved_release_state = record { version = pos 2; releases = [] }

abbrev pub is_record : Bytes → Bytes → ResolvedReleaseRecord → Bool
is_record suite fingerprint r = r.suite =ˢ suite && equal_fold r.fingerprint fingerprint

unfoldable pub resolved_of : List ResolvedReleaseRecord → Bytes → Bytes → Option Set
resolved_of [] suite fingerprint = none
resolved_of (r ∷ rs) suite fingerprint =
    let rest = resolved_of rs suite fingerprint in
    if is_record suite fingerprint r then some (set_from_slice r.resolved_paths) else rest

unfoldable pub resolution : List ResolvedReleaseRecord → Bytes → Bytes → Option (Set × Set × Bool)
resolution [] suite fingerprint = none
resolution (r ∷ rs) suite fingerprint =
    let rest = resolution rs suite fingerprint in
    if is_record suite fingerprint r
    then some
        (set_from_slice r.selected_paths, set_from_slice r.resolved_paths, r.selection_complete)
    else rest

abbrev pub suite_prefix : Bytes → Bytes
suite_prefix suite = str "dists/" ++ suite ++ str "/"

abbrev pub valid_path : Bytes → Bytes → Bool
valid_path suite path = is_path (rel path) path && has_prefix path (suite_prefix suite)

-- The loop over the selected paths, and the set that it fills.
unfoldable pub validate_selected : Bytes → List Bytes → Set → Result String Set
validate_selected suite [] seen = ok seen
validate_selected suite (path ∷ paths) seen = do
  reject_if (not (valid_path suite path)) "invalid resolved Release path"
  reject_if (contains seen path) "duplicate selected Release path"
  validate_selected suite paths (path ∷ seen)

unfoldable pub validate_resolved : Bytes → Set → List Bytes → Set → Result String (Unit {0})
validate_resolved suite selected [] seen = ok tt
validate_resolved suite selected (path ∷ paths) seen = do
  reject_if (not (valid_path suite path)) "invalid resolved Release path"
  reject_if (contains seen path) "duplicate resolved Release path"
  reject_if (not (contains selected path)) "resolved Release path was not selected"
  validate_resolved suite selected paths (path ∷ seen)

abbrev pub release_key : ResolvedReleaseRecord → Bytes
release_key r = r.suite ++ (0 ∷ to_lower r.fingerprint)

abbrev pub selected_in : Bool → ResolvedReleaseRecord → List Bytes
selected_in first r = if first then r.paths else r.selected_paths

abbrev pub resolved_in : Bool → ResolvedReleaseRecord → List Bytes
resolved_in first r = if first then r.paths else r.resolved_paths

-- The tests of one record; `first` is whether the state has version 1.
unfoldable pub validate_release : Bool → ResolvedReleaseRecord → Result String (Unit {0})
validate_release first r = do
  seen ← validate_selected r.suite (selected_in first r) []
  validate_resolved r.suite seen (resolved_in first r) []

unfoldable pub validate_releases :
    Bool → List ResolvedReleaseRecord → Set → Result String (Unit {0})
validate_releases first [] seen = ok tt
validate_releases first (r ∷ rs) seen = do
  reject_if (is_empty r.suite || any_by (λ c. c == b'/') r.suite) "invalid resolved Release suite"
  reject_if (not (length r.fingerprint == 64)) "invalid resolved Release fingerprint"
  reject_if (not (is_hex r.fingerprint)) "invalid resolved Release fingerprint"
  reject_if (contains seen (release_key r)) "duplicate resolved Release record"
  validate_release first r
  validate_releases first rs (release_key r ∷ seen)

unfoldable pub validate_resolved_release_state : ResolvedReleaseState → Result String (Unit {0})
validate_resolved_release_state state = do
  reject_if (not (state.version ==ℤ pos 1) && not (state.version ==ℤ pos 2))
      "unsupported resolved Release state version"
  validate_releases (state.version ==ℤ pos 1) state.releases []

abbrev pub upgrade_record : ResolvedReleaseRecord → ResolvedReleaseRecord
upgrade_record r = record r {
  selected_paths = r.paths;
  resolved_paths = r.paths;
  selection_complete = true;
  paths = [];
}

unfoldable pub upgrade_resolved_release_state_v1 : ResolvedReleaseState → ResolvedReleaseState
upgrade_resolved_release_state_v1 state = record {
  version = pos 2;
  releases = map upgrade_record state.releases;
}

abbrev pub add_all : List Bytes → Set → Set
add_all [] s = s
add_all (path ∷ paths) s = add path (add_all paths s)

abbrev pub remove_all : List Bytes → Set → Set
remove_all [] s = s
remove_all (path ∷ paths) s = remove path (remove_all paths s)

unfoldable pub merge_selected : ResolvedReleaseRecord → ResolvedReleaseRecord → Set
merge_selected a b = add_all b.selected_paths (set_from_slice a.selected_paths)

unfoldable pub merge_resolved : ResolvedReleaseRecord → ResolvedReleaseRecord → Set
merge_resolved a b =
    add_all b.resolved_paths (remove_all b.selected_paths (set_from_slice a.resolved_paths))

unfoldable pub merge_resolved_release_records :
    ResolvedReleaseRecord → ResolvedReleaseRecord → ResolvedReleaseRecord
merge_resolved_release_records a b = record {
  suite = b.suite;
  fingerprint = b.fingerprint;
  selected_paths = sort_strings (merge_selected a b);
  resolved_paths = sort_strings (merge_resolved a b);
  selection_complete = a.selection_complete || b.selection_complete;
  paths = [];
}

-- The paths of a list of files that lie in the suite, in order.
unfoldable pub paths_of_suite : Bytes → List RepositoryFile → List Bytes
paths_of_suite suite [] = []
paths_of_suite suite (f ∷ fs) =
    let rest = paths_of_suite suite fs in
    if suite_from_canonical f.path =ˢ suite then f.path ∷ rest else rest

unfoldable pub records_of : RepositoryState → Dict Bytes → List ResolvedReleaseRecord
records_of state [] = []
records_of state ((suite, fingerprint) ∷ rest) =
    record {
      suite = suite;
      fingerprint = fingerprint;
      selected_paths = sort_strings (paths_of_suite suite state.selected_files);
      resolved_paths = sort_strings (paths_of_suite suite state.files);
      selection_complete = true;
      paths = [];
    }
    ∷ records_of state rest

unfoldable pub resolved_records : RepositoryState → List ResolvedReleaseRecord
resolved_records state =
    sort (λ a b. text_leb a.suite b.suite) (records_of state state.release_fingerprints)

-- The first record of the same Release is merged with the incoming one; else that is appended.
unfoldable pub put_record :
    List ResolvedReleaseRecord → ResolvedReleaseRecord → List ResolvedReleaseRecord
put_record [] incoming = incoming ∷ []
put_record (existing ∷ rest) incoming =
    let later = existing ∷ put_record rest incoming in
    if is_record incoming.suite incoming.fingerprint existing
    then merge_resolved_release_records existing incoming ∷ rest
    else later

unfoldable pub prepare_releases :
    List ResolvedReleaseRecord → List ResolvedReleaseRecord → List ResolvedReleaseRecord
prepare_releases current [] = current
prepare_releases current (incoming ∷ rest) = prepare_releases (put_record current incoming) rest

-- The state that `prepareResolvedReleaseState` writes, of the current one.
unfoldable pub prepare_resolved_release_state :
    ResolvedReleaseState → RepositoryState → ResolvedReleaseState
prepare_resolved_release_state current state = record current {
  releases = prepare_releases current.releases (resolved_records state);
}

abbrev by_suite_fingerprint : ResolvedReleaseRecord → ResolvedReleaseRecord → Bool
by_suite_fingerprint a b =
    if a.suite =ˢ b.suite then text_leb a.fingerprint b.fingerprint else text_leb a.suite b.suite

-- What `writeResolvedReleaseState` encodes: the sorted state, if it is valid.
unfoldable pub checked_state : ResolvedReleaseState → Result String ResolvedReleaseState
checked_state state = do
  let sorted = record state { releases = sort by_suite_fingerprint state.releases }
  validate_resolved_release_state sorted
  ok sorted
