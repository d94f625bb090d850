-- ===== src/Apt/History.antt =====
-- internal/apt/byhash.go: the by-hash history, its validation and its update. Reading and writing
-- the file are in Apt/Files.
pub mod Valid
pub mod Roll
pub mod Keys
pub mod Update
pub mod Fresh
use mirror_sync.Base.{
  ℕ, String, Bool, true, false, not, ◌&&◌, ◌||◌, Option, none, some, List, [], ◌∷◌, ◌++◌, ◌==◌,
  if◌then◌else◌, ltb, length, Result, ok, err, ◌>>=◌, ◌>>◌, reject_if, or_default, any_by,
}
use mirror_sync.Base.Int.{ℤ, pos, ◌==ℤ◌, is_negative}
use mirror_sync.Base.Text.{Bytes, str, ◌=ˢ◌, is_empty, has_prefix, to_lower, equal_fold, contains}
use mirror_sync.Base.Dict.{Dict, Set, lookup, insert, add, values}
use mirror_sync.Base.Sort.{sort}
use mirror_sync.Model.{RepositoryState, ByHashFile}
use mirror_sync.Safe.{rel}
use mirror_sync.Apt.Checksums.{checksum_rank, validate_by_hash_digest}
use mirror_sync.Apt.ByHash.{by_hash_destination, suite_from_canonical, leb_by}

pub record ByHashHistoryGeneration : Type 0 where
  pub path : Bytes
  pub digest : Bytes
  pub size : ℤ

pub record ByHashHistoryRecord : Type 0 where
  pub canonical_path : Bytes
  pub algorithm : Bytes
  pub generations : List ByHashHistoryGeneration

pub record ByHashHistory : Type 0 where
  pub version : ℤ
  pub records : List ByHashHistoryRecord

abbrev pub empty_by_hash_history : ByHashHistory
empty_by_hash_history = record { version = pos 1; records = [] }

unfoldable pub history_record_key : Bytes → Bytes → Bytes
history_record_key canonical algorithm = canonical ++ (0 ∷ algorithm)

abbrev pub key_of : ByHashHistoryRecord → Bytes
key_of r = history_record_key r.canonical_path r.algorithm

-- The path test: the recorded path is the one computed from the digest.
abbrev pub is_path : Result String Bytes → Bytes → Bool
is_path (ok expected) path = expected =ˢ path
is_path (err e) path = false

-- The tests of one generation, without the test for a repeated digest.
unfoldable pub validate_generation :
    ByHashHistoryRecord → ByHashHistoryGeneration → Result String (Unit {0})
validate_generation r g = do
  reject_if (is_negative g.size) "negative size"
  validate_by_hash_digest r.algorithm g.digest
  reject_if (not (is_path (by_hash_destination r.canonical_path r.algorithm g.digest) g.path))
      "invalid history destination"
  ok tt

unfoldable pub validate_generations :
    ByHashHistoryRecord → List ByHashHistoryGeneration → Set → Result String (Unit {0})
validate_generations r [] seen = ok tt
validate_generations r (g ∷ gs) seen = do
  validate_generation r g
  reject_if (contains seen (to_lower g.digest)) "duplicate history digest"
  validate_generations r gs (to_lower g.digest ∷ seen)

unfoldable pub validate_record : ByHashHistoryRecord → Result String (Unit {0})
validate_record r = do
  reject_if
      (not (
        is_path (rel r.canonical_path) r.canonical_path
        && has_prefix r.canonical_path (str "dists/")))
      "invalid canonical path"
  reject_if (checksum_rank r.algorithm == 4) "invalid algorithm"
  ok tt

unfoldable pub validate_records : List ByHashHistoryRecord → Set → Result String (Unit {0})
validate_records [] seen = ok tt
validate_records (r ∷ rs) seen = do
  validate_record r
  reject_if (contains seen (key_of r)) "duplicate history record"
  reject_if (ltb 3 (length r.generations)) "too many generations"
  validate_generations r r.generations []
  validate_records rs (key_of r ∷ seen)

unfoldable pub validate_by_hash_history : ByHashHistory → Result String (Unit {0})
validate_by_hash_history history = do
  reject_if (not (history.version ==ℤ pos 1)) "unsupported by-hash history version"
  validate_records history.records []

-- `append` of the older generations until there are three, without those of the current digest.
unfoldable pub older :
    Bytes
    → List ByHashHistoryGeneration
    → List ByHashHistoryGeneration
    → List ByHashHistoryGeneration
older digest acc [] = acc
older digest acc (previous ∷ rest) =
    let skipped = older digest acc rest in
    let more = older digest (acc ++ (previous ∷ [])) rest in
    if equal_fold previous.digest digest
    then skipped
    else if length (acc ++ (previous ∷ [])) == 3
    then acc ++ (previous ∷ [])
    else more

abbrev pub generation_of : ByHashFile → ByHashHistoryGeneration
generation_of f = record { path = f.path; digest = f.digest; size = f.size }

unfoldable pub roll : ByHashFile → List ByHashHistoryGeneration → List ByHashHistoryGeneration
roll current previous = older current.digest (generation_of current ∷ []) previous

-- Whether a record of the old history is carried over.
unfoldable pub carried : RepositoryState → ByHashHistoryRecord → Bool
carried state r = elim (lookup (suite_from_canonical r.canonical_path) state.by_hash_enabled) [
  | none ↦ true
  | some enabled ↦
      enabled
      && any_by (λ (f : ByHashFile). f.canonical_path =ˢ r.canonical_path) state.by_hash_files
]

unfoldable pub carry_records :
    RepositoryState → List ByHashHistoryRecord → Dict ByHashHistoryRecord → Dict ByHashHistoryRecord
carry_records state [] records = records
carry_records state (r ∷ rs) records =
    carry_records state rs (if carried state r then insert (key_of r) r records else records)

abbrev zero_record : ByHashHistoryRecord
zero_record = record { canonical_path = []; algorithm = []; generations = [] }

abbrev named_record : ByHashFile → ByHashHistoryRecord → ByHashHistoryRecord
named_record f r =
    if is_empty r.canonical_path
    then record r { canonical_path = f.canonical_path; algorithm = f.algorithm }
    else r

abbrev pub file_key : ByHashFile → Bytes
file_key f = history_record_key f.canonical_path f.algorithm

unfoldable pub next_record : ByHashFile → Option ByHashHistoryRecord → ByHashHistoryRecord
next_record f old =
    let r = named_record f (or_default old zero_record) in
    record r { generations = roll f r.generations }

unfoldable pub roll_files : List ByHashFile → Dict ByHashHistoryRecord → Dict ByHashHistoryRecord
roll_files [] records = records
roll_files (f ∷ fs) records =
    roll_files fs (insert (file_key f) (next_record f (lookup (file_key f) records)) records)

unfoldable pub update_by_hash_history : ByHashHistory → RepositoryState → ByHashHistory
update_by_hash_history history state = record {
  version = pos 1;
  records =
      sort (λ a b. leb_by a.canonical_path a.algorithm b.canonical_path b.algorithm)
        (values (roll_files state.by_hash_files (carry_records state history.records [])));
}
