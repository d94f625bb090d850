-- ===== src/Apt/ByHash.antt =====
-- internal/apt/byhash.go: the Acquire-By-Hash field, and the by-hash files of a suite.
pub mod Acquire
pub mod Derive
use mirror_sync.Base.{
  ℕ, String, Bool, true, false, not, ◌&&◌, ◌||◌, Option, none, some, List, [], ◌∷◌, ◌++◌, ◌==◌,
  if◌then◌else◌, ltb, leb, Result, ok, err, ◌>>=◌, ◌>>◌, reject_if,
}
use mirror_sync.Base.Int.{◌==ℤ◌}
use mirror_sync.Base.Text.{
  Bytes, str, ◌=ˢ◌, is_empty, has_prefix, trim_suffix, trim_space, to_lower, equal_fold, split, cut,
  text_leb, join,
}
use mirror_sync.Base.Dict.{Dict, lookup, insert, values}
use mirror_sync.Base.Sort.{sort}
use mirror_sync.Model.{RepositoryFile, ByHashFile}
use mirror_sync.Safe.{rel, join_all, path_dir}
use mirror_sync.Apt.Checksums.{
  algorithms, checksum_from_map, checksum_rank, same_checksums, validate_by_hash_digest,
}

abbrev starts_blank : Bytes → Bool
starts_blank [] = true
starts_blank (c ∷ line) = c == b' ' || c == b'\t'

-- The loop over the lines; `seen` holds the value read so far.
abbrev yes_or_no : Bytes → Result String Bool
yes_or_no value =
    if value =ˢ str "yes"
    then ok true
    else if value =ˢ str "no"
    then ok false
    else err "invalid Acquire-By-Hash value"

abbrev named_acquire : Option (Bytes × Bytes) → Option (Result String Bool)
named_acquire none = none
named_acquire (some (name, raw)) =
    if equal_fold (trim_space name) (str "Acquire-By-Hash")
    then some (yes_or_no (to_lower (trim_space raw)))
    else none

-- The value of a line, if it is an Acquire-By-Hash field.
unfoldable pub acquire_field : Bytes → Option (Result String Bool)
acquire_field raw_line =
    let line = trim_suffix raw_line (str "\r") in
    if starts_blank line then none else named_acquire (cut line b':')

abbrev pub differs : Option Bool → Bool → Bool
differs none parsed = false
differs (some value) true = not value
differs (some value) false = value

-- The loop over the lines; the second argument is the value seen so far.
unfoldable pub acquire_loop : List Bytes → Option Bool → Result String Bool
acquire_loop [] none = ok false
acquire_loop [] (some value) = ok value
acquire_loop (line ∷ lines) seen = elim (acquire_field line) [
  | none ↦ acquire_loop lines seen
  | some (err e) ↦ err e
  | some (ok parsed) ↦
      if differs seen parsed
      then err "conflicting Acquire-By-Hash values"
      else acquire_loop lines (some parsed)
]

unfoldable pub parse_acquire_by_hash : Bytes → Result String Bool
parse_acquire_by_hash text = acquire_loop (split text b'\n') none

unfoldable pub by_hash_destination : Bytes → Bytes → Bytes → Result String Bytes
by_hash_destination canonical algorithm digest = do
  c ← rel canonical
  rel (join_all (path_dir c ∷ str "by-hash" ∷ algorithm ∷ digest ∷ []))

unfoldable pub suite_of_parts : List Bytes → Bytes
suite_of_parts (first ∷ second ∷ rest) = if first =ˢ str "dists" then second else []
suite_of_parts _ = []

unfoldable pub suite_from_canonical : Bytes → Bytes
unfolding suite_of_parts
suite_from_canonical canonical = suite_of_parts (split canonical b'/')

unfoldable pub sorted_files : List RepositoryFile → List RepositoryFile
sorted_files = sort (λ a b. text_leb a.path b.path)

-- Two files may share a destination only if they are the same file by every known digest.
unfoldable pub same_target : ByHashFile → ByHashFile → Bool
same_target existing expected =
    existing.size ==ℤ expected.size
    && existing.algorithm =ˢ expected.algorithm
    && equal_fold existing.digest expected.digest
    && same_checksums existing.checksums expected.checksums

abbrev pub put_found :
    Option ByHashFile → ByHashFile → Dict ByHashFile → Result String (Dict ByHashFile)
put_found none expected by_path = ok (insert expected.path expected by_path)
put_found (some existing) expected by_path =
    if same_target existing expected then ok by_path else err "conflicting by-hash destination"

unfoldable pub put_target : ByHashFile → Dict ByHashFile → Result String (Dict ByHashFile)
put_target expected by_path = put_found (lookup expected.path by_path) expected by_path

unfoldable pub derive_digest :
    RepositoryFile → Bytes → Bytes → Dict ByHashFile → Result String (Dict ByHashFile × Bool)
derive_digest file algorithm digest by_path = do
  validate_by_hash_digest algorithm digest
  destination ← by_hash_destination file.path algorithm digest
  by_path' ←
      put_target
        (record {
          canonical_path = file.path;
          path = destination;
          algorithm = algorithm;
          digest = digest;
          size = file.size;
          checksums = file.checksums;
        })
        by_path
  ok (by_path', true)

-- One round of the loop over the algorithms.
unfoldable pub derive_algorithm :
    RepositoryFile → Bytes → Dict ByHashFile × Bool → Result String (Dict ByHashFile × Bool)
derive_algorithm file algorithm (by_path, found) =
    let digest = checksum_from_map file.checksums algorithm in
    if is_empty digest then ok (by_path, found) else derive_digest file algorithm digest by_path

unfoldable pub derive_algorithms :
    RepositoryFile → List Bytes → Dict ByHashFile × Bool → Result String (Dict ByHashFile × Bool)
derive_algorithms file [] acc = ok acc
derive_algorithms file (algorithm ∷ algs) acc = do
  acc' ← derive_algorithm file algorithm acc
  derive_algorithms file algs acc'

unfoldable pub derive_file : RepositoryFile → Dict ByHashFile → Result String (Dict ByHashFile)
derive_file file by_path = do
  reject_if (not (has_prefix file.path (str "dists/"))) "by-hash canonical path is outside dists"
  (by_path', found) ← derive_algorithms file algorithms (by_path, false)
  reject_if (not found) "no supported checksum for by-hash"
  ok by_path'

unfoldable pub derive_files :
    List RepositoryFile → Dict ByHashFile → Result String (Dict ByHashFile)
derive_files [] by_path = ok by_path
derive_files (file ∷ files) by_path = do
  by_path' ← derive_file file by_path
  derive_files files by_path'

-- By canonical path, then by the algorithm's rank.
abbrev pub leb_by : Bytes → Bytes → Bytes → Bytes → Bool
leb_by path algorithm path' algorithm' =
    if path =ˢ path'
    then leb (checksum_rank algorithm) (checksum_rank algorithm')
    else text_leb path path'

unfoldable pub derive_by_hash_files : List RepositoryFile → Result String (List ByHashFile)
derive_by_hash_files files = do
  by_path ← derive_files (sorted_files files) []
  ok (
      sort (λ a b. leb_by a.canonical_path a.algorithm b.canonical_path b.algorithm)
        (values by_path))
