-- ===== src/Tests/Releases.antt =====
-- A Release with by-hash, from its text to the history.
use mirror_sync.Base.{◌↔◌, false, not, ◌&&◌, ◌||◌, ◌≡◌, refl, true, ok, [], ◌∷◌, ◌++◌}
use mirror_sync.Base.Int.{pos}
use mirror_sync.Base.Text.{
  Bytes, str, ◌=ˢ◌, has_prefix, cut_prefix, trim_prefix, trim_suffix, split, grow, join, equal_fold,
  to_lower, lower, to_upper, upper, fields, is_space, parse_int, parse_unsigned, parse_digits,
  is_digit, is_hex, is_hex_digit, text_leb, trim_right, trim_left, contains,
}
use mirror_sync.Base.Dict.{Dict, lookup, insert, keys, values, add}
use mirror_sync.Base.Sort.{sort, sort_strings}
use mirror_sync.Base.Sort
use mirror_sync.Model.{no_checksums, RepositoryFile, ByHashFile, RepositoryState, get, set}
use mirror_sync.Safe.{rel, clean, elements, render, push, is_abs, join_all, path_dir}
use mirror_sync.Apt.Checksums.{
  checksum_from_map, checksum_rank, rank_in, digest_length, validate_by_hash_digest,
}
use mirror_sync.Apt.ByHash.{
  derive_by_hash_files, derive_files, derive_file, derive_algorithms, derive_algorithm,
  derive_digest, put_target, by_hash_destination, sorted_files,
}
use mirror_sync.Apt.Release.{
  ReleaseFile, parse_release_hashes, hash_lines, hash_entry, add_hash, checksum_header,
}
use mirror_sync.Apt.Select.{
  AptSuite, select_release_files, select_paths, set_from_slice, selected_real_architectures,
  package_index_architectures, index_archs, should_mirror_release_file, mirror_parts,
  mirror_component_file, binary_dir_arch,
}
use mirror_sync.Apt.History.{
  empty_by_hash_history, validate_by_hash_history, validate_records, update_by_hash_history,
}
use mirror_sync.Apt.Resolved.{
  ResolvedReleaseRecord, ResolvedReleaseState, validate_resolved_release_state, validate_releases,
  validate_release, validate_selected, validate_resolved, upgrade_resolved_release_state_v1,
  merge_resolved_release_records,
}
use mirror_sync.Apt.Resolved.Valid.{ValidRelease, validate_release_iff}
use mirror_sync.Apt.Resolved.Union.{validate-merge_resolved_release_records}
use mirror_sync.Apt.Resolved.Merge.{
  upgrade_resolved_release_state_v1-valid, merge_resolved_release_records_lem,
}
use mirror_sync.Apt.History.Fresh.{validate-update_from_release}

abbrev digest : Bytes
digest = str "0123456789abcdef0123456789abcdef"

abbrev release : Bytes
release = str "MD5Sum:\n " ++ digest ++ str " 7 main/binary-all/Packages"

abbrev table : Dict ReleaseFile
table =
    (
      str "main/binary-all/Packages",
      record { size = pos 7; size_set = true; checksums = record no_checksums { md5sum = digest } },
    )
    ∷ []

abbrev suite : AptSuite
suite = record { name = str "s"; components = str "main" ∷ [] }

abbrev selected : RepositoryFile
selected = record {
  path = str "dists/s/main/binary-all/Packages";
  size = pos 7;
  checksums = record no_checksums { md5sum = digest };
}

abbrev by_hash_file : ByHashFile
by_hash_file = record {
  canonical_path = str "dists/s/main/binary-all/Packages";
  path = str "dists/s/main/binary-all/by-hash/MD5Sum/0123456789abcdef0123456789abcdef";
  algorithm = str "MD5Sum";
  digest = digest;
  size = pos 7;
  checksums = record no_checksums { md5sum = digest };
}

abbrev state : RepositoryState
state = record {
  metadata = [];
  selected_files = selected ∷ [];
  files = selected ∷ [];
  by_hash_files = by_hash_file ∷ [];
  by_hash_enabled = (str "s", true) ∷ [];
  release_fingerprints = [];
  packages = [];
}

parsed : parse_release_hashes release ≡ ok table
unfolding parse_release_hashes hash_lines hash_entry add_hash checksum_header split grow trim_suffix
    trim_prefix cut_prefix fields is_space to_upper upper equal_fold to_lower lower ◌=ˢ◌ parse_int
    parse_unsigned parse_digits is_digit lookup insert get set
parsed = refl

selects : select_release_files suite (str "amd64" ∷ []) table ≡ ok (selected ∷ [])
unfolding select_release_files select_paths set_from_slice selected_real_architectures
    package_index_architectures index_archs should_mirror_release_file mirror_parts
    mirror_component_file binary_dir_arch add contains keys lookup sort_strings sort Sort.insert rel
    clean elements render push is_abs join_all has_prefix cut_prefix trim_prefix split grow join
    ◌=ˢ◌
selects = refl

derived : derive_by_hash_files (selected ∷ []) ≡ ok (by_hash_file ∷ [])
unfolding derive_by_hash_files derive_files derive_file derive_algorithms derive_algorithm
    derive_digest put_target by_hash_destination sorted_files checksum_from_map
    validate_by_hash_digest digest_length checksum_rank rank_in get rel clean elements render push
    is_abs join_all path_dir has_prefix cut_prefix trim_prefix split grow join equal_fold to_lower
    lower is_hex is_hex_digit text_leb trim_right trim_left ◌=ˢ◌ lookup insert values sort
    Sort.insert
derived = refl

empty_is_valid : validate_by_hash_history empty_by_hash_history ≡ ok tt
unfolding validate_by_hash_history validate_records
empty_is_valid = refl

validate-update_from_release_example :
    validate_by_hash_history (update_by_hash_history empty_by_hash_history state) ≡ ok tt
validate-update_from_release_example =
    validate-update_from_release release suite (str "amd64" ∷ []) empty_by_hash_history state parsed
      selects derived empty_is_valid

abbrev first_record : ResolvedReleaseRecord
first_record = record {
  suite = str "s";
  fingerprint = digest ++ digest;
  selected_paths = [];
  resolved_paths = [];
  selection_complete = false;
  paths = str "dists/s/a" ∷ [];
}

abbrev first_state : ResolvedReleaseState
first_state = record { version = pos 1; releases = first_record ∷ [] }

first_valid : validate_resolved_release_state first_state ≡ ok tt
unfolding validate_resolved_release_state validate_releases validate_release validate_selected
    validate_resolved rel clean elements render push is_abs has_prefix cut_prefix trim_prefix split
    grow join contains is_hex is_hex_digit to_lower lower ◌=ˢ◌
first_valid = refl

upgrade_resolved_release_state_v1-valid_example :
    (validate_resolved_release_state (upgrade_resolved_release_state_v1 first_state) ≡ ok tt)
    × ((upgrade_resolved_release_state_v1 first_state).version ≡ pos 2)
upgrade_resolved_release_state_v1-valid_example =
    upgrade_resolved_release_state_v1-valid first_state refl first_valid

abbrev older : ResolvedReleaseRecord
older = record first_record {
  selected_paths = str "a" ∷ [];
  resolved_paths = str "a" ∷ [];
  paths = [];
}

abbrev newer : ResolvedReleaseRecord
newer = record older { selected_paths = str "b" ∷ []; resolved_paths = [] }

merge_resolved_release_records_lem_example :
    (contains (merge_resolved_release_records older newer).selected_paths (str "a")
      ≡ (contains (str "a" ∷ []) (str "a") || contains (str "b" ∷ []) (str "a")))
    × (contains (merge_resolved_release_records older newer).resolved_paths (str "a") ≡ (
        contains [] (str "a")
        || (contains (str "a" ∷ []) (str "a") && not (contains (str "b" ∷ []) (str "a")))))
merge_resolved_release_records_lem_example =
    merge_resolved_release_records_lem older newer (str "a")

abbrev resolved_record : ResolvedReleaseRecord
resolved_record = record first_record {
  selected_paths = str "dists/s/a" ∷ [];
  resolved_paths = str "dists/s/a" ∷ [];
  paths = [];
}

record_accepted : validate_release false resolved_record ≡ ok tt
unfolding validate_release validate_selected validate_resolved rel clean elements render push is_abs
    has_prefix cut_prefix trim_prefix split grow join contains ◌=ˢ◌
record_accepted = refl

validate_release_iff_example :
    (validate_release false resolved_record ≡ ok tt)
    ↔ ValidRelease (str "s") (str "dists/s/a" ∷ []) (str "dists/s/a" ∷ [])
validate_release_iff_example = validate_release_iff false resolved_record

validate-merge_resolved_release_records_example :
    validate_release false (merge_resolved_release_records resolved_record resolved_record) ≡ ok tt
validate-merge_resolved_release_records_example =
    validate-merge_resolved_release_records resolved_record resolved_record refl record_accepted
      record_accepted
