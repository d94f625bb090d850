-- ===== src/Tests/Suites.antt =====
-- The by-hash files of a suite, and their history.
use mirror_sync.Base.{◌≡◌, refl, true, false, ok, All, [], ◌∷◌, ◌↔◌, take, ◌≢◌}
use mirror_sync.Base.Int.{pos, is_negative}
use mirror_sync.Base.Text.{
  Bytes, str, ◌=ˢ◌, has_prefix, cut_prefix, trim_prefix, split, grow, join, equal_fold, to_lower,
  lower, is_hex, is_hex_digit, text_leb, trim_right, trim_left, trim_suffix, cut, trim_space,
  is_space,
}
use mirror_sync.Base.Dict.{lookup, insert, values}
use mirror_sync.Base.Sort.{sort}
use mirror_sync.Base.Sort
use mirror_sync.Model.{no_checksums, RepositoryFile, ByHashFile, RepositoryState, get}
use mirror_sync.Safe.{rel, clean, elements, render, push, is_abs, join_all, path_dir}
use mirror_sync.Apt.Checksums.{
  checksum_from_map, checksum_rank, rank_in, digest_length, validate_by_hash_digest,
}
use mirror_sync.Apt.ByHash.{
  derive_by_hash_files, derive_files, derive_file, derive_algorithms, derive_algorithm,
  derive_digest, put_target, by_hash_destination, sorted_files, parse_acquire_by_hash, acquire_loop,
  acquire_field,
}
use mirror_sync.Apt.ByHash.Derive.{DerivedFrom, derive_by_hash_files-DerivedFrom}
use mirror_sync.Apt.ByHash.Acquire.{Says, field_values, parse_acquire_by_hash_iff}
use mirror_sync.Apt.History.{
  empty_by_hash_history, validate_by_hash_history, validate_records, update_by_hash_history, roll,
  generation_of,
}
use mirror_sync.Apt.History.Valid.{ValidHistory, validate_by_hash_history_iff}
use mirror_sync.Apt.History.Roll.{others, roll_lem}
use mirror_sync.Apt.History.Update.{IsCurrent, validate-update_by_hash_history}

abbrev digest : Bytes
digest = str "0123456789abcdef0123456789abcdef"

abbrev index_file : RepositoryFile
index_file = record {
  path = str "dists/s/Release.x";
  size = pos 7;
  checksums = record no_checksums { md5sum = digest };
}

abbrev by_hash_file : ByHashFile
by_hash_file = record {
  canonical_path = str "dists/s/Release.x";
  path = str "dists/s/by-hash/MD5Sum/0123456789abcdef0123456789abcdef";
  algorithm = str "MD5Sum";
  digest = digest;
  size = pos 7;
  checksums = record no_checksums { md5sum = digest };
}

derived_one : derive_by_hash_files (index_file ∷ []) ≡ ok (by_hash_file ∷ [])
unfolding derive_by_hash_files derive_files derive_file derive_algorithms derive_algorithm
    derive_digest put_target by_hash_destination sorted_files checksum_from_map
    validate_by_hash_digest digest_length checksum_rank rank_in get rel clean elements render push
    is_abs join_all path_dir has_prefix cut_prefix trim_prefix split grow join equal_fold to_lower
    lower is_hex is_hex_digit text_leb trim_right trim_left ◌=ˢ◌ lookup insert values sort
    Sort.insert
derived_one = refl

derive_by_hash_files-DerivedFrom_example :
    All (DerivedFrom (λ f. is_negative f.size ≡ false)) (by_hash_file ∷ [])
derive_by_hash_files-DerivedFrom_example =
    derive_by_hash_files-DerivedFrom (λ f. is_negative f.size ≡ false) (index_file ∷ []) (refl, tt)
      derived_one

says_yes : parse_acquire_by_hash (str "Acquire-By-Hash: yes") ≡ ok true
unfolding parse_acquire_by_hash acquire_loop acquire_field split grow trim_suffix trim_prefix
    cut_prefix cut trim_space trim_right trim_left is_space equal_fold to_lower lower ◌=ˢ◌
says_yes = refl

parse_acquire_by_hash_iff_example :
    (parse_acquire_by_hash (str "Acquire-By-Hash: yes") ≡ ok true) ↔ (
      All (Says true) (field_values (split (str "Acquire-By-Hash: yes") b'\n'))
      × ((true ≡ true) → field_values (split (str "Acquire-By-Hash: yes") b'\n') ≢ []))
parse_acquire_by_hash_iff_example = parse_acquire_by_hash_iff (str "Acquire-By-Hash: yes") true

abbrev state : RepositoryState
state = record {
  metadata = [];
  selected_files = index_file ∷ [];
  files = index_file ∷ [];
  by_hash_files = by_hash_file ∷ [];
  by_hash_enabled = (str "s", true) ∷ [];
  release_fingerprints = [];
  packages = [];
}

cleaned_index : rel (str "dists/s/Release.x") ≡ ok (str "dists/s/Release.x")
unfolding rel clean elements render push is_abs has_prefix cut_prefix trim_prefix split grow join
    ◌=ˢ◌
cleaned_index = refl

by_hash_file-IsCurrent : IsCurrent by_hash_file
by_hash_file-IsCurrent = record {
  derived = derive_by_hash_files-DerivedFrom_example.0.0;
  cleaned = cleaned_index;
  sized = refl;
}

empty_valid : validate_by_hash_history empty_by_hash_history ≡ ok tt
unfolding validate_by_hash_history validate_records
empty_valid = refl

validate-update_by_hash_history_example :
    validate_by_hash_history (update_by_hash_history empty_by_hash_history state) ≡ ok tt
validate-update_by_hash_history_example =
    validate-update_by_hash_history empty_by_hash_history state empty_valid
      (by_hash_file-IsCurrent, tt)

validate_by_hash_history_iff_example :
    (validate_by_hash_history (update_by_hash_history empty_by_hash_history state) ≡ ok tt)
    ↔ ValidHistory (update_by_hash_history empty_by_hash_history state)
validate_by_hash_history_iff_example =
    validate_by_hash_history_iff (update_by_hash_history empty_by_hash_history state)

roll_lem_example :
    roll by_hash_file (generation_of by_hash_file ∷ [])
    ≡ generation_of by_hash_file ∷ take 2 (others digest (generation_of by_hash_file ∷ []))
roll_lem_example = roll_lem by_hash_file (generation_of by_hash_file ∷ [])
