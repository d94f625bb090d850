-- ===== src/Tests/Indexes.antt =====
-- A Release, its signature and a one_package index.
use mirror_sync.Base.{
  arith, ◌≡◌, refl, true, false, none, some, ok, err, All, [], ◌∷◌, ◌++◌, if◌then◌else◌,
}
use mirror_sync.Base.Int.{pos}
use mirror_sync.Base.Text.{
  Bytes, str, ◌=ˢ◌, has_prefix, cut_prefix, trim_prefix, trim_suffix, split, grow, join, equal_fold,
  to_lower, lower, to_upper, upper, trim_right, trim_left, contains, cut, trim_space, is_space,
  fields, parse_int, parse_unsigned, parse_digits, is_digit,
}
use mirror_sync.Base.Dict.{Dict, lookup, insert, keys, add}
use mirror_sync.Base.Sort.{sort, sort_strings}
use mirror_sync.Base.Sort
use mirror_sync.Model.{no_checksums, Payload, Package, RepositoryFile, get, set, no_digest}
use mirror_sync.Safe.{rel, clean, elements, render, push, is_abs, join_all}
use mirror_sync.Apt.Control.{add_payload, scan_control, scan_lines, end_of_scan, read_lines}
use mirror_sync.Apt.Control.Payloads.{
  Agrees, merged, add_payload_lem, add_payload_complete, SafeKey,
}
use mirror_sync.Apt.Packages.{
  no_fields, parse_packages, package_line, finish_package, skipped, package_of, set_package_field,
}
use mirror_sync.Apt.Packages.Safety.{parse_packages-SafeKey}
use mirror_sync.Apt.ByHash.{parse_acquire_by_hash, acquire_loop, acquire_field}
use mirror_sync.Apt.Signed.{
  OpenPgp, crlf_to_lf, chomp, validate_clearsigned_structure, clear_document, clear_headers,
  clear_body, clear_signature, clear_trailer, sig_begin, signed_begin, verify_detached_signature,
}
use mirror_sync.Apt.Signed.Structure.{occurs, validate_clearsigned_structure-occurs}
use mirror_sync.Apt.Release.{
  ReleaseFile, no_file, VerifiedRelease, parse_release_hashes, hash_lines, hash_entry, add_hash,
  checksum_header, select_release_forms, in_form, detached_form, verified_release_metadata,
  detached_files,
}
use mirror_sync.Apt.Release.Hashes.{IsSized, parse_release_hashes-IsSized}
use mirror_sync.Apt.Release.Forms.{Trusted, select_release_forms-Trusted}
use mirror_sync.Apt.Select.{
  AptSuite, select_release_files, select_paths, set_from_slice, selected_real_architectures,
  package_index_architectures, index_archs, should_mirror_release_file, mirror_parts,
  mirror_component_file, binary_dir_arch,
}
use mirror_sync.Apt.Select.Laws.{IsSelected, select_release_files-IsSelected}

abbrev release : Bytes
release = str "SHA256:\n ab 7 main/binary-all/Packages"

abbrev listed : ReleaseFile
listed = record {
  size = pos 7;
  size_set = true;
  checksums = record no_checksums { sha256 = str "ab" };
}

abbrev table : Dict ReleaseFile
table = (str "main/binary-all/Packages", listed) ∷ []

parsed : parse_release_hashes release ≡ ok table
unfolding parse_release_hashes hash_lines hash_entry add_hash checksum_header split grow trim_suffix
    trim_prefix cut_prefix fields is_space to_upper upper equal_fold to_lower lower ◌=ˢ◌ parse_int
    parse_unsigned parse_digits is_digit lookup insert get set
parsed = refl

table-IsSized : All IsSized table
table-IsSized = parse_release_hashes-IsSized release parsed

added : add_hash no_file (str "SHA256") (str "ab") (pos 7) ≡ ok listed
unfolding add_hash equal_fold to_lower lower ◌=ˢ◌ get set
added = refl

abbrev suite : AptSuite
suite = record { name = str "s"; components = str "main" ∷ [] }

abbrev selected : RepositoryFile
selected = record {
  path = str "dists/s/main/binary-all/Packages";
  size = pos 7;
  checksums = record no_checksums { sha256 = str "ab" };
}

selects : select_release_files suite (str "amd64" ∷ []) table ≡ ok (selected ∷ [])
unfolding select_release_files select_paths set_from_slice selected_real_architectures
    package_index_architectures index_archs should_mirror_release_file mirror_parts
    mirror_component_file binary_dir_arch add contains keys lookup sort_strings sort Sort.insert rel
    clean elements render push is_abs join_all has_prefix cut_prefix trim_prefix split grow join
    ◌=ˢ◌
selects = refl

select_release_files-IsSelected_example : All IsSelected (selected ∷ [])
select_release_files-IsSelected_example =
    select_release_files-IsSelected suite (str "amd64" ∷ []) table table-IsSized selects

-- A signature scheme in which the signature of a message is the message.
abbrev scheme : OpenPgp
scheme = record {
  decode_clearsigned = λ document. none;
  decode_armor = λ text. err "no armor";
  check_detached = λ message signature. if message =ˢ signature then ok tt else err "bad signature";
}

abbrev verified : VerifiedRelease
verified = record {
  text = release;
  cleartext = release;
  hashes = table;
  metadata = detached_files (str "s") release release;
}

acquires : parse_acquire_by_hash release ≡ ok false
unfolding parse_acquire_by_hash acquire_loop acquire_field split grow trim_suffix trim_prefix
    cut_prefix cut trim_space trim_right trim_left is_space equal_fold to_lower lower ◌=ˢ◌
acquires = refl

verifies : verify_detached_signature scheme release release ≡ ok tt
unfolding verify_detached_signature trim_left has_prefix cut_prefix ◌=ˢ◌
verifies = refl

selects_form :
    select_release_forms scheme (str "s") none (some release) (some release) ≡ ok verified
unfolding select_release_forms in_form detached_form verified_release_metadata
selects_form = rw (verifies, parsed, acquires) refl

select_release_forms-Trusted_example : Trusted scheme none (some release) (some release) verified
select_release_forms-Trusted_example =
    select_release_forms-Trusted scheme (str "s") none (some release) (some release) selects_form

abbrev document : Bytes
document = signed_begin ++ str "\n\ntext\n" ++ sig_begin ++ str "\nx\n-----END PGP SIGNATURE-----\n"

structured : validate_clearsigned_structure document ≡ ok tt
unfolding validate_clearsigned_structure clear_document clear_headers clear_body clear_signature
    clear_trailer crlf_to_lf chomp split grow trim_suffix trim_prefix has_prefix cut_prefix
    trim_space trim_right trim_left is_space ◌=ˢ◌
structured = refl

validate_clearsigned_structure-occurs_example :
    (occurs sig_begin (split (crlf_to_lf document) b'\n') ≡ 1)
    × (occurs signed_begin (split (crlf_to_lf document) b'\n') ≡ 1)
validate_clearsigned_structure-occurs_example =
    validate_clearsigned_structure-occurs document structured

abbrev index : Bytes
index = str "Filename: pool/a\nSize: 7\nSHA256: ab\n"

abbrev payload : Payload
payload = record {
  size = pos 7;
  checksums = record no_checksums { sha256 = str "ab" };
  verify = none;
}

package_read : parse_packages [] index none [] ≡ ok (no_fields, (str "pool/a", payload) ∷ [])
unfolding parse_packages package_line finish_package skipped package_of set_package_field
    scan_control scan_lines end_of_scan read_lines add_payload lookup insert no_digest rel clean
    elements render push is_abs has_prefix cut_prefix trim_prefix trim_suffix split grow join ◌=ˢ◌
    cut trim_space trim_right trim_left is_space parse_int parse_unsigned parse_digits is_digit
package_read = refl

parse_packages-SafeKey_example : All SafeKey ((str "pool/a", payload) ∷ [])
parse_packages-SafeKey_example = parse_packages-SafeKey [] index none [] tt package_read

abbrev one_package : Package
one_package = record {
  path = str "pool/a";
  size = pos 7;
  checksums = record no_checksums { sha512 = str "cd" };
  apk_hash = [];
}

abbrev payloads : Dict Payload
payloads = (str "pool/a", payload) ∷ []

agrees : Agrees (lookup (str "pool/a") payloads) one_package
unfolding lookup equal_fold to_lower lower ◌=ˢ◌
agrees =
    (refl, (λ a b. refl, λ a b. refl, λ a b. absurd (ground arith), λ a b. absurd (ground arith)))

agreeing_is_added :
    add_payload payloads one_package
    ≡ ok (insert (str "pool/a") (merged (lookup (str "pool/a") payloads) one_package) payloads)
agreeing_is_added = add_payload_complete payloads one_package agrees

add_payload_lem_example :
    Agrees (lookup (str "pool/a") payloads) one_package
    × (lookup
          (str "pool/a")
          (insert (str "pool/a") (merged (lookup (str "pool/a") payloads) one_package) payloads)
        ≡ (if str "pool/a" =ˢ str "pool/a"
            then some (merged (lookup (str "pool/a") payloads) one_package)
            else lookup (str "pool/a") payloads))
add_payload_lem_example = add_payload_lem payloads one_package (str "pool/a") agreeing_is_added
