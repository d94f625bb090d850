-- ===== src/Apt/Release.antt =====
-- internal/apt/apt.go: the Release file: its checksum sections, its signed forms and the structure
-- of a clearsigned document.
pub mod Hashes
pub mod Forms
use mirror_sync.Base.{
  ℕ, String, Bool, true, false, not, ◌&&◌, ◌||◌, Option, none, some, List, [], ◌∷◌, ◌++◌,
  if◌then◌else◌, ◌==◌, Result, ok, err, ◌>>=◌, ◌>>◌, reject_if, or_err, or_default,
}
use mirror_sync.Base.Int.{ℤ, pos, ◌==ℤ◌, is_negative}
use mirror_sync.Base.Text.{
  Bytes, str, ◌=ˢ◌, is_empty, has_prefix, trim_suffix, trim_space, trim_right, to_upper, fields,
  split, parse_int, equal_fold,
}
use mirror_sync.Base.Dict.{Dict, lookup, insert}
use mirror_sync.Model
use mirror_sync.Model.{Checksums, no_checksums, MetadataFile}
use mirror_sync.Safe.{join_all}
use mirror_sync.Apt.ByHash.{parse_acquire_by_hash}
use mirror_sync.Apt.Signed.{OpenPgp, crlf_to_lf, verify_in_release, verify_detached_signature}

pub record ReleaseFile : Type 0 where
  pub size : ℤ
  pub size_set : Bool
  pub checksums : Checksums

abbrev pub no_file : ReleaseFile
no_file = record { size = pos 0; size_set = false; checksums = no_checksums }

unfoldable pub checksum_header : Bytes → Option Bytes
checksum_header line =
    let name = to_upper (trim_suffix line (str ":")) in
    if name =ˢ str "MD5SUM"
    then some (str "MD5Sum")
    else if name =ˢ str "SHA1"
    then some (str "SHA1")
    else if name =ˢ str "SHA256"
    then some (str "SHA256")
    else if name =ˢ str "SHA512"
    then some (str "SHA512")
    else none

-- A line that ends a checksum section.
abbrev pub ends_section : Bytes → Bool
ends_section [] = true
ends_section (c ∷ line) = not (c == b' ')

unfoldable pub add_hash : ReleaseFile → Bytes → Bytes → ℤ → Result String ReleaseFile
add_hash existing name digest size = do
  reject_if (existing.size_set && not (existing.size ==ℤ size)) "conflicting sizes in Release"
  reject_if
      (not (is_empty (Model.get existing.checksums name))
        && not (equal_fold (Model.get existing.checksums name) digest))
      "conflicting hashes in Release"
  ok (record {
    size = size;
    size_set = true;
    checksums = (Model.set existing.checksums name digest).0;
  })

unfoldable pub hash_entry : Bytes → List Bytes → Dict ReleaseFile → Result String (Dict ReleaseFile)
hash_entry name (digest ∷ size_text ∷ path ∷ []) out = do
  size ← or_err (parse_int size_text) "invalid size"
  reject_if (is_negative size) "negative size in Release"
  file ← add_hash (or_default (lookup path out) no_file) name digest size
  ok (insert path file out)
hash_entry name _ out = err "invalid entry in Release"

-- The loop over the lines; the second argument is `checksumType`, empty outside a section.
unfoldable pub hash_lines : List Bytes → Bytes → Dict ReleaseFile → Result String (Dict ReleaseFile)
hash_lines [] section out = ok out
hash_lines (raw ∷ lines) section out = elim (checksum_header (trim_suffix raw (str "\r"))) [
  | some name ↦ hash_lines lines name out
  | none ↦ elim (is_empty section) [
    | true ↦ hash_lines lines section out
    | false ↦ elim (ends_section (trim_suffix raw (str "\r"))) [
      | true ↦ hash_lines lines [] out
      | false ↦ do
        out' ← hash_entry section (fields (trim_suffix raw (str "\r"))) out
        hash_lines lines section out'
    ]
  ]
]

unfoldable pub parse_release_hashes : Bytes → Result String (Dict ReleaseFile)
parse_release_hashes text = hash_lines (split text b'\n') [] []

unfoldable pub cr_to_lf : Bytes → Bytes
cr_to_lf [] = []
cr_to_lf (c ∷ s) = (if c == b'\r' then b'\n' else c) ∷ cr_to_lf s

unfoldable pub lf_to_crlf : Bytes → Bytes
lf_to_crlf [] = []
lf_to_crlf (c ∷ s) =
    let rest = lf_to_crlf s in if c == b'\n' then b'\r' ∷ b'\n' ∷ rest else c ∷ rest

unfoldable pub canonical_release_cleartext : Bytes → Bytes
canonical_release_cleartext text = lf_to_crlf (cr_to_lf (crlf_to_lf text))

unfoldable pub trim_trailing_crlf : Bytes → Bytes
trim_trailing_crlf = trim_right (λ c. c == b'\r' || c == b'\n')

unfoldable pub release_matches_verified_cleartext : Bytes → Bytes → Bool
release_matches_verified_cleartext release cleartext =
    release =ˢ cleartext
    || canonical_release_cleartext release =ˢ cleartext
    || trim_trailing_crlf (canonical_release_cleartext release) =ˢ trim_trailing_crlf cleartext

pub record VerifiedRelease : Type 0 where
  pub text : Bytes
  pub cleartext : Bytes
  pub hashes : Dict ReleaseFile
  pub metadata : List MetadataFile

unfoldable pub verified_release_metadata : Bytes → List MetadataFile → Result String VerifiedRelease
verified_release_metadata cleartext metadata = do
  hashes ← parse_release_hashes cleartext
  enabled ← parse_acquire_by_hash cleartext
  ok (record { text = cleartext; cleartext = cleartext; hashes = hashes; metadata = metadata })

abbrev pub dists_path : Bytes → Bytes → Bytes
dists_path suite name = join_all (str "dists" ∷ suite ∷ name ∷ [])

abbrev pub in_release_file : Bytes → Bytes → List MetadataFile
in_release_file suite in_release =
    record { path = dists_path suite (str "InRelease"); content = in_release; signed_last = true }
    ∷ []

abbrev pub detached_files : Bytes → Bytes → Bytes → List MetadataFile
detached_files suite release sig =
    record { path = dists_path suite (str "Release"); content = release; signed_last = false }
    ∷ record { path = dists_path suite (str "Release.gpg"); content = sig; signed_last = true }
    ∷ []

module _ (pgp : OpenPgp) where
  unfoldable pub in_form : Bytes → Option Bytes → Result String VerifiedRelease
  in_form suite none = err "InRelease not found"
  in_form suite (some in_release) = do
    plain ← verify_in_release pgp in_release
    verified_release_metadata plain (in_release_file suite in_release)

  unfoldable pub detached_form : Bytes → Option Bytes → Option Bytes → Result String VerifiedRelease
  detached_form suite (some release) (some sig) = do
    verify_detached_signature pgp release sig
    verified_release_metadata release (detached_files suite release sig)
  detached_form suite none sig = err "detached release pair incomplete"
  detached_form suite (some release) none = err "detached release pair incomplete"

  -- The metadata of both forms, if the detached one is the same Release.
  abbrev pub with_detached :
      VerifiedRelease → Option Bytes → Result String VerifiedRelease → List MetadataFile
  with_detached form (some release) (ok other) =
      if release_matches_verified_cleartext release form.cleartext
      then form.metadata ++ other.metadata
      else form.metadata
  with_detached form release _ = form.metadata

  abbrev pub choose_form :
      Result String VerifiedRelease
      → Result String VerifiedRelease
      → Option Bytes
      → Result String VerifiedRelease
  choose_form (ok form) other release =
      ok (record form { metadata = with_detached form release other })
  choose_form (err e) (ok other) release = ok other
  choose_form (err e) (err e') release = err "no valid signed Release metadata"

  unfoldable pub select_release_forms :
      Bytes → Option Bytes → Option Bytes → Option Bytes → Result String VerifiedRelease
  select_release_forms suite in_release release sig =
      choose_form (in_form suite in_release) (detached_form suite release sig) release
