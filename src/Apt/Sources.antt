-- ===== src/Apt/Sources.antt =====
-- internal/apt/apt.go: `parseSources`.
pub mod Safety
use mirror_sync.Base.{
  String, Bool, true, false, not, ◌&&◌, Option, none, some, List, [], ◌∷◌, if◌then◌else◌, Result,
  ok, err, ◌>>=◌, ◌>>◌, reject_if, or_err, or_default,
}
use mirror_sync.Base.Int.{ℤ, pos, ◌==ℤ◌}
use mirror_sync.Base.Text.{
  Bytes, str, ◌=ˢ◌, is_empty, cut, trim_space, fields, parse_int, equal_fold,
}
use mirror_sync.Base.Dict.{Dict, lookup, insert, keys}
use mirror_sync.Base.Sort.{sort_strings}
use mirror_sync.Model
use mirror_sync.Model.{Checksums, no_checksums, Payload, Package}
use mirror_sync.Safe.{rel, join_path}
use mirror_sync.Apt.Control.{scan_control, add_payload}
use mirror_sync.Apt.Packages.{starts_blank}

pub record SourcePayload : Type 0 where
  pub size : ℤ
  pub size_set : Bool
  pub checksums : Checksums

abbrev pub no_payload : SourcePayload
no_payload = record { size = pos 0; size_set = false; checksums = no_checksums }

-- The variables that the callbacks share; `out` is what `yield` has collected.
pub record SourceScan : Type 0 where
  pub directory : Bytes
  pub checksum_name : Bytes
  pub files : Dict SourcePayload
  pub out : Dict Payload

unfoldable pub source_checksum_field : Bytes → Option Bytes
source_checksum_field field =
    if equal_fold field (str "Files")
    then some (str "MD5Sum")
    else if equal_fold field (str "Checksums-Sha1")
    then some (str "SHA1")
    else if equal_fold field (str "Checksums-Sha256")
    then some (str "SHA256")
    else if equal_fold field (str "Checksums-Sha512")
    then some (str "SHA512")
    else none

-- A file's payload with one more digest.
unfoldable pub add_digest : SourcePayload → Bytes → Bytes → ℤ → Result String SourcePayload
add_digest payload name digest size = do
  reject_if (payload.size_set && not (payload.size ==ℤ size)) "conflicting sizes"
  reject_if
      (not (is_empty (Model.get payload.checksums name))
        && not (equal_fold (Model.get payload.checksums name) digest))
      "conflicting hashes"
  ok (record {
    size = size;
    size_set = true;
    checksums = (Model.set payload.checksums name digest).0;
  })

unfoldable pub entry_parts : SourceScan → List Bytes → Result String SourceScan
entry_parts s (digest ∷ size_text ∷ name ∷ []) = do
  size ← or_err (parse_int size_text) "Size"
  payload ← add_digest (or_default (lookup name s.files) no_payload) s.checksum_name digest size
  ok (record s { files = insert name payload s.files })
entry_parts s _ = err "invalid source file entry"

unfoldable pub add_entry : Bytes → SourceScan → Result String SourceScan
add_entry line s =
    if is_empty (trim_space line) then ok s else entry_parts s (fields (trim_space line))

-- The loop of `finish` over the sorted names.
unfoldable pub yield_names :
    Bytes → Dict SourcePayload → List Bytes → Dict Payload → Result String (Dict Payload)
yield_names directory files [] out = ok out
yield_names directory files (name ∷ names) out = do
  let info = or_default (lookup name files) no_payload
  reject_if (Model.no_digest info.checksums) "no supported checksum"
  path ← rel (join_path directory name)
  out' ←
      add_payload out
        (record { path = path; size = info.size; checksums = info.checksums; apk_hash = [] })
  yield_names directory files names out'

abbrev pub fresh_scan : Dict Payload → SourceScan
fresh_scan out = record { directory = []; checksum_name = []; files = []; out = out }

unfoldable pub finish_source : SourceScan → Result String SourceScan
finish_source s =
    let yielded = do
      out ← yield_names s.directory s.files (sort_strings (keys s.files)) s.out
      ok (fresh_scan out)
    in if is_empty s.directory then ok (fresh_scan s.out) else yielded

abbrev pub field_line : SourceScan → Bytes → Option Bytes → Result String SourceScan
field_line s value (some name) = add_entry value (record s { checksum_name = name })
field_line s value none = ok (record s { checksum_name = [] })

abbrev pub source_cut : SourceScan → Option (Bytes × Bytes) → Result String SourceScan
source_cut s none = ok (record s { checksum_name = [] })
source_cut s (some (name, value)) =
    if name =ˢ str "Directory"
    then ok (record s { directory = trim_space value; checksum_name = [] })
    else field_line s value (source_checksum_field name)

unfoldable pub source_line : Bytes → SourceScan → Result String SourceScan
source_line line s =
    if starts_blank line
    then (if is_empty s.checksum_name then ok s else add_entry line s)
    else source_cut s (cut line b':')

unfoldable pub parse_sources : Bytes → Option String → Dict Payload → Result String SourceScan
parse_sources text failure out =
    scan_control source_line finish_source text failure (fresh_scan out)
