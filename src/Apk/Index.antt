-- ===== src/Apk/Index.antt =====
-- internal/apk/apk.go: `parseIndex`. Its loop over the lines is that of `scanControl`.
pub mod Entries
use mirror_sync.Base.{
  ◌≡◌, refl, String, ◌||◌, Option, none, some, [], ◌∷◌, ◌++◌, arith, All, if◌then◌else◌, Result, ok,
  ◌>>=◌, or_err, Ensures, ensured, Result-cases, Bool-cases, inl, inr, is_ok,
}
use mirror_sync.Base.Text.{Bytes, str, ◌=ˢ◌, is_empty, cut, trim_space, parse_int}
use mirror_sync.Base.Dict.{Dict, insert-All}
use mirror_sync.Model.{Payload, Package, no_checksums}
use mirror_sync.Safe.{rel, join_path}
use mirror_sync.Safe.Inside.{rel-IsName}
use mirror_sync.Apt.Control.{scan_control}
use mirror_sync.Apt.Control.Stanzas.{scan_control-Ensures}
use mirror_sync.Apt.Control.Payloads.{SafeKey}
use mirror_sync.Apk.{Formats, add_apk_payload, verify_apk_payload}

pub record IndexFields : Type 0 where
  pub name : Bytes
  pub version : Bytes
  pub size_text : Bytes
  pub checksum : Bytes

abbrev pub no_fields : IndexFields
no_fields = record { name = []; version = []; size_text = []; checksum = [] }

-- The fields of the entry so far, and the payloads.
abbrev pub IndexScan : Type 0
IndexScan = IndexFields × Dict Payload

unfoldable pub set_index_field : IndexFields → Bytes → Bytes → IndexFields
set_index_field fields key value =
    if key =ˢ str "P"
    then record fields { name = value }
    else if key =ˢ str "V"
    then record fields { version = value }
    else if key =ˢ str "S"
    then record fields { size_text = value }
    else if key =ˢ str "C"
    then record fields { checksum = value }
    else fields

abbrev index_cut : IndexFields → Option (Bytes × Bytes) → IndexFields
index_cut fields none = fields
index_cut fields (some (key, value)) = set_index_field fields key (trim_space value)

unfoldable pub index_line : Bytes → IndexScan → Result String IndexScan
index_line line (fields, out) = ok (index_cut fields (cut line b':'), out)

unfoldable pub indexed_package : Bytes → IndexFields → Result String Package
indexed_package base fields = do
  size ← or_err (parse_int fields.size_text) "size"
  path ← rel (join_path base (fields.name ++ (b'-' ∷ (fields.version ++ str ".apk"))))
  ok (record { path = path; size = size; checksums = no_checksums; apk_hash = fields.checksum })

module _ {Key : Type 0} (formats : Formats Key) (base : Bytes) where
  -- `finish`, with `addAPKPayload` for `yield`; the fields are reset.
  unfoldable pub finish_index : IndexScan → Result String IndexScan
  finish_index (fields, out) =
      let added = do
        pkg ← indexed_package base fields
        ok (no_fields, add_apk_payload formats out pkg)
      in if is_empty fields.name || is_empty fields.version then ok (no_fields, out) else added

  unfoldable pub parse_index : Bytes → Option String → Dict Payload → Result String IndexScan
  parse_index text failure out = scan_control index_line finish_index text failure (no_fields, out)
