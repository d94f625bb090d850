-- ===== src/Apt/Packages.antt =====
-- internal/apt/apt.go: `parsePackages`.
pub mod Safety
use mirror_sync.Base.{
  ℕ, String, Bool, true, false, not, ◌&&◌, ◌||◌, Option, none, some, List, [], ◌∷◌, if◌then◌else◌,
  ◌==◌, Result, ok, err, ◌>>=◌, ◌>>◌, reject_if, or_err,
}
use mirror_sync.Base.Int.{ℤ}
use mirror_sync.Base.Text.{Bytes, str, ◌=ˢ◌, is_empty, contains, cut, trim_space, parse_int}
use mirror_sync.Base.Dict.{Dict, Set}
use mirror_sync.Model
use mirror_sync.Model.{Checksums, no_checksums, Payload, Package}
use mirror_sync.Safe.{rel}
use mirror_sync.Apt.Control.{scan_control, add_payload}

pub record PackageFields : Type 0 where
  pub filename : Bytes
  pub architecture : Bytes
  pub size : Bytes
  pub checksums : Checksums

abbrev pub no_fields : PackageFields
no_fields = record { filename = []; architecture = []; size = []; checksums = no_checksums }

-- The fields of the stanza so far, and what `yield` has collected.
abbrev pub PackageScan : Type 0
PackageScan = PackageFields × Dict Payload

abbrev pub no_names : Set → Bool
no_names [] = true
no_names (x ∷ xs) = false

abbrev pub starts_blank : Bytes → Bool
starts_blank [] = false
starts_blank (c ∷ line) = c == b' ' || c == b'\t'

unfoldable pub package_of : PackageFields → Result String Package
package_of fields = do
  size ← or_err (parse_int fields.size) "Size"
  path ← rel fields.filename
  reject_if (Model.no_digest fields.checksums) "no supported checksum"
  ok (record { path = path; size = size; checksums = fields.checksums; apk_hash = [] })

-- The stanza is not mirrored: it names no file, or is of another architecture.
unfoldable pub skipped : Set → PackageFields → Bool
skipped allowed fields =
    is_empty fields.filename
    || (not (no_names allowed) && not (contains allowed fields.architecture))

-- `finish`, with `addPayload` for `yield`; the fields are reset.
unfoldable pub finish_package : Set → PackageScan → Result String PackageScan
finish_package allowed (fields, out) =
    let added = do pkg ← package_of fields; out' ← add_payload out pkg; ok (no_fields, out')
    in if skipped allowed fields then ok (no_fields, out) else added

unfoldable pub set_package_field : PackageFields → Bytes → Bytes → PackageFields
set_package_field fields name value =
    if name =ˢ str "Filename"
    then record fields { filename = value }
    else if name =ˢ str "Architecture"
    then record fields { architecture = value }
    else if name =ˢ str "Size"
    then record fields { size = value }
    else if name =ˢ str "MD5sum" || name =ˢ str "MD5Sum"
    then record fields { checksums = record (fields.checksums) { md5sum = value } }
    else if name =ˢ str "SHA1"
    then record fields { checksums = record (fields.checksums) { sha1 = value } }
    else if name =ˢ str "SHA256"
    then record fields { checksums = record (fields.checksums) { sha256 = value } }
    else if name =ˢ str "SHA512"
    then record fields { checksums = record (fields.checksums) { sha512 = value } }
    else fields

abbrev field_of_cut : Option (Bytes × Bytes) → PackageFields → PackageFields
field_of_cut none fields = fields
field_of_cut (some (name, value)) fields = set_package_field fields name (trim_space value)

unfoldable pub package_line : Bytes → PackageScan → Result String PackageScan
package_line line (fields, out) =
    if starts_blank line then ok (fields, out) else ok (field_of_cut (cut line b':') fields, out)

unfoldable pub parse_packages :
    Set → Bytes → Option String → Dict Payload → Result String PackageScan
parse_packages allowed text failure out =
    scan_control package_line (finish_package allowed) text failure (no_fields, out)
