-- ===== src/Apk.antt =====
-- internal/apk/apk.go: the checksum of a package, signed indexes, and the index's entries. What the
-- code calls of packages gzip, tar, pem, x509, rsa and sha1 is the parameter `Formats`.
pub mod Index
pub mod Signature
pub mod Runner
use mirror_sync.Base.{
  ℕ, ◌+◌, ◌-◌, ◌*◌, ◌/◌, ◌%◌, String, Bool, true, false, not, ◌&&◌, ◌||◌, ◌==◌, leb, Option, none,
  some, List, [], ◌∷◌, ◌++◌, if◌then◌else◌, Result, ok, err, ◌>>=◌, ◌>>◌, reject_if, or_err, is_ok,
  filter_by,
}
use mirror_sync.Base.Int.{ℤ}
use mirror_sync.Base.Text.{
  Bytes, str, ◌=ˢ◌, is_empty, has_prefix, has_suffix, trim_prefix, cut, trim_space, parse_int,
}
use mirror_sync.Base.Dict.{Dict, insert}
use mirror_sync.Model.{no_checksums, Payload, Package}
use mirror_sync.Safe.{rel, join_path}
use mirror_sync.Apt.Control.{scan_control}

-- One gzip member: its own bytes, what they decompress to, and the bytes behind it.
pub record Member : Type 0 where
  pub raw : Bytes
  pub content : Bytes
  pub behind : Bytes

-- A tar member as it is read: its name, its bytes, and the error that ends them early.
pub record TarMember : Type 0 where
  pub name : Bytes
  pub content : Bytes
  pub failure : Option String

-- `gunzip` is one gzip member, `untar` the members of a compressed archive up to an error, and
-- `first_member` the first one of a tar file. `parse_pkix` gives a key that need not be RSA.
pub record Formats (Key : Type 0) : Type 0 where
  pub gunzip : Bytes → Option Member
  pub first_member : Bytes → Option TarMember
  pub untar : Bytes → Option (List TarMember × Option String)
  pub pem_block : Bytes → Option Bytes
  pub parse_pkix : Bytes → Option (Option Key)
  pub parse_pkcs1 : Bytes → Option Key
  pub sha1 : Bytes → Bytes
  pub verify_pkcs1v15 : Key → Bytes → Bytes → Bool

-- A character of the standard base64 alphabet.
abbrev pub base64_value : ℕ → Option ℕ
base64_value c =
    if leb b'A' c && leb c b'Z'
    then some (c - b'A')
    else if leb b'a' c && leb c b'z'
    then some (c - b'a' + 26)
    else if leb b'0' c && leb c b'9'
    then some (c - b'0' + 52)
    else if c == b'+'
    then some 62
    else if c == b'/'
    then some 63
    else none

abbrev pub two_digits : Option ℕ → Option ℕ → Option Bytes
two_digits (some a) (some b) = some ((a * 4 + b / 16) ∷ [])
two_digits (some a) none = none
two_digits none b = none

abbrev pub three_digits : Option ℕ → Option ℕ → Option ℕ → Option Bytes
three_digits (some a) (some b) (some c) = some ((a * 4 + b / 16) ∷ (b % 16 * 16 + c / 4) ∷ [])
three_digits (some a) (some b) none = none
three_digits (some a) none c = none
three_digits none b c = none

abbrev pub four_digits : Option ℕ → Option ℕ → Option ℕ → Option ℕ → Option Bytes → Option Bytes
four_digits (some a) (some b) (some c) (some d) (some rest) =
    some ((a * 4 + b / 16) ∷ (b % 16 * 16 + c / 4) ∷ (c % 4 * 64 + d) ∷ rest)
four_digits (some a) (some b) (some c) (some d) none = none
four_digits (some a) (some b) (some c) none rest = none
four_digits (some a) (some b) none d rest = none
four_digits (some a) none c d rest = none
four_digits none b c d rest = none

-- Groups of four digits; the last one is filled up with `=` if `padded`, and is short otherwise.
unfoldable pub base64_groups : Bool → Bytes → Option Bytes
base64_groups padded [] = some []
base64_groups padded (a ∷ []) = none
base64_groups padded (a ∷ b ∷ []) =
    if padded then none else two_digits (base64_value a) (base64_value b)
base64_groups padded (a ∷ b ∷ c ∷ []) =
    if padded then none else three_digits (base64_value a) (base64_value b) (base64_value c)
base64_groups padded (a ∷ b ∷ c ∷ d ∷ rest) =
    let more = base64_groups padded rest in
    if padded && d == b'=' && is_empty rest
    then (if c == b'='
        then two_digits (base64_value a) (base64_value b)
        else three_digits (base64_value a) (base64_value b) (base64_value c))
    else four_digits (base64_value a) (base64_value b) (base64_value c) (base64_value d) more

-- base64.StdEncoding.DecodeString, and that of RawStdEncoding; line ends are skipped.
unfoldable pub decode_base64 : Bool → Bytes → Option Bytes
decode_base64 padded s = base64_groups padded (filter_by (λ c. not (c == b'\n' || c == b'\r')) s)

abbrev or_unpadded : Bytes → Option Bytes → Option Bytes
or_unpadded s (some b) = some b
or_unpadded s none = decode_base64 false s

unfoldable pub decode_apk_checksum : Bytes → Option Bytes
decode_apk_checksum s =
    let t = (if has_prefix s (str "Q1") then trim_prefix s (str "Q1") else s) in
    or_unpadded t (decode_base64 true t)

module _ {Key : Type 0} (formats : Formats Key) where
  -- The hash of a gzip member's own bytes, the name of its first tar member, and what is behind.
  unfoldable pub read_gzip_member_hash : Bytes → Result String (Bytes × Bytes × Bytes)
  read_gzip_member_hash content = do
    m ← or_err (formats.gunzip content) "gzip"
    first ← or_err (formats.first_member m.content) "tar"
    ok (formats.sha1 m.raw, first.name, m.behind)

  unfoldable pub control_segment_sha1 : Bytes → Result String Bytes
  control_segment_sha1 file = do
    first ← read_gzip_member_hash file
    if not (has_prefix first.1 (str ".SIGN."))
        then ok first.0
        else (read_gzip_member_hash first.2 >>= λ second. ok second.0)

  -- A file's content against the checksum of its index entry.
  unfoldable pub verify_apk_payload : Bytes → Bytes → Result String (Unit {0})
  verify_apk_payload file checksum = do
    reject_if (is_empty checksum) "missing APKINDEX C checksum"
    got ← control_segment_sha1 file
    want ← or_err (decode_apk_checksum checksum) "base64"
    reject_if (not (got =ˢ want)) "control checksum mismatch"

  -- The payload carries the check of its content.
  unfoldable pub add_apk_payload : Dict Payload → Package → Dict Payload
  add_apk_payload payloads pkg =
      insert pkg.path
        (record {
          size = pkg.size;
          checksums = no_checksums;
          verify = some (λ file. is_ok (verify_apk_payload file pkg.apk_hash));
        })
        payloads

  abbrev rsa_key : Option (Option Key) → Option Key → Result String Key
  rsa_key (some (some key)) other = ok key
  rsa_key (some none) other = or_err other "unsupported RSA public key"
  rsa_key none other = or_err other "unsupported RSA public key"

  -- The content of the key's file, if it can be read.
  unfoldable pub load_rsa_public_key : Option Bytes → Result String Key
  load_rsa_public_key file = do
    text ← or_err file "read"
    block ← or_err (formats.pem_block text) "invalid PEM public key"
    rsa_key (formats.parse_pkix block) (formats.parse_pkcs1 block)

  abbrev read_all : TarMember → Result String Bytes
  read_all m = elim (m.failure) [ none ↦ ok m.content | some e ↦ err e ]

  -- The signature, the name of its key, and the bytes that it signs.
  unfoldable pub split_signed_gzip_tar : Bytes → Result String (Bytes × Bytes × Bytes)
  split_signed_gzip_tar text = do
    m ← or_err (formats.gunzip text) "gzip"
    first ← or_err (formats.first_member m.content) "tar"
    reject_if
        (not (has_prefix first.name (str ".SIGN.RSA."))
          || not (has_suffix first.name (str ".rsa.pub")))
        "first tar member is not an RSA signature"
    signature ← read_all first
    ok (signature, trim_prefix first.name (str ".SIGN.RSA."), m.behind)

  -- The loop over the members, until the index.
  unfoldable pub find_index :
      {S : Type 0}
      → (TarMember → Result String S)
      → List TarMember
      → Option String
      → Result String S
  find_index consume [] (some e) = err e
  find_index consume [] none = err "APKINDEX member not found"
  find_index consume (m ∷ ms) failure =
      let rest = find_index consume ms failure in
      if m.name =ˢ str "APKINDEX" then consume m else rest

  -- `read` is os.ReadFile.
  unfoldable pub verify_apk_index :
      {S : Type 0}
      → (Bytes → Option Bytes)
      → Bytes
      → Bytes
      → (TarMember → Result String S)
      → Result String S
  verify_apk_index read keys_dir text consume = do
    parts ← split_signed_gzip_tar text
    key ← load_rsa_public_key (read (join_path keys_dir parts.1))
    reject_if (not (formats.verify_pkcs1v15 key (formats.sha1 parts.2) parts.0))
        "verification error"
    members ← or_err (formats.untar parts.2) "gzip"
    find_index consume members.0 members.1
