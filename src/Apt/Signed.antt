-- ===== src/Apt/Signed.antt =====
-- internal/apt/apt.go: the checks around the OpenPGP signatures: the structure of a clearsigned
-- document, and the armor of a detached signature. Packages openpgp, armor and clearsign are the
-- parameter `OpenPgp`.
pub mod Structure
use mirror_sync.Base.{
  ℕ, String, Bool, true, false, not, ◌&&◌, ◌||◌, Option, none, some, List, [], ◌∷◌, ◌++◌,
  if◌then◌else◌, ◌==◌, ltb, length, Result, ok, err, ◌>>=◌, ◌>>◌, reject_if, any_by,
}
use mirror_sync.Base.Text.{
  Bytes, str, ◌=ˢ◌, is_empty, has_prefix, trim_suffix, trim_space, trim_left, split,
}

-- `bytes.ReplaceAll(data, "\r\n", "\n")`
unfoldable pub crlf_to_lf : Bytes → Bytes
crlf_to_lf [] = []
crlf_to_lf (c ∷ []) = c ∷ []
crlf_to_lf (c ∷ d ∷ s) =
    let joined = b'\n' ∷ crlf_to_lf s in
    let kept = c ∷ crlf_to_lf (d ∷ s) in if c == b'\r' && d == b'\n' then joined else kept

-- What the program calls of the OpenPGP packages, with the repository's keyring.
pub record OpenPgp : Type 0 where
  -- clearsign.Decode: the signed bytes and the signature's body, if there is a document.
  pub decode_clearsigned : Bytes → Option (Bytes × Bytes)
  -- armor.Decode: the block's type, and its body as io.ReadAll reads it.
  pub decode_armor : Bytes → Result String (Bytes × Result String Bytes)
  -- openpgp.CheckDetachedSignature of a message and a signature.
  pub check_detached : Bytes → Bytes → Result String (Unit {0})

abbrev pub signed_begin : Bytes
signed_begin = str "-----BEGIN PGP SIGNED MESSAGE-----"

abbrev pub sig_begin : Bytes
sig_begin = str "-----BEGIN PGP SIGNATURE-----"

abbrev pub sig_end : Bytes
sig_end = str "-----END PGP SIGNATURE-----"

unfoldable pub chomp : Bytes → Bytes
chomp line = trim_suffix line (str "\r")

-- Behind the signature only blank lines.
unfoldable pub clear_trailer : List Bytes → Result String (Unit {0})
clear_trailer [] = ok tt
clear_trailer (l ∷ ls) =
    let rest = clear_trailer ls in
    if is_empty (trim_space (chomp l)) then rest else err "unsigned trailing content"

unfoldable pub clear_signature : List Bytes → Result String (Unit {0})
clear_signature [] = err "signature block was not closed"
clear_signature (l ∷ ls) =
    let rest = clear_signature ls in
    if chomp l =ˢ sig_begin || chomp l =ˢ signed_begin
    then err "multiple signature blocks"
    else if chomp l =ˢ sig_end
    then clear_trailer ls
    else rest

unfoldable pub clear_body : List Bytes → Result String (Unit {0})
clear_body [] = err "missing signature block"
clear_body (l ∷ ls) =
    let rest = clear_body ls in
    if chomp l =ˢ signed_begin
    then err "multiple signed message blocks"
    else if chomp l =ˢ sig_begin
    then clear_signature ls
    else rest

abbrev clear_body_start : List Bytes → Result String (Unit {0})
clear_body_start [] = err "missing signed message body"
clear_body_start (l ∷ ls) = clear_body (l ∷ ls)

unfoldable pub clear_headers : List Bytes → Result String (Unit {0})
clear_headers [] = err "missing signed message body"
clear_headers (l ∷ ls) =
    let rest = clear_headers ls in
    if is_empty (chomp l)
    then clear_body_start ls
    else if has_prefix (chomp l) (str "-----BEGIN PGP ")
    then err "malformed signed message headers"
    else rest

unfoldable pub clear_document : List Bytes → Result String (Unit {0})
clear_document [] = err "does not start with signed message block"
clear_document (l ∷ ls) =
    if chomp l =ˢ signed_begin
    then clear_headers ls
    else err "does not start with signed message block"

unfoldable pub validate_clearsigned_structure : Bytes → Result String (Unit {0})
validate_clearsigned_structure document = clear_document (split (crlf_to_lf document) b'\n')

unfoldable pub without_last : List Bytes → List Bytes
without_last [] = []
without_last (x ∷ []) = []
without_last (x ∷ y ∷ xs) = x ∷ without_last (y ∷ xs)

-- The lines between the first and the last.
unfoldable pub inner : List Bytes → List Bytes
unfolding without_last
inner [] = []
inner (l ∷ ls) = without_last ls

abbrev last_is : Bytes → List Bytes → Bool
last_is end [] = false
last_is end (l ∷ []) = l =ˢ end
last_is end (l ∷ m ∷ ls) = last_is end (m ∷ ls)

abbrev is_checksum : Bytes → Bool
is_checksum (c ∷ d ∷ e ∷ f ∷ g ∷ []) = c == b'='
is_checksum _ = false

-- The loop over the armor's inner lines; the second argument is `checksumSeen`.
unfoldable pub armor_lines : List Bytes → Bool → Result String (Unit {0})
armor_lines [] seen = ok tt
armor_lines (raw ∷ ls) seen =
    let line = trim_space raw in
    let rest = armor_lines ls (seen || is_checksum line) in
    if has_prefix line (str "-----END ") || (seen && not (is_empty line))
    then err "invalid detached signature armor body"
    else rest

unfoldable pub armor_structure : Bytes → Result String (Unit {0})
armor_structure trimmed = do
  reject_if
      (not (has_prefix trimmed (sig_begin ++ str "\n"))
        && not (has_prefix trimmed (sig_begin ++ str "\r\n")))
      "invalid detached signature armor header"
  let normalized = crlf_to_lf (trim_space trimmed)
  reject_if (any_by (λ c. c == b'\r') normalized) "invalid detached signature armor line ending"
  let lines = split normalized b'\n'
  reject_if (ltb (length lines) 4 || not (last_is sig_end lines))
      "invalid detached signature armor footer"
  armor_lines (inner lines) false

module _ (pgp : OpenPgp) where
  unfoldable pub decode_detached : Bytes → Result String Bytes
  decode_detached trimmed = do
    armor_structure trimmed
    (kind, body) ← pgp.decode_armor trimmed
    reject_if (not (kind =ˢ str "PGP SIGNATURE")) "invalid detached signature armor type"
    decoded ← body
    reject_if (is_empty decoded) "empty detached signature armor body"
    ok decoded

  unfoldable pub verify_detached_signature : Bytes → Bytes → Result String (Unit {0})
  verify_detached_signature message signature =
      let trimmed =
        trim_left (λ c. c == b' ' || c == b'\t' || c == b'\r' || c == b'\n') signature in
      let armored = do decoded ← decode_detached trimmed; pgp.check_detached message decoded
      in if has_prefix trimmed (str "-----BEGIN")
        then armored
        else pgp.check_detached message signature

  abbrev checked_block : Option (Bytes × Bytes) → Result String Bytes
  checked_block none = err "not a clearsigned document"
  checked_block (some (text, signature)) = do pgp.check_detached text signature; ok text

  unfoldable pub verify_in_release : Bytes → Result String Bytes
  verify_in_release document = do
    validate_clearsigned_structure document
    checked_block (pgp.decode_clearsigned document)
