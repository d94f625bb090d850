-- ===== src/Apt/Checksums.antt =====
-- internal/apt/apt.go and byhash.go: comparison, merging and ranking of checksums.
pub mod Laws
use mirror_sync.Base.{
  ℕ, String, Bool, true, false, not, ◌&&◌, ◌||◌, List, [], ◌∷◌, ◌==◌, if◌then◌else◌, length, Result,
  ok, err, ◌>>◌, reject_if, foldl, suc,
}
use mirror_sync.Base.Text.{Bytes, str, ◌=ˢ◌, is_empty, equal_fold, to_upper, is_hex}
use mirror_sync.Model
use mirror_sync.Model.{Checksums}

-- `checksumFromMap`
unfoldable pub checksum_from_map : Checksums → Bytes → Bytes
unfolding Model.get
checksum_from_map checksums algorithm = Model.get checksums algorithm

abbrev pub algorithms : List Bytes
algorithms = str "SHA512" ∷ str "SHA256" ∷ str "SHA1" ∷ str "MD5Sum" ∷ []

abbrev pub algorithms_and_md5 : List Bytes
algorithms_and_md5 = str "SHA512" ∷ str "SHA256" ∷ str "SHA1" ∷ str "MD5Sum" ∷ str "MD5" ∷ []

-- Both digests are known, and differ.
unfoldable pub clash : Bytes → Bytes → Bool
clash av bv = not (is_empty av) && not (is_empty bv) && not (equal_fold av bv)

unfoldable pub agree_on : List Bytes → Checksums → Checksums → Bool
unfolding checksum_from_map
agree_on [] a b = true
agree_on (alg ∷ algs) a b =
    let rest = agree_on algs a b in
    if clash (checksum_from_map a alg) (checksum_from_map b alg) then false else rest

unfoldable pub same_checksums : Checksums → Checksums → Bool
unfolding agree_on
same_checksums a b =
    if Model.no_digest a && Model.no_digest b then true else agree_on algorithms_and_md5 a b

abbrev pub merge_one : Checksums → Checksums → Bytes → Checksums
merge_one b out name =
    if is_empty (Model.get b name) then out else (Model.set out name (Model.get b name)).0

unfoldable pub merge_checksums : Checksums → Checksums → Checksums
merge_checksums a b =
    foldl (merge_one b) a (str "MD5Sum" ∷ str "SHA1" ∷ str "SHA256" ∷ str "SHA512" ∷ [])

unfoldable pub canonical_checksum_name : Bytes → Bytes
canonical_checksum_name name =
    if equal_fold name (str "MD5sum")
      || equal_fold name (str "MD5Sum")
      || equal_fold name (str "MD5")
    then str "MD5Sum"
    else to_upper name

abbrev pub strongest_of : List Bytes → Checksums → Bytes × Bytes
strongest_of [] c = ([], [])
strongest_of (alg ∷ algs) c =
    let rest = strongest_of algs c in
    if is_empty (checksum_from_map c alg)
    then rest
    else (canonical_checksum_name alg, checksum_from_map c alg)

-- `strongestReleaseChecksum`, of the file's checksums.
unfoldable pub strongest_release_checksum : Checksums → Bytes × Bytes
strongest_release_checksum = strongest_of algorithms_and_md5

unfoldable pub rank_in : List Bytes → ℕ → Bytes → ℕ
unfolding ◌=ˢ◌
rank_in [] i algorithm = 4
rank_in (candidate ∷ rest) i algorithm =
    let later = rank_in rest (suc i) algorithm in if algorithm =ˢ candidate then i else later

unfoldable pub checksum_rank : Bytes → ℕ
unfolding rank_in
checksum_rank = rank_in algorithms 0

-- The digest lengths; 0 for an algorithm that the table lacks.
unfoldable pub digest_length : Bytes → ℕ
unfolding ◌=ˢ◌
digest_length algorithm =
    if algorithm =ˢ str "MD5Sum"
    then 32
    else if algorithm =ˢ str "SHA1"
    then 40
    else if algorithm =ˢ str "SHA256"
    then 64
    else if algorithm =ˢ str "SHA512"
    then 128
    else 0

unfoldable pub validate_by_hash_digest : Bytes → Bytes → Result String (Unit {0})
unfolding digest_length
validate_by_hash_digest algorithm digest = do
  reject_if (digest_length algorithm == 0) "unsupported checksum algorithm"
  reject_if (not (length digest == digest_length algorithm)) "digest length"
  reject_if (not (is_hex digest)) "digest is not hexadecimal"
  ok tt
