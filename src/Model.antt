-- ===== src/Model.antt =====
-- internal/model/model.go: the values that the components exchange.
pub mod Laws
use mirror_sync.Base.{
  ℕ, ◌+◌, Bool, true, false, ◌&&◌, ◌||◌, Option, none, some, List, [], ◌∷◌, if◌then◌else◌,
}
use mirror_sync.Base.Int.{ℤ}
use mirror_sync.Base.Text.{Bytes, str, is_empty, equal_fold}
use mirror_sync.Base.Dict.{Dict}

pub record Checksums : Type 0 where
  pub md5sum : Bytes
  pub sha1 : Bytes
  pub sha256 : Bytes
  pub sha512 : Bytes

abbrev pub no_checksums : Checksums
no_checksums = record { md5sum = []; sha1 = []; sha256 = []; sha512 = [] }

unfoldable pub get : Checksums → Bytes → Bytes
get c algorithm =
    if equal_fold algorithm (str "MD5") || equal_fold algorithm (str "MD5Sum")
    then c.md5sum
    else if equal_fold algorithm (str "SHA1")
    then c.sha1
    else if equal_fold algorithm (str "SHA256")
    then c.sha256
    else if equal_fold algorithm (str "SHA512")
    then c.sha512
    else []

-- The new value of the receiver, and the result.
unfoldable pub set : Checksums → Bytes → Bytes → Checksums × Bool
set c algorithm value =
    if equal_fold algorithm (str "MD5") || equal_fold algorithm (str "MD5Sum")
    then (record c { md5sum = value }, true)
    else if equal_fold algorithm (str "SHA1")
    then (record c { sha1 = value }, true)
    else if equal_fold algorithm (str "SHA256")
    then (record c { sha256 = value }, true)
    else if equal_fold algorithm (str "SHA512")
    then (record c { sha512 = value }, true)
    else (c, false)

-- `Set` on a pointer, which may be nil.
unfoldable pub set_at : Option Checksums → Bytes → Bytes → Option Checksums × Bool
unfolding set
set_at none algorithm value = (none, false)
set_at (some c) algorithm value = let (c', done) = set c algorithm value in (some c', done)

unfoldable pub no_digest : Checksums → Bool
no_digest c = is_empty c.md5sum && is_empty c.sha1 && is_empty c.sha256 && is_empty c.sha512

-- `verify` is the check of a file's content that an APK payload carries.
pub record Payload : Type 0 where
  pub size : ℤ
  pub checksums : Checksums
  pub verify : Option (Bytes → Bool)

pub record Package : Type 0 where
  pub path : Bytes
  pub size : ℤ
  pub checksums : Checksums
  pub apk_hash : Bytes

pub record MetadataFile : Type 0 where
  pub path : Bytes
  pub content : Bytes
  pub signed_last : Bool

pub record RepositoryFile : Type 0 where
  pub path : Bytes
  pub size : ℤ
  pub checksums : Checksums

pub record ByHashFile : Type 0 where
  pub canonical_path : Bytes
  pub path : Bytes
  pub algorithm : Bytes
  pub digest : Bytes
  pub size : ℤ
  pub checksums : Checksums

pub record RepositoryState : Type 0 where
  pub metadata : List MetadataFile
  pub selected_files : List RepositoryFile
  pub files : List RepositoryFile
  pub by_hash_files : List ByHashFile
  pub by_hash_enabled : Dict Bool
  pub release_fingerprints : Dict Bytes
  pub packages : Dict Payload

pub record OperationStats : Type 0 where
  pub files_checked : ℕ
  pub files_reused : ℕ
  pub files_downloaded : ℕ
  pub files_repaired : ℕ
  pub bytes_downloaded : ℕ
  pub files_pruned : ℕ

abbrev pub no_stats : OperationStats
no_stats = record {
  files_checked = 0;
  files_reused = 0;
  files_downloaded = 0;
  files_repaired = 0;
  bytes_downloaded = 0;
  files_pruned = 0;
}

unfoldable pub add_stats : OperationStats → OperationStats → OperationStats
add_stats s other = record {
  files_checked = s.files_checked + other.files_checked;
  files_reused = s.files_reused + other.files_reused;
  files_downloaded = s.files_downloaded + other.files_downloaded;
  files_repaired = s.files_repaired + other.files_repaired;
  bytes_downloaded = s.bytes_downloaded + other.bytes_downloaded;
  files_pruned = s.files_pruned + other.files_pruned;
}
