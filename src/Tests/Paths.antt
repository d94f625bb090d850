-- ===== src/Tests/Paths.antt =====
-- Paths and checksum tables.
use mirror_sync.Base.{◌≡◌, refl, true, ok, err, All, ◌++◌}
use mirror_sync.Base.Text.{
  Bytes, str, ◌=ˢ◌, has_prefix, cut_prefix, trim_prefix, split, grow, join, equal_fold, to_lower,
  lower,
}
use mirror_sync.Model.{Checksums, no_checksums, set}
use mirror_sync.Safe.{rel, clean, elements, render, push, is_abs, safe_join}
use mirror_sync.Safe.Clean.{IsName}
use mirror_sync.Safe.Inside.{rel-clean, safe_join-inside}

abbrev pool : Bytes
pool = str "pool"

pool_accepted : rel (str "a/../pool") ≡ ok pool
unfolding rel clean elements render push is_abs has_prefix cut_prefix trim_prefix split grow join
    ◌=ˢ◌
pool_accepted = refl

rel_up : rel (str "a/../../etc") ≡ err "unsafe relative path"
unfolding rel clean elements render push is_abs has_prefix cut_prefix trim_prefix split grow join
    ◌=ˢ◌
rel_up = refl

-- Only the first slash is taken away.
rel_absolute : rel (str "//etc/passwd") ≡ ok (str "/etc/passwd")
unfolding rel clean elements render push is_abs has_prefix cut_prefix trim_prefix split grow join
    ◌=ˢ◌
rel_absolute = refl

cleaned_path_is_kept : clean pool ≡ pool
cleaned_path_is_kept = rel-clean (str "a/../pool") pool_accepted

root_is_abs : is_abs (str "/srv") ≡ true
unfolding is_abs has_prefix cut_prefix
root_is_abs = refl

safe_join-inside_example :
    (target : Bytes) × (safe_join (str "/") (str "/srv") (str "a/../pool") ≡ ok target)
    × (elements target ≡ elements (str "/srv") ++ elements pool)
    × All IsName (elements pool)
safe_join-inside_example =
    safe_join-inside (str "/") (str "/srv") (str "a/../pool") root_is_abs pool_accepted

abbrev digests : Checksums
digests = record no_checksums { sha256 = str "ab" }

sha256_spellings : equal_fold (str "SHA256") (str "Sha256") ≡ true
unfolding equal_fold to_lower lower ◌=ˢ◌
sha256_spellings = refl

set_sha256 : (set digests (str "SHA256") (str "cd")).1 ≡ true
unfolding set equal_fold to_lower lower ◌=ˢ◌
set_sha256 = refl
