-- ===== src/Tests/Copies.antt =====
-- A by-hash copy in the world of one published file.
use mirror_sync.Base.{◌≡◌, refl, false, ok, ◌++◌}
use mirror_sync.Base.Int.{pos}
use mirror_sync.Base.Text.{str, ◌=ˢ◌, has_prefix, cut_prefix, trim_prefix, split, grow, join}
use mirror_sync.Model.{ByHashFile, no_checksums}
use mirror_sync.Safe.{
  rel, clean, elements, render, push, is_abs, join_path, safe_join, abs, file_rel, strip_common,
}
use mirror_sync.World.Hoare.{Post}
use mirror_sync.Publish.ByHash.{materialize_by_hash}
use mirror_sync.Publish.ByHash.Copies.{Fine, Settled, materialize_by_hash-safe}
use mirror_sync.Tests.Files.{env, world, apart, joined}

abbrev copy : ByHashFile
copy = record {
  canonical_path = str "old";
  path = str "a";
  algorithm = str "SHA256";
  digest = str "ab";
  size = pos 1;
  checksums = no_checksums;
}

canonical_joined : safe_join (str "/") (str "/srv") (str "old") ≡ ok (str "/srv/old")
unfolding safe_join rel clean elements render push is_abs join_path abs file_rel strip_common
    has_prefix cut_prefix trim_prefix split grow join ◌=ˢ◌
canonical_joined = refl

staged_joined :
    safe_join (str "/") (join_path (str "/stage") (str "by-hash")) (str "a")
    ≡ ok (str "/stage/by-hash/a")
unfolding safe_join rel clean elements render push is_abs join_path abs file_rel strip_common
    has_prefix cut_prefix trim_prefix split grow join ◌=ˢ◌
staged_joined = refl

staged_apart : (str "/stage/by-hash/a" =ˢ str "/srv/a") ≡ false
unfolding ◌=ˢ◌
staged_apart = refl

partial_apart : ((str "/stage/by-hash/a" ++ str ".partial") =ˢ str "/srv/a") ≡ false
unfolding ◌=ˢ◌
partial_apart = refl

materialize_by_hash-safe_example :
    Post
      (λ _ w'.
        Fine env copy
          (str "/srv/a")
          (str "/stage/by-hash/a")
          (str "/stage/by-hash/a" ++ str ".partial")
          world.files
          w'.files)
      (λ w'.
        Settled env copy
          (str "/srv/a")
          (str "/stage/by-hash/a")
          (str "/stage/by-hash/a" ++ str ".partial")
          world.files
          w'.files)
      (materialize_by_hash env (str "/") (str "/srv") (str "/stage") copy world)
materialize_by_hash-safe_example =
    materialize_by_hash-safe env (str "/") (str "/srv") (str "/stage") copy canonical_joined joined
      staged_joined (apart _ _ staged_apart) (apart _ _ partial_apart) world
