-- ===== src/Tests/Files.antt =====
-- Requests, downloads, writes and pruning in a world with one server and no failing call.
use mirror_sync.Base.{
  ℕ, ◌≡◌, ◌≢◌, refl, ◌⊎◌, true, false, none, some, ok, [], ◌∷◌, if◌then◌else◌, length, arith,
}
use mirror_sync.Base.Int.{pos}
use mirror_sync.Base.Text.{Bytes, str, ◌=ˢ◌, has_prefix, cut_prefix, trim_prefix, split, grow, join}
use mirror_sync.Base.Text.Laws.{=ˢ_iff}
use mirror_sync.Base.Sort.{sort_strings, Sorted}
use mathlib.Core.List.{Perm}
use mirror_sync.Model.{OperationStats, no_checksums, MetadataFile}
use mirror_sync.Safe.{
  rel, clean, elements, render, push, is_abs, join_path, safe_join, abs, file_rel, strip_common,
}
use mirror_sync.World.{World, Env, Files, regular, set_file, done}
use mirror_sync.World.Hoare.{Post}
use mirror_sync.Publish.{atomic_write, prune, publish_order}
use mirror_sync.Publish.Atomic.{atomic_write-atomic}
use mirror_sync.Publish.Pruning.{doomed, is_doomed, prune_lem}
use mirror_sync.Publish.Order.{in_order, publish_order-Sorted}
use mirror_sync.Httpx.{Client, do_request}
use mirror_sync.Httpx.Permits.{do_request-balanced}
use mirror_sync.Download.{
  ensure_repaired_one, Expected, download_one, download_and_publish, partial,
}
use mirror_sync.Download.Repair.{ensure_repaired_one-safe}
use mirror_sync.Download.Fetch.{Matches, download_one-Matches}
use mirror_sync.Download.Publishing.{Good, download_and_publish-safe}

abbrev fetched : Bytes
fetched = str "content"

abbrev pub env : Env
env = record {
  fails = λ time op path. none;
  answer = λ time url. ok (record { status_code = 200; body = (fetched, none) });
  cancelled = λ time. false;
  decompress = λ kind stream. ok stream;
  digest = λ algorithm content. str "ab";
}

abbrev files : Files
files = set_file (str "/srv/old") (some (regular (str "x"))) (λ path. none)

abbrev pub world : World
world = record { files = files; clock = 0; source_held = 0; global_held = 0 }

-- Two paths that a Boolean test tells apart.
pub apart : (p q : Bytes) → (p =ˢ q) ≡ false → p ≢ q
apart p q h e = ground (arith, =ˢ_iff p q)

abbrev client : Client
client = record {
  url = str "http://host";
  source_limiter = some 2;
  global_limiter = some 8;
  retries = pos 1;
  max_in_flight = pos 2;
}

do_request-balanced_example :
    Post
      (λ (a : Bytes) w'. (w'.source_held ≡ 0) × (w'.global_held ≡ 0) × (w'.files ≡ files))
      (λ w'. (w'.source_held ≡ 0) × (w'.global_held ≡ 0) × (w'.files ≡ files))
      (do_request env client (str "a") (λ resp. done resp.body.0) [] world)
do_request-balanced_example =
    do_request-balanced env client (λ resp. done resp.body.0) (λ f. f ≡ files) (λ a f. f ≡ files)
      (λ resp s g e w h. h) (str "a") [] refl world refl

abbrev expected : Expected
expected = record {
  rel_path = str "a";
  size = pos 7;
  sha256 = str "ab";
  checksums = no_checksums;
  verify = none;
  verify_on_sync = true;
  sources = [];
}

download_one-Matches_example :
    Post
      (λ written w'.
        ((content : Bytes) × (w'.files (str "/stage/a") ≡ some (regular content))
          × Matches env expected content
          × (written ≡ length content))
        × ((q : Bytes) → q ≢ str "/stage/a" → q ≢ partial (str "/stage/a") → w'.files q ≡ files q))
      (λ w'. (q : Bytes) → q ≢ partial (str "/stage/a") → w'.files q ≡ files q)
      (download_one env client expected
        (record { rel_path = str "a"; decompress = [] })
        (str "/stage/a")
        world)
download_one-Matches_example =
    download_one-Matches env client expected (record { rel_path = str "a"; decompress = [] })
      (str "/stage/a") refl world

stage_apart : (str "/stage/a" =ˢ str "/srv/a") ≡ false
unfolding ◌=ˢ◌
stage_apart = refl

partial_apart : (partial (str "/stage/a") =ˢ str "/srv/a") ≡ false
unfolding ◌=ˢ◌
partial_apart = refl

download_and_publish-safe_example :
    Post
      (λ (written : ℕ) w'. Good env expected (str "/srv/a") w'.files)
      (λ w'.
        (w'.files (str "/srv/a") ≡ files (str "/srv/a"))
        ⊎ Good env expected (str "/srv/a") w'.files)
      (download_and_publish env
        (str "/")
        (str "/srv")
        (client ∷ [])
        expected
        (str "/stage/a")
        (str "/srv/a")
        world)
download_and_publish-safe_example =
    download_and_publish-safe env (str "/") (str "/srv") (client ∷ []) expected (str "/stage/a")
      (str "/srv/a") (apart _ _ stage_apart) (apart _ _ partial_apart) (refl, tt) world

pub joined : safe_join (str "/") (str "/srv") (str "a") ≡ ok (str "/srv/a")
unfolding safe_join rel clean elements render push is_abs join_path abs file_rel strip_common
    has_prefix cut_prefix trim_prefix split grow join ◌=ˢ◌
joined = refl

atomic_write-atomic_example :
    Post
      (λ (u : Unit {0}) w'.
        (w'.files (str "/srv/a") ≡ some (regular fetched))
        × ((q : Bytes) → q ≢ str "/srv/a" → q ≢ str "/stage/a" → w'.files q ≡ files q))
      (λ w'.
        ((w'.files (str "/srv/a") ≡ files (str "/srv/a"))
          ⊎ (w'.files (str "/srv/a") ≡ some (regular fetched)))
        × ((q : Bytes) → q ≢ str "/srv/a" → q ≢ str "/stage/a" → w'.files q ≡ files q))
      (atomic_write env
        (str "/")
        (str "/srv")
        (str "/stage")
        (str "/stage/a")
        (str "a")
        fetched
        world)
atomic_write-atomic_example =
    atomic_write-atomic env (str "/") (str "/srv") (str "/stage") (str "/stage/a") (str "a") fetched
      joined (apart _ _ stage_apart) world

prune_lem_example :
    Post
      (λ removed w'.
        (removed ≡ sort_strings (doomed env (str "/srv") [] (str "old" ∷ [])))
        × ((q : Bytes)
            → w'.files q
              ≡ (if is_doomed env (str "/srv") [] (str "old" ∷ []) q then none else files q)))
      (λ w'.
        (q : Bytes)
        → is_doomed env (str "/srv") [] (str "old" ∷ []) q ≡ false
        → w'.files q ≡ files q)
      (prune env (str "/srv") [] (str "old" ∷ []) world)
prune_lem_example = prune_lem env (str "/srv") [] (str "old" ∷ []) world

abbrev in_release : MetadataFile
in_release = record { path = str "dists/s/InRelease"; content = []; signed_last = true }

abbrev index_file : MetadataFile
index_file = record { path = str "dists/s/Packages"; content = []; signed_last = false }

publish_order-Sorted_example :
    Sorted in_order (publish_order (in_release ∷ index_file ∷ []))
    × Perm (publish_order (in_release ∷ index_file ∷ [])) (in_release ∷ index_file ∷ [])
publish_order-Sorted_example = publish_order-Sorted (in_release ∷ index_file ∷ [])

joined_stage :
    safe_join (str "/") (join_path (str "/stage") (str "payloads")) (str "a")
    ≡ ok (str "/stage/payloads/a")
unfolding safe_join rel clean elements render push is_abs join_path abs file_rel strip_common
    has_prefix cut_prefix trim_prefix split grow join ◌=ˢ◌
joined_stage = refl

payload_apart : (str "/stage/payloads/a" =ˢ str "/srv/a") ≡ false
unfolding ◌=ˢ◌
payload_apart = refl

part_apart : (partial (str "/stage/payloads/a") =ˢ str "/srv/a") ≡ false
unfolding ◌=ˢ◌
part_apart = refl

ensure_repaired_one-safe_example :
    Post
      (λ (stats : OperationStats) w'. Good env expected (str "/srv/a") w'.files)
      (λ w'.
        (w'.files (str "/srv/a") ≡ files (str "/srv/a"))
        ⊎ Good env expected (str "/srv/a") w'.files)
      (ensure_repaired_one env (str "/") (str "/srv") (str "/stage") (client ∷ []) expected world)
ensure_repaired_one-safe_example =
    ensure_repaired_one-safe env (str "/") (str "/srv") (str "/stage") (client ∷ []) expected joined
      joined_stage (apart _ _ payload_apart) (apart _ _ part_apart) (refl, tt) world
