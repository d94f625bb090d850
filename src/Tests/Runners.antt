-- ===== src/Tests/Runners.antt =====
-- The runner of an apt repository whose published root holds two by-hash files and a payload.
use mirror_sync.Base.{
  ◌||◌, ◌≡◌, ◌≢◌, refl, true, false, if◌then◌else◌, none, some, ok, err, [], ◌∷◌, arith,
}
use mirror_sync.Base.Int.{pos}
use mirror_sync.Base.Text.{
  Bytes, str, ◌=ˢ◌, has_prefix, cut_prefix, trim_prefix, trim_right, split, grow, join,
}
use mirror_sync.Base.Text.Laws.{=ˢ_iff}
use mirror_sync.Model.{RepositoryState, no_checksums}
use mirror_sync.Safe.{
  rel, clean, elements, render, push, is_abs, join_path, join_all, safe_join, abs, file_rel,
  strip_common, path_dir,
}
use mirror_sync.World.{World, regular}
use mirror_sync.World.Hoare.{Post}
use mirror_sync.Apt.Signed.{OpenPgp}
use mirror_sync.Apt.History.{empty_by_hash_history}
use mirror_sync.Apt.Runner.{Setup, no_state, repo_staging}
use mirror_sync.Apt.Runner.Fetch.{fetch_state}
use mirror_sync.Apt.Runner.Published.{read_published_state}
use mirror_sync.Apt.Runner.Published.Trust.{read_published_state-FromKeyring}
use mirror_sync.Apt.Runner.Trust.{FromKeyring, fetch_state-FromKeyring}
use mirror_sync.Apt.Runner.Manifest.{
  by_hash_history_path, history_file, write_by_hash_history, Loads, write-load_by_hash_history,
}
use mirror_sync.Apt.Runner.Keep.{prune_state_with_history}
use mirror_sync.Apt.Runner.Pruning.{PrunedTo, Spares, prune_state_with_history_lem}
use mirror_sync.Tests.Settings.{host, settings, apt_repo}
use mirror_sync.Tests.Files.{env, world}

abbrev pgp : OpenPgp
pgp = record {
  decode_clearsigned = λ text. some (text, text);
  decode_armor = λ text. err "armor";
  check_detached = λ message sig. ok tt;
}

abbrev setup : Setup
setup = record {
  env = env;
  host = host;
  config = settings;
  repo = record apt_repo { abs_publish_path = str "/srv"; abs_keyring = str "/w/k" };
  global_limiter = some 8;
  read_key_ring = λ content. ok pgp;
  decode_history = λ content. some empty_by_hash_history;
  encode_history = λ history. str "{}";
  encode_resolved = λ state. str "{}";
  decode_resolved = λ content. none;
  walk = str "dists/s/main/by-hash/SHA256/ab" ∷ str "pool/a.deb" ∷ str "pool/b.deb" ∷ [];
  names = λ name. str "/s/repos/apt/d/.tmp";
}

abbrev keyring_world : World
keyring_world = record world { files = λ p. if p =ˢ str "/w/k" then some (regular []) else none }

fetch_state-FromKeyring_example :
    Post (λ s _. FromKeyring setup keyring_world s) (λ _. Unit) (fetch_state setup keyring_world)
fetch_state-FromKeyring_example = fetch_state-FromKeyring setup keyring_world

abbrev packages_text : Bytes
packages_text = str "Package: a\nArchitecture: all\nFilename: pool/a\nSize: 7\nSHA256: ab\n"

abbrev release_text : Bytes
release_text = str "SHA256:\n ab 65 main/binary-all/Packages\n"

-- The keyring, a Release with its signature, and the index that it lists.
abbrev published_world : World
published_world = record world {
  files = λ p.
      if p =ˢ str "/w/k"
      then some (regular [])
      else if p =ˢ str "/srv/dists/s/Release" || p =ˢ str "/srv/dists/s/Release.gpg"
      then some (regular release_text)
      else if p =ˢ str "/srv/dists/s/main/binary-all/Packages"
      then some (regular packages_text)
      else none;
}

read_published_state-FromKeyring_example :
    Post
      (λ s _. FromKeyring setup published_world s)
      (λ _. Unit)
      (read_published_state setup published_world)
read_published_state-FromKeyring_example = read_published_state-FromKeyring setup published_world

abbrev state : RepositoryState
state = record no_state {
  files = record { path = str "pool/a.deb"; size = pos 7; checksums = no_checksums } ∷ [];
}

prune_state_with_history_lem_example :
    Post
      (PrunedTo setup state empty_by_hash_history true world)
      (Spares setup state empty_by_hash_history true world)
      (prune_state_with_history setup state empty_by_hash_history true world)
prune_state_with_history_lem_example =
    prune_state_with_history_lem setup state empty_by_hash_history true world

joined :
    safe_join host.cwd (path_dir (by_hash_history_path setup)) history_file
    ≡ ok (by_hash_history_path setup)
unfolding safe_join trim_right rel clean elements render push is_abs join_path join_all abs file_rel
    strip_common path_dir has_prefix cut_prefix trim_prefix split grow join ◌=ˢ◌
    by_hash_history_path repo_staging
joined = refl

tells_apart : (str "/s/repos/apt/d/.tmp" =ˢ by_hash_history_path setup) ≡ false
unfolding trim_right clean elements render push is_abs join_path join_all has_prefix cut_prefix
    trim_prefix split grow join ◌=ˢ◌ by_hash_history_path repo_staging
tells_apart = refl

distinct : (p q : Bytes) → (p =ˢ q) ≡ false → p ≢ q
distinct p q h e = ground (arith, =ˢ_iff p q)

write-load_by_hash_history_example :
    Post
      (λ _ w'. Loads setup empty_by_hash_history w')
      (λ _. Unit)
      (write_by_hash_history setup empty_by_hash_history world)
write-load_by_hash_history_example =
    write-load_by_hash_history setup empty_by_hash_history refl joined
      (distinct (str "/s/repos/apt/d/.tmp") (by_hash_history_path setup) tells_apart) refl world
