-- ===== src/Tests/Alpine.antt =====
-- An Alpine index with one package, and archives of one member.
use mirror_sync.Base.{
  ℕ, ◌≡◌, ◌≢◌, ◌↔◌, refl, Bool, true, false, Option, none, some, if◌then◌else◌, List, [], ◌∷◌, ok,
  err, Result, String, All, length,
}
use mirror_sync.Base.Int.{pos}
use mirror_sync.Base.Text.{
  Bytes, str, ◌=ˢ◌, has_prefix, has_suffix, cut_prefix, trim_prefix, split, grow, join, trim_suffix,
  trim_space, trim_right, trim_left, is_space, cut, parse_int, parse_unsigned, parse_digits,
  is_digit,
}
use mirror_sync.Base.Dict.{insert}
use mirror_sync.Model.{no_checksums}
use mirror_sync.Safe.{is_abs, push, elements, render, clean, join_path, rel}
use mirror_sync.World.{World, regular}
use mirror_sync.World.Hoare.{Post}
use mirror_sync.World.Keeps.{Unchanged}
use mirror_sync.Apt.Control.{scan_control, scan_lines, end_of_scan, read_lines}
use mirror_sync.Apk.{
  Formats, TarMember, Member, verify_apk_payload, verify_apk_index, split_signed_gzip_tar,
  load_rsa_public_key, find_index, add_apk_payload, decode_apk_checksum, decode_base64,
  base64_groups,
}
use mirror_sync.Apk.Index.{
  IndexScan, no_fields, parse_index, index_line, finish_index, indexed_package, set_index_field,
}
use mirror_sync.Apk.Index.Entries.{AddAll, parse_index-AddAll}
use mirror_sync.Apt.Control.Stanzas.{stanzas}
use mirror_sync.Apk.Signature.{
  IsControlSegment, Decodes, SignedUse, verify_apk_index_lem, verify_apk_payload_iff,
}
use mirror_sync.Apk.Runner.{Setup, no_state, fetch_state, prune_repository}
use mirror_sync.Apk.Runner.State.{FromServer, GathersAll, places, fetch_state-Trusted}
use mirror_sync.Apk.Runner.Pruning.{PrunedTo, Spares, prune_repository_lem}
use mirror_sync.Tests.Settings.{host, settings, apk_repo}
use mirror_sync.Tests.Files.{env, world}

abbrev member : TarMember
member = record { name = str ".SIGN.RSA.k.rsa.pub"; content = str "sig"; failure = none }

abbrev index_member : TarMember
index_member = record {
  name = str "APKINDEX";
  content = str "P:a\nV:1\nS:5\nC:Q1YQ==\n";
  failure = none;
}

-- Each file is one member whose bytes are its content; every signature is valid.
abbrev formats : Formats ℕ
formats = record {
  gunzip = λ text. some (record { raw = str "a"; content = text; behind = str "signed" });
  first_member = λ text. some member;
  untar = λ text. some (index_member ∷ [], none);
  pem_block = some;
  parse_pkix = λ block. some (some 7);
  parse_pkcs1 = λ block. none;
  sha1 = λ text. str "a";
  verify_pkcs1v15 = λ key hash signature. true;
}

decodes : decode_apk_checksum (str "Q1YQ==") ≡ some (str "a")
unfolding decode_apk_checksum has_prefix trim_prefix cut_prefix decode_base64 base64_groups
decodes = refl

decodes_unpadded : decode_apk_checksum (str "Q1YWI") ≡ some (str "ab")
unfolding decode_apk_checksum has_prefix trim_prefix cut_prefix decode_base64 base64_groups
decodes_unpadded = refl

abbrev scanned : IndexScan
scanned = (
  no_fields,
  (
    str "v/a-1.apk",
    record {
      size = pos 5;
      checksums = no_checksums;
      verify =
          some (λ file. mirror_sync.Base.is_ok (verify_apk_payload formats file (str "Q1YQ==")));
    },
  )
      ∷ [],
)

parses : parse_index formats (str "v") index_member.content none [] ≡ ok scanned
unfolding parse_index scan_control scan_lines end_of_scan read_lines split grow trim_suffix
    trim_prefix cut_prefix index_line set_index_field cut trim_space trim_right trim_left is_space
    finish_index indexed_package add_apk_payload insert parse_int parse_unsigned parse_digits
    is_digit rel clean is_abs elements render push join join_path has_prefix ◌=ˢ◌
parses = refl

stanzas_are_added :
    AddAll formats (str "v") (stanzas (read_lines index_member.content)) [] scanned.1
stanzas_are_added = parse_index-AddAll formats (str "v") index_member.content none [] parses

abbrev read : Bytes → Option Bytes
read p = some p

abbrev consume : TarMember → Result String Bytes
consume m = ok m.content

accepted : verify_apk_index formats read (str "/k") (str "file") consume ≡ ok index_member.content
unfolding verify_apk_index split_signed_gzip_tar load_rsa_public_key find_index has_prefix
    has_suffix cut_prefix ◌=ˢ◌
accepted = refl

signed_use : SignedUse formats consume read (str "/k") (str "file") index_member.content
signed_use = verify_apk_index_lem formats consume read (str "/k") (str "file") accepted

verify_apk_payload_iff_example :
    (verify_apk_payload formats (str "file") (str "Q1YQ==") ≡ ok tt) ↔ (
      (str "Q1YQ==" ≢ [])
      × ((segment : Member) × IsControlSegment formats (str "file") segment
          × Decodes (str "Q1YQ==") (formats.sha1 segment.raw)))
verify_apk_payload_iff_example = verify_apk_payload_iff formats (str "file") (str "Q1YQ==")

abbrev setup : Setup ℕ
setup = record {
  env = env;
  host = host;
  formats = formats;
  config = settings;
  repo = record apk_repo { abs_publish_path = str "/srv"; abs_keys_dir = str "/k" };
  global_limiter = some 4;
  walk = str "x" ∷ str "v/main/all/APKINDEX.tar.gz" ∷ str "v/main/all/a-1.apk" ∷ [];
  names = λ p. p;
}

-- The key, and an index below the published root.
abbrev alpine_world : World
alpine_world = record world {
  files = λ p.
      if p =ˢ str "/k/k.rsa.pub"
      then some (regular (str "key"))
      else if p =ˢ str "/srv/v/main/all/APKINDEX.tar.gz"
      then some (regular (str "index"))
      else none;
}

fetch_state-Trusted_example :
    Post
      (λ s w'.
        GathersAll setup alpine_world.files
          (FromServer setup alpine_world.files)
          (places setup.repo.architectures setup.repo.versions)
          no_state
          s
        × Unchanged alpine_world.files w'.files)
      (λ w'. Unchanged alpine_world.files w'.files)
      (fetch_state setup alpine_world)
fetch_state-Trusted_example = fetch_state-Trusted setup alpine_world refl

prune_repository_lem_example :
    Post
      (PrunedTo setup alpine_world)
      (Spares setup alpine_world)
      (prune_repository setup alpine_world)
prune_repository_lem_example = prune_repository_lem setup alpine_world
