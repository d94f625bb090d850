-- ===== src/Apt/Control/Payloads.antt =====
-- What `addPayload` leaves in the payload map.
use mirror_sync.Base.{
  ◌≡◌, refl, true, not, ◌||◌, Option, none, some, arith, All, ok, err, if◌then◌else◌, Ensures,
  Ensures-if,
}
use mirror_sync.Base.Int.{◌==ℤ◌, ==ℤ_iff}
use mirror_sync.Base.Text.{Bytes, ◌=ˢ◌}
use mirror_sync.Base.Dict.{Dict, lookup, insert, lookup-insert, insert-All}
use mirror_sync.Model.{Payload, Package}
use mirror_sync.Safe.{elements}
use mirror_sync.Safe.Clean.{IsName}
use mirror_sync.Apt.Checksums.{same_checksums, merge_checksums}
use mirror_sync.Apt.Checksums.Laws.{
  Compatible, combined, same_checksums-Compatible, merge_checksums-combined,
}
use mirror_sync.Apt.Control.{add_found, add_payload}

-- What an earlier payload of the same path must be for the package to be accepted.
abbrev pub Agrees : Option Payload → Package → Type 0
Agrees none pkg = Unit
Agrees (some p) pkg = (p.size ≡ pkg.size) × Compatible p.checksums pkg.checksums

-- The payload behind the call: that of the package, with the digests known before.
abbrev pub merged : Option Payload → Package → Payload
merged none pkg = record { size = pkg.size; checksums = pkg.checksums; verify = none }
merged (some p) pkg = record p { checksums = combined p.checksums pkg.checksums }

found_lem :
    (old : Option Payload) (m : Dict Payload) (pkg : Package) {m' : Dict Payload}
    → add_found old m pkg ≡ ok m'
    → Agrees old pkg × (m' ≡ insert pkg.path (merged old pkg) m)
found_lem none m pkg h = ground arith
found_lem (some p) m pkg h =
    let size : p.size ≡ pkg.size = ground (arith, ==ℤ_iff p.size pkg.size) in
    let same : same_checksums p.checksums pkg.checksums ≡ true = ground arith in
    let merge = merge_checksums-combined p.checksums pkg.checksums in
    ((size, (same_checksums-Compatible p.checksums pkg.checksums).0 same), ground (arith, merge))

-- An accepted package has the size of the payload known for its path, if there is one, and no
-- digest that differs from one known for the same algorithm. The payload then has the package's
-- digests, and those known before of the other algorithms; the payloads of all other paths are as
-- before.
pub add_payload_lem :
    (m : Dict Payload) (pkg : Package) (k : Bytes) {m' : Dict Payload}
    → add_payload m pkg ≡ ok m'
    → Agrees (lookup pkg.path m) pkg
      × (lookup k m'
          ≡ (if pkg.path =ˢ k then some (merged (lookup pkg.path m) pkg) else lookup k m))
unfolding add_payload
add_payload_lem m pkg k {m'} h =
    let (agrees, e) = found_lem (lookup pkg.path m) m pkg h in
    (agrees, rw e (lookup-insert pkg.path k (merged (lookup pkg.path m) pkg) m))

-- Conversely, a package that agrees with what is known is accepted.
pub add_payload_complete :
    (m : Dict Payload) (pkg : Package)
    → Agrees (lookup pkg.path m) pkg
    → add_payload m pkg ≡ ok (insert pkg.path (merged (lookup pkg.path m) pkg) m)
unfolding add_payload
add_payload_complete m pkg h = go (lookup pkg.path m) h
  where
    go :
        (old : Option Payload)
        → Agrees old pkg
        → add_found old m pkg ≡ ok (insert pkg.path (merged old pkg) m)
    go none _ = refl
    go (some p) (size, h) =
        let same = (same_checksums-Compatible p.checksums pkg.checksums).1 h in
        let merge = merge_checksums-combined p.checksums pkg.checksums in
        ground (arith, ==ℤ_iff p.size pkg.size, same, merge)

-- A key of the payload map that names a file below the root.
abbrev pub SafeKey : Bytes × Payload → Type 0
SafeKey e = All IsName (elements e.0)

pub add_payload-SafeKey :
    (m : Dict Payload) (pkg : Package)
    → All IsName (elements pkg.path)
    → All SafeKey m
    → Ensures (All SafeKey) (add_payload m pkg)
unfolding add_payload
add_payload-SafeKey m pkg p h = go (lookup pkg.path m)
  where
    go : (old : Option Payload) → Ensures (All SafeKey) (add_found old m pkg)
    go none = insert-All SafeKey pkg.path _ m p h
    go (some q) =
        Ensures-if (All SafeKey)
          (not (q.size ==ℤ pkg.size) || not (same_checksums q.checksums pkg.checksums))
          (err "conflicting metadata for payload")
          (ok (
            insert pkg.path (record q { checksums = merge_checksums q.checksums pkg.checksums }) m))
          (λ _. tt) (λ _. insert-All SafeKey pkg.path _ m p h)
