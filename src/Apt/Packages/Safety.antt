-- ===== src/Apt/Packages/Safety.antt =====
-- The paths that `parsePackages` yields.
use mirror_sync.Base.{
  ◌≡◌, String, Option, arith, All, ok, Result-cases, inl, inr, Ensures, ensured, Bool-cases,
}
use mirror_sync.Base.Text.{Bytes}
use mirror_sync.Base.Dict.{Dict, Set}
use mirror_sync.Model.{Payload, Package}
use mirror_sync.Safe.{rel}
use mirror_sync.Safe.Inside.{rel-IsName}
use mirror_sync.Apt.Control.{add_payload}
use mirror_sync.Apt.Control.Stanzas.{scan_control-Ensures}
use mirror_sync.Apt.Control.Payloads.{SafeKey, add_payload-SafeKey}
use mirror_sync.Apt.Packages.{
  PackageFields, PackageScan, no_fields, package_of, skipped, finish_package, package_line,
  parse_packages,
}

package_of-path :
    (fields : PackageFields) {pkg : Package}
    → package_of fields ≡ ok pkg
    → rel fields.filename ≡ ok pkg.path
unfolding package_of
package_of-path fields h = ground arith

abbrev Safe : PackageScan → Type 0
Safe s = All SafeKey s.1

line_keeps : (l : Bytes) (s : PackageScan) → Safe s → Ensures Safe (package_line l s)
unfolding package_line
line_keeps l (fields, out) h = ground arith

finish_keeps : (allowed : Set) (s : PackageScan) → Safe s → Ensures Safe (finish_package allowed s)
unfolding finish_package
finish_keeps allowed (fields, out) h = elim (Bool-cases (skipped allowed fields)) [
  | inl e ↦ rw e h
  | inr e ↦ rw e (elim (Result-cases (package_of fields)) [
    | inr (_, x) ↦ rw x tt
    | inl (pkg, p) ↦ rw p (elim (Result-cases (add_payload out pkg)) [
      | inr (_, x) ↦ rw x tt
      | inl (out', a) ↦ rw a (
          ensured (All SafeKey) _
            (add_payload-SafeKey out pkg (rel-IsName fields.filename (package_of-path fields p)) h)
            a)
    ])
  ])
]

-- Whatever a Packages index says, each path that it adds to the payloads has only names for
-- elements: joined to the published root it stays below it.
pub parse_packages-SafeKey :
    (allowed : Set) (text : Bytes) (failure : Option String) (out : Dict Payload) {s : PackageScan}
    → All SafeKey out
    → parse_packages allowed text failure out ≡ ok s
    → All SafeKey s.1
unfolding parse_packages
parse_packages-SafeKey allowed text failure out h e =
    ensured Safe _
      (scan_control-Ensures package_line (finish_package allowed) Safe line_keeps
        (finish_keeps allowed) text failure (no_fields, out) h)
      e
