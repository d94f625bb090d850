-- ===== src/Apt/Control.antt =====
-- internal/apt/apt.go: `scanControl`, which cuts a control file into stanzas, and `addPayload`.
pub mod Stanzas
pub mod Payloads
use mirror_sync.Base.{
  ℕ, String, Bool, true, false, not, ◌||◌, Option, none, some, List, [], ◌∷◌, if◌then◌else◌, Result,
  ok, err, ◌>>=◌,
}
use mirror_sync.Base.Int.{◌==ℤ◌}
use mirror_sync.Base.Text.{Bytes, str, is_empty, split, trim_suffix}
use mirror_sync.Base.Dict.{Dict, lookup, insert}
use mirror_sync.Model.{Payload, Package}
use mirror_sync.Apt.Checksums.{same_checksums, merge_checksums}

-- The lines that bufio.Reader.ReadLine returns. A line that a newline ends loses a `\r` too.
abbrev ended_lines : List Bytes → List Bytes
ended_lines [] = []
ended_lines (last ∷ []) = if is_empty last then [] else last ∷ []
ended_lines (line ∷ next ∷ rest) = trim_suffix line (str "\r") ∷ ended_lines (next ∷ rest)

unfoldable pub read_lines : Bytes → List Bytes
read_lines text = ended_lines (split text b'\n')

-- The loop of `scanControl`. The reader ends by end of file, or by the error `failure`; `fields`
-- is `haveFields`; `line` and `finish` act on the state that the callbacks share.
module _ {S : Type 0} (line : Bytes → S → Result String S) (finish : S → Result String S) where
  unfoldable pub end_of_scan : Option String → Bool → S → Result String S
  end_of_scan (some failure) fields s = err failure
  end_of_scan none true s = finish s
  end_of_scan none false s = ok s

  unfoldable pub scan_lines : List Bytes → Option String → Bool → S → Result String S
  scan_lines [] failure fields s = end_of_scan failure fields s
  scan_lines ([] ∷ rest) failure true s = do s' ← finish s; scan_lines rest failure false s'
  scan_lines ([] ∷ rest) failure false s = scan_lines rest failure false s
  scan_lines ((c ∷ raw) ∷ rest) failure fields s = do
    s' ← line (c ∷ raw) s
    scan_lines rest failure true s'

  unfoldable pub scan_control : Bytes → Option String → S → Result String S
  scan_control text failure s = scan_lines (read_lines text) failure false s

abbrev add_found : Option Payload → Dict Payload → Package → Result String (Dict Payload)
add_found none payloads pkg = ok (
    insert pkg.path (record { size = pkg.size; checksums = pkg.checksums; verify = none }) payloads)
add_found (some existing) payloads pkg =
    if not (existing.size ==ℤ pkg.size) || not (same_checksums existing.checksums pkg.checksums)
    then err "conflicting metadata for payload"
    else ok (
        insert pkg.path
          (record existing { checksums = merge_checksums existing.checksums pkg.checksums })
          payloads)

unfoldable pub add_payload : Dict Payload → Package → Result String (Dict Payload)
add_payload payloads pkg = add_found (lookup pkg.path payloads) payloads pkg
