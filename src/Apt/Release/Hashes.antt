-- ===== src/Apt/Release/Hashes.antt =====
-- What the checksum sections of a Release leave in the table (`parseReleaseHashes`).
use mirror_sync.Base.{
  ◌≡◌, true, false, List, [], ◌∷◌, arith, All, ok, Result-cases, Option-cases, inl, inr, Ensures,
  ensured, or_default, Bool-cases,
}
use mirror_sync.Base.Int.{ℤ, is_negative, ==ℤ_iff}
use mirror_sync.Base.Text.{Bytes, str, parse_int, trim_suffix, fields, split, is_empty, equal_fold}
use mirror_sync.Base.Dict.{Dict, lookup, insert-All}
use mirror_sync.Model
use mirror_sync.Apt.Release.{
  ReleaseFile, no_file, checksum_header, ends_section, add_hash, hash_entry, hash_lines,
  parse_release_hashes,
}

-- A file of a Release: its size is known and not negative.
abbrev pub IsSized : Bytes × ReleaseFile → Type 0
IsSized e = (e.1.size_set ≡ true) × (is_negative e.1.size ≡ false)

add_hash_lem :
    (existing : ReleaseFile) (name digest : Bytes) (size : ℤ) {f : ReleaseFile}
    → add_hash existing name digest size ≡ ok f
    → (f.size_set ≡ true) × (f.size ≡ size)
unfolding add_hash
add_hash_lem existing name digest size h = ground arith

hash_entry-All :
    (name : Bytes) (parts : List Bytes) (out : Dict ReleaseFile)
    → All IsSized out
    → Ensures (All IsSized) (hash_entry name parts out)
unfolding hash_entry
hash_entry-All name [] out h = tt
hash_entry-All name (a ∷ []) out h = tt
hash_entry-All name (a ∷ b ∷ []) out h = tt
hash_entry-All name (a ∷ b ∷ c ∷ d ∷ ps) out h = tt
hash_entry-All name (digest ∷ size_text ∷ path ∷ []) out h =
    elim (Option-cases (parse_int size_text)) [
      | inl e ↦ rw e tt
      | inr (size, e) ↦ rw e (elim (Bool-cases (is_negative size)) [
        | inl n ↦ rw n tt
        | inr n ↦
            rw n
              (elim (Result-cases
                (add_hash (or_default (lookup path out) no_file) name digest size)) [
                  | inr (_, x) ↦ rw x tt
                  | inl (f, x) ↦ rw x (
                      let l =
                        add_hash_lem (or_default (lookup path out) no_file) name digest size x in
                      insert-All IsSized path f out (l.0, cc (n, l.1)) h)
                ])
      ])
    ]

hash_lines-All :
    (lines : List Bytes) (section : Bytes) (out : Dict ReleaseFile)
    → All IsSized out
    → Ensures (All IsSized) (hash_lines lines section out)
unfolding hash_lines
hash_lines-All [] section out h = h
hash_lines-All (raw ∷ lines) section out h =
    elim (Option-cases (checksum_header (trim_suffix raw (str "\r")))) [
      | inr (name, e) ↦ rw (e, hash_lines) (hash_lines-All lines name out h)
      | inl e ↦ elim (Bool-cases (is_empty section)) [
        | inl b ↦ rw (e, b, hash_lines) (hash_lines-All lines section out h)
        | inr b ↦ elim (Bool-cases (ends_section (trim_suffix raw (str "\r")))) [
          | inl c ↦ rw (e, b, c, hash_lines) (hash_lines-All lines [] out h)
          | inr c ↦
              elim (Result-cases (hash_entry section (fields (trim_suffix raw (str "\r"))) out)) [
                | inr (_, x) ↦ rw (e, b, c, x, hash_lines) tt
                | inl (out', x) ↦
                    rw (e, b, c, x, hash_lines)
                      (hash_lines-All lines section out'
                        (ensured (All IsSized) _ (hash_entry-All section _ out h) x))
              ]
        ]
      ]
    ]

-- Every file that is read from a Release has a size, and no size is negative.
pub parse_release_hashes-IsSized :
    (text : Bytes) {hashes : Dict ReleaseFile}
    → parse_release_hashes text ≡ ok hashes
    → All IsSized hashes
unfolding parse_release_hashes
parse_release_hashes-IsSized text h =
    ensured (All IsSized) _ (hash_lines-All (split text b'\n') [] [] tt) h

-- An accepted line of a checksum section leaves the file with the line's size and, under the
-- section's algorithm, the line's digest; a size that was known is the same, and a digest that was
-- known under the algorithm is the same up to case.
pub add_hash-agrees :
    (existing : ReleaseFile) (name digest : Bytes) (size : ℤ) {f : ReleaseFile}
    → add_hash existing name digest size ≡ ok f
    → (f.size ≡ size)
      × (f.checksums ≡ (Model.set existing.checksums name digest).0)
      × (existing.size_set ≡ true → existing.size ≡ size)
      × (is_empty (Model.get existing.checksums name) ≡ false
          → equal_fold (Model.get existing.checksums name) digest ≡ true)
unfolding add_hash
add_hash-agrees existing name digest size h = ground (arith, ==ℤ_iff existing.size size)
