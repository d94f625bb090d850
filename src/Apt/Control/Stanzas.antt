-- ===== src/Apt/Control/Stanzas.antt =====
-- `scanControl` runs the line callback on each line of each stanza, and the finish callback once
-- behind each stanza, whatever number of blank lines lies between them.
use mirror_sync.Base.{
  ◌≡◌, refl, String, Bool, true, false, Option, none, some, List, [], ◌∷◌, Result, ok, ◌>>=◌,
  Result-cases, inl, inr, Ensures, ensured,
}
use mirror_sync.Base.Text.{Bytes}
use mirror_sync.Apt.Control.{scan_lines, end_of_scan, scan_control, read_lines}

abbrev pub flush : List Bytes × List (List Bytes) → List (List Bytes)
flush ([], later) = later
flush (l ∷ ls, later) = (l ∷ ls) ∷ later

-- The lines up to the first blank one, and the stanzas behind them.
abbrev pub groups : List Bytes → List Bytes × List (List Bytes)
groups [] = ([], [])
groups ([] ∷ ls) = ([], flush (groups ls))
groups ((c ∷ l) ∷ ls) = ((c ∷ l) ∷ (groups ls).0, (groups ls).1)

-- The stanzas of a file: the runs of lines that are not blank.
abbrev pub stanzas : List Bytes → List (List Bytes)
stanzas ls = flush (groups ls)

module _ {S : Type 0} (line : Bytes → S → Result String S) (finish : S → Result String S) where
  unfoldable pub run_lines : List Bytes → S → Result String S
  run_lines [] s = finish s
  run_lines (l ∷ ls) s = do s' ← line l s; run_lines ls s'

  -- Each stanza in turn.
  unfoldable pub run_stanzas : List (List Bytes) → S → Result String S
  run_stanzas [] s = ok s
  run_stanzas (ls ∷ rest) s = do s' ← run_lines ls s; run_stanzas rest s'

  mutual
    unfolding run_stanzas run_lines scan_lines end_of_scan

    scan_outside :
        (ls : List Bytes) (s : S)
        → scan_lines line finish ls none false s ≡ run_stanzas (flush (groups ls)) s
    scan_outside [] s = refl
    scan_outside ([] ∷ ls) s = scan_outside ls s
    scan_outside ((c ∷ l) ∷ ls) s = elim (Result-cases (line (c ∷ l) s)) [
      | inl (s', e) ↦ rw e (scan_inside ls s')
      | inr (x, e) ↦ rw e refl
    ]

    scan_inside :
        (ls : List Bytes) (s : S)
        → scan_lines line finish ls none true s
          ≡ (run_lines (groups ls).0 s >>= λ s'. run_stanzas (groups ls).1 s')
    scan_inside [] s = elim (Result-cases (finish s)) [
      | inl (s', e) ↦ rw e refl
      | inr (x, e) ↦ rw e refl
    ]
    scan_inside ([] ∷ ls) s = elim (Result-cases (finish s)) [
      | inl (s', e) ↦ rw e (scan_outside ls s')
      | inr (x, e) ↦ rw e refl
    ]
    scan_inside ((c ∷ l) ∷ ls) s = elim (Result-cases (line (c ∷ l) s)) [
      | inl (s', e) ↦ rw e (scan_inside ls s')
      | inr (x, e) ↦ rw e refl
    ]

  -- A scan that reads to the end of the file is the run of its stanzas, one after another.
  pub scan_control-stanzas :
      (text : Bytes) (s : S)
      → scan_control line finish text none s ≡ run_stanzas (stanzas (read_lines text)) s
  unfolding scan_control
  scan_control-stanzas text s = scan_outside (read_lines text) s

  -- What holds at the start and is kept by both callbacks holds of every result.
  module _ (P : S → Type 0) (line_keeps : (l : Bytes) (s : S) → P s → Ensures P (line l s))
      (finish_keeps : (s : S) → P s → Ensures P (finish s)) where
    scan_lines-Ensures :
        (ls : List Bytes) (failure : Option String) (fields : Bool) (s : S)
        → P s
        → Ensures P (scan_lines line finish ls failure fields s)
    unfolding scan_lines end_of_scan
    scan_lines-Ensures [] (some x) fields s p = tt
    scan_lines-Ensures [] none true s p = finish_keeps s p
    scan_lines-Ensures [] none false s p = p
    scan_lines-Ensures ([] ∷ ls) failure true s p = elim (Result-cases (finish s)) [
      | inl (s', e) ↦
          rw e (scan_lines-Ensures ls failure false s' (ensured P (finish s) (finish_keeps s p) e))
      | inr (x, e) ↦ rw e tt
    ]
    scan_lines-Ensures ([] ∷ ls) failure false s p = scan_lines-Ensures ls failure false s p
    scan_lines-Ensures ((c ∷ l) ∷ ls) failure fields s p = elim (Result-cases (line (c ∷ l) s)) [
      | inl (s', e) ↦ rw e (
          scan_lines-Ensures ls failure true s'
            (ensured P (line (c ∷ l) s) (line_keeps (c ∷ l) s p) e))
      | inr (x, e) ↦ rw e tt
    ]

    pub scan_control-Ensures :
        (text : Bytes) (failure : Option String) (s : S)
        → P s
        → Ensures P (scan_control line finish text failure s)
    unfolding scan_control
    scan_control-Ensures text failure s p = scan_lines-Ensures (read_lines text) failure false s p
