-- ===== src/Apk/Index/Entries.antt =====
-- What `parseIndex` of internal/apk/apk.go adds, by the stanzas of the index.
use mirror_sync.Base.{
  ◌≡◌, refl, ◌∙◌, sym, ap, ◌⊎◌, inl, inr, String, Bool, true, false, ◌||◌, Option, none, some, List,
  [], ◌∷◌, ◌++◌, arith, if◌then◌else◌, ok, Result-cases, Option-cases, Bool-cases, is_ok, subst,
  ok-injective,
}
use mirror_sync.Base.Text.{Bytes, str, ◌=ˢ◌, is_empty, cut, trim_space, parse_int}
use mirror_sync.Base.Text.Laws.{=ˢ_iff}
use mirror_sync.Base.Dict.{Dict, insert}
use mirror_sync.Model.{Payload, no_checksums}
use mirror_sync.Safe.{rel, join_path}
use mirror_sync.Safe.Inside.{rel-IsName}
use mirror_sync.Apt.Control.Payloads.{SafeKey}
use mirror_sync.Apt.Control.{scan_control, scan_lines, end_of_scan, read_lines}
use mirror_sync.Apt.Control.Stanzas.{stanzas, run_lines, run_stanzas, scan_control-stanzas}
use mirror_sync.Apk.{Formats, add_apk_payload, verify_apk_payload}
use mirror_sync.Apk.Index.{
  IndexFields, IndexScan, no_fields, set_index_field, index_cut, index_line, indexed_package,
  finish_index, parse_index,
}

abbrev pub newer : Bytes → Bytes → Option (Bytes × Bytes) → Bytes
newer key old none = old
newer key old (some (k, value)) = if k =ˢ key then trim_space value else old

-- The value of a key in the lines of a stanza: that of the last line with the key.
abbrev pub last_value : Bytes → Bytes → List Bytes → Bytes
last_value key old [] = old
last_value key old (line ∷ lines) = last_value key (newer key old (cut line b':')) lines

abbrev pub value_of : Bytes → List Bytes → Bytes
value_of key lines = last_value key [] lines

abbrev fold_fields : IndexFields → List Bytes → IndexFields
fold_fields fields [] = fields
fold_fields fields (line ∷ lines) = fold_fields (index_cut fields (cut line b':')) lines

module _ {Key : Type 0} (formats : Formats Key) (base : Bytes) where
  -- The payload of a package: its path has the name and the version and only names for elements,
  -- its size is the number, and
  -- its content is checked against the checksum.
  abbrev pub IsPackage : Bytes → Bytes → Bytes → Bytes → Bytes → Payload → Type 0
  IsPackage name version size checksum path payload =
      (rel (join_path base (name ++ (b'-' ∷ (version ++ str ".apk")))) ≡ ok path)
      × (parse_int size ≡ some payload.size)
      × SafeKey (path, payload)
      × (payload.checksums ≡ no_checksums)
      × (payload.verify ≡ some (λ file. is_ok (verify_apk_payload formats file checksum)))

  abbrev pub AddsPackage : Bytes → Bytes → Bytes → Bytes → Dict Payload → Dict Payload → Type 0
  AddsPackage name version size checksum out out' =
      (((is_empty name || is_empty version) ≡ true) × (out' ≡ out))
      ⊎ (((is_empty name || is_empty version) ≡ false)
          × ((path : Bytes) × (payload : Payload) × IsPackage name version size checksum path
                payload
              × (out' ≡ insert path payload out)))

  -- A stanza adds the package with its values of P, V, S and C; one without a name or a version
  -- adds nothing.
  abbrev pub Adds : List Bytes → Dict Payload → Dict Payload → Type 0
  Adds lines =
      AddsPackage (value_of (str "P") lines) (value_of (str "V") lines) (value_of (str "S") lines)
        (value_of (str "C") lines)

  -- The stanzas of an index add their packages one after another.
  abbrev pub AddAll : List (List Bytes) → Dict Payload → Dict Payload → Type 0
  AddAll [] out out' = out' ≡ out
  AddAll (lines ∷ rest) out out' = (mid : Dict Payload) × Adds lines out mid × AddAll rest mid out'

  run_lines-fold :
      (lines : List Bytes) (fields : IndexFields) (out : Dict Payload)
      → run_lines index_line (finish_index formats base) lines (fields, out)
        ≡ finish_index formats base (fold_fields fields lines, out)
  unfolding index_line run_lines
  run_lines-fold [] fields out = refl
  run_lines-fold (line ∷ lines) fields out =
      run_lines-fold lines (index_cut fields (cut line b':')) out

-- The fields of a stanza are the last values of their keys.
abbrev Tells : IndexFields → List Bytes → IndexFields → Type 0
Tells old lines fields =
    (fields.name ≡ last_value (str "P") old.name lines)
    × (fields.version ≡ last_value (str "V") old.version lines)
    × (fields.size_text ≡ last_value (str "S") old.size_text lines)
    × (fields.checksum ≡ last_value (str "C") old.checksum lines)

exclusive : (k a b : Bytes) → (a =ˢ b) ≡ false → (k =ˢ a) ≡ true → (k =ˢ b) ≡ false
exclusive k a b apart e = rw ((=ˢ_iff k a).0 e) apart

cut_tells :
    (fields : IndexFields) (c : Option (Bytes × Bytes))
    → ((index_cut fields c).name ≡ newer (str "P") fields.name c)
      × ((index_cut fields c).version ≡ newer (str "V") fields.version c)
      × ((index_cut fields c).size_text ≡ newer (str "S") fields.size_text c)
      × ((index_cut fields c).checksum ≡ newer (str "C") fields.checksum c)
unfolding set_index_field
cut_tells fields none = (refl, refl, refl, refl)
cut_tells fields (some (k, v)) = ground (
  arith,
  exclusive k (str "P") (str "V") (unfold ◌=ˢ◌ in refl),
  exclusive k (str "P") (str "S") (unfold ◌=ˢ◌ in refl),
  exclusive k (str "P") (str "C") (unfold ◌=ˢ◌ in refl),
  exclusive k (str "V") (str "S") (unfold ◌=ˢ◌ in refl),
  exclusive k (str "V") (str "C") (unfold ◌=ˢ◌ in refl),
  exclusive k (str "S") (str "C") (unfold ◌=ˢ◌ in refl),
)

fold-Tells :
    (lines : List Bytes) (fields : IndexFields) → Tells fields lines (fold_fields fields lines)
fold-Tells [] fields = (refl, refl, refl, refl)
fold-Tells (line ∷ lines) fields =
    let one = cut_tells fields (cut line b':') in
    let rest = fold-Tells lines (index_cut fields (cut line b':')) in
    (
      rest.0 ∙ ap (λ x. last_value (str "P") x lines) one.0,
      rest.1 ∙ ap (λ x. last_value (str "V") x lines) one.1,
      rest.2 ∙ ap (λ x. last_value (str "S") x lines) one.2,
      rest.3 ∙ ap (λ x. last_value (str "C") x lines) one.3,
    )

module _ {Key : Type 0} (formats : Formats Key) (base : Bytes) where
  finish-AddsPackage :
      (fields : IndexFields) (out : Dict Payload) {s : IndexScan}
      → finish_index formats base (fields, out) ≡ ok s
      → Path IndexFields s.0 no_fields
        × AddsPackage formats base fields.name fields.version fields.size_text fields.checksum out
            s.1
  unfolding finish_index add_apk_payload indexed_package
  finish-AddsPackage fields out {s} e =
      elim (Bool-cases (is_empty fields.name || is_empty fields.version)) [
        | inl skip ↦ (ground arith, inl (skip, ground arith))
        | inr keep ↦ elim (Option-cases (parse_int fields.size_text)) [
          | inl bad ↦ absurd (ground (arith, rw (keep, bad) at e))
          | inr (size, sized) ↦
              elim (Result-cases
                (rel (join_path base (fields.name ++ (b'-' ∷ (fields.version ++ str ".apk")))))) [
                  | inr (x, bad) ↦ absurd (ground (arith, rw (keep, sized, bad) at e))
                  | inl (path, inside) ↦
                      let same = ok-injective _ _ (rw (keep, sized, inside) at e) in
                      (
                        ap (λ (t : IndexScan). t.0) (sym same),
                        inr (
                          keep,
                          (
                            path,
                            _,
                            (inside, sized, rel-IsName _ inside, refl, refl),
                            ap (λ (t : IndexScan). t.1) (sym same),
                          ),
                        ),
                      )
                ]
        ]
      ]

  finish_Adds :
      (lines : List Bytes) (out : Dict Payload) {s : IndexScan}
      → finish_index formats base (fold_fields no_fields lines, out) ≡ ok s
      → Path IndexFields s.0 no_fields × Adds formats base lines out s.1
  finish_Adds lines out {s} e =
      let fields = fold_fields no_fields lines in
      let (cleared, adds) = finish-AddsPackage fields out e in
      let (named, versioned, sized, checked) = fold-Tells lines no_fields in
      let a1 =
        subst
          (λ x. AddsPackage formats base x fields.version fields.size_text fields.checksum out s.1)
          named adds in
      let a2 =
        subst
          (λ x.
            AddsPackage formats base (value_of (str "P") lines) x fields.size_text fields.checksum
              out s.1)
          versioned a1 in
      let a3 =
        subst
          (λ x.
            AddsPackage formats base (value_of (str "P") lines) (value_of (str "V") lines) x
              fields.checksum out s.1)
          sized a2 in
      (
        cleared,
        subst
            (λ x.
              AddsPackage formats base (value_of (str "P") lines) (value_of (str "V") lines)
                (value_of (str "S") lines) x out s.1)
            checked a3,
      )

  run_AddAll :
      (groups : List (List Bytes)) (out : Dict Payload) {s : IndexScan}
      → run_stanzas index_line (finish_index formats base) groups (no_fields, out) ≡ ok s
      → AddAll formats base groups out s.1
  unfolding run_stanzas
  run_AddAll [] out e = ground arith
  run_AddAll (lines ∷ rest) out {s} e =
      elim (Result-cases
        (run_lines index_line (finish_index formats base) lines (no_fields, out))) [
          | inr (x, bad) ↦ absurd (ground (arith, rw bad at e))
          | inl (mid, good) ↦
              let (cleared, adds) =
                finish_Adds lines out
                  (sym (run_lines-fold formats base lines no_fields out) ∙ good) in
              let again =
                subst
                  (λ f. run_stanzas index_line (finish_index formats base) rest (f, mid.1) ≡ ok s)
                  cleared (rw good at e) in
              (mid.1, adds, run_AddAll rest mid.1 again)
        ]

  fails :
      (lines : List Bytes) (x : String) (fields : Bool) (s : IndexScan) {s' : IndexScan}
      → scan_lines index_line (finish_index formats base) lines (some x) fields s ≡ ok s'
      → ⊥
  unfolding scan_lines end_of_scan index_line
  fails [] x fields s e = cc
  fails ([] ∷ rest) x true s e = elim (Result-cases (finish_index formats base s)) [
    | inl (s', good) ↦ fails rest x false s' (rw good at e)
    | inr (y, bad) ↦ absurd (ground (arith, rw bad at e))
  ]
  fails ([] ∷ rest) x false s e = fails rest x false s e
  fails ((c ∷ raw) ∷ rest) x fields s e = fails rest x true _ e

  -- An index that is parsed adds exactly the packages of its stanzas, one after another, and a
  -- reading that ends in an error adds nothing.
  pub parse_index-AddAll :
      (text : Bytes) (failure : Option String) (out : Dict Payload) {s : IndexScan}
      → parse_index formats base text failure out ≡ ok s
      → AddAll formats base (stanzas (read_lines text)) out s.1
  unfolding parse_index scan_control
  parse_index-AddAll text (some x) out e =
      absurd (fails (read_lines text) x false (no_fields, out) e)
  parse_index-AddAll text none out e =
      run_AddAll (stanzas (read_lines text)) out (
        sym (scan_control-stanzas index_line (finish_index formats base) text (no_fields, out)) ∙ e)
