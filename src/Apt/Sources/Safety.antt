-- ===== src/Apt/Sources/Safety.antt =====
-- The paths that `parseSources` yields.
use mirror_sync.Base.{
  ◌≡◌, String, Option, List, [], ◌∷◌, arith, All, ok, Result-cases, inl, inr, Ensures, ensured,
  Bool-cases, or_default, none, some,
}
use mirror_sync.Base.Text.{Bytes, str, ◌=ˢ◌, is_empty, trim_space, fields, cut}
use mirror_sync.Base.Dict.{Dict, lookup, keys}
use mirror_sync.Base.Sort.{sort_strings}
use mirror_sync.Model.{Payload, Package, no_digest}
use mirror_sync.Safe.{rel, join_path}
use mirror_sync.Safe.Inside.{rel-IsName}
use mirror_sync.Apt.Control.{add_payload}
use mirror_sync.Apt.Control.Stanzas.{scan_control-Ensures}
use mirror_sync.Apt.Control.Payloads.{SafeKey, add_payload-SafeKey}
use mirror_sync.Apt.Packages.{starts_blank}
use mirror_sync.Apt.Sources.{
  SourcePayload, SourceScan, no_payload, fresh_scan, yield_names, finish_source, source_line,
  source_cut, field_line, add_entry, entry_parts, parse_sources, source_checksum_field,
}

abbrev Safe : SourceScan → Type 0
Safe s = All SafeKey s.out

yield_names-SafeKey :
    (directory : Bytes) (files : Dict SourcePayload) (names : List Bytes) (out : Dict Payload)
    → All SafeKey out
    → Ensures (All SafeKey) (yield_names directory files names out)
unfolding yield_names
yield_names-SafeKey directory files [] out h = h
yield_names-SafeKey directory files (name ∷ names) out h =
    let info = or_default (lookup name files) no_payload in
    elim (Bool-cases (no_digest info.checksums)) [
      | inl bad ↦ rw bad tt
      | inr fine ↦ rw fine (elim (Result-cases (rel (join_path directory name))) [
        | inr (x, bad) ↦ rw bad tt
        | inl (path, found) ↦
            let pkg : Package = record {
              path = path;
              size = info.size;
              checksums = info.checksums;
              apk_hash = [];
            } in
            rw found (elim (Result-cases (add_payload out pkg)) [
              | inr (x, bad) ↦ rw bad tt
              | inl (out', added) ↦ rw added (
                  yield_names-SafeKey directory files names out' (
                    ensured (All SafeKey) _
                      (add_payload-SafeKey out pkg (rel-IsName (join_path directory name) found) h)
                      added))
            ])
      ])
    ]

parts_keep : (s : SourceScan) (parts : List Bytes) → Safe s → Ensures Safe (entry_parts s parts)
unfolding entry_parts
parts_keep s [] h = tt
parts_keep s (a ∷ []) h = tt
parts_keep s (a ∷ b ∷ []) h = tt
parts_keep s (a ∷ b ∷ c ∷ []) h = ground arith
parts_keep s (a ∷ b ∷ c ∷ d ∷ rest) h = tt

entry_keeps : (l : Bytes) (s : SourceScan) → Safe s → Ensures Safe (add_entry l s)
unfolding add_entry
entry_keeps l s h = elim (Bool-cases (is_empty (trim_space l))) [
  | inl e ↦ rw e h
  | inr e ↦ rw e (parts_keep s (fields (trim_space l)) h)
]

field_keeps :
    (s : SourceScan) (value : Bytes) (name : Option Bytes)
    → Safe s
    → Ensures Safe (field_line s value name)
field_keeps s value none h = h
field_keeps s value (some name) h = entry_keeps value (record s { checksum_name = name }) h

cut_keeps : (s : SourceScan) (c : Option (Bytes × Bytes)) → Safe s → Ensures Safe (source_cut s c)
cut_keeps s none h = h
cut_keeps s (some (name, value)) h = elim (Bool-cases (name =ˢ str "Directory")) [
  | inl e ↦ rw e h
  | inr e ↦ rw e (field_keeps s value (source_checksum_field name) h)
]

line_keeps : (l : Bytes) (s : SourceScan) → Safe s → Ensures Safe (source_line l s)
unfolding source_line
line_keeps l s h = elim (Bool-cases (starts_blank l)) [
  | inl e ↦ rw e (elim (Bool-cases (is_empty s.checksum_name)) [
    | inl x ↦ rw x h
    | inr x ↦ rw x (entry_keeps l s h)
  ])
  | inr e ↦ rw e (cut_keeps s (cut l b':') h)
]

finish_keeps : (s : SourceScan) → Safe s → Ensures Safe (finish_source s)
unfolding finish_source
finish_keeps s h = elim (Bool-cases (is_empty s.directory)) [
  | inl e ↦ rw e h
  | inr e ↦
      rw e
        (elim (Result-cases (yield_names s.directory s.files (sort_strings (keys s.files)) s.out)) [
          | inr (x, bad) ↦ rw bad tt
          | inl (out, yielded) ↦ rw yielded (
              ensured (All SafeKey) _
                (yield_names-SafeKey s.directory s.files (sort_strings (keys s.files)) s.out h)
                yielded)
        ])
]

-- Whatever a Sources index says, each path that it adds to the payloads has only names for
-- elements: joined to the published root it stays below it.
pub parse_sources-SafeKey :
    (text : Bytes) (failure : Option String) (out : Dict Payload) {s : SourceScan}
    → All SafeKey out
    → parse_sources text failure out ≡ ok s
    → All SafeKey s.out
unfolding parse_sources
parse_sources-SafeKey text failure out h e =
    ensured Safe _
      (scan_control-Ensures source_line finish_source Safe line_keeps finish_keeps text failure
        (fresh_scan out) h)
      e
