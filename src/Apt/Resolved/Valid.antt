-- ===== src/Apt/Resolved/Valid.antt =====
-- When a record of resolved Release files is valid, and that a merge keeps it so.
use mirror_sync.Base.{
  ◌≡◌, refl, ◌↔◌, Bool, true, false, ◌||◌, List, [], ◌∷◌, arith, All, ok, Result-cases, subst,
  ◌>>=◌, inl, inr,
}
use mirror_sync.Base.Text.{Bytes, contains}
use mirror_sync.Base.Text.Laws.{=ˢ_iff}
use mirror_sync.Base.Dict.{Set, Distinct}
use mirror_sync.Apt.Resolved.{
  ResolvedReleaseRecord, validate_release, validate_selected, validate_resolved, valid_path,
  selected_in, resolved_in,
}

abbrev Fresh : Set → List Bytes → Type 0
Fresh seen = All (λ k. contains seen k ≡ false)

Fresh-cons :
    (k : Bytes) (seen : Set) (ks : List Bytes)
    → Fresh (k ∷ seen) ks ↔ ((contains ks k ≡ false) × Fresh seen ks)
unfolding contains
Fresh-cons k seen [] = ground arith
Fresh-cons k seen (j ∷ ks) = ground (arith, Fresh-cons k seen ks, =ˢ_iff k j, =ˢ_iff j k)

Fresh-nil : (ks : List Bytes) → Fresh [] ks
unfolding contains
Fresh-nil [] = tt
Fresh-nil (k ∷ ks) = (refl, Fresh-nil ks)

abbrev pub Valid : Bytes → List Bytes → Type 0
Valid suite = All (λ path. valid_path suite path ≡ true)

abbrev pub Within : Set → List Bytes → Type 0
Within selected = All (λ path. contains selected path ≡ true)

abbrev pushed : List Bytes → Set → Set
pushed [] seen = seen
pushed (path ∷ paths) seen = pushed paths (path ∷ seen)

selected_iff :
    (suite : Bytes) (paths : List Bytes) (seen out : Set)
    → (validate_selected suite paths seen ≡ ok out)
      ↔ (Valid suite paths × Distinct paths × Fresh seen paths × (out ≡ pushed paths seen))
unfolding validate_selected
selected_iff suite [] seen out = ground arith
selected_iff suite (path ∷ paths) seen out =
    ground (arith, selected_iff suite paths (path ∷ seen) out, Fresh-cons path seen paths)

contains-pushed :
    (paths : List Bytes) (seen : Set) (k : Bytes)
    → contains (pushed paths seen) k ≡ (contains paths k || contains seen k)
unfolding contains
contains-pushed [] seen k = refl
contains-pushed (path ∷ paths) seen k = ground (arith, contains-pushed paths (path ∷ seen) k)

resolved_iff :
    (suite : Bytes) (selected : Set) (paths : List Bytes) (seen : Set)
    → (validate_resolved suite selected paths seen ≡ ok tt)
      ↔ (Valid suite paths × Distinct paths × Fresh seen paths × Within selected paths)
unfolding validate_resolved
resolved_iff suite selected [] seen = ground arith
resolved_iff suite selected (path ∷ paths) seen =
    ground (arith, resolved_iff suite selected paths (path ∷ seen), Fresh-cons path seen paths)

-- A record is accepted if its paths are clean ones of its suite, none is listed twice, and the
-- resolved ones are among the selected ones.
pub record ValidRelease (suite : Bytes) (selected resolved : List Bytes) : Type 0 where
  pub selected_valid : Valid suite selected
  pub selected_differ : Distinct selected
  pub resolved_valid : Valid suite resolved
  pub resolved_differ : Distinct resolved
  pub among : Within selected resolved

contains-nil : (k : Bytes) → contains [] k ≡ false
unfolding contains
contains-nil k = refl

Within-pushed :
    (selected paths : List Bytes) → Within (pushed selected []) paths ↔ Within selected paths
Within-pushed selected [] = ground arith
Within-pushed selected (path ∷ paths) =
    ground
      (arith, Within-pushed selected paths, contains-pushed selected [] path, contains-nil path)

-- The validation of one record accepts exactly the records whose paths are clean ones of its
-- suite, with none listed twice, and whose resolved paths are among the selected ones.
pub validate_release_iff :
    (first : Bool) (r : ResolvedReleaseRecord)
    → (validate_release first r ≡ ok tt)
      ↔ ValidRelease r.suite (selected_in first r) (resolved_in first r)
unfolding validate_release
validate_release_iff first r = (sound, complete)
  where
    sound :
        (validate_selected r.suite (selected_in first r) [] >>= λ seen.
        validate_resolved r.suite seen (resolved_in first r) [])
          ≡ ok tt
        → ValidRelease r.suite (selected_in first r) (resolved_in first r)
    sound h = elim (Result-cases (validate_selected r.suite (selected_in first r) [])) [
      | inr (_, e) ↦ absurd (cc (rw e at h))
      | inl (out, e) ↦
          let (v, d, _, p) = (selected_iff r.suite (selected_in first r) [] out).0 e in
          let (v', d', _, a) = (resolved_iff r.suite out (resolved_in first r) []).0 (rw e at h) in
          record {
            selected_valid = v;
            selected_differ = d;
            resolved_valid = v';
            resolved_differ = d';
            among =
                (Within-pushed (selected_in first r) (resolved_in first r)).0
                  (subst (λ s. Within s (resolved_in first r)) p a);
          }
    ]

    complete :
        ValidRelease r.suite (selected_in first r) (resolved_in first r)
        → (validate_selected r.suite (selected_in first r) [] >>= λ seen.
            validate_resolved r.suite seen (resolved_in first r) [])
          ≡ ok tt
    complete v =
        rw
          ((selected_iff r.suite (selected_in first r) [] (pushed (selected_in first r) [])).1
            (v.selected_valid, v.selected_differ, Fresh-nil (selected_in first r), refl))
          ((resolved_iff r.suite (pushed (selected_in first r) []) (resolved_in first r) []).1 (
            v.resolved_valid,
            v.resolved_differ,
            Fresh-nil (resolved_in first r),
            (Within-pushed (selected_in first r) (resolved_in first r)).1 v.among,
          ))
