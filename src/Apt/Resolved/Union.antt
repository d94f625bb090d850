-- ===== src/Apt/Resolved/Union.antt =====
-- A merge of two valid records of one suite is a valid record.
use mirror_sync.Base.{◌≡◌, refl, ◌∙◌, subst, true, false, ◌||◌, List, [], ◌∷◌, arith, ok}
use mirror_sync.Base.Text.{Bytes, contains, ◌=ˢ◌, text_leb}
use mirror_sync.Base.Text.Laws.{=ˢ_iff}
use mirror_sync.Base.Dict.{Set, Distinct, add, remove, contains-remove}
use mirror_sync.Base.Sort.{sort, sort_strings, sort-All, contains-sort_strings}
use mirror_sync.Base.Sort
use mirror_sync.Apt.Select.{set_from_slice}
use mirror_sync.Apt.Resolved.{
  ResolvedReleaseRecord, validate_release, merge_resolved_release_records, merge_selected,
  merge_resolved, add_all, remove_all, valid_path,
}
use mirror_sync.Apt.Resolved.Merge.{merge_resolved_release_records_lem}
use mirror_sync.Apt.Resolved.Valid.{ValidRelease, Valid, Within, validate_release_iff}

-- A set of valid paths that holds none twice.
abbrev Proper : Bytes → Set → Type 0
Proper suite s = Valid suite s × Distinct s

add-Proper :
    (suite path : Bytes) (s : Set)
    → valid_path suite path ≡ true
    → Proper suite s
    → Proper suite (add path s)
unfolding add
add-Proper suite path s v h = ground (arith, h)

remove-Proper : (suite path : Bytes) (s : Set) → Proper suite s → Proper suite (remove path s)
unfolding remove
remove-Proper suite path [] h = h
remove-Proper suite path (x ∷ s) (h, d) =
    ground (arith, remove-Proper suite path s (h.1, d.1), contains-remove path x s)

add_all-Proper :
    (suite : Bytes) (paths : List Bytes) (s : Set)
    → Valid suite paths
    → Proper suite s
    → Proper suite (add_all paths s)
add_all-Proper suite [] s v h = h
add_all-Proper suite (path ∷ paths) s (v, vs) h =
    add-Proper suite path _ v (add_all-Proper suite paths s vs h)

remove_all-Proper :
    (suite : Bytes) (paths : List Bytes) (s : Set)
    → Proper suite s
    → Proper suite (remove_all paths s)
remove_all-Proper suite [] s h = h
remove_all-Proper suite (path ∷ paths) s h =
    remove-Proper suite path _ (remove_all-Proper suite paths s h)

set_from_slice-Proper :
    (suite : Bytes) (paths : List Bytes) → Valid suite paths → Proper suite (set_from_slice paths)
unfolding set_from_slice
set_from_slice-Proper suite [] v = (tt, tt)
set_from_slice-Proper suite (path ∷ paths) (v, vs) =
    add-Proper suite path _ v (set_from_slice-Proper suite paths vs)

contains-insert :
    (x k : Bytes) (s : Set) → contains (Sort.insert text_leb x s) k ≡ (x =ˢ k || contains s k)
unfolding contains Sort.insert
contains-insert x k [] = refl
contains-insert x k (y ∷ s) = ground (arith, contains-insert x k s)

insert-Distinct :
    (x : Bytes) (s : Set) → contains s x ≡ false → Distinct s → Distinct (Sort.insert text_leb x s)
unfolding contains Sort.insert
insert-Distinct x [] _ _ = (refl, tt)
insert-Distinct x (y ∷ s) h d =
    ground (arith, insert-Distinct x s, contains-insert x y s, =ˢ_iff x y, =ˢ_iff y x)

sort-Distinct : (s : Set) → Distinct s → Distinct (sort_strings s)
unfolding sort_strings sort
sort-Distinct [] _ = tt
sort-Distinct (x ∷ s) (h, d) =
    insert-Distinct x (sort_strings s) (contains-sort_strings s x ∙ h) (sort-Distinct s d)

sort-Proper : (suite : Bytes) (s : Set) → Proper suite s → Proper suite (sort_strings s)
unfolding sort_strings
sort-Proper suite s (v, d) =
    (sort-All text_leb (λ path. valid_path suite path ≡ true) s v, sort-Distinct s d)

-- Membership in a list, from its elements.
from_members :
    (selected paths : Set)
    → ((k : Bytes) → contains paths k ≡ true → contains selected k ≡ true)
    → Within selected paths
unfolding contains
from_members selected [] h = tt
from_members selected (path ∷ paths) h = (
  h path (ground (arith, =ˢ_iff path path)),
  from_members selected paths (λ k e. h k (ground arith)),
)

members :
    (selected paths : Set)
    → Within selected paths
    → (k : Bytes) → contains paths k ≡ true
    → contains selected k ≡ true
unfolding contains
members selected [] h k e = absurd (cc)
members selected (path ∷ paths) (h, hs) k e =
    ground (arith, members selected paths hs k, =ˢ_iff path k)

-- Two records of one suite that pass the validation are merged into one that passes it.
pub validate-merge_resolved_release_records :
    (a b : ResolvedReleaseRecord)
    → a.suite ≡ b.suite
    → validate_release false a ≡ ok tt
    → validate_release false b ≡ ok tt
    → validate_release false (merge_resolved_release_records a b) ≡ ok tt
unfolding merge_resolved_release_records merge_selected merge_resolved
validate-merge_resolved_release_records a b same va vb =
    let pa =
      subst (λ s. ValidRelease s a.selected_paths a.resolved_paths) same
        ((validate_release_iff false a).0 va) in
    let pb = (validate_release_iff false b).0 vb in
    let selected = sort-Proper b.suite _ (
      add_all-Proper b.suite b.selected_paths _ pb.selected_valid
        (set_from_slice-Proper b.suite a.selected_paths pa.selected_valid)) in
    let resolved = sort-Proper b.suite _ (
      add_all-Proper b.suite b.resolved_paths _ pb.resolved_valid (
        remove_all-Proper b.suite b.selected_paths _
          (set_from_slice-Proper b.suite a.resolved_paths pa.resolved_valid))) in
    (validate_release_iff false (merge_resolved_release_records a b)).1 (record {
      selected_valid = selected.0;
      selected_differ = selected.1;
      resolved_valid = resolved.0;
      resolved_differ = resolved.1;
      among = from_members _ _ (λ k e. ground (
        arith,
        merge_resolved_release_records_lem a b k,
        members a.selected_paths a.resolved_paths pa.among k,
        members b.selected_paths b.resolved_paths pb.among k,
      ));
    })
