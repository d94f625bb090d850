-- ===== src/Apt/History/Update.antt =====
-- `updateByHashHistory` keeps a history valid, so that the history written after a sync is one that
-- the next sync reads.
use mathlib.Core.Path.{subst₂}
use mirror_sync.Base.{
  ◌≡◌, ◌≤◌, refl, sym, subst, ◌∙◌, Bool, true, false, ◌||◌, Option, none, some, List, [], ◌∷◌,
  arith, All, if◌then◌else◌, length, length-take_le, All-take, All-filter_by, ok,
}
use mirror_sync.Base.Int.{is_negative}
use mirror_sync.Base.Text.{Bytes, ◌=ˢ◌, has_prefix, contains}
use mirror_sync.Base.Text.Laws.{=ˢ_iff}
use mirror_sync.Base.Dict.{
  Dict, Distinct, lookup, insert, keys, values, insert-All, lookup-All, insert-Distinct,
}
use mirror_sync.Base.Sort
use mirror_sync.Base.Sort.{sort, sort-All}
use mirror_sync.Model.{RepositoryState, ByHashFile}
use mirror_sync.Safe.{rel}
use mirror_sync.Apt.ByHash.Derive.{IsDerived}
use mirror_sync.Apt.History.{
  ByHashHistoryGeneration, ByHashHistoryRecord, ByHashHistory, key_of, file_key, roll, next_record,
  carried, carry_records, roll_files, update_by_hash_history, validate_by_hash_history,
}
use mirror_sync.Apt.History.Valid.{
  ValidGeneration, ValidRecord, digest_keys, record_keys, validate_by_hash_history_iff,
}
use mirror_sync.Apt.History.Roll.{others, roll_lem, roll-Distinct}
use mirror_sync.Apt.History.Keys.{ranked_of_valid, key_inj}

-- A by-hash file of the current Release, as `deriveByHashFiles` makes it of selected files.
pub record IsCurrent (f : ByHashFile) : Type 0 where
  pub derived : IsDerived f
  pub cleaned : rel f.canonical_path ≡ ok f.canonical_path
  pub sized : is_negative f.size ≡ false

-- The record of `f` with these older generations.
abbrev record_for : ByHashFile → List ByHashHistoryGeneration → ByHashHistoryRecord
record_for f gs = record {
  canonical_path = f.canonical_path;
  algorithm = f.algorithm;
  generations = roll f gs;
}

length-roll : (f : ByHashFile) (gs : List ByHashHistoryGeneration) → length (roll f gs) ≤ 3
length-roll f gs = rw roll_lem (omega (arith, length-take_le 2 (others f.digest gs)))

record_for-ValidRecord :
    (f : ByHashFile) (gs : List ByHashHistoryGeneration)
    → IsCurrent f
    → All (ValidGeneration f.canonical_path f.algorithm) gs
    → Distinct (digest_keys gs)
    → ValidRecord (record_for f gs)
record_for-ValidRecord f gs c valid differ = record {
  cleaned = c.cleaned;
  under_dists = c.derived.under_dists;
  ranked = ranked_of_valid f.algorithm f.digest c.derived.valid;
  few = length-roll f gs;
  generations_valid = rw roll_lem (
    record { sized = c.sized; valid = c.derived.valid; placed = c.derived.placed },
    All-take (ValidGeneration f.canonical_path f.algorithm) 2 (others f.digest gs)
        (All-filter_by (ValidGeneration f.canonical_path f.algorithm) _ gs valid),
  );
  digests_differ = roll-Distinct f gs differ;
}

-- A record under its own key.
abbrev Keyed : Bytes × ByHashHistoryRecord → Type 0
Keyed e = (e.0 ≡ key_of e.1) × ValidRecord e.1

kept_name :
    (f : ByHashFile) (r : ByHashHistoryRecord)
    → IsCurrent f
    → ValidRecord r
    → (r.canonical_path ≡ f.canonical_path) × (r.algorithm ≡ f.algorithm)
    → next_record f (some r) ≡ record_for f r.generations
unfolding next_record has_prefix
kept_name f r c v (e, e') = ground (arith, v.under_dists)

new_name : (f : ByHashFile) → next_record f none ≡ record_for f []
unfolding next_record
new_name f = refl

next_record-Keyed :
    (f : ByHashFile) (old : Option ByHashHistoryRecord)
    → IsCurrent f
    → ((r : ByHashHistoryRecord) → old ≡ some r → Keyed (file_key f, r))
    → Keyed (file_key f, next_record f old)
next_record-Keyed f none c h =
    subst (λ r. Keyed (file_key f, r)) (sym (new_name f))
      (refl, record_for-ValidRecord f [] c tt tt)
next_record-Keyed f (some r) c h =
    let (e, v) = h r refl in
    let same =
      key_inj r f v.ranked (ranked_of_valid f.algorithm f.digest c.derived.valid) (sym e) in
    subst (λ x. Keyed (file_key f, x)) (sym (kept_name f r c v same))
      (
        refl,
        record_for-ValidRecord f r.generations c
            (subst₂ (λ x y. All (ValidGeneration x y) r.generations) same.0 same.1
              v.generations_valid)
            v.digests_differ,
      )

-- The map from keys to records, while it is built.
record Table (m : Dict ByHashHistoryRecord) : Type 0 where
  keyed : All Keyed m
  differ : Distinct (keys m)

carry_records-Table :
    (state : RepositoryState) (rs : List ByHashHistoryRecord) (m : Dict ByHashHistoryRecord)
    → All ValidRecord rs
    → Table m
    → Table (carry_records state rs m)
unfolding carry_records
carry_records-Table state [] m _ t = t
carry_records-Table state (r ∷ rs) m (v, vs) t =
    carry_records-Table state rs _ vs (choose (carried state r))
  where
    choose : (b : Bool) → Table (if b then insert (key_of r) r m else m)
    choose true = record {
      keyed = insert-All Keyed (key_of r) r m (refl, v) t.keyed;
      differ = insert-Distinct (key_of r) r m t.differ;
    }
    choose false = t

roll_files-Table :
    (fs : List ByHashFile) (m : Dict ByHashHistoryRecord)
    → All IsCurrent fs
    → Table m
    → Table (roll_files fs m)
unfolding roll_files
roll_files-Table [] m _ t = t
roll_files-Table (f ∷ fs) m (c, cs) t =
    roll_files-Table fs (insert (file_key f) (next_record f (lookup (file_key f) m)) m) cs (record {
      keyed =
          insert-All Keyed (file_key f) (next_record f (lookup (file_key f) m)) m
            (next_record-Keyed f (lookup (file_key f) m) c
              (λ r e. lookup-All Keyed (file_key f) m t.keyed e))
            t.keyed;
      differ = insert-Distinct (file_key f) (next_record f (lookup (file_key f) m)) m t.differ;
    })

values-ValidRecord : (m : Dict ByHashHistoryRecord) → All Keyed m → All ValidRecord (values m)
unfolding values
values-ValidRecord [] _ = tt
values-ValidRecord ((k, r) ∷ m) (p, h) = (p.1, values-ValidRecord m h)

record_keys-values : (m : Dict ByHashHistoryRecord) → All Keyed m → record_keys (values m) ≡ keys m
unfolding values keys
record_keys-values [] _ = refl
record_keys-values ((k, r) ∷ m) (p, h) = cc (p.0, record_keys-values m h)

module _ (le : ByHashHistoryRecord → ByHashHistoryRecord → Bool) where
  contains-insert :
      (r : ByHashHistoryRecord) (rs : List ByHashHistoryRecord) (k : Bytes)
      → contains (record_keys (Sort.insert le r rs)) k
        ≡ (key_of r =ˢ k || contains (record_keys rs) k)
  unfolding Sort.insert contains
  contains-insert r [] k = refl
  contains-insert r (x ∷ rs) k = ground (arith, contains-insert r rs k)

  insert-differ :
      (r : ByHashHistoryRecord) (rs : List ByHashHistoryRecord)
      → contains (record_keys rs) (key_of r) ≡ false
      → Distinct (record_keys rs)
      → Distinct (record_keys (Sort.insert le r rs))
  unfolding Sort.insert contains
  insert-differ r [] _ _ = (refl, tt)
  insert-differ r (x ∷ rs) fresh d = ground (
    arith,
    insert-differ r rs,
    contains-insert r rs (key_of x),
    =ˢ_iff (key_of x) (key_of r),
    =ˢ_iff (key_of r) (key_of x),
  )

  contains-sort :
      (rs : List ByHashHistoryRecord) (k : Bytes)
      → contains (record_keys (sort le rs)) k ≡ contains (record_keys rs) k
  unfolding sort contains
  contains-sort [] k = refl
  contains-sort (r ∷ rs) k = ground (arith, contains-insert r (sort le rs) k, contains-sort rs k)

  sort-differ :
      (rs : List ByHashHistoryRecord)
      → Distinct (record_keys rs)
      → Distinct (record_keys (sort le rs))
  unfolding sort
  sort-differ [] _ = tt
  sort-differ (r ∷ rs) (fresh, d) =
      insert-differ r (sort le rs) (contains-sort rs (key_of r) ∙ fresh) (sort-differ rs d)

-- Updating a valid history by the by-hash files of a Release gives a history that passes the
-- validation, whatever suites have by-hash enabled.
pub validate-update_by_hash_history :
    (history : ByHashHistory) (state : RepositoryState)
    → validate_by_hash_history history ≡ ok tt
    → All IsCurrent state.by_hash_files
    → validate_by_hash_history (update_by_hash_history history state) ≡ ok tt
unfolding update_by_hash_history keys
validate-update_by_hash_history history state h c =
    let v = (validate_by_hash_history_iff history).0 h in
    let carried =
      carry_records-Table state history.records [] v.records_valid
        (record { keyed = tt; differ = tt }) in
    let t =
      roll_files-Table state.by_hash_files (carry_records state history.records []) c carried in
    let m = roll_files state.by_hash_files (carry_records state history.records []) in
    (validate_by_hash_history_iff (update_by_hash_history history state)).1 (record {
      versioned = refl;
      records_valid = sort-All _ ValidRecord (values m) (values-ValidRecord m t.keyed);
      keys_differ =
          sort-differ _ (values m) (subst Distinct (sym (record_keys-values m t.keyed)) t.differ);
    })
