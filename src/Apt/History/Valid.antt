-- ===== src/Apt/History/Valid.antt =====
-- What `validateByHashHistory` accepts, as a predicate.
use mirror_sync.Base.{
  ◌≡◌, ◌≢◌, ◌≤◌, ◌↔◌, refl, String, true, false, List, [], ◌∷◌, arith, All, length, Result, ok, err,
}
use mirror_sync.Base.Int.{pos, ==ℤ_iff, is_negative}
use mirror_sync.Base.Text.{Bytes, str, has_prefix, to_lower, contains}
use mirror_sync.Base.Text.Laws.{=ˢ_iff}
use mirror_sync.Base.Dict.{Distinct, Set}
use mirror_sync.Safe.{rel}
use mirror_sync.Apt.Checksums.{checksum_rank, validate_by_hash_digest}
use mirror_sync.Apt.ByHash.{by_hash_destination}
use mirror_sync.Apt.History.{
  ByHashHistoryGeneration, ByHashHistoryRecord, ByHashHistory, key_of, is_path, validate_generation,
  validate_generations, validate_record, validate_records, validate_by_hash_history,
}

pub record ValidGeneration (canonical algorithm : Bytes) (g : ByHashHistoryGeneration)
    : Type 0 where
  pub sized : is_negative g.size ≡ false
  pub valid : validate_by_hash_digest algorithm g.digest ≡ ok tt
  pub placed : by_hash_destination canonical algorithm g.digest ≡ ok g.path

abbrev pub digest_keys : List ByHashHistoryGeneration → List Bytes
digest_keys [] = []
digest_keys (g ∷ gs) = to_lower g.digest ∷ digest_keys gs

pub record ValidRecord (r : ByHashHistoryRecord) : Type 0 where
  pub cleaned : rel r.canonical_path ≡ ok r.canonical_path
  pub under_dists : has_prefix r.canonical_path (str "dists/") ≡ true
  pub ranked : checksum_rank r.algorithm ≢ 4
  pub few : length r.generations ≤ 3
  pub generations_valid : All (ValidGeneration r.canonical_path r.algorithm) r.generations
  pub digests_differ : Distinct (digest_keys r.generations)

abbrev pub record_keys : List ByHashHistoryRecord → List Bytes
record_keys [] = []
record_keys (r ∷ rs) = key_of r ∷ record_keys rs

pub record ValidHistory (h : ByHashHistory) : Type 0 where
  pub versioned : h.version ≡ pos 1
  pub records_valid : All ValidRecord h.records
  pub keys_differ : Distinct (record_keys h.records)

-- None of the texts was seen before.
abbrev Unseen : Set → List Bytes → Type 0
Unseen seen = All (λ k. contains seen k ≡ false)

is_path_iff : (r : Result String Bytes) (p : Bytes) → (is_path r p ≡ true) ↔ (r ≡ ok p)
is_path_iff (ok q) p = ground (arith, =ˢ_iff q p)
is_path_iff (err e) p = ground arith

generation_iff :
    (r : ByHashHistoryRecord) (g : ByHashHistoryGeneration)
    → (validate_generation r g ≡ ok tt) ↔ ValidGeneration r.canonical_path r.algorithm g
unfolding validate_generation
generation_iff r g =
    ground (arith, is_path_iff (by_hash_destination r.canonical_path r.algorithm g.digest) g.path)

Unseen-cons :
    (k : Bytes) (seen : Set) (ks : List Bytes)
    → Unseen (k ∷ seen) ks ↔ ((contains ks k ≡ false) × Unseen seen ks)
unfolding contains
Unseen-cons k seen [] = ground arith
Unseen-cons k seen (j ∷ ks) = ground (arith, Unseen-cons k seen ks, =ˢ_iff k j, =ˢ_iff j k)

Unseen-nil : (ks : List Bytes) → Unseen [] ks
unfolding contains
Unseen-nil [] = tt
Unseen-nil (k ∷ ks) = (refl, Unseen-nil ks)

generations_iff :
    (r : ByHashHistoryRecord) (gs : List ByHashHistoryGeneration) (seen : Set)
    → (validate_generations r gs seen ≡ ok tt) ↔ (
        All (ValidGeneration r.canonical_path r.algorithm) gs
        × Distinct (digest_keys gs)
        × Unseen seen (digest_keys gs))
unfolding validate_generations
generations_iff r [] seen = ground arith
generations_iff r (g ∷ gs) seen = ground (
  arith,
  generation_iff r g,
  generations_iff r gs (to_lower g.digest ∷ seen),
  Unseen-cons (to_lower g.digest) seen (digest_keys gs),
)

record_iff :
    (r : ByHashHistoryRecord)
    → (validate_record r ≡ ok tt) ↔ (
        (rel r.canonical_path ≡ ok r.canonical_path)
        × (has_prefix r.canonical_path (str "dists/") ≡ true)
        × (checksum_rank r.algorithm ≢ 4))
unfolding validate_record
record_iff r = ground (arith, is_path_iff (rel r.canonical_path) r.canonical_path)

records_iff :
    (rs : List ByHashHistoryRecord) (seen : Set)
    → (validate_records rs seen ≡ ok tt)
      ↔ (All ValidRecord rs × Distinct (record_keys rs) × Unseen seen (record_keys rs))
unfolding validate_records
records_iff [] seen = ground arith
records_iff (r ∷ rs) seen = ground (
  arith,
  record_iff r,
  generations_iff r r.generations [],
  Unseen-nil (digest_keys r.generations),
  records_iff rs (key_of r ∷ seen),
  Unseen-cons (key_of r) seen (record_keys rs),
)

-- The validation accepts exactly the valid histories.
pub validate_by_hash_history_iff :
    (h : ByHashHistory) → (validate_by_hash_history h ≡ ok tt) ↔ ValidHistory h
unfolding validate_by_hash_history
validate_by_hash_history_iff h =
    ground (
      arith,
      ==ℤ_iff h.version (pos 1),
      records_iff h.records [],
      Unseen-nil (record_keys h.records),
    )
