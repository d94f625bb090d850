-- ===== src/Apt/History/Roll.antt =====
-- The generations of one record: the current one first, and the last two that differ from it.
use mirror_sync.Base.{ℕ, zero, suc, ◌≡◌, refl, false, not, List, [], ◌∷◌, arith, filter_by, take}
use mirror_sync.Base.Text.{Bytes, to_lower, equal_fold, contains}
use mirror_sync.Base.Text.Laws.{=ˢ_iff}
use mirror_sync.Base.Dict.{Distinct}
use mirror_sync.Model.{ByHashFile}
use mirror_sync.Apt.History.{ByHashHistoryGeneration, generation_of, older, roll}
use mirror_sync.Apt.History.Valid.{digest_keys}

-- The generations whose digest is another one.
abbrev pub others : Bytes → List ByHashHistoryGeneration → List ByHashHistoryGeneration
others digest = filter_by (λ g. not (equal_fold g.digest digest))

older_two :
    (digest : Bytes) (a b : ByHashHistoryGeneration) (gs : List ByHashHistoryGeneration)
    → older digest (a ∷ b ∷ []) gs ≡ a ∷ b ∷ take 1 (others digest gs)
unfolding older
older_two digest a b [] = refl
older_two digest a b (g ∷ gs) = ground (arith, older_two digest a b gs)

older_one :
    (digest : Bytes) (a : ByHashHistoryGeneration) (gs : List ByHashHistoryGeneration)
    → older digest (a ∷ []) gs ≡ a ∷ take 2 (others digest gs)
unfolding older
older_one digest a [] = refl
older_one digest a (g ∷ gs) = ground (arith, older_one digest a gs, older_two digest a g gs)

-- The loop keeps the current generation and the first two old ones with another digest.
pub roll_lem :
    (f : ByHashFile) (gs : List ByHashHistoryGeneration)
    → roll f gs ≡ generation_of f ∷ take 2 (others f.digest gs)
unfolding roll
roll_lem f gs = older_one f.digest (generation_of f) gs

contains-take :
    (n : ℕ) (gs : List ByHashHistoryGeneration) (k : Bytes)
    → contains (digest_keys gs) k ≡ false
    → contains (digest_keys (take n gs)) k ≡ false
unfolding contains
contains-take zero gs k h = refl
contains-take (suc n) [] k h = refl
contains-take (suc n) (g ∷ gs) k h = ground (arith, contains-take n gs k)

Distinct-take :
    (n : ℕ) (gs : List ByHashHistoryGeneration)
    → Distinct (digest_keys gs)
    → Distinct (digest_keys (take n gs))
Distinct-take zero gs h = tt
Distinct-take (suc n) [] h = tt
Distinct-take (suc n) (g ∷ gs) h =
    (contains-take n gs (to_lower g.digest) h.0, Distinct-take n gs h.1)

contains-others_of :
    (digest : Bytes) (gs : List ByHashHistoryGeneration) (k : Bytes)
    → contains (digest_keys gs) k ≡ false
    → contains (digest_keys (others digest gs)) k ≡ false
unfolding contains
contains-others_of digest [] k h = refl
contains-others_of digest (g ∷ gs) k h = ground (arith, contains-others_of digest gs k)

Distinct-others :
    (digest : Bytes) (gs : List ByHashHistoryGeneration)
    → Distinct (digest_keys gs)
    → Distinct (digest_keys (others digest gs))
Distinct-others digest [] h = tt
Distinct-others digest (g ∷ gs) h =
    ground (arith, contains-others_of digest gs (to_lower g.digest), Distinct-others digest gs)

contains-others :
    (digest : Bytes) (gs : List ByHashHistoryGeneration)
    → contains (digest_keys (others digest gs)) (to_lower digest) ≡ false
unfolding contains equal_fold
contains-others digest [] = refl
contains-others digest (g ∷ gs) =
    ground (arith, contains-others digest gs, =ˢ_iff (to_lower g.digest) (to_lower digest))

-- No digest is listed twice after the update.
pub roll-Distinct :
    (f : ByHashFile) (gs : List ByHashHistoryGeneration)
    → Distinct (digest_keys gs)
    → Distinct (digest_keys (roll f gs))
roll-Distinct f gs h = rw roll_lem (
  contains-take 2 (others f.digest gs) (to_lower f.digest) (contains-others f.digest gs),
  Distinct-take 2 (others f.digest gs) (Distinct-others f.digest gs h),
)
