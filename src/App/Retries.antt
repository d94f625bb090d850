-- ===== src/App/Retries.antt =====
-- The attempts of `runRepoWithRetries` of internal/app/app.go.
use mirror_sync.Base.{
  ℕ, zero, suc, ◌+◌, ◌≤◌, ◌<◌, ◌≡◌, ◌≢◌, refl, ap, inl, inr, Bool, true, false, ◌||◌, Option, none,
  some, arith, ◌==◌, Bool-cases, subst, is_some,
}
use mirror_sync.Base.Int.{ℤ, pos, negsuc, is_negative, to_ℕ}
use mirror_sync.Model.{OperationStats, no_stats, add_stats}
use mirror_sync.App.{
  Outcome, RunError, Task, after_wait, after_run, attempts, run_repo_with_retries,
}

module _ {S E : Type 0} (task : Task S E) where
  -- The state in which attempt `n` runs, if all before it are run, from attempt `i` on.
  unfoldable pub state_at : ℕ → ℕ → S → S
  state_at zero i s = s
  state_at (suc n) i s = state_at n (suc i) (task.wait (suc i) (task.run s).0).0

  -- Attempt `n` of the sequence.
  abbrev pub outcome_at : ℕ → ℕ → S → Outcome E
  outcome_at n i s = (task.run (state_at n i s)).1

  -- The attempts before `n`, all of which fail.
  abbrev pub FailedBefore : ℕ → ℕ → S → Type 0
  FailedBefore n i s = (j : ℕ) → j < n → is_some (outcome_at j i s).1 ≡ true

  -- The statistics of the first `n` attempts, onto `total`.
  unfoldable pub sum_stats : ℕ → ℕ → OperationStats → S → OperationStats
  sum_stats zero i total s = total
  sum_stats (suc n) i total s =
      sum_stats n (suc i) (add_stats total (task.run s).1.0) (task.wait (suc i) (task.run s).0).0

  -- The context was done when it was looked at.
  pub data ContextEnded (n i : ℕ) (s : S) : Type 0 where
    before_attempt : task.is_done (state_at n i s) ≡ true → ContextEnded n i s
    behind_attempt :
        (j : ℕ) → n ≡ suc j → task.is_done (task.run (state_at j i s)).0 ≡ true → ContextEnded n i s
    in_wait :
        (j : ℕ)
        → n ≡ suc j
        → (task.wait (suc (i + j)) (task.run (state_at j i s)).0).1 ≡ true
        → ContextEnded n i s

  -- How the attempts end, `n` of at most `top` of them having run: the last one succeeds; all fail;
  -- or the context ends behind failures.
  pub data Ending (top i : ℕ) (s : S) (n : ℕ) : Option (RunError E) → Type 0 where
    succeeds :
        (j : ℕ)
        → n ≡ suc j
        → FailedBefore j i s
        → (outcome_at j i s).1 ≡ none
        → Ending top i s n none
    exhausted : {e : RunError E} → n ≡ top → FailedBefore n i s → Ending top i s n (some e)
    cancelled :
        {e : RunError E} → FailedBefore n i s → ContextEnded n i s → Ending top i s n (some e)

  failed_first :
      (n i : ℕ) (s : S)
      → is_some (task.run s).1.1 ≡ true
      → FailedBefore n (suc i) (task.wait (suc i) (task.run s).0).0
      → FailedBefore (suc n) i s
  unfolding state_at
  failed_first n i s first rest zero h = first
  failed_first n i s first rest (suc j) h = rest j (omega (arith, h))

  ended_later :
      (n i : ℕ) (s : S)
      → ContextEnded n (suc i) (task.wait (suc i) (task.run s).0).0
      → ContextEnded (suc n) i s
  unfolding state_at
  ended_later n i s (before_attempt h) = before_attempt h
  ended_later n i s (behind_attempt j e h) = behind_attempt (suc j) (ap suc e) h
  ended_later n i s (in_wait j e h) = in_wait (suc j) (ap suc e) (
      subst
        (λ k.
          (task.wait k (task.run (state_at j (suc i) (task.wait (suc i) (task.run s).0).0)).0).1
          ≡ true)
        (omega arith) h)

  shift_one :
      (top n i : ℕ) (s : S) {r : Option (RunError E)}
      → is_some (task.run s).1.1 ≡ true
      → Ending top (suc i) (task.wait (suc i) (task.run s).0).0 n r
      → Ending (suc top) i s (suc n) r
  unfolding state_at
  shift_one top n i s first (succeeds j e before last) =
      succeeds (suc j) (ap suc e) (failed_first j i s first before) last
  shift_one top n i s first (exhausted e before) =
      exhausted (ap suc e) (failed_first n i s first before)
  shift_one top n i s first (cancelled before ended) =
      cancelled (failed_first n i s first before) (ended_later n i s ended)

  -- The statistics and the error that `n` attempts of at most `top` lead to.
  abbrev pub Attempted :
      ℕ → ℕ → OperationStats → S → S × (OperationStats × Option (RunError E)) → Type 0
  Attempted top i total s (s', (stats, r)) =
      (n : ℕ) × (n ≤ top) × (stats ≡ sum_stats n i total s) × Ending top i s n r

  one_failed : (i : ℕ) (s : S) → is_some (task.run s).1.1 ≡ true → FailedBefore 1 i s
  one_failed i s first = failed_first 0 i s first (λ j h. absurd (omega (arith, h)))

  -- The last attempt, after which there is none.
  stopped_here :
      (left i : ℕ) (s : S) {r : RunError E}
      → is_some (task.run s).1.1 ≡ true
      → (task.is_done (task.run s).0 || left == 0) ≡ true
      → Ending (suc left) i s 1 (some r)
  unfolding state_at
  stopped_here left i s first h = elim (Bool-cases (task.is_done (task.run s).0)) [
    | inl e ↦ cancelled (one_failed i s first) (behind_attempt 0 refl e)
    | inr e ↦ exhausted (ground arith) (one_failed i s first)
  ]

  stopped_waiting :
      (left i : ℕ) (s : S) {r : RunError E}
      → is_some (task.run s).1.1 ≡ true
      → (task.wait (suc i) (task.run s).0).1 ≡ true
      → Ending (suc left) i s 1 (some r)
  unfolding state_at
  stopped_waiting left i s first h =
      cancelled (one_failed i s first)
        (in_wait 0 refl (subst (λ k. (task.wait (suc k) (task.run s).0).1 ≡ true) (omega arith) h))

  abbrev Next : ℕ → ℕ → S → Type 0
  Next left i s =
      (total : OperationStats)
      → Attempted left (suc i) total (task.wait (suc i) (task.run s).0).0
          (attempts task left (suc i) total (task.wait (suc i) (task.run s).0).0)

  later_Attempted :
      (left i : ℕ) (total : OperationStats) (s : S)
      → is_some (task.run s).1.1 ≡ true
      → Next left i s
      → Attempted (suc left) i total s (
          attempts task left
            (suc i)
            (add_stats total (task.run s).1.0)
            (task.wait (suc i) (task.run s).0).0)
  unfolding sum_stats
  later_Attempted left i total s first next =
      let (n, bound, sum, ending) = next (add_stats total (task.run s).1.0) in
      (suc n, omega (arith, bound), sum, shift_one left n i s first ending)

  wait-Attempted :
      (left i : ℕ) (total : OperationStats) (s : S) (e : E) (w : S × Bool)
      → task.wait (suc i) (task.run s).0 ≡ w
      → is_some (task.run s).1.1 ≡ true
      → Next left i s
      → Attempted (suc left) i total s (
          after_wait task
            (add_stats total (task.run s).1.0)
            e
            (attempts task left (suc i) (add_stats total (task.run s).1.0))
            w)
  unfolding sum_stats
  wait-Attempted left i total s e (s', true) same first next =
      (1, omega arith, refl, stopped_waiting left i s first (ap (λ w. w.1) same))
  wait-Attempted left i total s e (s', false) same first next =
      subst
        (λ x.
          Attempted (suc left) i total s
            (attempts task left (suc i) (add_stats total (task.run s).1.0) x))
        (ap (λ w. w.0) same) (later_Attempted left i total s first next)

  run-Attempted :
      (left i : ℕ) (total : OperationStats) (s : S) (e : Option E)
      → (task.run s).1.1 ≡ e
      → (left ≢ 0 → Next left i s)
      → Attempted (suc left) i total s (
          after_run task left i total
            (attempts task left (suc i))
            ((task.run s).0, ((task.run s).1.0, e)))
  unfolding sum_stats state_at
  run-Attempted left i total s none same next =
      (1, omega arith, refl, succeeds 0 refl (λ j h. absurd (omega (arith, h))) same)
  run-Attempted left i total s (some e) same next =
      let first : is_some (task.run s).1.1 ≡ true = rw same refl in
      elim (Bool-cases (task.is_done (task.run s).0 || left == 0)) [
        | inl h ↦ rw h (1, omega arith, refl, stopped_here left i s first h)
        | inr h ↦ rw h (
            wait-Attempted left i total s e (task.wait (suc i) (task.run s).0) refl first
              (next (ground (arith, h))))
      ]

  attempt-Attempted :
      (left i : ℕ) (total : OperationStats) (s : S)
      → (left ≢ 0 → Next left i s)
      → Attempted (suc left) i total s (attempts task (suc left) i total s)
  unfolding attempts sum_stats state_at
  attempt-Attempted left i total s next = elim (Bool-cases (task.is_done s)) [
    | inl e ↦
        rw e (0, omega arith, refl, cancelled (λ j h. absurd (omega (arith, h))) (before_attempt e))
    | inr e ↦ rw e (run-Attempted left i total s (task.run s).1.1 refl next)
  ]

  attempts-Attempted :
      (left i : ℕ) (total : OperationStats) (s : S)
      → Attempted (suc left) i total s (attempts task (suc left) i total s)
  attempts-Attempted zero i total s = attempt-Attempted zero i total s (λ h. absurd (h refl))
  attempts-Attempted (suc left) i total s =
      attempt-Attempted (suc left) i total s
        λ _ total'. attempts-Attempted left (suc i) total' (task.wait (suc i) (task.run s).0).0

  -- A repository is run once, and again after a failure at most as often as `retries` says. The run
  -- succeeds exactly if its last attempt does, behind failures only; it fails if all `retries + 1`
  -- attempts do, or if the context ends; the statistics are the sum of all attempts' ones. The
  -- condition is that `retries` is not negative.
  pub run_repo_with_retries_lem :
      (retries : ℤ) (s : S)
      → is_negative retries ≡ false
      → Attempted (suc (to_ℕ retries)) 0 no_stats s (run_repo_with_retries task retries s)
  unfolding run_repo_with_retries
  run_repo_with_retries_lem (pos n) s h = attempts-Attempted n 0 no_stats s
  run_repo_with_retries_lem (negsuc n) s h = absurd (cc)

  -- No context end is ever seen.
  abbrev pub NeverEnds : Type 0
  NeverEnds = ((s : S) → task.is_done s ≡ false) × ((n : ℕ) (s : S) → (task.wait n s).1 ≡ false)

  never_ended : (n i : ℕ) (s : S) → NeverEnds → ContextEnded n i s → ⊥
  never_ended n i s (h, k) (before_attempt e) = ground (arith, h (state_at n i s))
  never_ended n i s (h, k) (behind_attempt j _ e) = ground (arith, h (task.run (state_at j i s)).0)
  never_ended n i s (h, k) (in_wait j _ e) =
      ground (arith, k (suc (i + j)) (task.run (state_at j i s)).0)

  ends_well :
      (top n m : ℕ) (s : S) (r : Option (RunError E))
      → NeverEnds
      → m < top
      → (outcome_at m 0 s).1 ≡ none
      → Ending top 0 s n r
      → r ≡ none
  ends_well top n m s none never below good e = refl
  ends_well top n m s (some x) never below good (exhausted same before) =
      absurd (ground (arith, before m (omega (arith, below, same))))
  ends_well top n m s (some x) never below good (cancelled before ended) =
      absurd (never_ended n 0 s never ended)

  -- If some attempt within the retries would succeed and the context does not end, the run of the
  -- repository succeeds.
  pub run_repo_with_retries-succeeds :
      (retries : ℤ) (s : S) (m : ℕ)
      → is_negative retries ≡ false
      → NeverEnds
      → m ≤ to_ℕ retries
      → (outcome_at m 0 s).1 ≡ none
      → (run_repo_with_retries task retries s).1.1 ≡ none
  run_repo_with_retries-succeeds retries s m h never below good =
      let (n, _, _, ending) = run_repo_with_retries_lem retries s h in
      ends_well (suc (to_ℕ retries)) n m s (run_repo_with_retries task retries s).1.1 never
        (omega (arith, below)) good ending
