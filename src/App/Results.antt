-- ===== src/App/Results.antt =====
-- What `eachRepo` of internal/app/app.go makes of the runs of the repositories.
use mirror_sync.Base.{
  ℕ, suc, ◌+◌, ◌≡◌, refl, ◌∙◌, ap, ◌↔◌, Option, none, some, List, [], ◌∷◌, map, length, arith, All,
}
use mirror_sync.Base.Int.{ℤ}
use mirror_sync.Model.{OperationStats, no_stats, add_stats}
use mirror_sync.App.{
  RunError, Task, RepositoryResults, no_results, collect_results, join_errors,
  run_repo_with_retries, each_repo,
}

add_stats_assoc :
    (a b c : OperationStats) → add_stats (add_stats a b) c ≡ add_stats a (add_stats b c)
unfolding add_stats
add_stats_assoc a b c = ground arith

-- The sum of the statistics.
unfoldable pub sum_of : {E : Type 0} → List (OperationStats × Option E) → OperationStats
sum_of [] = no_stats
sum_of ((stats, e) ∷ rest) = add_stats stats (sum_of rest)

-- How many errors are not nil.
unfoldable pub failures_of : {E : Type 0} → List (OperationStats × Option E) → ℕ
failures_of [] = 0
failures_of ((stats, none) ∷ rest) = failures_of rest
failures_of ((stats, some e) ∷ rest) = suc (failures_of rest)

module _ {E : Type 0} where
  collect_results_lem :
      (rs : List (OperationStats × Option E)) (r : RepositoryResults)
      → ((collect_results rs r).stats ≡ add_stats r.stats (sum_of rs))
        × ((collect_results rs r).failed ≡ r.failed + failures_of rs)
        × ((collect_results rs r).succeeded + failures_of rs ≡ r.succeeded + length rs)
  unfolding collect_results sum_of failures_of
  collect_results_lem [] r = (unfold add_stats in ground arith, omega arith, omega arith)
  collect_results_lem ((stats, none) ∷ rest) r =
      let next = record r { stats = add_stats r.stats stats; succeeded = suc r.succeeded } in
      let (sum, bad, good) = collect_results_lem rest next in
      (sum ∙ add_stats_assoc r.stats stats (sum_of rest), bad, omega (arith, good))
  collect_results_lem ((stats, some e) ∷ rest) r =
      let next = record r { stats = add_stats r.stats stats; failed = suc r.failed } in
      let (sum, bad, good) = collect_results_lem rest next in
      (sum ∙ add_stats_assoc r.stats stats (sum_of rest), omega (arith, bad), omega (arith, good))

  length-join_errors :
      (rs : List (OperationStats × Option E)) → length (join_errors rs) ≡ failures_of rs
  unfolding join_errors failures_of
  length-join_errors [] = refl
  length-join_errors ((stats, none) ∷ rest) = length-join_errors rest
  length-join_errors ((stats, some e) ∷ rest) = ap suc (length-join_errors rest)

length-map : {A B : Type 0} (f : A → B) (xs : List A) → length (map f xs) ≡ length xs
length-map f [] = refl
length-map f (x ∷ xs) = ap suc (length-map f xs)

-- The result of one task.
abbrev pub result_of : {S E : Type 0} → ℤ → Task S E × S → OperationStats × Option (RunError E)
result_of retries t = (run_repo_with_retries t.0 retries t.1).1

module _ {S E : Type 0} (retries : ℤ) where
  abbrev pub AllSucceed : List (Task S E × S) → Type 0
  AllSucceed tasks = All (λ t. (result_of retries t).1 ≡ none) tasks

  join_errors_iff :
      (tasks : List (Task S E × S))
      → (join_errors (map (result_of retries) tasks) ≡ []) ↔ AllSucceed tasks
  unfolding join_errors
  join_errors_iff [] = (λ _. tt, λ _. refl)
  join_errors_iff (t ∷ tasks) = go (result_of retries t) (join_errors_iff tasks)
    where
      go :
          (r : OperationStats × Option (RunError E))
          → ((join_errors (map (result_of retries) tasks) ≡ []) ↔ AllSucceed tasks)
          → (join_errors (r ∷ map (result_of retries) tasks) ≡ [])
            ↔ ((r.1 ≡ none) × AllSucceed tasks)
      go (stats, none) h = (λ e. (refl, h.0 e), λ p. h.1 p.1)
      go (stats, some x) h = (λ e. absurd (ground arith), λ p. absurd (ground (arith, p.0)))

  -- Every repository is counted once, as one that succeeded or failed; the statistics are the sum
  -- of all repositories', failed ones included; there is an error for each that failed, and there
  -- is none exactly if all runs succeed.
  pub each_repo_lem :
      (tasks : List (Task S E × S))
      → ((each_repo tasks retries).0.succeeded + (each_repo tasks retries).0.failed ≡ length tasks)
        × ((each_repo tasks retries).0.failed ≡ length (each_repo tasks retries).1)
        × ((each_repo tasks retries).0.stats ≡ sum_of (map (result_of retries) tasks))
        × (((each_repo tasks retries).1 ≡ []) ↔ AllSucceed tasks)
  unfolding each_repo
  each_repo_lem tasks =
      let rs = map (result_of retries) tasks in
      let (sum, bad, good) = collect_results_lem rs no_results in
      let errors = length-join_errors rs in
      let all = length-map (result_of retries) tasks in
      (
        omega (arith, bad, good, all),
        omega (arith, bad, errors),
        sum ∙ (unfold add_stats in ground arith),
        join_errors_iff tasks,
      )
