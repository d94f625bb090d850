-- ===== src/App.antt =====
-- internal/app/app.go: the runs of the repositories, with their retries, and what is made of the
-- results. A repository's goroutine has a state of its own, which the runner and time change; the
-- context and the wait before a retry are the parameters of it.
pub mod Retries
pub mod Results
use mirror_sync.Base.{
  ℕ, zero, suc, ◌+◌, Bool, true, false, not, ◌&&◌, ◌||◌, Option, none, some, List, [], ◌∷◌, ◌++◌,
  map, if◌then◌else◌, ◌==◌, length, Result, ok, err,
}
use mirror_sync.Base.Int.{ℤ, pos, negsuc}
use mirror_sync.Base.Text.{Bytes, str, is_empty}
use mirror_sync.Model.{OperationStats, no_stats, add_stats}
use mirror_sync.Config.{Config, AptRepository, ApkRepository, RepoKind, repo_apt, repo_apk}

-- What a runner returns: its statistics, also with an error `E`.
abbrev pub Outcome : Type 0 → Type 0
Outcome E = OperationStats × Option E

-- The errors of a run with retries: the runner's, the context's, or both joined.
pub data RunError (E : Type 0) : Type 0 where
  run_failed : E → RunError E
  context_ended : RunError E
  ended_after : E → RunError E

-- One repository: its operation, whether the context is done, and the wait before a retry, which
-- says whether the context ended it.
pub record Task (S : Type 0) (E : Type 0) : Type 0 where
  pub run : S → S × Outcome E
  pub is_done : S → Bool
  pub wait : ℕ → S → S × Bool

module _ {S E : Type 0} (task : Task S E) where
  -- What a wait leads to: the end, or the next attempt.
  abbrev pub after_wait :
      OperationStats
      → E
      → (S → S × (OperationStats × Option (RunError E)))
      → S × Bool
      → S × (OperationStats × Option (RunError E))
  after_wait total e next (s, true) = (s, (total, some (ended_after e)))
  after_wait total e next (s, false) = next s

  abbrev pub after_run :
      ℕ
      → ℕ
      → OperationStats
      → (OperationStats → S → S × (OperationStats × Option (RunError E)))
      → S × Outcome E
      → S × (OperationStats × Option (RunError E))
  after_run left attempt total next (s, (stats, none)) = (s, (add_stats total stats, none))
  after_run left attempt total next (s, (stats, some e)) =
      if task.is_done s || left == 0
      then (s, (add_stats total stats, some (run_failed e)))
      else after_wait (add_stats total stats) e (next (add_stats total stats))
          (task.wait (suc attempt) s)

  -- The loop; `left` is the number of attempts left, this one included.
  unfoldable pub attempts : ℕ → ℕ → OperationStats → S → S × (OperationStats × Option (RunError E))
  attempts zero attempt total s = (s, (total, none))
  attempts (suc left) attempt total s =
      if task.is_done s
      then (s, (total, some context_ended))
      else after_run left attempt total (attempts left (suc attempt)) (task.run s)

  abbrev pub attempts_of : ℤ → ℕ
  attempts_of (pos n) = suc n
  attempts_of (negsuc n) = 0

  unfoldable pub run_repo_with_retries : ℤ → S → S × (OperationStats × Option (RunError E))
  run_repo_with_retries retries s = attempts (attempts_of retries) 0 no_stats s

pub record RepositoryResults : Type 0 where
  pub stats : OperationStats
  pub succeeded : ℕ
  pub failed : ℕ

abbrev pub no_results : RepositoryResults
no_results = record { stats = no_stats; succeeded = 0; failed = 0 }

abbrev pub count_result : {E : Type 0} → Option E → RepositoryResults → RepositoryResults
count_result none r = record r { succeeded = suc r.succeeded }
count_result (some e) r = record r { failed = suc r.failed }

-- The loop over the errors and statistics of the repositories.
unfoldable pub collect_results :
    {E : Type 0} → List (OperationStats × Option E) → RepositoryResults → RepositoryResults
collect_results [] r = r
collect_results ((stats, e) ∷ rest) r =
    collect_results rest (count_result e (record r { stats = add_stats r.stats stats }))

-- errors.Join: the errors that are not nil; none if there are none.
unfoldable pub join_errors : {E : Type 0} → List (OperationStats × Option E) → List E
join_errors [] = []
join_errors ((stats, none) ∷ rest) = join_errors rest
join_errors ((stats, some e) ∷ rest) = e ∷ join_errors rest

-- `eachRepo`: each task runs on its own, and fills its place.
unfoldable pub each_repo :
    {S E : Type 0} → List (Task S E × S) → ℤ → RepositoryResults × List (RunError E)
each_repo tasks retries =
    let results = map (λ t. (run_repo_with_retries t.0 retries t.1).1) tasks in
    (collect_results results no_results, join_errors results)

-- `repoRunners`: the labels and names of the runners, the APT repositories first.
unfoldable pub repo_runners : Config → List (Bytes × (RepoKind × Bytes))
repo_runners c =
    map (λ (r : AptRepository). (str "apt/" ++ r.name, (repo_apt, r.name))) c.apt
    ++ map (λ (r : ApkRepository). (str "apk/" ++ r.name, (repo_apk, r.name))) c.apk

-- `syncCycle`, with the retries of the configuration.
unfoldable pub sync_cycle :
    {S E : Type 0} → Config → List (Task S E × S) → RepositoryResults × List (RunError E)
sync_cycle c tasks = each_repo tasks c.sync.repository_retries

-- `Verify` and `Prune` of the application: no retries.
unfoldable pub run_once :
    {S E : Type 0} → List (Task S E × S) → RepositoryResults × List (RunError E)
run_once tasks = each_repo tasks (pos 0)
