-- ===== src/Download/Workers.antt =====
-- The number of workers of a batch.
use mirror_sync.Base.{ℕ, ◌≤◌, ◌<◌, List, [], ◌∷◌, arith, length}
use mirror_sync.Httpx.{Client}
use mirror_sync.Download.{worker_count, sum_limits}

sum_limits_le : (clients : List Client) → length clients ≤ sum_limits clients
unfolding sum_limits
sum_limits_le [] = omega arith
sum_limits_le (client ∷ clients) = ground (arith, sum_limits_le clients)

-- A batch has no more workers than files; a batch that is not empty has a worker, and, if it has
-- as many files as clients, one worker for each client or more.
pub worker_count-bounds :
    (clients : List Client) (expected : ℕ)
    → (worker_count clients expected ≤ expected)
      × (0 < expected → 0 < worker_count clients expected)
      × (length clients ≤ expected → length clients ≤ worker_count clients expected)
unfolding worker_count
worker_count-bounds clients expected = ground (arith, sum_limits_le clients)
