-- ===== src/Executor/Limits.antt =====
-- The bound on the units of a node that run at once.
use auto_agent.Shared.{ℕ, ◌≤◌, Option, none, some, max, arith}
use auto_agent.Executor.{at_most, max_parallelism}

abbrev pub Under : ℕ → Option ℕ → Type 0
Under n none = Unit
Under n (some limit) = n ≤ max 1 limit

-- The bound is at least one, and over no limit that is set, a limit of zero counted as one.
pub max_parallelism-Under :
    (max_parallel_units : ℕ) (map_limit replication_limit : Option ℕ) (unit_count : ℕ)
    → let n = max_parallelism max_parallel_units map_limit replication_limit unit_count in
      (1 ≤ n)
      × (n ≤ max 1 unit_count)
      × (n ≤ max 1 max_parallel_units)
      × Under n map_limit
      × Under n replication_limit
unfolding max_parallelism at_most
max_parallelism-Under m none none u = (omega arith, omega arith, omega arith, tt, tt)
max_parallelism-Under m none (some k) u = (omega arith, omega arith, omega arith, tt, omega arith)
max_parallelism-Under m (some j) none u = (omega arith, omega arith, omega arith, omega arith, tt)
max_parallelism-Under m (some j) (some k) u =
    (omega arith, omega arith, omega arith, omega arith, omega arith)
