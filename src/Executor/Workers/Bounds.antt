-- ===== src/Executor/Workers/Bounds.antt =====
-- What the workers of `_execute_units` keep to, from their start on.
use auto_agent.Shared.{
  ℕ, zero, suc, ◌≤◌, ◌≡◌, refl, min, max, Option, none, some, List, [], ◌∷◌, length, arith,
}
use auto_agent.Shared.Keys.{nat_eq}
use auto_agent.Runtime.Value.{Value}
use auto_agent.Executor.{max_parallelism}
use auto_agent.Executor.Limits.{Under, max_parallelism-Under}
use auto_agent.Executor.Workers.{Place, Pool, Happening, act_at, run, new_workers, start}
use auto_agent.Executor.Workers.Sound.{Sound, act_at-Sound}
use auto_agent.Executor.Workers.Counts.{running, failed, held, waiting_units}

run-Sound :
    (events : List (ℕ × Happening)) (weight : ℕ → ℕ) (total : ℕ) (places : List Place) (s : Pool)
    → Sound weight total 0 0 0 0 places s
    → Sound weight total 0 0 0 0 (run events (places, s)).0 (run events (places, s)).1
unfolding run
run-Sound [] weight total places s h = h
run-Sound ((i, what) ∷ rest) weight total places s h =
    run-Sound rest weight total _ _ (act_at-Sound i what places weight total 0 0 0 0 s h)

length-act_at :
    (i : ℕ) (what : Happening) (ps : List Place) (s : Pool)
    → length (act_at i what ps s).0 ≡ length ps
unfolding act_at
length-act_at i what [] s = refl
length-act_at zero what (p ∷ ps) s = refl
length-act_at (suc i) what (p ∷ ps) s = omega (arith, length-act_at i what ps s)

length-run :
    (events : List (ℕ × Happening)) (places : List Place) (s : Pool)
    → length (run events (places, s)).0 ≡ length places
unfolding run
length-run [] places s = refl
length-run ((i, what) ∷ rest) places s = omega (
  arith,
  length-run rest (act_at i what places s).0 (act_at i what places s).1,
  length-act_at i what places s,
)

length-new_workers : (n : ℕ) → length (new_workers n) ≡ n
unfolding new_workers
length-new_workers zero = refl
length-new_workers (suc n) = omega (arith, length-new_workers n)

running-new_workers : (n : ℕ) → running (new_workers n) ≡ 0
unfolding new_workers
running-new_workers zero = refl
running-new_workers (suc n) = omega (arith, running-new_workers n)

failed-new_workers : (n : ℕ) → failed (new_workers n) ≡ 0
unfolding new_workers
failed-new_workers zero = refl
failed-new_workers (suc n) = omega (arith, failed-new_workers n)

held-new_workers : (weight : ℕ → ℕ) (n : ℕ) → held weight (new_workers n) ≡ 0
unfolding new_workers
held-new_workers weight zero = refl
held-new_workers weight (suc n) = omega (arith, held-new_workers weight n)

start-Sound :
    (weight : ℕ → ℕ) (limit : ℕ) (units : List (ℕ × Value))
    → Sound weight (waiting_units weight units) 0 0 0 0 (start limit units).0 (start limit units).1
unfolding start
start-Sound weight limit units =
    let n = min limit (length units) in
    record {
      counts = omega (arith, running-new_workers n);
      conserved = omega (arith, held-new_workers weight n);
      errs = omega (arith, failed-new_workers n);
      peaks = omega arith;
      bound = omega arith;
      room = omega arith;
    }

abbrev pub after : ℕ → List (ℕ × Value) → List (ℕ × Happening) → List Place × Pool
after limit units events = run events (start limit units)

pub after-Sound :
    (weight : ℕ → ℕ) (limit : ℕ) (units : List (ℕ × Value)) (events : List (ℕ × Happening))
    → Sound weight
        (waiting_units weight units)
        0
        0
        0
        0
        (after limit units events).0
        (after limit units events).1
after-Sound weight limit units events =
    run-Sound events weight _ (start limit units).0 (start limit units).1
      (start-Sound weight limit units)

pub length-after :
    (limit : ℕ) (units : List (ℕ × Value)) (events : List (ℕ × Happening))
    → length (after limit units events).0 ≡ min limit (length units)
unfolding start
length-after limit units events = omega (
  arith,
  length-run events (start limit units).0 (start limit units).1,
  length-new_workers (min limit (length units)),
)

Under-le : (m n : ℕ) (limit : Option ℕ) → m ≤ n → Under n limit → Under m limit
Under-le m n none h u = tt
Under-le m n (some k) h u = omega (arith, h, u)

-- Whatever the workers do, and whenever they are cut off, the count of active units is the number of
-- workers that have one; it is at most the peak that is reported, and the peak is over no limit that is
-- set, a limit of zero counted as one, nor over the number of units.
pub after-Bounded :
    (units : List (ℕ × Value)) (max_parallel_units : ℕ) (map_limit replication_limit : Option ℕ)
    (events : List (ℕ × Happening))
    → let bound = max_parallelism max_parallel_units map_limit replication_limit (length units) in
      let (places, s) = after bound units events in
      (s.active ≡ running places)
      × (s.active ≤ s.peak_parallelism)
      × (s.peak_parallelism ≤ length units)
      × (s.peak_parallelism ≤ max 1 max_parallel_units)
      × Under s.peak_parallelism map_limit
      × Under s.peak_parallelism replication_limit
after-Bounded units m map_limit replication_limit events =
    let bound = max_parallelism m map_limit replication_limit (length units) in
    let (positive, of_units, of_all, of_map, of_replication) =
      max_parallelism-Under m map_limit replication_limit (length units) in
    let h = after-Sound (λ index. 0) bound units events in
    let workers = length-after bound units events in
    let low : (after bound units events).1.peak_parallelism ≤ bound =
      omega (arith, h.bound, workers) in
    (
      omega (arith, h.counts),
      h.peaks,
      omega (arith, h.bound, workers),
      omega (arith, low, of_all),
      Under-le _ bound map_limit low of_map,
      Under-le _ bound replication_limit low of_replication,
    )
