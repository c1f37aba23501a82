-- ===== src/Executor/Budget.antt =====
-- The budget of calls and the numbers of the calls, which a unit shares with the other units of its node.
use auto_agent.Shared.{
  ℕ, zero, suc, ◌+◌, ◌≤◌, ◌<◌, ◌≡◌, refl, ap, subst, true, false, Option, none, some, List, [], ◌∷◌,
  ◌++◌, arith, inl, inr, length, length-append,
}
use auto_agent.Shared.Exec.{Result, ok, err}
use auto_agent.Runtime.Value.{Value}
use auto_agent.Runtime.Execution.{DirectOperatorExecution, complete_attempt, fail_attempt}
use auto_agent.Operators.{Operator}
use auto_agent.Executor.{
  Calls, consume, next_call, UnitResult, Answer, Progress, Tried, finished, exhausted, Job, started,
  completed_with, failed_with, out_of_budget, try_operator, try_operators, execute_unit, unit_end,
  then_next, last_of, all_failed,
}
use auto_agent.Executor.Plan.{CallEnd-cases}

-- The numbers rise strictly, above `low` and up to `high`.
abbrev Rising : ℕ → List DirectOperatorExecution → ℕ → Type 0
Rising low [] high = low ≤ high
Rising low (x ∷ xs) high = (low < x.sequence) × Rising x.sequence xs high

Rising-weaken :
    (low middle high : ℕ) (xs : List DirectOperatorExecution)
    → Rising low xs middle
    → middle ≤ high
    → Rising low xs high
Rising-weaken low middle high [] h le = omega arith
Rising-weaken low middle high (x ∷ xs) h le = (h.0, Rising-weaken x.sequence middle high xs h.1 le)

Rising-append :
    (low middle high : ℕ) (xs : List DirectOperatorExecution) (x : DirectOperatorExecution)
    → Rising low xs middle
    → middle < x.sequence
    → x.sequence ≤ high
    → Rising low (xs ++ x ∷ []) high
Rising-append low middle high [] x h lt le = (omega arith, le)
Rising-append low middle high (y ∷ xs) x h lt le =
    (h.0, Rising-append y.sequence middle high xs x h.1 lt le)

-- `spent` calls and those that are left make at most `budget`.
abbrev pub Within : ℕ → ℕ → Calls → Type 0
Within budget spent calls = (left : ℕ) × (calls.remaining ≡ some left) × (spent + left ≤ budget)

-- What the other units do to the shared state: they spend from the budget and take numbers.
pub record Shares (step : Calls → Calls) : Type 0 where
  pub spends :
      (calls : Calls) (left : ℕ)
      → calls.remaining ≡ some left
      → (less : ℕ) × ((step calls).remaining ≡ some less) × (less ≤ left)
  pub counts : (calls : Calls) → calls.current ≤ (step calls).current

abbrev pub Keeps : ℕ → ℕ → Calls → List DirectOperatorExecution → Type 0
Keeps low budget calls attempts =
    Rising low attempts calls.current × Within budget (length attempts) calls

abbrev TriedKeeps : ℕ → ℕ → Tried → Type 0
TriedKeeps low budget (finished r calls) = Keeps low budget calls r.attempts
TriedKeeps low budget (exhausted p) = Keeps low budget p.calls p.attempts

-- After a paid call, which is numbered and awaited, its attempt goes to the end.
attempt-Keeps :
    (low budget left : ℕ) (paid : Calls) (step : Calls → Calls) (xs : List DirectOperatorExecution)
    (x : DirectOperatorExecution)
    → Shares step
    → Rising low xs paid.current
    → paid.remaining ≡ some left
    → suc (length xs + left) ≤ budget
    → x.sequence ≡ suc paid.current
    → Keeps low budget (step (record paid { current = suc paid.current })) (xs ++ x ∷ [])
attempt-Keeps low budget left paid step xs x shares rising e le seq =
    let numbered : Calls = record paid { current = suc paid.current } in
    let (less, e_after, fewer) = shares.spends numbered left e in
    let grown = shares.counts numbered in
    (
      Rising-append low paid.current _ xs x rising (omega arith) (omega arith),
      (less, e_after, rw length-append (omega arith)),
    )

abbrev attempts_of : Result UnitResult → List DirectOperatorExecution
attempts_of (ok r) = r.attempts
attempts_of (err fault) = []

pub consume_refused :
    (calls : Calls)
    → calls.remaining ≡ some 0
    → ((consume calls).0 ≡ false)
      × ((consume calls).1.remaining ≡ some 0)
      × ((consume calls).1.current ≡ calls.current)
unfolding consume
consume_refused calls e = rw e (refl, refl, refl)

pub consume_paid :
    (calls : Calls) (n : ℕ)
    → calls.remaining ≡ some (suc n)
    → ((consume calls).0 ≡ true)
      × ((consume calls).1.remaining ≡ some n)
      × ((consume calls).1.current ≡ calls.current)
unfolding consume
consume_paid calls n e = rw e (refl, refl, refl)

module _ {Contract : Type 0} (job : Job Contract) (unit_index : ℕ) (unit_input : Value)
    (answer : Operator Contract → ℕ → Answer) (meanwhile : ℕ → Calls → Calls)
    (shares : (n : ℕ) → Shares (meanwhile n)) where
  try_operator-Keeps :
      (low budget oi ai left : ℕ) (operator : Operator Contract) (p : Progress)
      → Keeps low budget p.calls p.attempts
      → TriedKeeps low budget
          (try_operator job unit_index unit_input answer meanwhile oi ai left operator p)
  unfolding try_operator next_call started completed_with failed_with out_of_budget complete_attempt
      fail_attempt
  try_operator-Keeps low budget oi ai zero operator p h = h
  try_operator-Keeps low budget oi ai (suc left) operator p (rising, (zero, e, le)) =
      let (refused, none_left, same) = consume_refused p.calls e in
      rw (TriedKeeps, refused) (rw same rising, (0, none_left, le))
  try_operator-Keeps low budget oi ai (suc left) operator p (rising, (suc n, e, le)) =
      let (allowed, fewer, same) = consume_paid p.calls n e in
      let paid = (consume p.calls).1 in
      let x = λ (ended : DirectOperatorExecution).
        attempt-Keeps low budget n paid (meanwhile (suc paid.current)) p.attempts ended
          (shares (suc paid.current)) (rw same rising) fewer (omega arith) in
      rw (TriedKeeps, allowed)
        (elim (CallEnd-cases (answer operator (suc paid.current)).result) [
          | inl (output, end) ↦ rw (TriedKeeps, end) (x _ refl)
          | inr (error, end) ↦
              rw (TriedKeeps, end)
                (try_operator-Keeps low budget oi (suc ai) left operator _ (x _ refl))
        ])

  then_next-Keeps :
      (low budget : ℕ) (t : Tried) (next : Progress → Tried)
      → TriedKeeps low budget t
      → ((q : Progress) → Keeps low budget q.calls q.attempts → TriedKeeps low budget (next q))
      → TriedKeeps low budget (then_next t next)
  then_next-Keeps low budget (finished r calls) next h go = h
  then_next-Keeps low budget (exhausted q) next h go = go q h

  try_operators-Keeps :
      (low budget oi : ℕ) (operators : List (Operator Contract)) (p : Progress)
      → Keeps low budget p.calls p.attempts
      → TriedKeeps low budget
          (try_operators job unit_index unit_input answer meanwhile oi operators p)
  unfolding try_operators
  try_operators-Keeps low budget oi [] p h = h
  try_operators-Keeps low budget oi (operator ∷ rest) p h =
      then_next-Keeps low budget
        (try_operator job unit_index unit_input answer meanwhile oi 0 job.max_attempts operator p) _
        (try_operator-Keeps low budget oi 0 job.max_attempts operator p h)
        (λ q k. try_operators-Keeps low budget (suc oi) rest q k)

  failed-attempts :
      (p : Progress) (o : Option DirectOperatorExecution) (r : UnitResult)
      → all_failed job unit_index unit_input answer meanwhile p o ≡ ok r
      → p.attempts ≡ r.attempts
  failed-attempts p none r e = ground (arith, e)
  failed-attempts p (some x) r e = ap attempts_of e

  unit_end-Keeps :
      (low budget : ℕ) (t : Tried) (r : UnitResult)
      → (unit_end job unit_index unit_input answer meanwhile t).0 ≡ ok r
      → TriedKeeps low budget t
      → Keeps low budget (unit_end job unit_index unit_input answer meanwhile t).1 r.attempts
  unit_end-Keeps low budget (finished s calls) r e h =
      subst (λ xs. Keeps low budget calls xs) (ap attempts_of e) h
  unit_end-Keeps low budget (exhausted p) r e h =
      subst (λ xs. Keeps low budget p.calls xs) (failed-attempts p (last_of p.attempts) r e) h

  -- With other units that only spend from the budget and take numbers, the attempts of a unit have numbers
  -- that rise strictly from the count at its start to the count at its end, and they and the calls that
  -- are left at its end are no more than the budget that it found.
  pub execute_unit-Keeps :
      (calls : Calls) (budget : ℕ) (r : UnitResult)
      → calls.remaining ≡ some budget
      → (execute_unit job unit_index unit_input answer meanwhile calls).0 ≡ ok r
      → Keeps calls.current budget
          (execute_unit job unit_index unit_input answer meanwhile calls).1
          r.attempts
  unfolding execute_unit
  execute_unit-Keeps calls budget r e returns =
      let start : Progress = record { calls = calls; attempts = []; retry_backoff_ns = 0 } in
      unit_end-Keeps calls.current budget
        (try_operators job unit_index unit_input answer meanwhile 0 job.operators start) r returns
        (try_operators-Keeps calls.current budget 0 job.operators start
          (omega arith, (budget, e, omega arith)))
