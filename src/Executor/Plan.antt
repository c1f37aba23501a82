-- ===== src/Executor/Plan.antt =====
-- The attempts of a unit, against the order of operators and retries that the policy lays down.
use auto_agent.Shared.{
  ℕ, zero, suc, ◌*◌, ◌≤◌, ◌≡◌, ◌≢◌, refl, sym, ap, ◌∙◌, subst, Bool, true, none, some, List, [],
  ◌∷◌, ◌++◌, arith, ◌⊎◌, inl, inr, length, length-append, append-nil, append_assoc, is_some,
  Bool-cases, All, All-append,
}
use auto_agent.Shared.Keys.{Text}
use auto_agent.Shared.Exec.{ok}
use auto_agent.Runtime.Value.{Value}
use auto_agent.Runtime.Execution.{
  OperatorState, AttemptReason, DirectOperatorExecution, complete_attempt, fail_attempt,
  RuntimeErrorInfo,
}
use auto_agent.Operators.{Operator}
use auto_agent.Executor.{
  Calls, consume, next_call, UnitResult, CallEnd, Answer, attempt_reason, Progress, Tried, finished,
  exhausted, Job, started, completed_with, failed_with, out_of_budget, try_operator, try_operators,
  execute_unit, returned, raised, last_of, operator_budget_error, then_next, unit_end,
  failed_result,
}

abbrev Signature : Type 0
Signature = Text × AttemptReason

abbrev signature : DirectOperatorExecution → Signature
signature attempt = (attempt.operator_id, attempt.reason)

abbrev pub signatures : List DirectOperatorExecution → List Signature
signatures [] = []
signatures (x ∷ xs) = signature x ∷ signatures xs

signatures-append :
    (xs ys : List DirectOperatorExecution) → signatures (xs ++ ys) ≡ signatures xs ++ signatures ys
signatures-append [] ys = refl
signatures-append (x ∷ xs) ys = ap (λ l. signature x ∷ l) (signatures-append xs ys)

-- The calls of one operator, `left` of them from `attempt_index` on.
abbrev pub retries : Bool → ℕ → ℕ → ℕ → Text → List Signature
retries recovery operator_index attempt_index zero operator_id = []
retries recovery operator_index attempt_index (suc left) operator_id =
    (operator_id, attempt_reason operator_index attempt_index recovery)
    ∷ retries recovery operator_index (suc attempt_index) left operator_id

-- All calls that may be made, in order.
abbrev pub plan : {C : Type 0} → Bool → ℕ → ℕ → List (Operator C) → List Signature
plan recovery max_attempts operator_index [] = []
plan recovery max_attempts operator_index (operator ∷ rest) =
    retries recovery operator_index 0 max_attempts operator.id
    ++ plan recovery max_attempts (suc operator_index) rest

-- The attempts are the first ones of the plan.
abbrev pub Follows : List Signature → List DirectOperatorExecution → Type 0
Follows whole attempts = (rest : List Signature) × (signatures attempts ++ rest ≡ whole)

abbrev IsFailed : DirectOperatorExecution → Type 0
IsFailed attempt = (attempt.state ≡ OperatorState.failed) × (is_some attempt.error ≡ true)

-- A success ends with the one completed attempt, whose output it has; a failure has failed attempts only.
pub data Verdict (r : UnitResult) : Type 0 where
  success :
      (before : List DirectOperatorExecution) (last : DirectOperatorExecution)
      → r.attempts ≡ before ++ last ∷ []
      → All IsFailed before
      → last.state ≡ OperatorState.completed
      → last.output ≡ r.output
      → r.error ≡ none
      → Verdict r
  failure : All IsFailed r.attempts → is_some r.error ≡ true → Verdict r

-- Why a unit returned from its loops.
abbrev pub Stops : Text → UnitResult → Type 0
Stops node_id r = (r.error ≡ none) ⊎ (r.error ≡ some (operator_budget_error node_id))

extend : (xs ys more here : List Signature) → xs ++ ys ≡ here → xs ++ (ys ++ more) ≡ here ++ more
extend xs ys more here h = sym (append_assoc xs ys more) ∙ ap (λ l. l ++ more) h

pub CallEnd-cases :
    (e : CallEnd)
    → ((v : Value) × (e ≡ returned v)) ⊎ ((error : RuntimeErrorInfo) × (e ≡ raised error))
CallEnd-cases (returned v) = inl (v, refl)
CallEnd-cases (raised error) = inr (error, refl)

module _ {Contract : Type 0} (job : Job Contract) (unit_index : ℕ) (unit_input : Value)
    (answer : Operator Contract → ℕ → Answer) (meanwhile : ℕ → Calls → Calls) where
  abbrev Ends : List Signature → List Signature → Tried → Type 0
  Ends here whole (finished r calls) = Follows whole r.attempts × Verdict r × Stops job.node_id r
  Ends here whole (exhausted p) = (signatures p.attempts ≡ here) × All IsFailed p.attempts

  one_more :
      (p : Progress) (x : DirectOperatorExecution) (rest whole : List Signature)
      → signatures p.attempts ++ signature x ∷ rest ≡ whole
      → signatures (p.attempts ++ x ∷ []) ++ rest ≡ whole
  one_more p x rest whole h = rw signatures-append (rw append_assoc h)

  try_operator-Ends :
      (oi ai left : ℕ) (operator : Operator Contract) (p : Progress) (here more : List Signature)
      → signatures p.attempts ++ retries job.recovery oi ai left operator.id ≡ here
      → All IsFailed p.attempts
      → Ends here
          (here ++ more)
          (try_operator job unit_index unit_input answer meanwhile oi ai left operator p)
  unfolding try_operator consume next_call started completed_with failed_with out_of_budget
      complete_attempt fail_attempt
  try_operator-Ends oi ai zero operator p here more h fs = (rw append-nil at h, fs)
  try_operator-Ends oi ai (suc left) operator p here more h fs =
      elim (Bool-cases (consume p.calls).0) [
        | inr refused ↦
            rw (Ends, refused)
              (
                (retries job.recovery oi ai (suc left) operator.id ++ more, extend _ _ more here h),
                failure fs refl,
                inr refl,
              )
        | inl allowed ↦
            rw (Ends, allowed)
              (elim (CallEnd-cases (answer operator (suc (consume p.calls).1.current)).result) [
                | inl (output, e) ↦
                    rw (Ends, e)
                      (
                        (
                          retries job.recovery oi (suc ai) left operator.id ++ more,
                          one_more p _ _ _ (extend _ _ more here h),
                        ),
                        success p.attempts _ refl fs refl refl refl,
                        inl refl,
                      )
                | inr (error, e) ↦
                    rw (Ends, e)
                      (try_operator-Ends oi (suc ai) left operator _ here more (one_more p _ _ _ h)
                        (All-append IsFailed p.attempts _ fs ((refl, refl), tt)))
              ])
      ]

  then_next-Ends :
      (here whole : List Signature) (t : Tried) (next : Progress → Tried)
      → Ends here whole t
      → ((q : Progress)
          → signatures q.attempts ≡ here
          → All IsFailed q.attempts
          → Ends whole whole (next q))
      → Ends whole whole (then_next t next)
  then_next-Ends here whole (finished r calls) next h go = h
  then_next-Ends here whole (exhausted q) next h go = go q h.0 h.1

  try_operators-Ends :
      (oi : ℕ) (operators : List (Operator Contract)) (p : Progress) (whole : List Signature)
      → signatures p.attempts ++ plan job.recovery job.max_attempts oi operators ≡ whole
      → All IsFailed p.attempts
      → Ends whole whole (try_operators job unit_index unit_input answer meanwhile oi operators p)
  unfolding try_operators
  try_operators-Ends oi [] p whole h fs = (rw append-nil at h, fs)
  try_operators-Ends oi (operator ∷ rest) p whole h fs =
      let calls = retries job.recovery oi 0 job.max_attempts operator.id in
      let more = plan job.recovery job.max_attempts (suc oi) rest in
      let here = signatures p.attempts ++ calls in
      let e : here ++ more ≡ whole = append_assoc (signatures p.attempts) calls more ∙ h in
      let tried =
        try_operator job unit_index unit_input answer meanwhile oi 0 job.max_attempts operator p in
      let first = try_operator-Ends oi 0 job.max_attempts operator p here more refl fs in
      then_next-Ends here whole tried _ (subst (λ w. Ends here w tried) e first)
        (λ q eq gs. try_operators-Ends (suc oi) rest q whole (rw eq e) gs)

  last-IsFailed :
      (xs : List DirectOperatorExecution)
      → All IsFailed xs
      → xs ≢ []
      → (x : DirectOperatorExecution) × (last_of xs ≡ some x) × IsFailed x
  last-IsFailed [] h ne = absurd (ne refl)
  last-IsFailed (x ∷ []) h ne = (x, refl, h.0)
  last-IsFailed (x ∷ y ∷ xs) h ne = last-IsFailed (y ∷ xs) h.1 (λ e. ground (arith, e))

  -- A unit with an operator and at least one attempt for each always gets a result.
  unit_end-Verdict :
      (whole : List Signature) (t : Tried)
      → whole ≢ []
      → Ends whole whole t
      → (r : UnitResult) × ((unit_end job unit_index unit_input answer meanwhile t).0 ≡ ok r)
        × Follows whole r.attempts
        × Verdict r
        × (Stops job.node_id r ⊎ (signatures r.attempts ≡ whole))
  unit_end-Verdict whole (finished r calls) ne h = (r, refl, h.0, h.1, inl h.2)
  unit_end-Verdict whole (exhausted p) ne h =
      let (x, e, failed) =
        last-IsFailed p.attempts h.1 (λ none_tried. ne (sym h.0 ∙ rw none_tried refl)) in
      (
        failed_result job unit_index unit_input answer meanwhile p x,
        rw e refl,
        ([], rw append-nil h.0),
        failure h.1 failed.1,
        inr h.0,
      )

  plan-nonempty :
      (operators : List (Operator Contract))
      → operators ≢ []
      → job.max_attempts ≢ 0
      → plan job.recovery job.max_attempts 0 operators ≢ []
  plan-nonempty operators ne some_attempts = go operators job.max_attempts ne some_attempts
    where
      go :
          (operators : List (Operator Contract)) (m : ℕ)
          → operators ≢ []
          → m ≢ 0
          → plan job.recovery m 0 operators ≢ []
      go [] m ne pos = absurd (ne refl)
      go (operator ∷ rest) zero ne pos = absurd (pos refl)
      go (operator ∷ rest) (suc m) ne pos = λ e. ground (arith, e)

  -- Where the node has an operator and may call it at least once, a unit gets a result, whatever the
  -- operators answer and the other units do: its attempts are the first ones of the plan, operator by
  -- operator with all retries of each, and all of them where no attempt succeeded and the budget refused
  -- none; it succeeds only with a completed last attempt, whose output it has, after failed ones.
  pub execute_unit-Verdict :
      (calls : Calls)
      → job.operators ≢ []
      → job.max_attempts ≢ 0
      → (r : UnitResult) × ((execute_unit job unit_index unit_input answer meanwhile calls).0
          ≡ ok r)
        × Follows (plan job.recovery job.max_attempts 0 job.operators) r.attempts
        × Verdict r
        × (Stops job.node_id r
            ⊎ (signatures r.attempts ≡ plan job.recovery job.max_attempts 0 job.operators))
  unfolding execute_unit
  execute_unit-Verdict calls ne some_attempts =
      let start : Progress = record { calls = calls; attempts = []; retry_backoff_ns = 0 } in
      unit_end-Verdict _
        (try_operators job unit_index unit_input answer meanwhile 0 job.operators start)
        (plan-nonempty job.operators ne some_attempts)
        (try_operators-Ends 0 job.operators start _ refl tt)

length-signatures : (xs : List DirectOperatorExecution) → length (signatures xs) ≡ length xs
length-signatures [] = refl
length-signatures (x ∷ xs) = ap suc (length-signatures xs)

length-retries :
    (recovery : Bool) (oi ai left : ℕ) (operator_id : Text)
    → length (retries recovery oi ai left operator_id) ≡ left
length-retries recovery oi ai zero operator_id = refl
length-retries recovery oi ai (suc left) operator_id =
    ap suc (length-retries recovery oi (suc ai) left operator_id)

length-plan :
    {C : Type 0} (recovery : Bool) (m oi : ℕ) (operators : List (Operator C))
    → length (plan recovery m oi operators) ≡ length operators * m
length-plan recovery m oi [] = omega arith
length-plan recovery m oi (operator ∷ rest) =
    rw (length-append, length-retries, length-plan recovery m (suc oi) rest) (omega arith)

-- A unit that follows the plan makes no more calls than the operators have attempts together.
Follows-bound :
    {C : Type 0} (recovery : Bool) (m : ℕ) (operators : List (Operator C))
    (attempts : List DirectOperatorExecution)
    → Follows (plan recovery m 0 operators) attempts
    → length attempts ≤ length operators * m
Follows-bound recovery m operators attempts (rest, e) =
    let sizes = ap length e in
    omega (arith, rw (length-append, length-signatures, length-plan) at sizes)
