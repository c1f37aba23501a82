-- ===== src/Runtime/Invocation/Terminal.antt =====
-- The beginning and the end of node executions: `create_node_execution`, and the two ways in which the
-- active ones are ended.
use auto_agent.Shared.{
  ℕ, suc, ◌+◌, ◌≡◌, refl, Bool, true, false, Option, some, List, [], ◌∷◌, ◌++◌, map, arith,
  Bool-cases, inl, inr, All, length,
}
use auto_agent.Runtime.Cursor.{NodeState, NodeExecutionRequest}
use auto_agent.Runtime.Value.{Value}
use auto_agent.Runtime.Execution.{
  RuntimeErrorInfo, NodeExecution, OperatorExecution, direct, parallel, OperatorState,
  operator_state, interrupt_running,
}
use auto_agent.Runtime.Invocation.{
  Invocation, is_active, finish_if_active, cancel_active_node_executions,
  interrupt_active_node_executions, create_node_execution,
}

abbrev pub operator_running : OperatorState → Bool
operator_running OperatorState.running = true
operator_running _ = false

interrupt_running-ends :
    (now : ℕ) (error : Option RuntimeErrorInfo) (xs : List OperatorExecution)
    → All (λ x. operator_running (operator_state x) ≡ false) (map (interrupt_running now error) xs)
unfolding interrupt_running
interrupt_running-ends now error [] = tt
interrupt_running-ends now error (direct x ∷ xs) =
    (ground arith, interrupt_running-ends now error xs)
interrupt_running-ends now error (parallel x ∷ xs) =
    (ground arith, interrupt_running-ends now error xs)

-- What became of one execution: a finished one is as it was, an active one is `ended` with no operator
-- execution running.
pub data Ended (ended : NodeState) : NodeExecution → NodeExecution → Type 0 where
  kept : (x : NodeExecution) → is_active x.state ≡ false → Ended ended x x
  stopped :
      (x y : NodeExecution)
      → is_active x.state ≡ true
      → y.state ≡ ended
      → All (λ o. operator_running (operator_state o) ≡ false) y.operator_executions
      → Ended ended x y

abbrev pub AllEnded : NodeState → List NodeExecution → List NodeExecution → Type 0
AllEnded ended [] [] = Unit
AllEnded ended [] (y ∷ ys) = ⊥
AllEnded ended (x ∷ xs) [] = ⊥
AllEnded ended (x ∷ xs) (y ∷ ys) = Ended ended x y × AllEnded ended xs ys

finish-AllEnded :
    (ended : NodeState) (f : NodeExecution → NodeExecution)
    → ((x : NodeExecution)
        → (f x).state ≡ ended
          × All (λ o. operator_running (operator_state o) ≡ false) (f x).operator_executions)
    → (xs : List NodeExecution) → AllEnded ended xs (map (finish_if_active f) xs)
finish-AllEnded ended f h [] = tt
finish-AllEnded ended f h (x ∷ xs) = (
  elim (Bool-cases (is_active x.state)) [
    | inl active ↦ rw active (stopped x (f x) active (h x).0 (h x).1)
    | inr done ↦ rw done (kept x done)
  ],
  finish-AllEnded ended f h xs,
)

-- `cancel_active_node_executions` cancels each active execution with its running operators, keeps each
-- finished one as it is, and leaves no ready request, no wait and no transition.
pub cancel_active_node_executions-ends :
    (now : ℕ) (reason : RuntimeErrorInfo) (inv : Invocation)
    → AllEnded NodeState.cancelled inv.node_executions
        (cancel_active_node_executions now reason inv).node_executions
      × ((cancel_active_node_executions now reason inv).scheduler.ready_queue ≡ [])
      × ((cancel_active_node_executions now reason inv).scheduler.waiting_executions ≡ [])
      × ((cancel_active_node_executions now reason inv).scheduler.transition_queue ≡ [])
unfolding cancel_active_node_executions
cancel_active_node_executions-ends now reason inv = (
  finish-AllEnded NodeState.cancelled _
      (λ x. (refl, interrupt_running-ends now (some reason) x.operator_executions))
      inv.node_executions,
  refl,
  refl,
  refl,
)

-- The same of `interrupt_active_node_executions`, which interrupts the active executions.
pub interrupt_active_node_executions-ends :
    (now : ℕ) (reason : RuntimeErrorInfo) (inv : Invocation)
    → AllEnded NodeState.interrupted inv.node_executions
        (interrupt_active_node_executions now reason inv).node_executions
      × ((interrupt_active_node_executions now reason inv).scheduler.ready_queue ≡ [])
      × ((interrupt_active_node_executions now reason inv).scheduler.waiting_executions ≡ [])
      × ((interrupt_active_node_executions now reason inv).scheduler.transition_queue ≡ [])
unfolding interrupt_active_node_executions
interrupt_active_node_executions-ends now reason inv = (
  finish-AllEnded NodeState.interrupted _
      (λ x. (refl, interrupt_running-ends now (some reason) x.operator_executions))
      inv.node_executions,
  refl,
  refl,
  refl,
)

-- The executions are numbered from `k` on.
abbrev pub NumberedFrom : ℕ → List NodeExecution → Type 0
NumberedFrom k [] = Unit
NumberedFrom k (x ∷ xs) = (x.sequence ≡ k) × NumberedFrom (suc k) xs

append-NumberedFrom :
    (k : ℕ) (xs : List NodeExecution) (x : NodeExecution)
    → NumberedFrom k xs
    → x.sequence ≡ k + length xs
    → NumberedFrom k (xs ++ x ∷ [])
append-NumberedFrom k [] x h e = (omega arith, tt)
append-NumberedFrom k (y ∷ ys) x h e = (h.0, append-NumberedFrom (suc k) ys x h.1 (omega arith))

-- Where the executions of an invocation are numbered 1, 2, and so on in the order of the list,
-- `create_node_execution` appends one, in state ready, with the next number.
pub create_node_execution-NumberedFrom :
    (now id : ℕ) (input : Value) (request : NodeExecutionRequest) (inv : Invocation)
    → NumberedFrom 1 inv.node_executions
    → NumberedFrom 1 (create_node_execution now id input request inv).1.node_executions
      × ((create_node_execution now id input request inv).1.node_executions
          ≡ inv.node_executions ++ (create_node_execution now id input request inv).0 ∷ [])
      × ((create_node_execution now id input request inv).0.state ≡ NodeState.ready)
unfolding create_node_execution
create_node_execution-NumberedFrom now id input request inv h =
    (append-NumberedFrom 1 inv.node_executions _ h (omega arith), refl, refl)
