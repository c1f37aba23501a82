-- ===== src/Shared/Exec.antt =====
-- Methods that change an object and may raise. What was written before a raise stays written, so
-- the state comes back beside the fault too.
use mathlib.Core.List.{List, [], ◌∷◌}
use mathlib.Core.Option.{Option, none, some}

-- The exceptions that the modelled code raises by itself; `out_of_fuel` is no exception of the
-- program, it says that a loop of the model was cut.
pub data Fault : Type 0 where
  out_of_fuel : Fault
  edge_conflict boundary_conflict : Fault
  missing_activation unexpected_activation : Fault
  duplicate_wait_key unknown_wait_key : Fault
  unknown_execution unknown_edge unknown_region unknown_node unknown_frame : Fault
  bad_terminal_state : Fault
  other_consumer unknown_reservation records_outstanding missing_queue : Fault
  mailbox_closed unknown_task : Fault
  no_attempts bad_path journal_gap wrong_invocation no_operations : Fault
  already_registered unknown_capability default_standalone default_taken contract_mismatch
        contract_bound :
      Fault
  operator_unavailable operator_not_registered capability_not_registered capability_unavailable :
      Fault
  system_command_unsupported unsupported_capability : Fault

pub data Result {ℓ} (A : Type ℓ) : Type ℓ where
  ok : A → Result A
  err : Fault → Result A

abbrev pub Exec {ℓ} : Type ℓ → Type ℓ → Type ℓ
Exec S A = S → Result A × S

abbrev pub then_result {ℓ} : {A B : Type ℓ} → Result A → (A → Result B) → Result B
then_result (ok a) f = f a
then_result (err c) f = err c

abbrev pub from_option {ℓ} : {A : Type ℓ} → Fault → Option A → Result A
from_option c none = err c
from_option c (some a) = ok a

module _ {S : Type 0} where
  -- the primitive action: a lookup in the state, which may raise and writes nothing
  abbrev pub asks : {A : Type 0} → (S → Result A) → Exec S A
  asks look s = (look s, s)

  -- a write
  abbrev pub modify : (S → S) → Exec S Unit
  modify write s = (ok tt, write s)

  abbrev pub gets : {A : Type 0} → (S → A) → Exec S A
  gets read = asks (λ s. ok (read s))

  abbrev pub lift : {A : Type 0} → Result A → Exec S A
  lift found = asks (λ _. found)

  abbrev pub raise : {A : Type 0} → Fault → Exec S A
  raise fault = lift (err fault)

  abbrev pub pure : {A : Type 0} → A → Exec S A
  pure a = lift (ok a)

module _ {S A B : Type 0} where
  -- what happens after an action: the next one, or nothing once a fault is under way
  abbrev pub continue : Result A → (A → Exec S B) → Exec S B
  continue (err fault) next s = (err fault, s)
  continue (ok a) next s = next a s

  infixl 5 ◌>>=◌ ◌>>◌
  unfoldable pub ◌>>=◌ : Exec S A → (A → Exec S B) → Exec S B
  ◌>>=◌ first next s = let (result, left) = first s in continue result next left

  abbrev pub ◌>>◌ : Exec S A → Exec S B → Exec S B
  first >> second = first >>= (λ _. second)

module _ {A S : Type 0} where
  -- `for x in xs: body(x)`
  unfoldable pub for_each : List A → (A → Exec S Unit) → Exec S Unit
  for_each [] body = pure tt
  for_each (x ∷ xs) body = body x >>= λ _. for_each xs body
