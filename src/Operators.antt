-- ===== src/Operators.antt =====
-- autoagent/core/operators: the registered operators and capabilities, and the choice among them. The type
-- of contracts, which are built from Python signatures, is a parameter.
use auto_agent.Shared.{ℕ, Bool, true, false, Option, leb}
use auto_agent.Shared.Keys.{Text}
pub mod Registry
pub mod Selector
pub mod Index
pub mod Order
pub mod Candidates
pub mod Samples

-- Python's `int`
pub data ℤ : Type 0 where
  pos : ℕ → ℤ
  negsuc : ℕ → ℤ

-- `a <= b`
unfoldable pub int_le : ℤ → ℤ → Bool
int_le (pos a) (pos b) = leb a b
int_le (pos a) (negsuc b) = false
int_le (negsuc a) (pos b) = true
int_le (negsuc a) (negsuc b) = leb b a

pub record Operator (Contract : Type 0) : Type 0 where
  pub id : Text
  pub capability_id : Option Text
  pub priority : ℤ
  pub enabled : Bool
  pub contract : Contract

pub record Capability (Contract : Type 0) : Type 0 where
  pub id : Text
  pub contract : Option Contract
