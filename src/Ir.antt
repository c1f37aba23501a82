-- ===== src/Ir.antt =====
-- autoagent/core/compiler/workflow_ir.py: the compiled workflow, as far as the scheduler reads it.
-- Contracts, bindings, display texts and node policies are not modelled.
use auto_agent.Shared.{ℕ, Option, List}
use auto_agent.Shared.Keys.{Text}
use auto_agent.Shared.Dict.{Dict}

pub record LoopRegionIr : Type 0 where
  pub id : Text
  pub node_ids : List Text
  pub header_node_id : Text
  pub internal_edge_ids : List Text
  pub external_entry_edge_ids : List Text
  pub back_edge_ids : List Text
  pub exit_edge_ids : List Text
  pub parent_loop_region_id : Option Text
  pub child_loop_region_ids : List Text
  pub depth : ℕ

pub record GraphIr : Type 0 where
  pub outgoing_edges : Dict Text (List Text)
  pub incoming_edges : Dict Text (List Text)
  pub predecessors : Dict Text (List Text)
  pub successors : Dict Text (List Text)
  pub loop_regions : Dict Text LoopRegionIr
  pub node_loop_stacks : Dict Text (List Text)

-- `EdgeIR.condition`: absent, a string, a callable (by a number), or another object
pub data Condition : Type 0 where
  always : Condition
  expression : Text → Condition
  hook : ℕ → Condition
  uncallable : Condition

pub record EdgeIr : Type 0 where
  pub id : Text
  pub local_id : Option Text
  pub local_from_node : Option Text
  pub local_to_node : Option Text
  pub scope_node_ids : Dict Text Text
  pub from_node : Text
  pub to_node : Text
  pub condition : Condition
  pub order : ℕ

-- `workflow_ir.policy.failure.mode`
pub data FailureMode : Type 0 where
  fail_fast continue_active_branches : FailureMode

-- `nodes` holds the keys of the dictionary of nodes, in its order.
pub record WorkflowIr : Type 0 where
  pub nodes : List Text
  pub edges : Dict Text EdgeIr
  pub graph : GraphIr
  pub entry_node_ids : List Text
  pub exit_node_ids : List Text
  pub failure_mode : FailureMode
