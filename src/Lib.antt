-- ===== src/Lib.antt =====
-- AutoAgent runs workflows: directed graphs of nodes, whose edges have conditions and may form loops. This
-- development is about the part that decides what runs next, and about the state of one run.
--
-- Parts. The compiler turns a definition into a `WorkflowIR`, with the graph of its nodes and edges. An `Invocation` is one run of it: its context,
-- its node executions, its outputs and a scheduling cursor. The executor drains the ready queue of the
-- cursor, runs the nodes, and marks their executions through the methods of `Invocation`, which queue
-- transitions. `Scheduler.next` takes the transitions, evaluates the outgoing edges, records a resolution
-- for each edge occurrence, and schedules or skips the node instances that this settles.
--
-- Files and sources, by the path from the root of the repository:
--   Runtime/Scope, Runtime/Cursor   autoagent/core/runtime/scheduler.py
--   Runtime/Execution               autoagent/core/runtime/execution.py
--   Runtime/Output                  autoagent/core/runtime/output.py
--   Runtime/Invocation              autoagent/core/runtime/invocation.py
--   Runtime/Mailbox                 autoagent/core/runtime/mailbox.py
--   Runtime/Persistence             autoagent/core/runtime/persistence.py
--   Runtime/Snapshot                autoagent/core/runtime/snapshot.py, event.py
--   Ir                              autoagent/core/compiler/workflow_ir.py
--   Compiler                        autoagent/core/compiler/compiler.py, expansion.py
--   Events                          autoagent/core/executor/workflow_executor.py
--   Executor                        autoagent/core/executor/node_executor.py
--   Operators                       autoagent/core/operators/registry.py, selector.py
--   Scheduler and its children      autoagent/core/scheduler/scheduler.py
--   Shared                          helpers: numbers, lists, texts, dictionaries, and `Exec`, the actions on a state
-- A definition has the name of the method that it models, without a leading underscore; the methods
-- `mark_*` of `Invocation` itself are `set_*`. A method that may raise is an `Exec`, which
-- returns a result or a fault together with the state that it leaves behind. `Scheduler/Decision` is the
-- reading part of one round of `_resolve_node_instances`, and `Scheduler/Advance` the writing part.
--
-- The `PersistenceCoordinator` stands between the runtime and a durable sink: the runtime reserves room for an
-- envelope and publishes it, the sink takes envelopes and confirms them. `Runtime/Persistence/Steps` is the
-- relation of all its operations, and `Runtime/Persistence/Delivery` has those of the sink.
--
-- A node is run by calling one of the operators that the resolver gives for it. Its units, one or many, run as
-- tasks that share a budget of calls; what the other tasks do to the budget while a call is awaited is a parameter
-- of `execute_unit`, as are the answers of the operators. The workers that run the
-- units are `Executor/Workers`, where the order of their steps is a list of events. Contracts of operators are a type that is a parameter.
--
-- The state of an invocation is kept as a snapshot and a journal of events, each with the operations that turn
-- one state into the next. `diff` is the making of the operations and `apply_state_operations` their
-- application, on trees of values; that two values read the same means that they differ at most in the order
-- of the keys of their dictionaries, which Python's equality does not see either.
--
-- Parameters. `Env` holds what is not the program's: the clock, fresh ids, the order in which a set is
-- iterated over, condition hooks, and the listener for edge evaluations, which `Scheduler.next` takes as an argument; the
-- one that the executor hands to it is `Events.record_edge_event`, and the answers of the runtime store to it
-- are a parameter in turn. Execution ids (UUIDs) are numbers.
-- Strings are lists of characters. Objects shared by reference are found again by their id in the list
-- of the invocation.
--
-- Fuel. The loop `while pending` of `_resolve_node_instances` runs for at most `Env.steps` rounds, and
-- `_finalize_loop_boundary` nests at most `Env.depth` deep; the source has no bound, and a graph with a loop
-- can keep running. Running out is a fault of its own, `out_of_fuel`,
-- which ends the handler as an exception would. The loop of `take` has a round for each queued envelope,
-- and each round takes one out of its queue.
--
-- `search` has a round for each entry and each listed successor, since a node is expanded once. The loops
-- of `execute_unit` and of `reduce_execution_state` run over lists.
--
-- Not modelled: the conversions to stored records, logs, diagnostics and the passes of the compiler that only
-- report, the invocation of an operator with its timeouts and streams, the workflow executor but for its events, the stores behind
-- the persistence coordinator, the server, the command line and the AI operators: they are input and output, or
-- have no part in what is stated here.
pub mod Shared
pub mod Runtime
pub mod Ir
pub mod Events
pub mod Scheduler
pub mod Compiler
pub mod Operators
pub mod Executor
