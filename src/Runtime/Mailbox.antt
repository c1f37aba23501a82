-- ===== src/Runtime/Mailbox.antt =====
-- autoagent/core/runtime/mailbox.py: `InvocationExecutionMailbox`. Tasks are numbers. The event that wakes a
-- waiting reader and the cancelling of the tasks are asyncio's and not modelled.
pub mod Delivery
pub mod Samples
use auto_agent.Shared.{
  ℕ, Bool, true, false, ◌||◌, not, Option, none, some, List, [], ◌∷◌, ◌++◌, if◌then◌else◌, is_some,
}
use auto_agent.Shared.Keys.{nat_eq}
use auto_agent.Shared.Dict
use auto_agent.Shared.Dict.{Dict}
use auto_agent.Shared.Exec.{Result, ok, err, Exec, mailbox_closed, unknown_task}
use auto_agent.Runtime.Value.{Value}
use auto_agent.Runtime.Invocation.{is_empty}

pub record Mailbox : Type 0 where
  pub running : Dict ℕ ℕ
  pub messages : List Value
  pub accepting : Bool

unfoldable pub track : ℕ → ℕ → Exec Mailbox Unit
track task node_execution_id mailbox =
    if mailbox.accepting
    then (ok tt, record mailbox { running = Dict.put task node_execution_id mailbox.running })
    else (err mailbox_closed, mailbox)

unfoldable pub put_message : Value → Mailbox → Mailbox
put_message message mailbox =
    if mailbox.accepting
    then record mailbox { messages = mailbox.messages ++ message ∷ [] }
    else mailbox

unfoldable pub finish_task : ℕ → Value → Exec Mailbox Unit
unfolding put_message
finish_task task result mailbox =
    if is_some (Dict.get task mailbox.running)
    then (ok tt, put_message result (record mailbox { running = Dict.remove task mailbox.running }))
    else (err unknown_task, mailbox)

unfoldable pub drain_messages : Mailbox → List Value × Mailbox
drain_messages mailbox = (mailbox.messages, record mailbox { messages = [] })

unfoldable pub has_pending : Mailbox → Bool
has_pending mailbox = not (is_empty mailbox.running) || not (is_empty mailbox.messages)

-- `abandon`, once the cancelled tasks have ended
unfoldable pub abandon : Mailbox → List Value × Mailbox
abandon mailbox =
    (mailbox.messages, record mailbox { running = []; messages = []; accepting = false })

unfoldable pub close : Mailbox → Mailbox
close mailbox = record mailbox { accepting = false }
