-- ===== src/Runtime/Mailbox/Samples.antt =====
-- A mailbox with one running task, which ends and is read.
use auto_agent.Shared.{◌≡◌, true, [], ◌∷◌, ◌++◌}
use auto_agent.Runtime.Value.{null}
use auto_agent.Runtime.Mailbox.{Mailbox}
use auto_agent.Runtime.Mailbox.Delivery.{
  finishes, drains, after_all, all_accepted, all_handed_out, after_all-balance,
}

abbrev busy : Mailbox
busy = record { running = (3, 7) ∷ []; messages = []; accepting = true }

after_all-balance_example :
    busy.messages ++ all_accepted (finishes 3 null ∷ drains ∷ []) busy
    ≡ all_handed_out (finishes 3 null ∷ drains ∷ []) busy
      ++ (after_all (finishes 3 null ∷ drains ∷ []) busy).messages
after_all-balance_example = after_all-balance (finishes 3 null ∷ drains ∷ []) busy
