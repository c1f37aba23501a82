-- ===== src/Runtime/Mailbox/Delivery.antt =====
-- Sequences of calls on a mailbox: what it accepts, and what it hands out.
use auto_agent.Shared.{
  ℕ, ◌≡◌, refl, sym, ap, ◌∙◌, ◌&&◌, List, [], ◌∷◌, ◌++◌, append-nil, append_assoc, if◌then◌else◌,
  Bool-cases, inl, inr, is_some,
}
use auto_agent.Shared.Keys.{nat_eq}
use auto_agent.Shared.Dict
use auto_agent.Runtime.Value.{Value}
use auto_agent.Runtime.Mailbox.{
  Mailbox, track, put_message, finish_task, drain_messages, abandon, close,
}

pub data Call : Type 0 where
  tracks : ℕ → ℕ → Call
  finishes : ℕ → Value → Call
  puts : Value → Call
  drains abandons closes : Call

-- the state after a call, also where the call raises
abbrev pub after : Call → Mailbox → Mailbox
after (tracks task node_execution_id) mailbox = (track task node_execution_id mailbox).1
after (finishes task result) mailbox = (finish_task task result mailbox).1
after (puts message) mailbox = put_message message mailbox
after drains mailbox = (drain_messages mailbox).1
after abandons mailbox = (abandon mailbox).1
after closes mailbox = close mailbox

-- the messages that a call adds: none once the mailbox is closed, or of an unknown task
abbrev pub accepted : Call → Mailbox → List Value
accepted (finishes task result) mailbox =
    if is_some (Dict.get task mailbox.running) && mailbox.accepting then result ∷ [] else []
accepted (puts message) mailbox = if mailbox.accepting then message ∷ [] else []
accepted _ mailbox = []

-- the messages that a call hands out
abbrev pub handed_out : Call → Mailbox → List Value
handed_out drains mailbox = (drain_messages mailbox).0
handed_out abandons mailbox = (abandon mailbox).0
handed_out _ mailbox = []

abbrev pub after_all : List Call → Mailbox → Mailbox
after_all [] mailbox = mailbox
after_all (call ∷ calls) mailbox = after_all calls (after call mailbox)

abbrev pub all_accepted : List Call → Mailbox → List Value
all_accepted [] mailbox = []
all_accepted (call ∷ calls) mailbox =
    accepted call mailbox ++ all_accepted calls (after call mailbox)

abbrev pub all_handed_out : List Call → Mailbox → List Value
all_handed_out [] mailbox = []
all_handed_out (call ∷ calls) mailbox =
    handed_out call mailbox ++ all_handed_out calls (after call mailbox)

messages-put_message :
    (message : Value) (mailbox : Mailbox)
    → (put_message message mailbox).messages
      ≡ mailbox.messages ++ (if mailbox.accepting then message ∷ [] else [])
unfolding put_message
messages-put_message message mailbox = elim (Bool-cases mailbox.accepting) [
  | inl open_still ↦ rw open_still refl
  | inr closed ↦ rw (closed, append-nil) refl
]

messages-finish_task :
    (task : ℕ) (result : Value) (mailbox : Mailbox)
    → (finish_task task result mailbox).1.messages
      ≡ mailbox.messages ++ accepted (finishes task result) mailbox
unfolding finish_task
messages-finish_task task result mailbox =
    elim (Bool-cases (is_some (Dict.get task mailbox.running))) [
      | inl known ↦ rw known (
          messages-put_message result
            (record mailbox { running = Dict.remove task mailbox.running }))
      | inr unknown ↦ rw (unknown, append-nil) refl
    ]

after-balance :
    (call : Call) (mailbox : Mailbox)
    → mailbox.messages ++ accepted call mailbox
      ≡ handed_out call mailbox ++ (after call mailbox).messages
unfolding track put_message finish_task drain_messages abandon close
after-balance (tracks task node_execution_id) mailbox = elim (Bool-cases mailbox.accepting) [
  | inl open_still ↦ rw (open_still, append-nil) refl
  | inr closed ↦ rw (closed, append-nil) refl
]
after-balance (finishes task result) mailbox = sym (messages-finish_task task result mailbox)
after-balance (puts message) mailbox = elim (Bool-cases mailbox.accepting) [
  | inl open_still ↦ rw open_still refl
  | inr closed ↦ rw (closed, append-nil) refl
]
after-balance drains mailbox = refl
after-balance abandons mailbox = refl
after-balance closes mailbox = append-nil mailbox.messages

-- Whatever calls a mailbox gets, raising ones included: the messages that it had, followed by those that it
-- accepts, are those that it hands out, followed by those that it still has. None is lost, none is
-- handed out twice, and their order is kept.
pub after_all-balance :
    (calls : List Call) (mailbox : Mailbox)
    → mailbox.messages ++ all_accepted calls mailbox
      ≡ all_handed_out calls mailbox ++ (after_all calls mailbox).messages
after_all-balance [] mailbox = append-nil mailbox.messages
after_all-balance (call ∷ calls) mailbox =
    let later = after_all-balance calls (after call mailbox) in
    sym (append_assoc mailbox.messages (accepted call mailbox) _)
    ∙ ap (λ l. l ++ all_accepted calls (after call mailbox)) (after-balance call mailbox)
    ∙ append_assoc (handed_out call mailbox) (after call mailbox).messages _
    ∙ ap (λ l. handed_out call mailbox ++ l) later
    ∙ sym (append_assoc (handed_out call mailbox) (all_handed_out calls (after call mailbox)) _)
