-- ===== src/Runtime/Cursor/Waiting.antt =====
-- External waits: `add_waiting_execution` and `remove_waiting_execution`.
use auto_agent.Shared.{◌≡◌, refl, ap, none, some, arith}
use auto_agent.Shared.Keys.{Text, text_eq, ==_iff}
use auto_agent.Shared.Dict
use auto_agent.Shared.Dict.{Dict, get-put, get-remove}
use auto_agent.Shared.Exec.{Result, ok}
use auto_agent.Runtime.Cursor.{
  WaitingExecution, SchedulerContext, add_waiting_execution, remove_waiting_execution,
}

add_free :
    (entry : WaitingExecution) (c : SchedulerContext)
    → Dict.get entry.wait_key c.waiting_executions ≡ none
    → add_waiting_execution entry c ≡ (
      ok entry,
      record c { waiting_executions = Dict.put entry.wait_key entry c.waiting_executions },
    )
unfolding add_waiting_execution
add_free entry c free = rw free

pub remove_found :
    (key : Text) (entry : WaitingExecution) (c : SchedulerContext)
    → Dict.get key c.waiting_executions ≡ some entry
    → remove_waiting_execution key c
      ≡ (ok entry, record c { waiting_executions = Dict.remove key c.waiting_executions })
unfolding remove_waiting_execution
remove_found key entry c found = rw (found, remove_waiting_execution)

put_here :
    (entry : WaitingExecution) (d : Dict Text WaitingExecution)
    → Dict.get entry.wait_key (Dict.put entry.wait_key entry d) ≡ some entry
put_here entry d = rw (get-put, (==_iff entry.wait_key entry.wait_key).1 refl)

remove-put :
    (entry : WaitingExecution) (d : Dict Text WaitingExecution) (j : Text)
    → Dict.get entry.wait_key d ≡ none
    → Dict.get j (Dict.remove entry.wait_key (Dict.put entry.wait_key entry d)) ≡ Dict.get j d
remove-put entry d j free = rw (get-remove, get-put) (ground (arith, ==_iff entry.wait_key j))

-- A wait under a free key is stored, and removing the key returns it and gives back the waits of before.
pub remove_waiting_execution-add_waiting_execution :
    (entry : WaitingExecution) (c : SchedulerContext)
    → Dict.get entry.wait_key c.waiting_executions ≡ none
    → ((add_waiting_execution entry c).0 ≡ ok entry)
      × ((remove_waiting_execution entry.wait_key (add_waiting_execution entry c).1).0 ≡ ok entry)
      × ((j : Text)
          → Dict.get j
              (remove_waiting_execution entry.wait_key
                (add_waiting_execution entry c).1).1.waiting_executions
            ≡ Dict.get j c.waiting_executions)
remove_waiting_execution-add_waiting_execution entry c free =
    let d = Dict.put entry.wait_key entry c.waiting_executions in
    let after : SchedulerContext = record c { waiting_executions = d } in
    let gone = remove_found entry.wait_key entry after (put_here entry c.waiting_executions) in
    (
      ap (λ (r : Result WaitingExecution × SchedulerContext). r.0) (add_free entry c free),
      rw (add_free entry c free, gone),
      λ j. rw (add_free entry c free, gone) (remove-put entry c.waiting_executions j free),
    )
