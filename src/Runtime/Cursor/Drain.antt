-- ===== src/Runtime/Cursor/Drain.antt =====
-- The queues of the cursor: `enqueue_ready` and `drain_ready`.
use auto_agent.Shared.{
  ℕ, zero, suc, ◌-◌, ◌≡◌, refl, inl, inr, none, some, min, List, [], ◌∷◌, ◌++◌, append_assoc,
  append-nil, arith, ltb, length, length-append, take, drop, take-append-drop, Bool-cases,
}
use auto_agent.Runtime.Cursor.{
  NodeExecutionRequest, SchedulerContext, drain_loop, drain_ready, enqueue_ready,
}

module _ {ℓ} {A : Type ℓ} where
  pub drain_loop-all : (items queue : List A) → drain_loop none items queue ≡ (items ++ queue, [])
  unfolding drain_loop
  drain_loop-all items [] = rw append-nil
  drain_loop-all items (x ∷ queue) = rw (drain_loop-all (items ++ x ∷ []) queue, append_assoc)

  drain_loop-room :
      (limit room : ℕ) (items queue : List A)
      → limit - length items ≡ room
      → drain_loop (some limit) items queue ≡ (items ++ take room queue, drop room queue)
  unfolding drain_loop
  drain_loop-room limit zero items [] e = rw append-nil
  drain_loop-room limit (suc room) items [] e = rw append-nil
  drain_loop-room limit zero items (x ∷ queue) e = elim (Bool-cases (ltb (length items) limit)) [
    | inl more ↦ absurd (ground arith)
    | inr full ↦ rw (full, append-nil)
  ]
  drain_loop-room limit (suc room) items (x ∷ queue) e =
      elim (Bool-cases (ltb (length items) limit)) [
        | inl more ↦ rw (
          more,
          drain_loop-room limit room (items ++ x ∷ []) queue
              (omega (arith, length-append items (x ∷ []))),
          append_assoc,
        )
        | inr full ↦ absurd (ground arith)
      ]

  pub drain_loop-some :
      (limit : ℕ) (queue : List A)
      → drain_loop (some limit) [] queue ≡ (take limit queue, drop limit queue)
  drain_loop-some limit queue = drain_loop-room limit limit [] queue (omega arith)

  pub length-take : (n : ℕ) (xs : List A) → length (take n xs) ≡ min n (length xs)
  length-take zero xs = omega arith
  length-take (suc n) [] = omega arith
  length-take (suc n) (x ∷ xs) = omega (arith, length-take n xs)

-- A bounded drain hands out the oldest requests, as many as the limit and the queue allow, and
-- leaves the others in the queue in their order; nothing else of the cursor changes.
pub drain_ready-fifo :
    (limit : ℕ) (cursor : SchedulerContext)
    → ((drain_ready (some limit) cursor).0 ++ (drain_ready (some limit) cursor).1.ready_queue
        ≡ cursor.ready_queue)
      × (length (drain_ready (some limit) cursor).0 ≡ min limit (length cursor.ready_queue))
      × ((drain_ready (some limit) cursor).1
          ≡ record cursor { ready_queue = drop limit cursor.ready_queue })
unfolding drain_ready
drain_ready-fifo limit cursor = (
  rw drain_loop-some (take-append-drop limit cursor.ready_queue),
  rw drain_loop-some (length-take limit cursor.ready_queue),
  rw drain_loop-some refl,
)

-- What is enqueued behind a request is handed out behind it: an unbounded drain returns the whole
-- queue in the order of the calls of `enqueue_ready`, and empties it.
pub drain_ready-enqueue_ready :
    (cursor : SchedulerContext) (request : NodeExecutionRequest)
    → drain_ready none (enqueue_ready request cursor)
      ≡ (cursor.ready_queue ++ request ∷ [], record cursor { ready_queue = [] })
unfolding drain_ready enqueue_ready
drain_ready-enqueue_ready cursor request = rw drain_loop-all
