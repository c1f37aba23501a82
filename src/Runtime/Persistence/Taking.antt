-- ===== src/Runtime/Persistence/Taking.antt =====
-- `take`, on queues that are kept as `publish` keeps them.
use auto_agent.Shared.{
  ℕ, zero, suc, ◌+◌, ◌≤◌, ◌≡◌, ◌≢◌, refl, sym, ap, false, none, some, List, [], ◌∷◌, ◌++◌, arith,
  Bool-cases, inl, inr, length, length-append, All, All-append, ltb,
}
use auto_agent.Shared.Keys.{Text, text_eq, ◌==◌, ==_iff}
use auto_agent.Shared.Dict
use auto_agent.Shared.Dict.{Dict, get-put, get-remove, IsUnique, put-IsUnique, remove-IsUnique}
use auto_agent.Shared.Exec.{Result, ok}
use auto_agent.Runtime.Persistence.{PersistenceEnvelope, PersistenceCoordinator, remove_outstanding}
use auto_agent.Runtime.Persistence.Delivery.{put_back, take_loop, is_dead, take, queued}

abbrev Queues : Type 0
Queues = Dict Text (List PersistenceEnvelope)

-- The session has a queue with an envelope in it.
abbrev pub Served : Queues → Text → Type 0
Served incoming session_id =
    (x : PersistenceEnvelope) × (queue : List PersistenceEnvelope) × (Dict.get session_id incoming
      ≡ some (x ∷ queue))

abbrev pub Different : List Text → Type 0
Different [] = Unit
Different (s ∷ rest) = All (λ t. s ≢ t) rest × Different rest

-- Each ready session is listed once, and has something to take.
pub record IsQueued (c : PersistenceCoordinator) : Type 0 where
  pub served : All (Served c.incoming) c.ready_sessions
  pub different : Different c.ready_sessions
  pub unique : IsUnique c.incoming

differ : (s t : Text) → s ≢ t → (s == t) ≡ false
differ s t h = ground (arith, ==_iff s t)

Served-remove :
    (s : Text) (sessions : List Text) (incoming : Queues)
    → All (λ t. s ≢ t) sessions
    → All (Served incoming) sessions
    → All (Served (Dict.remove s incoming)) sessions
Served-remove s [] incoming h k = tt
Served-remove s (t ∷ sessions) incoming h k =
    let (x, queue, e) = k.0 in
    ((x, queue, rw (get-remove, differ s t h.0) e), Served-remove s sessions incoming h.1 k.1)

Served-put :
    (s : Text) (q : List PersistenceEnvelope) (sessions : List Text) (incoming : Queues)
    → All (λ t. s ≢ t) sessions
    → All (Served incoming) sessions
    → All (Served (Dict.put s q incoming)) sessions
Served-put s q [] incoming h k = tt
Served-put s q (t ∷ sessions) incoming h k =
    let (x, queue, e) = k.0 in
    ((x, queue, rw (get-put, differ s t h.0) e), Served-put s q sessions incoming h.1 k.1)

Different-append_one :
    (sessions : List Text) (s : Text)
    → All (λ t. s ≢ t) sessions
    → Different sessions
    → Different (sessions ++ s ∷ [])
Different-append_one [] s h k = (tt, tt)
Different-append_one (t ∷ sessions) s h k = (
  All-append _ sessions (s ∷ []) k.0 ((λ e. h.0 (sym e)), tt),
  Different-append_one sessions s h.1 k.1,
)

queued-put :
    (s : Text) (old q : List PersistenceEnvelope) (incoming : Queues)
    → Dict.get s incoming ≡ some old
    → queued (Dict.put s q incoming) + length old ≡ queued incoming + length q
unfolding Dict.put Dict.get queued
queued-put s old q [] e = cc
queued-put s old q ((t, r) ∷ incoming) e = elim (Bool-cases (t == s)) [
  | inl same ↦
      let here : some r ≡ some old = rw same at e in
      let stored : r ≡ old = cc here in rw (same, stored) (omega arith)
  | inr other ↦
      let there : Dict.get s incoming ≡ some old = rw other at e in
      rw other (omega (arith, queued-put s old q incoming there))
]

remove-absent :
    (s : Text) (incoming : Queues) → Dict.get s incoming ≡ none → Dict.remove s incoming ≡ incoming
unfolding Dict.get Dict.remove
remove-absent s [] e = refl
remove-absent s ((t, r) ∷ incoming) e = elim (Bool-cases (t == s)) [
  | inl same ↦ let here : some r ≡ none = rw same at e in cc here
  | inr other ↦
      let there : Dict.get s incoming ≡ none = rw other at e in
      rw other (ap (λ d. (t, r) ∷ d) (remove-absent s incoming there))
]

queued-remove :
    (s : Text) (old : List PersistenceEnvelope) (incoming : Queues)
    → IsUnique incoming
    → Dict.get s incoming ≡ some old
    → queued (Dict.remove s incoming) + length old ≡ queued incoming
unfolding Dict.remove Dict.get queued
queued-remove s old [] u e = cc
queued-remove s old ((t, r) ∷ incoming) u e = elim (Bool-cases (t == s)) [
  | inl same ↦
      let here : some r ≡ some old = rw same at e in
      let stored : r ≡ old = cc here in
      let name : t ≡ s = (==_iff t s).0 same in
      let gone : Dict.get s incoming ≡ none = rw name at u.0 in
      rw (same, remove-absent s incoming gone, stored) (omega arith)
  | inr other ↦
      let there : Dict.get s incoming ≡ some old = rw other at e in
      rw other (omega (arith, queued-remove s old incoming u.1 there))
]

-- A round's outcome: well kept, and one envelope less.
abbrev Shrunk : ℕ → PersistenceCoordinator → Type 0
Shrunk n d = IsQueued d × (suc (queued d.incoming) ≡ n)

put_back-Shrunk :
    (s : Text) (x : PersistenceEnvelope) (queue : List PersistenceEnvelope) (sessions : List Text)
    (c : PersistenceCoordinator)
    → IsQueued c
    → c.ready_sessions ≡ s ∷ sessions
    → Dict.get s c.incoming ≡ some (x ∷ queue)
    → Shrunk (queued c.incoming) (put_back s queue sessions c)
put_back-Shrunk s x [] sessions c h e found =
    let served : All (Served c.incoming) (s ∷ sessions) = rw e at h.served in
    let different : Different (s ∷ sessions) = rw e at h.different in
    (
      record {
        served = Served-remove s sessions c.incoming different.0 served.1;
        different = different.1;
        unique = remove-IsUnique s c.incoming h.unique;
      },
      omega (arith, queued-remove s (x ∷ []) c.incoming h.unique found),
    )
put_back-Shrunk s x (y ∷ queue) sessions c h e found =
    let served : All (Served c.incoming) (s ∷ sessions) = rw e at h.served in
    let different : Different (s ∷ sessions) = rw e at h.different in
    let here : Dict.get s (Dict.put s (y ∷ queue) c.incoming) ≡ some (y ∷ queue) =
      rw (get-put, (==_iff s s).1 refl) in
    (
      record {
        served =
            All-append _ sessions (s ∷ [])
              (Served-put s (y ∷ queue) sessions c.incoming different.0 served.1)
              ((y, queue, here), tt);
        different = Different-append_one sessions s different.0 different.1;
        unique = put-IsUnique s (y ∷ queue) c.incoming h.unique;
      },
      omega (arith, queued-put s (x ∷ y ∷ queue) (y ∷ queue) c.incoming found),
    )

remove_outstanding-Shrunk :
    (n envelope_id : ℕ) (c : PersistenceCoordinator)
    → Shrunk n c
    → Shrunk n (remove_outstanding envelope_id c)
unfolding remove_outstanding
remove_outstanding-Shrunk n envelope_id c (h, e) =
    (record { served = h.served; different = h.different; unique = h.unique }, e)

-- What a bounded run of the loop returns.
abbrev pub Returns : ℕ → Result (List PersistenceEnvelope) × PersistenceCoordinator → Type 0
Returns limit found =
    (values : List PersistenceEnvelope) × (found.0 ≡ ok values) × (length values ≤ limit)

take_loop-Returns :
    (rounds limit : ℕ) (sessions : List Text) (values : List PersistenceEnvelope)
    (c : PersistenceCoordinator)
    → IsQueued c
    → c.ready_sessions ≡ sessions
    → queued c.incoming ≤ rounds
    → length values ≤ limit
    → Returns limit (take_loop rounds limit sessions values c)
unfolding take_loop
take_loop-Returns rounds limit [] values c h e fuel room = (values, refl, room)
take_loop-Returns zero limit (s ∷ sessions) values c h e fuel room =
    let served : All (Served c.incoming) (s ∷ sessions) = rw e at h.served in
    let (x, queue, found) = served.0 in
    let (_, less) = put_back-Shrunk s x queue sessions c h e found in
    absurd (omega (arith, less, fuel))
take_loop-Returns (suc rounds) limit (s ∷ sessions) values c h e fuel room =
    let served : All (Served c.incoming) (s ∷ sessions) = rw e at h.served in
    let (x, queue, found) = served.0 in
    let (kept, less) = put_back-Shrunk s x queue sessions c h e found in
    elim (Bool-cases (ltb (length values) limit)) [
      | inr full ↦ rw full (values, refl, room)
      | inl more ↦ elim (Bool-cases (is_dead x c)) [
        | inl dead ↦
            let (kept', less') =
              remove_outstanding-Shrunk _ x.id (put_back s queue sessions c) (kept, less) in
            rw (more, found, dead)
              (take_loop-Returns rounds limit _ values
                (remove_outstanding x.id (put_back s queue sessions c)) kept' refl
                (omega (arith, less', fuel)) room)
        | inr alive ↦
            rw (more, found, alive)
              (take_loop-Returns rounds limit _ (values ++ x ∷ []) (put_back s queue sessions c)
                kept refl (omega (arith, less, fuel))
                (ground (arith, length-append values (x ∷ []))))
      ]
    ]

-- Where each ready session is listed once and has a queue with an envelope in it, `take` returns,
-- and returns at most as many envelopes as it is asked for.
pub take-Returns :
    (limit : ℕ) (c : PersistenceCoordinator) → IsQueued c → Returns limit (take limit c)
unfolding take
take-Returns limit c h =
    take_loop-Returns (queued c.incoming) limit c.ready_sessions [] c h refl (omega arith)
      (omega arith)
