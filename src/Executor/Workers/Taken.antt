-- ===== src/Executor/Workers/Taken.antt =====
-- What becomes of each unit that `_execute_units` is given.
use auto_agent.Shared.{
  ℕ, zero, suc, ◌+◌, ◌≤◌, ◌≡◌, refl, ap, min, Bool, true, false, List, [], ◌∷◌, subst,
  if◌then◌else◌, is_some, length, arith, All,
}
use auto_agent.Shared.Keys.{◌==◌, nat_eq}
use auto_agent.Runtime.Value.{Value}
use auto_agent.Executor.Workers.{
  Place, waiting, busy, returned, raised, stopped, Pool, Happening, goes, ends, fails, cancelled,
  leave, keep_result, take_unit, go_round, act, act_at, run, new_workers, start,
}
use auto_agent.Executor.Workers.Counts.{
  running, failed, errors, held_by, held, finished, waiting_units,
}
use auto_agent.Executor.Workers.Bounds.{after, after-Sound, length-after}

-- A worker that returned without an error found no unit left.
abbrev Drained : List (ℕ × Value) → Place → Type 0
Drained left (returned false) = left ≡ []
Drained left _ = Unit

-- What a worker leaves for the others: an empty queue stays empty.
record Drains (what : Happening) (p : Place) (s : Pool) : Type 0 where
  own : Drained (act what p s).1.left (act what p s).0
  stays : s.left ≡ [] → (act what p s).1.left ≡ []

take_unit-own :
    (units : List (ℕ × Value)) (s : Pool)
    → s.left ≡ units
    → Drained (take_unit units s).1.left (take_unit units s).0
unfolding take_unit
take_unit-own [] s e = e
take_unit-own (unit ∷ units) s e = tt

take_unit-stays :
    (units : List (ℕ × Value)) (s : Pool)
    → units ≡ []
    → s.left ≡ units
    → (take_unit units s).1.left ≡ []
unfolding take_unit
take_unit-stays [] s none_left e = e
take_unit-stays (unit ∷ units) s none_left e = cc none_left

go_round-own :
    (failing : Bool) (s : Pool) → Drained (go_round failing s).1.left (go_round failing s).0
unfolding go_round
go_round-own true s = tt
go_round-own false s = take_unit-own s.left s refl

go_round-stays : (failing : Bool) (s : Pool) → s.left ≡ [] → (go_round failing s).1.left ≡ []
unfolding go_round
go_round-stays true s e = e
go_round-stays false s e = take_unit-stays s.left s e refl

act-Drains : (what : Happening) (p : Place) (s : Pool) → Drained s.left p → Drains what p s
unfolding act leave
act-Drains goes waiting s d = record {
  own = take_unit-own s.left s refl;
  stays = λ e. take_unit-stays s.left s e refl;
}
act-Drains goes (busy index) s d = record { own = d; stays = λ e. e }
act-Drains goes (returned b) s d = record { own = d; stays = λ e. e }
act-Drains goes (raised index) s d = record { own = d; stays = λ e. e }
act-Drains goes (stopped o) s d = record { own = d; stays = λ e. e }
act-Drains (ends result) waiting s d = record { own = d; stays = λ e. e }
act-Drains (ends result) (busy index) s d = record {
  own = go_round-own (is_some result.error) (keep_result index result (leave s));
  stays = go_round-stays (is_some result.error) (keep_result index result (leave s));
}
act-Drains (ends result) (returned b) s d = record { own = d; stays = λ e. e }
act-Drains (ends result) (raised index) s d = record { own = d; stays = λ e. e }
act-Drains (ends result) (stopped o) s d = record { own = d; stays = λ e. e }
act-Drains fails waiting s d = record { own = d; stays = λ e. e }
act-Drains fails (busy index) s d = record { own = tt; stays = λ e. e }
act-Drains fails (returned b) s d = record { own = d; stays = λ e. e }
act-Drains fails (raised index) s d = record { own = d; stays = λ e. e }
act-Drains fails (stopped o) s d = record { own = d; stays = λ e. e }
act-Drains cancelled waiting s d = record { own = tt; stays = λ e. e }
act-Drains cancelled (busy index) s d = record { own = tt; stays = λ e. e }
act-Drains cancelled (returned b) s d = record { own = d; stays = λ e. e }
act-Drains cancelled (raised index) s d = record { own = d; stays = λ e. e }
act-Drains cancelled (stopped o) s d = record { own = d; stays = λ e. e }

Drained-stays :
    (left left' : List (ℕ × Value)) (p : Place)
    → (left ≡ [] → left' ≡ [])
    → Drained left p
    → Drained left' p
Drained-stays left left' waiting h d = tt
Drained-stays left left' (busy index) h d = tt
Drained-stays left left' (returned true) h d = tt
Drained-stays left left' (returned false) h d = h d
Drained-stays left left' (raised index) h d = tt
Drained-stays left left' (stopped o) h d = tt

all-stays :
    (left left' : List (ℕ × Value)) (ps : List Place)
    → (left ≡ [] → left' ≡ [])
    → All (Drained left) ps
    → All (Drained left') ps
all-stays left left' [] h d = tt
all-stays left left' (p ∷ ps) h (d, ds) =
    (Drained-stays left left' p h d, all-stays left left' ps h ds)

act_at-Drained :
    (i : ℕ) (what : Happening) (ps : List Place) (s : Pool)
    → All (Drained s.left) ps
    → All (Drained (act_at i what ps s).1.left) (act_at i what ps s).0
      × (s.left ≡ [] → (act_at i what ps s).1.left ≡ [])
unfolding act_at
act_at-Drained i what [] s d = (tt, λ e. e)
act_at-Drained zero what (p ∷ ps) s (d, ds) =
    let h = act-Drains what p s d in ((h.own, all-stays _ _ ps h.stays ds), h.stays)
act_at-Drained (suc i) what (p ∷ ps) s (d, ds) =
    let (rest, stays) = act_at-Drained i what ps s ds in
    ((Drained-stays _ _ p stays d, rest), stays)

run-Drained :
    (events : List (ℕ × Happening)) (ps : List Place) (s : Pool)
    → All (Drained s.left) ps
    → All (Drained (run events (ps, s)).1.left) (run events (ps, s)).0
unfolding run
run-Drained [] ps s d = d
run-Drained ((i, what) ∷ rest) ps s d = run-Drained rest _ _ (act_at-Drained i what ps s d).0

new_workers-Drained : (left : List (ℕ × Value)) (n : ℕ) → All (Drained left) (new_workers n)
unfolding new_workers
new_workers-Drained left zero = tt
new_workers-Drained left (suc n) = (tt, new_workers-Drained left n)

after-Drained :
    (limit : ℕ) (units : List (ℕ × Value)) (events : List (ℕ × Happening))
    → All (Drained (after limit units events).1.left) (after limit units events).0
unfolding start
after-Drained limit units events =
    run-Drained events _ _ (new_workers-Drained units (min limit (length units)))

-- one for the unit with this index, none for the others
abbrev pub one_at : ℕ → ℕ → ℕ
one_at index other = if other == index then 1 else 0

-- Whatever the workers do, and whenever they are cut off, the units with an index are, one for one,
-- those with a result, those that a worker has or had when it was cut off, and those that are left: no
-- unit is run twice or forgotten. And the results with an error are as many as the
-- workers that returned because of one.
pub after-Taken :
    (limit : ℕ) (units : List (ℕ × Value)) (events : List (ℕ × Happening)) (index : ℕ)
    → let (places, s) = after limit units events in
      (finished (one_at index) s.results
          + held (one_at index) places
          + waiting_units (one_at index) s.left
        ≡ waiting_units (one_at index) units)
      × (errors s.results ≡ failed places)
after-Taken limit units events index =
    let h = after-Sound (one_at index) limit units events in
    (omega (arith, h.conserved), omega (arith, h.errs))

abbrev pub Succeeded : Place → Type 0
Succeeded p = p ≡ returned false

held-Succeeded : (weight : ℕ → ℕ) (ps : List Place) → All Succeeded ps → held weight ps ≡ 0
held-Succeeded weight [] h = refl
held-Succeeded weight (p ∷ ps) (e, hs) =
    let one : held_by weight p ≡ 0 = rw e refl in omega (arith, one, held-Succeeded weight ps hs)

failed-Succeeded : (ps : List Place) → All Succeeded ps → failed ps ≡ 0
failed-Succeeded [] h = refl
failed-Succeeded (p ∷ ps) (e, hs) = rw e (omega (arith, failed-Succeeded ps hs))

running-Succeeded : (ps : List Place) → All Succeeded ps → running ps ≡ 0
running-Succeeded [] h = refl
running-Succeeded (p ∷ ps) (e, hs) = rw e (omega (arith, running-Succeeded ps hs))

-- A worker that succeeded leaves nothing; where there is none, there were no units.
left-Succeeded :
    (left : List (ℕ × Value)) (ps : List Place)
    → 1 ≤ length ps
    → All (Drained left) ps
    → All Succeeded ps
    → left ≡ []
left-Succeeded left [] some_worker d h = absurd (omega (arith, some_worker))
left-Succeeded left (p ∷ ps) some_worker (d, ds) (e, hs) = subst (λ q. Drained left q) e d

nothing_left :
    (weight : ℕ → ℕ) (limit : ℕ) (units : List (ℕ × Value)) (events : List (ℕ × Happening))
    → 1 ≤ limit
    → All Succeeded (after limit units events).0
    → waiting_units weight (after limit units events).1.left ≡ 0
nothing_left weight limit [] events positive h =
    omega (arith, (after-Sound weight limit [] events).conserved)
nothing_left weight limit (unit ∷ units) events positive h =
    let workers = length-after limit (unit ∷ units) events in
    let none_left =
      left-Succeeded _ (after limit (unit ∷ units) events).0 (omega (arith, workers, positive))
        (after-Drained limit (unit ∷ units) events) h in
    ap (waiting_units weight) none_left

-- Where all workers have returned without an error, and one was allowed, each unit has a result, as
-- often as it was given, none of the results has an error, and no unit is active.
pub after-Complete :
    (limit : ℕ) (units : List (ℕ × Value)) (events : List (ℕ × Happening))
    → 1 ≤ limit
    → All Succeeded (after limit units events).0
    → ((index : ℕ)
        → finished (one_at index) (after limit units events).1.results
          ≡ waiting_units (one_at index) units)
      × (errors (after limit units events).1.results ≡ 0)
      × ((after limit units events).1.active ≡ 0)
after-Complete limit units events positive h =
    let places = (after limit units events).0 in
    let sound = after-Sound (λ index. 0) limit units events in
    (
      λ index. omega (
        arith,
        (after-Taken limit units events index).0,
        held-Succeeded (one_at index) places h,
        nothing_left (one_at index) limit units events positive h,
      ),
      omega (arith, sound.errs, failed-Succeeded places h),
      omega (arith, sound.counts, running-Succeeded places h),
    )
