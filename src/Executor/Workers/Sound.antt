-- ===== src/Executor/Workers/Sound.antt =====
-- How many units run at once, and what becomes of each unit.
use auto_agent.Shared.{
  ℕ, zero, suc, ◌+◌, ◌≤◌, ◌≡◌, refl, Bool, true, false, some, List, [], ◌∷◌, is_some, length, arith,
}
use auto_agent.Runtime.Value.{Value}
use auto_agent.Executor.{UnitResult}
use auto_agent.Executor.Workers.{
  Place, waiting, busy, returned, raised, stopped, Pool, Happening, goes, ends, fails, cancelled,
  leave, keep_result, take_unit, go_round, act, act_at,
}
use auto_agent.Executor.Workers.Counts.{
  is_busy, running, is_failed, failed, error_count, errors, held_by, held, finished, waiting_units,
  finished-append_one, errors-append_one, running-length,
}

-- The workers before `ps` are `places`, of which `runs` are busy, hold units of weight `holds`, and
-- `fell` of which returned with an error; the units have the weight `total`.
pub record Sound (weight : ℕ → ℕ) (total places runs holds fell : ℕ) (ps : List Place) (s : Pool)
    : Type 0 where
  pub counts : s.active ≡ runs + running ps
  pub conserved :
      finished weight s.results + (holds + held weight ps) + waiting_units weight s.left ≡ total
  pub errs : errors s.results ≡ fell + failed ps
  pub peaks : s.active ≤ s.peak_parallelism
  pub bound : s.peak_parallelism ≤ places + length ps
  pub room : runs ≤ places

module _ (weight : ℕ → ℕ) (total places runs holds fell : ℕ) where
  abbrev S : List Place → Pool → Type 0
  S = Sound weight total places runs holds fell

  -- A worker without a unit takes the next one.
  take_unit-Sound :
      (ps : List Place) (units : List (ℕ × Value)) (s : Pool)
      → s.left ≡ units
      → S (waiting ∷ ps) s
      → S ((take_unit units s).0 ∷ ps) (take_unit units s).1
  unfolding take_unit
  take_unit-Sound ps [] s e h = record {
    counts = omega (arith, h.counts);
    conserved = omega (arith, h.conserved);
    errs = omega (arith, h.errs);
    peaks = h.peaks;
    bound = h.bound;
    room = h.room;
  }
  take_unit-Sound ps (unit ∷ units) s e h =
      let c : finished weight s.results
            + (holds + held weight (waiting ∷ ps))
            + waiting_units weight (unit ∷ units)
          ≡ total =
        rw e at h.conserved in
      record {
        counts = omega (arith, h.counts);
        conserved = omega (arith, c);
        errs = omega (arith, h.errs);
        peaks = omega (arith, h.peaks);
        bound = omega (arith, h.bound, h.counts, h.room, running-length ps);
        room = h.room;
      }

  -- A worker that ends a unit without an error stands where it started.
  finish-Sound :
      (ps : List Place) (index : ℕ) (result : UnitResult) (s : Pool)
      → is_some result.error ≡ false
      → S (busy index ∷ ps) s
      → S (waiting ∷ ps) (keep_result index result (leave s))
  unfolding leave
  finish-Sound ps index result s e h =
      let r : UnitResult = record result { index = index } in
      let n : error_count (is_some r.error) ≡ 0 = rw e refl in
      record {
        counts = omega (arith, h.counts);
        conserved = omega (arith, h.conserved, finished-append_one weight s.results r);
        errs = omega (arith, h.errs, errors-append_one s.results r, n);
        peaks = omega (arith, h.peaks);
        bound = h.bound;
        room = h.room;
      }

  stop-Sound :
      (ps : List Place) (index : ℕ) (result : UnitResult) (s : Pool)
      → is_some result.error ≡ true
      → S (busy index ∷ ps) s
      → S (returned true ∷ ps) (keep_result index result (leave s))
  unfolding leave
  stop-Sound ps index result s e h =
      let r : UnitResult = record result { index = index } in
      let n : error_count (is_some r.error) ≡ 1 = rw e refl in
      record {
        counts = omega (arith, h.counts);
        conserved = omega (arith, h.conserved, finished-append_one weight s.results r);
        errs = omega (arith, h.errs, errors-append_one s.results r, n);
        peaks = omega (arith, h.peaks);
        bound = h.bound;
        room = h.room;
      }

  go_round-Sound :
      (failing : Bool) (ps : List Place) (index : ℕ) (result : UnitResult) (s : Pool)
      → is_some result.error ≡ failing
      → S (busy index ∷ ps) s
      → let (place, s') = go_round failing (keep_result index result (leave s)) in S (place ∷ ps) s'
  unfolding go_round
  go_round-Sound true ps index result s e h = stop-Sound ps index result s e h
  go_round-Sound false ps index result s e h =
      take_unit-Sound ps _ _ refl (finish-Sound ps index result s e h)

  -- A worker that is cut off keeps its unit.
  leave-Sound :
      (ps : List Place) (index : ℕ) (place : Place) (s : Pool)
      → is_busy place ≡ 0
      → is_failed place ≡ 0
      → held_by weight place ≡ weight index
      → S (busy index ∷ ps) s
      → S (place ∷ ps) (leave s)
  unfolding leave
  leave-Sound ps index place s idle fine keeps h = record {
    counts = omega (arith, h.counts, idle);
    conserved = omega (arith, h.conserved, keeps);
    errs = omega (arith, h.errs, fine);
    peaks = omega (arith, h.peaks);
    bound = h.bound;
    room = h.room;
  }

  act-Sound :
      (what : Happening) (place : Place) (ps : List Place) (s : Pool)
      → S (place ∷ ps) s
      → S ((act what place s).0 ∷ ps) (act what place s).1
  unfolding act
  act-Sound goes waiting ps s h = take_unit-Sound ps s.left s refl h
  act-Sound goes (busy index) ps s h = h
  act-Sound goes (returned b) ps s h = h
  act-Sound goes (raised index) ps s h = h
  act-Sound goes (stopped o) ps s h = h
  act-Sound (ends result) waiting ps s h = h
  act-Sound (ends result) (busy index) ps s h =
      go_round-Sound (is_some result.error) ps index result s refl h
  act-Sound (ends result) (returned b) ps s h = h
  act-Sound (ends result) (raised index) ps s h = h
  act-Sound (ends result) (stopped o) ps s h = h
  act-Sound fails waiting ps s h = h
  act-Sound fails (busy index) ps s h = leave-Sound ps index (raised index) s refl refl refl h
  act-Sound fails (returned b) ps s h = h
  act-Sound fails (raised index) ps s h = h
  act-Sound fails (stopped o) ps s h = h
  act-Sound cancelled waiting ps s h = record {
    counts = h.counts;
    conserved = h.conserved;
    errs = h.errs;
    peaks = h.peaks;
    bound = h.bound;
    room = h.room;
  }
  act-Sound cancelled (busy index) ps s h =
      leave-Sound ps index (stopped (some index)) s refl refl refl h
  act-Sound cancelled (returned b) ps s h = h
  act-Sound cancelled (raised index) ps s h = h
  act-Sound cancelled (stopped o) ps s h = h

-- The first worker moves over to those before, and back.
over :
    (weight : ℕ → ℕ) (total places runs holds fell : ℕ) (p : Place) (ps : List Place) (s : Pool)
    → Sound weight total places runs holds fell (p ∷ ps) s
    → Sound weight total
        (suc places)
        (runs + is_busy p)
        (holds + held_by weight p)
        (fell + is_failed p)
        ps
        s
over weight total places runs holds fell p ps s h = record {
  counts = omega (arith, h.counts);
  conserved = omega (arith, h.conserved);
  errs = omega (arith, h.errs);
  peaks = h.peaks;
  bound = omega (arith, h.bound);
  room = omega (arith, h.room, running-length (p ∷ []));
}

back :
    (weight : ℕ → ℕ) (total places runs holds fell : ℕ) (p : Place) (ps : List Place) (s : Pool)
    → runs ≤ places
    → Sound weight total
        (suc places)
        (runs + is_busy p)
        (holds + held_by weight p)
        (fell + is_failed p)
        ps
        s
    → Sound weight total places runs holds fell (p ∷ ps) s
back weight total places runs holds fell p ps s room h = record {
  counts = omega (arith, h.counts);
  conserved = omega (arith, h.conserved);
  errs = omega (arith, h.errs);
  peaks = h.peaks;
  bound = omega (arith, h.bound);
  room = room;
}

pub act_at-Sound :
    (i : ℕ) (what : Happening) (ps : List Place) (weight : ℕ → ℕ) (total places runs holds fell : ℕ)
    (s : Pool)
    → Sound weight total places runs holds fell ps s
    → Sound weight total places runs holds fell (act_at i what ps s).0 (act_at i what ps s).1
unfolding act_at
act_at-Sound i what [] weight total places runs holds fell s h = h
act_at-Sound zero what (p ∷ ps) weight total places runs holds fell s h =
    act-Sound weight total places runs holds fell what p ps s h
act_at-Sound (suc i) what (p ∷ ps) weight total places runs holds fell s h =
    back weight total places runs holds fell p _ _ h.room (
      act_at-Sound i what ps weight total (suc places) (runs + is_busy p) (holds + held_by weight p)
        (fell + is_failed p) s (over weight total places runs holds fell p ps s h))
