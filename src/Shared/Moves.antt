-- ===== src/Shared/Moves.antt =====
-- Relations between the states before and after an action, one rule for each way to build actions.
use auto_agent.Shared.Tests.{if◌then◌else◌}
use mathlib.Core.Bool.{Bool, true, false}
use mathlib.Core.List.{List, [], ◌∷◌}
use auto_agent.Shared.Exec.{
  Fault, Result, ok, err, Exec, pure, raise, lift, gets, continue, ◌>>=◌, for_each,
}

pub record Preorder {S : Type 0} (R : S → S → Type 0) : Type 0 where
  pub reflexive : (s : S) → R s s
  pub transitive : (s t u : S) → R s t → R t u → R s u

-- Whether `m` returns or raises, the state that it leaves is related to the one that it found.
pub record Moves {S A : Type 0} (R : S → S → Type 0) (m : Exec S A) : Type 0 where
  pub at : (s : S) → R s (m s).1

module _ {S : Type 0} {R : S → S → Type 0} (p : Preorder R) where
  pub Moves-pure : {A : Type 0} (a : A) → Moves R (pure {S = S} a)
  Moves-pure a = record { at = p.reflexive }

  pub Moves-raise : {A : Type 0} (c : Fault) → Moves R (raise {S = S} {A = A} c)
  Moves-raise c = record { at = p.reflexive }

  pub Moves-lift : {A : Type 0} (r : Result A) → Moves R (lift {S = S} r)
  Moves-lift r = record { at = p.reflexive }

  pub Moves-gets : {A : Type 0} (f : S → A) → Moves R (gets f)
  Moves-gets f = record { at = p.reflexive }

  continue-Moves :
      {A B : Type 0} (r : Result A) (f : A → Exec S B) (s t : S)
      → ((a : A) → Moves R (f a))
      → R s t
      → R s (continue r f t).1
  continue-Moves (ok a) f s t kf h = p.transitive s t _ h ((kf a).at t)
  continue-Moves (err c) f s t kf h = h

  pub Moves-bind :
      {A B : Type 0} {m : Exec S A} {f : A → Exec S B}
      → Moves R m
      → ((a : A) → Moves R (f a))
      → Moves R (m >>= f)
  unfolding ◌>>=◌
  Moves-bind {m = m} {f = f} km kf = record {
    at = λ s. let (r, t) = m s in continue-Moves r f s t kf (km.at s);
  }

  pub Moves-if :
      {A : Type 0} (b : Bool) {m n : Exec S A}
      → Moves R m
      → Moves R n
      → Moves R (if b then m else n)
  Moves-if true km kn = km
  Moves-if false km kn = kn

  pub Moves-for_each :
      {A : Type 0} (xs : List A) (body : A → Exec S Unit)
      → ((x : A) → Moves R (body x))
      → Moves R (for_each xs body)
  unfolding for_each
  Moves-for_each [] body k = record { at = p.reflexive }
  Moves-for_each (x ∷ xs) body k = Moves-bind (k x) (λ _. Moves-for_each xs body k)

pub ruleset moves_rules = (Moves-pure, Moves-raise, Moves-lift, Moves-gets, Moves-bind, Moves-if)
