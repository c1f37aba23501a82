-- ===== src/Shared/Outcomes.antt =====
-- What a result or an option that is known says of its parts.
use mathlib.Core.Path.{◌≡◌, refl}
use mathlib.Core.Logic.{◌⊎◌, inl, inr}
use mathlib.Core.Option.{Option, none, some}
use native.Mathlib.Omega.{arith}
use auto_agent.Shared.Exec.{Result, ok, err, Fault, then_result, from_option}

pub some-injective : {A : Type 0} {a b : A} → some a ≡ some b → a ≡ b
some-injective e = cc e

pub no_value : {A : Type 0} {a : A} → none ≡ some a → ⊥
no_value e = ground (arith, e)

pub ok-injective : {A : Type 0} {a b : A} → ok a ≡ ok b → a ≡ b
ok-injective e = cc e

pub err_ok : {A : Type 0} {fault : Fault} {a : A} → err fault ≡ ok a → ⊥
err_ok e = ground (arith, e)

pub Result-cases :
    {A : Type 0} (x : Result A) → ((v : A) × (x ≡ ok v)) ⊎ ((fault : Fault) × (x ≡ err fault))
Result-cases (ok v) = inl (v, refl)
Result-cases (err fault) = inr (fault, refl)

pub then_result-ok :
    {A B : Type 0} (x : Result A) (f : A → Result B) (b : B)
    → then_result x f ≡ ok b
    → (a : A) × (x ≡ ok a) × (f a ≡ ok b)
then_result-ok (ok a) f b e = (a, refl, e)
then_result-ok (err fault) f b e = ground (arith, e)

pub from_option-ok :
    {A : Type 0} (fault : Fault) (o : Option A) (a : A) → from_option fault o ≡ ok a → o ≡ some a
from_option-ok fault none a e = ground (arith, e)
from_option-ok fault (some b) a e = cc e
