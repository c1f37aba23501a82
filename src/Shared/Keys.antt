-- ===== src/Shared/Keys.antt =====
-- Equality of dictionary keys as an interface, and texts as lists of code points.
use Prim.Native.Nat.{ℕ, zero, suc, ◌+◌, ◌/◌, ◌%◌}
use Prim.Native.Char.{code}
use Prim.Native.String.{String}
use mathlib.Core.Path.{◌≡◌, refl}
use mathlib.Core.Logic.{◌↔◌}
use mathlib.Core.Bool.{Bool, true, false, ◌&&◌}
use mathlib.Core.List.{List, [], ◌∷◌}
use native.Mathlib.Omega.{arith}
use auto_agent.Shared.Tests.{eqb, ltb, eqb_iff, if◌then◌else◌}

-- What a dictionary asks of the type of its keys: a test that says whether two keys are the same.
pub record Key {κ} (K : Type κ) : Type κ where
  pub same : K → K → Bool
  pub same_iff : {k j : K} → (same k j ≡ true) ↔ (k ≡ j)

infix 50 ◌==◌
abbrev pub ◌==◌ {κ} : {K : Type κ} → ⦃key : Key K⦄ → K → K → Bool
◌==◌ ⦃key⦄ k j = key.same k j

abbrev pub ==_iff {κ} : {K : Type κ} → ⦃key : Key K⦄ → (k j : K) → (k == j ≡ true) ↔ (k ≡ j)
==_iff ⦃key⦄ k j = key.same_iff

-- A text is the list of its code points.
abbrev pub Text : Type 0
Text = List ℕ

abbrev pub text : String → Text
text String.[] = []
text (String.◌∷◌ c s) = code c ∷ text s

abbrev pub text_beq : Text → Text → Bool
text_beq [] [] = true
text_beq [] (y ∷ ys) = false
text_beq (x ∷ xs) [] = false
text_beq (x ∷ xs) (y ∷ ys) = eqb x y && text_beq xs ys

text_beq_sound : (xs ys : Text) → text_beq xs ys ≡ true → xs ≡ ys
text_beq_sound [] [] h = refl
text_beq_sound [] (y ∷ ys) h = ground arith
text_beq_sound (x ∷ xs) [] h = ground arith
text_beq_sound (x ∷ xs) (y ∷ ys) h = ground (arith, text_beq_sound xs ys)

text_beq_refl : (xs : Text) → text_beq xs xs ≡ true
text_beq_refl [] = refl
text_beq_refl (x ∷ xs) = ground (arith, text_beq_refl xs)

pub text_beq_iff : (xs ys : Text) → (text_beq xs ys ≡ true) ↔ (xs ≡ ys)
text_beq_iff xs ys = (text_beq_sound xs ys, λ e. rw e (text_beq_refl ys))

instance abbrev pub text_eq : Key Text
text_eq = record { same = text_beq; same_iff = λ {k} {j}. text_beq_iff k j }

instance abbrev pub nat_eq : Key ℕ
nat_eq = record { same = eqb; same_iff = λ {k} {j}. eqb_iff k j }

-- `a <= b` on strings: the order of the code points.
abbrev pub text_le : Text → Text → Bool
text_le [] ys = true
text_le (x ∷ xs) [] = false
text_le (x ∷ xs) (y ∷ ys) = if ltb x y then true else if ltb y x then false else text_le xs ys

-- `str(n)` of a number; the fuel `n + 1` is more than its digits.
decimal_from : ℕ → ℕ → Text → Text
decimal_from zero n rest = rest
decimal_from (suc f) n rest =
    let more = decimal_from f (n / 10) ((48 + n % 10) ∷ rest) in
    if ltb n 10 then (48 + n) ∷ rest else more

unfoldable pub decimal : ℕ → Text
unfolding decimal_from
decimal n = decimal_from (suc n) n []

decimal_four : decimal 4071 ≡ text "4071"
unfolding decimal
decimal_four = refl
