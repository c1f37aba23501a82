-- ===== src/Shared/Booleans.antt =====
-- Laws of the Boolean connectives.
use mathlib.Core.Path.{◌≡◌, refl}
use mathlib.Core.Bool.{Bool, true, false, ◌&&◌, ◌||◌, not}
use native.Mathlib.Omega.{arith}

pub or_true : (a b : Bool) → b ≡ true → (a || b) ≡ true
or_true true b e = refl
or_true false b e = e

pub or_right : (a : Bool) → (a || true) ≡ true
or_right true = refl
or_right false = refl

pub or_false : (a : Bool) → (a || false) ≡ true → a ≡ true
or_false true e = refl
or_false false e = e

pub or_none : (b : Bool) → b ≡ (b || false)
or_none true = refl
or_none false = refl

pub or_swap : (a b c : Bool) → ((a || b) || c) ≡ (b || (a || c))
or_swap true true c = refl
or_swap true false c = refl
or_swap false true c = refl
or_swap false false c = refl

pub and_false : (b : Bool) → (b && false) ≡ false
and_false true = refl
and_false false = refl

pub and_or : (a b c : Bool) → ((a && c) || (b && c)) ≡ ((a || b) && c)
and_or a b c = ground arith

pub absorb : (a b : Bool) → ((a && b) || (not (a && b) && b)) ≡ b
absorb true true = refl
absorb true false = refl
absorb false b = refl

pub shuffle : (a r s p : Bool) → (r || (a || p)) ≡ true → ((a || r) || (s || p)) ≡ true
shuffle a r s p e = ground (arith, e)
