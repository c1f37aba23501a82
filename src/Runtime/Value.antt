-- ===== src/Runtime/Value.antt =====
-- The values that a user's code hands to the runtime (`Any` in the source): trees of lists and
-- dictionaries over leaves, which are `None`, strings, and others, each of these a number that stands for
-- its class under Python's `==`.
use auto_agent.Shared.{
  ℕ, ◌≡◌, refl, ap, Bool, true, false, ◌&&◌, Option, List, [], ◌∷◌, eqb, is_some, or_else, all_of,
}
use auto_agent.Shared.Dict
use auto_agent.Shared.Dict.{Dict, keys}
use auto_agent.Shared.Keys.{Text, text_beq, text_eq}

mutual
  pub data Value : Type 0 where
    null : Value
    atom : ℕ → Value
    chars : Text → Value
    arr : Items → Value
    obj : Fields → Value

  pub data Items : Type 0 where
    nil : Items
    cons : Value → Items → Items

  pub data Fields : Type 0 where
    end : Fields
    field : Text → Value → Fields → Fields

-- A list of values, and its items.
abbrev pub items_of : List Value → Items
items_of [] = nil
items_of (v ∷ vs) = cons v (items_of vs)

abbrev pub listed : Items → List Value
listed nil = []
listed (cons v rest) = v ∷ listed rest

-- A dictionary of values, and its fields.
abbrev pub fields_of : Dict Text Value → Fields
fields_of [] = end
fields_of ((k, v) ∷ d) = field k v (fields_of d)

abbrev pub entries : Fields → Dict Text Value
entries end = []
entries (field k v f) = (k, v) ∷ entries f

pub listed-items_of : (vs : List Value) → listed (items_of vs) ≡ vs
listed-items_of [] = refl
listed-items_of (v ∷ vs) = ap (λ l. v ∷ l) (listed-items_of vs)

pub items_of-listed : (xs : Items) → items_of (listed xs) ≡ xs
items_of-listed nil = refl
items_of-listed (cons v rest) = ap (cons v) (items_of-listed rest)

pub entries-fields_of : (d : Dict Text Value) → entries (fields_of d) ≡ d
entries-fields_of [] = refl
entries-fields_of ((k, v) ∷ d) = ap (λ l. (k, v) ∷ l) (entries-fields_of d)

abbrev pub lookup : Text → Fields → Option Value
lookup k f = Dict.get k (entries f)

-- Python's `==` on values. Two dictionaries are equal when they have the same keys, and equal values there.
unfoldable mutual
  pub value_eq : Value → Value → Bool
  value_eq null null = true
  value_eq (atom a) (atom b) = eqb a b
  value_eq (chars s) (chars t) = text_beq s t
  value_eq (arr xs) (arr ys) = items_eq xs ys
  value_eq (obj f) (obj g) = fields_in f g && all_of (λ j. is_some (lookup j f)) (keys (entries g))
  value_eq v w = false

  pub items_eq : Items → Items → Bool
  items_eq nil nil = true
  items_eq (cons v xs) (cons w ys) = value_eq v w && items_eq xs ys
  items_eq xs ys = false

  pub fields_in : Fields → Fields → Bool
  fields_in end g = true
  fields_in (field k v f) g =
      is_some (lookup k g) && value_eq v (or_else (lookup k g) null) && fields_in f g
