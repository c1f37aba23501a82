-- ===== src/Runtime/Snapshot/Reads.antt =====
-- What can be read from a value along paths: two values that read the same everywhere differ at most in the
-- order of the keys of their dictionaries.
use auto_agent.Shared.{
  ℕ, zero, suc, ◌≡◌, refl, sym, ap, true, ◌&&◌, Option, none, some, List, [], ◌∷◌, ◌++◌, is_some,
  or_else, length, all_of, arith, Option-cases, Bool-cases, inl, inr, &&-parts, eqb_iff,
}
use auto_agent.Shared.Keys.{Text, text_eq, ◌==◌, ==_iff, text_beq_iff}
use auto_agent.Shared.Dict
use auto_agent.Shared.Dict.{Dict, keys}
use auto_agent.Runtime.Value.{
  Value, null, atom, chars, arr, obj, Items, nil, cons, Fields, end, field, listed, entries, lookup,
  value_eq, items_eq, fields_in,
}
use auto_agent.Runtime.Snapshot.{Segment, key, at, nth, child}

-- A leaf is itself; of a container its kind, and of a list its length.
pub data Shape : Type 0 where
  leaf : Value → Shape
  list_of : ℕ → Shape
  dictionary : Shape

abbrev shape : Value → Shape
shape (arr xs) = list_of (length (listed xs))
shape (obj f) = dictionary
shape null = leaf null
shape (atom n) = leaf (atom n)
shape (chars s) = leaf (chars s)

abbrev pub found : List Segment → Option Value → Option Shape
found path none = none
found [] (some v) = some (shape v)
found (segment ∷ path) (some v) = found path (child segment v)

abbrev pub Agree : Value → Value → Type 0
Agree v w = (path : List Segment) → found path (some v) ≡ found path (some w)

abbrev pub SameAt : Option Value → Option Value → Type 0
SameAt o p = (path : List Segment) → found path o ≡ found path p

pub Agree-refl : (v : Value) → Agree v v
Agree-refl v path = refl

abbrev pub AllAgree : List Value → List Value → Type 0
AllAgree [] [] = Unit
AllAgree (v ∷ vs) (w ∷ ws) = Agree v w × AllAgree vs ws
AllAgree vs ws = ⊥

AllAgree-refl : (vs : List Value) → AllAgree vs vs
AllAgree-refl [] = tt
AllAgree-refl (v ∷ vs) = (Agree-refl v, AllAgree-refl vs)

pub AllAgree-append : (vs ws us : List Value) → AllAgree vs ws → AllAgree (vs ++ us) (ws ++ us)
AllAgree-append [] [] us h = AllAgree-refl us
AllAgree-append [] (w ∷ ws) us h = elim h [ ]
AllAgree-append (v ∷ vs) [] us h = elim h [ ]
AllAgree-append (v ∷ vs) (w ∷ ws) us h = (h.0, AllAgree-append vs ws us h.1)

pub AllAgree-sym : (vs ws : List Value) → AllAgree vs ws → AllAgree ws vs
AllAgree-sym [] [] h = tt
AllAgree-sym [] (w ∷ ws) h = elim h [ ]
AllAgree-sym (v ∷ vs) [] h = elim h [ ]
AllAgree-sym (v ∷ vs) (w ∷ ws) h = (λ path. sym (h.0 path), AllAgree-sym vs ws h.1)

AllAgree-length : (vs ws : List Value) → AllAgree vs ws → length vs ≡ length ws
AllAgree-length [] [] h = refl
AllAgree-length [] (w ∷ ws) h = elim h [ ]
AllAgree-length (v ∷ vs) [] h = elim h [ ]
AllAgree-length (v ∷ vs) (w ∷ ws) h = ap suc (AllAgree-length vs ws h.1)

AllAgree-nth :
    (vs ws : List Value) (n : ℕ) (path : List Segment)
    → AllAgree vs ws
    → found path (nth n vs) ≡ found path (nth n ws)
AllAgree-nth [] [] n path h = refl
AllAgree-nth [] (w ∷ ws) n path h = elim h [ ]
AllAgree-nth (v ∷ vs) [] n path h = elim h [ ]
AllAgree-nth (v ∷ vs) (w ∷ ws) zero path h = h.0 path
AllAgree-nth (v ∷ vs) (w ∷ ws) (suc n) path h = AllAgree-nth vs ws n path h.1

pub arr-Agree : (xs ys : Items) → AllAgree (listed xs) (listed ys) → Agree (arr xs) (arr ys)
unfolding child
arr-Agree xs ys h [] = ap (λ n. some (list_of n)) (AllAgree-length (listed xs) (listed ys) h)
arr-Agree xs ys h (key k ∷ path) = refl
arr-Agree xs ys h (at n ∷ path) = AllAgree-nth (listed xs) (listed ys) n path h

pub obj-Agree :
    (f g : Fields) → ((k : Text) → SameAt (lookup k f) (lookup k g)) → Agree (obj f) (obj g)
unfolding child
obj-Agree f g h [] = refl
obj-Agree f g h (key k ∷ path) = h k path
obj-Agree f g h (at n ∷ path) = refl

-- Each key of the first dictionary has a value in the second one that reads the same.
Within : Fields → Fields → Type 0
Within f g =
    (k : Text) (v : Value) → lookup k f ≡ some v → (w : Value) × (lookup k g ≡ some w) × Agree v w

lookup_known :
    (k : Text) (f g : Fields)
    → all_of (λ j. is_some (lookup j f)) (keys (entries g)) ≡ true
    → is_some (lookup k g) ≡ true
    → is_some (lookup k f) ≡ true
unfolding Dict.get
lookup_known k f end h e = ground (arith, e)
lookup_known k f (field j w g) h e =
    let (here, rest) = &&-parts (is_some (lookup j f)) _ h in
    elim (Bool-cases (j == k)) [
      | inl same ↦ let eq : j ≡ k = (==_iff j k).0 same in rw eq at here
      | inr other ↦ lookup_known k f g rest (rw other at e)
    ]

Within-SameAt :
    (f g : Fields)
    → Within f g
    → all_of (λ j. is_some (lookup j f)) (keys (entries g)) ≡ true
    → (k : Text) → SameAt (lookup k f) (lookup k g)
unfolding Within
Within-SameAt f g within known k path = elim (Option-cases (lookup k f)) [
  | inl missing ↦ elim (Option-cases (lookup k g)) [
    | inl gone ↦ rw (missing, gone) refl
    | inr (w, there) ↦
        let back : is_some (lookup k f) ≡ true = lookup_known k f g known (rw there refl) in
        ground (arith, back, missing)
  ]
  | inr (v, here) ↦ let (w, there, same) = within k v here in rw (here, there) (same path)
]

mutual
  unfolding value_eq items_eq fields_in Within Dict.get

  pub value_eq-Agree : (v w : Value) → value_eq v w ≡ true → Agree v w
  value_eq-Agree null null h path = refl
  value_eq-Agree (atom a) (atom b) h path = ap (λ n. found path (some (atom n))) ((eqb_iff a b).0 h)
  value_eq-Agree (chars s) (chars t) h path =
      ap (λ t. found path (some (chars t))) ((text_beq_iff s t).0 h)
  value_eq-Agree (arr xs) (arr ys) h path = arr-Agree xs ys (items_eq-AllAgree xs ys h) path
  value_eq-Agree (obj f) (obj g) h path =
      let (within, known) = &&-parts (fields_in f g) _ h in
      obj-Agree f g (Within-SameAt f g (fields_in-Within f g within) known) path
  value_eq-Agree null (atom b) h path = ground (arith, h)
  value_eq-Agree null (chars t) h path = ground (arith, h)
  value_eq-Agree null (arr ys) h path = ground (arith, h)
  value_eq-Agree null (obj g) h path = ground (arith, h)
  value_eq-Agree (atom a) null h path = ground (arith, h)
  value_eq-Agree (atom a) (chars t) h path = ground (arith, h)
  value_eq-Agree (atom a) (arr ys) h path = ground (arith, h)
  value_eq-Agree (atom a) (obj g) h path = ground (arith, h)
  value_eq-Agree (chars s) null h path = ground (arith, h)
  value_eq-Agree (chars s) (atom b) h path = ground (arith, h)
  value_eq-Agree (chars s) (arr ys) h path = ground (arith, h)
  value_eq-Agree (chars s) (obj g) h path = ground (arith, h)
  value_eq-Agree (arr xs) null h path = ground (arith, h)
  value_eq-Agree (arr xs) (atom b) h path = ground (arith, h)
  value_eq-Agree (arr xs) (chars t) h path = ground (arith, h)
  value_eq-Agree (arr xs) (obj g) h path = ground (arith, h)
  value_eq-Agree (obj f) null h path = ground (arith, h)
  value_eq-Agree (obj f) (atom b) h path = ground (arith, h)
  value_eq-Agree (obj f) (chars t) h path = ground (arith, h)
  value_eq-Agree (obj f) (arr ys) h path = ground (arith, h)

  pub items_eq-AllAgree : (xs ys : Items) → items_eq xs ys ≡ true → AllAgree (listed xs) (listed ys)
  items_eq-AllAgree nil nil h = tt
  items_eq-AllAgree (cons v xs) (cons w ys) h =
      let (first, rest) = &&-parts (value_eq v w) _ h in
      (value_eq-Agree v w first, items_eq-AllAgree xs ys rest)
  items_eq-AllAgree nil (cons w ys) h = ground (arith, h)
  items_eq-AllAgree (cons v xs) nil h = ground (arith, h)

  fields_in-Within : (f g : Fields) → fields_in f g ≡ true → Within f g
  fields_in-Within end g h k v e = ground (arith, e)
  fields_in-Within (field j u f) g h k v e =
      let (both, rest) =
        &&-parts (is_some (lookup j g) && value_eq u (or_else (lookup j g) null)) (fields_in f g)
          h in
      let (there, equal) = &&-parts (is_some (lookup j g)) _ both in
      elim (Bool-cases (j == k)) [
        | inl same ↦
            let eq : j ≡ k = (==_iff j k).0 same in
            let now : some u ≡ some v = rw same at e in
            let eu : u ≡ v = cc now in
            elim (Option-cases (lookup j g)) [
              | inl missing ↦ ground (arith, there, missing)
              | inr (w, known) ↦
                  let equal_w : value_eq u w ≡ true = rw known at equal in
                  (w, rw eq at known, λ path. rw eu at (value_eq-Agree u w equal_w path))
            ]
        | inr other ↦ fields_in-Within f g rest k v (rw other at e)
      ]
