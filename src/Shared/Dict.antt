-- ===== src/Shared/Dict.antt =====
-- Python's `dict` and `set`, in the order of insertion.
use mathlib.Core.Path.{◌≡◌, refl}
use mathlib.Core.Bool.{Bool, false, ◌||◌}
use mathlib.Core.List.{List, [], ◌∷◌, ◌++◌}
use mathlib.Core.Option.{Option, none, some}
use native.Mathlib.Omega.{arith}
use Prim.Native.Nat.{ℕ, ◌+◌}
use mathlib.Core.Logic.{inl, inr}
use auto_agent.Shared.Tests.{if◌then◌else◌, or_else, Bool-cases}
use auto_agent.Shared.Keys.{Key, ◌==◌, ==_iff}

abbrev pub Dict {ℓ κ} : Type ℓ → Type κ → Type (ℓ ⊔ κ)
Dict K V = List (K × V)

-- list(d)
abbrev pub keys {ℓ κ} : {K : Type ℓ} {V : Type κ} → Dict K V → List K
keys [] = []
keys ((k, v) ∷ d) = k ∷ keys d

module _ {ℓ κ} {K : Type ℓ} {V : Type κ} ⦃key : Key K⦄ where
  -- d.get(k)
  unfoldable pub get : K → Dict K V → Option V
  get k [] = none
  get k ((j, v) ∷ d) = if j == k then some v else get k d

  -- d[k] = v: a known key keeps its place
  unfoldable pub put : K → V → Dict K V → Dict K V
  put k v [] = (k, v) ∷ []
  put k v ((j, w) ∷ d) = if j == k then (k, v) ∷ d else (j, w) ∷ put k v d

  -- d.pop(k, None)
  unfoldable pub remove : K → Dict K V → Dict K V
  remove k [] = []
  remove k ((j, w) ∷ d) = let rest = remove k d in if j == k then rest else (j, w) ∷ rest

  pub get-put :
      (k j : K) (v : V) (d : Dict K V) → get j (put k v d) ≡ (if k == j then some v else get j d)
  unfolding get put
  get-put k j v [] = refl
  get-put k j v ((i, w) ∷ d) = ground (arith, ==_iff k j, ==_iff i k, ==_iff i j, get-put k j v d)

  pub get-remove :
      (k j : K) (d : Dict K V) → get j (remove k d) ≡ (if k == j then none else get j d)
  unfolding get remove
  get-remove k j [] = ground arith
  get-remove k j ((i, w) ∷ d) = ground (arith, ==_iff k j, ==_iff i k, ==_iff i j, get-remove k j d)

  pub get-nil : (k : K) → get k [] ≡ none
  unfolding get
  get-nil k = refl

module _ {ℓ} {K : Type ℓ} ⦃key : Key K⦄ where
  -- `k in s`
  unfoldable pub contains : K → List K → Bool
  contains k [] = false
  contains k (j ∷ s) = j == k || contains k s

  -- s.add(k)
  unfoldable pub add : K → List K → List K
  add k [] = k ∷ []
  add k (j ∷ s) = if j == k then j ∷ s else j ∷ add k s

  -- s.discard(k)
  unfoldable pub remove_key : K → List K → List K
  remove_key k [] = []
  remove_key k (j ∷ s) = let rest = remove_key k s in if j == k then rest else j ∷ rest

  pub contains-append :
      (k : K) (s t : List K) → contains k (s ++ t) ≡ (contains k s || contains k t)
  unfolding contains
  contains-append k [] t = refl
  contains-append k (j ∷ s) t = ground (arith, contains-append k s t)

  pub contains-append_one :
      (j k : K) (s : List K) → contains k (s ++ j ∷ []) ≡ (j == k || contains k s)
  unfolding contains
  contains-append_one j k [] = refl
  contains-append_one j k (i ∷ s) = ground (arith, contains-append_one j k s)

  pub contains-add : (k j : K) (s : List K) → contains j (add k s) ≡ (k == j || contains j s)
  unfolding contains add
  contains-add k j [] = refl
  contains-add k j (i ∷ s) = ground (arith, ==_iff k j, ==_iff i k, ==_iff i j, contains-add k j s)

-- A dictionary with one entry for each key.
abbrev pub IsUnique {ℓ κ} : {K : Type ℓ} {V : Type κ} → ⦃key : Key K⦄ → Dict K V → Type κ
IsUnique [] = Unit
IsUnique ((k, v) ∷ d) = (get k d ≡ none) × IsUnique d

-- sum(d.values())
abbrev pub total {ℓ} : {K : Type ℓ} → Dict K ℕ → ℕ
total [] = 0
total ((k, n) ∷ d) = n + total d

module _ {ℓ κ} {K : Type ℓ} {V : Type κ} ⦃key : Key K⦄ where
  pub put-IsUnique : (k : K) (v : V) (d : Dict K V) → IsUnique d → IsUnique (put k v d)
  unfolding put get
  put-IsUnique k v [] h = (refl, tt)
  put-IsUnique k v ((j, w) ∷ d) h = elim (Bool-cases (j == k)) [
    | inl same ↦ let e : j ≡ k = (==_iff j k).0 same in rw same (rw e at h)
    | inr other ↦
        rw other (rw get-put (ground (arith, ==_iff k j, ==_iff j k, h.0)), put-IsUnique k v d h.1)
  ]

  get-remove_absent : (k j : K) (d : Dict K V) → get j d ≡ none → get j (remove k d) ≡ none
  get-remove_absent k j d h = ground (arith, get-remove k j d, h)

  pub remove-IsUnique : (k : K) (d : Dict K V) → IsUnique d → IsUnique (remove k d)
  unfolding remove get
  remove-IsUnique k [] h = tt
  remove-IsUnique k ((j, w) ∷ d) h = elim (Bool-cases (j == k)) [
    | inl same ↦ rw same (remove-IsUnique k d h.1)
    | inr other ↦ rw other (get-remove_absent k j d h.0, remove-IsUnique k d h.1)
  ]

module _ {ℓ} {K : Type ℓ} ⦃key : Key K⦄ where
  -- A value replaces the old one in the sum, 0 where there is none.
  pub total-put :
      (k : K) (n : ℕ) (d : Dict K ℕ) → total (put k n d) + or_else (get k d) 0 ≡ total d + n
  unfolding put get
  total-put k n [] = omega arith
  total-put k n ((j, m) ∷ d) = elim (Bool-cases (j == k)) [
    | inl same ↦ rw same (omega arith)
    | inr other ↦ rw other (omega (arith, total-put k n d))
  ]

  pub total-remove :
      (k : K) (d : Dict K ℕ) → IsUnique d → total (remove k d) + or_else (get k d) 0 ≡ total d
  unfolding remove get
  total-remove k [] h = refl
  total-remove k ((j, m) ∷ d) h = elim (Bool-cases (j == k)) [
    | inl same ↦
        let e : j ≡ k = (==_iff j k).0 same in
        let gone : get k d ≡ none = rw e at h.0 in
        let rest : total (remove k d) + or_else (get k d) 0 ≡ total d = total-remove k d h.1 in
        rw same (omega (arith, rw gone at rest))
    | inr other ↦ rw other (omega (arith, total-remove k d h.1))
  ]

pub ruleset dict_laws = (get-put, get-remove, get-nil, contains-add)
