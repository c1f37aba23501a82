-- ===== src/Compiler/Reach.antt =====
-- The search, against the nodes that a path leads to.
use auto_agent.Shared.{
  ℕ, zero, suc, ◌+◌, ◌≤◌, ◌≡◌, refl, sym, ap, ◌∙◌, subst, true, false, ◌||◌, List, [], ◌∷◌, ◌++◌,
  arith, Bool-cases, inl, inr, ◌↔◌, length, length-append, reversed,
}
use auto_agent.Shared.Booleans.{or_right, or_false, shuffle}
use auto_agent.Shared.Keys.{Text, text_eq, ◌==◌, ==_iff}
use auto_agent.Shared.Dict
use auto_agent.Shared.Dict.{Dict, contains-add, contains-append}
use auto_agent.Shared.Exec.{Result, ok}
use auto_agent.Compiler.{search, successors_of, weight, reachable_from}

-- A path of successors leads from one of the starts to the node.
pub data Reaches (successors : Dict Text (List Text)) (starts : List Text) : Text → Type 0 where
  start : (n : Text) → Dict.contains n starts ≡ true → Reaches successors starts n
  step :
      (n m : Text)
      → Reaches successors starts n
      → Dict.contains m (successors_of successors n) ≡ true
      → Reaches successors starts m

contains-reversed : (j : Text) (xs : List Text) → Dict.contains j (reversed xs) ≡ Dict.contains j xs
unfolding Dict.contains
contains-reversed j [] = refl
contains-reversed j (x ∷ xs) =
    ground (arith, contains-append j (reversed xs) (x ∷ []), contains-reversed j xs)

length-reversed : (xs : List Text) → length (reversed xs) ≡ length xs
length-reversed [] = refl
length-reversed (x ∷ xs) = rw (length-append, length-reversed xs) (omega arith)

weight-add_le :
    (n : Text) (reachable : List Text) (d : Dict Text (List Text))
    → weight (Dict.add n reachable) d ≤ weight reachable d
weight-add_le n reachable [] = omega arith
weight-add_le n reachable ((m, ns) ∷ d) = elim (Bool-cases (Dict.contains m reachable)) [
  | inl there ↦
      let still : Dict.contains m (Dict.add n reachable) ≡ true =
        contains-add n m reachable ∙ rw there (or_right (n == m)) in
      rw (there, still) (omega (arith, weight-add_le n reachable d))
  | inr new ↦ elim (Bool-cases (Dict.contains m (Dict.add n reachable))) [
    | inl now ↦ rw (new, now) (omega (arith, weight-add_le n reachable d))
    | inr still ↦ rw (new, still) (omega (arith, weight-add_le n reachable d))
  ]
]

weight-add :
    (n : Text) (reachable : List Text) (d : Dict Text (List Text))
    → Dict.contains n reachable ≡ false
    → weight (Dict.add n reachable) d + length (successors_of d n) ≤ weight reachable d
unfolding Dict.get
weight-add n reachable [] new = omega arith
weight-add n reachable ((m, ns) ∷ d) new = elim (Bool-cases (m == n)) [
  | inl same ↦
      let eq : m ≡ n = (==_iff m n).0 same in
      let now : Dict.contains m (Dict.add n reachable) ≡ true =
        contains-add n m reachable ∙ rw ((==_iff n m).1 (sym eq)) refl in
      let before : Dict.contains m reachable ≡ false =
        subst (λ k. Dict.contains k reachable ≡ false) (sym eq) new in
      rw (same, now, before) (omega (arith, weight-add_le n reachable d))
  | inr other ↦
      let apart : (n == m) ≡ false = ground (arith, ==_iff n m, ==_iff m n, other) in
      let kept : Dict.contains m (Dict.add n reachable) ≡ Dict.contains m reachable =
        contains-add n m reachable ∙ rw apart refl in
      rw (other, kept) (omega (arith, weight-add n reachable d new))
]

-- Whatever is pending or reached has a path, and each successor of a reached node is pending or reached.
record IsSearch (successors : Dict Text (List Text)) (starts pending reachable : List Text)
    : Type 0 where
  pending_paths : (n : Text) → Dict.contains n pending ≡ true → Reaches successors starts n
  paths : (n : Text) → Dict.contains n reachable ≡ true → Reaches successors starts n
  starts_seen :
      (n : Text)
      → Dict.contains n starts ≡ true
      → (Dict.contains n reachable || Dict.contains n pending) ≡ true
  closed :
      (n m : Text)
      → Dict.contains n reachable ≡ true
      → Dict.contains m (successors_of successors n) ≡ true
      → (Dict.contains m reachable || Dict.contains m pending) ≡ true

abbrev Found : Dict Text (List Text) → List Text → Result (List Text) → Type 0
Found successors starts result =
    (nodes : List Text) × (result ≡ ok nodes)
    × ((n : Text) → (Dict.contains n nodes ≡ true) ↔ Reaches successors starts n)

module _ (successors : Dict Text (List Text)) (starts : List Text) where
  skip-IsSearch :
      (n : Text) (pending reachable : List Text)
      → Dict.contains n reachable ≡ true
      → IsSearch successors starts (n ∷ pending) reachable
      → IsSearch successors starts pending reachable
  unfolding Dict.contains
  skip-IsSearch n pending reachable seen h = record {
    pending_paths = λ k e. h.pending_paths k (rw e (or_right (n == k)));
    paths = h.paths;
    starts_seen = λ k e. still k (h.starts_seen k e);
    closed = λ k m e f. still m (h.closed k m e f);
  }
    where
      still :
          (k : Text)
          → (Dict.contains k reachable || (n == k || Dict.contains k pending)) ≡ true
          → (Dict.contains k reachable || Dict.contains k pending) ≡ true
      still k e = elim (Bool-cases (n == k)) [
        | inl same ↦
            let there : Dict.contains k reachable ≡ true =
              subst (λ x. Dict.contains x reachable ≡ true) ((==_iff n k).0 same) seen in
            rw there refl
        | inr other ↦ rw other at e
      ]

  contains-front :
      (n k : Text) (pending : List Text)
      → Dict.contains k (reversed (successors_of successors n) ++ pending)
        ≡ (Dict.contains k (successors_of successors n) || Dict.contains k pending)
  contains-front n k pending =
      contains-append k (reversed (successors_of successors n)) pending
      ∙ ap (λ b. b || Dict.contains k pending) (contains-reversed k (successors_of successors n))

  moved :
      (n k : Text) (pending reachable : List Text)
      → (Dict.contains k reachable || (n == k || Dict.contains k pending)) ≡ true
      → (Dict.contains k (Dict.add n reachable)
          || Dict.contains k (reversed (successors_of successors n) ++ pending))
        ≡ true
  moved n k pending reachable e =
      rw (contains-add, contains-front n k pending)
        (shuffle (n == k) (Dict.contains k reachable) (Dict.contains k (successors_of successors n))
          _ e)

  done-Found :
      (reachable : List Text)
      → IsSearch successors starts [] reachable
      → Found successors starts (ok reachable)
  unfolding Dict.contains
  done-Found reachable h = (reachable, refl, λ n. (h.paths n, complete n))
    where
      complete : (n : Text) → Reaches successors starts n → Dict.contains n reachable ≡ true
      complete n (start _ e) = or_false _ (h.starts_seen n e)
      complete m (step n _ path next) = or_false _ (h.closed n m (complete n path) next)

  visit-IsSearch :
      (n : Text) (pending reachable : List Text)
      → IsSearch successors starts (n ∷ pending) reachable
      → IsSearch successors starts
          (reversed (successors_of successors n) ++ pending)
          (Dict.add n reachable)
  unfolding Dict.contains
  visit-IsSearch n pending reachable h = record {
    pending_paths = λ k e. elim (Bool-cases (Dict.contains k (successors_of successors n))) [
      | inl next ↦ step n k here next
      | inr other ↦
          let left : Dict.contains k pending ≡ true =
            rw other at (sym (contains-front n k pending) ∙ e) in
          h.pending_paths k (rw left (or_right (n == k)))
    ];
    paths = λ k e. elim (Bool-cases (n == k)) [
      | inl same ↦ subst (Reaches successors starts) ((==_iff n k).0 same) here
      | inr other ↦ h.paths k (rw other at (sym (contains-add n k reachable) ∙ e))
    ];
    starts_seen = λ k e. moved n k pending reachable (h.starts_seen k e);
    closed = λ k m e f. elim (Bool-cases (n == k)) [
      | inl same ↦
          let eq : k ≡ n = sym ((==_iff n k).0 same) in
          let next : Dict.contains m (successors_of successors n) ≡ true =
            subst (λ x. Dict.contains m (successors_of successors x) ≡ true) eq f in
          rw (contains-front n m pending, next) (or_right (Dict.contains m (Dict.add n reachable)))
      | inr other ↦
          let before : Dict.contains k reachable ≡ true =
            rw other at (sym (contains-add n k reachable) ∙ e) in
          moved n m pending reachable (h.closed k m before f)
    ];
  }
    where
      here : Reaches successors starts n
      here = h.pending_paths n (rw ((==_iff n n).1 refl) refl)

  search-Found :
      (fuel : ℕ) (pending reachable : List Text)
      → length pending + weight reachable successors ≤ fuel
      → IsSearch successors starts pending reachable
      → Found successors starts (search successors fuel pending reachable)
  unfolding search
  search-Found zero [] reachable le h = done-Found reachable h
  search-Found zero (n ∷ pending) reachable le h = absurd (omega (arith, le))
  search-Found (suc fuel) [] reachable le h = done-Found reachable h
  search-Found (suc fuel) (n ∷ pending) reachable le h =
      elim (Bool-cases (Dict.contains n reachable)) [
        | inl seen ↦ rw seen (
            search-Found fuel pending reachable (omega (arith, le))
              (skip-IsSearch n pending reachable seen h))
        | inr new ↦ rw new (
            search-Found fuel (reversed (successors_of successors n) ++ pending)
              (Dict.add n reachable)
              (rw (length-append, length-reversed)
                (omega (arith, le, weight-add n reachable successors new)))
              (visit-IsSearch n pending reachable h))
      ]

-- The search ends within the rounds that it is given, and finds exactly the nodes that a path of
-- successors reaches from an entry.
pub reachable_from-Reaches :
    (successors : Dict Text (List Text)) (entries : List Text)
    → (nodes : List Text) × (reachable_from successors entries ≡ ok nodes)
      × ((n : Text) → (Dict.contains n nodes ≡ true) ↔ Reaches successors entries n)
unfolding reachable_from Dict.contains
reachable_from-Reaches successors entries =
    search-Found successors entries (length entries + weight [] successors) (reversed entries) []
      (rw length-reversed (omega arith))
      (record {
        pending_paths = λ n e. start n (sym (contains-reversed n entries) ∙ e);
        paths = λ n e. ground (arith, e);
        starts_seen = λ n e. contains-reversed n entries ∙ e;
        closed = λ n m e f. ground (arith, e);
      })
