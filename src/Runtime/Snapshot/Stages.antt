-- ===== src/Runtime/Snapshot/Stages.antt =====
-- The blocks of operations of a difference, in the order of their keys, and their run on a dictionary.
use auto_agent.Shared.{
  ◌≡◌, refl, sym, ap, ◌∙◌, subst, true, false, none, some, List, [], ◌∷◌, ◌++◌, is_some, arith,
  Bool-cases, inl, inr, if◌then◌else◌, append_assoc,
}
use auto_agent.Shared.Keys.{Text, text_eq, ◌==◌, ==_iff}
use auto_agent.Shared.Dict
use auto_agent.Shared.Dict.{Dict, IsUnique}
use auto_agent.Shared.Sorting.{insert, sort}
use auto_agent.Shared.Exec.{ok, err}
use auto_agent.Shared.Outcomes.{Result-cases, ok-injective}
use auto_agent.Runtime.Value.{Value, obj, Fields, lookup}
use auto_agent.Runtime.Snapshot.{StateOperation, Block, block_le, operations_of}
use auto_agent.Runtime.Snapshot.Reads.{SameAt, found}
use auto_agent.Runtime.Snapshot.Blocks.{apply_all, apply_path}

get-insert :
    (k j : Text) (os : List StateOperation) (bs : List Block)
    → Dict.get k bs ≡ none
    → Dict.get j (insert block_le (k, os) bs) ≡ (if k == j then some os else Dict.get j bs)
unfolding Dict.get
get-insert k j os [] new = refl
get-insert k j os ((i, ps) ∷ bs) new = elim (Bool-cases (block_le (k, os) (i, ps))) [
  | inl before ↦ rw before refl
  | inr after ↦
      let rest : Dict.get k bs ≡ none = ground (arith, new) in
      rw (after, get-insert k j os bs rest)
        (ground (arith, ==_iff k j, ==_iff i k, ==_iff i j, new))
]

insert-IsUnique :
    (k : Text) (os : List StateOperation) (bs : List Block)
    → Dict.get k bs ≡ none
    → IsUnique bs
    → IsUnique (insert block_le (k, os) bs)
unfolding Dict.get
insert-IsUnique k os [] new h = (refl, tt)
insert-IsUnique k os ((i, ps) ∷ bs) new h = elim (Bool-cases (block_le (k, os) (i, ps))) [
  | inl before ↦ rw before (new, h)
  | inr after ↦
      let rest : Dict.get k bs ≡ none = ground (arith, new) in
      rw after (
        rw (get-insert k i os bs rest) (ground (arith, ==_iff k i, ==_iff i k, new, h.0)),
        insert-IsUnique k os bs rest h.1,
      )
]

pub get-sort :
    (bs : List Block)
    → IsUnique bs
    → IsUnique (sort block_le bs) × ((j : Text) → Dict.get j (sort block_le bs) ≡ Dict.get j bs)
unfolding Dict.get
get-sort [] h = (tt, λ j. refl)
get-sort ((k, os) ∷ bs) h =
    let (unique, same) = get-sort bs h.1 in
    let new : Dict.get k (sort block_le bs) ≡ none = same k ∙ h.0 in
    (
      insert-IsUnique k os (sort block_le bs) new unique,
      λ j. rw (get-insert k j os (sort block_le bs) new, same j) refl,
    )

pub operations_of-append :
    (bs cs : List Block) → operations_of (bs ++ cs) ≡ operations_of bs ++ operations_of cs
operations_of-append [] cs = refl
operations_of-append ((k, os) ∷ bs) cs =
    ap (λ l. os ++ l) (operations_of-append bs cs)
    ∙ sym (append_assoc os (operations_of bs) (operations_of cs))

pub get-append :
    (j : Text) (bs cs : List Block)
    → Dict.get j (bs ++ cs) ≡ (if is_some (Dict.get j bs) then Dict.get j bs else Dict.get j cs)
unfolding Dict.get
get-append j [] cs = refl
get-append j ((k, os) ∷ bs) cs = ground (arith, get-append j bs cs)

pub append-IsUnique :
    (bs cs : List Block)
    → IsUnique bs
    → IsUnique cs
    → ((j : Text) → is_some (Dict.get j bs) ≡ true → Dict.get j cs ≡ none)
    → IsUnique (bs ++ cs)
unfolding Dict.get
append-IsUnique [] cs h k apart = k
append-IsUnique ((i, os) ∷ bs) cs h k apart = (
  rw (get-append i bs cs, h.0) (apart i (rw ((==_iff i i).1 refl) refl)),
  append-IsUnique bs cs h.1 k (λ j there. apart j (ground (arith, there))),
)

apply_all-append :
    (os ps : List StateOperation) (v u : Value)
    → apply_all os v ≡ ok u
    → apply_all (os ++ ps) v ≡ apply_all ps u
unfolding apply_all
apply_all-append [] ps v u e = ap (apply_all ps) (ok-injective e)
apply_all-append (o ∷ os) ps v u e = elim (Result-cases (apply_path o.op o.value o.path v)) [
  | inr (fault, bad) ↦ let no : err fault ≡ ok u = rw bad at e in ground (arith, no)
  | inl (w, good) ↦ rw good (apply_all-append os ps w u (rw good at e))
]

-- A block does its work on a dictionary that has at its key what the start has there.
abbrev pub Works : Fields → Fields → Text → List StateOperation → Type 0
Works start goal k os =
    (f : Fields)
    → lookup k f ≡ lookup k start
    → (f' : Fields) × (apply_all os (obj f) ≡ ok (obj f'))
      × SameAt (lookup k f') (lookup k goal)
      × ((j : Text) → (k == j) ≡ false → lookup j f' ≡ lookup j f)

apart :
    (k j : Text) (ps : List StateOperation) (bs : List Block)
    → Dict.get k bs ≡ none
    → Dict.get j bs ≡ some ps
    → (k == j) ≡ false
apart k j ps bs gone there = elim (Bool-cases (k == j)) [
  | inl same ↦
      let e : k ≡ j = (==_iff k j).0 same in
      let missing : Dict.get j bs ≡ none = rw e at gone in ground (arith, there, missing)
  | inr other ↦ other
]

found_later :
    (k j : Text) (os ps : List StateOperation) (bs : List Block)
    → Dict.get k bs ≡ none
    → Dict.get j bs ≡ some ps
    → Dict.get j ((k, os) ∷ bs) ≡ some ps
unfolding Dict.get
found_later k j os ps bs gone there = rw (apart k j ps bs gone there) there

pub run_blocks :
    (start goal : Fields) (bs : List Block) (f : Fields)
    → IsUnique bs
    → ((k : Text) (os : List StateOperation) → Dict.get k bs ≡ some os → Works start goal k os)
    → ((k : Text) (os : List StateOperation)
        → Dict.get k bs ≡ some os
        → lookup k f ≡ lookup k start)
    → (f' : Fields) × (apply_all (operations_of bs) (obj f) ≡ ok (obj f'))
      × ((k : Text) (os : List StateOperation)
          → Dict.get k bs ≡ some os
          → SameAt (lookup k f') (lookup k goal))
      × ((k : Text) → Dict.get k bs ≡ none → lookup k f' ≡ lookup k f)
unfolding Dict.get apply_all
run_blocks start goal [] f h works at_start = (f, refl, λ k os e. ground (arith, e), λ k e. refl)
run_blocks start goal ((k, os) ∷ bs) f h works at_start =
    let self : (k == k) ≡ true = (==_iff k k).1 refl in
    let here : Dict.get k ((k, os) ∷ bs) ≡ some os = rw self refl in
    let (f1, run1, same1, others1) = works k os here f (at_start k os here) in
    let (f2, run2, same2, others2) =
      run_blocks start goal bs f1 h.1 (λ j ps e. works j ps (found_later k j os ps bs h.0 e))
        (λ j ps e.
          others1 j (apart k j ps bs h.0 e) ∙ at_start j ps (found_later k j os ps bs h.0 e)) in
    (
      f2,
      apply_all-append os (operations_of bs) (obj f) (obj f1) run1 ∙ run2,
      λ j ps e. elim (Bool-cases (k == j)) [
        | inl same ↦
            let eq : k ≡ j = (==_iff k j).0 same in
            subst (λ t. SameAt (lookup t f2) (lookup t goal)) eq
              (λ path. ap (found path) (others2 k h.0) ∙ same1 path)
        | inr other ↦ same2 j ps (rw other at e)
      ],
      λ j e. elim (Bool-cases (k == j)) [
        | inl same ↦ let no : some os ≡ none = rw same at e in ground (arith, no)
        | inr other ↦ others2 j (rw other at e) ∙ others1 j other
      ],
    )
