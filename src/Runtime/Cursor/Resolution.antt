-- ===== src/Runtime/Cursor/Resolution.antt =====
-- The tables of resolutions: `resolve_edge` and `resolve_loop_boundary`.
use auto_agent.Shared.{
  ◌≡◌, refl, ap, subst, ◌⊎◌, inl, inr, true, Option, none, some, arith, if◌then◌else◌, is_some,
  Bool-cases,
}
use auto_agent.Shared.Keys.{Text, text_eq, ◌==◌, ==_iff}
use auto_agent.Shared.Dict
use auto_agent.Shared.Dict.{Dict, get-put}
use auto_agent.Shared.Exec.{Fault, Result, ok, err, edge_conflict}
use auto_agent.Runtime.Scope.{ExecutionScope, edge_occurrence_key}
use auto_agent.Runtime.Cursor.{
  EdgeActivation, EdgeResolution, ResolutionState, selected, SchedulerContext, settle, resolve_edge,
  resolve_loop_boundary, resolution_state_beq, optional_activation_beq, activation_beq_iff,
  commit_edges, commit_boundaries,
}

abbrev pub Extends : Dict Text EdgeResolution → Dict Text EdgeResolution → Type 0
Extends d d' = (k : Text) (r : EdgeResolution) → Dict.get k d ≡ some r → Dict.get k d' ≡ some r

-- A selected resolution has an activation, a skipped one has none.
abbrev pub IsConsistent : EdgeResolution → Type 0
IsConsistent r = is_some r.activation ≡ resolution_state_beq r.state selected

abbrev pub AreConsistent : Dict Text EdgeResolution → Type 0
AreConsistent d = (k : Text) (r : EdgeResolution) → Dict.get k d ≡ some r → IsConsistent r

pub Extends-refl : (d : Dict Text EdgeResolution) → Extends d d
Extends-refl d k r h = h

pub Extends-trans : (a b c : Dict Text EdgeResolution) → Extends a b → Extends b c → Extends a c
Extends-trans a b c f g k r h = g k r (f k r h)

put-Extends :
    (key : Text) (v : EdgeResolution) (d : Dict Text EdgeResolution)
    → Dict.get key d ≡ none
    → Extends d (Dict.put key v d)
put-Extends key v d fresh k r h = rw get-put (ground (arith, ==_iff key k))

put-AreConsistent :
    (key : Text) (v : EdgeResolution) (d : Dict Text EdgeResolution)
    → IsConsistent v
    → AreConsistent d
    → AreConsistent (Dict.put key v d)
put-AreConsistent key v d good all k r h =
    let h' : (if key == k then some v else Dict.get k d) ≡ some r = rw get-put at h in
    elim (Bool-cases (key == k)) [
      | inl same ↦
          let stored : some v ≡ some r = rw same at h' in
          let e : v ≡ r = cc stored in subst IsConsistent e good
      | inr other ↦ all k r (rw other at h')
    ]

resolution_state_beq_sound : (a b : ResolutionState) → resolution_state_beq a b ≡ true → a ≡ b
resolution_state_beq_sound a b h = ground arith

optional_activation_beq_sound :
    (a b : Option EdgeActivation) → optional_activation_beq a b ≡ true → a ≡ b
optional_activation_beq_sound none none h = refl
optional_activation_beq_sound none (some b) h = cc
optional_activation_beq_sound (some a) none h = cc
optional_activation_beq_sound (some a) (some b) h = ap some ((activation_beq_iff a b).0 h)

module _ (conflict : Fault) (key : Text) (v : EdgeResolution) (d : Dict Text EdgeResolution) where
  -- The outcomes of `settle`.
  pub settle_cases :
      (w : EdgeResolution) (d' : Dict Text EdgeResolution)
      → settle conflict key v d ≡ ok (w, d')
      → ((Dict.get key d ≡ some w)
          × (d' ≡ d)
          × (resolution_state_beq w.state v.state ≡ true)
          × (optional_activation_beq w.activation v.activation ≡ true))
        ⊎ ((Dict.get key d ≡ none) × (w ≡ v) × (d' ≡ Dict.put key v d) × IsConsistent v)
  unfolding settle
  settle_cases w d' h = ground arith

  pub settle-Extends :
      (w : EdgeResolution) (d' : Dict Text EdgeResolution)
      → settle conflict key v d ≡ ok (w, d')
      → Extends d d'
  settle-Extends w d' h = elim (settle_cases w d' h) [
    | inl (_, same, _, _) ↦ rw same (Extends-refl d)
    | inr (fresh, _, new, _) ↦ rw new (put-Extends key v d fresh)
  ]

  pub settle-AreConsistent :
      (w : EdgeResolution) (d' : Dict Text EdgeResolution)
      → settle conflict key v d ≡ ok (w, d')
      → AreConsistent d
      → AreConsistent d'
  settle-AreConsistent w d' h all = elim (settle_cases w d' h) [
    | inl (_, same, _, _) ↦ rw same all
    | inr (_, _, new, good) ↦ rw new (put-AreConsistent key v d good all)
  ]

  -- What is stored says what was asked for.
  pub settle-stored :
      (w : EdgeResolution) (d' : Dict Text EdgeResolution)
      → settle conflict key v d ≡ ok (w, d')
      → (Dict.get key d' ≡ some w) × (w.state ≡ v.state) × (w.activation ≡ v.activation)
  settle-stored w d' h = elim (settle_cases w d' h) [
    | inl (found, same, st, act) ↦ (
      rw same found,
      resolution_state_beq_sound w.state v.state st,
      optional_activation_beq_sound w.activation v.activation act,
    )
    | inr (_, e, new, _) ↦ (
      rw (new, get-put, e, (==_iff key key).1 refl),
      ap (λ (r : EdgeResolution). r.state) e,
      ap (λ (r : EdgeResolution). r.activation) e,
    )
  ]

-- What a method may do to a table of resolutions.
pub record Grows (before after : Dict Text EdgeResolution) : Type 0 where
  pub extends : Extends before after
  pub consistent : AreConsistent before → AreConsistent after

pub Grows-refl : (d : Dict Text EdgeResolution) → Grows d d
Grows-refl d = record { extends = Extends-refl d; consistent = λ h. h }

pub settle-Grows :
    (conflict : Fault) (key : Text) (v : EdgeResolution) (d : Dict Text EdgeResolution)
    (w : EdgeResolution) (d' : Dict Text EdgeResolution)
    → settle conflict key v d ≡ ok (w, d')
    → Grows d d'
settle-Grows conflict key v d w d' h = record {
  extends = settle-Extends conflict key v d w d' h;
  consistent = settle-AreConsistent conflict key v d w d' h;
}

abbrev Outcome : Type 0
Outcome = Result (EdgeResolution × Dict Text EdgeResolution)

commit_edges-Grows :
    (x : Outcome) (cursor : SchedulerContext)
    → ((w : EdgeResolution) (d' : Dict Text EdgeResolution)
        → x ≡ ok (w, d')
        → Grows cursor.edge_resolutions d')
    → (d' : Dict Text EdgeResolution) × ((commit_edges x cursor).1
        ≡ record cursor { edge_resolutions = d' })
      × Grows cursor.edge_resolutions d'
commit_edges-Grows (ok (w, d')) cursor f = (d', refl, f w d' refl)
commit_edges-Grows (err c) cursor f =
    (cursor.edge_resolutions, refl, Grows-refl cursor.edge_resolutions)

commit_boundaries-Grows :
    (x : Outcome) (cursor : SchedulerContext)
    → ((w : EdgeResolution) (d' : Dict Text EdgeResolution)
        → x ≡ ok (w, d')
        → Grows cursor.loop_boundary_resolutions d')
    → (d' : Dict Text EdgeResolution) × ((commit_boundaries x cursor).1
        ≡ record cursor { loop_boundary_resolutions = d' })
      × Grows cursor.loop_boundary_resolutions d'
commit_boundaries-Grows (ok (w, d')) cursor f = (d', refl, f w d' refl)
commit_boundaries-Grows (err c) cursor f =
    (cursor.loop_boundary_resolutions, refl, Grows-refl cursor.loop_boundary_resolutions)

module _ (edge_id : Text) (state : ResolutionState) (activation : Option EdgeActivation)
    (scope : ExecutionScope) (cursor : SchedulerContext) where
  -- `resolve_edge`, whether it returns or raises, changes at most the table of edges, where every
  -- recorded resolution stays as it is, and selected ones have an activation if they all had one.
  pub resolve_edge-Grows :
      (d' : Dict Text EdgeResolution) × ((resolve_edge edge_id state activation scope cursor).1
        ≡ record cursor { edge_resolutions = d' })
      × Grows cursor.edge_resolutions d'
  unfolding resolve_edge
  resolve_edge-Grows = commit_edges-Grows _ cursor (settle-Grows _ _ _ _)

  -- Where `resolve_edge` returns, the table has, under the key of the edge occurrence, the resolution that
  -- it returned, with the state and the activation that were asked for.
  pub resolve_edge-stored :
      (w : EdgeResolution)
      → (resolve_edge edge_id state activation scope cursor).0 ≡ ok w
      → (Dict.get
            (edge_occurrence_key edge_id scope)
            (resolve_edge edge_id state activation scope cursor).1.edge_resolutions
          ≡ some w)
        × (w.state ≡ state)
        × (w.activation ≡ activation)
  unfolding resolve_edge
  resolve_edge-stored w h = go _ refl h
    where
      asked : EdgeResolution
      asked = record { edge_id = edge_id; state = state; activation = activation; scope = scope }

      go :
          (x : Outcome)
          → settle edge_conflict (edge_occurrence_key edge_id scope) asked cursor.edge_resolutions
            ≡ x
          → (commit_edges x cursor).0 ≡ ok w
          → (Dict.get (edge_occurrence_key edge_id scope) (commit_edges x cursor).1.edge_resolutions
              ≡ some w)
            × (w.state ≡ state)
            × (w.activation ≡ activation)
      go (ok (v, d')) e k =
          let same : v ≡ w = cc k in
          rw (← same) (settle-stored edge_conflict _ asked cursor.edge_resolutions v d' e)
      go (err c) e k = cc

  pub resolve_loop_boundary-Grows :
      (loop_region_id : Text)
      → (d' : Dict Text EdgeResolution) × ((resolve_loop_boundary loop_region_id scope edge_id state
            activation cursor).1
          ≡ record cursor { loop_boundary_resolutions = d' })
        × Grows cursor.loop_boundary_resolutions d'
  unfolding resolve_loop_boundary
  resolve_loop_boundary-Grows loop_region_id =
      commit_boundaries-Grows _ cursor (settle-Grows _ _ _ _)
