-- ===== src/StateMachine/Revisions/Same.antt =====
-- About the comparison of two revisions.
use mathlib.Core.Path.{subst}
use counterpoint_living_deci.Base.{
  ==_iff, ==_refl, List, String, [], ap, arith, length, nat_beq_iff, nat_eq, option_eq, refl,
  string_eq, true, ◌↔◌, ◌∷◌, ◌≡◌,
}
use counterpoint_living_deci.Entities.Common.{confirmation_eq, origin_eq, visibility_eq}
use counterpoint_living_deci.Entities.Decisions.{
  DecisionRevision, DecisionSnapshot, action_status_eq, status_eq, task_state_eq,
}
use counterpoint_living_deci.Entities.People.{capability_eq}
use counterpoint_living_deci.StateMachine.Revisions.{
  every_at, same_decision_revision, same_origin, same_place, same_snapshot, same_values,
}

every_at_refl : (xs : List String) → every_at xs xs ≡ true
unfolding every_at
every_at_refl [] = refl
every_at_refl (x ∷ xs) = ground (arith, ==_refl x, every_at_refl xs)

eq_of_every_at : (xs ys : List String) → length xs ≡ length ys → every_at xs ys ≡ true → xs ≡ ys
unfolding every_at
eq_of_every_at [] [] n h = refl
eq_of_every_at [] (y ∷ ys) n h = absurd (omega arith)
eq_of_every_at (x ∷ xs) [] n h = cc
eq_of_every_at (x ∷ xs) (y ∷ ys) n h =
    let tail = eq_of_every_at xs ys (omega arith) (ground arith) in
    let head = (==_iff x y).0 (ground arith) in cc (head, tail)

pub same_values_iff : (xs ys : List String) → (same_values xs ys ≡ true) ↔ (xs ≡ ys)
unfolding same_values
same_values_iff xs ys =
    let n = nat_beq_iff (length xs) (length ys) in
    (
      (λ h. eq_of_every_at xs ys (n.0 (ground arith)) (ground arith)),
      λ e.
          ground (arith, n.1 (ap length e), subst (λ z. every_at xs z ≡ true) e (every_at_refl xs)),
    )

pub same_snapshot_iff : (a b : DecisionSnapshot) → (same_snapshot a b ≡ true) ↔ (a ≡ b)
unfolding same_snapshot
same_snapshot_iff a b = ground (
  arith,
  ==_iff a.title b.title,
  ==_iff a.outcome b.outcome,
  same_values_iff a.premise_ids b.premise_ids,
  same_values_iff a.evidence_ids b.evidence_ids,
  same_values_iff a.dissent_ids b.dissent_ids,
  same_values_iff a.action_ids b.action_ids,
  ==_iff a.monitor_condition.description b.monitor_condition.description,
  ==_iff a.monitor_condition.registration_id b.monitor_condition.registration_id,
  ==_iff a.status b.status,
)

module _ (a b : DecisionRevision) where
  same_place_iff : (same_place a b ≡ true) ↔ (
      (a.id ≡ b.id)
      × (a.meeting_id ≡ b.meeting_id)
      × (a.decision_id ≡ b.decision_id)
      × (a.version ≡ b.version)
      × (a.previous_revision_id ≡ b.previous_revision_id))
  unfolding same_place
  same_place_iff = ground (
    arith,
    ==_iff a.id b.id,
    ==_iff a.meeting_id b.meeting_id,
    ==_iff a.decision_id b.decision_id,
    ==_iff a.version b.version,
    ==_iff a.previous_revision_id b.previous_revision_id,
  )

  same_origin_iff : (same_origin a b ≡ true) ↔ (
      (a.change_reason ≡ b.change_reason)
      × (a.created_at ≡ b.created_at)
      × (a.created_by ≡ b.created_by)
      × (a.origin ≡ b.origin)
      × (a.confirmation_status ≡ b.confirmation_status)
      × (a.revision ≡ b.revision))
  unfolding same_origin
  same_origin_iff = ground (
    arith,
    ==_iff a.change_reason b.change_reason,
    ==_iff a.created_at b.created_at,
    ==_iff a.created_by b.created_by,
    ==_iff a.origin b.origin,
    ==_iff a.confirmation_status b.confirmation_status,
    ==_iff a.revision b.revision,
  )

  -- Two revisions of one visibility and one owner, which the comparison does not read, pass it exactly
  -- when they are equal.
  pub same_decision_revision_iff :
      a.visibility ≡ b.visibility
      → a.owner_participant_id ≡ b.owner_participant_id
      → (same_decision_revision a b ≡ true) ↔ (a ≡ b)
  unfolding same_decision_revision
  same_decision_revision_iff v o = (
    (λ h.
        let p = same_place_iff.0 (ground arith) in
        let s = (same_snapshot_iff a.snapshot b.snapshot).0 (ground arith) in
        let q = same_origin_iff.0 (ground arith) in
        λ i. record {
          common = record {
            id = p.0 i;
            meeting_id = p.1 i;
            created_at = q.1 i;
            created_by = q.2 i;
            origin = q.3 i;
            confirmation_status = q.4 i;
            revision = q.5 i;
            visibility = v i;
            owner_participant_id = o i;
          };
          decision_id = p.2 i;
          version = p.3 i;
          previous_revision_id = p.4 i;
          snapshot = s i;
          change_reason = q.0 i;
        }),
    λ e. ground (
      arith,
      same_place_iff.1 (rw e (refl, refl, refl, refl, refl)),
      (same_snapshot_iff a.snapshot b.snapshot).1 (rw e refl),
      same_origin_iff.1 (rw e (refl, refl, refl, refl, refl, refl)),
    ),
  )

pub same_decision_revision_refl : (a : DecisionRevision) → same_decision_revision a a ≡ true
same_decision_revision_refl a = (same_decision_revision_iff a a refl refl).1 refl
