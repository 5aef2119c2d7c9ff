-- ===== src/StateMachine/Transition/Guards.antt =====
-- When a transition is granted: what its request must bring.
use counterpoint_living_deci.Base.{
  ==_iff, List, Option, Option-cases, String, [], arith, decision_authority_required, err, inl, inr,
  nat_eq, none, ok, option_eq, refl, some, string_eq, true, ◌+◌, ◌∷◌, ◌≡◌, ◌≢◌, ◌≤◌, ◌⊎◌,
}
use counterpoint_living_deci.Entities.Common.{confirmation_eq, origin_eq, visibility_eq}
use counterpoint_living_deci.Entities.Decisions.{
  Decision, DecisionReadiness, DecisionRevision, DecisionStatus, action_status_eq, at_risk,
  committed, decision_ready, decision_rejected, draft, monitoring, review_required, status_eq,
  superseded, task_state_eq,
}
use counterpoint_living_deci.Entities.People.{capability_eq}
use counterpoint_living_deci.StateMachine.Requests.{
  DecisionAuthority, DecisionTransitionRequest, by_ai, by_facilitator, by_participant, by_system,
  has_any,
}
use counterpoint_living_deci.StateMachine.Transition.{
  apply_revision, commit, mark_at_risk, mark_ready, readiness_complete, recommit, reject,
  reject_suggestion, require_facilitator, require_review, start_monitoring, supersede,
  transition_between, transition_decision,
}
use counterpoint_living_deci.StateMachine.Transition.Edges.{
  Edge, calms, commits, confirms, decision_transition_matrix_iff, endangers, monitors, ready,
  recommits, rejects, replaces,
}
use counterpoint_living_deci.Values.{max_safe_integer}
use counterpoint_living_deci.Values.Ids.{DecisionId, ParticipantId}
use counterpoint_living_deci.Values.Numbers.{revision_number-of_ℕ}

pub record IsReady (r : DecisionReadiness) : Type 0 where
  pub outcome : r.outcome ≡ true
  pub premises : r.premise_ids ≡ true
  pub evidence : r.evidence_ids ≡ true
  pub actions : r.action_ids ≡ true
  pub monitor : r.monitor_condition ≡ true

-- The field is there and its list is not empty.
abbrev pub Lists : Option (List String) → Type 0
Lists o = (x : String) × (xs : List String) × (o ≡ some (x ∷ xs))

-- What a request must bring for each edge, and what the Decision must have.
pub data Enabled (d : Decision) (r : DecisionTransitionRequest)
    : DecisionStatus → DecisionStatus → Type 0 where
  to_ready :
      (p : ParticipantId) (c : DecisionReadiness)
      → r.authority ≡ by_facilitator p
      → r.readiness ≡ some c
      → IsReady c
      → d.outcome ≢ ""
      → d.premise_ids ≢ []
      → d.evidence_ids ≢ []
      → d.action_ids ≢ []
      → d.monitor_condition.description ≢ ""
      → Enabled d r draft decision_ready
  to_committed :
      (p : ParticipantId)
      → r.authority ≡ by_facilitator p
      → r.explicit_commit ≡ some true
      → Enabled d r decision_ready committed
  to_monitoring :
      r.authority ≡ by_system → r.monitor_registration_id ≢ none → Enabled d r committed monitoring
  to_at_risk :
      r.authority ≡ by_system
      → r.invalidation_suggestion_recorded ≡ some true
      → Lists r.suggestion_reference_ids
      → Lists r.affected_premise_ids
      → Lists r.affected_action_ids
      → Enabled d r monitoring at_risk
  to_review :
      (p : ParticipantId)
      → r.authority ≡ by_facilitator p
      → r.invalidation_confirmed ≡ some true
      → Lists r.reviewed_premise_ids
      → Lists r.reviewed_evidence_reference_ids
      → Lists r.reviewed_action_ids
      → Enabled d r at_risk review_required
  back_to_monitoring :
      (p : ParticipantId)
      → r.authority ≡ by_facilitator p
      → r.rejection_reason ≢ none
      → Enabled d r at_risk monitoring
  to_recommitted :
      (p : ParticipantId) (v : DecisionRevision)
      → r.authority ≡ by_facilitator p
      → r.explicit_commit ≡ some true
      → r.revision ≡ some v
      → v.decision_id ≡ d.id
      → v.version ≡ d.active_revision + 1
      → v.version ≤ max_safe_integer
      → v.created_by ≡ p
      → v.snapshot.status ≡ committed
      → Enabled d r review_required committed
  to_superseded :
      (p : ParticipantId) (o : DecisionId)
      → r.authority ≡ by_facilitator p
      → r.replacement_decision_id ≡ some o
      → o ≢ d.id
      → Enabled d r review_required superseded
  to_rejected :
      (p : ParticipantId)
      → r.authority ≡ by_facilitator p
      → r.rejection_reason ≢ none
      → Enabled d r review_required decision_rejected

facilitator-cases :
    (a : DecisionAuthority)
    → ((p : ParticipantId) × (a ≡ by_facilitator p))
      ⊎ (require_facilitator a ≡ err decision_authority_required)
unfolding require_facilitator
facilitator-cases (by_facilitator p) = inl (p, refl)
facilitator-cases by_system = inr refl
facilitator-cases (by_ai m) = inr refl
facilitator-cases (by_participant p) = inr refl

Lists-of_has_any : (o : Option (List String)) → has_any o ≡ true → Lists o
Lists-of_has_any none h = cc
Lists-of_has_any (some []) h = cc
Lists-of_has_any (some (x ∷ xs)) h = (x, xs, refl)

has_any_of_Lists : (o : Option (List String)) → Lists o → has_any o ≡ true
has_any_of_Lists o (x, xs, e) = rw e

IsReady-of_complete :
    (o : Option DecisionReadiness)
    → readiness_complete o ≡ true
    → (c : DecisionReadiness) × (o ≡ some c) × IsReady c
unfolding readiness_complete
IsReady-of_complete none h = cc
IsReady-of_complete (some c) h = (c, refl, ground arith)

-- What a branch of the code has found when it succeeds.
module _ (d : Decision) (r : DecisionTransitionRequest) {d' : Decision} where
  mark_ready-Enabled : mark_ready d r ≡ ok d' → Enabled d r draft decision_ready
  unfolding mark_ready
  mark_ready-Enabled h = elim (facilitator-cases r.authority) [
    | inl (p, e) ↦
        let (c, given, complete) = IsReady-of_complete r.readiness (ground arith) in
        to_ready p c e given complete (ground (arith, ==_iff d.outcome "")) (ground arith)
          (ground arith) (ground arith) (ground (arith, ==_iff d.monitor_condition.description ""))
    | inr e ↦ ground arith
  ]

  commit-Enabled : commit d r ≡ ok d' → Enabled d r decision_ready committed
  unfolding commit
  commit-Enabled h = elim (facilitator-cases r.authority) [
    | inl (p, e) ↦ to_committed p e (ground arith)
    | inr e ↦ ground arith
  ]

  start_monitoring-Enabled : start_monitoring d r ≡ ok d' → Enabled d r committed monitoring
  unfolding start_monitoring
  start_monitoring-Enabled h = to_monitoring (ground arith) (ground arith)

  mark_at_risk-Enabled : mark_at_risk d r ≡ ok d' → Enabled d r monitoring at_risk
  unfolding mark_at_risk
  mark_at_risk-Enabled h =
      to_at_risk (ground arith) (ground arith)
        (Lists-of_has_any r.suggestion_reference_ids (ground arith))
        (Lists-of_has_any r.affected_premise_ids (ground arith))
        (Lists-of_has_any r.affected_action_ids (ground arith))

  require_review-Enabled : require_review d r ≡ ok d' → Enabled d r at_risk review_required
  unfolding require_review
  require_review-Enabled h = elim (facilitator-cases r.authority) [
    | inl (p, e) ↦
        to_review p e (ground arith) (Lists-of_has_any r.reviewed_premise_ids (ground arith))
          (Lists-of_has_any r.reviewed_evidence_reference_ids (ground arith))
          (Lists-of_has_any r.reviewed_action_ids (ground arith))
    | inr e ↦ ground arith
  ]

  reject_suggestion-Enabled : reject_suggestion d r ≡ ok d' → Enabled d r at_risk monitoring
  unfolding reject_suggestion
  reject_suggestion-Enabled h = elim (facilitator-cases r.authority) [
    | inl (p, e) ↦ back_to_monitoring p e (ground arith)
    | inr e ↦ ground arith
  ]

  apply_revision-Enabled :
      (p : ParticipantId) (v : DecisionRevision)
      → r.authority ≡ by_facilitator p
      → r.explicit_commit ≡ some true
      → r.revision ≡ some v
      → apply_revision d p (some v) ≡ ok d'
      → Enabled d r review_required committed
  unfolding apply_revision
  apply_revision-Enabled p v e x g h =
      let next = revision_number-of_ℕ (d.active_revision + 1) in
      to_recommitted p v e x g (ground (arith, ==_iff v.decision_id d.id)) (ground (arith, next))
        (ground (arith, next)) (ground (arith, next, ==_iff v.created_by p)) (ground (arith, next))

  recommit-Enabled : recommit d r ≡ ok d' → Enabled d r review_required committed
  unfolding recommit
  recommit-Enabled h = elim (facilitator-cases r.authority) [
    | inl (p, e) ↦ elim (Option-cases r.revision) [
      | inl g ↦ ground arith
      | inr (v, g) ↦ apply_revision-Enabled p v e (ground arith) g (ground arith)
    ]
    | inr e ↦ ground arith
  ]

  supersede-Enabled : supersede d r ≡ ok d' → Enabled d r review_required superseded
  unfolding supersede
  supersede-Enabled h = elim (facilitator-cases r.authority) [
    | inl (p, e) ↦ elim (Option-cases r.replacement_decision_id) [
      | inl g ↦ ground arith
      | inr (o, g) ↦ to_superseded p o e g (λ same. ground (arith, ==_iff o d.id))
    ]
    | inr e ↦ ground arith
  ]

  reject-Enabled : reject d r ≡ ok d' → Enabled d r review_required decision_rejected
  unfolding reject
  reject-Enabled h = elim (facilitator-cases r.authority) [
    | inl (p, e) ↦ to_rejected p e (ground arith)
    | inr e ↦ ground arith
  ]

  transition_between-Enabled :
      {a b : DecisionStatus} → Edge a b → transition_between a b d r ≡ ok d' → Enabled d r a b
  unfolding transition_between
  transition_between-Enabled ready h = mark_ready-Enabled h
  transition_between-Enabled commits h = commit-Enabled h
  transition_between-Enabled monitors h = start_monitoring-Enabled h
  transition_between-Enabled endangers h = mark_at_risk-Enabled h
  transition_between-Enabled calms h = reject_suggestion-Enabled h
  transition_between-Enabled confirms h = require_review-Enabled h
  transition_between-Enabled recommits h = recommit-Enabled h
  transition_between-Enabled replaces h = supersede-Enabled h
  transition_between-Enabled rejects h = reject-Enabled h

  -- The two tests before the branches.
  pub transition_decision-inv :
      transition_decision d r ≡ ok d'
      → Edge d.status r.to × (transition_between d.status r.to d r ≡ ok d')
  unfolding transition_decision
  transition_decision-inv h =
      let m = decision_transition_matrix_iff d.status r.to in (m.0 (ground arith), ground arith)

  -- A transition that succeeds follows an edge of the diagram, and its request had the authority and
  -- brought what that edge asks for.
  pub transition_decision-Enabled : transition_decision d r ≡ ok d' → Enabled d r d.status r.to
  transition_decision-Enabled h =
      let (e, h') = transition_decision-inv h in transition_between-Enabled e h'

pub Edge-of_Enabled :
    {d : Decision} {r : DecisionTransitionRequest} {a b : DecisionStatus}
    → Enabled d r a b
    → Edge a b
Edge-of_Enabled (to_ready _ _ _ _ _ _ _ _ _ _) = ready
Edge-of_Enabled (to_committed _ _ _) = commits
Edge-of_Enabled (to_monitoring _ _) = monitors
Edge-of_Enabled (to_at_risk _ _ _ _ _) = endangers
Edge-of_Enabled (to_review _ _ _ _ _ _) = confirms
Edge-of_Enabled (back_to_monitoring _ _ _) = calms
Edge-of_Enabled (to_recommitted _ _ _ _ _ _ _ _ _ _) = recommits
Edge-of_Enabled (to_superseded _ _ _ _ _) = replaces
Edge-of_Enabled (to_rejected _ _ _) = rejects
