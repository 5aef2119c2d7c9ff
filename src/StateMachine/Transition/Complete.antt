-- ===== src/StateMachine/Transition/Complete.antt =====
-- About the requests that meet the guards of `transitionDecision`.
use counterpoint_living_deci.Base.{
  ==_iff, Option, Result, [], arith, false, nat_eq, none, ok, option_eq, refl, some, string_eq,
  true, ◌+◌, ◌↔◌, ◌≡◌, ◌≢◌, ◌≤◌,
}
use counterpoint_living_deci.Entities.Claims.{MonitorCondition}
use counterpoint_living_deci.Entities.Common.{confirmation_eq, origin_eq, visibility_eq}
use counterpoint_living_deci.Entities.Decisions.{
  Decision, DecisionReadiness, DecisionRevision, DecisionStatus, action_status_eq, at_risk,
  committed, create_decision, decision_ready, decision_rejected, monitoring, review_required,
  status_eq, superseded, task_state_eq,
}
use counterpoint_living_deci.Entities.People.{capability_eq}
use counterpoint_living_deci.Entities.Validity.Decisions.{
  IsDecision, IsRevision, create_decision_iff,
}
use counterpoint_living_deci.StateMachine.Requests.{
  DecisionTransitionRequest, by_facilitator, by_system,
}
use counterpoint_living_deci.StateMachine.Transition.{
  commit, is_ai, mark_at_risk, mark_ready, readiness_complete, recommit, reject, reject_suggestion,
  replace_decision_status, require_review, start_monitoring, supersede, transition_between,
  transition_decision, with_revision,
}
use counterpoint_living_deci.StateMachine.Transition.Edges.{decision_transition_matrix_iff}
use counterpoint_living_deci.StateMachine.Transition.Guards.{
  Edge-of_Enabled, Enabled, IsReady, Lists, back_to_monitoring, to_at_risk, to_committed,
  to_monitoring, to_ready, to_recommitted, to_rejected, to_review, to_superseded,
  transition_decision-Enabled,
}
use counterpoint_living_deci.Values.{max_safe_integer}
use counterpoint_living_deci.Values.Ids.{DecisionId, ParticipantId}
use counterpoint_living_deci.Values.Numbers.{revision_number-of_ℕ}

-- The checks of `createDecision` do not read what a monitor is registered with, and of the state only
-- whether it is superseded.
restated :
    (d : Decision) (s : DecisionStatus) (m : MonitorCondition) (o : Option DecisionId)
    → IsDecision d
    → (s ≡ superseded → o ≢ none)
    → let x = record d { status = s; monitor_condition = m; superseded_by_decision_id = o } in
      create_decision x ≡ ok x
restated d s m o v n =
    let x = record d { status = s; monitor_condition = m; superseded_by_decision_id = o } in
    (create_decision_iff x x).1 (
      refl,
      record {
        scoped = v.scoped;
        premises = v.premises;
        evidence = v.evidence;
        dissent = v.dissent;
        actions = v.actions;
        revised = v.revised;
        replaced = n;
      },
    )

replace-granted :
    (d : Decision) (s : DecisionStatus)
    → IsDecision d
    → s ≢ superseded
    → replace_decision_status d s ≡ ok (record d { status = s })
unfolding replace_decision_status
replace-granted d s v n =
    restated d s d.monitor_condition d.superseded_by_decision_id v (λ e. absurd (n e))

-- A revision's content can stand in a valid Decision.
recommit-checked :
    (d : Decision) (w : DecisionRevision)
    → IsDecision d
    → IsRevision w
    → create_decision (with_revision d w) ≡ ok (with_revision d w)
recommit-checked d w v x = (create_decision_iff (with_revision d w) (with_revision d w)).1 (
  refl,
  record {
    scoped = record {
      named = v.scoped.named;
      owned = v.scoped.owned;
      owner_named = v.scoped.owner_named;
    };
    premises = x.premises;
    evidence = x.evidence;
    dissent = x.dissent;
    actions = x.actions;
    revised = refl;
    replaced = λ e. cc;
  },
)

module _ (d : Decision) (r : DecisionTransitionRequest) (v : IsDecision d) where
  abbrev Granted : Result Decision → Type 0
  Granted m = (d' : Decision) × (m ≡ ok d')

  mark_ready-Granted :
      (p : ParticipantId) (c : DecisionReadiness)
      → r.authority ≡ by_facilitator p
      → r.readiness ≡ some c
      → IsReady c
      → d.outcome ≢ ""
      → d.premise_ids ≢ []
      → d.evidence_ids ≢ []
      → d.action_ids ≢ []
      → d.monitor_condition.description ≢ ""
      → Granted (mark_ready d r)
  unfolding mark_ready readiness_complete
  mark_ready-Granted p c e g i o pr ev ac m = (
    record d { status = decision_ready },
    ground (
      arith,
      replace-granted d decision_ready v (λ x. cc),
      ==_iff d.outcome "",
      ==_iff d.monitor_condition.description "",
    ),
  )

  commit-Granted :
      (p : ParticipantId)
      → r.authority ≡ by_facilitator p
      → r.explicit_commit ≡ some true
      → Granted (commit d r)
  unfolding commit
  commit-Granted p e x =
      (record d { status = committed }, ground (arith, replace-granted d committed v (λ x. cc)))

  start_monitoring-Granted :
      r.authority ≡ by_system → r.monitor_registration_id ≢ none → Granted (start_monitoring d r)
  unfolding start_monitoring
  start_monitoring-Granted e x =
      let m = record d.monitor_condition { registration_id = r.monitor_registration_id } in
      let known = restated d monitoring m d.superseded_by_decision_id v (λ e. cc) in
      (record d { monitor_condition = m; status = monitoring }, ground (arith, known))

  mark_at_risk-Granted :
      r.authority ≡ by_system
      → r.invalidation_suggestion_recorded ≡ some true
      → Lists r.suggestion_reference_ids
      → Lists r.affected_premise_ids
      → Lists r.affected_action_ids
      → Granted (mark_at_risk d r)
  unfolding mark_at_risk
  mark_at_risk-Granted e x a b c = (
    record d { status = at_risk },
    ground (arith, replace-granted d at_risk v (λ x. cc), a.2, b.2, c.2),
  )

  require_review-Granted :
      (p : ParticipantId)
      → r.authority ≡ by_facilitator p
      → r.invalidation_confirmed ≡ some true
      → Lists r.reviewed_premise_ids
      → Lists r.reviewed_evidence_reference_ids
      → Lists r.reviewed_action_ids
      → Granted (require_review d r)
  unfolding require_review
  require_review-Granted p e x a b c = (
    record d { status = review_required },
    ground (arith, replace-granted d review_required v (λ x. cc), a.2, b.2, c.2),
  )

  reject_suggestion-Granted :
      (p : ParticipantId)
      → r.authority ≡ by_facilitator p
      → r.rejection_reason ≢ none
      → Granted (reject_suggestion d r)
  unfolding reject_suggestion
  reject_suggestion-Granted p e x =
      (record d { status = monitoring }, ground (arith, replace-granted d monitoring v (λ x. cc)))

  recommit-Granted :
      (p : ParticipantId) (w : DecisionRevision)
      → r.authority ≡ by_facilitator p
      → r.explicit_commit ≡ some true
      → r.revision ≡ some w
      → w.decision_id ≡ d.id
      → w.version ≡ d.active_revision + 1
      → w.version ≤ max_safe_integer
      → w.created_by ≡ p
      → w.snapshot.status ≡ committed
      → IsRevision w
      → Granted (recommit d r)
  unfolding recommit
  recommit-Granted p w e x g i n b c s y = (
    with_revision d w,
    ground (
      arith,
      recommit-checked d w v y,
      revision_number-of_ℕ (d.active_revision + 1),
      ==_iff w.decision_id d.id,
      ==_iff w.created_by p,
    ),
  )

  supersede-Granted :
      (p : ParticipantId) (o : DecisionId)
      → r.authority ≡ by_facilitator p
      → r.replacement_decision_id ≡ some o
      → o ≢ d.id
      → Granted (supersede d r)
  unfolding supersede
  supersede-Granted p o e g n =
      let known =
        restated d superseded d.monitor_condition r.replacement_decision_id v (λ e. ground arith) in
      (
        record d { status = superseded; superseded_by_decision_id = r.replacement_decision_id },
        ground (arith, known, ==_iff o d.id),
      )

  reject-Granted :
      (p : ParticipantId)
      → r.authority ≡ by_facilitator p
      → r.rejection_reason ≢ none
      → Granted (reject d r)
  unfolding reject
  reject-Granted p e x = (
    record d { status = decision_rejected },
    ground (arith, replace-granted d decision_rejected v (λ x. cc)),
  )

  transition_between-Granted :
      {a b : DecisionStatus}
      → ((w : DecisionRevision) → r.revision ≡ some w → IsRevision w)
      → Enabled d r a b
      → Granted (transition_between a b d r)
  unfolding transition_between
  transition_between-Granted y (to_ready p c e g i o pr ev ac m) =
      mark_ready-Granted p c e g i o pr ev ac m
  transition_between-Granted y (to_committed p e x) = commit-Granted p e x
  transition_between-Granted y (to_monitoring e x) = start_monitoring-Granted e x
  transition_between-Granted y (to_at_risk e x a b c) = mark_at_risk-Granted e x a b c
  transition_between-Granted y (to_review p e x a b c) = require_review-Granted p e x a b c
  transition_between-Granted y (back_to_monitoring p e x) = reject_suggestion-Granted p e x
  transition_between-Granted y (to_recommitted p w e x g i n b c s) =
      recommit-Granted p w e x g i n b c s (y w g)
  transition_between-Granted y (to_superseded p o e g n) = supersede-Granted p o e g n
  transition_between-Granted y (to_rejected p e x) = reject-Granted p e x

  not_ai :
      {a b : DecisionStatus} → Enabled d r a b → b ≡ review_required → is_ai r.authority ≡ false
  not_ai (to_review p e _ _ _ _) x = ground arith
  not_ai _ x = cc

  transition_decision-Granted :
      ((w : DecisionRevision) → r.revision ≡ some w → IsRevision w)
      → Enabled d r d.status r.to
      → Granted (transition_decision d r)
  unfolding transition_decision
  transition_decision-Granted y e =
      let (d', h) = transition_between-Granted y e in
      let m = (decision_transition_matrix_iff d.status r.to).1 (Edge-of_Enabled e) in
      (d', ground (arith, m, h, not_ai e))

-- A request on a valid Decision, whose revision is valid if it brings one, is granted exactly when
-- its guards hold.
pub transition_decision_iff :
    (d : Decision) (r : DecisionTransitionRequest)
    → IsDecision d
    → ((w : DecisionRevision) → r.revision ≡ some w → IsRevision w)
    → ((d' : Decision) × (transition_decision d r ≡ ok d')) ↔ Enabled d r d.status r.to
transition_decision_iff d r v y =
    ((λ h. transition_decision-Enabled d r h.1), transition_decision-Granted d r v y)
