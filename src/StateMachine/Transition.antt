-- ===== src/StateMachine/Transition.antt =====
-- `transitionDecision` and the functions that it calls.
pub mod Edges
pub mod Guards
pub mod Outcome
pub mod Complete
pub mod Lives
use counterpoint_living_deci.Base.{
  Bool, List, Option, Result, [], decision_authority_required, decision_condition_required, err,
  false, invalid_state_transition, is_some, nat_eq, none, not, ok, option_eq, require, some,
  string_eq, throw_if, true, ◌&&◌, ◌+◌, ◌==◌, ◌>>=◌, ◌>>◌, ◌∷◌,
}
use counterpoint_living_deci.Base.Members.{contains}
use counterpoint_living_deci.Entities.Common.{confirmation_eq, origin_eq, visibility_eq}
use counterpoint_living_deci.Entities.Decisions.{
  Decision, DecisionReadiness, DecisionRevision, DecisionStatus, action_status_eq, at_risk,
  committed, create_decision, decision_ready, decision_rejected, draft, monitoring, review_required,
  status_eq, superseded, task_state_eq,
}
use counterpoint_living_deci.Entities.People.{capability_eq}
use counterpoint_living_deci.StateMachine.Requests.{
  DecisionAuthority, DecisionTransitionRequest, by_ai, by_facilitator, by_system, has_any,
  has_items, is_true,
}
use counterpoint_living_deci.Values.{of_ℕ, revision_number}
use counterpoint_living_deci.Values.Ids.{ParticipantId}

unfoldable pub valid_targets : DecisionStatus → List DecisionStatus
valid_targets draft = decision_ready ∷ []
valid_targets decision_ready = committed ∷ []
valid_targets committed = monitoring ∷ []
valid_targets monitoring = at_risk ∷ []
valid_targets at_risk = monitoring ∷ review_required ∷ []
valid_targets review_required = committed ∷ superseded ∷ decision_rejected ∷ []
valid_targets superseded = []
valid_targets decision_rejected = []

-- The table of the source, read at a row and a column.
unfoldable pub decision_transition_matrix : DecisionStatus → DecisionStatus → Bool
unfolding valid_targets contains
decision_transition_matrix from to = contains (valid_targets from) to

unfoldable pub require_facilitator : DecisionAuthority → Result ParticipantId
require_facilitator (by_facilitator p) = ok p
require_facilitator _ = err decision_authority_required

unfoldable pub require_system : DecisionAuthority → Result (Unit {0})
require_system by_system = ok tt
require_system _ = err decision_authority_required

abbrev pub require_condition : Bool → Result (Unit {0})
require_condition condition = require condition decision_condition_required

unfoldable pub readiness_complete : Option DecisionReadiness → Bool
readiness_complete none = false
readiness_complete (some r) =
    r.outcome && r.premise_ids && r.evidence_ids && r.action_ids && r.monitor_condition

unfoldable pub replace_decision_status : Decision → DecisionStatus → Result Decision
replace_decision_status decision status = create_decision (record decision { status = status })

unfoldable pub mark_ready : Decision → DecisionTransitionRequest → Result Decision
unfolding require_facilitator readiness_complete
mark_ready decision request = do
  facilitator_id ← require_facilitator request.authority
  require_condition (
      readiness_complete request.readiness
      && not (decision.outcome == "")
      && has_items decision.premise_ids
      && has_items decision.evidence_ids
      && has_items decision.action_ids
      && not (decision.monitor_condition.description == ""))
  replace_decision_status decision decision_ready

unfoldable pub commit : Decision → DecisionTransitionRequest → Result Decision
unfolding require_facilitator
commit decision request = do
  facilitator_id ← require_facilitator request.authority
  require_condition (is_true request.explicit_commit)
  replace_decision_status decision committed

unfoldable pub start_monitoring : Decision → DecisionTransitionRequest → Result Decision
unfolding require_system
start_monitoring decision request = do
  require_system request.authority
  require_condition (is_some request.monitor_registration_id)
  create_decision (record decision {
    monitor_condition = record decision.monitor_condition {
      registration_id = request.monitor_registration_id;
    };
    status = monitoring;
  })

unfoldable pub mark_at_risk : Decision → DecisionTransitionRequest → Result Decision
unfolding require_system
mark_at_risk decision request = do
  require_system request.authority
  require_condition (is_true request.invalidation_suggestion_recorded)
  require_condition (
      has_any request.suggestion_reference_ids
      && has_any request.affected_premise_ids
      && has_any request.affected_action_ids)
  replace_decision_status decision at_risk

unfoldable pub require_review : Decision → DecisionTransitionRequest → Result Decision
unfolding require_facilitator
require_review decision request = do
  facilitator_id ← require_facilitator request.authority
  require_condition (is_true request.invalidation_confirmed)
  require_condition (
      has_any request.reviewed_premise_ids
      && has_any request.reviewed_evidence_reference_ids
      && has_any request.reviewed_action_ids)
  replace_decision_status decision review_required

unfoldable pub reject_suggestion : Decision → DecisionTransitionRequest → Result Decision
unfolding require_facilitator
reject_suggestion decision request = do
  facilitator_id ← require_facilitator request.authority
  require_condition (is_some request.rejection_reason)
  replace_decision_status decision monitoring

-- The Decision with the content of a revision.
abbrev pub with_revision : Decision → DecisionRevision → Decision
with_revision decision r = record {
  common = record decision.common { revision = r.version };
  title = r.snapshot.title;
  outcome = r.snapshot.outcome;
  status = committed;
  active_revision = r.version;
  active_revision_id = r.id;
  premise_ids = r.snapshot.premise_ids;
  evidence_ids = r.snapshot.evidence_ids;
  dissent_ids = r.snapshot.dissent_ids;
  action_ids = r.snapshot.action_ids;
  monitor_condition = r.snapshot.monitor_condition;
  superseded_by_decision_id = decision.superseded_by_decision_id;
}

-- The number of the next revision is computed only for a revision of this Decision.
unfoldable pub apply_revision : Decision → ParticipantId → Option DecisionRevision → Result Decision
apply_revision decision facilitator_id none = err decision_condition_required
apply_revision decision facilitator_id (some r) = do
  require_condition (r.decision_id == decision.id)
  next ← revision_number (of_ℕ (decision.active_revision + 1))
  require_condition
      (r.version == next && r.created_by == facilitator_id && r.snapshot.status == committed)
  create_decision (with_revision decision r)

unfoldable pub recommit : Decision → DecisionTransitionRequest → Result Decision
unfolding require_facilitator apply_revision
recommit decision request = do
  facilitator_id ← require_facilitator request.authority
  require_condition (is_true request.explicit_commit)
  apply_revision decision facilitator_id request.revision

unfoldable pub supersede : Decision → DecisionTransitionRequest → Result Decision
unfolding require_facilitator
supersede decision request = do
  facilitator_id ← require_facilitator request.authority
  require_condition (
      is_some request.replacement_decision_id
      && not (request.replacement_decision_id == some decision.id))
  create_decision (record decision {
    status = superseded;
    superseded_by_decision_id = request.replacement_decision_id;
  })

unfoldable pub reject : Decision → DecisionTransitionRequest → Result Decision
unfolding require_facilitator
reject decision request = do
  facilitator_id ← require_facilitator request.authority
  require_condition (is_some request.rejection_reason)
  replace_decision_status decision decision_rejected

-- The chain of `else if` on the two states; the last clause is the code behind it.
unfoldable pub transition_between :
    DecisionStatus → DecisionStatus → Decision → DecisionTransitionRequest → Result Decision
transition_between draft decision_ready d r = mark_ready d r
transition_between decision_ready committed d r = commit d r
transition_between committed monitoring d r = start_monitoring d r
transition_between monitoring at_risk d r = mark_at_risk d r
transition_between at_risk review_required d r = require_review d r
transition_between at_risk monitoring d r = reject_suggestion d r
transition_between review_required committed d r = recommit d r
transition_between review_required superseded d r = supersede d r
transition_between review_required decision_rejected d r = reject d r
transition_between _ to d r = replace_decision_status d to

abbrev pub is_ai : DecisionAuthority → Bool
is_ai (by_ai _) = true
is_ai _ = false

unfoldable pub transition_decision : Decision → DecisionTransitionRequest → Result Decision
unfolding decision_transition_matrix transition_between
transition_decision decision request = do
  require (decision_transition_matrix decision.status request.to) invalid_state_transition
  throw_if (request.to == review_required && is_ai request.authority) decision_authority_required
  transition_between decision.status request.to decision request
