-- ===== src/Tests/Decisions.antt =====
-- Transitions, holds, revisions and tasks: runs of the model, and the theorems applied to them.
use mathlib.Core.List.{Memᴰ}
use counterpoint_living_deci.Application.Authorization.{access_eq}
use counterpoint_living_deci.Base.{
  List, Pairwise, [], any, arith, err, filter, find, fold, inr, invalid_state_transition, last, map,
  nat_eq, none, ok, option_eq, refl, some, string_eq, traverse, ◌↔◌, ◌∷◌, ◌≡◌, ◌≢◌, ◌⊎◌,
}
use counterpoint_living_deci.Base.Members.{contains}
use counterpoint_living_deci.Base.Unique.{Distinct, is_unique, is_unique_iff, set_of}
use counterpoint_living_deci.Entities.Common.{
  assert_common_record, assert_record_scope, assert_unique, confirmation_eq, origin_eq,
  visibility_eq,
}
use counterpoint_living_deci.Entities.Decisions.{
  Action, Decision, DecisionRevision, action_status_eq, at_risk, committed, create_action,
  create_decision, create_decision_revision, create_reconsideration_task, decision_ready,
  decision_rejected, draft, in_progress, monitoring, status_eq, task_open, task_state_eq,
}
use counterpoint_living_deci.Entities.People.{capability_eq}
use counterpoint_living_deci.Entities.Validity.Decisions.{
  IsAction, IsDecision, IsRevision, IsTask, create_action_iff, create_decision_iff,
  create_reconsideration_task_iff,
}
use counterpoint_living_deci.StateMachine.Holds.{
  action_id_of, hold_affected_actions, hold_selected, is_to_hold, select_actions_to_hold,
}
use counterpoint_living_deci.StateMachine.Holds.Applied.{
  hold_affected_actions-Handled, hold_affected_actions_total,
}
use counterpoint_living_deci.StateMachine.Holds.Laws.{
  Handled, NeedsHold, select_actions_to_hold_iff,
}
use counterpoint_living_deci.StateMachine.Recommit.{next_decision_revision-Adopts}
use counterpoint_living_deci.StateMachine.Requests.{
  DecisionTransitionRequest, by_facilitator, by_system,
}
use counterpoint_living_deci.StateMachine.Revisions.{
  NewDecisionRevisionInput, append_decision_revision, append_new, every_at, next_decision_revision,
  revisions_of, same_decision_revision, same_snapshot, same_values,
}
use counterpoint_living_deci.StateMachine.Revisions.History.{
  IsHistory, append_decision_revision_idem, replayed-IsHistory,
}
use counterpoint_living_deci.StateMachine.Tasks.{revise_reconsideration_task}
use counterpoint_living_deci.StateMachine.Tasks.Progress.{
  TaskEdge, moved, revise_reconsideration_task_cases,
}
use counterpoint_living_deci.StateMachine.Transition.{
  apply_revision, commit, decision_transition_matrix, mark_at_risk, mark_ready, readiness_complete,
  recommit, reject, reject_suggestion, replace_decision_status, require_facilitator, require_review,
  require_system, start_monitoring, supersede, transition_between, transition_decision,
  valid_targets,
}
use counterpoint_living_deci.StateMachine.Transition.Complete.{transition_decision_iff}
use counterpoint_living_deci.StateMachine.Transition.Guards.{Enabled}
use counterpoint_living_deci.StateMachine.Transition.Lives.{
  Confirms, IsAccounted, closed_refuses, run, run-Confirms, run-IsAccounted, transition_authority,
}
use counterpoint_living_deci.StateMachine.Transition.Outcome.{
  Adopts, KeepsContent, transition_decision-Adopts, transition_decision-KeepsContent,
}
use counterpoint_living_deci.Store.Projections.{key_eq, kind_eq}
use counterpoint_living_deci.Tests.Data.{
  commit_request, day, draft_decision, endangered_decision, first_revision, monitor_request,
  open_action, other_action, ready_request, recommit_request, recommitted, review_request,
  reviewed_decision, second_revision, selection, stopped_action, task,
}
use counterpoint_living_deci.Values.{
  is_below, is_safe_integer, opaque_integer, revision_number, to_ℕ,
}
use counterpoint_living_deci.Values.Ids.{ParticipantId}

code : Unit {0}
unfolding transition_decision transition_between decision_transition_matrix valid_targets mark_ready
    commit start_monitoring mark_at_risk require_review reject_suggestion recommit apply_revision
    supersede reject replace_decision_status create_decision assert_common_record
    assert_record_scope assert_unique is_unique set_of contains require_facilitator require_system
    readiness_complete create_decision_revision run fold append_decision_revision revisions_of find
    filter last same_decision_revision same_values same_snapshot every_at create_action traverse
    hold_affected_actions hold_selected select_actions_to_hold is_to_hold any revision_number
    append_new next_decision_revision opaque_integer is_safe_integer is_below to_ℕ
code = tt

transition_tests :
    (transition_decision draft_decision ready_request
      ≡ ok (record draft_decision { status = decision_ready }))
    × (transition_decision reviewed_decision recommit_request ≡ ok recommitted)
    × (transition_decision draft_decision commit_request ≡ err invalid_state_transition)
unfolding code
transition_tests = (refl, refl, refl)

draft_decision-IsDecision : IsDecision draft_decision
draft_decision-IsDecision =
    ((create_decision_iff draft_decision draft_decision).0 (unfold code in refl)).1

no-IsRevision : (w : DecisionRevision) → none ≡ some w → IsRevision w
no-IsRevision w e = cc e

transition_decision_iff_example :
    ((d' : Decision) × (transition_decision draft_decision ready_request ≡ ok d'))
    ↔ Enabled draft_decision ready_request draft decision_ready
transition_decision_iff_example =
    transition_decision_iff draft_decision ready_request draft_decision-IsDecision no-IsRevision

abbrev ready_decision : Decision
ready_decision = record draft_decision { status = decision_ready }

abbrev committed_decision : Decision
committed_decision = record draft_decision { status = committed }

abbrev watched_decision : Decision
watched_decision = record reviewed_decision { status = monitoring }

transition_decision-KeepsContent_example :
    IsDecision watched_decision
    × (monitoring ≡ monitoring)
    × KeepsContent committed monitoring committed_decision monitor_request watched_decision
unfolding code
transition_decision-KeepsContent_example =
    transition_decision-KeepsContent committed_decision monitor_request (λ e. cc) refl

transition_decision-Adopts_example :
    (v : DecisionRevision) × (some second_revision ≡ some v)
    × Adopts reviewed_decision v recommitted
unfolding code
transition_decision-Adopts_example =
    transition_decision-Adopts reviewed_decision recommit_request refl refl refl

transition_authority_example :
    ((p : ParticipantId) × (by_system ≡ by_facilitator p))
    ⊎ ((by_system ≡ by_system)
        × (((committed ≡ committed) × (monitoring ≡ monitoring))
            ⊎ ((committed ≡ monitoring) × (monitoring ≡ at_risk))))
unfolding code
transition_authority_example = transition_authority committed_decision monitor_request refl

run-IsAccounted_example : IsAccounted watched_decision
unfolding code
run-IsAccounted_example =
    run-IsAccounted draft_decision watched_decision
      (ready_request ∷ commit_request ∷ monitor_request ∷ []) refl refl

run-Confirms_example : (r : DecisionTransitionRequest) × Memᴰ r (review_request ∷ []) × Confirms r
unfolding code
run-Confirms_example =
    run-Confirms endangered_decision reviewed_decision (review_request ∷ []) (λ e. cc) refl refl

abbrev turned_down : Decision
turned_down = record draft_decision { status = decision_rejected }

closed_refuses_example :
    transition_decision turned_down ready_request ≡ err invalid_state_transition
closed_refuses_example = closed_refuses turned_down ready_request (inr refl)

select_actions_to_hold_iff_example :
    Memᴰ open_action (select_actions_to_hold (open_action ∷ other_action ∷ []) selection)
    ↔ (Memᴰ open_action (open_action ∷ other_action ∷ []) × NeedsHold selection open_action)
select_actions_to_hold_iff_example =
    select_actions_to_hold_iff selection (open_action ∷ other_action ∷ []) open_action

abbrev after_hold : List Action
after_hold = stopped_action ∷ other_action ∷ []

Distinct-ids : Distinct (map action_id_of (open_action ∷ other_action ∷ []))
Distinct-ids =
    (is_unique_iff (map action_id_of (open_action ∷ other_action ∷ []))).0 (unfold code in refl)

hold_affected_actions-Handled_example :
    Pairwise (Handled selection) (open_action ∷ other_action ∷ []) after_hold
unfolding code
hold_affected_actions-Handled_example =
    hold_affected_actions-Handled selection (open_action ∷ other_action ∷ []) after_hold
      Distinct-ids refl

open_action-IsAction : IsAction open_action
open_action-IsAction = ((create_action_iff open_action open_action).0 (unfold code in refl)).1

hold_affected_actions_total_example :
    (out : List Action) × (hold_affected_actions (open_action ∷ []) selection ≡ ok out)
hold_affected_actions_total_example =
    hold_affected_actions_total selection (open_action ∷ [])
      ((open_action-IsAction, omega arith), tt)

abbrev history : List DecisionRevision
history = first_revision ∷ second_revision ∷ []

replayed-IsHistory_example : IsHistory history
unfolding code
replayed-IsHistory_example = replayed-IsHistory history history refl

append_decision_revision_idem_example :
    append_decision_revision history second_revision ≡ ok history
unfolding code
append_decision_revision_idem_example =
    append_decision_revision_idem (first_revision ∷ []) history second_revision refl

task-IsTask : IsTask task
task-IsTask =
    ((create_reconsideration_task_iff task task).0
      (unfold code create_reconsideration_task in refl)).1

revise_reconsideration_task_cases_example :
    ((task_open ≡ in_progress) × (revise_reconsideration_task task in_progress ≡ ok task))
    ⊎ (TaskEdge task_open in_progress
        × (revise_reconsideration_task task in_progress ≡ ok (moved task in_progress)))
    ⊎ ((task_open ≢ in_progress)
        × (¬ TaskEdge task_open in_progress)
        × (revise_reconsideration_task task in_progress ≡ err invalid_state_transition))
revise_reconsideration_task_cases_example =
    revise_reconsideration_task_cases task in_progress task-IsTask (omega arith)

abbrev next_input : NewDecisionRevisionInput
next_input = record {
  id = "r2";
  change_reason = "prices rose";
  created_at = day;
  created_by = "ann";
  snapshot = second_revision.snapshot;
}

reviewed_decision-IsDecision : IsDecision reviewed_decision
reviewed_decision-IsDecision =
    ((create_decision_iff reviewed_decision reviewed_decision).0 (unfold code in refl)).1

next_decision_revision-Adopts_example :
    (d' : Decision) × (transition_decision reviewed_decision recommit_request ≡ ok d')
    × Adopts reviewed_decision second_revision d'
unfolding code
next_decision_revision-Adopts_example =
    next_decision_revision-Adopts reviewed_decision next_input recommit_request
      reviewed_decision-IsDecision refl refl refl refl refl refl refl
