-- ===== src/StateMachine/Tasks.antt =====
-- `newReconsiderationTask` and `reviseReconsiderationTask`.
pub mod Progress
use counterpoint_living_deci.Base.{
  Bool, List, Result, if◌then◌else◌, invalid_state_transition, nat_eq, none, ok, option_eq, require,
  string_eq, ◌&&◌, ◌+◌, ◌==◌, ◌>>=◌, ◌>>◌, ◌||◌,
}
use counterpoint_living_deci.Entities.Common.{
  confirmation_eq, not_applicable, origin_eq, shared, system, visibility_eq,
}
use counterpoint_living_deci.Entities.Decisions.{
  ReconsiderationTask, TaskState, action_status_eq, cancelled, create_reconsideration_task,
  in_progress, status_eq, task_completed, task_open, task_state_eq,
}
use counterpoint_living_deci.Entities.People.{capability_eq}
use counterpoint_living_deci.Values.{of_ℕ, revision_number}
use counterpoint_living_deci.Values.Ids.{
  ActionId, DecisionId, ExternalEventId, MeetingId, ParticipantId, PremiseId, ReconsiderationTaskId,
  Timestamp,
}

pub record NewReconsiderationTaskInput : Type 0 where
  pub id : ReconsiderationTaskId
  pub meeting_id : MeetingId
  pub decision_id : DecisionId
  pub trigger_external_event_id : ExternalEventId
  pub owner : ParticipantId
  pub affected_premise_ids : List PremiseId
  pub affected_action_ids : List ActionId
  pub created_at : Timestamp

unfoldable pub new_reconsideration_task : NewReconsiderationTaskInput → Result ReconsiderationTask
new_reconsideration_task input = create_reconsideration_task (record {
  common = record {
    id = input.id;
    meeting_id = input.meeting_id;
    created_at = input.created_at;
    created_by = "system";
    origin = system;
    confirmation_status = not_applicable;
    revision = 1;
    visibility = shared;
    owner_participant_id = none;
  };
  decision_id = input.decision_id;
  trigger_external_event_id = input.trigger_external_event_id;
  owner = input.owner;
  affected_premise_ids = input.affected_premise_ids;
  affected_action_ids = input.affected_action_ids;
  state = task_open;
})

-- The transitions that are allowed between two different states.
unfoldable pub is_allowed : TaskState → TaskState → Bool
is_allowed from to =
    (from == task_open && (to == in_progress || to == cancelled))
    || (from == in_progress && (to == task_completed || to == cancelled))

unfoldable pub revise_reconsideration_task :
    ReconsiderationTask → TaskState → Result ReconsiderationTask
unfolding is_allowed
revise_reconsideration_task task state = if task.state == state then ok task else (do
  require (is_allowed task.state state) invalid_state_transition
  n ← revision_number (of_ℕ (task.revision + 1))
  create_reconsideration_task
      (record task { common = record task.common { revision = n }; state = state }))
