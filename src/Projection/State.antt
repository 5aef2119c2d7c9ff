-- ===== src/Projection/State.antt =====
-- The projections: what all participants see, what one owner sees, and both with the receipts of the
-- events that made them.
use counterpoint_living_deci.Base.{
  List, Option, Result, String, [], nat_eq, none, not, optimistic_concurrency_conflict, option_eq,
  string_eq, throw_if, ◌==◌,
}
use counterpoint_living_deci.Entities.Claims.{DecisionOption, Premise, Proposition, Stance}
use counterpoint_living_deci.Entities.Common.{confirmation_eq, origin_eq, visibility_eq}
use counterpoint_living_deci.Entities.Decisions.{
  Action, Decision, DecisionRevision, Dissent, ExternalEvent, ReconsiderationTask, action_status_eq,
  status_eq, task_state_eq,
}
use counterpoint_living_deci.Entities.People.{Meeting, Participant, capability_eq}
use counterpoint_living_deci.Entities.Sources.{Evidence, SourceArtifact, Utterance}
use counterpoint_living_deci.Events.{AppendContract, EventReference}
use counterpoint_living_deci.Events.Suggestions.{InferenceSuggestedPayload}
use counterpoint_living_deci.Values.Ids.{
  DisclosureId, EventId, IdempotencyKey, MeetingId, MeetingPosition, ParticipantId, PreviewHash,
  SuggestionId, Timestamp,
}

pub record SharedFloorProjection : Type 0 where
  pub participant_id : ParticipantId
  pub lease_expires_at : Timestamp

pub record SharedMeetingProjection : Type 0 where
  pub meeting_id : MeetingId
  pub position : MeetingPosition
  pub meeting : Option Meeting
  pub participants : List Participant
  pub artifacts : List SourceArtifact
  pub utterances : List Utterance
  pub evidence : List Evidence
  pub propositions : List Proposition
  pub stances : List Stance
  pub premises : List Premise
  pub options : List DecisionOption
  pub dissent : List Dissent
  pub decisions : List Decision
  pub decision_revisions : List DecisionRevision
  pub actions : List Action
  pub reconsideration_tasks : List ReconsiderationTask
  pub external_events : List ExternalEvent
  pub shared_floor : Option SharedFloorProjection
  pub audit_timeline : List EventReference

pub data DisclosureState : Type 0 where
  disclosure_is_proposed disclosure_is_previewed disclosure_is_approved : DisclosureState
  disclosure_is_rejected : DisclosureState

pub record DisclosureProjection : Type 0 where
  pub disclosure_id : DisclosureId
  pub state : DisclosureState
  pub preview_hash : Option PreviewHash

pub record OwnerPrivateProjection : Type 0 where
  pub meeting_id : MeetingId
  pub owner_participant_id : ParticipantId
  pub artifacts : List SourceArtifact
  pub utterances : List Utterance
  pub disclosures : List DisclosureProjection
  pub inference_suggestion_ids : List SuggestionId
  pub inference_suggestions : List InferenceSuggestedPayload

pub record IdempotencyReceipt : Type 0 where
  pub key : IdempotencyKey
  pub event_id : EventId
  pub fingerprint : String

pub record ProcessedEventReceipt : Type 0 where
  pub event_id : EventId
  pub fingerprint : String

pub record MeetingProjection : Type 0 where
  pub meeting_id : MeetingId
  pub position : MeetingPosition
  pub shared : SharedMeetingProjection
  pub private_workspaces : List OwnerPrivateProjection
  pub idempotency_receipts : List IdempotencyReceipt
  pub processed_events : List ProcessedEventReceipt

unfoldable pub create_empty_shared_meeting_projection : MeetingId → SharedMeetingProjection
create_empty_shared_meeting_projection id = record {
  meeting_id = id;
  position = 0;
  meeting = none;
  participants = [];
  artifacts = [];
  utterances = [];
  evidence = [];
  propositions = [];
  stances = [];
  premises = [];
  options = [];
  dissent = [];
  decisions = [];
  decision_revisions = [];
  actions = [];
  reconsideration_tasks = [];
  external_events = [];
  shared_floor = none;
  audit_timeline = [];
}

unfoldable pub create_empty_meeting_projection : MeetingId → MeetingProjection
unfolding create_empty_shared_meeting_projection
create_empty_meeting_projection id = record {
  meeting_id = id;
  position = 0;
  shared = create_empty_shared_meeting_projection id;
  private_workspaces = [];
  idempotency_receipts = [];
  processed_events = [];
}

unfoldable pub assert_expected_position : MeetingProjection → AppendContract → Result (Unit {0})
assert_expected_position projection contract =
    throw_if (not (projection.position == contract.expected_position))
      optimistic_concurrency_conflict
