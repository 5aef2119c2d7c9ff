-- ===== src/Tests/Data.antt =====
-- Concrete records, requests and events that the tests run on.
use counterpoint_living_deci.Base.{Option, String, [], none, some, true, ℕ, ◌∷◌}
use counterpoint_living_deci.Entities.Claims.{MonitorCondition}
use counterpoint_living_deci.Entities.Common.{
  CommonRecordFields, confirmed, human_input, private, shared,
}
use counterpoint_living_deci.Entities.Decisions.{
  Action, Decision, DecisionReadiness, DecisionRevision, DecisionStatus, ReconsiderationTask,
  active, at_risk, committed, decision_ready, draft, held, monitoring, review_required, task_open,
}
use counterpoint_living_deci.Entities.Sources.{SourceArtifact, registered, text}
use counterpoint_living_deci.Events.{
  DomainEvent, EventEnvelope, EventReference, PrivateDomainEvent, SharedDomainEvent, envelope_of,
  system_actor,
}
use counterpoint_living_deci.Events.Payloads.{artifact_registered, own_artifact_registered}
use counterpoint_living_deci.Events.Types.{DomainEventType}
use counterpoint_living_deci.Projection.State.{
  MeetingProjection, OwnerPrivateProjection, SharedMeetingProjection,
}
use counterpoint_living_deci.StateMachine.Holds.{ActionHoldSelection}
use counterpoint_living_deci.StateMachine.Requests.{
  DecisionAuthority, DecisionTransitionRequest, by_facilitator, by_system,
}
use counterpoint_living_deci.Values.{ratio}

abbrev pub day : String
day = "2026-01-01T00:00:00Z"

abbrev pub common_of : String → String → ℕ → CommonRecordFields
common_of id author n = record {
  id = id;
  meeting_id = "m";
  created_at = day;
  created_by = author;
  origin = human_input;
  confirmation_status = confirmed;
  revision = n;
  visibility = shared;
  owner_participant_id = none;
}

abbrev pub watch : MonitorCondition
watch = record { description = "prices"; registration_id = none }

abbrev pub draft_decision : Decision
draft_decision = record {
  common = common_of "d" "ann" 1;
  title = "Move";
  outcome = "We move";
  status = draft;
  active_revision = 1;
  active_revision_id = "r1";
  premise_ids = "p" ∷ [];
  evidence_ids = "e" ∷ [];
  dissent_ids = [];
  action_ids = "a" ∷ [];
  monitor_condition = watch;
  superseded_by_decision_id = none;
}

abbrev pub reviewed_decision : Decision
reviewed_decision = record draft_decision {
  status = review_required;
  monitor_condition = record { description = "prices"; registration_id = some "w" };
}

abbrev pub endangered_decision : Decision
endangered_decision = record reviewed_decision { status = at_risk }

abbrev pub complete : DecisionReadiness
complete = record {
  outcome = true;
  premise_ids = true;
  evidence_ids = true;
  action_ids = true;
  monitor_condition = true;
}

abbrev pub request : DecisionStatus → DecisionAuthority → DecisionTransitionRequest
request to authority = record {
  to = to;
  authority = authority;
  readiness = none;
  explicit_commit = none;
  monitor_registration_id = none;
  invalidation_suggestion_recorded = none;
  suggestion_reference_ids = none;
  affected_premise_ids = none;
  affected_action_ids = none;
  reviewed_premise_ids = none;
  reviewed_evidence_reference_ids = none;
  reviewed_action_ids = none;
  invalidation_confirmed = none;
  rejection_reason = none;
  revision = none;
  replacement_decision_id = none;
}

abbrev pub ready_request : DecisionTransitionRequest
ready_request = record (request decision_ready (by_facilitator "ann")) { readiness = some complete }

abbrev pub commit_request : DecisionTransitionRequest
commit_request = record (request committed (by_facilitator "ann")) { explicit_commit = some true }

abbrev pub monitor_request : DecisionTransitionRequest
monitor_request = record (request monitoring by_system) { monitor_registration_id = some "w" }

abbrev pub review_request : DecisionTransitionRequest
review_request = record (request review_required (by_facilitator "ann")) {
  invalidation_confirmed = some true;
  reviewed_premise_ids = some ("p" ∷ []);
  reviewed_evidence_reference_ids = some ("x" ∷ []);
  reviewed_action_ids = some ("a" ∷ []);
}

abbrev pub revision_of : String → ℕ → Option String → DecisionRevision
revision_of id n previous = record {
  common = common_of id "ann" n;
  decision_id = "d";
  version = n;
  previous_revision_id = previous;
  snapshot = record {
    title = "Stay";
    outcome = "We stay";
    status = committed;
    premise_ids = "q" ∷ [];
    evidence_ids = "e" ∷ [];
    dissent_ids = [];
    action_ids = "a" ∷ [];
    monitor_condition = watch;
  };
  change_reason = "prices rose";
}

abbrev pub first_revision : DecisionRevision
first_revision = revision_of "r1" 1 none

abbrev pub second_revision : DecisionRevision
second_revision = revision_of "r2" 2 (some "r1")

abbrev pub recommit_request : DecisionTransitionRequest
recommit_request = record commit_request { revision = some second_revision }

abbrev pub recommitted : Decision
recommitted = record reviewed_decision {
  common = record reviewed_decision.common { revision = 2 };
  title = "Stay";
  outcome = "We stay";
  status = committed;
  active_revision = 2;
  active_revision_id = "r2";
  premise_ids = "q" ∷ [];
  monitor_condition = watch;
}

abbrev pub open_action : Action
open_action = record {
  common = common_of "a" "ann" 1;
  owner = "bob";
  scope = "office" ∷ [];
  status = active;
  affected_premise_ids = "p" ∷ [];
  hold_reason = none;
}

abbrev pub other_action : Action
other_action = record open_action { common = common_of "b" "ann" 1 }

abbrev pub selection : ActionHoldSelection
selection = record {
  affected_premise_ids = "p" ∷ [];
  suggested_action_ids = "a" ∷ [];
  hold_reason = "under review";
}

abbrev pub stopped_action : Action
stopped_action = record open_action {
  common = common_of "a" "ann" 2;
  status = held;
  hold_reason = some "under review";
}

abbrev pub task : ReconsiderationTask
task = record {
  common = common_of "t" "system" 1;
  decision_id = "d";
  trigger_external_event_id = "x";
  owner = "ann";
  affected_premise_ids = "p" ∷ [];
  affected_action_ids = "a" ∷ [];
  state = task_open;
}

abbrev pub note : SourceArtifact
note = record {
  common = common_of "n" "bob" 1;
  artifact_type = text;
  storage_reference = "s";
  content_hash = "h";
  content_type = none;
  derived_artifact_id = none;
  derived_content_hash = none;
  derived_size_bytes = none;
  derived_storage_reference = none;
  original_filename = none;
  source_locator_hash = none;
  size_bytes = ratio 10 0;
  processing_state = registered;
}

abbrev pub secret_note : SourceArtifact
secret_note = record note {
  common = record (common_of "k" "bob" 1) {
    visibility = private;
    owner_participant_id = some "bob";
  };
}

abbrev pub envelope : String → ℕ → EventEnvelope
envelope id n = record {
  event_id = id;
  schema_version = 1;
  meeting_id = "m";
  position = n;
  actor = system_actor;
  occurred_at = day;
  correlation_id = "c";
  causation_id = none;
  idempotency_key = some id;
}

abbrev pub note_event : SharedDomainEvent
note_event = record { envelope = envelope "e1" 1; payload = artifact_registered note }

abbrev pub secret_event : PrivateDomainEvent
secret_event = record {
  envelope = envelope "e2" 2;
  owner_participant_id = "bob";
  payload = own_artifact_registered secret_note;
}

-- A fingerprint that tells events apart by their ids.
abbrev pub by_id : DomainEvent → String
by_id e = (envelope_of e).event_id

abbrev pub note_reference : EventReference
note_reference = record {
  event_id = "e1";
  event_type = DomainEventType.artifact_registered;
  meeting_id = "m";
  position = 1;
  visibility = shared;
  occurred_at = day;
}

abbrev pub seen : SharedMeetingProjection
seen = record {
  meeting_id = "m";
  position = 1;
  meeting = none;
  participants = [];
  artifacts = note ∷ [];
  utterances = [];
  evidence = [];
  propositions = [];
  stances = [];
  premises = [];
  options = [];
  dissent = [];
  decisions = [];
  decision_revisions = [];
  actions = [];
  reconsideration_tasks = [];
  external_events = [];
  shared_floor = none;
  audit_timeline = note_reference ∷ [];
}

abbrev pub after_note : MeetingProjection
after_note = record {
  meeting_id = "m";
  position = 1;
  shared = seen;
  private_workspaces = [];
  idempotency_receipts = record { key = "e1"; event_id = "e1"; fingerprint = "e1" } ∷ [];
  processed_events = record { event_id = "e1"; fingerprint = "e1" } ∷ [];
}

abbrev pub workspace : OwnerPrivateProjection
workspace = record {
  meeting_id = "m";
  owner_participant_id = "bob";
  artifacts = secret_note ∷ [];
  utterances = [];
  disclosures = [];
  inference_suggestion_ids = [];
  inference_suggestions = [];
}

abbrev pub after_secret : MeetingProjection
after_secret = record after_note {
  position = 2;
  private_workspaces = workspace ∷ [];
  idempotency_receipts =
      record { key = "e1"; event_id = "e1"; fingerprint = "e1" }
      ∷ record { key = "e2"; event_id = "e2"; fingerprint = "e2" }
      ∷ [];
  processed_events =
      record { event_id = "e1"; fingerprint = "e1" }
      ∷ record { event_id = "e2"; fingerprint = "e2" }
      ∷ [];
}
