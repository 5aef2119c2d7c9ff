-- ===== src/Events/Payloads.antt =====
-- The payloads of the events, `DomainEventPayloads`, one constructor for each event type. An event of
-- one owner carries one of the ten types that may be private.
use counterpoint_living_deci.Base.{List, Option}
use counterpoint_living_deci.Entities.Decisions.{
  Action, Decision, DecisionRevision, ExternalEvent, ReconsiderationTask,
}
use counterpoint_living_deci.Entities.People.{Meeting, Participant}
use counterpoint_living_deci.Entities.Sources.{
  ArtifactProcessingState, Evidence, SourceArtifact, Utterance,
}
use counterpoint_living_deci.Events.Suggestions.{
  AiSuggestionMetadata, DisclosureOutgoingPayload, InferenceConfirmedPayload,
  InferenceRejectedPayload, InferenceSuggestedPayload,
}
use counterpoint_living_deci.Events.Types.{DomainEventType}
use counterpoint_living_deci.Values.{Number}
use counterpoint_living_deci.Values.Ids.{
  ActionId, ArtifactId, ContentHash, DecisionId, DecisionRevisionId, DisclosureId, DisplayTokenId,
  EvidenceId, ExternalEventId, MonitorRegistrationId, NonEmptyText, ParticipantId, PremiseId,
  PreviewHash, ReconsiderationTaskId, ResetRequestId, SourceReferenceId, SuggestionId, Timestamp,
}

pub record ArtifactProcessedPayload : Type 0 where
  pub artifact_id : ArtifactId
  pub processing_state : ArtifactProcessingState
  pub content_hash : Option ContentHash
  pub derived_artifact_id : Option ArtifactId
  pub derived_size_bytes : Option Number
  pub derived_storage_reference : Option NonEmptyText
  pub failure_code : Option NonEmptyText

pub record InvalidationSuggestedPayload : Type 0 where
  pub suggestion_id : SuggestionId
  pub decision_id : DecisionId
  pub active_revision_id : DecisionRevisionId
  pub external_event_id : ExternalEventId
  pub affected_premise_ids : List PremiseId
  pub affected_action_ids : List ActionId
  pub evidence_reference_ids : List SourceReferenceId
  pub metadata : AiSuggestionMetadata
  pub generated_at : Timestamp
  pub operation : NonEmptyText
  pub output_schema_version : NonEmptyText

pub data ReviewDisposition : Type 0 where
  confirm_invalidation reject_suggestion : ReviewDisposition

pub record FacilitatorReviewedPayload : Type 0 where
  pub decision : Decision
  pub decision_id : DecisionId
  pub suggestion_id : SuggestionId
  pub facilitator_participant_id : ParticipantId
  pub disposition : ReviewDisposition
  pub reviewed_premise_ids : List PremiseId
  pub reviewed_evidence_reference_ids : List SourceReferenceId
  pub reviewed_action_ids : List ActionId
  pub reason : NonEmptyText

pub data FloorReleaseReason : Type 0 where
  released expired disconnected : FloorReleaseReason

pub data LeaseExpiryReason : Type 0 where
  heartbeat_lost meeting_over session_ended : LeaseExpiryReason

pub data SharedPayload : Type 0 where
  meeting_created : (meeting : Meeting) → SharedPayload
  participant_assigned : (participant : Participant) → SharedPayload
  participant_joined : (participant_id : ParticipantId) (joined_at : Timestamp) → SharedPayload
  meeting_ended : (ended_at : Timestamp) (reason : Option NonEmptyText) → SharedPayload
  display_token_issued :
      (display_token_id : DisplayTokenId) (expires_at : Timestamp) → SharedPayload
  display_token_revoked :
      (display_token_id : DisplayTokenId) (revoked_at : Timestamp) → SharedPayload
  artifact_registered : (artifact : SourceArtifact) → SharedPayload
  artifact_processed : ArtifactProcessedPayload → SharedPayload
  utterance_captured : (utterance : Utterance) → SharedPayload
  shared_floor_acquired :
      (participant_id : ParticipantId) (lease_expires_at : Timestamp) → SharedPayload
  shared_floor_released :
      (participant_id : ParticipantId) (reason : FloorReleaseReason) → SharedPayload
  evidence_shared : (evidence : Evidence) → SharedPayload
  inference_suggested : InferenceSuggestedPayload → SharedPayload
  inference_confirmed : InferenceConfirmedPayload → SharedPayload
  inference_rejected : InferenceRejectedPayload → SharedPayload
  decision_drafted : (decision : Decision) (revision : DecisionRevision) → SharedPayload
  decision_marked_ready : (decision : Decision) → SharedPayload
  decision_committed : (decision : Decision) (revision : DecisionRevision) → SharedPayload
  monitoring_started :
      (decision : Decision) (monitor_registration_id : MonitorRegistrationId) → SharedPayload
  external_event_received : (external_event : ExternalEvent) → SharedPayload
  assumption_invalidation_suggested : InvalidationSuggestedPayload → SharedPayload
  decision_marked_at_risk :
      (decision : Decision) (suggestion_id : SuggestionId) (affected_premise_ids : List PremiseId)
      (affected_action_ids : List ActionId)
      → SharedPayload
  facilitator_reviewed : FacilitatorReviewedPayload → SharedPayload
  decision_review_required :
      (decision : Decision) (suggestion_id : SuggestionId) (held_action_ids : List ActionId)
      (reconsideration_task_id : ReconsiderationTaskId)
      → SharedPayload
  action_held :
      (decision_id : DecisionId) (suggestion_id : SuggestionId) (actions : List Action)
      → SharedPayload
  reconsideration_task_created : (task : ReconsiderationTask) → SharedPayload
  decision_revision_committed : (decision : Decision) (revision : DecisionRevision) → SharedPayload
  decision_superseded : (decision : Decision) (replacement_decision_id : DecisionId) → SharedPayload
  decision_turned_down : (decision : Decision) (reason : NonEmptyText) → SharedPayload
  demo_reset_requested :
      (reset_request_id : ResetRequestId) (seed_name : NonEmptyText) → SharedPayload
  demo_reset_completed :
      (reset_request_id : ResetRequestId) (seed_name : NonEmptyText) → SharedPayload
  api_key_lease_updated : (expires_at : Timestamp) → SharedPayload
  api_key_lease_expired : (expired_at : Timestamp) (reason : LeaseExpiryReason) → SharedPayload

pub data PrivatePayload : Type 0 where
  own_artifact_registered : (artifact : SourceArtifact) → PrivatePayload
  own_artifact_processed : ArtifactProcessedPayload → PrivatePayload
  own_utterance_captured : (utterance : Utterance) → PrivatePayload
  own_inference_suggested : InferenceSuggestedPayload → PrivatePayload
  own_inference_confirmed : InferenceConfirmedPayload → PrivatePayload
  own_inference_rejected : InferenceRejectedPayload → PrivatePayload
  disclosure_proposed :
      (disclosure_id : DisclosureId) (owner : ParticipantId)
      (outgoing_payload : DisclosureOutgoingPayload)
      → PrivatePayload
  disclosure_previewed :
      (disclosure_id : DisclosureId) (outgoing_payload : DisclosureOutgoingPayload)
      (preview_hash : PreviewHash)
      → PrivatePayload
  disclosure_approved :
      (disclosure_id : DisclosureId) (preview_hash : PreviewHash)
      (resulting_evidence_id : EvidenceId) (approved_at : Timestamp)
      → PrivatePayload
  disclosure_rejected :
      (disclosure_id : DisclosureId) (rejected_at : Timestamp) (reason : Option NonEmptyText)
      → PrivatePayload

unfoldable pub shared_event_type : SharedPayload → DomainEventType
shared_event_type (meeting_created _) = DomainEventType.meeting_created
shared_event_type (participant_assigned _) = DomainEventType.participant_assigned
shared_event_type (participant_joined _ _) = DomainEventType.participant_joined
shared_event_type (meeting_ended _ _) = DomainEventType.meeting_ended
shared_event_type (display_token_issued _ _) = DomainEventType.display_token_issued
shared_event_type (display_token_revoked _ _) = DomainEventType.display_token_revoked
shared_event_type (artifact_registered _) = DomainEventType.artifact_registered
shared_event_type (artifact_processed _) = DomainEventType.artifact_processed
shared_event_type (utterance_captured _) = DomainEventType.utterance_captured
shared_event_type (shared_floor_acquired _ _) = DomainEventType.shared_floor_acquired
shared_event_type (shared_floor_released _ _) = DomainEventType.shared_floor_released
shared_event_type (evidence_shared _) = DomainEventType.evidence_shared
shared_event_type (inference_suggested _) = DomainEventType.inference_suggested
shared_event_type (inference_confirmed _) = DomainEventType.inference_confirmed
shared_event_type (inference_rejected _) = DomainEventType.inference_rejected
shared_event_type (decision_drafted _ _) = DomainEventType.decision_drafted
shared_event_type (decision_marked_ready _) = DomainEventType.decision_marked_ready
shared_event_type (decision_committed _ _) = DomainEventType.decision_committed
shared_event_type (monitoring_started _ _) = DomainEventType.monitoring_started
shared_event_type (external_event_received _) = DomainEventType.external_event_received
shared_event_type (assumption_invalidation_suggested _) =
    DomainEventType.assumption_invalidation_suggested
shared_event_type (decision_marked_at_risk _ _ _ _) = DomainEventType.decision_marked_at_risk
shared_event_type (facilitator_reviewed _) = DomainEventType.facilitator_reviewed
shared_event_type (decision_review_required _ _ _ _) = DomainEventType.decision_review_required
shared_event_type (action_held _ _ _) = DomainEventType.action_held
shared_event_type (reconsideration_task_created _) = DomainEventType.reconsideration_task_created
shared_event_type (decision_revision_committed _ _) = DomainEventType.decision_revision_committed
shared_event_type (decision_superseded _ _) = DomainEventType.decision_superseded
shared_event_type (decision_turned_down _ _) = DomainEventType.decision_rejected
shared_event_type (demo_reset_requested _ _) = DomainEventType.demo_reset_requested
shared_event_type (demo_reset_completed _ _) = DomainEventType.demo_reset_completed
shared_event_type (api_key_lease_updated _) = DomainEventType.api_key_lease_updated
shared_event_type (api_key_lease_expired _ _) = DomainEventType.api_key_lease_expired
