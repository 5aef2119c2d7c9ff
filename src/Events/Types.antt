-- ===== src/Events/Types.antt =====
-- The names of the event types, `domainEventTypes` of packages/domain/src/events.ts.

pub data DomainEventType : Type 0 where
  meeting_created participant_assigned participant_joined meeting_ended : DomainEventType
  display_token_issued display_token_revoked artifact_registered : DomainEventType
  artifact_processed utterance_captured shared_floor_acquired : DomainEventType
  shared_floor_released disclosure_proposed disclosure_previewed : DomainEventType
  disclosure_approved disclosure_rejected evidence_shared inference_suggested : DomainEventType
  inference_confirmed inference_rejected decision_drafted : DomainEventType
  decision_marked_ready decision_committed monitoring_started : DomainEventType
  external_event_received assumption_invalidation_suggested : DomainEventType
  decision_marked_at_risk facilitator_reviewed decision_review_required : DomainEventType
  action_held reconsideration_task_created decision_revision_committed : DomainEventType
  decision_superseded decision_rejected demo_reset_requested : DomainEventType
  demo_reset_completed api_key_lease_updated api_key_lease_expired : DomainEventType
