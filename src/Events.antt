-- ===== src/Events.antt =====
-- packages/domain/src/events.ts: the events of a meeting, shared ones and those of one owner.
pub mod Types
pub mod Suggestions
pub mod Payloads
use counterpoint_living_deci.Base.{Option, ◌*◌}
use counterpoint_living_deci.Entities.Common.{Visibility, shared}
use counterpoint_living_deci.Events.Payloads.{PrivatePayload, SharedPayload, shared_event_type}
use counterpoint_living_deci.Events.Types.{DomainEventType}
use counterpoint_living_deci.Values.Ids.{
  CausationId, CorrelationId, EventId, IdempotencyKey, MeetingId, MeetingPosition, NonEmptyText,
  ParticipantId, SchemaVersion, Timestamp,
}

pub data DomainActor : Type 0 where
  participant_actor : ParticipantId → DomainActor
  system_actor : DomainActor
  ai_actor : NonEmptyText → DomainActor

-- The fields of `EventEnvelopeBase` but the payload.
pub record EventEnvelope : Type 0 where
  pub event_id : EventId
  pub schema_version : SchemaVersion
  pub meeting_id : MeetingId
  pub position : MeetingPosition
  pub actor : DomainActor
  pub occurred_at : Timestamp
  pub correlation_id : CorrelationId
  pub causation_id : Option CausationId
  pub idempotency_key : Option IdempotencyKey

pub record SharedDomainEvent : Type 0 where
  pub envelope : EventEnvelope
  pub open envelope use *
  pub payload : SharedPayload

pub record PrivateDomainEvent : Type 0 where
  pub envelope : EventEnvelope
  pub open envelope use *
  pub owner_participant_id : ParticipantId
  pub payload : PrivatePayload

pub data DomainEvent : Type 0 where
  shared_event : SharedDomainEvent → DomainEvent
  private_event : PrivateDomainEvent → DomainEvent

abbrev pub envelope_of : DomainEvent → EventEnvelope
envelope_of (shared_event e) = e.envelope
envelope_of (private_event e) = e.envelope

pub record AppendContract : Type 0 where
  pub expected_position : MeetingPosition
  pub idempotency_key : Option IdempotencyKey

pub record EventReference : Type 0 where
  pub event_id : EventId
  pub event_type : DomainEventType
  pub meeting_id : MeetingId
  pub position : MeetingPosition
  pub visibility : Visibility
  pub occurred_at : Timestamp

-- `toEventReference` of a shared event; the reducers call it on no other.
unfoldable pub to_event_reference : SharedDomainEvent → EventReference
to_event_reference event = record {
  event_id = event.event_id;
  event_type = shared_event_type event.payload;
  meeting_id = event.meeting_id;
  position = event.position;
  visibility = shared;
  occurred_at = event.occurred_at;
}
