-- ===== src/Projection/Meeting.antt =====
-- `reduceMeetingProjection` and the replay of a meeting. The section's `fingerprint` stands for
-- `eventFingerprint`, of which the reducer only compares values.
pub mod Steps
pub mod Privacy
pub mod Replay
pub mod Scopes
pub mod Audit
use counterpoint_living_deci.Base.{
  Bool, List, Option, Result, String, [], err, event_id_conflict, false, find, fold,
  idempotency_conflict, if◌then◌else◌, leb, meeting_scope_mismatch, nat_eq, none, not, ok,
  option_eq, position_gap, some, stale_position, string_eq, throw_if, true, ◌++◌, ◌+◌, ◌==◌, ◌>>=◌,
  ◌>>◌, ◌∷◌,
}
use counterpoint_living_deci.Entities.Common.{confirmation_eq, origin_eq, shared, visibility_eq}
use counterpoint_living_deci.Entities.Decisions.{action_status_eq, status_eq, task_state_eq}
use counterpoint_living_deci.Entities.People.{capability_eq}
use counterpoint_living_deci.Events.{
  DomainEvent, SharedDomainEvent, envelope_of, private_event, shared_event,
}
use counterpoint_living_deci.Events.Payloads.{SharedPayload, demo_reset_completed}
use counterpoint_living_deci.Projection.Private.{owner_workspace, reduce_private_workspace}
use counterpoint_living_deci.Projection.Shared.{reduce_shared_event}
use counterpoint_living_deci.Projection.State.{
  IdempotencyReceipt, MeetingProjection, OwnerPrivateProjection, ProcessedEventReceipt,
  SharedMeetingProjection, create_empty_meeting_projection, create_empty_shared_meeting_projection,
}
use counterpoint_living_deci.Values.Ids.{MeetingId, ParticipantId}

pub data Novelty : Type 0 where
  duplicate fresh : Novelty

-- The search among the receipts of idempotency keys.
unfoldable pub find_receipt : MeetingProjection → DomainEvent → Option IdempotencyReceipt
find_receipt state event = elim ((envelope_of event).idempotency_key) [
  | none ↦ none
  | some k ↦ find (λ (r : IdempotencyReceipt). r.key == k) state.idempotency_receipts
]

unfoldable pub find_processed : MeetingProjection → DomainEvent → Option ProcessedEventReceipt
find_processed state event =
    find (λ (r : ProcessedEventReceipt). r.event_id == (envelope_of event).event_id)
      state.processed_events

-- `DemoResetCompleted` clears all private workspaces.
abbrev pub is_reset : SharedPayload → Bool
is_reset (demo_reset_completed _ _) = true
is_reset _ = false

unfoldable pub reduce_shared : MeetingProjection → DomainEvent → Result SharedMeetingProjection
reduce_shared state (shared_event e) = reduce_shared_event state.shared e
reduce_shared state (private_event e) = ok state.shared

unfoldable pub reduce_private :
    MeetingProjection → DomainEvent → Result (List OwnerPrivateProjection)
reduce_private state (shared_event e) =
    ok (if is_reset e.payload then [] else state.private_workspaces)
reduce_private state (private_event e) = reduce_private_workspace state.private_workspaces e

module _ (fingerprint : DomainEvent → String) where
  unfoldable pub find_duplicate : MeetingProjection → DomainEvent → Result Novelty
  find_duplicate state event = elim (find_processed state event) [
    | some r ↦ if r.fingerprint == fingerprint event then ok duplicate else err event_id_conflict
    | none ↦ elim (find_receipt state event) [
      | some r ↦
          if r.fingerprint == fingerprint event then ok duplicate else err idempotency_conflict
      | none ↦ ok fresh
    ]
  ]

  -- The receipt of an event with an idempotency key.
  abbrev pub add_receipt : MeetingProjection → DomainEvent → List IdempotencyReceipt
  add_receipt state event = elim ((envelope_of event).idempotency_key) [
    | none ↦ state.idempotency_receipts
    | some k ↦
        state.idempotency_receipts
        ++ record {
          key = k;
          event_id = (envelope_of event).event_id;
          fingerprint = fingerprint event;
        }
          ∷ []
  ]

  -- The code behind the search for a duplicate.
  unfoldable pub apply_event : MeetingProjection → DomainEvent → Result MeetingProjection
  apply_event state event = do
    throw_if (leb (envelope_of event).position state.position) stale_position
    throw_if (not ((envelope_of event).position == state.position + 1)) position_gap
    seen ← reduce_shared state event
    owned ← reduce_private state event
    ok (record state {
      position = (envelope_of event).position;
      shared = seen;
      private_workspaces = owned;
      processed_events =
          state.processed_events
          ++ record { event_id = (envelope_of event).event_id; fingerprint = fingerprint event }
            ∷ [];
      idempotency_receipts = add_receipt state event;
    })

  unfoldable pub reduce_meeting_projection :
      MeetingProjection → DomainEvent → Result MeetingProjection
  reduce_meeting_projection state event = do
    throw_if (not ((envelope_of event).meeting_id == state.meeting_id)) meeting_scope_mismatch
    novelty ← find_duplicate state event
    elim novelty [ duplicate ↦ ok state | fresh ↦ apply_event state event ]

  unfoldable pub replay_meeting : MeetingId → List DomainEvent → Result MeetingProjection
  replay_meeting id events =
      fold reduce_meeting_projection (create_empty_meeting_projection id) events

unfoldable pub replay_shared_meeting :
    MeetingId → List SharedDomainEvent → Result SharedMeetingProjection
replay_shared_meeting id events =
    fold reduce_shared_event (create_empty_shared_meeting_projection id) events

unfoldable pub get_owner_private_projection :
    MeetingProjection → ParticipantId → OwnerPrivateProjection
unfolding owner_workspace
get_owner_private_projection projection owner =
    owner_workspace projection.private_workspaces projection.meeting_id owner
