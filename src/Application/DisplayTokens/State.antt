-- ===== src/Application/DisplayTokens/State.antt =====
-- The display tokens that are active after the events of a meeting, `activeDisplayTokens` of
-- packages/application/src/display-tokens.ts.
use counterpoint_living_deci.Application.Authorization.{access_eq}
use counterpoint_living_deci.Base.{
  Bool, List, Result, String, [], any, false, filter, if◌then◌else◌, nat_eq, not, ok, option_eq,
  string_eq, traverse, true, ◌==◌, ◌>>=◌, ◌∷◌,
}
use counterpoint_living_deci.Entities.Common.{confirmation_eq, origin_eq, visibility_eq}
use counterpoint_living_deci.Entities.Decisions.{action_status_eq, status_eq, task_state_eq}
use counterpoint_living_deci.Entities.People.{capability_eq}
use counterpoint_living_deci.Events.{DomainEvent, private_event, shared_event}
use counterpoint_living_deci.Events.Payloads.{
  SharedPayload, demo_reset_completed, display_token_issued, display_token_revoked,
}
use counterpoint_living_deci.Projection.Upsert.{upsert_by_id}
use counterpoint_living_deci.Store.{EventRecord}
use counterpoint_living_deci.Store.Projections.{key_eq, kind_eq}
use counterpoint_living_deci.Values.{meeting_position, of_ℕ}
use counterpoint_living_deci.Values.Ids.{MeetingPosition, Timestamp}

pub record ActiveDisplayToken : Type 0 where
  pub display_token_id : String
  pub expires_at : Timestamp

abbrev pub at_position : MeetingPosition → DomainEvent → DomainEvent
at_position p (shared_event e) =
    shared_event (record e { envelope = record e.envelope { position = p } })
at_position p (private_event e) =
    private_event (record e { envelope = record e.envelope { position = p } })

unfoldable pub normalized_events : List (EventRecord DomainEvent) → Result (List DomainEvent)
normalized_events records =
    traverse (λ r. meeting_position (of_ℕ r.position) >>= λ p. ok (at_position p r.event)) records

abbrev pub is_reset_payload : SharedPayload → Bool
is_reset_payload (demo_reset_completed _ _) = true
is_reset_payload _ = false

abbrev pub is_reset_completed : DomainEvent → Bool
is_reset_completed (shared_event e) = is_reset_payload e.payload
is_reset_completed (private_event e) = false

-- `events.slice(resetIndex + 1)`: the events behind the last reset.
unfoldable pub since_reset : List DomainEvent → List DomainEvent
since_reset [] = []
since_reset (e ∷ es) =
    let rest = since_reset es in
    if any is_reset_completed es then rest else if is_reset_completed e then es else e ∷ es

-- `active.set` and `active.delete`: a value that is set again keeps its place.
abbrev pub apply_payload : List ActiveDisplayToken → SharedPayload → List ActiveDisplayToken
apply_payload tokens (display_token_issued id expires) =
    upsert_by_id (λ t. t.display_token_id) tokens
      (record { display_token_id = id; expires_at = expires })
apply_payload tokens (display_token_revoked id revoked) =
    filter (λ t. not (t.display_token_id == id)) tokens
apply_payload tokens _ = tokens

abbrev pub apply_token_event : List ActiveDisplayToken → DomainEvent → List ActiveDisplayToken
apply_token_event tokens (shared_event e) = apply_payload tokens e.payload
apply_token_event tokens (private_event e) = tokens

unfoldable pub apply_token_events :
    List ActiveDisplayToken → List DomainEvent → List ActiveDisplayToken
apply_token_events tokens [] = tokens
apply_token_events tokens (e ∷ es) = apply_token_events (apply_token_event tokens e) es

unfoldable pub active_display_tokens :
    List (EventRecord DomainEvent) → Result (List ActiveDisplayToken)
unfolding normalized_events since_reset apply_token_events
active_display_tokens records = do
  events ← normalized_events records
  ok (apply_token_events [] (since_reset events))
