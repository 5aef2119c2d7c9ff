-- ===== src/Tests/Projection.antt =====
-- A shared and a private event on a meeting: runs of the reducers, and the theorems applied to them.
use counterpoint_living_deci.Application.Authorization.{access_eq}
use counterpoint_living_deci.Base.{
  ==_iff, List, String, [], arith, err, find, fold, map, nat_eq, ok, option_eq, position_gap, refl,
  string_eq, ◌∷◌, ◌≡◌, ◌≢◌, ◌⊎◌,
}
use counterpoint_living_deci.Entities.Common.{confirmation_eq, origin_eq, visibility_eq}
use counterpoint_living_deci.Entities.Decisions.{action_status_eq, status_eq, task_state_eq}
use counterpoint_living_deci.Entities.People.{capability_eq}
use counterpoint_living_deci.Events.{DomainEvent, private_event, shared_event, to_event_reference}
use counterpoint_living_deci.Events.Payloads.{shared_event_type}
use counterpoint_living_deci.Projection.Meeting.{
  apply_event, find_duplicate, find_processed, find_receipt, get_owner_private_projection,
  reduce_meeting_projection, reduce_private, reduce_shared, replay_meeting, replay_shared_meeting,
}
use counterpoint_living_deci.Projection.Meeting.Audit.{IsOrdered, replay_shared_meeting-audited}
use counterpoint_living_deci.Projection.Meeting.Privacy.{
  CompletesReset, IsOf, private_event_confined, shared_event_confined,
}
use counterpoint_living_deci.Projection.Meeting.Replay.{
  IsCounted, replay_meeting-IsCounted, replay_meeting-shared, shared_events,
}
use counterpoint_living_deci.Projection.Meeting.Scopes.{IsOwn, IsVisible, replay_meeting-Separated}
use counterpoint_living_deci.Projection.Meeting.Steps.{IsKnown, reduce_meeting_projection_idem}
use counterpoint_living_deci.Projection.Private.{
  apply_private, owner_workspace, reduce_private_workspace, upsert_owner_workspace,
}
use counterpoint_living_deci.Projection.Shared.{
  apply_shared, reduce_shared_event, validate_entity_scope,
}
use counterpoint_living_deci.Projection.State.{
  create_empty_meeting_projection, create_empty_shared_meeting_projection,
}
use counterpoint_living_deci.Projection.Upsert.{find_index, replace_at, upsert_by_id, upsert_where}
use counterpoint_living_deci.Store.Projections.{key_eq, kind_eq}
use counterpoint_living_deci.Tests.Data.{
  after_note, after_secret, by_id, note_event, note_reference, secret_event, seen,
}

code : Unit {0}
unfolding reduce_meeting_projection apply_event find_duplicate find_processed find_receipt find
    reduce_shared reduce_private reduce_shared_event apply_shared reduce_private_workspace
    apply_private validate_entity_scope owner_workspace upsert_owner_workspace upsert_by_id
    upsert_where find_index replace_at to_event_reference replay_meeting replay_shared_meeting fold
    create_empty_meeting_projection create_empty_shared_meeting_projection shared_events
    shared_event_type
code = tt

abbrev log : List DomainEvent
log = shared_event note_event ∷ private_event secret_event ∷ []

replay_test :
    (replay_meeting by_id "m" log ≡ ok after_secret)
    × (reduce_meeting_projection by_id after_secret (private_event secret_event) ≡ ok after_secret)
    × (reduce_meeting_projection by_id
          (create_empty_meeting_projection "m")
          (private_event secret_event)
        ≡ err position_gap)
unfolding code
replay_test = (refl, refl, refl)

replay_meeting-Separated_example :
    IsVisible seen
    × IsOf "m" "bob" (get_owner_private_projection after_secret "bob")
    × IsOwn (get_owner_private_projection after_secret "bob")
unfolding code
replay_meeting-Separated_example = replay_meeting-Separated by_id "m" log after_secret "bob" refl

replay_meeting-shared_example : replay_shared_meeting "m" (note_event ∷ []) ≡ ok seen
unfolding code
replay_meeting-shared_example = replay_meeting-shared by_id "m" log after_secret refl refl

replay_meeting-IsCounted_example : IsCounted after_secret
unfolding code
replay_meeting-IsCounted_example = replay_meeting-IsCounted by_id "m" log after_secret refl

replay_shared_meeting-audited_example :
    IsOrdered "m" 0 (note_event ∷ [])
    × (note_reference ∷ [] ≡ map to_event_reference (note_event ∷ []))
unfolding code
replay_shared_meeting-audited_example =
    replay_shared_meeting-audited "m" (note_event ∷ []) seen refl

abbrev ann : String
ann = "ann"

ann_is_not_bob : ann ≢ secret_event.owner_participant_id
ann_is_not_bob e = ground (arith, (==_iff ann secret_event.owner_participant_id).1 e)

private_event_confined_example :
    (seen ≡ seen)
    × (get_owner_private_projection after_secret "ann"
        ≡ get_owner_private_projection after_note "ann")
unfolding code
private_event_confined_example =
    private_event_confined by_id after_note after_secret secret_event "ann" ann_is_not_bob refl

shared_event_confined_example :
    (IsKnown by_id (create_empty_meeting_projection "m") (shared_event note_event)
      × (after_note ≡ create_empty_meeting_projection "m"))
    ⊎ ((CompletesReset note_event.payload × (after_note.private_workspaces ≡ []))
        ⊎ (¬ CompletesReset note_event.payload
            × (after_note.private_workspaces
                ≡ (create_empty_meeting_projection "m").private_workspaces)))
unfolding code
shared_event_confined_example =
    shared_event_confined by_id (create_empty_meeting_projection "m") after_note note_event refl

reduce_meeting_projection_idem_example :
    reduce_meeting_projection by_id after_secret (private_event secret_event) ≡ ok after_secret
unfolding code
reduce_meeting_projection_idem_example =
    reduce_meeting_projection_idem by_id after_note (private_event secret_event) refl
