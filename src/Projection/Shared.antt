-- ===== src/Projection/Shared.antt =====
-- `reduceSharedEvent`: one shared event on the state that all participants see.
-- `validateEntityScope`.
use mathlib.Core.List.{foldl}
use counterpoint_living_deci.Base.{
  Bool, List, Option, Result, [], false, if◌then◌else◌, invalid_event_payload, is_none, leb, map,
  meeting_scope_mismatch, nat_eq, none, not, ok, option_eq, some, stale_position, string_eq,
  throw_if, true, ◌++◌, ◌==◌, ◌>>=◌, ◌>>◌, ◌∷◌,
}
use counterpoint_living_deci.Entities.Claims.{DecisionOption, Premise, Proposition, Stance}
use counterpoint_living_deci.Entities.Common.{confirmation_eq, origin_eq, shared, visibility_eq}
use counterpoint_living_deci.Entities.Decisions.{
  Action, Decision, DecisionRevision, Dissent, ExternalEvent, ReconsiderationTask, action_status_eq,
  status_eq, task_state_eq,
}
use counterpoint_living_deci.Entities.People.{
  DisplayTokenState, Meeting, Participant, capability_eq, ended, preparing,
}
use counterpoint_living_deci.Entities.Sources.{Evidence, SourceArtifact, Utterance}
use counterpoint_living_deci.Events.{SharedDomainEvent, to_event_reference}
use counterpoint_living_deci.Events.Payloads.{
  ArtifactProcessedPayload, SharedPayload, action_held, api_key_lease_expired,
  api_key_lease_updated, artifact_processed, artifact_registered, assumption_invalidation_suggested,
  decision_committed, decision_drafted, decision_marked_at_risk, decision_marked_ready,
  decision_review_required, decision_revision_committed, decision_superseded, decision_turned_down,
  demo_reset_completed, demo_reset_requested, display_token_issued, display_token_revoked,
  evidence_shared, external_event_received, facilitator_reviewed, inference_confirmed,
  inference_rejected, inference_suggested, meeting_created, meeting_ended, monitoring_started,
  participant_assigned, participant_joined, reconsideration_task_created, shared_floor_acquired,
  shared_floor_released, utterance_captured,
}
use counterpoint_living_deci.Events.Suggestions.{
  ConfirmedInference, action, dissent, option, premise, proposition, stance,
}
use counterpoint_living_deci.Projection.State.{
  SharedFloorProjection, SharedMeetingProjection, create_empty_shared_meeting_projection,
}
use counterpoint_living_deci.Projection.Upsert.{upsert_by_id}
use counterpoint_living_deci.Values.Ids.{MeetingId, ParticipantId}

unfoldable pub validate_entity_scope : MeetingId → MeetingId → Result (Unit {0})
validate_entity_scope event_meeting_id entity_meeting_id =
    throw_if (not (entity_meeting_id == event_meeting_id)) invalid_event_payload

-- The hash of a derived artifact is kept beside that of the original.
unfoldable pub apply_processing : ArtifactProcessedPayload → SourceArtifact → SourceArtifact
apply_processing p a =
    let processed_state = record a { processing_state = p.processing_state } in
    let hashed : SourceArtifact = elim p.content_hash [
      | none ↦ processed_state
      | some h ↦
          if is_none p.derived_artifact_id
          then record processed_state { content_hash = h }
          else record processed_state { derived_content_hash = some h }
    ] in
    record hashed {
      derived_artifact_id = elim p.derived_artifact_id [
        | none ↦ hashed.derived_artifact_id
        | some i ↦ some i
      ];
      derived_size_bytes = elim p.derived_size_bytes [
        | none ↦ hashed.derived_size_bytes
        | some n ↦ some n
      ];
      derived_storage_reference = elim p.derived_storage_reference [
        | none ↦ hashed.derived_storage_reference
        | some r ↦ some r
      ];
    }

-- The map over the artifacts of `ArtifactProcessed`.
unfoldable pub process_artifacts :
    ArtifactProcessedPayload → List SourceArtifact → List SourceArtifact
unfolding apply_processing
process_artifacts p artifacts =
    map (λ (a : SourceArtifact). if a.id == p.artifact_id then apply_processing p a else a)
      artifacts

abbrev pub map_meeting : (Meeting → Meeting) → SharedMeetingProjection → SharedMeetingProjection
map_meeting f state = record state {
  meeting = elim state.meeting [ none ↦ none | some m ↦ some (f m) ];
}

-- The cases that upsert a Decision and, where the payload has one, its revision.
unfoldable pub put_decision :
    SharedMeetingProjection
    → MeetingId
    → Decision
    → Option DecisionRevision
    → Result SharedMeetingProjection
unfolding validate_entity_scope
put_decision state meeting_id decision revision = do
  validate_entity_scope meeting_id decision.meeting_id
  ok (record state {
    decisions = upsert_by_id (λ (d : Decision). d.id) state.decisions decision;
    decision_revisions = elim revision [
      | none ↦ state.decision_revisions
      | some r ↦ upsert_by_id (λ (x : DecisionRevision). x.id) state.decision_revisions r
    ];
  })

abbrev pub inference_meeting : ConfirmedInference → MeetingId
inference_meeting (proposition p) = p.meeting_id
inference_meeting (stance s) = s.meeting_id
inference_meeting (premise p) = p.meeting_id
inference_meeting (option o) = o.meeting_id
inference_meeting (dissent d) = d.meeting_id
inference_meeting (action a) = a.meeting_id

unfoldable pub put_inference :
    SharedMeetingProjection → ConfirmedInference → SharedMeetingProjection
put_inference state (proposition p) = record state {
  propositions = upsert_by_id (λ (x : Proposition). x.id) state.propositions p;
}
put_inference state (stance s) = record state {
  stances = upsert_by_id (λ (x : Stance). x.id) state.stances s;
}
put_inference state (premise p) = record state {
  premises = upsert_by_id (λ (x : Premise). x.id) state.premises p;
}
put_inference state (option o) = record state {
  options = upsert_by_id (λ (x : DecisionOption). x.id) state.options o;
}
put_inference state (dissent d) = record state {
  dissent = upsert_by_id (λ (x : Dissent). x.id) state.dissent d;
}
put_inference state (action a) = record state {
  actions = upsert_by_id (λ (x : Action). x.id) state.actions a;
}

-- `sharedFloor?.participantId === participantId`.
abbrev pub holds_floor : Option SharedFloorProjection → ParticipantId → Bool
holds_floor none p = false
holds_floor (some f) p = f.participant_id == p

abbrev pub reset_shared : SharedMeetingProjection → SharedMeetingProjection
reset_shared state = record (create_empty_shared_meeting_projection state.meeting_id) {
  meeting = elim state.meeting [
    | none ↦ none
    | some m ↦ some (record m { phase = preparing; display_tokens = [] })
  ];
  participants = state.participants;
  audit_timeline = state.audit_timeline;
}

-- The `switch` over the event types; the id is that of the event's meeting.
unfoldable pub apply_shared :
    SharedMeetingProjection → MeetingId → SharedPayload → Result SharedMeetingProjection
unfolding validate_entity_scope process_artifacts put_decision put_inference
apply_shared state id (meeting_created m) = do
  throw_if (not (m.id == id)) invalid_event_payload
  ok (record state { meeting = some m })
apply_shared state id (participant_assigned p) = do
  validate_entity_scope id p.meeting_id
  ok (record state { participants = upsert_by_id (λ (x : Participant). x.id) state.participants p })
apply_shared state id (participant_joined pid joined) = ok (record state {
  participants =
      map
        (λ (p : Participant).
          if p.id == pid then record p { active = true; joined_at = some joined } else p)
        state.participants;
})
apply_shared state id (meeting_ended _ _) =
    ok (record (map_meeting (λ (m : Meeting). record m { phase = ended }) state) {
      shared_floor = none;
    })
apply_shared state id (display_token_issued token expires) = ok (
    map_meeting
      (λ (m : Meeting). record m {
        display_tokens =
            m.display_tokens
            ++ record { token_id = token; expires_at = expires; revoked_at = none } ∷ [];
      })
      state)
apply_shared state id (display_token_revoked token revoked) = ok (
    map_meeting
      (λ (m : Meeting). record m {
        display_tokens =
            map
              (λ (t : DisplayTokenState).
                if t.token_id == token then record t { revoked_at = some revoked } else t)
              m.display_tokens;
      })
      state)
apply_shared state id (artifact_registered a) = do
  validate_entity_scope id a.meeting_id
  throw_if (not (a.visibility == shared)) invalid_event_payload
  ok (record state { artifacts = upsert_by_id (λ (x : SourceArtifact). x.id) state.artifacts a })
apply_shared state id (artifact_processed p) =
    ok (record state { artifacts = process_artifacts p state.artifacts })
apply_shared state id (utterance_captured u) = do
  validate_entity_scope id u.meeting_id
  throw_if (not (u.visibility == shared)) invalid_event_payload
  ok (record state { utterances = upsert_by_id (λ (x : Utterance). x.id) state.utterances u })
apply_shared state id (shared_floor_acquired pid expires) = ok (record state {
  shared_floor = some (record { participant_id = pid; lease_expires_at = expires });
})
apply_shared state id (shared_floor_released pid _) =
    ok (if holds_floor state.shared_floor pid then record state { shared_floor = none } else state)
apply_shared state id (evidence_shared e) = do
  validate_entity_scope id e.meeting_id
  throw_if (not (e.visibility == shared)) invalid_event_payload
  ok (record state { evidence = upsert_by_id (λ (x : Evidence). x.id) state.evidence e })
apply_shared state id (inference_confirmed c) = do
  validate_entity_scope id (inference_meeting c.result)
  ok (put_inference state c.result)
apply_shared state id (decision_drafted d r) = put_decision state id d (some r)
apply_shared state id (decision_marked_ready d) = put_decision state id d none
apply_shared state id (decision_committed d r) = put_decision state id d (some r)
apply_shared state id (monitoring_started d _) = put_decision state id d none
apply_shared state id (decision_marked_at_risk d _ _ _) = put_decision state id d none
apply_shared state id (facilitator_reviewed p) = put_decision state id p.decision none
apply_shared state id (decision_review_required d _ _ _) = put_decision state id d none
apply_shared state id (decision_revision_committed d r) = put_decision state id d (some r)
apply_shared state id (decision_superseded d _) = put_decision state id d none
apply_shared state id (decision_turned_down d _) = put_decision state id d none
apply_shared state id (external_event_received e) = do
  validate_entity_scope id e.meeting_id
  ok (record state {
    external_events = upsert_by_id (λ (x : ExternalEvent). x.id) state.external_events e;
  })
apply_shared state id (action_held _ _ actions) =
    ok
      (record state { actions = foldl (upsert_by_id (λ (x : Action). x.id)) state.actions actions })
apply_shared state id (reconsideration_task_created t) = do
  validate_entity_scope id t.meeting_id
  ok (record state {
    reconsideration_tasks =
        upsert_by_id (λ (x : ReconsiderationTask). x.id) state.reconsideration_tasks t;
  })
apply_shared state id (demo_reset_completed _ _) = ok (reset_shared state)
apply_shared state id (inference_suggested _) = ok state
apply_shared state id (inference_rejected _) = ok state
apply_shared state id (assumption_invalidation_suggested _) = ok state
apply_shared state id (demo_reset_requested _ _) = ok state
apply_shared state id (api_key_lease_updated _) = ok state
apply_shared state id (api_key_lease_expired _ _) = ok state

unfoldable pub reduce_shared_event :
    SharedMeetingProjection → SharedDomainEvent → Result SharedMeetingProjection
reduce_shared_event state event = do
  throw_if (not (event.meeting_id == state.meeting_id)) meeting_scope_mismatch
  throw_if (leb event.position state.position) stale_position
  next ← apply_shared state event.meeting_id event.payload
  ok (record next {
    position = event.position;
    audit_timeline = next.audit_timeline ++ to_event_reference event ∷ [];
  })
