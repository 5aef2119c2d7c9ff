-- ===== src/Projection/Private.antt =====
-- `reducePrivateWorkspace`: one private event on the workspace of its owner.
use counterpoint_living_deci.Base.{
  Bool, List, Option, Result, [], find, if◌then◌else◌, invalid_event_payload, nat_eq, none, not, ok,
  option_eq, some, string_eq, throw_if, ◌&&◌, ◌++◌, ◌==◌, ◌>>=◌, ◌>>◌, ◌||◌, ◌∷◌,
}
use counterpoint_living_deci.Base.Members.{contains}
use counterpoint_living_deci.Entities.Common.{
  CommonRecordFields, confirmation_eq, origin_eq, private, visibility_eq,
}
use counterpoint_living_deci.Entities.Decisions.{action_status_eq, status_eq, task_state_eq}
use counterpoint_living_deci.Entities.People.{capability_eq}
use counterpoint_living_deci.Entities.Sources.{SourceArtifact, Utterance}
use counterpoint_living_deci.Events.{PrivateDomainEvent}
use counterpoint_living_deci.Events.Payloads.{
  PrivatePayload, disclosure_approved, disclosure_previewed, disclosure_proposed,
  disclosure_rejected, own_artifact_processed, own_artifact_registered, own_inference_confirmed,
  own_inference_rejected, own_inference_suggested, own_utterance_captured,
}
use counterpoint_living_deci.Events.Suggestions.{InferenceSuggestedPayload}
use counterpoint_living_deci.Projection.Shared.{process_artifacts, validate_entity_scope}
use counterpoint_living_deci.Projection.State.{
  DisclosureProjection, OwnerPrivateProjection, disclosure_is_approved, disclosure_is_previewed,
  disclosure_is_proposed, disclosure_is_rejected,
}
use counterpoint_living_deci.Projection.Upsert.{upsert_by_id, upsert_where}
use counterpoint_living_deci.Values.Ids.{MeetingId, ParticipantId}

abbrev pub is_workspace_of : MeetingId → ParticipantId → OwnerPrivateProjection → Bool
is_workspace_of meeting_id owner w = w.owner_participant_id == owner && w.meeting_id == meeting_id

abbrev pub empty_workspace : MeetingId → ParticipantId → OwnerPrivateProjection
empty_workspace meeting_id owner = record {
  meeting_id = meeting_id;
  owner_participant_id = owner;
  artifacts = [];
  utterances = [];
  disclosures = [];
  inference_suggestion_ids = [];
  inference_suggestions = [];
}

abbrev pub or_empty :
    MeetingId → ParticipantId → Option OwnerPrivateProjection → OwnerPrivateProjection
or_empty meeting_id owner none = empty_workspace meeting_id owner
or_empty meeting_id owner (some w) = w

unfoldable pub owner_workspace :
    List OwnerPrivateProjection → MeetingId → ParticipantId → OwnerPrivateProjection
owner_workspace workspaces meeting_id owner =
    or_empty meeting_id owner (find (is_workspace_of meeting_id owner) workspaces)

unfoldable pub upsert_owner_workspace :
    List OwnerPrivateProjection → OwnerPrivateProjection → List OwnerPrivateProjection
upsert_owner_workspace workspaces workspace =
    upsert_where (is_workspace_of workspace.meeting_id workspace.owner_participant_id) workspaces
      workspace

unfoldable pub update_disclosure :
    List DisclosureProjection → DisclosureProjection → List DisclosureProjection
update_disclosure disclosures disclosure =
    upsert_by_id (λ (d : DisclosureProjection). d.disclosure_id) disclosures disclosure

unfoldable pub upsert_inference_suggestion :
    List InferenceSuggestedPayload → InferenceSuggestedPayload → List InferenceSuggestedPayload
upsert_inference_suggestion suggestions suggestion =
    upsert_by_id (λ (s : InferenceSuggestedPayload). s.suggestion_id) suggestions suggestion

-- `visibility !== "private" || ownerParticipantId !== event.ownerParticipantId`.
abbrev pub is_foreign : CommonRecordFields → ParticipantId → Bool
is_foreign c owner = not (c.visibility == private) || not (c.owner_participant_id == some owner)

-- The `switch` over the event types.
unfoldable pub apply_private :
    OwnerPrivateProjection
    → MeetingId
    → ParticipantId
    → PrivatePayload
    → Result OwnerPrivateProjection
unfolding update_disclosure upsert_inference_suggestion
apply_private w id owner (own_artifact_registered a) = do
  validate_entity_scope id a.meeting_id
  throw_if (is_foreign a.common owner) invalid_event_payload
  ok (record w { artifacts = upsert_by_id (λ (x : SourceArtifact). x.id) w.artifacts a })
apply_private w id owner (own_artifact_processed p) =
    ok (record w { artifacts = process_artifacts p w.artifacts })
apply_private w id owner (own_utterance_captured u) = do
  validate_entity_scope id u.meeting_id
  throw_if (is_foreign u.common owner) invalid_event_payload
  ok (record w { utterances = upsert_by_id (λ (x : Utterance). x.id) w.utterances u })
apply_private w id owner (disclosure_proposed d _ _) = ok (record w {
  disclosures =
      update_disclosure w.disclosures
        (record { disclosure_id = d; state = disclosure_is_proposed; preview_hash = none });
})
apply_private w id owner (disclosure_previewed d _ h) = ok (record w {
  disclosures =
      update_disclosure w.disclosures
        (record { disclosure_id = d; state = disclosure_is_previewed; preview_hash = some h });
})
apply_private w id owner (disclosure_approved d h _ _) = ok (record w {
  disclosures =
      update_disclosure w.disclosures
        (record { disclosure_id = d; state = disclosure_is_approved; preview_hash = some h });
})
apply_private w id owner (disclosure_rejected d _ _) = ok (record w {
  disclosures =
      update_disclosure w.disclosures
        (record { disclosure_id = d; state = disclosure_is_rejected; preview_hash = none });
})
apply_private w id owner (own_inference_suggested s) = ok (record w {
  inference_suggestion_ids =
      if contains w.inference_suggestion_ids s.suggestion_id
      then w.inference_suggestion_ids
      else w.inference_suggestion_ids ++ s.suggestion_id ∷ [];
  inference_suggestions = upsert_inference_suggestion w.inference_suggestions s;
})
apply_private w id owner (own_inference_confirmed _) = ok w
apply_private w id owner (own_inference_rejected _) = ok w

unfoldable pub reduce_private_workspace :
    List OwnerPrivateProjection → PrivateDomainEvent → Result (List OwnerPrivateProjection)
reduce_private_workspace state event = do
  next ←
      apply_private (owner_workspace state event.meeting_id event.owner_participant_id)
        event.meeting_id event.owner_participant_id event.payload
  ok (upsert_owner_workspace state next)
