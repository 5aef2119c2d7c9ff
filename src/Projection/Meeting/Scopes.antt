-- ===== src/Projection/Meeting/Scopes.antt =====
-- About the scopes of what the participants see and of what a workspace holds.
use mathlib.Core.Path.{subst}
use counterpoint_living_deci.Base.{
  ==_iff, >>=-eq-ok, All, Bool-cases, List, Option, Result-cases, String, [], arith, find, fold_inv,
  inl, inr, nat_eq, none, ok, option_eq, refl, some, string_eq, sym, ◌==◌, ◌∷◌, ◌≡◌,
}
use counterpoint_living_deci.Base.Keys.{All-lookup, find-some}
use counterpoint_living_deci.Entities.Common.{
  CommonRecordFields, Visibility, confirmation_eq, origin_eq, private, shared, visibility_eq,
}
use counterpoint_living_deci.Entities.Decisions.{action_status_eq, status_eq, task_state_eq}
use counterpoint_living_deci.Entities.People.{capability_eq}
use counterpoint_living_deci.Entities.Sources.{Evidence, SourceArtifact, Utterance}
use counterpoint_living_deci.Events.{
  DomainEvent, PrivateDomainEvent, SharedDomainEvent, private_event, shared_event,
}
use counterpoint_living_deci.Events.Payloads.{
  ArtifactProcessedPayload, PrivatePayload, SharedPayload, artifact_processed, artifact_registered,
  demo_reset_completed, evidence_shared, inference_confirmed, own_artifact_processed,
  own_artifact_registered, own_utterance_captured, shared_floor_released, utterance_captured,
}
use counterpoint_living_deci.Events.Suggestions.{ConfirmedInference}
use counterpoint_living_deci.Projection.Meeting.{
  get_owner_private_projection, is_reset, reduce_meeting_projection, reduce_private, reduce_shared,
  replay_meeting,
}
use counterpoint_living_deci.Projection.Meeting.Privacy.{IsOf, owner_workspace-IsOf}
use counterpoint_living_deci.Projection.Meeting.Steps.{IsApplied, reduce-cases}
use counterpoint_living_deci.Projection.Private.{
  apply_private, is_workspace_of, or_empty, owner_workspace, reduce_private_workspace,
  upsert_owner_workspace,
}
use counterpoint_living_deci.Projection.Shared.{
  apply_processing, apply_shared, process_artifacts, put_decision, put_inference,
  reduce_shared_event, reset_shared,
}
use counterpoint_living_deci.Projection.State.{
  MeetingProjection, OwnerPrivateProjection, SharedMeetingProjection,
  create_empty_meeting_projection, create_empty_shared_meeting_projection,
}
use counterpoint_living_deci.Projection.Upsert.{upsert_by_id}
use counterpoint_living_deci.Projection.Upsert.Laws.{All-upsert}
use counterpoint_living_deci.Values.Ids.{MeetingId, ParticipantId}

-- The artifacts, utterances and evidence that all participants see are shared.
pub record IsVisible (s : SharedMeetingProjection) : Type 0 where
  pub artifacts : All (λ (a : SourceArtifact). a.visibility ≡ shared) s.artifacts
  pub utterances : All (λ (u : Utterance). u.visibility ≡ shared) s.utterances
  pub evidence : All (λ (e : Evidence). e.visibility ≡ shared) s.evidence

processed-visibility :
    (p : ArtifactProcessedPayload) (v : Visibility) (xs : List SourceArtifact)
    → All (λ (a : SourceArtifact). a.visibility ≡ v) xs
    → All (λ (a : SourceArtifact). a.visibility ≡ v) (process_artifacts p xs)
unfolding process_artifacts apply_processing
processed-visibility p v [] h = tt
processed-visibility p v (x ∷ xs) h = (ground arith, processed-visibility p v xs h.1)

module _ (s s' : SharedMeetingProjection) (id : MeetingId) (v : IsVisible s) where
  visible_as : (t : SharedMeetingProjection) → t ≡ s' → IsVisible t → IsVisible s'
  visible_as t e w = subst IsVisible e w

  put_inference-IsVisible : (c : ConfirmedInference) → IsVisible (put_inference s c)
  unfolding put_inference
  put_inference-IsVisible c = record {
    artifacts = ground (arith, v.artifacts);
    utterances = ground (arith, v.utterances);
    evidence = ground (arith, v.evidence);
  }

  apply_shared-IsVisible : (p : SharedPayload) → apply_shared s id p ≡ ok s' → IsVisible s'
  unfolding apply_shared put_decision
  apply_shared-IsVisible (artifact_registered a) h =
      visible_as
        (record s { artifacts = upsert_by_id (λ (x : SourceArtifact). x.id) s.artifacts a })
        (ground arith)
        (record {
          artifacts =
              unfold upsert_by_id in
              All-upsert (λ (x : SourceArtifact). x.visibility ≡ shared)
                (λ (x : SourceArtifact). x.id == a.id) s.artifacts a v.artifacts (ground arith);
          utterances = v.utterances;
          evidence = v.evidence;
        })
  apply_shared-IsVisible (artifact_processed p) h =
      visible_as (record s { artifacts = process_artifacts p s.artifacts }) (ground arith)
        (record {
          artifacts = processed-visibility p shared s.artifacts v.artifacts;
          utterances = v.utterances;
          evidence = v.evidence;
        })
  apply_shared-IsVisible (utterance_captured u) h =
      visible_as (record s { utterances = upsert_by_id (λ (x : Utterance). x.id) s.utterances u })
        (ground arith)
        (record {
          utterances =
              unfold upsert_by_id in
              All-upsert (λ (x : Utterance). x.visibility ≡ shared)
                (λ (x : Utterance). x.id == u.id) s.utterances u v.utterances (ground arith);
          artifacts = v.artifacts;
          evidence = v.evidence;
        })
  apply_shared-IsVisible (evidence_shared e) h =
      visible_as (record s { evidence = upsert_by_id (λ (x : Evidence). x.id) s.evidence e })
        (ground arith)
        (record {
          evidence =
              unfold upsert_by_id in
              All-upsert (λ (x : Evidence). x.visibility ≡ shared) (λ (x : Evidence). x.id == e.id)
                s.evidence e v.evidence (ground arith);
          artifacts = v.artifacts;
          utterances = v.utterances;
        })
  apply_shared-IsVisible (inference_confirmed c) h =
      visible_as (put_inference s c.result) (ground arith) (put_inference-IsVisible c.result)
  apply_shared-IsVisible (demo_reset_completed e _) h = visible_as (reset_shared s) (ground arith) (
      unfold create_empty_shared_meeting_projection in
      record { artifacts = tt; utterances = tt; evidence = tt })
  apply_shared-IsVisible (shared_floor_released e _) h = record {
    artifacts = ground (arith, v.artifacts);
    utterances = ground (arith, v.utterances);
    evidence = ground (arith, v.evidence);
  }
  apply_shared-IsVisible _ h = record {
    artifacts = ground (arith, v.artifacts);
    utterances = ground (arith, v.utterances);
    evidence = ground (arith, v.evidence);
  }

step-IsVisible :
    (s s' : SharedMeetingProjection) (e : SharedDomainEvent)
    → IsVisible s
    → reduce_shared_event s e ≡ ok s'
    → IsVisible s'
unfolding reduce_shared_event
step-IsVisible s s' e v h = elim (Result-cases (apply_shared s e.meeting_id e.payload)) [
  | inl (t, g) ↦
      let w = apply_shared-IsVisible s t e.meeting_id v e.payload g in
      record {
        artifacts = ground (arith, g, w.artifacts);
        utterances = ground (arith, g, w.utterances);
        evidence = ground (arith, g, w.evidence);
      }
  | inr (f, g) ↦ absurd (ground (arith, g))
]

-- A private record of the participant.
pub record IsOwnedBy (o : ParticipantId) (c : CommonRecordFields) : Type 0 where
  pub hidden : c.visibility ≡ private
  pub owned : c.owner_participant_id ≡ some o

-- A workspace holds private records of its owner.
pub record IsOwn (w : OwnerPrivateProjection) : Type 0 where
  pub artifacts :
      All (λ (a : SourceArtifact). IsOwnedBy w.owner_participant_id a.common) w.artifacts
  pub utterances : All (λ (u : Utterance). IsOwnedBy w.owner_participant_id u.common) w.utterances

processed-IsOwnedBy :
    (p : ArtifactProcessedPayload) (o : ParticipantId) (xs : List SourceArtifact)
    → All (λ (a : SourceArtifact). IsOwnedBy o a.common) xs
    → All (λ (a : SourceArtifact). IsOwnedBy o a.common) (process_artifacts p xs)
unfolding process_artifacts apply_processing
processed-IsOwnedBy p o [] h = tt
processed-IsOwnedBy p o (x ∷ xs) h =
    (subst (IsOwnedBy o) (ground arith) h.0, processed-IsOwnedBy p o xs h.1)

module _ (w w' : OwnerPrivateProjection) (id : MeetingId) (v : IsOwn w) where
  abbrev owner : ParticipantId
  owner = w.owner_participant_id

  kept :
      w'.owner_participant_id ≡ w.owner_participant_id
      → w'.artifacts ≡ w.artifacts
      → w'.utterances ≡ w.utterances
      → IsOwn w'
  kept o a u = record { artifacts = rw (o, a) v.artifacts; utterances = rw (o, u) v.utterances }

  apply_private-IsOwn : (p : PrivatePayload) → apply_private w id owner p ≡ ok w' → IsOwn w'
  unfolding apply_private
  apply_private-IsOwn (own_artifact_registered a) h =
      let same : record w { artifacts = upsert_by_id (λ (x : SourceArtifact). x.id) w.artifacts a }
          ≡ w' =
        ground arith in
      subst IsOwn same (record {
        artifacts =
            unfold upsert_by_id in
            All-upsert (λ (x : SourceArtifact). IsOwnedBy owner x.common)
              (λ (x : SourceArtifact). x.id == a.id) w.artifacts a v.artifacts
              (record {
                hidden = ground arith;
                owned = ground (arith, ==_iff a.owner_participant_id (some owner));
              });
        utterances = v.utterances;
      })
  apply_private-IsOwn (own_artifact_processed p) h =
      let same : record w { artifacts = process_artifacts p w.artifacts } ≡ w' = ground arith in
      subst IsOwn same (record {
        artifacts = processed-IsOwnedBy p owner w.artifacts v.artifacts;
        utterances = v.utterances;
      })
  apply_private-IsOwn (own_utterance_captured u) h =
      let same : record w { utterances = upsert_by_id (λ (x : Utterance). x.id) w.utterances u }
          ≡ w' =
        ground arith in
      subst IsOwn same (record {
        utterances =
            unfold upsert_by_id in
            All-upsert (λ (x : Utterance). IsOwnedBy owner x.common)
              (λ (x : Utterance). x.id == u.id) w.utterances u v.utterances
              (record {
                hidden = ground arith;
                owned = ground (arith, ==_iff u.owner_participant_id (some owner));
              });
        artifacts = v.artifacts;
      })
  apply_private-IsOwn _ h = kept (ground arith) (ground arith) (ground arith)

-- What is shared and what is private stays apart.
pub record IsSeparated (p : MeetingProjection) : Type 0 where
  pub seen : IsVisible p.shared
  pub owned : All IsOwn p.private_workspaces

IsOwn-or_empty :
    (id : MeetingId) (o : ParticipantId) (f : Option OwnerPrivateProjection)
    → ((w : OwnerPrivateProjection) → f ≡ some w → IsOwn w)
    → IsOwn (or_empty id o f)
IsOwn-or_empty id o none h = record { artifacts = tt; utterances = tt }
IsOwn-or_empty id o (some w) h = h w refl

owner_workspace-IsOwn :
    (ws : List OwnerPrivateProjection) (id : MeetingId) (o : ParticipantId)
    → All IsOwn ws
    → IsOwn (owner_workspace ws id o)
unfolding owner_workspace
owner_workspace-IsOwn ws id o h =
    IsOwn-or_empty id o (find (is_workspace_of id o) ws)
      (λ w e. All-lookup IsOwn ws w h (find-some (is_workspace_of id o) ws w e).0)

step-IsOwn :
    (ws ws' : List OwnerPrivateProjection) (e : PrivateDomainEvent)
    → All IsOwn ws
    → reduce_private_workspace ws e ≡ ok ws'
    → All IsOwn ws'
unfolding reduce_private_workspace upsert_owner_workspace
step-IsOwn ws ws' e h g =
    let id = e.meeting_id in
    let o = e.owner_participant_id in
    let old = owner_workspace ws id o in
    let mine = (owner_workspace-IsOf ws id o).owner in
    let (w, g', k) =
      >>=-eq-ok (apply_private old id o e.payload) (λ w. ok (upsert_owner_workspace ws w)) g in
    let good =
      apply_private-IsOwn old w id (owner_workspace-IsOwn ws id o h) e.payload
        (subst (λ x. apply_private old id x e.payload ≡ ok w) (sym mine) g') in
    let same : upsert_owner_workspace ws w ≡ ws' = cc k in
    subst (All IsOwn) same
      (All-upsert IsOwn (is_workspace_of w.meeting_id w.owner_participant_id) ws w h good)

module _ (fingerprint : DomainEvent → String) where
  applied-IsSeparated :
      (s s' : MeetingProjection) (e : DomainEvent)
      → IsSeparated s
      → IsApplied fingerprint s e s'
      → IsSeparated s'
  unfolding reduce_shared reduce_private
  applied-IsSeparated s s' (shared_event e) v a = record {
    seen = step-IsVisible s.shared s'.shared e v.seen a.shared_part;
    owned = elim (Bool-cases (is_reset e.payload)) [
      | inl r ↦ ground (arith, r, a.private_part)
      | inr r ↦ ground (arith, r, a.private_part, v.owned)
    ];
  }
  applied-IsSeparated s s' (private_event e) v a = record {
    seen = ground (arith, a.shared_part, v.seen);
    owned = step-IsOwn s.private_workspaces s'.private_workspaces e v.owned a.private_part;
  }

  reduce-IsSeparated :
      (s s' : MeetingProjection) (e : DomainEvent)
      → IsSeparated s
      → reduce_meeting_projection fingerprint s e ≡ ok s'
      → IsSeparated s'
  reduce-IsSeparated s s' e v h = elim (reduce-cases fingerprint s e h) [
    | inl (_, same) ↦ subst IsSeparated (sym same) v
    | inr a ↦ applied-IsSeparated s s' e v a
  ]

  replay-IsSeparated :
      (id : MeetingId) (events : List DomainEvent) (p : MeetingProjection)
      → replay_meeting fingerprint id events ≡ ok p
      → IsSeparated p
  unfolding replay_meeting create_empty_meeting_projection create_empty_shared_meeting_projection
  replay-IsSeparated id events p h =
      fold_inv IsSeparated (reduce_meeting_projection fingerprint) reduce-IsSeparated
        (create_empty_meeting_projection id) p events
        (record { seen = record { artifacts = tt; utterances = tt; evidence = tt }; owned = tt }) h

  -- After any replay, the artifacts, utterances and evidence that all participants see are shared
  -- records, and the artifacts and utterances in the workspace of a participant are private records
  -- that this participant owns.
  pub replay_meeting-Separated :
      (id : MeetingId) (events : List DomainEvent) (p : MeetingProjection) (o : ParticipantId)
      → replay_meeting fingerprint id events ≡ ok p
      → IsVisible p.shared
        × IsOf p.meeting_id o (get_owner_private_projection p o)
        × IsOwn (get_owner_private_projection p o)
  unfolding get_owner_private_projection
  replay_meeting-Separated id events p o h =
      let v = replay-IsSeparated id events p h in
      (
        v.seen,
        owner_workspace-IsOf p.private_workspaces p.meeting_id o,
        owner_workspace-IsOwn p.private_workspaces p.meeting_id o v.owned,
      )
