-- ===== src/Projection/Meeting/Privacy.antt =====
-- What each participant sees of the events of others.
use counterpoint_living_deci.Base.{
  ==_iff, >>=-eq-ok, List, Option, String, [], ap, arith, false, find, if◌then◌else◌, inl, inr,
  nat_eq, none, ok, ok-injective, option_eq, refl, some, string_eq, sym, true, ◌↔◌, ◌∙◌, ◌≡◌, ◌≢◌,
  ◌⊎◌,
}
use counterpoint_living_deci.Base.Keys.{find-some}
use counterpoint_living_deci.Entities.Common.{confirmation_eq, origin_eq, visibility_eq}
use counterpoint_living_deci.Entities.Decisions.{action_status_eq, status_eq, task_state_eq}
use counterpoint_living_deci.Entities.People.{capability_eq}
use counterpoint_living_deci.Events.{
  DomainEvent, PrivateDomainEvent, SharedDomainEvent, private_event, shared_event,
}
use counterpoint_living_deci.Events.Payloads.{
  PrivatePayload, SharedPayload, demo_reset_completed, own_artifact_registered,
}
use counterpoint_living_deci.Projection.Meeting.{
  get_owner_private_projection, is_reset, reduce_meeting_projection, reduce_private, reduce_shared,
}
use counterpoint_living_deci.Projection.Meeting.Steps.{IsKnown, reduce-cases}
use counterpoint_living_deci.Projection.Private.{
  apply_private, is_workspace_of, or_empty, owner_workspace, reduce_private_workspace,
  upsert_owner_workspace,
}
use counterpoint_living_deci.Projection.State.{MeetingProjection, OwnerPrivateProjection}
use counterpoint_living_deci.Projection.Upsert.Laws.{find-upsert_other}
use counterpoint_living_deci.Values.Ids.{MeetingId, NonEmptyText, ParticipantId, ResetRequestId}

-- The workspace is that of the participant in the meeting.
pub record IsOf (id : MeetingId) (o : ParticipantId) (w : OwnerPrivateProjection) : Type 0 where
  pub meeting : w.meeting_id ≡ id
  pub owner : w.owner_participant_id ≡ o

IsOf-iff :
    (id : MeetingId) (o : ParticipantId) (w : OwnerPrivateProjection)
    → (is_workspace_of id o w ≡ true) ↔ IsOf id o w
IsOf-iff id o w = ground (arith, ==_iff w.owner_participant_id o, ==_iff w.meeting_id id)

found-IsOf :
    (id : MeetingId) (o : ParticipantId) (f : Option OwnerPrivateProjection)
    → ((w : OwnerPrivateProjection) → f ≡ some w → IsOf id o w)
    → IsOf id o (or_empty id o f)
found-IsOf id o none h = record { meeting = refl; owner = refl }
found-IsOf id o (some w) h = h w refl

pub owner_workspace-IsOf :
    (ws : List OwnerPrivateProjection) (id : MeetingId) (o : ParticipantId)
    → IsOf id o (owner_workspace ws id o)
unfolding owner_workspace
owner_workspace-IsOf ws id o =
    found-IsOf id o (find (is_workspace_of id o) ws)
      (λ w e. (IsOf-iff id o w).0 (find-some (is_workspace_of id o) ws w e).1)

-- An event does not move a workspace.
pub apply_private-IsOf :
    (w w' : OwnerPrivateProjection) (id : MeetingId) (o : ParticipantId) (p : PrivatePayload)
    → IsOf id o w
    → apply_private w id o p ≡ ok w'
    → IsOf id o w'
unfolding apply_private
apply_private-IsOf w w' id o (own_artifact_registered a) v h = ground arith
apply_private-IsOf w w' id o _ v h = ground arith

other-not_IsOf :
    (id id' : MeetingId) (o p : ParticipantId) (w : OwnerPrivateProjection)
    → o ≢ p
    → is_workspace_of id' p w ≡ true
    → is_workspace_of id o w ≡ false
other-not_IsOf id id' o p w n h =
    ground (arith, n, ==_iff w.owner_participant_id o, ==_iff w.owner_participant_id p)

find_other :
    (ws : List OwnerPrivateProjection) (w : OwnerPrivateProjection) (id : MeetingId)
    (o : ParticipantId)
    → o ≢ w.owner_participant_id
    → find (is_workspace_of id o) (upsert_owner_workspace ws w) ≡ find (is_workspace_of id o) ws
unfolding upsert_owner_workspace
find_other ws w id o n =
    let p = w.owner_participant_id in
    find-upsert_other (is_workspace_of w.meeting_id p) (is_workspace_of id o) ws w
      (other-not_IsOf id w.meeting_id o p w n
        ((IsOf-iff w.meeting_id p w).1 (record { meeting = refl; owner = refl })))
      (λ y. other-not_IsOf id w.meeting_id o p y n)

private_part-other :
    (ws ws' : List OwnerPrivateProjection) (e : PrivateDomainEvent) (o : ParticipantId)
    → o ≢ e.owner_participant_id
    → reduce_private_workspace ws e ≡ ok ws'
    → owner_workspace ws' e.meeting_id o ≡ owner_workspace ws e.meeting_id o
unfolding reduce_private_workspace owner_workspace
private_part-other ws ws' e o n h =
    let id = e.meeting_id in
    let p = e.owner_participant_id in
    let old = owner_workspace ws id p in
    let (w, e', h') =
      >>=-eq-ok (apply_private old id p e.payload) (λ w. ok (upsert_owner_workspace ws w)) h in
    let v = apply_private-IsOf old w id p e.payload (owner_workspace-IsOf ws id p) e' in
    let there = find_other ws w id o (λ x. n (x ∙ v.owner)) in
    let same : upsert_owner_workspace ws w ≡ ws' = cc h' in rw (← same) (ap (or_empty id o) there)

-- The event with which the reset of a demo ends.
pub data CompletesReset : SharedPayload → Type 0 where
  completes :
      {request : ResetRequestId} {seed : NonEmptyText}
      → CompletesReset (demo_reset_completed request seed)

CompletesReset-is_reset : (p : SharedPayload) → CompletesReset p → is_reset p ≡ true
CompletesReset-is_reset p completes = refl

private_part-shared :
    (state next : MeetingProjection) (e : SharedDomainEvent)
    → ok (if is_reset e.payload then [] else state.private_workspaces) ≡ ok next.private_workspaces
    → (CompletesReset e.payload × (next.private_workspaces ≡ []))
      ⊎ (¬ CompletesReset e.payload × (next.private_workspaces ≡ state.private_workspaces))
private_part-shared state next e h = reset_cases e.payload (ok-injective h)
  where
    reset_cases :
        (p : SharedPayload)
        → (if is_reset p then [] else state.private_workspaces) ≡ next.private_workspaces
        → (CompletesReset p × (next.private_workspaces ≡ []))
          ⊎ (¬ CompletesReset p × (next.private_workspaces ≡ state.private_workspaces))
    reset_cases (demo_reset_completed _ _) h = inl (completes, sym h)
    reset_cases _ h = inr (λ c. ground (arith, CompletesReset-is_reset _ c), sym h)

module _ (fingerprint : DomainEvent → String) where
  -- A private event leaves the state that all participants see as it is, and the workspace of every
  -- participant but its owner.
  pub private_event_confined :
      (state next : MeetingProjection) (e : PrivateDomainEvent) (o : ParticipantId)
      → o ≢ e.owner_participant_id
      → reduce_meeting_projection fingerprint state (private_event e) ≡ ok next
      → (next.shared ≡ state.shared)
        × (get_owner_private_projection next o ≡ get_owner_private_projection state o)
  private_event_confined state next e o n h =
      elim (reduce-cases fingerprint state (private_event e) h) [
        | inl (_, same) ↦ rw same (refl, refl)
        | inr v ↦ (
          unfold reduce_shared in ground (arith, v.shared_part),
          unfold get_owner_private_projection in
              rw v.meeting (
                rw (← v.scope) (
                  private_part-other state.private_workspaces next.private_workspaces e o n
                    (unfold reduce_private in v.private_part))),
        )
      ]

  -- A shared event either was received before and changes nothing, or completes a reset and clears
  -- all private workspaces, or is of another type and leaves every private workspace as it is.
  pub shared_event_confined :
      (state next : MeetingProjection) (e : SharedDomainEvent)
      → reduce_meeting_projection fingerprint state (shared_event e) ≡ ok next
      → (IsKnown fingerprint state (shared_event e) × (next ≡ state))
        ⊎ ((CompletesReset e.payload × (next.private_workspaces ≡ []))
            ⊎ (¬ CompletesReset e.payload × (next.private_workspaces ≡ state.private_workspaces)))
  shared_event_confined state next e h = elim (reduce-cases fingerprint state (shared_event e) h) [
    | inl known ↦ inl known
    | inr v ↦ inr (private_part-shared state next e (unfold reduce_private in v.private_part))
  ]
