-- ===== src/Projection/Meeting/Audit.antt =====
-- About the audit timeline of the shared state.
use mathlib.Core.List.{append-nil, append_assoc}
use mathlib.Core.Path.{subst}
use counterpoint_living_deci.Base.{
  ==_iff, >>=-eq-ok, List, Result-cases, [], ap, arith, fold, inl, inr, map, nat_eq, ok, option_eq,
  string_eq, sym, ℕ, ◌++◌, ◌<◌, ◌∙◌, ◌∷◌, ◌≡◌,
}
use counterpoint_living_deci.Entities.Common.{confirmation_eq, origin_eq, visibility_eq}
use counterpoint_living_deci.Entities.Decisions.{action_status_eq, status_eq, task_state_eq}
use counterpoint_living_deci.Entities.People.{capability_eq}
use counterpoint_living_deci.Events.{SharedDomainEvent, to_event_reference}
use counterpoint_living_deci.Events.Payloads.{SharedPayload, inference_confirmed}
use counterpoint_living_deci.Events.Suggestions.{ConfirmedInference}
use counterpoint_living_deci.Projection.Meeting.{replay_shared_meeting}
use counterpoint_living_deci.Projection.Shared.{
  apply_shared, put_decision, put_inference, reduce_shared_event,
}
use counterpoint_living_deci.Projection.State.{
  SharedMeetingProjection, create_empty_shared_meeting_projection,
}
use counterpoint_living_deci.Values.Ids.{MeetingId}

-- The events are of the meeting, and their positions grow from `n` on.
abbrev pub IsOrdered : MeetingId → ℕ → List SharedDomainEvent → Type 0
IsOrdered id n [] = Unit
IsOrdered id n (e ∷ es) = (e.meeting_id ≡ id) × (n < e.position) × IsOrdered id e.position es

put_inference-timeline :
    (s : SharedMeetingProjection) (c : ConfirmedInference)
    → ((put_inference s c).audit_timeline ≡ s.audit_timeline)
      × ((put_inference s c).meeting_id ≡ s.meeting_id)
unfolding put_inference
put_inference-timeline s c = ground arith

apply_shared-timeline :
    (s s' : SharedMeetingProjection) (id : MeetingId) (p : SharedPayload)
    → apply_shared s id p ≡ ok s'
    → (s'.audit_timeline ≡ s.audit_timeline) × (s'.meeting_id ≡ s.meeting_id)
unfolding apply_shared put_decision create_empty_shared_meeting_projection
apply_shared-timeline s s' id (inference_confirmed c) h =
    ground (arith, put_inference-timeline s c.result)
apply_shared-timeline s s' id _ h = ground arith

step-timeline :
    (s s' : SharedMeetingProjection) (e : SharedDomainEvent)
    → reduce_shared_event s e ≡ ok s'
    → (e.meeting_id ≡ s.meeting_id)
      × (s.position < e.position)
      × (s'.position ≡ e.position)
      × (s'.meeting_id ≡ s.meeting_id)
      × (s'.audit_timeline ≡ s.audit_timeline ++ to_event_reference e ∷ [])
unfolding reduce_shared_event
step-timeline s s' e h = elim (Result-cases (apply_shared s e.meeting_id e.payload)) [
  | inl (t, g) ↦ ground (
    arith,
    g,
    apply_shared-timeline s t e.meeting_id e.payload g,
    ==_iff e.meeting_id s.meeting_id,
  )
  | inr (f, g) ↦ absurd (ground (arith, g))
]

fold-timeline :
    (s s' : SharedMeetingProjection) (es : List SharedDomainEvent)
    → fold reduce_shared_event s es ≡ ok s'
    → IsOrdered s.meeting_id s.position es
      × (s'.audit_timeline ≡ s.audit_timeline ++ map to_event_reference es)
unfolding fold
fold-timeline s s' [] h =
    let same : s' ≡ s = cc h in
    (
      tt,
      ap (λ (x : SharedMeetingProjection). x.audit_timeline) same
          ∙ sym (append-nil s.audit_timeline),
    )
fold-timeline s s' (e ∷ es) h =
    let (t, g, k) = >>=-eq-ok (reduce_shared_event s e) (λ t. fold reduce_shared_event t es) h in
    let (m, o, p, i, a) = step-timeline s t e g in
    let (ordered, timeline) = fold-timeline t s' es k in
    (
      (
        m,
        o,
        subst (λ x. IsOrdered x e.position es) i
            (subst (λ n. IsOrdered t.meeting_id n es) p ordered),
      ),
      timeline
          ∙ ap (λ l. l ++ map to_event_reference es) a
          ∙ append_assoc s.audit_timeline (to_event_reference e ∷ []) (map to_event_reference es),
    )

-- The shared state is only made from events of its meeting whose positions grow, and its audit timeline
-- refers to each of them, in order; resets leave none out.
pub replay_shared_meeting-audited :
    (id : MeetingId) (es : List SharedDomainEvent) (s : SharedMeetingProjection)
    → replay_shared_meeting id es ≡ ok s
    → IsOrdered id 0 es × (s.audit_timeline ≡ map to_event_reference es)
unfolding replay_shared_meeting create_empty_shared_meeting_projection
replay_shared_meeting-audited id es s h =
    fold-timeline (create_empty_shared_meeting_projection id) s es h
