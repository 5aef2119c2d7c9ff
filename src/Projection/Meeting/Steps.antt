-- ===== src/Projection/Meeting/Steps.antt =====
-- About one event on a meeting, new or delivered again.
use counterpoint_living_deci.Base.{
  ==_iff, ==_refl, Result-cases, String, [], ap, arith, find, inl, inr, nat_eq, none, ok, option_eq,
  refl, some, string_eq, sym, ◌++◌, ◌+◌, ◌==◌, ◌∙◌, ◌∷◌, ◌≡◌, ◌⊎◌,
}
use counterpoint_living_deci.Base.Keys.{find-append}
use counterpoint_living_deci.Entities.Common.{confirmation_eq, origin_eq, visibility_eq}
use counterpoint_living_deci.Entities.Decisions.{action_status_eq, status_eq, task_state_eq}
use counterpoint_living_deci.Entities.People.{capability_eq}
use counterpoint_living_deci.Events.{DomainEvent, envelope_of}
use counterpoint_living_deci.Projection.Meeting.{
  Novelty, apply_event, duplicate, find_duplicate, find_processed, fresh, reduce_meeting_projection,
  reduce_private, reduce_shared,
}
use counterpoint_living_deci.Projection.State.{MeetingProjection, ProcessedEventReceipt}

module _ (fingerprint : DomainEvent → String) where
  -- The event was new, and next in order.
  pub record IsApplied (state : MeetingProjection) (event : DomainEvent) (next : MeetingProjection)
      : Type 0 where
    pub unseen : find_processed state event ≡ none
    pub scope : (envelope_of event).meeting_id ≡ state.meeting_id
    pub ordered : (envelope_of event).position ≡ state.position + 1
    pub position : next.position ≡ state.position + 1
    pub meeting : next.meeting_id ≡ state.meeting_id
    pub shared_part : reduce_shared state event ≡ ok next.shared
    pub private_part : reduce_private state event ≡ ok next.private_workspaces
    pub processed :
        next.processed_events
        ≡ state.processed_events
          ++ record { event_id = (envelope_of event).event_id; fingerprint = fingerprint event }
            ∷ []

  apply_event-IsApplied :
      (state : MeetingProjection) (event : DomainEvent) {next : MeetingProjection}
      → find_processed state event ≡ none
      → (envelope_of event).meeting_id ≡ state.meeting_id
      → apply_event fingerprint state event ≡ ok next
      → IsApplied state event next
  unfolding apply_event
  apply_event-IsApplied state event u m h = elim (Result-cases (reduce_shared state event)) [
    | inl (s, es) ↦ elim (Result-cases (reduce_private state event)) [
      | inl (w, ew) ↦ record {
        unseen = u;
        scope = m;
        ordered = ground (arith, es, ew);
        position = ground (arith, es, ew);
        meeting = ground (arith, es, ew);
        shared_part = es ∙ ap ok (ground (arith, es, ew));
        private_part = ew ∙ ap ok (ground (arith, es, ew));
        processed = ground (arith, es, ew);
      }
      | inr (f, ew) ↦ absurd (ground (arith, es, ew))
    ]
    | inr (f, es) ↦ absurd (ground (arith, es))
  ]

  -- What was found of the event before.
  abbrev pub IsKnown : MeetingProjection → DomainEvent → Type 0
  IsKnown state event = find_duplicate fingerprint state event ≡ ok duplicate

  fresh-unseen :
      (state : MeetingProjection) (event : DomainEvent)
      → find_duplicate fingerprint state event ≡ ok fresh
      → find_processed state event ≡ none
  unfolding find_duplicate
  fresh-unseen state event e = ground arith

  Novelty-cases : (n : Novelty) → (n ≡ duplicate) ⊎ (n ≡ fresh)
  Novelty-cases duplicate = inl refl
  Novelty-cases fresh = inr refl

  -- An event that is accepted was delivered before and changes nothing, or is applied.
  pub reduce-cases :
      (state : MeetingProjection) (event : DomainEvent) {next : MeetingProjection}
      → reduce_meeting_projection fingerprint state event ≡ ok next
      → (IsKnown state event × (next ≡ state)) ⊎ IsApplied state event next
  unfolding reduce_meeting_projection
  reduce-cases state event h =
      let m = ==_iff (envelope_of event).meeting_id state.meeting_id in
      elim (Result-cases (find_duplicate fingerprint state event)) [
        | inl (n, e) ↦ elim (Novelty-cases n) [
          | inl d ↦ inl (ground (arith, e, d), ground (arith, e, d))
          | inr f ↦ inr (
              apply_event-IsApplied state event (fresh-unseen state event (e ∙ ap ok f))
                (ground (arith, m)) (ground (arith, e, f)))
        ]
        | inr (f, e) ↦ absurd (ground (arith, e))
      ]

  found_last :
      (state : MeetingProjection) (event : DomainEvent) {next : MeetingProjection}
      → IsApplied state event next
      → find_processed next event
        ≡ some (record { event_id = (envelope_of event).event_id; fingerprint = fingerprint event })
  unfolding find_processed find
  found_last state event v =
      let id = (envelope_of event).event_id in
      let same = λ (r : ProcessedEventReceipt). r.event_id == id in
      let receipt : ProcessedEventReceipt = record {
        event_id = id;
        fingerprint = fingerprint event;
      } in
      rw v.processed (
        rw (find-append same state.processed_events (receipt ∷ []))
          (rw v.unseen (rw (==_refl id) refl)))

  known-unchanged :
      (state : MeetingProjection) (event : DomainEvent)
      → (envelope_of event).meeting_id ≡ state.meeting_id
      → IsKnown state event
      → reduce_meeting_projection fingerprint state event ≡ ok state
  unfolding reduce_meeting_projection
  known-unchanged state event m k =
      ground (arith, k, ==_iff (envelope_of event).meeting_id state.meeting_id)

  -- An event that was applied is known from then on.
  applied-IsKnown :
      (state : MeetingProjection) (event : DomainEvent) {next : MeetingProjection}
      → IsApplied state event next
      → IsKnown next event
  unfolding find_duplicate
  applied-IsKnown state event {next} v =
      let receipt : ProcessedEventReceipt = record {
        event_id = (envelope_of event).event_id;
        fingerprint = fingerprint event;
      } in
      let found : find_processed next event ≡ some receipt = found_last state event v in
      ground (arith, found, ==_refl (fingerprint event))

  -- An event that was accepted can be delivered again: the meeting stays as it is.
  pub reduce_meeting_projection_idem :
      (state : MeetingProjection) (event : DomainEvent) {next : MeetingProjection}
      → reduce_meeting_projection fingerprint state event ≡ ok next
      → reduce_meeting_projection fingerprint next event ≡ ok next
  reduce_meeting_projection_idem state event {next} h = elim (reduce-cases state event h) [
    | inl (k, same) ↦ rw same (rw same at h)
    | inr v ↦ known-unchanged next event (v.scope ∙ sym v.meeting) (applied-IsKnown state event v)
  ]
