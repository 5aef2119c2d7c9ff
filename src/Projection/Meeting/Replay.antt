-- ===== src/Projection/Meeting/Replay.antt =====
-- What holds of a meeting after the replay of any events.
use mathlib.Core.Path.{subst}
use counterpoint_living_deci.Base.{
  ==_iff, >>=-eq-ok, List, String, [], ap, arith, fold, fold_inv, inl, inr, length, length-append,
  map, nat_eq, ok, option_eq, refl, string_eq, sym, ◌+◌, ◌==◌, ◌∙◌, ◌∷◌, ◌≡◌, ◌≢◌, ◌≤◌,
}
use counterpoint_living_deci.Base.Keys.{All-map, All-map_of, Distinct-snoc, find-none, map-snoc}
use counterpoint_living_deci.Base.Unique.{Distinct}
use counterpoint_living_deci.Entities.Common.{confirmation_eq, origin_eq, visibility_eq}
use counterpoint_living_deci.Entities.Decisions.{action_status_eq, status_eq, task_state_eq}
use counterpoint_living_deci.Entities.People.{capability_eq}
use counterpoint_living_deci.Events.{
  DomainEvent, SharedDomainEvent, envelope_of, private_event, shared_event,
}
use counterpoint_living_deci.Projection.Meeting.{
  find_processed, reduce_meeting_projection, reduce_shared, replay_meeting, replay_shared_meeting,
}
use counterpoint_living_deci.Projection.Meeting.Steps.{IsApplied, reduce-cases}
use counterpoint_living_deci.Projection.Shared.{reduce_shared_event}
use counterpoint_living_deci.Projection.State.{
  MeetingProjection, ProcessedEventReceipt, create_empty_meeting_projection,
}
use counterpoint_living_deci.Values.Ids.{EventId, MeetingId}

abbrev pub processed_id : ProcessedEventReceipt → EventId
processed_id r = r.event_id

-- The position counts the events that were applied, and no id was applied twice.
pub record IsCounted (p : MeetingProjection) : Type 0 where
  pub counted : p.position ≡ length p.processed_events
  pub once : Distinct (map processed_id p.processed_events)

-- The shared events of a log, in order.
unfoldable pub shared_events : List DomainEvent → List SharedDomainEvent
shared_events [] = []
shared_events (shared_event e ∷ es) = e ∷ shared_events es
shared_events (private_event e ∷ es) = shared_events es

module _ (fingerprint : DomainEvent → String) where
  applied-IsCounted :
      (s s' : MeetingProjection) (e : DomainEvent)
      → IsCounted s
      → IsApplied fingerprint s e s'
      → IsCounted s'
  unfolding find_processed
  applied-IsCounted s s' e c v =
      let r : ProcessedEventReceipt = record {
        event_id = (envelope_of e).event_id;
        fingerprint = fingerprint e;
      } in
      record {
        counted = omega (
          arith,
          c.counted,
          v.position,
          ap length v.processed,
          length-append s.processed_events (r ∷ []),
        );
        once = rw v.processed (
            subst Distinct (sym (map-snoc processed_id s.processed_events r)) (
              Distinct-snoc (map processed_id s.processed_events) r.event_id c.once (
                All-map_of (λ (i : EventId). i ≢ r.event_id) processed_id s.processed_events
                  (All-map s.processed_events (λ x b y. cc (b, (==_iff x.event_id r.event_id).1 y))
                    (find-none (λ (x : ProcessedEventReceipt). x.event_id == r.event_id)
                      s.processed_events v.unseen)))));
      }

  reduce-IsCounted :
      (s s' : MeetingProjection) (e : DomainEvent)
      → IsCounted s
      → reduce_meeting_projection fingerprint s e ≡ ok s'
      → IsCounted s'
  reduce-IsCounted s s' e c h = elim (reduce-cases fingerprint s e h) [
    | inl (_, same) ↦ subst IsCounted (sym same) c
    | inr v ↦ applied-IsCounted s s' e c v
  ]

  -- After any replay the position is the number of events that were applied, each id once.
  pub replay_meeting-IsCounted :
      (id : MeetingId) (events : List DomainEvent) (p : MeetingProjection)
      → replay_meeting fingerprint id events ≡ ok p
      → IsCounted p
  unfolding replay_meeting create_empty_meeting_projection
  replay_meeting-IsCounted id events p h =
      fold_inv IsCounted (reduce_meeting_projection fingerprint) reduce-IsCounted
        (create_empty_meeting_projection id) p events (record { counted = refl; once = tt }) h

  position-le :
      (s p : MeetingProjection) (es : List DomainEvent)
      → fold (reduce_meeting_projection fingerprint) s es ≡ ok p
      → p.position ≤ s.position + length es
  unfolding fold
  position-le s p [] h = ground arith
  position-le s p (e ∷ es) h =
      let (s', e', h') =
        >>=-eq-ok (reduce_meeting_projection fingerprint s e)
          (λ t. fold (reduce_meeting_projection fingerprint) t es) h in
      let rest = position-le s' p es h' in
      elim (reduce-cases fingerprint s e e') [
        | inl (_, same) ↦ omega (arith, rest, ap (λ (t : MeetingProjection). t.position) same)
        | inr v ↦ omega (arith, rest, v.position)
      ]

  shared_step :
      (s s' p : MeetingProjection) (e : DomainEvent) (es : List DomainEvent)
      → IsApplied fingerprint s e s'
      → fold reduce_shared_event s'.shared (shared_events es) ≡ ok p.shared
      → fold reduce_shared_event s.shared (shared_events (e ∷ es)) ≡ ok p.shared
  unfolding fold shared_events reduce_shared
  shared_step s s' p (shared_event e) es v h = rw v.shared_part h
  shared_step s s' p (private_event e) es v h =
      ap (λ t. fold reduce_shared_event t (shared_events es)) (ground (arith, v.shared_part)) ∙ h

  shared_fold :
      (s p : MeetingProjection) (es : List DomainEvent)
      → fold (reduce_meeting_projection fingerprint) s es ≡ ok p
      → p.position ≡ s.position + length es
      → fold reduce_shared_event s.shared (shared_events es) ≡ ok p.shared
  unfolding fold shared_events
  shared_fold s p [] h n = ground arith
  shared_fold s p (e ∷ es) h n =
      let (s', e', h') =
        >>=-eq-ok (reduce_meeting_projection fingerprint s e)
          (λ t. fold (reduce_meeting_projection fingerprint) t es) h in
      let most = position-le s' p es h' in
      elim (reduce-cases fingerprint s e e') [
        | inl (_, same) ↦
            absurd (omega (arith, most, n, ap (λ (t : MeetingProjection). t.position) same))
        | inr v ↦ shared_step s s' p e es v (shared_fold s' p es h' (omega (arith, n, v.position)))
      ]

  -- If every event of a log was applied, the shared state is that of the shared events alone: whatever
  -- the private events were, the participants see the same meeting.
  pub replay_meeting-shared :
      (id : MeetingId) (events : List DomainEvent) (p : MeetingProjection)
      → replay_meeting fingerprint id events ≡ ok p
      → p.position ≡ length events
      → replay_shared_meeting id (shared_events events) ≡ ok p.shared
  unfolding replay_meeting replay_shared_meeting create_empty_meeting_projection
  replay_meeting-shared id events p h n =
      shared_fold (create_empty_meeting_projection id) p events h (omega (arith, n))
