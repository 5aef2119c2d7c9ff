-- ===== src/Entities/Validity/People.antt =====
-- What the constructors of meetings and participants accept, said without their tests.
use mathlib.Core.List.{Memᴰ}
use mathlib.Core.Path.{subst}
use counterpoint_living_deci.Base.{
  ==_iff, Bool, List, Option, Option-cases, [], ap, arith, false, find, inl, inr, length, map,
  nat_eq, none, ok, option_eq, refl, some, string_eq, sym, true, ◌==◌, ◌↔◌, ◌∙◌, ◌∷◌, ◌≡◌,
}
use counterpoint_living_deci.Base.Keys.{All-lookup, eq_of_key, find-none, find-some}
use counterpoint_living_deci.Base.Members.{contains_iff}
use counterpoint_living_deci.Base.Unique.{Distinct, is_unique_iff}
use counterpoint_living_deci.Entities.Common.{confirmation_eq, origin_eq, shared, visibility_eq}
use counterpoint_living_deci.Entities.Decisions.{action_status_eq, status_eq, task_state_eq}
use counterpoint_living_deci.Entities.People.{
  Meeting, Participant, ParticipantAssignment, ParticipantRole, capability_eq, commit_decision,
  confirm_review_required, create_meeting, create_participant, facilitator, is_facilitator,
  lacks_facilitator,
}
use counterpoint_living_deci.Entities.Validity.{
  IsScoped, assert_common_record_iff, assert_unique_iff,
}
use counterpoint_living_deci.Values.Ids.{ParticipantId}

-- The assignment names the meeting's facilitator, who has that role and is active.
pub record IsFacilitated (a : ParticipantAssignment) : Type 0 where
  pub facilitates : a.role ≡ facilitator
  pub present : a.active ≡ true

-- A shared record of its own scope that assigns nobody twice, its active facilitator among them.
pub record IsMeeting (m : Meeting) : Type 0 where
  pub scoped : IsScoped m.common
  pub visible : m.visibility ≡ shared
  pub own_scope : m.id ≡ m.meeting_id
  pub once :
      Distinct (map (λ (a : ParticipantAssignment). a.participant_id) m.participant_assignments)
  pub led_by : ParticipantAssignment
  pub led_in : Memᴰ led_by m.participant_assignments
  pub named : led_by.participant_id ≡ m.facilitator_participant_id
  pub led : IsFacilitated led_by

pub record IsParticipant (p : Participant) : Type 0 where
  pub scoped : IsScoped p.common
  pub visible : p.visibility ≡ shared
  pub once : Distinct p.permissions
  pub commits : p.role ≡ facilitator → Memᴰ commit_decision p.permissions
  pub reviews : p.role ≡ facilitator → Memᴰ confirm_review_required p.permissions

is_facilitator_iff : (r : ParticipantRole) → (is_facilitator r ≡ true) ↔ (r ≡ facilitator)
is_facilitator_iff r = ground arith

-- A participant is accepted, unchanged, exactly when it is a well-formed shared record, has no
-- permission twice and, given a facilitator, may commit Decisions and confirm reviews.
pub create_participant_iff :
    (p q : Participant) → (create_participant p ≡ ok q) ↔ ((q ≡ p) × IsParticipant p)
unfolding create_participant
create_participant_iff p q =
    let c = assert_common_record_iff p.common in
    let u = is_unique_iff p.permissions in
    let f = is_facilitator_iff p.role in
    let k = contains_iff p.permissions commit_decision in
    let v = contains_iff p.permissions confirm_review_required in
    (
      (λ h. (
        ground arith,
        record {
          scoped = ground (arith, c);
          visible = ground (arith, c);
          once = ground (arith, c, u);
          commits = λ e. ground (arith, c, u, f, k);
          reviews = λ e. ground (arith, c, u, f, v);
        },
      )),
      λ h.
          ground
            (arith, c, u, f, k, v, h.1.scoped, h.1.visible, h.1.once, h.1.commits, h.1.reviews),
    )

abbrev assigned : Meeting → ParticipantAssignment → Bool
assigned m a = a.participant_id == m.facilitator_participant_id

lacks_facilitator_iff :
    (o : Option ParticipantAssignment)
    → (lacks_facilitator o ≡ false) ↔ ((a : ParticipantAssignment) × (o ≡ some a) × IsFacilitated a)
lacks_facilitator_iff none = ((λ h. absurd (ground arith)), λ h. absurd (cc h.1))
lacks_facilitator_iff (some a) =
    let f = is_facilitator_iff a.role in
    (
      (λ h. (a, refl, record { facilitates = ground (arith, f); present = ground (arith, f) })),
      λ h.
          let same : a ≡ h.0 = cc h.1 in
          ground (
            arith,
            f,
            (subst IsFacilitated (sym same) h.2).facilitates,
            (subst IsFacilitated (sym same) h.2).present,
          ),
    )

found_facilitator :
    (m : Meeting) (a : ParticipantAssignment)
    → Distinct (map (λ (x : ParticipantAssignment). x.participant_id) m.participant_assignments)
    → Memᴰ a m.participant_assignments
    → a.participant_id ≡ m.facilitator_participant_id
    → find (assigned m) m.participant_assignments ≡ some a
found_facilitator m a u i n =
    let k = ==_iff a.participant_id m.facilitator_participant_id in
    elim (Option-cases (find (assigned m) m.participant_assignments)) [
      | inl e ↦ absurd (
          ground (
            arith,
            k,
            n,
            All-lookup (λ x. assigned m x ≡ false) m.participant_assignments a
                (find-none (assigned m) m.participant_assignments e) i,
          ))
      | inr (b, e) ↦
          let (j, q) = find-some (assigned m) m.participant_assignments b e in
          let same =
            eq_of_key (λ (x : ParticipantAssignment). x.participant_id) m.participant_assignments b
              a u j i ((==_iff b.participant_id m.facilitator_participant_id).0 q ∙ sym n) in
          e ∙ ap some same
    ]

Mem-length : {A : Type 0} (xs : List A) (a : A) → Memᴰ a xs → (length xs == 0) ≡ false
Mem-length [] a i = elim i [ ]
Mem-length (x ∷ xs) a i = ground arith

-- A meeting is accepted, unchanged, exactly when it is a well-formed shared record of its own scope
-- that assigns nobody twice and assigns its facilitator, active and in that role.
pub create_meeting_iff : (m n : Meeting) → (create_meeting m ≡ ok n) ↔ ((n ≡ m) × IsMeeting m)
unfolding create_meeting
create_meeting_iff m n =
    let c = assert_common_record_iff m.common in
    let given = m.participant_assignments in
    let key : ParticipantAssignment → ParticipantId = λ a. a.participant_id in
    let u = assert_unique_iff (map key given) in
    let o = ==_iff m.id m.meeting_id in
    (
      (λ h. elim (Option-cases (find (assigned m) given)) [
        | inl e ↦ absurd (ground (arith, e))
        | inr (a, e) ↦
            let (i, q) = find-some (assigned m) given a e in
            (
              ground (arith, e),
              record {
                scoped = ground (arith, c, e);
                visible = ground (arith, c, e);
                own_scope = ground (arith, c, e, o);
                once = ground (arith, c, e, u);
                led_by = a;
                led_in = i;
                named = (==_iff a.participant_id m.facilitator_participant_id).0 q;
                led = record {
                  facilitates = ground (arith, is_facilitator_iff a.role, e);
                  present = ground (arith, e);
                };
              },
            )
      ]),
      λ h.
          let v = h.1 in
          let e = found_facilitator m v.led_by v.once v.led_in v.named in
          ground (
            arith,
            c,
            u,
            o,
            e,
            is_facilitator_iff v.led_by.role,
            v.scoped,
            v.visible,
            v.own_scope,
            v.once,
            v.led.facilitates,
            v.led.present,
            Mem-length given v.led_by v.led_in,
          ),
    )
