-- ===== src/Application/Meetings/Laws.antt =====
-- About `createMeeting`, and `joinMeetingByCode` after it.
use counterpoint_living_deci.Application.Authorization.{
  UserAuthorizationContext, access_eq, user_authorization_context,
}
use counterpoint_living_deci.Application.Meetings.{
  AssignmentRecord, CreateMeetingResult, JoinMeetingResult, MeetingIds, MeetingRecord,
  MeetingRepository, MeetingUser, create_new_meeting, creation_forbidden, creation_invalid,
  facilitators_of, is_first_user, is_invalid_meeting, join_forbidden, join_meeting_by_code,
  meeting_joined, meeting_not_found, meeting_opened, new_assignments, open_meeting,
  resolve_meeting_authorization,
}
use counterpoint_living_deci.Base.{
  ==_iff, ==_refl, >>=-eq-ok, Bool, Bool-cases, Fault, List, Option, Option-cases, Result-cases,
  String, [], ap, arith, err, false, filter, find, if◌then◌else◌, inl, inr, length, map, nat_eq,
  none, ok, option_eq, refl, some, some-cancel, string_eq, sym, true, ℕ, ◌&&◌, ◌+◌, ◌==◌, ◌>>=◌,
  ◌∙◌, ◌∷◌, ◌≡◌, ◌≢◌, ◌≤◌, ◌⊎◌,
}
use counterpoint_living_deci.Base.Unique.{Distinct, is_unique_iff}
use counterpoint_living_deci.Entities.Common.{confirmation_eq, origin_eq, visibility_eq}
use counterpoint_living_deci.Entities.Decisions.{action_status_eq, status_eq, task_state_eq}
use counterpoint_living_deci.Entities.People.{ParticipantRole, capability_eq, is_facilitator}
use counterpoint_living_deci.Store.Projections.{key_eq, kind_eq}
use counterpoint_living_deci.Values.{trim}

-- The role under which a request was let in.
abbrev pub joined_role : JoinMeetingResult → Option ParticipantRole
joined_role (meeting_joined context meeting) = some context.role
joined_role join_forbidden = none
joined_role meeting_not_found = none

-- The role that the request for the meeting gives a user.
unfoldable pub requested_role : String → List MeetingUser → Option ParticipantRole
requested_role user [] = none
requested_role user (u ∷ users) =
    if u.user_id == user then some u.role else requested_role user users

abbrev role_of : Option AssignmentRecord → Option ParticipantRole
role_of none = none
role_of (some a) = some a.role

-- An assignment of the meeting to the user.
abbrev pub is_assigned : String → String → AssignmentRecord → Bool
is_assigned meeting_id user a = a.meeting_id == meeting_id && a.user_id == user

-- What the callers rely on: a meeting that was written is found, with the assignments written beside
-- it. `Good` holds of the states that the implementation reaches.
pub record IsMeetingRepository {S : Type 0} (meetings : MeetingRepository S) (Good : S → Type 0)
    : Type 0 where
  pub stays_good :
      (state state' : S) (m : MeetingRecord) (people : List AssignmentRecord)
      → Good state
      → meetings.create_with_assignments state m people ≡ ok state'
      → Good state'
  pub by_code :
      (state state' : S) (m : MeetingRecord) (people : List AssignmentRecord)
      → meetings.create_with_assignments state m people ≡ ok state'
      → meetings.find_by_code state' m.code ≡ ok (some m)
  pub by_id :
      (state state' : S) (m : MeetingRecord) (people : List AssignmentRecord)
      → meetings.create_with_assignments state m people ≡ ok state'
      → meetings.find_by_id state' m.meeting_id ≡ ok (some m)
  pub by_assignment :
      (state state' : S) (m : MeetingRecord) (people : List AssignmentRecord) (user : String)
      → Good state
      → meetings.create_with_assignments state m people ≡ ok state'
      → user ≢ ""
      → meetings.find_assignment state' m.meeting_id user
        ≡ ok (find (is_assigned m.meeting_id user) people)

-- A request for a meeting with a purpose, of three to eight different users, whose only facilitator is
-- the user who asks.
pub record IsMeetingRequest (purpose : String) (users : List MeetingUser) (user : String)
    : Type 0 where
  pub purpose_given : purpose ≢ ""
  pub enough : 3 ≤ length users
  pub few : length users ≤ 8
  pub distinct : Distinct (map (λ u. u.user_id) users)
  pub leader :
      (u : MeetingUser) × (filter (λ v. is_facilitator v.role) users ≡ u ∷ []) × (u.user_id ≡ user)

-- Without the facilitator among the assignments there was none among the users.
no_facilitator :
    (ids : MeetingIds) (index : ℕ) (users : List MeetingUser)
    → find (λ a. is_facilitator a.role) (new_assignments ids index users) ≡ none
    → facilitators_of users ≡ []
unfolding find filter new_assignments
no_facilitator ids index [] h = refl
no_facilitator ids index (u ∷ us) h = elim (Bool-cases (is_facilitator u.role)) [
  | inl e ↦ ground (arith, e)
  | inr e ↦ rw e (no_facilitator ids (index + 1) us (ground (arith, e)))
]

role_of-find :
    (ids : MeetingIds) (index : ℕ) (users : List MeetingUser) (user : String)
    → role_of (find (is_assigned ids.next_meeting user) (new_assignments ids index users))
      ≡ requested_role user users
unfolding find new_assignments requested_role
role_of-find ids index [] user = refl
role_of-find ids index (u ∷ us) user =
    rw (==_refl ids.next_meeting) (elim (Bool-cases (u.user_id == user)) [
      | inl e ↦ rw e refl
      | inr e ↦ rw e (role_of-find ids (index + 1) us user)
    ])

found_is_active :
    (test : AssignmentRecord → Bool) (ids : MeetingIds) (index : ℕ) (users : List MeetingUser)
    (a : AssignmentRecord)
    → find test (new_assignments ids index users) ≡ some a
    → a.is_active ≡ true
unfolding find new_assignments
found_is_active test ids index [] a h = cc h
found_is_active test ids index (u ∷ us) a h =
    let new : AssignmentRecord = record {
      is_active = true;
      meeting_id = ids.next_meeting;
      participant_id = ids.next_participant index;
      role = u.role;
      user_id = u.user_id;
    } in
    elim (Bool-cases (test new)) [
      | inl e ↦
          ap (λ (b : AssignmentRecord). b.is_active)
            (sym (some-cancel {a = new} {b = a} (ground (arith, e))))
      | inr e ↦ found_is_active test ids (index + 1) us a (ground (arith, e))
    ]

first_facilitator :
    (users : List MeetingUser) (user : String)
    → length users ≡ 1
    → is_first_user users user ≡ true
    → (u : MeetingUser) × (users ≡ u ∷ []) × (u.user_id ≡ user)
first_facilitator [] user l h = absurd (omega arith)
first_facilitator (u ∷ []) user l h = (u, refl, (==_iff u.user_id user).0 h)
first_facilitator (u ∷ v ∷ us) user l h = absurd (omega arith)

-- A request that is not rejected is one for a meeting.
request_of_valid :
    (purpose user : String) (users : List MeetingUser)
    → is_invalid_meeting purpose users user ≡ false
    → IsMeetingRequest purpose users user
unfolding is_invalid_meeting
request_of_valid purpose user users h = record {
  purpose_given = ground (arith, ==_iff purpose "");
  enough = ground arith;
  few = ground arith;
  distinct = (is_unique_iff (map (λ (u : MeetingUser). u.user_id) users)).0 (ground arith);
  leader = first_facilitator (facilitators_of users) user (ground arith) (ground arith);
}

module _ {S : Type 0} (meetings : MeetingRepository S) where
  -- A facilitator's valid request is written, unless the repository throws.
  create_new_meeting_lem :
      (ids : MeetingIds) (context : UserAuthorizationContext) (purpose : String)
      (users : List MeetingUser) (state : S)
      → is_facilitator context.role ≡ true
      → is_invalid_meeting (trim purpose) users context.user_id ≡ false
      → (m : MeetingRecord) × (create_new_meeting meetings ids context purpose users state ≡ (
          meetings.create_with_assignments state m (new_assignments ids 0 users) >>= λ done.
          ok (done, meeting_opened m (new_assignments ids 0 users))))
        × (m.is_active ≡ true)
        × (m.meeting_id ≡ ids.next_meeting)
  unfolding create_new_meeting open_meeting
  create_new_meeting_lem ids context purpose users state leads passes =
      elim (Option-cases (find (λ a. is_facilitator a.role) (new_assignments ids 0 users))) [
        | inl e ↦
            let (u, only, _) =
              (request_of_valid (trim purpose) context.user_id users passes).leader in
            absurd (cc (only, no_facilitator ids 0 users e))
        | inr (leader, e) ↦ rw leads (rw passes (rw e (_, refl, refl, refl)))
      ]

  -- The creation of a meeting returns a result, or throws what the repository threw when the meeting and
  -- its assignments were written: the error for a lost facilitator is never thrown.
  pub create_new_meeting_total :
      (ids : MeetingIds) (context : UserAuthorizationContext) (purpose : String)
      (users : List MeetingUser) (state : S)
      → ((out : S × CreateMeetingResult) × (create_new_meeting meetings ids context purpose users
              state
            ≡ ok out))
        ⊎ ((m : MeetingRecord) × (fault : Fault) × (meetings.create_with_assignments state m
                (new_assignments ids 0 users)
              ≡ err fault)
            × (create_new_meeting meetings ids context purpose users state ≡ err fault))
  unfolding create_new_meeting
  create_new_meeting_total ids context purpose users state =
      elim (Bool-cases (is_facilitator context.role)) [
        | inl leads ↦ elim (Bool-cases (is_invalid_meeting (trim purpose) users context.user_id)) [
          | inl invalid ↦
              inl ((state, creation_invalid), rw (create_new_meeting, leads, invalid) refl)
          | inr passes ↦
              let (m, e, opened, id) =
                create_new_meeting_lem ids context purpose users state leads passes in
              elim (Result-cases
                (meetings.create_with_assignments state m (new_assignments ids 0 users))) [
                  | inl (done, w) ↦
                      inl ((done, meeting_opened m (new_assignments ids 0 users)), e ∙ rw w refl)
                  | inr (fault, w) ↦ inr (m, fault, w, e ∙ rw w refl)
                ]
        ]
        | inr follows ↦ inl ((state, creation_forbidden), rw (create_new_meeting, follows) refl)
      ]

  -- What a request that opened a meeting was, and what was written.
  record IsOpening (ids : MeetingIds) (context : UserAuthorizationContext) (purpose : String)
      (users : List MeetingUser) (state later : S) (m : MeetingRecord)
      (people : List AssignmentRecord) : Type 0 where
    leads : is_facilitator context.role ≡ true
    asked : IsMeetingRequest (trim purpose) users context.user_id
    written : meetings.create_with_assignments state m people ≡ ok later
    assigned : new_assignments ids 0 users ≡ people
    opened : m.is_active ≡ true
    id : m.meeting_id ≡ ids.next_meeting

  create_new_meeting-IsOpening :
      (ids : MeetingIds) (context : UserAuthorizationContext) (purpose : String)
      (users : List MeetingUser) (state later : S) (m : MeetingRecord)
      (people : List AssignmentRecord)
      → create_new_meeting meetings ids context purpose users state
        ≡ ok (later, meeting_opened m people)
      → IsOpening ids context purpose users state later m people
  create_new_meeting-IsOpening ids context purpose users state later m people h =
      elim (Bool-cases (is_facilitator context.role)) [
        | inr e ↦ absurd (unfold create_new_meeting in ground (arith, e))
        | inl leads ↦ elim (Bool-cases (is_invalid_meeting (trim purpose) users context.user_id)) [
          | inl e ↦ absurd (unfold create_new_meeting in ground (arith, leads, e))
          | inr passes ↦
              let (n, e, opened, id) =
                create_new_meeting_lem ids context purpose users state leads passes in
              let (done, written, out) =
                >>=-eq-ok (meetings.create_with_assignments state n (new_assignments ids 0 users))
                  (λ done. ok (done, meeting_opened n (new_assignments ids 0 users))) (sym e ∙ h) in
              let same : n ≡ m = cc out in
              let assigned : new_assignments ids 0 users ≡ people = cc out in
              record {
                leads = leads;
                asked = request_of_valid (trim purpose) context.user_id users passes;
                written = cc (written, out);
                assigned = assigned;
                opened = cc (opened, same);
                id = cc (id, same);
              }
        ]
      ]

  -- Who is assigned to an opened meeting joins it by its code.
  join_found_lem :
      (state : S) (m : MeetingRecord) (session user : String) (found : Option AssignmentRecord)
      → meetings.find_by_code state (trim m.code) ≡ ok (some m)
      → meetings.find_by_id state m.meeting_id ≡ ok (some m)
      → meetings.find_assignment state m.meeting_id user ≡ ok found
      → m.is_active ≡ true
      → ((a : AssignmentRecord) → found ≡ some a → a.is_active ≡ true)
      → (joined : JoinMeetingResult) × (join_meeting_by_code meetings state m.code session user
          ≡ ok joined)
        × (joined_role joined ≡ role_of found)
  unfolding join_meeting_by_code resolve_meeting_authorization user_authorization_context
  join_found_lem state m session user none coded there assigned opened actives =
      rw coded (rw opened (rw there (rw assigned (join_forbidden, refl, refl))))
  join_found_lem state m session user (some a) coded there assigned opened actives =
      rw coded
        (rw opened (rw there (rw assigned (rw opened (rw (actives a refl) (_, refl, refl))))))

  -- If the repository finds what was written, then a request that opens a meeting is a facilitator's,
  -- has a purpose and three to eight different users of whom only the one who asks is a facilitator,
  -- and if the code of the meeting has no blanks around it, whoever joins by it, with a user id that is
  -- not empty, gets an answer and is let in exactly if the request names the user, under the role that
  -- it gives.
  pub created_joins :
      (Good : S → Type 0) (ids : MeetingIds) (context : UserAuthorizationContext) (purpose : String)
      (users : List MeetingUser) (state later : S) (m : MeetingRecord)
      (people : List AssignmentRecord) (session user : String)
      → IsMeetingRepository meetings Good
      → Good state
      → create_new_meeting meetings ids context purpose users state
        ≡ ok (later, meeting_opened m people)
      → trim m.code ≡ m.code
      → user ≢ ""
      → (is_facilitator context.role ≡ true)
        × IsMeetingRequest (trim purpose) users context.user_id
        × ((joined : JoinMeetingResult) × (join_meeting_by_code meetings later m.code session user
              ≡ ok joined)
            × (joined_role joined ≡ requested_role user users))
  created_joins Good ids context purpose users state later m people session user law good created
        trimmed given =
      let i = create_new_meeting-IsOpening ids context purpose users state later m people created in
      let new = new_assignments ids 0 users in
      let by_user : meetings.find_assignment later m.meeting_id user
          ≡ ok (find (is_assigned ids.next_meeting user) new) =
        law.by_assignment state later m people user good i.written given
        ∙ ap (λ n. ok (find (is_assigned n user) people)) i.id
        ∙ ap (λ found. ok (find (is_assigned ids.next_meeting user) found)) (sym i.assigned) in
      let coded : meetings.find_by_code later (trim m.code) ≡ ok (some m) =
        rw trimmed (law.by_code state later m people i.written) in
      let (joined, e, role) =
        join_found_lem later m session user (find (is_assigned ids.next_meeting user) new) coded
          (law.by_id state later m people i.written) by_user i.opened
          (λ a e. found_is_active (is_assigned ids.next_meeting user) ids 0 users a e) in
      (i.leads, i.asked, (joined, e, role ∙ role_of-find ids 0 users user))
