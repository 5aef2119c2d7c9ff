-- ===== src/Application/Meetings.antt =====
-- packages/application/src/meetings.ts: the creation of a meeting, and who is let into it, over the
-- interface of the meeting repository in packages/ports/src/repositories.ts.
pub mod Laws
use counterpoint_living_deci.Application.Authorization.{
  UserAuthorizationContext, access_eq, user_authorization_context,
}
use counterpoint_living_deci.Base.{
  Bool, List, Option, Result, String, [], err, false, filter, find, if◌then◌else◌, length,
  lost_facilitator, ltb, map, nat_eq, none, not, ok, option_eq, some, string_eq, true, ℕ, ◌+◌, ◌==◌,
  ◌>>=◌, ◌>>◌, ◌||◌, ◌∷◌,
}
use counterpoint_living_deci.Base.Unique.{is_unique}
use counterpoint_living_deci.Entities.Claims.{resolved}
use counterpoint_living_deci.Entities.Common.{confirmation_eq, origin_eq, visibility_eq}
use counterpoint_living_deci.Entities.Decisions.{action_status_eq, status_eq, task_state_eq}
use counterpoint_living_deci.Entities.People.{ParticipantRole, capability_eq, is_facilitator}
use counterpoint_living_deci.Store.Projections.{key_eq, kind_eq}
use counterpoint_living_deci.Values.{trim}

pub record MeetingRecord : Type 0 where
  pub is_active : Bool
  pub code : String
  pub created_by_user_id : String
  pub facilitator_participant_id : String
  pub meeting_id : String
  pub purpose : String

pub record AssignmentRecord : Type 0 where
  pub is_active : Bool
  pub meeting_id : String
  pub participant_id : String
  pub role : ParticipantRole
  pub user_id : String

-- The operations of the interface, each of which may throw, on a state that the implementation
-- chooses.
pub record MeetingRepository (S : Type 0) : Type 0 where
  pub create_with_assignments : S → MeetingRecord → List AssignmentRecord → Result S
  pub find_assignment : S → String → String → Result (Option AssignmentRecord)
  pub find_by_code : S → String → Result (Option MeetingRecord)
  pub find_by_id : S → String → Result (Option MeetingRecord)
  pub list_assignments : S → String → Result (List AssignmentRecord)
  pub list_assigned : S → String → Result (List MeetingRecord)

pub record MeetingUser : Type 0 where
  pub role : ParticipantRole
  pub user_id : String

-- The next ids; those of the participants are numbered.
pub record MeetingIds : Type 0 where
  pub next_meeting : String
  pub next_code : String
  pub next_participant : ℕ → String

pub data CreateMeetingResult : Type 0 where
  meeting_opened : MeetingRecord → List AssignmentRecord → CreateMeetingResult
  creation_forbidden creation_invalid : CreateMeetingResult

pub data MeetingAuthorization : Type 0 where
  meeting_authorized : UserAuthorizationContext → MeetingAuthorization
  meeting_forbidden : MeetingAuthorization

pub data JoinMeetingResult : Type 0 where
  meeting_joined : UserAuthorizationContext → MeetingRecord → JoinMeetingResult
  join_forbidden meeting_not_found : JoinMeetingResult

abbrev pub facilitators_of : List MeetingUser → List MeetingUser
facilitators_of users = filter (λ u. is_facilitator u.role) users

-- `facilitatorUsers[0]?.userId !== context.userId`.
abbrev pub is_first_user : List MeetingUser → String → Bool
is_first_user [] user = false
is_first_user (u ∷ _) user = u.user_id == user

-- The condition under which the input is rejected.
unfoldable pub is_invalid_meeting : String → List MeetingUser → String → Bool
is_invalid_meeting purpose users user =
    purpose == ""
    || ltb (length users) 3
    || ltb 8 (length users)
    || not (is_unique (map (λ u. u.user_id) users))
    || not (length (facilitators_of users) == 1)
    || not (is_first_user (facilitators_of users) user)

-- The callback of `input.users.map`, from the index `index` on.
unfoldable pub new_assignments : MeetingIds → ℕ → List MeetingUser → List AssignmentRecord
new_assignments ids index [] = []
new_assignments ids index (u ∷ users) =
    record {
      is_active = true;
      meeting_id = ids.next_meeting;
      participant_id = ids.next_participant index;
      role = u.role;
      user_id = u.user_id;
    }
    ∷ new_assignments ids (index + 1) users

module _ {S : Type 0} (meetings : MeetingRepository S) where
  unfoldable pub open_meeting :
      MeetingIds
      → UserAuthorizationContext
      → String
      → List AssignmentRecord
      → Option AssignmentRecord
      → S
      → Result (S × CreateMeetingResult)
  open_meeting ids context purpose assignments none state = err lost_facilitator
  open_meeting ids context purpose assignments (some leader) state =
      let meeting : MeetingRecord = record {
        is_active = true;
        code = ids.next_code;
        created_by_user_id = context.user_id;
        facilitator_participant_id = leader.participant_id;
        meeting_id = ids.next_meeting;
        purpose = purpose;
      } in
      meetings.create_with_assignments state meeting assignments >>= λ done.
      ok (done, meeting_opened meeting assignments)

  -- `createMeeting`.
  unfoldable pub create_new_meeting :
      MeetingIds
      → UserAuthorizationContext
      → String
      → List MeetingUser
      → S
      → Result (S × CreateMeetingResult)
  unfolding open_meeting new_assignments is_invalid_meeting
  create_new_meeting ids context purpose users state =
      if not (is_facilitator context.role)
      then ok (state, creation_forbidden)
      else if is_invalid_meeting (trim purpose) users context.user_id
      then ok (state, creation_invalid)
      else let assignments = new_assignments ids 0 users in
        open_meeting ids context (trim purpose) assignments
          (find (λ a. is_facilitator a.role) assignments) state

  abbrev pub list_assigned_meetings : S → String → Result (List MeetingRecord)
  list_assigned_meetings state user = meetings.list_assigned state user

  -- `!meeting?.active || !assignment?.active` on what was found.
  abbrev pub authorize_found :
      String
      → String
      → String
      → Option (List String)
      → Option MeetingRecord
      → Option AssignmentRecord
      → MeetingAuthorization
  authorize_found session user meeting_id judges (some meeting) (some assignment) =
      if not meeting.is_active || not assignment.is_active
      then meeting_forbidden
      else meeting_authorized (
          user_authorization_context
            (record {
              meeting_id = meeting_id;
              participant_id = assignment.participant_id;
              role = assignment.role;
              session_id = session;
              user_id = user;
            })
            judges)
  authorize_found session user meeting_id judges _ _ = meeting_forbidden

  unfoldable pub resolve_meeting_authorization :
      S → String → String → String → Option (List String) → Result MeetingAuthorization
  resolve_meeting_authorization state session user meeting_id judges = do
    meeting ← meetings.find_by_id state meeting_id
    assignment ← meetings.find_assignment state meeting_id user
    ok (authorize_found session user meeting_id judges meeting assignment)

  abbrev pub joined_or : MeetingRecord → MeetingAuthorization → JoinMeetingResult
  joined_or meeting (meeting_authorized context) = meeting_joined context meeting
  joined_or meeting meeting_forbidden = join_forbidden

  abbrev pub join_found : S → String → String → Option MeetingRecord → Result JoinMeetingResult
  join_found state session user none = ok meeting_not_found
  join_found state session user (some meeting) =
      if not meeting.is_active
      then ok meeting_not_found
      else (resolve_meeting_authorization state session user meeting.meeting_id none >>= λ resolved.
          ok (joined_or meeting resolved))

  unfoldable pub join_meeting_by_code : S → String → String → String → Result JoinMeetingResult
  unfolding resolve_meeting_authorization
  join_meeting_by_code state code session user = do
    meeting ← meetings.find_by_code state (trim code)
    join_found state session user meeting
