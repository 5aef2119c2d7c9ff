-- ===== src/Tests/Meetings.antt =====
-- A meeting of three, in the tables of three users.
use counterpoint_living_deci.Application.Authorization.{UserAuthorizationContext, access_eq}
use counterpoint_living_deci.Application.Meetings.{
  AssignmentRecord, CreateMeetingResult, JoinMeetingResult, MeetingIds, MeetingRecord, MeetingUser,
  create_new_meeting, is_invalid_meeting, join_meeting_by_code, meeting_opened, new_assignments,
  open_meeting,
}
use counterpoint_living_deci.Application.Meetings.Laws.{
  IsMeetingRequest, create_new_meeting_total, created_joins, joined_role, requested_role,
}
use counterpoint_living_deci.Application.Sessions.{IdentityRecord}
use counterpoint_living_deci.Base.{
  ==_iff, Fault, List, String, [], any, arith, err, filter, find, if◌then◌else◌, nat_eq, ok,
  option_eq, refl, some, string_eq, true, ◌==◌, ◌∷◌, ◌≡◌, ◌≢◌, ◌⊎◌,
}
use counterpoint_living_deci.Base.Members.{contains}
use counterpoint_living_deci.Base.Unique.{is_unique}
use counterpoint_living_deci.Entities.Common.{confirmation_eq, origin_eq, visibility_eq}
use counterpoint_living_deci.Entities.Decisions.{action_status_eq, status_eq, task_state_eq}
use counterpoint_living_deci.Entities.People.{
  ParticipantRole, capability_eq, facilitator, participant,
}
use counterpoint_living_deci.Store.Accounts.{Accounts, is_user}
use counterpoint_living_deci.Store.Accounts.Meetings.{
  check_assignments, create_sqlite_meeting, insert_assignment, insert_assignments, insert_meeting,
  sqlite_meetings, validate_meeting_creation,
}
use counterpoint_living_deci.Store.Accounts.Meetings.Laws.{
  HasMeetings, sqlite_meetings-IsMeetingRepository,
}
use counterpoint_living_deci.Store.Projections.{key_eq, kind_eq}
use counterpoint_living_deci.Store.Sqlite.Tables.{require_non_empty}
use counterpoint_living_deci.Values.{trim}

abbrev registered : String → IdentityRecord
registered user = record { active = true; password_hash = "p"; user_id = user }

-- The order of the text columns, on lists of at most one meeting.
abbrev by_participant : List AssignmentRecord → List AssignmentRecord
by_participant people = people

abbrev by_age : List MeetingRecord → List MeetingRecord
by_age meetings = meetings

abbrev three_registered : Accounts
three_registered = record {
  users = registered "ann" ∷ registered "bob" ∷ registered "eve" ∷ [];
  sessions = [];
  meetings = [];
  participant_assignments = [];
}

abbrev meeting_ids : MeetingIds
meeting_ids = record {
  next_meeting = "m";
  next_code = "code";
  next_participant = λ index. if index == 0 then "p-0" else if index == 1 then "p-1" else "p-2";
}

abbrev leading : UserAuthorizationContext
leading = record {
  capabilities = [];
  meeting_id = "lobby";
  participant_id = "p";
  role = facilitator;
  session_id = "s";
  user_id = "ann";
}

abbrev three_users : List MeetingUser
three_users =
    record { role = facilitator; user_id = "ann" }
    ∷ record { role = participant; user_id = "bob" }
    ∷ record { role = participant; user_id = "eve" }
    ∷ []

create_new_meeting_total_example :
    ((out : Accounts × CreateMeetingResult) × (create_new_meeting
          (sqlite_meetings by_participant by_age)
          meeting_ids
          leading
          " Plan "
          three_users
          three_registered
        ≡ ok out))
    ⊎ ((m : MeetingRecord) × (fault : Fault) × (create_sqlite_meeting three_registered m
            (new_assignments meeting_ids 0 three_users)
          ≡ err fault)
        × (create_new_meeting
              (sqlite_meetings by_participant by_age)
              meeting_ids
              leading
              " Plan "
              three_users
              three_registered
            ≡ err fault))
create_new_meeting_total_example =
    create_new_meeting_total (sqlite_meetings by_participant by_age) meeting_ids leading " Plan "
      three_users three_registered

abbrev plan_meeting : MeetingRecord
plan_meeting = record {
  is_active = true;
  code = "code";
  created_by_user_id = "ann";
  facilitator_participant_id = "p-0";
  meeting_id = "m";
  purpose = "Plan";
}

abbrev place : String → ParticipantRole → String → AssignmentRecord
place participant_id role user = record {
  is_active = true;
  meeting_id = "m";
  participant_id = participant_id;
  role = role;
  user_id = user;
}

abbrev three_places : List AssignmentRecord
three_places =
    place "p-0" facilitator "ann"
    ∷ place "p-1" participant "bob"
    ∷ place "p-2" participant "eve"
    ∷ []

abbrev opened_accounts : Accounts
opened_accounts = record three_registered {
  meetings = plan_meeting ∷ [];
  participant_assignments = three_places;
}

create_test :
    create_new_meeting
      (sqlite_meetings by_participant by_age)
      meeting_ids
      leading
      " Plan "
      three_users
      three_registered
    ≡ ok (opened_accounts, meeting_opened plan_meeting three_places)
unfolding create_new_meeting is_invalid_meeting new_assignments open_meeting trim is_unique contains
    filter find create_sqlite_meeting validate_meeting_creation check_assignments require_non_empty
    insert_meeting insert_assignments insert_assignment is_user any
create_test = refl

abbrev bob : String
bob = "bob"

bob_is_full : bob ≢ ""
bob_is_full e = ground (arith, (==_iff bob "").1 e)

created_joins_example :
    (true ≡ true)
    × IsMeetingRequest (trim " Plan ") three_users "ann"
    × ((joined : JoinMeetingResult) × (join_meeting_by_code
            (sqlite_meetings by_participant by_age)
            opened_accounts
            "code"
            "s-2"
            bob
          ≡ ok joined)
        × (joined_role joined ≡ some participant))
unfolding trim requested_role
created_joins_example =
    created_joins (sqlite_meetings by_participant by_age) HasMeetings meeting_ids leading " Plan "
      three_users three_registered opened_accounts plan_meeting three_places "s-2" bob
      (sqlite_meetings-IsMeetingRepository by_participant by_age) tt create_test refl bob_is_full
