-- ===== src/Store/Accounts/Meetings.antt =====
-- packages/adapters-node/src/repositories.ts: the repository of meetings over the tables.
pub mod Laws
use counterpoint_living_deci.Application.Authorization.{access_eq}
use counterpoint_living_deci.Application.Meetings.{
  AssignmentRecord, MeetingRecord, MeetingRepository,
}
use counterpoint_living_deci.Base.{
  Bool, List, Option, Result, String, [], any, constraint_violation, false, filter, find, length,
  ltb, nat_eq, not, ok, option_eq, string_eq, throw_if, type_error, ◌&&◌, ◌++◌, ◌==◌, ◌>>=◌, ◌>>◌,
  ◌||◌, ◌∷◌,
}
use counterpoint_living_deci.Base.Members.{contains}
use counterpoint_living_deci.Entities.Common.{confirmation_eq, origin_eq, visibility_eq}
use counterpoint_living_deci.Entities.Decisions.{action_status_eq, status_eq, task_state_eq}
use counterpoint_living_deci.Entities.People.{capability_eq, is_facilitator}
use counterpoint_living_deci.Store.Accounts.{Accounts, is_user}
use counterpoint_living_deci.Store.Projections.{key_eq, kind_eq}
use counterpoint_living_deci.Store.Sqlite.Tables.{require_non_empty}

-- The loop over the assignments, with the participants and users that it has seen.
unfoldable pub check_assignments :
    String → List String → List String → List AssignmentRecord → Result (Unit {0})
unfolding require_non_empty
check_assignments meeting_id participants users [] = ok tt
check_assignments meeting_id participants users (a ∷ rest) = do
  require_non_empty a.participant_id
  require_non_empty a.user_id
  throw_if (not (a.meeting_id == meeting_id)) type_error
  throw_if (not a.is_active) type_error
  throw_if (contains participants a.participant_id || contains users a.user_id) type_error
  check_assignments meeting_id (a.participant_id ∷ participants) (a.user_id ∷ users) rest

-- The facilitator among the assignments is the one whom the meeting names and who created it.
abbrev pub is_leader : MeetingRecord → List AssignmentRecord → Bool
is_leader meeting [] = false
is_leader meeting (a ∷ _) =
    a.participant_id == meeting.facilitator_participant_id
    && a.user_id == meeting.created_by_user_id

unfoldable pub validate_meeting_creation : MeetingRecord → List AssignmentRecord → Result (Unit {0})
unfolding require_non_empty check_assignments
validate_meeting_creation meeting assignments = do
  require_non_empty meeting.meeting_id
  require_non_empty meeting.code
  require_non_empty meeting.created_by_user_id
  require_non_empty meeting.facilitator_participant_id
  require_non_empty meeting.purpose
  throw_if (ltb (length assignments) 3 || ltb 8 (length assignments)) type_error
  check_assignments meeting.meeting_id [] [] assignments
  throw_if
      (not (length (filter (λ a. is_facilitator a.role) assignments) == 1)
        || not (is_leader meeting (filter (λ a. is_facilitator a.role) assignments)))
      type_error
  ok tt

-- `INSERT INTO meetings`, with its primary key, its other key and its reference to a user.
unfoldable pub insert_meeting : Accounts → MeetingRecord → Result Accounts
insert_meeting accounts meeting = do
  throw_if (any (λ m. m.meeting_id == meeting.meeting_id) accounts.meetings) constraint_violation
  throw_if (any (λ m. m.code == meeting.code) accounts.meetings) constraint_violation
  throw_if (not (is_user accounts meeting.created_by_user_id)) constraint_violation
  ok (record accounts { meetings = accounts.meetings ++ meeting ∷ [] })

-- `INSERT INTO participant_assignments`, with both keys and the references to a meeting and a user.
unfoldable pub insert_assignment : Accounts → AssignmentRecord → Result Accounts
insert_assignment accounts a = do
  throw_if
      (any (λ b. b.meeting_id == a.meeting_id && b.participant_id == a.participant_id)
        accounts.participant_assignments)
      constraint_violation
  throw_if
      (any (λ b. b.meeting_id == a.meeting_id && b.user_id == a.user_id)
        accounts.participant_assignments)
      constraint_violation
  throw_if (not (any (λ m. m.meeting_id == a.meeting_id) accounts.meetings)) constraint_violation
  throw_if (not (is_user accounts a.user_id)) constraint_violation
  ok (record accounts { participant_assignments = accounts.participant_assignments ++ a ∷ [] })

unfoldable pub insert_assignments : Accounts → List AssignmentRecord → Result Accounts
insert_assignments accounts [] = ok accounts
insert_assignments accounts (a ∷ rest) =
    insert_assignment accounts a >>= λ next. insert_assignments next rest

-- The transaction that throws returns no tables.
unfoldable pub create_sqlite_meeting :
    Accounts → MeetingRecord → List AssignmentRecord → Result Accounts
create_sqlite_meeting accounts meeting assignments = do
  validate_meeting_creation meeting assignments
  next ← insert_meeting accounts meeting
  insert_assignments next assignments

unfoldable pub find_assignment_row : Accounts → String → String → Result (Option AssignmentRecord)
unfolding require_non_empty
find_assignment_row accounts meeting_id user_id = do
  require_non_empty meeting_id
  require_non_empty user_id
  ok (
      find (λ a. a.meeting_id == meeting_id && a.user_id == user_id)
        accounts.participant_assignments)

unfoldable pub find_meeting_by_code : Accounts → String → Result (Option MeetingRecord)
unfolding require_non_empty
find_meeting_by_code accounts code = do
  require_non_empty code
  ok (find (λ m. m.code == code) accounts.meetings)

unfoldable pub find_meeting : Accounts → String → Result (Option MeetingRecord)
unfolding require_non_empty
find_meeting accounts meeting_id = do
  require_non_empty meeting_id
  ok (find (λ m. m.meeting_id == meeting_id) accounts.meetings)

-- `sort` stands for the order of the text columns.
module _ (sort_assignments : List AssignmentRecord → List AssignmentRecord)
    (sort_meetings : List MeetingRecord → List MeetingRecord) where
  unfoldable pub list_assignment_rows : Accounts → String → Result (List AssignmentRecord)
  unfolding require_non_empty
  list_assignment_rows accounts meeting_id = do
    require_non_empty meeting_id
    ok (
        sort_assignments
          (filter (λ a. a.meeting_id == meeting_id) accounts.participant_assignments))

  -- The join of the two tables on the meeting, where both are active.
  unfoldable pub list_assigned_rows : Accounts → String → Result (List MeetingRecord)
  unfolding require_non_empty
  list_assigned_rows accounts user_id = do
    require_non_empty user_id
    ok (
        sort_meetings (
          filter
            (λ m.
              m.is_active
              && any (λ a. a.meeting_id == m.meeting_id && (a.user_id == user_id && a.is_active))
                  accounts.participant_assignments)
            accounts.meetings))

  -- `SqliteMeetingRepository`.
  abbrev pub sqlite_meetings : MeetingRepository Accounts
  sqlite_meetings = record {
    create_with_assignments = create_sqlite_meeting;
    find_assignment = find_assignment_row;
    find_by_code = find_meeting_by_code;
    find_by_id = find_meeting;
    list_assignments = list_assignment_rows;
    list_assigned = list_assigned_rows;
  }
