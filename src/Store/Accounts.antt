-- ===== src/Store/Accounts.antt =====
-- packages/adapters-node/src/repositories.ts: the tables of users, sessions and meetings, the lists of
-- their rows in the order of their insertion, and the repository of sessions over them.
pub mod Sessions
pub mod Meetings
use counterpoint_living_deci.Application.Authorization.{access_eq}
use counterpoint_living_deci.Application.Meetings.{AssignmentRecord, MeetingRecord}
use counterpoint_living_deci.Application.Sessions.{IdentityRecord, SessionRecord, SessionRepository}
use counterpoint_living_deci.Base.{
  Bool, List, Option, Result, String, [], any, constraint_violation, find, if◌then◌else◌, is_some,
  map, nat_eq, not, ok, option_eq, some, string_eq, throw_if, ◌&&◌, ◌++◌, ◌==◌, ◌>>=◌, ◌>>◌, ◌∷◌,
}
use counterpoint_living_deci.Entities.Common.{confirmation_eq, origin_eq, visibility_eq}
use counterpoint_living_deci.Entities.Decisions.{action_status_eq, status_eq, task_state_eq}
use counterpoint_living_deci.Entities.People.{capability_eq}
use counterpoint_living_deci.Store.Projections.{key_eq, kind_eq}
use counterpoint_living_deci.Store.Sqlite.Tables.{require_non_empty}
use counterpoint_living_deci.Values.Ids.{Timestamp}

pub record Accounts : Type 0 where
  pub users : List IdentityRecord
  pub sessions : List SessionRecord
  pub meetings : List MeetingRecord
  pub participant_assignments : List AssignmentRecord

-- `FOREIGN KEY … REFERENCES users(user_id)`.
unfoldable pub is_user : Accounts → String → Bool
is_user accounts user_id = any (λ u. u.user_id == user_id) accounts.users

-- `SqliteIdentityRepository`.
unfoldable pub find_user : Accounts → String → Result (Option IdentityRecord)
unfolding require_non_empty
find_user accounts user_id = do
  require_non_empty user_id
  ok (find (λ u. u.user_id == user_id) accounts.users)

unfoldable pub find_session : Accounts → String → Result (Option SessionRecord)
unfolding require_non_empty
find_session accounts session_id = do
  require_non_empty session_id
  ok (find (λ s. s.session_id == session_id) accounts.sessions)

unfoldable pub find_session_by_hash : Accounts → String → Result (Option SessionRecord)
unfolding require_non_empty
find_session_by_hash accounts token_hash = do
  require_non_empty token_hash
  ok (find (λ s. s.token_hash == token_hash) accounts.sessions)

-- `INSERT INTO sessions`, with its primary key, its other key and its reference to a user.
unfoldable pub insert_session : Accounts → SessionRecord → Result Accounts
insert_session accounts session = do
  throw_if (any (λ s. s.session_id == session.session_id) accounts.sessions) constraint_violation
  throw_if (any (λ s. s.token_hash == session.token_hash) accounts.sessions) constraint_violation
  throw_if (not (is_user accounts session.user_id)) constraint_violation
  ok (record accounts { sessions = accounts.sessions ++ session ∷ [] })

unfoldable pub put_session : Accounts → SessionRecord → Result Accounts
unfolding require_non_empty
put_session accounts session = do
  require_non_empty session.session_id
  require_non_empty session.token_hash
  require_non_empty session.user_id
  require_non_empty session.created_at
  require_non_empty session.last_activity_at
  require_non_empty session.absolute_expires_at
  insert_session accounts session

-- `SET revoked_at = COALESCE(revoked_at, ?) WHERE session_id = ?`.
abbrev pub with_revoked_at : String → Timestamp → SessionRecord → SessionRecord
with_revoked_at session_id at s =
    if s.session_id == session_id && not (is_some s.revoked_at)
    then record s { revoked_at = some at }
    else s

unfoldable pub revoke_session : Accounts → String → Timestamp → Result Accounts
unfolding require_non_empty
revoke_session accounts session_id at = do
  require_non_empty session_id
  require_non_empty at
  ok (record accounts { sessions = map (with_revoked_at session_id at) accounts.sessions })

-- `SET last_activity_at = ? WHERE session_id = ? AND revoked_at IS NULL`.
abbrev pub with_last_activity_at : String → Timestamp → SessionRecord → SessionRecord
with_last_activity_at session_id at s =
    if s.session_id == session_id && not (is_some s.revoked_at)
    then record s { last_activity_at = at }
    else s

unfoldable pub touch_session : Accounts → String → Timestamp → Result Accounts
unfolding require_non_empty
touch_session accounts session_id at = do
  require_non_empty session_id
  require_non_empty at
  ok (record accounts { sessions = map (with_last_activity_at session_id at) accounts.sessions })

-- `SqliteSessionRepository`.
abbrev pub sqlite_sessions : SessionRepository Accounts
sqlite_sessions = record {
  find_by_id = find_session;
  find_by_token_hash = find_session_by_hash;
  put = put_session;
  revoke = revoke_session;
  touch = touch_session;
}
