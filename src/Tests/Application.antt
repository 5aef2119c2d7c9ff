-- ===== src/Tests/Application.antt =====
-- Requests of users and displays: runs of `authorize`, and the theorems applied to them.
use counterpoint_living_deci.Application.Authorization.{
  AuthorizationRequest, DisplayAuthorizationContext, UserInput, access_eq, authorize, authorized,
  capabilities_for_role, decision_commit, display_context, forbidden, meeting_read, out_of_meeting,
  out_of_owner, user_authorization_context, user_context,
}
use counterpoint_living_deci.Application.Authorization.Policy.{
  IsGranted, IsOwner, authorize_display_iff, authorize_user_iff,
}
use counterpoint_living_deci.Application.Sessions.{
  IdentityRecord, LoginPorts, SessionRecord, authenticate_active, authenticate_session,
  authenticate_stored_session, authenticated, authentication_required, is_expired, logged_in, login,
  logout, or_idle, timestamp_ms,
}
use counterpoint_living_deci.Application.Sessions.Laws.{expiry_ends, login_accepted, logout_ends}
use counterpoint_living_deci.Base.{
  ==_iff, List, Option, String, [], any, arith, find, if◌then◌else◌, nat_eq, none, ok, option_eq,
  refl, some, string_eq, true, ℕ, ◌==◌, ◌↔◌, ◌∷◌, ◌≡◌, ◌≢◌,
}
use counterpoint_living_deci.Base.Members.{contains}
use counterpoint_living_deci.Entities.Common.{confirmation_eq, origin_eq, visibility_eq}
use counterpoint_living_deci.Entities.Decisions.{action_status_eq, status_eq, task_state_eq}
use counterpoint_living_deci.Entities.People.{capability_eq, facilitator, participant}
use counterpoint_living_deci.Store.Accounts.{
  Accounts, find_session_by_hash, find_user, insert_session, is_user, put_session, revoke_session,
  sqlite_sessions,
}
use counterpoint_living_deci.Store.Accounts.Sessions.{
  sqlite_sessions-IsRevoking, sqlite_sessions-IsStoring,
}
use counterpoint_living_deci.Store.Projections.{key_eq, kind_eq}
use counterpoint_living_deci.Store.Sqlite.Tables.{require_non_empty}
use counterpoint_living_deci.Values.Ids.{Timestamp}

abbrev ann : UserInput
ann = record {
  meeting_id = "m";
  participant_id = "ann";
  role = facilitator;
  session_id = "s";
  user_id = "u";
}

abbrev screen : DisplayAuthorizationContext
screen = record { reads_meeting = true; display_token_id = "t"; meeting_id = "m" }

abbrev commitment : AuthorizationRequest
commitment = record { capability = decision_commit; meeting_id = "m"; owner_participant_id = none }

abbrev reading : AuthorizationRequest
reading = record commitment { capability = meeting_read }

authorize_tests :
    (authorize (user_context (user_authorization_context ann none)) commitment ≡ authorized)
    × (authorize
          (user_context (user_authorization_context (record ann { role = participant }) none))
          commitment
        ≡ forbidden)
    × (authorize
          (user_context (user_authorization_context ann none))
          (record commitment { owner_participant_id = some "bob" })
        ≡ out_of_owner)
    × (authorize (display_context screen) reading ≡ authorized)
    × (authorize (display_context screen) (record reading { meeting_id = "n" }) ≡ out_of_meeting)
unfolding authorize user_authorization_context capabilities_for_role contains
authorize_tests = (refl, refl, refl, refl, refl)

authorize_user_iff_example :
    (authorize (user_context (user_authorization_context ann none)) commitment ≡ authorized) ↔ (
      (ann.meeting_id ≡ commitment.meeting_id)
      × IsOwner none ann.participant_id
      × IsGranted none ann.user_id facilitator decision_commit)
authorize_user_iff_example = authorize_user_iff ann none commitment

authorize_display_iff_example : (authorize (display_context screen) reading ≡ authorized) ↔ (
    (screen.meeting_id ≡ reading.meeting_id)
    × (reading.owner_participant_id ≡ none)
    × (screen.reads_meeting ≡ true)
    × (reading.capability ≡ meeting_read))
authorize_display_iff_example = authorize_display_iff screen reading

-- A clock with four times, and the tables of one user as the repository.
abbrev iso : ℕ → Timestamp
iso n = if n == 28800001 then "end" else "early"

abbrev parse : Timestamp → Option ℕ
parse t =
    if t == "x"
    then some 1
    else if t == "xx"
    then some 2
    else if t == "xxx"
    then some 3
    else if t == "end"
    then some 28800001
    else none

abbrev registered : IdentityRecord
registered = record { active = true; password_hash = "p"; user_id = "u" }

-- The tables with one user and these sessions.
abbrev with_sessions : List SessionRecord → Accounts
with_sessions sessions = record {
  users = registered ∷ [];
  sessions = sessions;
  meetings = [];
  participant_assignments = [];
}

abbrev ports : LoginPorts
ports = record {
  find_by_user_id = find_user (with_sessions []);
  verify = λ password hash. password == hash;
  now = "x";
  next_id = "s";
  token_hash = "t";
  token_value = "t";
}

abbrev digest : String → String
digest token = token

abbrev open_session : SessionRecord
open_session = record {
  absolute_expires_at = iso 28800001;
  created_at = "x";
  last_activity_at = "x";
  revoked_at = none;
  session_id = "s";
  token_hash = "t";
  user_id = "u";
}

login_test :
    login parse iso sqlite_sessions ports (with_sessions []) "p" "u"
    ≡ ok (with_sessions (open_session ∷ []), logged_in "t" (iso 28800001) "u")
unfolding login timestamp_ms find_user put_session insert_session require_non_empty is_user any find
login_test = refl

abbrev token : String
token = "t"

token_is_full : token ≢ ""
token_is_full e = ground (arith, (==_iff token "").1 e)

abbrev next_time : Timestamp
next_time = "xx"

next_time_is_full : next_time ≢ ""
next_time_is_full e = ground (arith, (==_iff next_time "").1 e)

login_accepted_example :
    (next : Accounts) × (session : SessionRecord) × (authenticate_session parse iso sqlite_sessions
        digest
        (with_sessions (open_session ∷ []))
        next_time
        token
      ≡ ok (next, authenticated session))
    × (session.user_id ≡ "u")
    × (session.last_activity_at ≡ next_time)
login_accepted_example =
    login_accepted parse iso sqlite_sessions digest ports (with_sessions [])
      (with_sessions (open_session ∷ [])) "p" "u" token "u" (iso 28800001) next_time 1 2
      sqlite_sessions-IsStoring refl refl refl (omega arith) next_time_is_full refl token_is_full
      login_test

abbrev left_session : SessionRecord
left_session = record open_session { revoked_at = some "xx" }

logout_ends_example :
    authenticate_session parse iso sqlite_sessions digest
      (with_sessions (left_session ∷ []))
      "xxx"
      token
    ≡ ok (with_sessions (left_session ∷ []), authentication_required)
unfolding logout find_session_by_hash revoke_session require_non_empty find
logout_ends_example =
    logout_ends parse iso sqlite_sessions digest (with_sessions (open_session ∷ []))
      (with_sessions (left_session ∷ [])) "xx" "xxx" token sqlite_sessions-IsRevoking refl

-- A session whose last activity is at the end of its time.
abbrev old_session : SessionRecord
old_session = record open_session { absolute_expires_at = "x" }

abbrev ended_session : SessionRecord
ended_session = record old_session { revoked_at = some "xx" }

expiry_ends_example :
    authenticate_session parse iso sqlite_sessions digest
      (with_sessions (ended_session ∷ []))
      "xxx"
      token
    ≡ ok (with_sessions (ended_session ∷ []), authentication_required)
unfolding authenticate_session authenticate_stored_session authenticate_active is_expired or_idle
    timestamp_ms find_session_by_hash revoke_session require_non_empty find
expiry_ends_example =
    expiry_ends parse iso sqlite_sessions digest (with_sessions (old_session ∷ []))
      (with_sessions (ended_session ∷ [])) "xx" "xxx" token sqlite_sessions-IsRevoking refl
