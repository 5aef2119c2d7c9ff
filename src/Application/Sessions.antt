-- ===== src/Application/Sessions.antt =====
-- sessions.ts: login, authentication and logout over the repository of ports/src/repositories.ts.
pub mod Laws
use counterpoint_living_deci.Application.Authorization.{access_eq}
use counterpoint_living_deci.Base.{
  Bool, Option, Result, String, err, false, if◌then◌else◌, is_some, leb, nat_eq, none, not,
  not_iso_timestamp, ok, option_eq, some, string_eq, true, ℕ, ◌+◌, ◌==◌, ◌>>=◌, ◌>>◌, ◌||◌,
}
use counterpoint_living_deci.Entities.Common.{confirmation_eq, origin_eq, visibility_eq}
use counterpoint_living_deci.Entities.Decisions.{action_status_eq, status_eq, task_state_eq}
use counterpoint_living_deci.Entities.People.{capability_eq}
use counterpoint_living_deci.Values.Ids.{Timestamp}

abbrev pub session_inactivity_ms : ℕ
session_inactivity_ms = 7200000

abbrev pub session_absolute_ms : ℕ
session_absolute_ms = 28800000

pub record SessionRecord : Type 0 where
  pub absolute_expires_at : Timestamp
  pub created_at : Timestamp
  pub last_activity_at : Timestamp
  pub revoked_at : Option Timestamp
  pub session_id : String
  pub token_hash : String
  pub user_id : String

-- The operations of the interface, each of which may throw, on a state that the implementation
-- chooses.
pub record SessionRepository (S : Type 0) : Type 0 where
  pub find_by_id : S → String → Result (Option SessionRecord)
  pub find_by_token_hash : S → String → Result (Option SessionRecord)
  pub put : S → SessionRecord → Result S
  pub revoke : S → String → Timestamp → Result S
  pub touch : S → String → Timestamp → Result S

pub record IdentityRecord : Type 0 where
  pub active : Bool
  pub password_hash : String
  pub user_id : String

-- What a login takes from the ports: the clock, the next id, and a token that is issued.
pub record LoginPorts : Type 0 where
  pub find_by_user_id : String → Result (Option IdentityRecord)
  pub verify : String → String → Bool
  pub now : Timestamp
  pub next_id : String
  pub token_hash : String
  pub token_value : String

pub data SessionAuthenticationResult : Type 0 where
  authenticated : SessionRecord → SessionAuthenticationResult
  authentication_required session_expired : SessionAuthenticationResult

pub data LoginResult : Type 0 where
  logged_in : (bearer_token : String) (expires_at : Timestamp) (user_id : String) → LoginResult
  login_rejected : LoginResult

-- `parse` is `Date.parse` in milliseconds, `none` where it is not finite, and `iso` writes a time.
module _ (parse : Timestamp → Option ℕ) (iso : ℕ → Timestamp) where
  unfoldable pub timestamp_ms : Timestamp → Result ℕ
  timestamp_ms value = elim (parse value) [ none ↦ err not_iso_timestamp | some ms ↦ ok ms ]

  -- The right side of the `||`, which is computed only where its left side is false.
  unfoldable pub or_idle : ℕ → SessionRecord → Bool → Result Bool
  unfolding timestamp_ms
  or_idle now_ms session true = ok true
  or_idle now_ms session false = do
    last_ms ← timestamp_ms session.last_activity_at
    ok (leb (last_ms + session_inactivity_ms) now_ms)

  unfoldable pub is_expired : Timestamp → SessionRecord → Result Bool
  unfolding or_idle
  is_expired now session = do
    now_ms ← timestamp_ms now
    absolute_ms ← timestamp_ms session.absolute_expires_at
    or_idle now_ms session (leb absolute_ms now_ms)

  module _ {S : Type 0} (sessions : SessionRepository S) where
    unfoldable pub authenticate_active :
        S → Timestamp → SessionRecord → Bool → Result (S × SessionAuthenticationResult)
    authenticate_active state now session touch_activity = do
      is_over ← is_expired now session
      (if is_over
          then (sessions.revoke state session.session_id now >>= λ done. ok (done, session_expired))
          else if touch_activity
          then (sessions.touch state session.session_id now >>= λ done.
              ok (done, authenticated (record session { last_activity_at = now })))
          else ok (state, authenticated session))

    unfoldable pub authenticate_stored_session :
        S → Timestamp → Option SessionRecord → Bool → Result (S × SessionAuthenticationResult)
    unfolding authenticate_active
    authenticate_stored_session state now none touch_activity = ok (state, authentication_required)
    authenticate_stored_session state now (some session) touch_activity =
        if is_some session.revoked_at
        then ok (state, authentication_required)
        else authenticate_active state now session touch_activity

    unfoldable pub authenticate_session :
        (String → String) → S → Timestamp → String → Result (S × SessionAuthenticationResult)
    authenticate_session digest state now bearer_token =
        if bearer_token == "" then ok (state, authentication_required) else (do
          session ← sessions.find_by_token_hash state (digest bearer_token)
          authenticate_stored_session state now session true)

    unfoldable pub authenticate_session_by_id :
        S → Timestamp → String → Bool → Result (S × SessionAuthenticationResult)
    authenticate_session_by_id state now session_id touch_activity =
        if session_id == "" then ok (state, authentication_required) else (do
          session ← sessions.find_by_id state session_id
          authenticate_stored_session state now session touch_activity)

    -- Ends a session that was found and is not revoked.
    abbrev pub end_session : S → Timestamp → Option SessionRecord → Result S
    end_session state now none = ok state
    end_session state now (some session) =
        if is_some session.revoked_at
        then ok state
        else sessions.revoke state session.session_id now

    unfoldable pub logout : (String → String) → S → Timestamp → String → Result S
    logout digest state now bearer_token = do
      session ← sessions.find_by_token_hash state (digest bearer_token)
      end_session state now session

    -- The session of a login.
    abbrev pub new_session : LoginPorts → String → ℕ → SessionRecord
    new_session ports user now_ms = record {
      absolute_expires_at = iso (now_ms + session_absolute_ms);
      created_at = ports.now;
      last_activity_at = ports.now;
      revoked_at = none;
      session_id = ports.next_id;
      token_hash = ports.token_hash;
      user_id = user;
    }

    abbrev pub start_session : LoginPorts → S → IdentityRecord → ℕ → Result (S × LoginResult)
    start_session ports state identity now_ms = do
      done ← sessions.put state (new_session ports identity.user_id now_ms)
      ok (done, logged_in ports.token_value (iso (now_ms + session_absolute_ms)) identity.user_id)

    abbrev pub login_as : LoginPorts → S → String → Option IdentityRecord → Result (S × LoginResult)
    login_as ports state password none = ok (state, login_rejected)
    login_as ports state password (some identity) =
        if not identity.active || not (ports.verify password identity.password_hash)
        then ok (state, login_rejected)
        else (do now_ms ← timestamp_ms ports.now; start_session ports state identity now_ms)

    unfoldable pub login : LoginPorts → S → String → String → Result (S × LoginResult)
    login ports state password user_id = do
      identity ← ports.find_by_user_id user_id
      login_as ports state password identity
