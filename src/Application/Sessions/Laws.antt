-- ===== src/Application/Sessions/Laws.antt =====
-- About sessions that were opened, ended or expired, over a repository that keeps what is put into it.
use counterpoint_living_deci.Application.Authorization.{access_eq}
use counterpoint_living_deci.Application.Sessions.{
  LoginPorts, SessionRecord, SessionRepository, authenticate_active, authenticate_session,
  authenticate_stored_session, authenticated, authentication_required, is_expired, logged_in, login,
  logout, new_session, or_idle, session_absolute_ms, session_expired, session_inactivity_ms,
  timestamp_ms,
}
use counterpoint_living_deci.Base.{
  ==_iff, Bool-cases, Option, Result-cases, String, arith, false, inl, inr, is_some, nat_eq, none,
  ok, option_eq, refl, some, string_eq, true, ℕ, ◌+◌, ◌<◌, ◌≡◌, ◌≢◌,
}
use counterpoint_living_deci.Entities.Common.{confirmation_eq, origin_eq, visibility_eq}
use counterpoint_living_deci.Entities.Decisions.{action_status_eq, status_eq, task_state_eq}
use counterpoint_living_deci.Entities.People.{capability_eq}
use counterpoint_living_deci.Values.Ids.{Timestamp}

-- The session with the token is there, and it is revoked.
pub record IsEnded {S : Type 0} (sessions : SessionRepository S) (state : S) (hash : String)
    : Type 0 where
  pub session : SessionRecord
  pub found : sessions.find_by_token_hash state hash ≡ ok (some session)
  pub revoked : is_some session.revoked_at ≡ true

-- A session that was revoked is found as such.
pub record IsRevoking {S : Type 0} (sessions : SessionRepository S) : Type 0 where
  pub revokes :
      (state state' : S) (hash : String) (session : SessionRecord) (at : Timestamp)
      → sessions.find_by_token_hash state hash ≡ ok (some session)
      → sessions.revoke state session.session_id at ≡ ok state'
      → IsEnded sessions state' hash

-- A session that was put is found by its token and can be touched.
pub record IsStoring {S : Type 0} (sessions : SessionRepository S) : Type 0 where
  pub stores :
      (state state' : S) (session : SessionRecord)
      → sessions.put state session ≡ ok state'
      → sessions.find_by_token_hash state' session.token_hash ≡ ok (some session)
  pub touches :
      (state state' : S) (session : SessionRecord) (at : Timestamp)
      → sessions.put state session ≡ ok state'
      → at ≢ ""
      → (next : S) × (sessions.touch state' session.session_id at ≡ ok next)

module _ (parse : Timestamp → Option ℕ) (iso : ℕ → Timestamp) {S : Type 0}
    (sessions : SessionRepository S) (digest : String → String) where
  refuses_ended :
      (state : S) (later : Timestamp) (token : String)
      → IsEnded sessions state (digest token)
      → authenticate_session parse iso sessions digest state later token
        ≡ ok (state, authentication_required)
  unfolding authenticate_session authenticate_stored_session
  refuses_ended state later token v = ground (arith, v.found, v.revoked)

  -- If revoked sessions are found as revoked, then after a logout that returns its token is refused at
  -- any time, and the refusal changes nothing.
  pub logout_ends :
      (state state' : S) (now later : Timestamp) (token : String)
      → IsRevoking sessions
      → logout parse iso sessions digest state now token ≡ ok state'
      → authenticate_session parse iso sessions digest state' later token
        ≡ ok (state', authentication_required)
  logout_ends state state' now later token v h =
      elim (Result-cases (sessions.find_by_token_hash state (digest token))) [
        | inr (f, e) ↦ absurd (unfold logout in ground (arith, e))
        | inl (none, e) ↦
            let same : state ≡ state' = unfold logout in ground (arith, e) in
            let there : sessions.find_by_token_hash state' (digest token) ≡ ok none =
              rw (← same) e in
            unfold authenticate_session authenticate_stored_session in ground (arith, there)
        | inl (some session, e) ↦
            refuses_ended state' later token (elim (Bool-cases (is_some session.revoked_at)) [
              | inl r ↦
                  let same : state ≡ state' = unfold logout in ground (arith, e, r) in
                  record { session = session; found = rw (← same) e; revoked = r }
              | inr r ↦
                  v.revokes state state' (digest token) session now e
                    (unfold logout in ground (arith, e, r))
            ])
      ]

  expired_state :
      (state state' : S) (now : Timestamp) (token : String) (session : SessionRecord)
      → sessions.find_by_token_hash state (digest token) ≡ ok (some session)
      → authenticate_session parse iso sessions digest state now token
        ≡ ok (state', session_expired)
      → sessions.revoke state session.session_id now ≡ ok state'
  unfolding authenticate_session authenticate_stored_session authenticate_active
  expired_state state state' now token session e h =
      elim (Result-cases (is_expired parse iso now session)) [
        | inl (over, g) ↦ ground (arith, e, g)
        | inr (f, g) ↦ absurd (ground (arith, e, g))
      ]

  -- If revoked sessions are found as revoked, then the token of a session that was found to be over is
  -- refused from then on, at any time, and the refusal changes nothing.
  pub expiry_ends :
      (state state' : S) (now later : Timestamp) (token : String)
      → IsRevoking sessions
      → authenticate_session parse iso sessions digest state now token
        ≡ ok (state', session_expired)
      → authenticate_session parse iso sessions digest state' later token
        ≡ ok (state', authentication_required)
  expiry_ends state state' now later token v h =
      elim (Result-cases (sessions.find_by_token_hash state (digest token))) [
        | inr (f, e) ↦ absurd (unfold authenticate_session in ground (arith, e))
        | inl (none, e) ↦
            absurd (unfold authenticate_session authenticate_stored_session in ground (arith, e))
        | inl (some session, e) ↦ refuses_ended state' later token (
            v.revokes state state' (digest token) session now e
              (expired_state state state' now token session e h))
      ]

  logged_in_state :
      (ports : LoginPorts) (state state' : S) (password user token uid : String)
      (expiry : Timestamp) (n : ℕ)
      → parse ports.now ≡ some n
      → login parse iso sessions ports state password user ≡ ok (state', logged_in token expiry uid)
      → (sessions.put state (new_session parse iso sessions ports uid n) ≡ ok state')
        × (token ≡ ports.token_value)
  unfolding login timestamp_ms
  logged_in_state ports state state' password user token uid expiry n g h =
      elim (Result-cases (ports.find_by_user_id user)) [
        | inr (f, e) ↦ absurd (ground (arith, e))
        | inl (none, e) ↦ absurd (ground (arith, e))
        | inl (some identity, e) ↦
            elim (Result-cases
              (sessions.put state (new_session parse iso sessions ports identity.user_id n))) [
                | inl (done, p) ↦ ground (arith, e, g, p)
                | inr (f, p) ↦ absurd (ground (arith, e, g, p))
              ]
      ]

  still_open :
      (ports : LoginPorts) (uid : String) (later : Timestamp) (n m : ℕ)
      → parse (iso (n + session_absolute_ms)) ≡ some (n + session_absolute_ms)
      → parse ports.now ≡ some n
      → parse later ≡ some m
      → m < n + session_inactivity_ms
      → is_expired parse iso later (new_session parse iso sessions ports uid n) ≡ ok false
  unfolding is_expired or_idle timestamp_ms
  still_open ports uid later n m p g k b = ground (arith, p, g, k)

  -- The first use of the token of a login is accepted, for the user who logged in, if it is less than
  -- two hours after the login, the token is not empty and is hashed as it was issued, the time of the
  -- use is not empty, all three times are read, the end of the session as it was written, and the
  -- repository finds and touches what is put into it.
  pub login_accepted :
      (ports : LoginPorts) (state state' : S) (password user token uid : String)
      (expiry : Timestamp) (later : Timestamp) (n m : ℕ)
      → IsStoring sessions
      → parse (iso (n + session_absolute_ms)) ≡ some (n + session_absolute_ms)
      → parse ports.now ≡ some n
      → parse later ≡ some m
      → m < n + session_inactivity_ms
      → later ≢ ""
      → digest ports.token_value ≡ ports.token_hash
      → ports.token_value ≢ ""
      → login parse iso sessions ports state password user ≡ ok (state', logged_in token expiry uid)
      → (next : S) × (session : SessionRecord) × (authenticate_session parse iso sessions digest
            state' later token
          ≡ ok (next, authenticated session))
        × (session.user_id ≡ uid)
        × (session.last_activity_at ≡ later)
  unfolding authenticate_session authenticate_stored_session authenticate_active
  login_accepted ports state state' password user token uid expiry later n m v p g k b full_time d t
        h =
      let session = new_session parse iso sessions ports uid n in
      let (put_in, token_same) =
        logged_in_state ports state state' password user token uid expiry n g h in
      let there : sessions.find_by_token_hash state' (digest token) ≡ ok (some session) =
        rw (token_same, d) (v.stores state state' session put_in) in
      let (next, touched) = v.touches state state' session later put_in full_time in
      let full = ==_iff token "" in
      (
        next,
        record session { last_activity_at = later },
        ground (arith, there, full, token_same, t, still_open ports uid later n m p g k b, touched),
        refl,
        refl,
      )
