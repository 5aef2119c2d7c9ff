-- ===== src/Store/Accounts/Sessions.antt =====
-- About the repository of sessions over the tables, as the services of sessions.ts use it.
use counterpoint_living_deci.Application.Authorization.{access_eq}
use counterpoint_living_deci.Application.Sessions.{SessionRecord}
use counterpoint_living_deci.Application.Sessions.Laws.{IsEnded, IsRevoking, IsStoring}
use counterpoint_living_deci.Base.{
  ==_iff, Bool, Bool-cases, List, Option, String, [], any, ap, arith, false, find, inl, inr,
  is_some, map, nat_eq, ok, option_eq, refl, some, string_eq, true, ◌++◌, ◌==◌, ◌∷◌, ◌≡◌, ◌≢◌,
}
use counterpoint_living_deci.Entities.Common.{confirmation_eq, origin_eq, visibility_eq}
use counterpoint_living_deci.Entities.Decisions.{action_status_eq, status_eq, task_state_eq}
use counterpoint_living_deci.Entities.People.{capability_eq}
use counterpoint_living_deci.Store.Accounts.{
  Accounts, find_session_by_hash, insert_session, put_session, revoke_session, sqlite_sessions,
  touch_session, with_last_activity_at, with_revoked_at,
}
use counterpoint_living_deci.Store.Projections.{key_eq, kind_eq}
use counterpoint_living_deci.Store.Sqlite.Tables.{require_non_empty}
use counterpoint_living_deci.Values.Ids.{Timestamp}

-- A search for a row that an update does not affect finds the updated row.
pub find-map {ℓ} :
    {A : Type ℓ} (p : A → Bool) (f : A → A) (xs : List A) (a : A)
    → ((x : A) → p (f x) ≡ p x)
    → find p xs ≡ some a
    → find p (map f xs) ≡ some (f a)
unfolding find
find-map p f [] a same h = cc h
find-map p f (x ∷ xs) a same h = elim (Bool-cases (p x)) [
  | inl e ↦ let found : x ≡ a = ground (arith, e) in rw (same x) (rw e (ap (λ y. some (f y)) found))
  | inr e ↦ rw (same x) (rw e (find-map p f xs a same (ground (arith, e))))
]

pub find-last {ℓ} :
    {A : Type ℓ} (p : A → Bool) (xs : List A) (a : A)
    → any p xs ≡ false
    → p a ≡ true
    → find p (xs ++ a ∷ []) ≡ some a
unfolding find any
find-last p [] a h e = rw e refl
find-last p (x ∷ xs) a h e =
    let other : p x ≡ false = ground (arith, h) in rw other (find-last p xs a (ground (arith, h)) e)

with_revoked_at-hash :
    (id : String) (at : Timestamp) (s : SessionRecord)
    → (with_revoked_at id at s).token_hash ≡ s.token_hash
with_revoked_at-hash id at s = ground arith

with_revoked_at-revoked :
    (at : Timestamp) (s : SessionRecord)
    → is_some (with_revoked_at s.session_id at s).revoked_at ≡ true
with_revoked_at-revoked at s = ground (arith, ==_iff s.session_id s.session_id)

find_session_by_hash-eq-ok :
    (accounts : Accounts) (hash : String) (out : Option SessionRecord)
    → find_session_by_hash accounts hash ≡ ok out
    → ((hash == "") ≡ false) × (find (λ s. s.token_hash == hash) accounts.sessions ≡ out)
unfolding find_session_by_hash require_non_empty
find_session_by_hash-eq-ok accounts hash out h = ground arith

revoke_session-eq-ok :
    (accounts accounts' : Accounts) (id : String) (at : Timestamp)
    → revoke_session accounts id at ≡ ok accounts'
    → record accounts { sessions = map (with_revoked_at id at) accounts.sessions } ≡ accounts'
unfolding revoke_session require_non_empty
revoke_session-eq-ok accounts accounts' id at h = ground arith

-- What an insertion that succeeds did.
record IsPut (accounts : Accounts) (session : SessionRecord) (accounts' : Accounts) : Type 0 where
  id_given : (session.session_id == "") ≡ false
  hash_given : (session.token_hash == "") ≡ false
  hash_free : any (λ s. s.token_hash == session.token_hash) accounts.sessions ≡ false
  done : record accounts { sessions = accounts.sessions ++ session ∷ [] } ≡ accounts'

put_session-IsPut :
    (accounts accounts' : Accounts) (session : SessionRecord)
    → put_session accounts session ≡ ok accounts'
    → IsPut accounts session accounts'
unfolding put_session insert_session require_non_empty
put_session-IsPut accounts accounts' session h = ground arith

ends :
    (state state' : Accounts) (hash : String) (session : SessionRecord) (at : Timestamp)
    → find_session_by_hash state hash ≡ ok (some session)
    → revoke_session state session.session_id at ≡ ok state'
    → IsEnded sqlite_sessions state' hash
ends state state' hash session at found revoked =
    let (given, there) = find_session_by_hash-eq-ok state hash (some session) found in
    let f : SessionRecord → SessionRecord = with_revoked_at session.session_id at in
    let p : SessionRecord → Bool = λ s. s.token_hash == hash in
    let moved : find p (map f state.sessions) ≡ some (f session) =
      find-map p f state.sessions session
        (λ s. ap (λ h. h == hash) (with_revoked_at-hash session.session_id at s)) there in
    record {
      session = f session;
      found =
          rw (← revoke_session-eq-ok state state' session.session_id at revoked)
            (unfold find_session_by_hash require_non_empty in rw given (rw moved refl));
      revoked = with_revoked_at-revoked at session;
    }

stored :
    (state state' : Accounts) (session : SessionRecord)
    → IsPut state session state'
    → find_session_by_hash state' session.token_hash ≡ ok (some session)
unfolding find_session_by_hash require_non_empty
stored state state' session put =
    let p : SessionRecord → Bool = λ s. s.token_hash == session.token_hash in
    let own = (==_iff session.token_hash session.token_hash).1 refl in
    rw (← put.done)
      (rw put.hash_given (ap ok (find-last p state.sessions session put.hash_free own)))

touched :
    (state : Accounts) (session : SessionRecord) (at : Timestamp)
    → (session.session_id == "") ≡ false
    → at ≢ ""
    → (next : Accounts) × (touch_session state session.session_id at ≡ ok next)
unfolding touch_session require_non_empty
touched state session at given full =
    let filled : (at == "") ≡ false = ground (arith, ==_iff at "") in
    (
      record state { sessions = map (with_last_activity_at session.session_id at) state.sessions },
      rw (given, filled) refl,
    )

pub sqlite_sessions-IsRevoking : IsRevoking sqlite_sessions
sqlite_sessions-IsRevoking = record { revokes = ends }

pub sqlite_sessions-IsStoring : IsStoring sqlite_sessions
sqlite_sessions-IsStoring = record {
  stores = λ state state' session put.
      stored state state' session (put_session-IsPut state state' session put);
  touches = λ state state' session at put full.
      touched state' session at (put_session-IsPut state state' session put).id_given full;
}
