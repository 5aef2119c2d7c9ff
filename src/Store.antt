-- ===== src/Store.antt =====
-- packages/ports/src/event-store.ts: the interface of an event store, and what its clients rely on.
pub mod Sqlite
pub mod Projections
pub mod Accounts
use counterpoint_living_deci.Base.{
  Bool, List, Option, Result, String, [], false, none, ok, some, true, ℕ, ◌++◌, ◌+◌, ◌∷◌, ◌≡◌, ◌≢◌,
}
use counterpoint_living_deci.Values.{Number, to_ℕ}

pub record EventRecord (E : Type 0) : Type 0 where
  pub event : E
  pub position : ℕ

pub record AppendEventsRequest (E : Type 0) : Type 0 where
  pub events : List E
  pub expected_position : Option Number
  pub idempotency_key : Option String
  pub meeting_id : String
  pub payload_fingerprint : Option String
  pub trust_payload_fingerprint_for_replay : Bool

-- `AppendEventsResult` and `AppendEventsFailure`.
pub data AppendOutcome (E : Type 0) : Type 0 where
  appended : List (EventRecord E) → AppendOutcome E
  replayed : List (EventRecord E) → AppendOutcome E
  position_conflict : (actual : ℕ) (expected : Number) → AppendOutcome E
  idempotency_conflict : String → AppendOutcome E

-- The operations, on a state that the implementation chooses. An operation that throws returns no
-- state: the caller keeps the one that it had.
pub record EventStore (S E : Type 0) : Type 0 where
  pub append : S → AppendEventsRequest E → Result (S × AppendOutcome E)
  pub load : S → String → Option Number → Result (List (EventRecord E))
  pub position : S → String → Result ℕ

-- The events at the positions that follow `last`.
abbrev pub number : {E : Type 0} → ℕ → List E → List (EventRecord E)
number last [] = []
number last (e ∷ es) = record { event = e; position = last + 1 } ∷ number (last + 1) es

abbrev pub is_appended : {E : Type 0} → AppendOutcome E → Bool
is_appended (appended _) = true
is_appended _ = false

-- What an append that adds events does to the state, and what it asks of it.
pub record Appends {S E : Type 0} (store : EventStore S E) (s s' : S)
    (request : AppendEventsRequest E) (records : List (EventRecord E)) : Type 0 where
  pub last : ℕ
  pub before : List (EventRecord E)
  pub position_before : store.position s request.meeting_id ≡ ok last
  pub records_lem : records ≡ number last request.events
  pub load_before : store.load s request.meeting_id none ≡ ok before
  pub load_after : store.load s' request.meeting_id none ≡ ok (before ++ records)
  pub expected : (v : Number) → request.expected_position ≡ some v → to_ℕ v ≡ last
  pub others : (m : String) → m ≢ request.meeting_id → store.load s' m none ≡ store.load s m none

-- The contract of a store on the states that `Good` admits.
pub record IsEventStore {S E : Type 0} (store : EventStore S E) (Good : S → Type 0) : Type 0 where
  pub append-Good :
      (s s' : S) (request : AppendEventsRequest E) (outcome : AppendOutcome E)
      → Good s
      → store.append s request ≡ ok (s', outcome)
      → Good s'
  pub append_appends :
      (s s' : S) (request : AppendEventsRequest E) (records : List (EventRecord E))
      → Good s
      → store.append s request ≡ ok (s', appended records)
      → Appends store s s' request records
  pub append_unchanged :
      (s s' : S) (request : AppendEventsRequest E) (outcome : AppendOutcome E)
      → Good s
      → store.append s request ≡ ok (s', outcome)
      → is_appended outcome ≡ false
      → s' ≡ s
