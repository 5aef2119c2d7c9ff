-- ===== src/Store/Sqlite.antt =====
-- packages/adapters-node/src/sqlite.ts: the event store over the tables.
pub mod Tables
pub mod Rows
pub mod Append
pub mod Outcomes
pub mod Returned
pub mod Invariant
pub mod Preserved
pub mod Lawful
pub mod Replay
pub mod Later
pub mod Total
use counterpoint_living_deci.Application.Authorization.{access_eq}
use counterpoint_living_deci.Base.{
  Bool, List, Option, Result, String, [], filter, if◌then◌else◌, incomplete_event_range, leb,
  length, ltb, nat_eq, none, not, ok, option_eq, range_error, require, some, string_eq, throw_if,
  traverse, ℕ, ◌&&◌, ◌+◌, ◌==◌, ◌>>=◌, ◌>>◌, ◌||◌, ◌∷◌,
}
use counterpoint_living_deci.Entities.Common.{confirmation_eq, origin_eq, visibility_eq}
use counterpoint_living_deci.Entities.Decisions.{action_status_eq, status_eq, task_state_eq}
use counterpoint_living_deci.Entities.People.{capability_eq}
use counterpoint_living_deci.Store.{
  AppendEventsRequest, AppendOutcome, EventRecord, EventStore, appended, position_conflict,
  replayed,
}
use counterpoint_living_deci.Store.Sqlite.Tables.{
  Database, EventRow, IdempotencyRow, JsonCodec, JsonTexts, after_of, conflicts_with, find_append,
  first_or, get_or, insert_append, insert_event, order_by_position, read_position, require_defined,
  require_non_empty, require_position, rest_of, rows_of,
}
use counterpoint_living_deci.Values.{Number, max_safe_integer}

module _ {E : Type 0} where
  -- The callback of `request.events.map`, over the events and their texts.
  unfoldable pub insert_events :
      (String → Bool)
      → String
      → Database
      → ℕ
      → List E
      → List String
      → Result (Database × List (EventRecord E))
  insert_events is_json meeting_id database position [] serialized = ok (database, [])
  insert_events is_json meeting_id database position (event ∷ events) serialized = do
    throw_if (not (leb (position + 1) max_safe_integer)) range_error
    next ← insert_event is_json database (record {
      meeting_id = meeting_id;
      payload_json = first_or "" serialized;
      position = position + 1;
    })
    rest ← insert_events is_json meeting_id next (position + 1) events (rest_of serialized)
    ok (rest.0, record { event = event; position = position + 1 } ∷ rest.1)

  -- `INSERT INTO event_appends`, where the request has a key.
  unfoldable pub note_append :
      (String → Bool)
      → AppendEventsRequest E
      → Option String
      → String
      → String
      → ℕ
      → ℕ
      → Database
      → Result Database
  unfolding insert_append
  note_append is_json request none fingerprint payloads position count database = ok database
  note_append is_json request (some key) fingerprint payloads position count database =
      insert_append is_json database (record {
        meeting_id = request.meeting_id;
        idempotency_key = key;
        event_count = count;
        event_payloads_json = payloads;
        first_position = position + 1;
        payload_fingerprint = fingerprint;
      })

module _ {E : Type 0} (json : JsonTexts) where
  -- The insertions, from the position `actual` on. `after_append` is the callback of that name.
  unfoldable pub append_at :
      (Database → Result Database)
      → AppendEventsRequest E
      → String
      → List String
      → ℕ
      → Database
      → Result (Database × AppendOutcome E)
  unfolding insert_events note_append
  append_at after_append request fingerprint serialized actual database = do
    inserted ←
        insert_events json.is_json request.meeting_id database actual request.events serialized
    noted ←
        note_append json.is_json request request.idempotency_key fingerprint
          (json.stringify serialized) actual (length inserted.1) inserted.0
    done ← after_append noted
    ok (done, appended inserted.1)

  -- The part of the transaction for a key that was not used, or without a key.
  unfoldable pub append_fresh :
      (Database → Result Database)
      → AppendEventsRequest E
      → String
      → List String
      → Database
      → Result (Database × AppendOutcome E)
  unfolding read_position append_at
  append_fresh after_append request fingerprint serialized database =
      let actual = read_position database request.meeting_id in
      elim (conflicts_with request.expected_position actual) [
        | some expected ↦ ok (database, position_conflict actual expected)
        | none ↦ append_at after_append request fingerprint serialized actual database
      ]

module _ {E : Type 0} (codec : JsonCodec E) where
  unfoldable pub read_row : EventRow → Result (EventRecord E)
  read_row row = do
    event ← codec.decode row.payload_json
    ok (record { event = event; position = row.position })

  unfoldable pub load_event_range : Database → String → ℕ → ℕ → Result (List (EventRecord E))
  unfolding read_row
  load_event_range database meeting_id first_position event_count =
      let rows = order_by_position (
        filter
          (λ row.
            leb first_position row.position && ltb row.position (first_position + event_count))
          (rows_of database meeting_id)) in
      require (length rows == event_count) incomplete_event_range >> traverse read_row rows

  -- The part for a key that a row holds.
  unfoldable pub append_again :
      AppendEventsRequest E
      → String
      → String
      → String
      → IdempotencyRow
      → Database
      → Result (Database × AppendOutcome E)
  unfolding load_event_range
  append_again request key fingerprint payloads previous database =
      if not (previous.payload_fingerprint == fingerprint)
        || (not request.trust_payload_fingerprint_for_replay
            && not (previous.event_payloads_json == payloads))
      then ok (database, AppendOutcome.idempotency_conflict key)
      else (do
        records ←
            load_event_range database request.meeting_id previous.first_position
              previous.event_count
        ok (database, replayed records))

  unfoldable pub load : Database → String → Option Number → Result (List (EventRecord E))
  unfolding read_row
  load database meeting_id after_position = do
    require_non_empty meeting_id
    require_defined require_position after_position
    traverse read_row (
        order_by_position (
          filter (λ row. ltb (after_of after_position) row.position) (rows_of database meeting_id)))

  module _ (json : JsonTexts) where
    unfoldable pub append_transaction :
        (Database → Result Database)
        → AppendEventsRequest E
        → Option String
        → String
        → List String
        → Database
        → Result (Database × AppendOutcome E)
    unfolding append_fresh append_again find_append
    append_transaction after_append request none fingerprint serialized database =
        append_fresh json after_append request fingerprint serialized database
    append_transaction after_append request (some key) fingerprint serialized database =
        elim (find_append database request.meeting_id key) [
          | some previous ↦
              append_again request key fingerprint (json.stringify serialized) previous database
          | none ↦ append_fresh json after_append request fingerprint serialized database
        ]

    unfoldable pub append_sqlite :
        (Database → Result Database)
        → Database
        → AppendEventsRequest E
        → Result (Database × AppendOutcome E)
    unfolding append_transaction
    append_sqlite after_append database request = do
      require_non_empty request.meeting_id
      require_defined require_position request.expected_position
      require_defined require_non_empty request.idempotency_key
      serialized ← traverse codec.encode request.events
      append_transaction after_append request request.idempotency_key
          (get_or request.payload_fingerprint (json.stringify serialized)) serialized database

    abbrev pub sqlite_event_store : EventStore Database E
    sqlite_event_store = record {
      append = append_sqlite (λ database. ok database);
      load = load;
      position = λ database meeting_id.
          require_non_empty meeting_id >> ok (read_position database meeting_id);
    }
