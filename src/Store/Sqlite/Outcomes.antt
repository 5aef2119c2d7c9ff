-- ===== src/Store/Sqlite/Outcomes.antt =====
-- What a call of `append_sqlite` that returns did, for each of its outcomes.
use mathlib.Core.List.{append-nil}
use counterpoint_living_deci.Application.Authorization.{access_eq}
use counterpoint_living_deci.Base.{
  Bool, List, Option, Result, String, [], any, constraint_violation, false, length, nat_eq, none,
  not, ok, throw_if, ◌>>◌, option_eq, refl, some, string_eq, sym, throw_if-eq-ok, traverse, ℕ, ◌&&◌,
  ◌++◌, ◌+◌, ◌==◌, ◌∷◌, ◌≡◌, ◌≢◌,
}
use counterpoint_living_deci.Entities.Common.{confirmation_eq, origin_eq, visibility_eq}
use counterpoint_living_deci.Entities.Decisions.{action_status_eq, status_eq, task_state_eq}
use counterpoint_living_deci.Entities.People.{capability_eq}
use counterpoint_living_deci.Store.{
  AppendEventsRequest, AppendOutcome, EventRecord, appended, number, position_conflict, replayed,
}
use counterpoint_living_deci.Store.Sqlite.{load_event_range, note_append}
use counterpoint_living_deci.Store.Sqlite.Append.{new_rows}
use counterpoint_living_deci.Store.Sqlite.Tables.{
  Database, IdempotencyRow, JsonCodec, JsonTexts, conflicts_with, find_append, get_or,
  insert_append, read_position, rows_of,
}
use counterpoint_living_deci.Values.{to_ℕ}

-- The row of `event_appends` for a request with a key.
abbrev pub noted_rows :
    {E : Type 0}
    → AppendEventsRequest E
    → Option String
    → String
    → String
    → ℕ
    → ℕ
    → List IdempotencyRow
noted_rows request none fingerprint payloads n count = []
noted_rows request (some key) fingerprint payloads n count =
    record {
      meeting_id = request.meeting_id;
      idempotency_key = key;
      event_count = count;
      event_payloads_json = payloads;
      first_position = n + 1;
      payload_fingerprint = fingerprint;
    }
    ∷ []

insert_append-eq-ok :
    (is_json : String → Bool) (database : Database) (row : IdempotencyRow) {out : Database}
    → insert_append is_json database row ≡ ok out
    → (out.events ≡ database.events)
      × (out.projections ≡ database.projections)
      × (out.event_appends ≡ database.event_appends ++ row ∷ [])
unfolding insert_append
insert_append-eq-ok is_json database row {out} h =
    let done : Database = record database { event_appends = database.event_appends ++ row ∷ [] } in
    let taken : IdempotencyRow → Bool =
      λ other. other.meeting_id == row.meeting_id && other.idempotency_key == row.idempotency_key in
    let (_, checked) =
      throw_if-eq-ok (not (is_json row.event_payloads_json)) constraint_violation
        (throw_if (any taken database.event_appends) constraint_violation >> ok done) h in
    let (_, h') =
      throw_if-eq-ok (any taken database.event_appends) constraint_violation (ok done) checked in
    let same : done ≡ out = cc h' in rw (← same) (refl, refl, refl)

pub note_append-eq-ok :
    {E : Type 0} (is_json : String → Bool) (request : AppendEventsRequest E) (key : Option String)
    (fingerprint payloads : String) (n count : ℕ) (database : Database) {out : Database}
    → note_append is_json request key fingerprint payloads n count database ≡ ok out
    → (out.events ≡ database.events)
      × (out.projections ≡ database.projections)
      × (out.event_appends
          ≡ database.event_appends ++ noted_rows request key fingerprint payloads n count)
unfolding note_append
note_append-eq-ok is_json request none fingerprint payloads n count database {out} h =
    let same : database ≡ out = cc h in
    rw (← same) (refl, refl, sym (append-nil database.event_appends))
note_append-eq-ok is_json request (some key) fingerprint payloads n count database {out} h =
    insert_append-eq-ok is_json database
      (record {
        meeting_id = request.meeting_id;
        idempotency_key = key;
        event_count = count;
        event_payloads_json = payloads;
        first_position = n + 1;
        payload_fingerprint = fingerprint;
      })
      h

-- A hook that leaves the tables of events as they are.
abbrev pub KeepsEvents : (Database → Result Database) → Type 0
KeepsEvents after =
    (d d' : Database)
    → after d ≡ ok d'
    → (d'.events ≡ d.events) × (d'.event_appends ≡ d.event_appends)

abbrev pub fingerprint_of : {E : Type 0} → JsonTexts → AppendEventsRequest E → List String → String
fingerprint_of json request ts = get_or request.payload_fingerprint (json.stringify ts)

module _ {E : Type 0} (codec : JsonCodec E) (json : JsonTexts) where
  -- The events are those of an earlier call with the key.
  pub record Replayed (d : Database) (request : AppendEventsRequest E)
      (records : List (EventRecord E)) : Type 0 where
    pub ts : List String
    pub key : String
    pub previous : IdempotencyRow
    pub encoded : traverse codec.encode request.events ≡ ok ts
    pub keyed : request.idempotency_key ≡ some key
    pub found : find_append d request.meeting_id key ≡ some previous
    pub same_fingerprint : previous.payload_fingerprint ≡ fingerprint_of json request ts
    pub same_payloads :
        request.trust_payload_fingerprint_for_replay ≡ false
        → previous.event_payloads_json ≡ json.stringify ts
    pub loaded :
        load_event_range codec d request.meeting_id previous.first_position previous.event_count
        ≡ ok records

module _ {E : Type 0} (codec : JsonCodec E) (json : JsonTexts)
    (after : Database → Result Database) where
  -- The events were inserted behind the others of their meeting.
  pub record Inserted (d d' : Database) (request : AppendEventsRequest E)
      (records : List (EventRecord E)) : Type 0 where
    pub ts : List String
    pub n : ℕ
    pub encoded : traverse codec.encode request.events ≡ ok ts
    pub unused :
        (key : String)
        → request.idempotency_key ≡ some key
        → find_append d request.meeting_id key ≡ none
    pub n_lem : n ≡ length (rows_of d request.meeting_id)
    pub records_lem : records ≡ number n request.events
    pub expected_lem : conflicts_with request.expected_position n ≡ none
    pub events_lem : d'.events ≡ d.events ++ new_rows request.meeting_id n ts
    pub noted : Database
    pub projections_lem : noted.projections ≡ d.projections
    pub hooked : after noted ≡ ok d'
    pub appends_lem :
        d'.event_appends
        ≡ d.event_appends
          ++ noted_rows request request.idempotency_key
              (fingerprint_of json request ts)
              (json.stringify ts)
              n
              (length ts)

  abbrev pub Outcome : Database → Database → AppendEventsRequest E → AppendOutcome E → Type 0
  Outcome d d' request (appended records) = Inserted d d' request records
  Outcome d d' request (replayed records) = (d' ≡ d) × Replayed codec json d request records
  Outcome d d' request (position_conflict actual expected) =
      (d' ≡ d)
      × (request.expected_position ≡ some expected)
      × (actual ≡ read_position d request.meeting_id)
      × (to_ℕ expected ≢ actual)
  Outcome d d' request (AppendOutcome.idempotency_conflict key) =
      (d' ≡ d) × (request.idempotency_key ≡ some key)
