-- ===== src/Store/Sqlite/Later.antt =====
-- Sequences of appends, and a request that is made again after them.
use counterpoint_living_deci.Application.Authorization.{access_eq}
use counterpoint_living_deci.Base.{
  ==_iff, ==_refl, >>-eq-ok_iff, Bool, Bool-cases, List, Option, Result, String, ap, arith, find,
  inl, inr, length, nat_eq, ok, option_eq, refl, some, string_eq, sym, traverse, true, ◌&&◌, ◌++◌,
  ◌+◌, ◌-◌, ◌==◌, ◌>>=◌, ◌>>◌, ◌∙◌, ◌≡◌,
}
use counterpoint_living_deci.Base.Keys.{All-lookup, find-append}
use counterpoint_living_deci.Entities.Common.{confirmation_eq, origin_eq, visibility_eq}
use counterpoint_living_deci.Entities.Decisions.{action_status_eq, status_eq, task_state_eq}
use counterpoint_living_deci.Entities.People.{capability_eq}
use counterpoint_living_deci.Store.{
  AppendEventsRequest, AppendOutcome, EventRecord, appended, number, position_conflict, replayed,
}
use counterpoint_living_deci.Store.Sqlite.{
  append_again, append_sqlite, append_transaction, load_event_range,
}
use counterpoint_living_deci.Store.Sqlite.Invariant.{IsNoted, IsValid}
use counterpoint_living_deci.Store.Sqlite.Outcomes.{
  Inserted, KeepsEvents, Outcome, fingerprint_of, noted_rows,
}
use counterpoint_living_deci.Store.Sqlite.Preserved.{append_sqlite-IsValid}
use counterpoint_living_deci.Store.Sqlite.Replay.{find_append-some, load_event_range-IsNoted}
use counterpoint_living_deci.Store.Sqlite.Returned.{append_sqlite-Outcome}
use counterpoint_living_deci.Store.Sqlite.Tables.{
  Database, IdempotencyRow, JsonCodec, JsonTexts, find_append, require_defined, require_non_empty,
  require_position,
}

module _ {E : Type 0} (codec : JsonCodec E) (json : JsonTexts) where
  -- The tables that appends lead to, of any meeting, with hooks that leave the events alone.
  pub data Later (d : Database) : Database → Type 0 where
    here : Later d d
    next :
        {d' d'' : Database} (after : Database → Result Database) (request : AppendEventsRequest E)
        (outcome : AppendOutcome E)
        → Later d d'
        → KeepsEvents after
        → append_sqlite codec json after d' request ≡ ok (d'', outcome)
        → Later d d''

  -- A row that was noted is still found after an append.
  Outcome-found :
      (after : Database → Result Database) (d d' : Database) (request : AppendEventsRequest E)
      (outcome : AppendOutcome E) (m key : String) (noted : IdempotencyRow)
      → find_append d m key ≡ some noted
      → Outcome codec json after d d' request outcome
      → find_append d' m key ≡ some noted
  unfolding find_append
  Outcome-found after d d' request (appended records) m key noted h i =
      let is_same : IdempotencyRow → Bool =
        λ row. row.meeting_id == m && row.idempotency_key == key in
      let more =
        noted_rows request request.idempotency_key (fingerprint_of json request i.ts)
          (json.stringify i.ts) i.n (length i.ts) in
      ap (find is_same) i.appends_lem ∙ find-append is_same d.event_appends more ∙ rw h refl
  Outcome-found after d d' request (replayed records) m key noted h i = rw (i.0) h
  Outcome-found after d d' request (position_conflict actual expected) m key noted h i = rw (i.0) h
  Outcome-found after d d' request (AppendOutcome.idempotency_conflict k) m key noted h i =
      rw (i.0) h

  -- A new row is found by its key.
  Inserted-found :
      (after : Database → Result Database) (d d' : Database) (request : AppendEventsRequest E)
      (records : List (EventRecord E)) (key : String)
      → request.idempotency_key ≡ some key
      → (i : Inserted codec json after d d' request records)
      → find_append d' request.meeting_id key
        ≡ some (record {
          meeting_id = request.meeting_id;
          idempotency_key = key;
          event_count = length i.ts;
          event_payloads_json = json.stringify i.ts;
          first_position = i.n + 1;
          payload_fingerprint = fingerprint_of json request i.ts;
        })
  unfolding find_append find
  Inserted-found after d d' request records key keyed i =
      let m = request.meeting_id in
      let is_same : IdempotencyRow → Bool =
        λ row. row.meeting_id == m && row.idempotency_key == key in
      let rows_for : Option String → List IdempotencyRow = λ k.
        noted_rows request k (fingerprint_of json request i.ts) (json.stringify i.ts) i.n
          (length i.ts) in
      ap (find is_same) (i.appends_lem ∙ ap (λ k. d.event_appends ++ rows_for k) keyed)
      ∙ find-append is_same d.event_appends (rows_for (some key))
      ∙ rw (i.unused key keyed, ==_refl m, ==_refl key) refl

  -- The checks of a request do not depend on the tables.
  pub append_sqlite-checked :
      (after : Database → Result Database) (request : AppendEventsRequest E) (d d' : Database)
      {out : Database × AppendOutcome E} (ts : List String)
      → append_sqlite codec json after d request ≡ ok out
      → traverse codec.encode request.events ≡ ok ts
      → append_sqlite codec json after d' request
        ≡ append_transaction codec json after request request.idempotency_key
            (fingerprint_of json request ts)
            ts
            d'
  unfolding append_sqlite
  append_sqlite-checked after request d d' ts h encoded =
      let transaction : List String → Result (Database × AppendOutcome E) = λ ts.
        append_transaction codec json after request request.idempotency_key
          (fingerprint_of json request ts) ts d in
      let body = traverse codec.encode request.events >>= transaction in
      let keys = require_defined require_non_empty request.idempotency_key >> body in
      let positions = require_defined require_position request.expected_position >> keys in
      let (p, h1) = (>>-eq-ok_iff (require_non_empty request.meeting_id) positions).0 h in
      let (q, h2) =
        (>>-eq-ok_iff (require_defined require_position request.expected_position) keys).0 h1 in
      let (r, _) =
        (>>-eq-ok_iff (require_defined require_non_empty request.idempotency_key) body).0 h2 in
      rw (p, q, r, encoded) refl

  -- A row with the same fingerprint and texts answers with its range.
  append_again-same :
      (request : AppendEventsRequest E) (key fingerprint payloads : String) (noted : IdempotencyRow)
      (d : Database) (records : List (EventRecord E))
      → noted.payload_fingerprint ≡ fingerprint
      → noted.event_payloads_json ≡ payloads
      → load_event_range codec d request.meeting_id noted.first_position noted.event_count
        ≡ ok records
      → append_again codec request key fingerprint payloads noted d ≡ ok (d, replayed records)
  unfolding append_again
  append_again-same request key fingerprint payloads noted d records e e' loaded =
      let same : (noted.payload_fingerprint == fingerprint) ≡ true =
        (==_iff noted.payload_fingerprint fingerprint).1 e in
      let same' : (noted.event_payloads_json == payloads) ≡ true =
        (==_iff noted.event_payloads_json payloads).1 e' in
      elim (Bool-cases request.trust_payload_fingerprint_for_replay) [
        | inl t ↦ rw (same, t, loaded) refl
        | inr t ↦ rw (same, t, same', loaded) refl
      ]

  module _ (back : (e : E) (t : String) → codec.encode e ≡ ok t → codec.decode t ≡ ok e)
      (injective : (ts us : List String) → json.stringify ts ≡ json.stringify us → ts ≡ us) where
    pub Later-IsValid :
        {d d' : Database} → IsValid codec json d → Later d d' → IsValid codec json d'
    Later-IsValid v here = v
    Later-IsValid {d} {d'} v (next {d' = e} after request outcome later keeps h) =
        append_sqlite-IsValid codec json back after e d' request outcome keeps
          (Later-IsValid v later) h

    Later-found :
        {d d' : Database} (m key : String) (noted : IdempotencyRow)
        → IsValid codec json d
        → find_append d m key ≡ some noted
        → Later d d'
        → find_append d' m key ≡ some noted
    Later-found m key noted v found here = found
    Later-found {d} {d'} m key noted v found (next {d' = e} after request outcome later keeps h) =
        Outcome-found after e d' request outcome m key noted (Later-found m key noted v found later)
          (append_sqlite-Outcome codec json after request e d' outcome keeps
            ((Later-IsValid v later).numbered request.meeting_id) h)

    -- If the codec reads what it writes and different lists of texts are written differently, a
    -- request with a key that appended its events to well-formed tables can be made again after any
    -- appends that followed: it gives the same events at the same positions, and changes nothing.
    pub retry_lem :
        (after : Database → Result Database) (d d' d'' : Database) (request : AppendEventsRequest E)
        (records : List (EventRecord E)) (key : String)
        → KeepsEvents after
        → IsValid codec json d
        → request.idempotency_key ≡ some key
        → append_sqlite codec json after d request ≡ ok (d', appended records)
        → Later d' d''
        → append_sqlite codec json after d'' request ≡ ok (d'', replayed records)
    unfolding append_transaction
    retry_lem after d d' d'' request records key keeps v keyed h later =
        let m = request.meeting_id in
        let i =
          append_sqlite-Outcome codec json after request d d' (appended records) keeps
            (v.numbered m) h in
        let ts = i.ts in
        let fp = fingerprint_of json request ts in
        let v' =
          append_sqlite-IsValid codec json back after d d' request (appended records) keeps v h in
        let v'' = Later-IsValid v' later in
        let noted : IdempotencyRow = record {
          meeting_id = m;
          idempotency_key = key;
          event_count = length ts;
          event_payloads_json = json.stringify ts;
          first_position = i.n + 1;
          payload_fingerprint = fp;
        } in
        let found =
          Later-found m key noted v' (Inserted-found after d d' request records key keyed i)
            later in
        let there = (find_append-some d'' m key noted found).0 in
        let noted_there = All-lookup (IsNoted json d'') d''.event_appends noted v''.noted there in
        let range =
          load_event_range-IsNoted codec json back injective d'' noted request.events ts v''
            noted_there i.encoded refl in
        let first : i.n + 1 - 1 ≡ i.n = omega arith in
        let same : number (i.n + 1 - 1) request.events ≡ records =
          ap (λ n. number n request.events) first ∙ sym i.records_lem in
        append_sqlite-checked after request d d'' ts h i.encoded
        ∙ ap (λ k. append_transaction codec json after request k fp ts d'') keyed
        ∙ rw (found, append_transaction)
            (append_again-same request key fp (json.stringify ts) noted d'' records refl refl
              (range ∙ ap ok same))
