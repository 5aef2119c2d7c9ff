-- ===== src/Store/Sqlite/Total.antt =====
-- About the constraints of the tables and the replays during an append that is well formed.
use mathlib.Core.Path.{subst}
use counterpoint_living_deci.Application.Authorization.{access_eq}
use counterpoint_living_deci.Base.{
  All, Bool, Bool-cases, List, Option, Option-cases, Result, String, arith, inl, inr, leb, length,
  ltb, nat_beq_iff, nat_eq, none, not, ok, option_eq, refl, some, string_eq, sym, traverse, true, ℕ,
  ◌&&◌, ◌++◌, ◌+◌, ◌==◌, ◌||◌, ◌≡◌, ◌≤◌,
}
use counterpoint_living_deci.Base.Keys.{All-lookup, find-none}
use counterpoint_living_deci.Entities.Common.{confirmation_eq, origin_eq, visibility_eq}
use counterpoint_living_deci.Entities.Decisions.{action_status_eq, status_eq, task_state_eq}
use counterpoint_living_deci.Entities.People.{capability_eq}
use counterpoint_living_deci.Store.{
  AppendEventsRequest, AppendOutcome, EventRecord, appended, number, position_conflict, replayed,
}
use counterpoint_living_deci.Store.Sqlite.{
  append_again, append_at, append_fresh, append_sqlite, append_transaction, load_event_range,
  note_append,
}
use counterpoint_living_deci.Store.Sqlite.Append.{
  any-none, insert_events_total, new_rows, read_position_lem, with_events,
}
use counterpoint_living_deci.Store.Sqlite.Invariant.{IsNoted, IsValid, range_rows}
use counterpoint_living_deci.Store.Sqlite.Lawful.{All-filter, rows-readable}
use counterpoint_living_deci.Store.Sqlite.Outcomes.{fingerprint_of, noted_rows}
use counterpoint_living_deci.Store.Sqlite.Replay.{find_append-some}
use counterpoint_living_deci.Store.Sqlite.Rows.{
  Ascending-filter, Numbered, Numbered-Ascending, order_by_position-Ascending, traverse-length,
}
use counterpoint_living_deci.Store.Sqlite.Tables.{
  Database, EventRow, IdempotencyRow, JsonCodec, JsonTexts, conflicts_with, find_append,
  insert_append, order_by_position, read_position, require_defined, require_non_empty,
  require_position, rows_of,
}
use counterpoint_living_deci.Values.{max_safe_integer}

-- The texts of an append, and the list of them, are JSON.
abbrev pub AreJson : JsonTexts → List String → Type 0
AreJson json ts = All (λ t. json.is_json t ≡ true) ts × (json.is_json (json.stringify ts) ≡ true)

note_append_total :
    {E : Type 0} (is_json : String → Bool) (request : AppendEventsRequest E) (key : Option String)
    (fingerprint payloads : String) (n count : ℕ) (d : Database)
    → ((k : String) → key ≡ some k → find_append d request.meeting_id k ≡ none)
    → is_json payloads ≡ true
    → (d' : Database) × (note_append is_json request key fingerprint payloads n count d ≡ ok d')
unfolding note_append insert_append find_append
note_append_total is_json request none fingerprint payloads n count d free valid_text = (d, refl)
note_append_total is_json request (some key) fingerprint payloads n count d free valid_text =
    let taken : IdempotencyRow → Bool =
      λ other. other.meeting_id == request.meeting_id && other.idempotency_key == key in
    let unused = any-none taken d.event_appends (find-none taken d.event_appends (free key refl)) in
    (
      record d {
        event_appends =
            d.event_appends ++ noted_rows request (some key) fingerprint payloads n count;
      },
      rw valid_text (rw unused refl),
    )

module _ {E : Type 0} (codec : JsonCodec E) (json : JsonTexts) (after : Database → Result Database)
    (hooked : (d : Database) → (d' : Database) × (after d ≡ ok d')) where
  append_at_total :
      (request : AppendEventsRequest E) (fingerprint : String) (ts : List String) (n : ℕ)
      (d : Database)
      → Numbered 0 (rows_of d request.meeting_id)
      → length (rows_of d request.meeting_id) ≡ n
      → length ts ≡ length request.events
      → n + length request.events ≤ max_safe_integer
      → ((k : String)
          → request.idempotency_key ≡ some k
          → find_append d request.meeting_id k ≡ none)
      → AreJson json ts
      → (out : Database × AppendOutcome E) × (append_at json after request fingerprint ts n d
          ≡ ok out)
  unfolding append_at
  append_at_total request fingerprint ts n d numbered e l b free texts =
      let m = request.meeting_id in
      let inserting =
        insert_events_total json.is_json m d n request.events ts numbered e l b texts.0 in
      let inserted = with_events d (new_rows m n ts) in
      let (noted, noting) =
        note_append_total json.is_json request request.idempotency_key fingerprint
          (json.stringify ts) n (length (number n request.events)) inserted
          (λ k q. unfold find_append in (free k q)) texts.1 in
      let (done, ending) = hooked noted in
      ((done, appended (number n request.events)), rw inserting (rw noting (rw ending refl)))

  range_total :
      (d : Database) (noted : IdempotencyRow)
      → IsValid codec json d
      → IsNoted json d noted
      → (records : List (EventRecord E)) × (load_event_range codec d noted.meeting_id
            noted.first_position noted.event_count
          ≡ ok records)
  unfolding load_event_range rows_of
  range_total d noted v h =
      let m = noted.meeting_id in
      let in_range : EventRow → Bool = λ row.
        leb noted.first_position row.position
        && ltb row.position (noted.first_position + noted.event_count) in
      let rows = range_rows d m noted.first_position noted.event_count in
      let rising =
        Ascending-filter in_range 0 (rows_of d m)
          (Numbered-Ascending 0 (rows_of d m) (v.numbered m)) in
      let ordered : order_by_position rows ≡ rows = order_by_position-Ascending 0 rows rising in
      let counted : (length rows == noted.event_count) ≡ true =
        (nat_beq_iff (length rows) noted.event_count).1 h.counted in
      let Readable : EventRow → Type 0 = λ row. (e : E) × (codec.decode row.payload_json ≡ ok e) in
      let (records, reading) = rows-readable codec rows (
        All-filter Readable in_range (rows_of d m)
          (All-filter Readable (λ row. row.meeting_id == m) d.events v.readable)) in
      (records, rw (ordered, counted) reading)

  append_again_total :
      (request : AppendEventsRequest E) (key fingerprint payloads : String) (noted : IdempotencyRow)
      (d : Database)
      → IsValid codec json d
      → IsNoted json d noted
      → noted.meeting_id ≡ request.meeting_id
      → (out : Database × AppendOutcome E) × (append_again codec request key fingerprint payloads
            noted d
          ≡ ok out)
  unfolding append_again
  append_again_total request key fingerprint payloads noted d v h place =
      let conflicts =
        not (noted.payload_fingerprint == fingerprint)
        || (not request.trust_payload_fingerprint_for_replay
            && not (noted.event_payloads_json == payloads)) in
      let (records, range) = range_total d noted v h in
      let range' : load_event_range codec d request.meeting_id noted.first_position
            noted.event_count
          ≡ ok records =
        subst (λ m. load_event_range codec d m noted.first_position noted.event_count ≡ ok records)
          place range in
      elim (Bool-cases conflicts) [
        | inl e ↦ ((d, AppendOutcome.idempotency_conflict key), rw e refl)
        | inr e ↦ ((d, replayed records), rw e (rw range' refl))
      ]

  append_fresh_total :
      (request : AppendEventsRequest E) (fingerprint : String) (ts : List String) (d : Database)
      → Numbered 0 (rows_of d request.meeting_id)
      → length ts ≡ length request.events
      → length (rows_of d request.meeting_id) + length request.events ≤ max_safe_integer
      → ((k : String)
          → request.idempotency_key ≡ some k
          → find_append d request.meeting_id k ≡ none)
      → AreJson json ts
      → (out : Database × AppendOutcome E) × (append_fresh json after request fingerprint ts d
          ≡ ok out)
  unfolding append_fresh
  append_fresh_total request fingerprint ts d numbered l b free texts =
      let m = request.meeting_id in
      let n = read_position d m in
      let n_lem = read_position_lem d m numbered in
      elim (Option-cases (conflicts_with request.expected_position n)) [
        | inl e ↦
            let (out, r) =
              append_at_total request fingerprint ts n d numbered (sym n_lem) l (omega arith) free
                texts in
            (out, rw (e, append_fresh) r)
        | inr (w, e) ↦ ((d, position_conflict n w), rw (e, append_fresh) refl)
      ]

  append_transaction_total :
      (request : AppendEventsRequest E) (key : Option String) (fingerprint : String)
      (ts : List String) (d : Database)
      → request.idempotency_key ≡ key
      → IsValid codec json d
      → length ts ≡ length request.events
      → length (rows_of d request.meeting_id) + length request.events ≤ max_safe_integer
      → AreJson json ts
      → (out : Database × AppendOutcome E) × (append_transaction codec json after request key
            fingerprint ts d
          ≡ ok out)
  unfolding append_transaction
  append_transaction_total request none fingerprint ts d keyed v l b texts =
      append_fresh_total request fingerprint ts d (v.numbered request.meeting_id) l b
        (λ k q. cc (keyed, q)) texts
  append_transaction_total request (some key) fingerprint ts d keyed v l b texts =
      elim (Option-cases (find_append d request.meeting_id key)) [
        | inl e ↦
            let (out, r) =
              append_fresh_total request fingerprint ts d (v.numbered request.meeting_id) l b
                (λ k q. cc (keyed, q, e)) texts in
            (out, rw (e, append_transaction) r)
        | inr (noted, e) ↦
            let (there, place) = find_append-some d request.meeting_id key noted e in
            let (out, r) =
              append_again_total request key fingerprint (json.stringify ts) noted d v
                (All-lookup (IsNoted json d) d.event_appends noted v.noted there) place in
            (out, rw (e, append_transaction) r)
      ]

  -- On well-formed tables a call of `appendSqlite` returns, whatever its key and its expected
  -- position are, if the request passes the checks, its events can be written, their texts and the
  -- list of them are JSON, the positions stay safe integers and the hook returns: no constraint of the
  -- tables of events and appends is violated, and a replay finds all of its events.
  pub append_sqlite_total :
      (d : Database) (request : AppendEventsRequest E) (ts : List String)
      → IsValid codec json d
      → require_non_empty request.meeting_id ≡ ok tt
      → require_defined require_position request.expected_position ≡ ok tt
      → require_defined require_non_empty request.idempotency_key ≡ ok tt
      → traverse codec.encode request.events ≡ ok ts
      → length (rows_of d request.meeting_id) + length request.events ≤ max_safe_integer
      → AreJson json ts
      → (out : Database × AppendOutcome E) × (append_sqlite codec json after d request ≡ ok out)
  unfolding append_sqlite
  append_sqlite_total d request ts v named positive keyed encoded b texts =
      let (out, r) =
        append_transaction_total request request.idempotency_key (fingerprint_of json request ts) ts
          d refl v (traverse-length codec.encode request.events ts encoded) b texts in
      (out, rw (named, positive, keyed, encoded) r)
