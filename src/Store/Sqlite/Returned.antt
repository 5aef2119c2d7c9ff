-- ===== src/Store/Sqlite/Returned.antt =====
-- About the calls of `append_sqlite` that return.
use mathlib.Core.Path.{subst}
use counterpoint_living_deci.Application.Authorization.{access_eq}
use counterpoint_living_deci.Base.{
  ==_iff, >>-eq-ok_iff, >>=-eq-ok, Bool-cases, List, Option, Option-cases, Result, String, ap, ap₂,
  arith, inl, inr, length, nat_beq_iff, nat_eq, none, not, ok, option_eq, refl, some, string_eq,
  sym, traverse, ℕ, ◌&&◌, ◌++◌, ◌==◌, ◌>>=◌, ◌>>◌, ◌||◌, ◌∙◌, ◌≡◌, ◌≢◌,
}
use counterpoint_living_deci.Entities.Common.{confirmation_eq, origin_eq, visibility_eq}
use counterpoint_living_deci.Entities.Decisions.{action_status_eq, status_eq, task_state_eq}
use counterpoint_living_deci.Entities.People.{capability_eq}
use counterpoint_living_deci.Store.{
  AppendEventsRequest, AppendOutcome, EventRecord, appended, position_conflict, replayed,
}
use counterpoint_living_deci.Store.Sqlite.{
  append_again, append_at, append_fresh, append_sqlite, append_transaction, insert_events,
  load_event_range, note_append,
}
use counterpoint_living_deci.Store.Sqlite.Append.{
  insert_events-eq-ok, length-number, read_position_lem,
}
use counterpoint_living_deci.Store.Sqlite.Outcomes.{
  KeepsEvents, Outcome, fingerprint_of, note_append-eq-ok, noted_rows,
}
use counterpoint_living_deci.Store.Sqlite.Rows.{Numbered, traverse-length}
use counterpoint_living_deci.Store.Sqlite.Tables.{
  Database, IdempotencyRow, JsonCodec, JsonTexts, conflicts_with, find_append, read_position,
  require_defined, require_non_empty, require_position, rows_of,
}
use counterpoint_living_deci.Values.{Number, to_ℕ}

conflicts_with-some :
    (o : Option Number) (actual : ℕ) (v : Number)
    → conflicts_with o actual ≡ some v
    → (o ≡ some v) × (to_ℕ v ≢ actual)
conflicts_with-some none actual v h = cc h
conflicts_with-some (some w) actual v h = elim (Bool-cases (to_ℕ w == actual)) [
  | inl e ↦ cc (rw e at h)
  | inr e ↦
      let same : w ≡ v = ground (arith, e) in
      (ap some same, λ q. ground (arith, ap to_ℕ same, e, nat_beq_iff (to_ℕ w) actual))
]

pub conflicts_with-none :
    (o : Option Number) (actual : ℕ) (v : Number)
    → conflicts_with o actual ≡ none
    → o ≡ some v
    → to_ℕ v ≡ actual
conflicts_with-none none actual v h e = cc e
conflicts_with-none (some w) actual v h e = elim (Bool-cases (to_ℕ w == actual)) [
  | inl t ↦ let same : w ≡ v = cc e in ap to_ℕ (sym same) ∙ (nat_beq_iff (to_ℕ w) actual).0 t
  | inr t ↦ cc (rw t at h)
]

module _ {E : Type 0} (codec : JsonCodec E) (json : JsonTexts)
    (after : Database → Result Database) where
  append_at-Outcome :
      (request : AppendEventsRequest E) (ts : List String) (d d' : Database)
      (outcome : AppendOutcome E)
      → conflicts_with request.expected_position (read_position d request.meeting_id) ≡ none
      → KeepsEvents after
      → ((key : String)
          → request.idempotency_key ≡ some key
          → find_append d request.meeting_id key ≡ none)
      → Numbered 0 (rows_of d request.meeting_id)
      → traverse codec.encode request.events ≡ ok ts
      → append_at json after request
          (fingerprint_of json request ts)
          ts
          (read_position d request.meeting_id)
          d
        ≡ ok (d', outcome)
      → Outcome codec json after d d' request outcome
  unfolding append_at
  append_at-Outcome request ts d d' outcome fits keeps unused numbered encoded h =
      let m = request.meeting_id in
      let n = read_position d m in
      let key = request.idempotency_key in
      let fp = fingerprint_of json request ts in
      let n_lem : n ≡ length (rows_of d m) = read_position_lem d m numbered in
      let finish : List (EventRecord E) → Database → Result (Database × AppendOutcome E) =
        λ records done. ok (done, appended records) in
      let note : Database × List (EventRecord E) → Result Database =
        λ q. note_append json.is_json request key fp (json.stringify ts) n (length q.1) q.0 in
      let (q, inserting, h1) =
        >>=-eq-ok (insert_events json.is_json m d n request.events ts)
          (λ q. note q >>= λ noted. after noted >>= finish q.1) h in
      let (noted, noting, h2) = >>=-eq-ok (note q) (λ noted. after noted >>= finish q.1) h1 in
      let (done, hooked, h3) = >>=-eq-ok (after noted) (finish q.1) h2 in
      let l = traverse-length codec.encode request.events ts encoded in
      let rows =
        insert_events-eq-ok json.is_json m d n request.events ts numbered (sym n_lem) l inserting in
      let (e, p, a) =
        note_append-eq-ok json.is_json request key fp (json.stringify ts) n (length q.1) q.0
          noting in
      let (e', a') = keeps noted done hooked in
      let same : ◌≡◌ {A = Database × AppendOutcome E} (done, appended q.1) (d', outcome) = cc h3 in
      let count : length q.1 ≡ length ts =
        sym (ap (λ r. length r.1) rows) ∙ length-number n request.events ∙ sym l in
      subst (λ r. Outcome codec json after d r.0 request r.1) same
        (record {
          ts = ts;
          n = n;
          encoded = encoded;
          unused = unused;
          noted = noted;
          projections_lem = p ∙ sym (ap (λ r. r.0.projections) rows);
          hooked = hooked;
          n_lem = n_lem;
          records_lem = sym (ap (λ r. r.1) rows);
          expected_lem = fits;
          events_lem = e' ∙ e ∙ sym (ap (λ r. r.0.events) rows);
          appends_lem =
              a'
              ∙ a
              ∙ ap₂ (λ d k. d.event_appends ++ noted_rows request key fp (json.stringify ts) n k)
                  (sym (ap (λ r. r.0) rows)) count;
        })

  append_fresh-Outcome :
      (request : AppendEventsRequest E) (ts : List String) (d d' : Database)
      (outcome : AppendOutcome E)
      → KeepsEvents after
      → ((key : String)
          → request.idempotency_key ≡ some key
          → find_append d request.meeting_id key ≡ none)
      → Numbered 0 (rows_of d request.meeting_id)
      → traverse codec.encode request.events ≡ ok ts
      → append_fresh json after request (fingerprint_of json request ts) ts d ≡ ok (d', outcome)
      → Outcome codec json after d d' request outcome
  unfolding append_fresh
  append_fresh-Outcome request ts d d' outcome keeps unused numbered encoded h =
      let m = request.meeting_id in
      let n = read_position d m in
      elim (Option-cases (conflicts_with request.expected_position n)) [
        | inr (v, e) ↦
            let refused : append_fresh json after request (fingerprint_of json request ts) ts d
                ≡ ok (d, position_conflict n v) =
              rw (e, append_fresh) refl in
            let done : ◌≡◌ {A = Database × AppendOutcome E} (d, position_conflict n v)
                (d', outcome) =
              cc (refused, h) in
            let (asked, other) = conflicts_with-some request.expected_position n v e in
            subst (λ q. Outcome codec json after d q.0 request q.1) done (refl, asked, refl, other)
        | inl e ↦
            append_at-Outcome request ts d d' outcome e keeps unused numbered encoded
              (sym (rw (e, append_fresh) refl) ∙ h)
      ]

  append_again-Outcome :
      (request : AppendEventsRequest E) (ts : List String) (key : String)
      (previous : IdempotencyRow) (d d' : Database) (outcome : AppendOutcome E)
      → traverse codec.encode request.events ≡ ok ts
      → request.idempotency_key ≡ some key
      → find_append d request.meeting_id key ≡ some previous
      → append_again codec request key
          (fingerprint_of json request ts)
          (json.stringify ts)
          previous
          d
        ≡ ok (d', outcome)
      → Outcome codec json after d d' request outcome
  unfolding append_again
  append_again-Outcome request ts key previous d d' outcome encoded keyed found h =
      let fp = fingerprint_of json request ts in
      let trust = request.trust_payload_fingerprint_for_replay in
      let differs =
        not (previous.payload_fingerprint == fp)
        || (not trust && not (previous.event_payloads_json == json.stringify ts)) in
      let range =
        load_event_range codec d request.meeting_id previous.first_position previous.event_count in
      elim (Bool-cases differs) [
        | inl e ↦
            let done : ◌≡◌ {A = Database × AppendOutcome E}
                (d, AppendOutcome.idempotency_conflict key) (d', outcome) =
              cc (rw e at h) in
            subst (λ q. Outcome codec json after d q.0 request q.1) done (refl, keyed)
        | inr e ↦
            let (records, loaded, h') =
              >>=-eq-ok range (λ records. ok (d, replayed records)) (rw e at h) in
            let done : ◌≡◌ {A = Database × AppendOutcome E} (d, replayed records) (d', outcome) =
              cc h' in
            subst (λ q. Outcome codec json after d q.0 request q.1) done
              (
                refl,
                record {
                  ts = ts;
                  key = key;
                  previous = previous;
                  encoded = encoded;
                  keyed = keyed;
                  found = found;
                  same_fingerprint = ground (arith, e, ==_iff previous.payload_fingerprint fp);
                  same_payloads = λ t.
                      ground (arith, e, t, ==_iff previous.event_payloads_json (json.stringify ts));
                  loaded = loaded;
                },
              )
      ]

  append_transaction-Outcome :
      (request : AppendEventsRequest E) (ts : List String) (d d' : Database)
      (outcome : AppendOutcome E) (key : Option String)
      → request.idempotency_key ≡ key
      → KeepsEvents after
      → Numbered 0 (rows_of d request.meeting_id)
      → traverse codec.encode request.events ≡ ok ts
      → append_transaction codec json after request key (fingerprint_of json request ts) ts d
        ≡ ok (d', outcome)
      → Outcome codec json after d d' request outcome
  unfolding append_transaction
  append_transaction-Outcome request ts d d' outcome none keyed keeps numbered encoded h =
      append_fresh-Outcome request ts d d' outcome keeps (λ key k. cc (keyed, k)) numbered encoded h
  append_transaction-Outcome request ts d d' outcome (some key) keyed keeps numbered encoded h =
      elim (Option-cases (find_append d request.meeting_id key)) [
        | inl e ↦
            append_fresh-Outcome request ts d d' outcome keeps (λ other k. cc (keyed, k, e))
              numbered encoded (sym (rw (e, append_transaction) refl) ∙ h)
        | inr (previous, e) ↦
            append_again-Outcome request ts key previous d d' outcome encoded keyed e
              (sym (rw (e, append_transaction) refl) ∙ h)
      ]

  -- A call that returns appended the events, found them, or changed nothing.
  pub append_sqlite-Outcome :
      (request : AppendEventsRequest E) (d d' : Database) (outcome : AppendOutcome E)
      → KeepsEvents after
      → Numbered 0 (rows_of d request.meeting_id)
      → append_sqlite codec json after d request ≡ ok (d', outcome)
      → Outcome codec json after d d' request outcome
  unfolding append_sqlite
  append_sqlite-Outcome request d d' outcome keeps numbered h =
      let transaction : List String → Result (Database × AppendOutcome E) = λ ts.
        append_transaction codec json after request request.idempotency_key
          (fingerprint_of json request ts) ts d in
      let body = traverse codec.encode request.events >>= transaction in
      let keys = require_defined require_non_empty request.idempotency_key >> body in
      let positions = require_defined require_position request.expected_position >> keys in
      let (_, h1) = (>>-eq-ok_iff (require_non_empty request.meeting_id) positions).0 h in
      let (_, h2) =
        (>>-eq-ok_iff (require_defined require_position request.expected_position) keys).0 h1 in
      let (_, h3) =
        (>>-eq-ok_iff (require_defined require_non_empty request.idempotency_key) body).0 h2 in
      let (ts, encoded, h4) = >>=-eq-ok (traverse codec.encode request.events) transaction h3 in
      append_transaction-Outcome request ts d d' outcome request.idempotency_key refl keeps numbered
        encoded h4
