-- ===== src/Store/Sqlite/Preserved.antt =====
-- About the invariant of the tables under `append_sqlite`.
use mathlib.Core.List.{append-nil}
use mathlib.Core.Path.{subst}
use counterpoint_living_deci.Application.Authorization.{access_eq}
use counterpoint_living_deci.Base.{
  ==_iff, All, All-append, Bool, Bool-cases, List, Option, Result, String, [], ap, arith, filter,
  inl, inr, leb, length, length-append, ltb, map, nat_eq, none, ok, option_eq, some, string_eq, sym,
  traverse, traverse-cons, ℕ, ◌&&◌, ◌++◌, ◌+◌, ◌==◌, ◌∙◌, ◌∷◌, ◌≡◌, ◌≢◌, ◌≤◌,
}
use counterpoint_living_deci.Base.Keys.{All-map, filter_none}
use counterpoint_living_deci.Entities.Common.{confirmation_eq, origin_eq, visibility_eq}
use counterpoint_living_deci.Entities.Decisions.{action_status_eq, status_eq, task_state_eq}
use counterpoint_living_deci.Entities.People.{capability_eq}
use counterpoint_living_deci.Store.{
  AppendEventsRequest, AppendOutcome, EventRecord, appended, position_conflict, replayed,
}
use counterpoint_living_deci.Store.Sqlite.{append_sqlite}
use counterpoint_living_deci.Store.Sqlite.Append.{
  IsNumbered, new_rows, new_rows-Numbered, rows_of-with_events, rows_of-with_events_other,
  with_events,
}
use counterpoint_living_deci.Store.Sqlite.Invariant.{
  IsNoted, IsValid, length-new_rows, payloads-new_rows, range-All, range_new, range_old, range_rows,
  rows_of-events,
}
use counterpoint_living_deci.Store.Sqlite.Outcomes.{
  Inserted, KeepsEvents, Outcome, fingerprint_of, noted_rows,
}
use counterpoint_living_deci.Store.Sqlite.Returned.{append_sqlite-Outcome}
use counterpoint_living_deci.Store.Sqlite.Rows.{
  Numbered, Numbered-append, Numbered-bounded, filter-append, filter-All,
}
use counterpoint_living_deci.Store.Sqlite.Tables.{
  Database, EventRow, IdempotencyRow, JsonCodec, JsonTexts, rows_of,
}

IsNoted-transfer :
    (json : JsonTexts) (d d' : Database) (noted : IdempotencyRow)
    → length (rows_of d noted.meeting_id) ≤ length (rows_of d' noted.meeting_id)
    → range_rows d' noted.meeting_id noted.first_position noted.event_count
      ≡ range_rows d noted.meeting_id noted.first_position noted.event_count
    → IsNoted json d noted
    → IsNoted json d' noted
IsNoted-transfer json d d' noted l e h =
    let starts = h.starts in
    let ends = h.ends in
    record {
      starts = starts;
      ends = omega arith;
      counted = ap length e ∙ h.counted;
      payloads = ap (λ rows. json.stringify (map (λ row. row.payload_json) rows)) e ∙ h.payloads;
    }

new_rows-All :
    (P : String → Type 0) (m : String) (n : ℕ) (ts : List String)
    → All P ts
    → All (λ row. P row.payload_json) (new_rows m n ts)
new_rows-All P m n [] h = tt
new_rows-All P m n (t ∷ ts) h = (h.0, new_rows-All P m (n + 1) ts h.1)

encoded-readable :
    {E : Type 0} (codec : JsonCodec E)
    → ((e : E) (t : String) → codec.encode e ≡ ok t → codec.decode t ≡ ok e)
    → (events : List E) (ts : List String) → traverse codec.encode events ≡ ok ts
    → All (λ t. (e : E) × (codec.decode t ≡ ok e)) ts
unfolding traverse
encoded-readable codec back [] ts h = let e : [] ≡ ts = cc h in rw (← e) tt
encoded-readable {E} codec back (x ∷ events) ts h =
    let (t, rest, e, e', same) = traverse-cons codec.encode x events ts h in
    subst (All (λ t. (e : E) × (codec.decode t ≡ ok e))) same
      ((x, back x t e), encoded-readable codec back events rest e')

module _ {E : Type 0} (codec : JsonCodec E) (json : JsonTexts) (after : Database → Result Database)
    (d d' : Database) (request : AppendEventsRequest E) (records : List (EventRecord E))
    (i : Inserted codec json after d d' request records) where
  pub rows_of-Inserted :
      rows_of d' request.meeting_id
      ≡ rows_of d request.meeting_id ++ new_rows request.meeting_id i.n i.ts
  rows_of-Inserted =
      rows_of-events (with_events d (new_rows request.meeting_id i.n i.ts)) d' request.meeting_id
        i.events_lem
      ∙ rows_of-with_events d request.meeting_id i.n i.ts

  pub rows_of-Inserted_other : (m : String) → request.meeting_id ≢ m → rows_of d' m ≡ rows_of d m
  rows_of-Inserted_other m other =
      rows_of-events (with_events d (new_rows request.meeting_id i.n i.ts)) d' m i.events_lem
      ∙ rows_of-with_events_other d request.meeting_id m i.n i.ts other

  module _ (v : IsValid codec json d) where
    Inserted-IsNumbered : IsNumbered d'
    Inserted-IsNumbered m = elim (Bool-cases (request.meeting_id == m)) [
      | inl e ↦
          let k = i.n_lem in
          subst (λ m. Numbered 0 (rows_of d' m)) ((==_iff request.meeting_id m).0 e)
            (rw rows_of-Inserted (
              Numbered-append 0 (rows_of d request.meeting_id)
                (new_rows request.meeting_id i.n i.ts) (v.numbered request.meeting_id)
                (subst (λ n. Numbered n (new_rows request.meeting_id i.n i.ts)) (omega arith)
                  (new_rows-Numbered request.meeting_id i.n i.ts))))
      | inr e ↦
          rw (rows_of-Inserted_other m (λ q. cc (e, (==_iff request.meeting_id m).1 q)))
            (v.numbered m)
    ]

    Inserted-rest : (noted : IdempotencyRow) → IsNoted json d noted → IsNoted json d' noted
    Inserted-rest noted h = elim (Bool-cases (request.meeting_id == noted.meeting_id)) [
      | inl e ↦
          let q = (==_iff request.meeting_id noted.meeting_id).0 e in
          let new = new_rows request.meeting_id i.n i.ts in
          let old = rows_of d noted.meeting_id in
          let within : EventRow → Bool = λ row.
            leb noted.first_position row.position
            && ltb row.position (noted.first_position + noted.event_count) in
          let rows : rows_of d' noted.meeting_id ≡ old ++ new =
            subst (λ m. rows_of d' m ≡ rows_of d m ++ new) q rows_of-Inserted in
          let n_lem : i.n ≡ length old = subst (λ m. i.n ≡ length (rows_of d m)) q i.n_lem in
          let ends = h.ends in
          let behind =
            range_new request.meeting_id i.n noted.first_position noted.event_count i.ts
              (omega arith) in
          IsNoted-transfer json d d' noted (omega (arith, ap length rows, length-append old new))
            (ap (filter within) rows
              ∙ filter-append within old new
              ∙ rw (filter_none within new behind) (append-nil (filter within old)))
            h
      | inr e ↦
          let same =
            rows_of-Inserted_other noted.meeting_id
              (λ q. cc (e, (==_iff request.meeting_id noted.meeting_id).1 q)) in
          IsNoted-transfer json d d' noted (omega (arith, ap length same))
            (ap
              (filter (λ row.
                leb noted.first_position row.position
                && ltb row.position (noted.first_position + noted.event_count)))
              same)
            h
    ]

    -- The row that is noted now.
    Inserted-first :
        (key : Option String)
        → All (IsNoted json d') (
            noted_rows request key
              (fingerprint_of json request i.ts)
              (json.stringify i.ts)
              i.n
              (length i.ts))
    Inserted-first none = tt
    Inserted-first (some key) =
        let m = request.meeting_id in
        let new = new_rows m i.n i.ts in
        let old = rows_of d m in
        let within : EventRow → Bool =
          λ row. leb (i.n + 1) row.position && ltb row.position (i.n + 1 + length i.ts) in
        let n_lem = i.n_lem in
        let before =
          range_old i.n (i.n + 1) (length i.ts) old
            (All-map old (λ row b. omega arith) (Numbered-bounded 0 old (v.numbered m)))
            (omega arith) in
        let there = range-All m i.n (i.n + 1) (length i.ts) i.ts (omega arith) (omega arith) in
        let range : filter within (rows_of d' m) ≡ new =
          ap (filter within) rows_of-Inserted
          ∙ filter-append within old new
          ∙ rw (filter_none within old before) (filter-All within new there) in
        (
          record {
            starts = omega arith;
            ends = omega (
              arith,
              ap length rows_of-Inserted,
              length-append old new,
              length-new_rows m i.n i.ts,
            );
            counted = ap length range ∙ length-new_rows m i.n i.ts;
            payloads =
                ap (λ rows. json.stringify (map (λ row. row.payload_json) rows)) range
                ∙ ap json.stringify (payloads-new_rows m i.n i.ts);
          },
          tt,
        )

    Inserted-IsValid :
        ((e : E) (t : String) → codec.encode e ≡ ok t → codec.decode t ≡ ok e)
        → IsValid codec json d'
    Inserted-IsValid back =
        let Readable : EventRow → Type 0 =
          λ row. (e : E) × (codec.decode row.payload_json ≡ ok e) in
        let new = new_rows request.meeting_id i.n i.ts in
        record {
          numbered = Inserted-IsNumbered;
          readable = subst (All Readable) (sym i.events_lem) (
              All-append Readable d.events new v.readable (
                new_rows-All (λ t. (e : E) × (codec.decode t ≡ ok e)) request.meeting_id i.n i.ts
                  (encoded-readable codec back request.events i.ts i.encoded)));
          noted = subst (All (IsNoted json d')) (sym i.appends_lem) (
              All-append (IsNoted json d') d.event_appends _
                (All-map d.event_appends Inserted-rest v.noted)
                (Inserted-first request.idempotency_key));
        }

module _ {E : Type 0} (codec : JsonCodec E) (json : JsonTexts)
    (back : (e : E) (t : String) → codec.encode e ≡ ok t → codec.decode t ≡ ok e) where
  Outcome-IsValid :
      (after : Database → Result Database) (d d' : Database) (request : AppendEventsRequest E)
      (outcome : AppendOutcome E)
      → IsValid codec json d
      → Outcome codec json after d d' request outcome
      → IsValid codec json d'
  Outcome-IsValid after d d' request (appended records) v i =
      Inserted-IsValid codec json after d d' request records i v back
  Outcome-IsValid after d d' request (replayed records) v i = subst (IsValid codec json) (sym i.0) v
  Outcome-IsValid after d d' request (position_conflict actual expected) v i =
      subst (IsValid codec json) (sym i.0) v
  Outcome-IsValid after d d' request (AppendOutcome.idempotency_conflict key) v i =
      subst (IsValid codec json) (sym i.0) v

  -- Every call of `appendSqlite` that returns, with a hook that leaves the tables of events alone,
  -- keeps them well formed, if the codec reads what it writes: the events of each meeting stand at
  -- the positions 1, 2, …, each can be read, and each append that was noted with a key has its
  -- events there.
  pub append_sqlite-IsValid :
      (after : Database → Result Database) (d d' : Database) (request : AppendEventsRequest E)
      (outcome : AppendOutcome E)
      → KeepsEvents after
      → IsValid codec json d
      → append_sqlite codec json after d request ≡ ok (d', outcome)
      → IsValid codec json d'
  append_sqlite-IsValid after d d' request outcome keeps v h =
      Outcome-IsValid after d d' request outcome v (
        append_sqlite-Outcome codec json after request d d' outcome keeps
          (v.numbered request.meeting_id) h)
