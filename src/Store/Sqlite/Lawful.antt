-- ===== src/Store/Sqlite/Lawful.antt =====
-- The store over the tables as an event store in the sense of packages/ports/src/event-store.ts.
use counterpoint_living_deci.Application.Authorization.{access_eq}
use counterpoint_living_deci.Base.{
  >>-eq-ok_iff, All, Bool, Bool-cases, List, Option, Result, String, [], ap, arith, false, filter,
  inl, inr, ltb, nat_eq, none, ok, option_eq, refl, string_eq, sym, traverse, traverse-cons,
  traverse_total, ℕ, ◌++◌, ◌+◌, ◌==◌, ◌∙◌, ◌∷◌, ◌≡◌,
}
use counterpoint_living_deci.Base.Keys.{All-map}
use counterpoint_living_deci.Entities.Common.{confirmation_eq, origin_eq, visibility_eq}
use counterpoint_living_deci.Entities.Decisions.{action_status_eq, status_eq, task_state_eq}
use counterpoint_living_deci.Entities.People.{capability_eq}
use counterpoint_living_deci.Store.{
  AppendEventsRequest, AppendOutcome, Appends, EventRecord, IsEventStore, appended, is_appended,
  number, position_conflict, replayed,
}
use counterpoint_living_deci.Store.Sqlite.{append_sqlite, load, read_row, sqlite_event_store}
use counterpoint_living_deci.Store.Sqlite.Append.{new_rows, read_position_lem}
use counterpoint_living_deci.Store.Sqlite.Invariant.{IsValid}
use counterpoint_living_deci.Store.Sqlite.Outcomes.{Inserted, KeepsEvents, Outcome}
use counterpoint_living_deci.Store.Sqlite.Preserved.{
  append_sqlite-IsValid, rows_of-Inserted, rows_of-Inserted_other,
}
use counterpoint_living_deci.Store.Sqlite.Returned.{append_sqlite-Outcome, conflicts_with-none}
use counterpoint_living_deci.Store.Sqlite.Rows.{
  Numbered, Numbered-Ascending, Numbered-bounded, filter-All, order_by_position-Ascending,
  traverse-append,
}
use counterpoint_living_deci.Store.Sqlite.Tables.{
  Database, EventRow, JsonCodec, JsonTexts, require_non_empty, rows_of,
}
use counterpoint_living_deci.Values.{Number}

pub All-filter {ℓ κ} :
    {A : Type ℓ} (P : A → Type κ) (p : A → Bool) (xs : List A) → All P xs → All P (filter p xs)
unfolding filter
All-filter P p [] h = tt
All-filter P p (x ∷ xs) h = elim (Bool-cases (p x)) [
  | inl e ↦ rw e (h.0, All-filter P p xs h.1)
  | inr e ↦ rw e (All-filter P p xs h.1)
]

module _ {E : Type 0} (codec : JsonCodec E) where
  -- The rows of a meeting are in order, so a whole load reads them as they stand.
  pub load_lem :
      (d : Database) (m : String)
      → Numbered 0 (rows_of d m)
      → require_non_empty m ≡ ok tt
      → load codec d m none ≡ traverse (read_row codec) (rows_of d m)
  unfolding load
  load_lem d m h named =
      let positive : EventRow → Bool = λ row. ltb 0 row.position in
      let all : filter positive (rows_of d m) ≡ rows_of d m =
        filter-All positive (rows_of d m)
          (All-map (rows_of d m) (λ row b. ground arith) (Numbered-bounded 0 (rows_of d m) h)) in
      rw named (
        rw all (
          rw (order_by_position-Ascending 0 (rows_of d m) (Numbered-Ascending 0 (rows_of d m) h))
            refl))

  -- A load reads the rows of its meeting only.
  pub load-rows :
      (d d' : Database) (m : String) (after : Option Number)
      → rows_of d' m ≡ rows_of d m
      → load codec d' m after ≡ load codec d m after
  unfolding load
  load-rows d d' m after e = rw e refl

  pub rows-readable :
      (rows : List EventRow)
      → All (λ row. (e : E) × (codec.decode row.payload_json ≡ ok e)) rows
      → (records : List (EventRecord E)) × (traverse (read_row codec) rows ≡ ok records)
  unfolding read_row
  rows-readable rows h =
      traverse_total (read_row codec) rows
        (All-map rows (λ row r. (record { event = r.0; position = row.position }, rw (r.1) refl)) h)

  -- The new rows are read back as the events, at their positions.
  pub read_row-new_rows :
      ((e : E) (t : String) → codec.encode e ≡ ok t → codec.decode t ≡ ok e)
      → (m : String) (n : ℕ) (events : List E) (ts : List String)
      → traverse codec.encode events ≡ ok ts
      → traverse (read_row codec) (new_rows m n ts) ≡ ok (number n events)
  unfolding read_row traverse
  read_row-new_rows back m n [] ts h = let e : [] ≡ ts = cc h in rw (← e) refl
  read_row-new_rows back m n (x ∷ events) ts h =
      let (t, rest, e, e', same) = traverse-cons codec.encode x events ts h in
      rw (← same) (rw (back x t e, read_row-new_rows back m (n + 1) events rest e') refl)

module _ {E : Type 0} (codec : JsonCodec E) (json : JsonTexts)
    (back : (e : E) (t : String) → codec.encode e ≡ ok t → codec.decode t ≡ ok e) where
  pub appended_named :
      (after : Database → Result Database) (d : Database) (request : AppendEventsRequest E)
      {out : Database × AppendOutcome E}
      → append_sqlite codec json after d request ≡ ok out
      → require_non_empty request.meeting_id ≡ ok tt
  unfolding append_sqlite
  appended_named after d request h = ((>>-eq-ok_iff (require_non_empty request.meeting_id) _).0 h).0

  pub Inserted-Appends :
      (after : Database → Result Database) (d d' : Database) (request : AppendEventsRequest E)
      (records : List (EventRecord E))
      → IsValid codec json d
      → IsValid codec json d'
      → require_non_empty request.meeting_id ≡ ok tt
      → Inserted codec json after d d' request records
      → Appends (sqlite_event_store codec json) d d' request records
  Inserted-Appends after d d' request records v v' named i =
      let m = request.meeting_id in
      let new = new_rows m i.n i.ts in
      let rows = rows_of-Inserted codec json after d d' request records i in
      let (before, reading) =
        rows-readable codec (rows_of d m)
          (unfold rows_of in (All-filter _ (λ row. row.meeting_id == m) d.events v.readable)) in
      let reading' : traverse (read_row codec) (rows_of d' m)
          ≡ ok (before ++ number i.n request.events) =
        ap (traverse (read_row codec)) rows
        ∙ traverse-append (read_row codec) (rows_of d m) new reading
            (read_row-new_rows codec back m i.n request.events i.ts i.encoded) in
      record {
        last = i.n;
        before = before;
        position_before = rw named (ap ok (read_position_lem d m (v.numbered m) ∙ sym i.n_lem));
        records_lem = i.records_lem;
        load_before = load_lem codec d m (v.numbered m) named ∙ reading;
        load_after =
            load_lem codec d' m (v'.numbered m) named
            ∙ reading'
            ∙ ap (λ r. ok (before ++ r)) (sym i.records_lem);
        expected = λ w e. conflicts_with-none request.expected_position i.n w i.expected_lem e;
        others = λ other differs. load-rows codec d d' other none (
            rows_of-Inserted_other codec json after d d' request records i other
              (λ q. differs (sym q)));
      }

  pub Outcome-unchanged :
      (after : Database → Result Database) (d d' : Database) (request : AppendEventsRequest E)
      (outcome : AppendOutcome E)
      → Outcome codec json after d d' request outcome
      → is_appended outcome ≡ false
      → d' ≡ d
  Outcome-unchanged after d d' request (appended records) i h = cc h
  Outcome-unchanged after d d' request (replayed records) i h = i.0
  Outcome-unchanged after d d' request (position_conflict actual expected) i h = i.0
  Outcome-unchanged after d d' request (AppendOutcome.idempotency_conflict key) i h = i.0

  -- If the codec reads what it writes, the SQLite store meets the contract of an event store on
  -- well-formed tables: an append keeps them well formed; events that are appended take the
  -- positions after the last of their meeting, which is the expected one if one is given, follow
  -- what a load gave before, and leave the loads of other meetings; and any other outcome changes
  -- nothing.
  pub sqlite-IsEventStore : IsEventStore (sqlite_event_store codec json) (IsValid codec json)
  sqlite-IsEventStore =
      let keep : KeepsEvents (λ d. ok d) =
        λ d d' h. let same : d ≡ d' = cc h in rw (← same) (refl, refl) in
      let outcome_of = append_sqlite-Outcome codec json (λ d. ok d) in
      record {
        append-Good = λ d d' request outcome v h.
            append_sqlite-IsValid codec json back (λ d. ok d) d d' request outcome keep v h;
        append_appends = λ d d' request records v h.
            Inserted-Appends (λ d. ok d) d d' request records v
              (append_sqlite-IsValid codec json back (λ d. ok d) d d' request (appended records)
                keep v h)
              (appended_named (λ d. ok d) d request h)
              (outcome_of request d d' (appended records) keep (v.numbered request.meeting_id) h);
        append_unchanged = λ d d' request outcome v h.
            Outcome-unchanged (λ d. ok d) d d' request outcome
              (outcome_of request d d' outcome keep (v.numbered request.meeting_id) h);
      }
