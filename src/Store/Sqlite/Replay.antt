-- ===== src/Store/Sqlite/Replay.antt =====
-- About a call of `append_sqlite` with the key of an earlier append.
use mathlib.Core.List.{Memᴰ}
use mathlib.Core.Path.{subst}
use native.Mathlib.Decide.{dec_lt}
use counterpoint_living_deci.Application.Authorization.{access_eq}
use counterpoint_living_deci.Base.{
  ==_iff, Bool, Bool-cases, List, Result, String, [], ap, arith, false, filter, inl, inr, leb,
  length, ltb, map, nat_beq_iff, nat_eq, ok, option_eq, refl, some, string_eq, sym, traverse,
  traverse-cons, true, ℕ, ◌&&◌, ◌+◌, ◌-◌, ◌==◌, ◌∙◌, ◌∷◌, ◌≡◌, ◌≤◌,
}
use counterpoint_living_deci.Base.Keys.{All-lookup, All-map, filter_none, find-some}
use counterpoint_living_deci.Entities.Common.{confirmation_eq, origin_eq, visibility_eq}
use counterpoint_living_deci.Entities.Decisions.{action_status_eq, status_eq, task_state_eq}
use counterpoint_living_deci.Entities.People.{capability_eq}
use counterpoint_living_deci.Store.{AppendEventsRequest, EventRecord, number, replayed}
use counterpoint_living_deci.Store.Sqlite.{append_sqlite, load_event_range, read_row}
use counterpoint_living_deci.Store.Sqlite.Invariant.{IsNoted, IsValid, range_rows}
use counterpoint_living_deci.Store.Sqlite.Outcomes.{KeepsEvents, Replayed}
use counterpoint_living_deci.Store.Sqlite.Returned.{append_sqlite-Outcome}
use counterpoint_living_deci.Store.Sqlite.Rows.{
  Ascending-filter, Numbered, Numbered-Ascending, Numbered-bounded, order_by_position-Ascending,
  traverse-inverse,
}
use counterpoint_living_deci.Store.Sqlite.Tables.{
  Database, EventRow, IdempotencyRow, JsonCodec, JsonTexts, find_append, order_by_position, rows_of,
}

pub find_append-some :
    (d : Database) (m key : String) (noted : IdempotencyRow)
    → find_append d m key ≡ some noted
    → Memᴰ noted d.event_appends × (noted.meeting_id ≡ m)
unfolding find_append
find_append-some d m key noted h =
    let is_same : IdempotencyRow → Bool =
      λ row. row.meeting_id == m && row.idempotency_key == key in
    let (there, same) = find-some is_same d.event_appends noted h in
    (there, ground (arith, same, ==_iff noted.meeting_id m))

module _ (first count : ℕ) where
  abbrev within : EventRow → Bool
  within row = leb first row.position && ltb row.position (first + count)

  -- From the first position on, the range holds the rows up to its end.
  filter-from :
      (k : ℕ) (rows : List EventRow)
      → first ≤ k + 1
      → Numbered k rows
      → Numbered k (filter within rows)
  unfolding filter
  filter-from k [] b h = tt
  filter-from k (row ∷ rows) b h = elim (Bool-cases (within row)) [
    | inl e ↦ rw e (h.0, filter-from (k + 1) rows (omega arith) h.1)
    | inr e ↦
        let beyond : first + count ≤ k + 1 = ground (arith, e, h.0) in
        let none_left =
          filter_none within rows
            (All-map rows (λ r b. ground arith) (Numbered-bounded (k + 1) rows h.1)) in
        rw e (rw none_left tt)
  ]

  -- The rows before the range are passed over.
  filter-Numbered :
      (k n : ℕ) (rows : List EventRow)
      → first ≡ n + 1
      → k ≤ n
      → Numbered k rows
      → Numbered n (filter within rows)
  unfolding filter
  filter-Numbered k n [] e l h = tt
  filter-Numbered k n (row ∷ rows) e l h = elim (dec_lt k n) [
    | yes lt ↦
        let out : within row ≡ false = ground (arith, h.0) in
        rw out (filter-Numbered (k + 1) n rows e (omega arith) h.1)
    | no ge ↦
        let same : k ≡ n = omega arith in
        subst (λ j. Numbered j (filter within (row ∷ rows))) same
          (filter-from k (row ∷ rows) (omega arith) h)
  ]

module _ {E : Type 0} (codec : JsonCodec E) where
  read_row-Numbered :
      (n : ℕ) (rows : List EventRow) (events : List E)
      → Numbered n rows
      → traverse codec.decode (map (λ row. row.payload_json) rows) ≡ ok events
      → traverse (read_row codec) rows ≡ ok (number n events)
  unfolding read_row traverse
  read_row-Numbered n [] events h e = let nothing : [] ≡ events = cc e in rw (← nothing) refl
  read_row-Numbered n (row ∷ rows) events h e =
      let (x, rest, one, others, same) =
        traverse-cons codec.decode row.payload_json (map (λ row. row.payload_json) rows) events e in
      rw (← same) (rw (one, read_row-Numbered (n + 1) rows rest h.1 others, h.0) refl)

  module _ (json : JsonTexts)
      (back : (e : E) (t : String) → codec.encode e ≡ ok t → codec.decode t ≡ ok e)
      (injective : (ts us : List String) → json.stringify ts ≡ json.stringify us → ts ≡ us) where
    -- The events that were noted with these texts are read back.
    pub load_event_range-IsNoted :
        (d : Database) (noted : IdempotencyRow) (events : List E) (ts : List String)
        → IsValid codec json d
        → IsNoted json d noted
        → traverse codec.encode events ≡ ok ts
        → noted.event_payloads_json ≡ json.stringify ts
        → load_event_range codec d noted.meeting_id noted.first_position noted.event_count
          ≡ ok (number (noted.first_position - 1) events)
    unfolding load_event_range
    load_event_range-IsNoted d noted events ts v h encoded same =
        let m = noted.meeting_id in
        let rows = range_rows d m noted.first_position noted.event_count in
        let starts = h.starts in
        let rising =
          Ascending-filter (within noted.first_position noted.event_count) 0 (rows_of d m)
            (Numbered-Ascending 0 (rows_of d m) (v.numbered m)) in
        let ordered : order_by_position rows ≡ rows = order_by_position-Ascending 0 rows rising in
        let numbered =
          filter-Numbered noted.first_position noted.event_count 0 (noted.first_position - 1)
            (rows_of d m) (omega arith) (omega arith) (v.numbered m) in
        let payloads : map (λ row. row.payload_json) rows ≡ ts =
          injective (map (λ row. row.payload_json) rows) ts (h.payloads ∙ same) in
        let decoded =
          ap (traverse codec.decode) payloads
          ∙ traverse-inverse codec.encode codec.decode back events ts encoded in
        let counted : (length rows == noted.event_count) ≡ true =
          (nat_beq_iff (length rows) noted.event_count).1 h.counted in
        rw (ordered, counted)
          (read_row-Numbered (noted.first_position - 1) rows events numbered decoded)

    -- What a replay gives, if the texts of the events are compared: the events of the request, at
    -- consecutive positions.
    pub Replayed-records :
        (d : Database) (request : AppendEventsRequest E) (records : List (EventRecord E))
        → IsValid codec json d
        → request.trust_payload_fingerprint_for_replay ≡ false
        → Replayed codec json d request records
        → (n : ℕ) × (records ≡ number n request.events)
    Replayed-records d request records v untrusted r =
        let m = request.meeting_id in
        let noted = r.previous in
        let (there, place) = find_append-some d m r.key noted r.found in
        let h = All-lookup (IsNoted json d) d.event_appends noted v.noted there in
        let loaded =
          load_event_range-IsNoted d noted request.events r.ts v h r.encoded
            (r.same_payloads untrusted) in
        let again : load_event_range codec d noted.meeting_id noted.first_position noted.event_count
            ≡ ok records =
          subst
            (λ m. load_event_range codec d m noted.first_position noted.event_count ≡ ok records)
            (sym place) r.loaded in
        (noted.first_position - 1, cc (again, loaded))

    -- If the codec reads what it writes and different lists of texts are written differently, a
    -- replay on well-formed tables changes nothing and gives exactly the events of the request, at
    -- consecutive positions, where the request does not ask to trust its fingerprint.
    pub replay_lem :
        (after : Database → Result Database) (d d' : Database) (request : AppendEventsRequest E)
        (records : List (EventRecord E))
        → KeepsEvents after
        → IsValid codec json d
        → request.trust_payload_fingerprint_for_replay ≡ false
        → append_sqlite codec json after d request ≡ ok (d', replayed records)
        → (d' ≡ d) × ((n : ℕ) × (records ≡ number n request.events))
    replay_lem after d d' request records keeps v untrusted h =
        let (same, r) =
          append_sqlite-Outcome codec json after request d d' (replayed records) keeps
            (v.numbered request.meeting_id) h in
        (same, Replayed-records d request records v untrusted r)
