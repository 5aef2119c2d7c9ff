-- ===== src/Store/Projections/Commit.antt =====
-- What a projection that was written gives back, and what a commit does.
use counterpoint_living_deci.Application.Authorization.{access_eq}
use counterpoint_living_deci.Base.{
  ==_iff, ==_refl, >>-eq-ok_iff, >>=-eq-ok, All, Bool-cases, Fault, List, Option, Result,
  Result-cases, String, [], any, ap, err, false, find, fold, if◌then◌else◌, inl, inr, length,
  nat_eq, none, not, ok, option_eq, refl, some, string_eq, sym, throw_if, type_error, ◌++◌, ◌==◌,
  ◌>>=◌, ◌>>◌, ◌∙◌, ◌∷◌, ◌≡◌, ◌≢◌,
}
use counterpoint_living_deci.Entities.Common.{confirmation_eq, origin_eq, visibility_eq}
use counterpoint_living_deci.Entities.Decisions.{action_status_eq, status_eq, task_state_eq}
use counterpoint_living_deci.Entities.People.{capability_eq}
use counterpoint_living_deci.Store.{
  AppendOutcome, EventRecord, appended, is_appended, number, position_conflict, replayed,
}
use counterpoint_living_deci.Store.Projections.{
  EventProjectionCommitRequest, ProjectionScope, ProjectionWrite, append_request, commit_events,
  decode_projection, get_projection, key_eq, key_of, kind_eq, put_row, upsert_projection,
  write_projections,
}
use counterpoint_living_deci.Store.Projections.Keys.{find-put_row, key_of-injective}
use counterpoint_living_deci.Store.Sqlite.{append_sqlite, load}
use counterpoint_living_deci.Store.Sqlite.Invariant.{IsValid}
use counterpoint_living_deci.Store.Sqlite.Lawful.{
  Inserted-Appends, Outcome-unchanged, appended_named,
}
use counterpoint_living_deci.Store.Sqlite.Outcomes.{KeepsEvents}
use counterpoint_living_deci.Store.Sqlite.Preserved.{append_sqlite-IsValid}
use counterpoint_living_deci.Store.Sqlite.Returned.{append_sqlite-Outcome}
use counterpoint_living_deci.Store.Sqlite.Tables.{
  Database, JsonCodec, JsonTexts, ProjectionKey, ProjectionRow, require_non_empty, require_position,
}
use counterpoint_living_deci.Values.{to_ℕ}

-- Each write names a scope that no later one names.
abbrev pub ApartScopes : {P : Type 0} → List (ProjectionWrite P) → Type 0
ApartScopes [] = Unit {0}
ApartScopes (write ∷ writes) = All (λ later. write.scope ≢ later.scope) writes × ApartScopes writes

pub get_projection-projections :
    {P : Type 0} (codec : JsonCodec P) (d e : Database) (scope : ProjectionScope)
    → e.projections ≡ d.projections
    → get_projection codec e scope ≡ get_projection codec d scope
unfolding get_projection
get_projection-projections codec d e scope h =
    ap (λ rows. key_of scope >>= λ key. decode_projection codec (find (λ row. row.key == key) rows))
      h

module _ {P : Type 0} (codec : JsonCodec P)
    (back : (p : P) (t : String) → codec.encode p ≡ ok t → codec.decode t ≡ ok p) where
  -- A write puts the value under the key of its scope, and leaves the events.
  pub upsert_projection-eq-ok :
      (d : Database) (scope : ProjectionScope) (value : P) {d' : Database}
      → upsert_projection codec d scope value ≡ ok d'
      → (key : ProjectionKey) × (payload : String) × (key_of scope ≡ ok key)
        × (codec.encode value ≡ ok payload)
        × (record d {
          projections = put_row (record { key = key; payload_json = payload }) d.projections;
        }
            ≡ d')
  unfolding upsert_projection
  upsert_projection-eq-ok d scope value h =
      let finish : ProjectionKey → String → Result Database = λ key payload. ok (record d {
        projections = put_row (record { key = key; payload_json = payload }) d.projections;
      }) in
      let (key, keyed, h1) =
        >>=-eq-ok (key_of scope) (λ key. codec.encode value >>= λ payload. finish key payload) h in
      let (payload, encoded, h2) = >>=-eq-ok (codec.encode value) (finish key) h1 in
      (key, payload, keyed, encoded, cc h2)

  abbrev find_at : Database → ProjectionKey → Option ProjectionRow
  find_at d key = find (λ row. row.key == key) d.projections

  get_projection_lem :
      (d : Database) (scope : ProjectionScope) (key : ProjectionKey)
      → key_of scope ≡ ok key
      → get_projection codec d scope ≡ decode_projection codec (find_at d key)
  unfolding get_projection
  get_projection_lem d scope key h = rw h refl

  -- A query whose scope is refused gives the error.
  get_projection-refused :
      (d : Database) (scope : ProjectionScope) (fault : Fault)
      → key_of scope ≡ err fault
      → get_projection codec d scope ≡ err fault
  unfolding get_projection
  get_projection-refused d scope fault h = rw h refl

  -- If the codec reads what it writes, a projection that was put is the one that is got under its
  -- scope, and every other scope, of another meeting, projection or owner, gives what it gave
  -- before.
  pub get_projection-upsert :
      (d d' : Database) (scope other : ProjectionScope) (value : P)
      → upsert_projection codec d scope value ≡ ok d'
      → (get_projection codec d' scope ≡ ok (some value))
        × (other ≢ scope → get_projection codec d' other ≡ get_projection codec d other)
  unfolding decode_projection
  get_projection-upsert d d' scope other value h =
      let (key, payload, keyed, encoded, same) = upsert_projection-eq-ok d scope value h in
      let row : ProjectionRow = record { key = key; payload_json = payload } in
      let found : (k : ProjectionKey)
          → find_at d' k ≡ (if key == k then some row else find_at d k) =
        λ k. ap (λ d. find_at d k) (sym same) ∙ find-put_row row d.projections k in
      (
        get_projection_lem d' scope key keyed
            ∙ ap (decode_projection codec)
                (found key ∙ ap (λ b. if b then some row else find_at d key) (==_refl key))
            ∙ rw (back value payload encoded) refl,
        λ differs. elim (Result-cases (key_of other)) [
          | inl (k, e) ↦
              let apart : (key == k) ≡ false = elim (Bool-cases (key == k)) [
                | inl q ↦ absurd (
                    differs (key_of-injective other scope k e (keyed ∙ ap ok ((==_iff key k).0 q))))
                | inr q ↦ q
              ] in
              get_projection_lem d' other k e
              ∙ ap (decode_projection codec)
                  (found k ∙ ap (λ b. if b then some row else find_at d k) apart)
              ∙ sym (get_projection_lem d other k e)
          | inr (fault, e) ↦
              get_projection-refused d' other fault e ∙ sym (get_projection-refused d other fault e)
        ],
      )

  write_projections-cons :
      (d : Database) (write : ProjectionWrite P) (writes : List (ProjectionWrite P))
      {out : Database}
      → write_projections codec d (write ∷ writes) ≡ ok out
      → (d' : Database) × (upsert_projection codec d write.scope write.value ≡ ok d')
        × (write_projections codec d' writes ≡ ok out)
  unfolding write_projections fold
  write_projections-cons d write writes h =
      >>=-eq-ok (upsert_projection codec d write.scope write.value)
        (λ d'. write_projections codec d' writes) h

  -- The writes leave the events alone.
  pub write_projections-KeepsEvents :
      (writes : List (ProjectionWrite P)) → KeepsEvents (λ d. write_projections codec d writes)
  unfolding write_projections fold
  write_projections-KeepsEvents [] d d' h = let same : d ≡ d' = cc h in rw (← same) (refl, refl)
  write_projections-KeepsEvents (write ∷ writes) d d' h =
      let (e, written, h') = write_projections-cons d write writes h in
      let (_, _, _, _, same) = upsert_projection-eq-ok d write.scope write.value written in
      let rest = write_projections-KeepsEvents writes e d' h' in
      (rest.0 ∙ sym (ap (λ d. d.events) same), rest.1 ∙ sym (ap (λ d. d.event_appends) same))

  -- A scope that no write names gives what it gave before.
  pub write_projections-other :
      (d d' : Database) (scope : ProjectionScope) (writes : List (ProjectionWrite P))
      → All (λ write. scope ≢ write.scope) writes
      → write_projections codec d writes ≡ ok d'
      → get_projection codec d' scope ≡ get_projection codec d scope
  unfolding write_projections fold
  write_projections-other d d' scope [] none_of h =
      let same : d ≡ d' = cc h in ap (λ d. get_projection codec d scope) (sym same)
  write_projections-other d d' scope (write ∷ writes) none_of h =
      let (e, written, h') = write_projections-cons d write writes h in
      write_projections-other e d' scope writes none_of.1 h'
      ∙ (get_projection-upsert d e write.scope scope write.value written).1 none_of.0

  pub write_projections_lem :
      (d d' : Database) (writes : List (ProjectionWrite P))
      → ApartScopes writes
      → write_projections codec d writes ≡ ok d'
      → All (λ write. get_projection codec d' write.scope ≡ ok (some write.value)) writes
  write_projections_lem d d' [] apart h = tt
  write_projections_lem d d' (write ∷ writes) apart h =
      let (e, written, h') = write_projections-cons d write writes h in
      (
        write_projections-other e d' write.scope writes apart.0 h'
            ∙ (get_projection-upsert d e write.scope write.scope write.value written).0,
        write_projections_lem e d' writes apart.1 h',
      )

module _ {E P : Type 0} (events : JsonCodec E) (projections : JsonCodec P) where
  -- The events and the projections were written together, or nothing was.
  abbrev pub Committed :
      Database → Database → EventProjectionCommitRequest E P → AppendOutcome E → Type 0
  Committed d d' request (appended records) =
      (records ≡ number (to_ℕ request.append.expected_position) request.append.events)
      × ((before : List (EventRecord E)) × (load events d request.append.meeting_id none
            ≡ ok before)
          × (load events d' request.append.meeting_id none ≡ ok (before ++ records)))
      × All (λ write. get_projection projections d' write.scope ≡ ok (some write.value))
          request.projections
      × ((scope : ProjectionScope)
          → All (λ write. scope ≢ write.scope) request.projections
          → get_projection projections d' scope ≡ get_projection projections d scope)
  Committed d d' request _ = d' ≡ d

module _ {E P : Type 0} (events : JsonCodec E) (projections : JsonCodec P) (json : JsonTexts)
    (back : (e : E) (t : String) → events.encode e ≡ ok t → events.decode t ≡ ok e)
    (back_projection : (p : P) (t : String)
      → projections.encode p ≡ ok t
      → projections.decode t ≡ ok p) where
  pub commit_events-append :
      (d : Database) (request : EventProjectionCommitRequest E P) {out : Database × AppendOutcome E}
      → commit_events events projections json d request ≡ ok out
      → append_sqlite events json
          (λ d. write_projections projections d request.projections)
          d
          (append_request request.append)
        ≡ ok out
  unfolding commit_events
  commit_events-append d request h =
      let write =
        append_sqlite events json (λ d. write_projections projections d request.projections) d
          (append_request request.append) in
      let foreign =
        any (λ write. not (write.scope.meeting_id == request.append.meeting_id))
          request.projections in
      let scoped = throw_if foreign type_error >> write in
      let keyed = require_non_empty request.append.idempotency_key >> scoped in
      let placed = require_position request.append.expected_position >> keyed in
      let (_, h1) =
        (>>-eq-ok_iff (throw_if (length request.append.events == 0) type_error) placed).0 h in
      let (_, h2) = (>>-eq-ok_iff (require_position request.append.expected_position) keyed).0 h1 in
      let (_, h3) = (>>-eq-ok_iff (require_non_empty request.append.idempotency_key) scoped).0 h2 in
      ((>>-eq-ok_iff (throw_if foreign type_error) write).0 h3).1

  Inserted-Committed :
      (d d' : Database) (request : EventProjectionCommitRequest E P)
      (records : List (EventRecord E))
      → IsValid events json d
      → ApartScopes request.projections
      → append_sqlite events json
          (λ d. write_projections projections d request.projections)
          d
          (append_request request.append)
        ≡ ok (d', appended records)
      → Committed events projections d d' request (appended records)
  Inserted-Committed d d' request records v apart h =
      let after : Database → Result Database =
        λ d. write_projections projections d request.projections in
      let asked = append_request request.append in
      let keeps = write_projections-KeepsEvents projections back_projection request.projections in
      let v' =
        append_sqlite-IsValid events json back after d d' asked (appended records) keeps v h in
      let i =
        append_sqlite-Outcome events json after asked d d' (appended records) keeps
          (v.numbered request.append.meeting_id) h in
      let a =
        Inserted-Appends events json back after d d' asked records v v'
          (appended_named events json back after d asked h) i in
      let position = a.expected request.append.expected_position refl in
      (
        a.records_lem ∙ ap (λ n. number n request.append.events) (sym position),
        (a.before, a.load_before, a.load_after),
        write_projections_lem projections back_projection i.noted d' request.projections apart
            i.hooked,
        λ scope unnamed.
            write_projections-other projections back_projection i.noted d' scope request.projections
              unnamed i.hooked
            ∙ get_projection-projections projections d i.noted scope i.projections_lem,
      )

  commit_unchanged :
      (d d' : Database) (request : EventProjectionCommitRequest E P) (outcome : AppendOutcome E)
      → IsValid events json d
      → append_sqlite events json
          (λ d. write_projections projections d request.projections)
          d
          (append_request request.append)
        ≡ ok (d', outcome)
      → is_appended outcome ≡ false
      → d' ≡ d
  commit_unchanged d d' request outcome v h other =
      let after : Database → Result Database =
        λ d. write_projections projections d request.projections in
      let keeps = write_projections-KeepsEvents projections back_projection request.projections in
      Outcome-unchanged events json back after d d' (append_request request.append) outcome
        (append_sqlite-Outcome events json after (append_request request.append) d d' outcome keeps
          (v.numbered request.append.meeting_id) h)
        other

  -- If the codecs read what they write, a commit on well-formed tables, of projections with
  -- different scopes, does all or nothing. Either its events stand behind the others of their
  -- meeting, from the expected position on, every projection of the request is the one that is got
  -- under its scope, and every other scope gives what it gave before; or the outcome is a replay or
  -- a conflict, and the tables are as they were.
  pub commit_events-Committed :
      (d d' : Database) (request : EventProjectionCommitRequest E P) (outcome : AppendOutcome E)
      → IsValid events json d
      → ApartScopes request.projections
      → commit_events events projections json d request ≡ ok (d', outcome)
      → Committed events projections d d' request outcome
  commit_events-Committed d d' request (appended records) v apart h =
      Inserted-Committed d d' request records v apart (commit_events-append d request h)
  commit_events-Committed d d' request (replayed records) v apart h =
      commit_unchanged d d' request (replayed records) v (commit_events-append d request h) refl
  commit_events-Committed d d' request (position_conflict actual expected) v apart h =
      commit_unchanged d d' request (position_conflict actual expected) v
        (commit_events-append d request h) refl
  commit_events-Committed d d' request (AppendOutcome.idempotency_conflict key) v apart h =
      commit_unchanged d d' request (AppendOutcome.idempotency_conflict key) v
        (commit_events-append d request h) refl
