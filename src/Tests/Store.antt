-- ===== src/Tests/Store.antt =====
-- The event store of two appends, and its theorems at them.
use Prim.Native.Char.{Char, code}
use counterpoint_living_deci.Base.{
  ◌==◌, string_eq, not, List, String, [], any, ap, ap₂, arith, false, filter, find, fold, none, ok,
  refl, some, sym, traverse, ℕ, ◌∷◌, ◌≡◌, ◌≢◌,
}
use counterpoint_living_deci.Store.{
  AppendEventsRequest, AppendOutcome, IsEventStore, appended, number, replayed,
}
use counterpoint_living_deci.Store.Projections.{
  EventProjectionCommitRequest, ProjectionScope, commit_events, get_projection, key_of,
  upsert_projection,
}
use counterpoint_living_deci.Store.Projections.Commit.{
  Committed, commit_events-Committed, get_projection-upsert,
}
use counterpoint_living_deci.Store.Sqlite.{append_sqlite, sqlite_event_store}
use counterpoint_living_deci.Store.Sqlite.Invariant.{IsValid}
use counterpoint_living_deci.Store.Sqlite.Later.{here, next, retry_lem}
use counterpoint_living_deci.Store.Sqlite.Lawful.{sqlite-IsEventStore}
use counterpoint_living_deci.Store.Sqlite.Outcomes.{KeepsEvents}
use counterpoint_living_deci.Store.Sqlite.Preserved.{append_sqlite-IsValid}
use counterpoint_living_deci.Store.Sqlite.Replay.{replay_lem}
use counterpoint_living_deci.Store.Sqlite.Tables.{
  Database, JsonCodec, JsonTexts, insert_event, order_by_position, owner_private_scope,
  require_non_empty, require_position, rows_of,
}
use counterpoint_living_deci.Store.Sqlite.Total.{append_sqlite_total}
use counterpoint_living_deci.Values.{is_below, is_safe_integer, of_ℕ, to_ℕ}

-- A codec that writes a text as it is, and a way to write a list of texts that keeps them apart.
abbrev plain_codec : JsonCodec String
plain_codec = record { decode = λ t. ok t; encode = λ t. ok t }

plain_codec-back : (e t : String) → plain_codec.encode e ≡ ok t → plain_codec.decode t ≡ ok e
plain_codec-back e t h = sym h

abbrev write_text : String → String → String
write_text String.[] rest = String.◌∷◌ "," rest
write_text (String.◌∷◌ c s) rest = String.◌∷◌ "x" (String.◌∷◌ c (write_text s rest))

abbrev write_texts : List String → String
write_texts [] = ""
write_texts (t ∷ ts) = write_text t (write_texts ts)

abbrev first_code : String → ℕ
first_code String.[] = 0
first_code (String.◌∷◌ c s) = code c

abbrev after_first : String → String
after_first String.[] = ""
after_first (String.◌∷◌ c s) = s

abbrev first_of : Char → String → Char
first_of other String.[] = other
first_of other (String.◌∷◌ c s) = c

write_text-injective : (s t r q : String) → write_text s r ≡ write_text t q → (s ≡ t) × (r ≡ q)
write_text-injective String.[] String.[] r q h = (refl, ap after_first h)
write_text-injective String.[] (String.◌∷◌ c t) r q h = absurd (omega (arith, ap first_code h))
write_text-injective (String.◌∷◌ c s) String.[] r q h = absurd (omega (arith, ap first_code h))
write_text-injective (String.◌∷◌ c s) (String.◌∷◌ e t) r q h =
    let same : c ≡ e = ap (λ w. first_of c (after_first w)) h in
    let rest : write_text s r ≡ write_text t q = ap (λ w. after_first (after_first w)) h in
    let (f, g) = write_text-injective s t r q rest in (ap₂ String.◌∷◌ same f, g)

write_text-nil : (t r : String) → write_text t r ≢ ""
write_text-nil String.[] r h = absurd (omega (arith, ap first_code h))
write_text-nil (String.◌∷◌ c t) r h = absurd (omega (arith, ap first_code h))

write_texts-injective : (ts us : List String) → write_texts ts ≡ write_texts us → ts ≡ us
write_texts-injective [] [] h = refl
write_texts-injective [] (u ∷ us) h = absurd (write_text-nil u (write_texts us) (sym h))
write_texts-injective (t ∷ ts) [] h = absurd (write_text-nil t (write_texts ts) h)
write_texts-injective (t ∷ ts) (u ∷ us) h =
    let (e, rest) = write_text-injective t u (write_texts ts) (write_texts us) h in
    ap₂ (λ x xs. x ∷ xs) e (write_texts-injective ts us rest)

-- Every text is taken for JSON but the empty one.
abbrev plain_texts : JsonTexts
plain_texts = record { is_json = λ value. not (value == ""); stringify = write_texts }

abbrev one_two : List String
one_two = "one" ∷ "two" ∷ []

abbrev nothing_stored : Database
nothing_stored = record { events = []; event_appends = []; projections = [] }

nothing_stored-IsValid : IsValid plain_codec plain_texts nothing_stored
unfolding rows_of filter
nothing_stored-IsValid = record { numbered = λ m. tt; readable = tt; noted = tt }

abbrev first_request : AppendEventsRequest String
first_request = record {
  events = one_two;
  expected_position = some (of_ℕ 0);
  idempotency_key = some "first";
  meeting_id = "m";
  payload_fingerprint = none;
  trust_payload_fingerprint_for_replay = false;
}

abbrev first_stored : Database
first_stored = record {
  events =
      record { meeting_id = "m"; payload_json = "one"; position = 1 }
      ∷ record { meeting_id = "m"; payload_json = "two"; position = 2 }
      ∷ [];
  event_appends =
      record {
        meeting_id = "m";
        idempotency_key = "first";
        event_count = 2;
        event_payloads_json = write_texts one_two;
        first_position = 1;
        payload_fingerprint = write_texts one_two;
      }
      ∷ [];
  projections = [];
}

first_append :
    append_sqlite plain_codec plain_texts (λ d. ok d) nothing_stored first_request
    ≡ ok (first_stored, appended (number 0 one_two))
unfolding append_sqlite traverse require_non_empty require_position is_safe_integer is_below find
    to_ℕ rows_of filter insert_event any
first_append = refl

no_hook-KeepsEvents : KeepsEvents (λ d. ok d)
no_hook-KeepsEvents d d' h = let same : d ≡ d' = cc h in rw (← same) (refl, refl)

sqlite-IsEventStore_example :
    IsEventStore (sqlite_event_store plain_codec plain_texts) (IsValid plain_codec plain_texts)
sqlite-IsEventStore_example = sqlite-IsEventStore plain_codec plain_texts plain_codec-back

append_sqlite-IsValid_example : IsValid plain_codec plain_texts first_stored
append_sqlite-IsValid_example =
    append_sqlite-IsValid plain_codec plain_texts plain_codec-back (λ d. ok d) nothing_stored
      first_stored first_request (appended (number 0 one_two)) no_hook-KeepsEvents
      nothing_stored-IsValid first_append

first_stored-IsValid : IsValid plain_codec plain_texts first_stored
first_stored-IsValid =
    append_sqlite-IsValid plain_codec plain_texts plain_codec-back (λ d. ok d) nothing_stored
      first_stored first_request (appended (number 0 one_two)) no_hook-KeepsEvents
      nothing_stored-IsValid first_append

first_again :
    append_sqlite plain_codec plain_texts (λ d. ok d) first_stored first_request
    ≡ ok (first_stored, replayed (number 0 one_two))
unfolding append_sqlite traverse require_non_empty require_position is_safe_integer is_below find
    to_ℕ rows_of filter order_by_position
first_again = refl

replay_lem_example :
    (first_stored ≡ first_stored) × ((n : ℕ) × (number 0 one_two ≡ number n one_two))
replay_lem_example =
    replay_lem plain_codec plain_texts plain_codec-back write_texts-injective (λ d. ok d)
      first_stored first_stored first_request (number 0 one_two) no_hook-KeepsEvents
      first_stored-IsValid refl first_again

-- An append without a key, and the tables after it.
abbrev second_request : AppendEventsRequest String
second_request = record first_request {
  events = "three" ∷ [];
  expected_position = none;
  idempotency_key = none;
}

abbrev second_stored : Database
second_stored = record first_stored {
  events =
      record { meeting_id = "m"; payload_json = "one"; position = 1 }
      ∷ record { meeting_id = "m"; payload_json = "two"; position = 2 }
      ∷ record { meeting_id = "m"; payload_json = "three"; position = 3 }
      ∷ [];
}

second_append :
    append_sqlite plain_codec plain_texts (λ d. ok d) first_stored second_request
    ≡ ok (second_stored, appended (number 2 ("three" ∷ [])))
unfolding append_sqlite traverse require_non_empty require_position is_safe_integer is_below find
    to_ℕ rows_of filter insert_event any
second_append = refl

retry_lem_example :
    append_sqlite plain_codec plain_texts (λ d. ok d) second_stored first_request
    ≡ ok (second_stored, replayed (number 0 one_two))
retry_lem_example =
    retry_lem plain_codec plain_texts plain_codec-back write_texts-injective (λ d. ok d)
      nothing_stored first_stored second_stored first_request (number 0 one_two) "first"
      no_hook-KeepsEvents nothing_stored-IsValid refl first_append
      (next (λ d. ok d) second_request (appended (number 2 ("three" ∷ []))) here no_hook-KeepsEvents
        second_append)

append_sqlite_total_example :
    (out : Database × AppendOutcome String) × (append_sqlite plain_codec plain_texts
        (λ d. ok d)
        first_stored
        second_request
      ≡ ok out)
unfolding require_non_empty traverse rows_of filter
append_sqlite_total_example =
    append_sqlite_total plain_codec plain_texts (λ d. ok d) (λ d. (d, refl)) first_stored
      second_request ("three" ∷ []) first_stored-IsValid refl refl refl refl (omega arith)
      ((refl, tt), refl)

-- A commit of an event with the projection of one owner.
abbrev owner_scope : ProjectionScope
owner_scope = record { meeting_id = "m"; owner_participant_id = some "p"; projection = "workspace" }

abbrev commit_request : EventProjectionCommitRequest String String
commit_request = record {
  append = record {
    events = one_two;
    expected_position = of_ℕ 0;
    idempotency_key = "first";
    meeting_id = "m";
    payload_fingerprint = none;
    trust_payload_fingerprint_for_replay = false;
  };
  projections = record { scope = owner_scope; value = "mine" } ∷ [];
}

abbrev committed_database : Database
committed_database = record first_stored {
  projections =
      record {
        key = record {
          meeting_id = "m";
          projection = "workspace";
          scope_kind = owner_private_scope;
          owner_participant_id = "p";
        };
        payload_json = "mine";
      }
      ∷ [];
}

first_commit :
    commit_events plain_codec plain_codec plain_texts nothing_stored commit_request
    ≡ ok (committed_database, appended (number 0 one_two))
unfolding commit_events append_sqlite traverse require_non_empty require_position is_safe_integer
    is_below find to_ℕ rows_of filter insert_event any fold key_of
first_commit = refl

commit_events-Committed_example :
    Committed plain_codec plain_codec nothing_stored committed_database commit_request
      (appended (number 0 one_two))
commit_events-Committed_example =
    commit_events-Committed plain_codec plain_codec plain_texts plain_codec-back plain_codec-back
      nothing_stored committed_database commit_request (appended (number 0 one_two))
      nothing_stored-IsValid (tt, tt) first_commit

abbrev shared_scope_of_m : ProjectionScope
shared_scope_of_m = record owner_scope { owner_participant_id = none }

first_put : upsert_projection plain_codec first_stored owner_scope "mine" ≡ ok committed_database
unfolding upsert_projection key_of require_non_empty
first_put = refl

get_projection-upsert_example :
    (get_projection plain_codec committed_database owner_scope ≡ ok (some "mine"))
    × (shared_scope_of_m ≢ owner_scope
        → get_projection plain_codec committed_database shared_scope_of_m
          ≡ get_projection plain_codec first_stored shared_scope_of_m)
get_projection-upsert_example =
    get_projection-upsert plain_codec plain_codec-back first_stored committed_database owner_scope
      shared_scope_of_m "mine" first_put
