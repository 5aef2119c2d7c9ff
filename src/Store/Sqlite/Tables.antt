-- ===== src/Store/Sqlite/Tables.antt =====
-- packages/adapters-node/src/sqlite.ts: the tables, the queries on them and the insertions. A table is
-- the list of its rows in the order of their insertion.
use counterpoint_living_deci.Application.Authorization.{access_eq}
use counterpoint_living_deci.Base.{
  Bool, List, Option, Result, String, [], any, constraint_violation, filter, find, if◌then◌else◌,
  leb, ltb, nat_eq, none, not, ok, option_eq, some, string_eq, throw_if, type_error, ℕ, ◌&&◌, ◌++◌,
  ◌==◌, ◌>>◌, ◌||◌, ◌∷◌,
}
use counterpoint_living_deci.Entities.Common.{confirmation_eq, origin_eq, visibility_eq}
use counterpoint_living_deci.Entities.Decisions.{action_status_eq, status_eq, task_state_eq}
use counterpoint_living_deci.Entities.People.{capability_eq}
use counterpoint_living_deci.Values.{Number, is_below, is_safe_integer, to_ℕ}

pub record EventRow : Type 0 where
  pub meeting_id : String
  pub payload_json : String
  pub position : ℕ

-- A row of `event_appends`.
pub record IdempotencyRow : Type 0 where
  pub meeting_id : String
  pub idempotency_key : String
  pub event_count : ℕ
  pub event_payloads_json : String
  pub first_position : ℕ
  pub payload_fingerprint : String

pub data ScopeKind : Type 0 where
  owner_private_scope shared_scope : ScopeKind

-- The primary key of `projections`.
pub record ProjectionKey : Type 0 where
  pub meeting_id : String
  pub projection : String
  pub scope_kind : ScopeKind
  pub owner_participant_id : String

pub record ProjectionRow : Type 0 where
  pub key : ProjectionKey
  pub payload_json : String

pub record Database : Type 0 where
  pub events : List EventRow
  pub event_appends : List IdempotencyRow
  pub projections : List ProjectionRow

-- The interface of json-codec.ts: either function may throw.
pub record JsonCodec (T : Type 0) : Type 0 where
  pub decode : String → Result T
  pub encode : T → Result String

-- `JSON.stringify` on a list of texts, and the function json_valid of the database.
pub record JsonTexts : Type 0 where
  pub is_json : String → Bool
  pub stringify : List String → String

unfoldable pub require_non_empty : String → Result (Unit {0})
require_non_empty value = throw_if (value == "") type_error

unfoldable pub require_position : Number → Result (Unit {0})
require_position value = throw_if (not (is_safe_integer value) || is_below value 0) type_error

abbrev pub require_defined : {A : Type 0} → (A → Result (Unit {0})) → Option A → Result (Unit {0})
require_defined check none = ok tt
require_defined check (some value) = check value

-- `options?.afterPosition ?? 0`.
abbrev pub after_of : Option Number → ℕ
after_of none = 0
after_of (some position) = to_ℕ position

-- The expected position where it is there and is another.
abbrev pub conflicts_with : Option Number → ℕ → Option Number
conflicts_with none actual = none
conflicts_with (some expected) actual = if to_ℕ expected == actual then none else some expected

abbrev pub first_or : String → List String → String
first_or other [] = other
first_or other (given ∷ _) = given

abbrev pub rest_of : List String → List String
rest_of [] = []
rest_of (_ ∷ rest) = rest

abbrev pub get_or : Option String → String → String
get_or none other = other
get_or (some given) other = given

-- `WHERE meeting_id = ?`.
unfoldable pub rows_of : Database → String → List EventRow
rows_of database meeting_id = filter (λ row. row.meeting_id == meeting_id) database.events

-- `ORDER BY position ASC`.
unfoldable pub insert_by_position : EventRow → List EventRow → List EventRow
insert_by_position row [] = row ∷ []
insert_by_position row (next ∷ rest) =
    if leb row.position next.position then row ∷ next ∷ rest else next ∷ insert_by_position row rest

unfoldable pub order_by_position : List EventRow → List EventRow
unfolding insert_by_position
order_by_position [] = []
order_by_position (row ∷ rows) = insert_by_position row (order_by_position rows)

-- `COALESCE(MAX(position), 0)`: the greatest of the positions and `greatest`.
unfoldable pub max_position : ℕ → List EventRow → ℕ
max_position greatest [] = greatest
max_position greatest (row ∷ rows) =
    max_position (if ltb greatest row.position then row.position else greatest) rows

unfoldable pub read_position : Database → String → ℕ
unfolding max_position
read_position database meeting_id = max_position 0 (rows_of database meeting_id)

-- `INSERT INTO events`, whose primary key is `(meeting_id, position)` and whose text is JSON.
unfoldable pub insert_event : (String → Bool) → Database → EventRow → Result Database
insert_event is_json database row = do
  throw_if (not (is_json row.payload_json)) constraint_violation
  throw_if
      (any (λ other. other.meeting_id == row.meeting_id && other.position == row.position)
        database.events)
      constraint_violation
  ok (record database { events = database.events ++ row ∷ [] })

-- `INSERT INTO event_appends`, whose primary key is `(meeting_id, idempotency_key)` and whose
-- text is JSON.
unfoldable pub insert_append : (String → Bool) → Database → IdempotencyRow → Result Database
insert_append is_json database row = do
  throw_if (not (is_json row.event_payloads_json)) constraint_violation
  throw_if
      (any
        (λ other.
          other.meeting_id == row.meeting_id && other.idempotency_key == row.idempotency_key)
        database.event_appends)
      constraint_violation
  ok (record database { event_appends = database.event_appends ++ row ∷ [] })

unfoldable pub find_append : Database → String → String → Option IdempotencyRow
find_append database meeting_id key =
    find (λ row. row.meeting_id == meeting_id && row.idempotency_key == key) database.event_appends
