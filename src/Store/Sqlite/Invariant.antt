-- ===== src/Store/Sqlite/Invariant.antt =====
-- The invariant of the tables, and the steps of an append on it.
use counterpoint_living_deci.Application.Authorization.{access_eq}
use counterpoint_living_deci.Base.{
  All, List, String, [], ap, arith, false, filter, leb, length, ltb, map, nat_eq, ok, option_eq,
  refl, string_eq, suc, true, ℕ, ◌&&◌, ◌+◌, ◌<◌, ◌==◌, ◌∷◌, ◌≡◌, ◌≤◌,
}
use counterpoint_living_deci.Base.Keys.{All-map}
use counterpoint_living_deci.Entities.Common.{confirmation_eq, origin_eq, visibility_eq}
use counterpoint_living_deci.Entities.Decisions.{action_status_eq, status_eq, task_state_eq}
use counterpoint_living_deci.Entities.People.{capability_eq}
use counterpoint_living_deci.Store.Sqlite.Append.{IsNumbered, new_rows}
use counterpoint_living_deci.Store.Sqlite.Tables.{
  Database, EventRow, IdempotencyRow, JsonCodec, JsonTexts, rows_of,
}

-- `WHERE meeting_id = ? AND position >= ? AND position < ?`.
abbrev pub range_rows : Database → String → ℕ → ℕ → List EventRow
range_rows d m first count =
    filter (λ row. leb first row.position && ltb row.position (first + count)) (rows_of d m)

-- The rows that an append wrote are there, and are those that it noted.
pub record IsNoted (json : JsonTexts) (d : Database) (noted : IdempotencyRow) : Type 0 where
  pub starts : 1 ≤ noted.first_position
  pub ends : noted.first_position + noted.event_count ≤ length (rows_of d noted.meeting_id) + 1
  pub counted :
      length (range_rows d noted.meeting_id noted.first_position noted.event_count)
      ≡ noted.event_count
  pub payloads :
      json.stringify (
        map
          (λ row. row.payload_json)
          (range_rows d noted.meeting_id noted.first_position noted.event_count))
      ≡ noted.event_payloads_json

-- The positions of each meeting are 1, 2, …, each row can be read, and each noted append is there.
pub record IsValid {E : Type 0} (codec : JsonCodec E) (json : JsonTexts) (d : Database)
    : Type 0 where
  pub numbered : IsNumbered d
  pub readable : All (λ row. (e : E) × (codec.decode row.payload_json ≡ ok e)) d.events
  pub noted : All (IsNoted json d) d.event_appends

pub rows_of-events :
    (d d' : Database) (m : String) → d'.events ≡ d.events → rows_of d' m ≡ rows_of d m
unfolding rows_of
rows_of-events d d' m e = ap (filter (λ row. row.meeting_id == m)) e

-- Rows behind the last position are in no range that ends before it.
pub range_new :
    (m : String) (n first count : ℕ) (ts : List String)
    → first + count ≤ n + 1
    → All
        (λ row. (leb first row.position && ltb row.position (first + count)) ≡ false)
        (new_rows m n ts)
range_new m n first count [] h = tt
range_new m n first count (t ∷ ts) h =
    (ground arith, range_new m (n + 1) first count ts (omega arith))

-- The new rows are in the range that begins at the first of them.
pub range-All :
    (m : String) (n first count : ℕ) (ts : List String)
    → first ≤ n + 1
    → n + 1 + length ts ≤ first + count
    → All
        (λ row. (leb first row.position && ltb row.position (first + count)) ≡ true)
        (new_rows m n ts)
range-All m n first count [] h k = tt
range-All m n first count (t ∷ ts) h k =
    (ground arith, range-All m (n + 1) first count ts (omega arith) (omega arith))

pub range_old :
    (n first count : ℕ) (rows : List EventRow)
    → All (λ row. row.position ≤ n) rows
    → n < first
    → All (λ row. (leb first row.position && ltb row.position (first + count)) ≡ false) rows
range_old n first count rows h k = All-map rows (λ row b. ground arith) h

pub payloads-new_rows :
    (m : String) (n : ℕ) (ts : List String) → map (λ row. row.payload_json) (new_rows m n ts) ≡ ts
payloads-new_rows m n [] = refl
payloads-new_rows m n (t ∷ ts) = ap (λ rest. t ∷ rest) (payloads-new_rows m (n + 1) ts)

pub length-new_rows : (m : String) (n : ℕ) (ts : List String) → length (new_rows m n ts) ≡ length ts
length-new_rows m n [] = refl
length-new_rows m n (t ∷ ts) = ap suc (length-new_rows m (n + 1) ts)
