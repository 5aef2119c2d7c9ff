-- ===== src/Store/Projections.antt =====
-- The projections beside the events, `SqliteProjectionStore`, and the commit of events together with
-- projections, `SqliteEventProjectionStore.commit` of packages/adapters-node/src/sqlite.ts.
pub mod Keys
pub mod Commit
use counterpoint_living_deci.Application.Authorization.{access_eq}
use counterpoint_living_deci.Base.{
  ==_iff, Bool, Eq, List, Option, Result, String, [], any, arith, eq_of_tag, find, fold,
  if◌then◌else◌, length, nat_eq, none, not, ok, option_eq, refl, some, string_eq, throw_if, true,
  type_error, ℕ, ◌&&◌, ◌==◌, ◌>>=◌, ◌>>◌, ◌↔◌, ◌∷◌, ◌≡◌,
}
use counterpoint_living_deci.Entities.Common.{confirmation_eq, origin_eq, visibility_eq}
use counterpoint_living_deci.Entities.Decisions.{action_status_eq, status_eq, task_state_eq}
use counterpoint_living_deci.Entities.People.{capability_eq}
use counterpoint_living_deci.Store.{AppendEventsRequest, AppendOutcome}
use counterpoint_living_deci.Store.Sqlite.{append_sqlite}
use counterpoint_living_deci.Store.Sqlite.Tables.{
  Database, JsonCodec, JsonTexts, ProjectionKey, ProjectionRow, ScopeKind, owner_private_scope,
  require_non_empty, require_position, shared_scope,
}
use counterpoint_living_deci.Values.{Number}

pub record ProjectionScope : Type 0 where
  pub meeting_id : String
  pub owner_participant_id : Option String
  pub projection : String

pub record ProjectionWrite (P : Type 0) : Type 0 where
  pub scope : ProjectionScope
  pub value : P

-- An append whose expected position and key are given.
pub record AtomicAppendRequest (E : Type 0) : Type 0 where
  pub events : List E
  pub expected_position : Number
  pub idempotency_key : String
  pub meeting_id : String
  pub payload_fingerprint : Option String
  pub trust_payload_fingerprint_for_replay : Bool

pub record EventProjectionCommitRequest (E P : Type 0) : Type 0 where
  pub append : AtomicAppendRequest E
  pub projections : List (ProjectionWrite P)

abbrev pub kind_tag : ScopeKind → ℕ
kind_tag owner_private_scope = 0
kind_tag shared_scope = 1

pub kind_tag-injective : (a b : ScopeKind) → kind_tag a ≡ kind_tag b → a ≡ b
kind_tag-injective owner_private_scope owner_private_scope h = refl
kind_tag-injective owner_private_scope shared_scope h = absurd (omega arith)
kind_tag-injective shared_scope owner_private_scope h = absurd (omega arith)
kind_tag-injective shared_scope shared_scope h = refl

instance abbrev pub kind_eq : Eq ScopeKind
kind_eq = eq_of_tag kind_tag kind_tag-injective

abbrev pub key_beq : ProjectionKey → ProjectionKey → Bool
key_beq a b =
    a.meeting_id == b.meeting_id
    && a.projection == b.projection
    && a.scope_kind == b.scope_kind
    && a.owner_participant_id == b.owner_participant_id

pub key_beq_iff : (a b : ProjectionKey) → (key_beq a b ≡ true) ↔ (a ≡ b)
key_beq_iff a b = ground (
  arith,
  ==_iff a.meeting_id b.meeting_id,
  ==_iff a.projection b.projection,
  ==_iff a.scope_kind b.scope_kind,
  ==_iff a.owner_participant_id b.owner_participant_id,
)

instance abbrev pub key_eq : Eq ProjectionKey
key_eq = record { beq = key_beq; beq_iff = key_beq_iff }

unfoldable pub owner_partition : Option String → Result (ScopeKind × String)
owner_partition none = ok (shared_scope, "")
owner_partition (some owner) = require_non_empty owner >> ok (owner_private_scope, owner)

unfoldable pub projection_partition : ProjectionScope → Result (ScopeKind × String)
unfolding owner_partition
projection_partition scope = do
  require_non_empty scope.meeting_id
  require_non_empty scope.projection
  owner_partition scope.owner_participant_id

-- The values that a query puts in for the columns of the key.
unfoldable pub key_of : ProjectionScope → Result ProjectionKey
unfolding projection_partition
key_of scope = do
  partition ← projection_partition scope
  ok (record {
    meeting_id = scope.meeting_id;
    projection = scope.projection;
    scope_kind = partition.0;
    owner_participant_id = partition.1;
  })

-- `INSERT … ON CONFLICT … DO UPDATE SET payload_json = excluded.payload_json`.
unfoldable pub put_row : ProjectionRow → List ProjectionRow → List ProjectionRow
put_row row [] = row ∷ []
put_row row (other ∷ rest) =
    if other.key == row.key
    then record other { payload_json = row.payload_json } ∷ rest
    else other ∷ put_row row rest

module _ {P : Type 0} (codec : JsonCodec P) where
  unfoldable pub upsert_projection : Database → ProjectionScope → P → Result Database
  unfolding put_row
  upsert_projection database scope value = do
    key ← key_of scope
    payload ← codec.encode value
    ok (record database {
      projections = put_row (record { key = key; payload_json = payload }) database.projections;
    })

  -- `row === undefined ? undefined : decode(row.payload_json)`.
  unfoldable pub decode_projection : Option ProjectionRow → Result (Option P)
  decode_projection none = ok none
  decode_projection (some row) = codec.decode row.payload_json >>= λ value. ok (some value)

  -- `SqliteProjectionStore.get`.
  unfoldable pub get_projection : Database → ProjectionScope → Result (Option P)
  unfolding decode_projection
  get_projection database scope = do
    key ← key_of scope
    decode_projection (find (λ row. row.key == key) database.projections)

  unfoldable pub write_projections : Database → List (ProjectionWrite P) → Result Database
  unfolding upsert_projection
  write_projections database writes =
      fold (λ d write. upsert_projection d write.scope write.value) database writes

abbrev pub append_request : {E : Type 0} → AtomicAppendRequest E → AppendEventsRequest E
append_request request = record {
  events = request.events;
  expected_position = some request.expected_position;
  idempotency_key = some request.idempotency_key;
  meeting_id = request.meeting_id;
  payload_fingerprint = request.payload_fingerprint;
  trust_payload_fingerprint_for_replay = request.trust_payload_fingerprint_for_replay;
}

module _ {E P : Type 0} (events : JsonCodec E) (projections : JsonCodec P) (json : JsonTexts) where
  unfoldable pub commit_events :
      Database → EventProjectionCommitRequest E P → Result (Database × AppendOutcome E)
  unfolding write_projections
  commit_events database request = do
    throw_if (length request.append.events == 0) type_error
    require_position request.append.expected_position
    require_non_empty request.append.idempotency_key
    throw_if
        (any (λ write. not (write.scope.meeting_id == request.append.meeting_id))
          request.projections)
        type_error
    append_sqlite events json (λ d. write_projections projections d request.projections) database
        (append_request request.append)
