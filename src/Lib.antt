-- ===== src/Lib.antt =====
-- The domain core of Counterpoint: living Decisions that are committed, monitored, put at risk by
-- external events, reviewed by a facilitator and committed again, in meetings whose state is the
-- replay of an event log.
--
-- The parts, each a folder of this library, and the files that they model, of packages/domain/src where
-- no other path is given:
-- - Values (values.ts): branded texts and numbers. `opaque_text` is `opaqueText`, with the trimming of
--   white space; `opaque_integer` is `opaqueInteger`; `text_range` is `textRange`. A JavaScript number
--   is a fraction or not finite, so a checked number is at most `max_safe_integer`. Values.Ids has one
--   name for each brand, and Values.Numbers and Values.Texts what the checks accept.
-- - Entities (entities.ts): a record for each entity, its common fields and scope under `common`, and a
--   `create_…` for each `create…`, with the checks in the source's order. Entities.Validity says what
--   they accept. Sizes of artifacts are bounded by 20 MB, in bytes.
-- - StateMachine (decision-state-machine.ts): `transition_decision` with a function for each edge,
--   `hold_affected_actions`, `append_decision_revision`, `next_decision_revision` and
--   `revise_reconsideration_task`. Its functions end in the constructors of Entities.
-- - Events (events.ts): envelopes, and the payloads of shared and of private events.
-- - Projection (projections.ts): `reduce_shared_event`, `reduce_private_workspace` and
--   `reduce_meeting_projection`, and the replays of a log by them. The reducers put the entities of
--   events into lists by Projection.Upsert.
-- - Store (packages/ports/src/event-store.ts and event-projection-store.ts, and
--   packages/adapters-node/src/sqlite.ts): the interface of an event store, with the contract that its
--   clients rely on, and the store over SQLite tables. `append_sqlite` is `appendSqlite`, in parts for a
--   key that was used (`append_again`) and one that was not (`append_fresh`); `commit_events` is
--   `commit`, which appends events and writes projections. A table is the list of its rows, a query a filter on it, ORDER BY a sort,
--   and a primary key a test before each insertion. A transaction that throws returns no tables: the
--   caller keeps those it had, as after ROLLBACK. The codecs of json-codec.ts are
--   parameters, and so are `JSON.stringify` of a list of texts and json_valid of the database
--   (`JsonTexts`); theorems ask that a codec reads what it writes, and some that different lists are
--   written differently. The check that the text of a projection is JSON, and the columns with the
--   time of an insertion, are left out.
--   Store.Accounts models packages/adapters-node/src/repositories.ts: the repositories of identities,
--   sessions and meetings over their tables, with the keys and references of the tables and the
--   checks before them. They are what the services of sessions.ts and meetings.ts run on. The orders
--   of the lists of assignments and meetings are parameters.
-- - Application (packages/application/src/authorization.ts and sessions.ts): `authorize` over the
--   contexts of users and displays, and `login`, `authenticate_session` and `logout` over the interface
--   of the session repository, on a state that the implementation chooses. The clock, the next id, the
--   token and its digest, the date parser and the writer of dates are parameters; times are counted in
--   milliseconds from 1970 on. Application.DisplayTokens models display-tokens.ts of the same folder over
--   the interface of the event store: its `issue_display_token`, `revoke_display_token` and
--   `authorize_display_token` read the tokens that are active from the events of the meeting. The clock
--   shows one time during a call. Application.Meetings models meetings.ts over the interface of the
--   meeting repository. A set of capabilities is a list,
--   AccessCapability is the Capability of that package, and AssignmentRecord the
--   ParticipantAssignment of packages/ports.
-- - Base: results, lists, sets and Boolean tests that all parts share. Tests: runs on concrete data.
--
-- Code that throws returns a `Result`, whose `Fault` is the code of the error without its message. An
-- optional field is an `Option`. Names are the source's, in lower case with underscores; where a word
-- is taken, a state or event has a longer one: `decision_rejected` for the status REJECTED,
-- `decision_turned_down` for the event DecisionRejected, `own_…` for events in a private workspace,
-- `task_open` and `task_completed` for the states of a task, `owner` for ownerParticipantId of Actions
-- and tasks, `DecisionOption` for the type Option. All recursion is on lists or texts; no fuel is used.
-- Numbers are natural, and their growth is checked by `revision_number` where the source checks it.
--
-- Not modelled: the date parser of the runtime, so that a timestamp is a text, and `timestamp` has the
-- parser as a parameter; `eventFingerprint`, which is a parameter, since the reducer only compares its
-- values; and the packages around the domain: the other application services, protocol schemas, the
-- other ports, the HTTP API, the other adapters for storage and models, migrations of the tables, and
-- the applications, most of which is input and output.
pub mod Base
pub mod Values
pub mod Entities
pub mod StateMachine
pub mod Events
pub mod Projection
pub mod Store
pub mod Application
pub mod Tests
