-- ===== src/Application/DisplayTokens.antt =====
-- packages/application/src/display-tokens.ts: the tokens of displays, whose state is the event log of
-- the meeting, over an event store.
pub mod State
pub mod Requests
pub mod Active
pub mod Issue
pub mod Issued
pub mod Laws
pub mod Authorized
pub mod Revoked
use counterpoint_living_deci.Application.Authorization.{
  Authorization, UserAuthorizationContext, access_eq, authorize, authorized, meeting_read,
  user_context,
}
use counterpoint_living_deci.Application.DisplayTokens.Requests.{
  DisplayTokenAuthorizationResult, DisplayTokenFailure, DisplayTokenPorts, IssueDisplayTokenInput,
  IssueDisplayTokenResult, IssueParts, RevokeDisplayTokenInput, RevokeDisplayTokenResult,
  display_authorized, display_refused, display_token_ttl_ms, issue_failed, revoke_failed,
  token_conflict, token_expired, token_forbidden, token_invalid, token_issued, token_revoked,
}
use counterpoint_living_deci.Application.DisplayTokens.State.{
  ActiveDisplayToken, active_display_tokens,
}
use counterpoint_living_deci.Base.{
  Bool, List, Option, Result, String, [], err, false, filter, if◌then◌else◌, invalid_domain_value,
  length, ltb, nat_eq, none, not, ok, option_eq, some, string_eq, true, ℕ, ◌&&◌, ◌++◌, ◌+◌, ◌==◌,
  ◌>>=◌, ◌>>◌, ◌∷◌,
}
use counterpoint_living_deci.Entities.Common.{confirmation_eq, origin_eq, visibility_eq}
use counterpoint_living_deci.Entities.Decisions.{action_status_eq, status_eq, task_state_eq}
use counterpoint_living_deci.Entities.People.{capability_eq, is_facilitator}
use counterpoint_living_deci.Events.{DomainEvent, participant_actor, shared_event}
use counterpoint_living_deci.Events.Payloads.{
  SharedPayload, display_token_issued, display_token_revoked,
}
use counterpoint_living_deci.Store.{
  AppendEventsRequest, AppendOutcome, EventRecord, EventStore, appended, position_conflict,
  replayed,
}
use counterpoint_living_deci.Store.Projections.{key_eq, kind_eq}
use counterpoint_living_deci.Values.{Number, meeting_position, of_ℕ, opaque_text, schema_version}
use counterpoint_living_deci.Values.Ids.{MeetingId, MeetingPosition, Timestamp}
use counterpoint_living_deci.Values.Times.{concat, timestamp}

abbrev pub is_authorized : Authorization → Bool
is_authorized authorized = true
is_authorized _ = false

unfoldable pub facilitator_authorized : UserAuthorizationContext → String → Bool
facilitator_authorized context meeting_scope =
    is_facilitator context.role
    && is_authorized (
        authorize (user_context context) (record {
          capability = meeting_read;
          meeting_id = meeting_scope;
          owner_participant_id = none;
        }))

abbrev pub text_or : Option String → String → String
text_or none other = other
text_or (some given) other = given

-- The scope of a command: its expected position and its meeting, as they are checked.
abbrev pub checked_scope : Number → String → Result (ℕ × MeetingId)
checked_scope expected meeting = do
  position ← meeting_position expected
  scope ← opaque_text meeting
  ok (position, scope)

abbrev pub checked_token : RevokeDisplayTokenInput → Result ((ℕ × MeetingId) × String)
checked_token input = do
  scope ← checked_scope input.expected_position input.meeting_id
  token_id ← opaque_text input.display_token_id
  ok (scope, token_id)

-- `meetingId(meeting)`, and then the digest.
abbrev pub digest_in : (String → Result String) → String → String → Result String
digest_in digest meeting display_token = opaque_text meeting >>= λ scope. digest display_token

abbrev pub one_event :
    MeetingId
    → String
    → MeetingPosition
    → Timestamp
    → String
    → String
    → Option String
    → SharedPayload
    → DomainEvent
one_event scope event_id position occurred_at correlation asking key payload =
    shared_event (record {
      envelope = record {
        event_id = event_id;
        schema_version = 1;
        meeting_id = scope;
        position = position;
        actor = participant_actor asking;
        occurred_at = occurred_at;
        correlation_id = correlation;
        causation_id = none;
        idempotency_key = key;
      };
      payload = payload;
    })

-- The callback of `active.map`, from the index `index` on.
unfoldable pub revocations :
    DisplayTokenPorts
    → UserAuthorizationContext
    → MeetingId
    → MeetingPosition
    → Timestamp
    → String
    → ℕ
    → List ActiveDisplayToken
    → Result (List DomainEvent)
revocations ports context scope expected occurred_at correlation index [] = ok []
revocations ports context scope expected occurred_at correlation index (token ∷ rest) = do
  asking ← opaque_text context.participant_id
  event_id ← opaque_text (ports.next_event index)
  token_id ← opaque_text token.display_token_id
  position ← meeting_position (of_ℕ (expected + index + 1))
  others ← revocations ports context scope expected occurred_at correlation (index + 1) rest
  ok (
      one_event scope event_id position occurred_at correlation asking none
        (display_token_revoked token_id occurred_at)
      ∷ others)

module _ (parse : Timestamp → Option ℕ) where
  unfoldable pub now_milliseconds : Timestamp → Result ℕ
  now_milliseconds now = elim (parse now) [ none ↦ err invalid_domain_value | some ms ↦ ok ms ]

  -- `Date.parse(expiresAt) > now`, which NaN is not.
  unfoldable pub is_unexpired : ℕ → ActiveDisplayToken → Bool
  is_unexpired now_ms token = elim (parse token.expires_at) [
    | none ↦ false
    | some ms ↦ ltb now_ms ms
  ]

  -- The `find` of a token by its id that is not expired; the clock is read where the id is found.
  unfoldable pub find_unexpired :
      Timestamp → String → List ActiveDisplayToken → Result (Option ActiveDisplayToken)
  unfolding now_milliseconds is_unexpired
  find_unexpired now id [] = ok none
  find_unexpired now id (token ∷ tokens) =
      let rest = find_unexpired now id tokens in
      if token.display_token_id == id
      then (now_milliseconds now >>= λ ms. if is_unexpired ms token then ok (some token) else rest)
      else rest

-- The event of a revocation, with its key and its position.
unfoldable pub revoke_events :
    DisplayTokenPorts
    → UserAuthorizationContext
    → ℕ × MeetingId
    → String
    → Timestamp
    → String
    → Result (List DomainEvent × String × ℕ)
revoke_events ports context scope token_id revoked_at correlation = do
  asking ← opaque_text context.participant_id
  event_id ← opaque_text (ports.next_event 0)
  key ←
      opaque_text
        (concat "display-token-revoke:" (concat token_id (concat ":" ports.next_operation)))
  position ← meeting_position (of_ℕ (scope.0 + 1))
  ok (
    one_event scope.1 event_id position revoked_at correlation asking (some key)
          (display_token_revoked token_id revoked_at)
        ∷ [],
    key,
    position,
  )

module _ (parse : Timestamp → Option ℕ) (iso : ℕ → Timestamp) where
  unfoldable pub issue_parts :
      DisplayTokenPorts
      → IssueDisplayTokenInput
      → List (EventRecord DomainEvent)
      → Result IssueParts
  unfolding now_milliseconds
  issue_parts ports input records = do
    now_ms ← now_milliseconds parse ports.now
    token_id ← opaque_text ports.token_hash
    expires_at ← timestamp parse iso (iso (now_ms + display_token_ttl_ms))
    correlation ← opaque_text (text_or input.correlation_id ports.next_correlation)
    tokens ← active_display_tokens records
    ok (record {
      now_ms = now_ms;
      token_id = token_id;
      expires_at = expires_at;
      correlation = correlation;
      tokens = tokens;
    })

  -- The events of an issue: the tokens that are active and not expired are revoked, and one is issued.
  unfoldable pub issue_events :
      DisplayTokenPorts
      → UserAuthorizationContext
      → ℕ × MeetingId
      → IssueParts
      → Result (List DomainEvent × String × ℕ)
  unfolding revocations is_unexpired
  issue_events ports context scope parts = do
    occurred_at ← timestamp parse iso (iso parts.now_ms)
    revoked ←
        revocations ports context scope.1 scope.0 occurred_at parts.correlation 0
          (filter (is_unexpired parse parts.now_ms) parts.tokens)
    asking ← opaque_text context.participant_id
    event_id ← opaque_text (ports.next_event (length revoked))
    key ← opaque_text (concat "display-token-issue:" parts.token_id)
    position ← meeting_position (of_ℕ (scope.0 + length revoked + 1))
    ok (
      revoked
          ++ one_event scope.1 event_id position occurred_at parts.correlation asking (some key)
              (display_token_issued parts.token_id parts.expires_at)
            ∷ [],
      key,
      position,
    )

  module _ {S : Type 0} (events : EventStore S DomainEvent) where
    abbrev pub append_of :
        String → Number → String → List DomainEvent → AppendEventsRequest DomainEvent
    append_of meeting expected key appending = record {
      events = appending;
      expected_position = some expected;
      idempotency_key = some key;
      meeting_id = meeting;
      payload_fingerprint = none;
      trust_payload_fingerprint_for_replay = false;
    }

    -- The answer to an append: the result of the success, or the failure.
    abbrev pub answer : {R : Type 0} → (DisplayTokenFailure → R) → R → AppendOutcome DomainEvent → R
    answer refuse done (appended records) = done
    answer refuse done (replayed records) = refuse token_invalid
    answer refuse done (position_conflict actual expected) = refuse (token_conflict actual expected)
    answer refuse done (AppendOutcome.idempotency_conflict key) = refuse token_invalid

    unfoldable pub issue_in_scope :
        DisplayTokenPorts
        → UserAuthorizationContext
        → IssueDisplayTokenInput
        → ℕ × MeetingId
        → S
        → Result (S × IssueDisplayTokenResult)
    unfolding issue_events issue_parts
    issue_in_scope ports context input scope state = do
      records ← events.load state input.meeting_id none
      parts ← issue_parts ports input records
      made ← issue_events ports context scope parts
      done ← events.append state (append_of input.meeting_id input.expected_position made.1 made.0)
      ok (
        done.0,
        answer issue_failed
            (token_issued parts.correlation ports.token_value parts.token_id parts.expires_at
              made.2)
            done.1,
      )

    unfoldable pub issue_display_token :
        DisplayTokenPorts
        → UserAuthorizationContext
        → IssueDisplayTokenInput
        → S
        → Result (S × IssueDisplayTokenResult)
    unfolding issue_in_scope
    issue_display_token ports context input state =
        if not (facilitator_authorized context input.meeting_id)
        then ok (state, issue_failed token_forbidden)
        else elim (checked_scope input.expected_position input.meeting_id) [
          | err _ ↦ ok (state, issue_failed token_invalid)
          | ok scope ↦ issue_in_scope ports context input scope state
        ]

    -- The revocation of a token that was found.
    unfoldable pub revoke_found :
        DisplayTokenPorts
        → UserAuthorizationContext
        → RevokeDisplayTokenInput
        → ℕ × MeetingId
        → String
        → S
        → Result (S × RevokeDisplayTokenResult)
    unfolding revoke_events
    revoke_found ports context input scope token_id state = do
      revoked_at ← timestamp parse iso ports.now
      correlation ← opaque_text (text_or input.correlation_id ports.next_correlation)
      made ← revoke_events ports context scope token_id revoked_at correlation
      done ← events.append state (append_of input.meeting_id input.expected_position made.1 made.0)
      ok (
        done.0,
        answer revoke_failed (token_revoked correlation token_id made.2 revoked_at) done.1,
      )

    unfoldable pub revoke_in_scope :
        DisplayTokenPorts
        → UserAuthorizationContext
        → RevokeDisplayTokenInput
        → ℕ × MeetingId
        → String
        → S
        → Result (S × RevokeDisplayTokenResult)
    unfolding revoke_found find_unexpired
    revoke_in_scope ports context input scope token_id state = do
      records ← events.load state input.meeting_id none
      tokens ← active_display_tokens records
      found ← find_unexpired parse ports.now input.display_token_id tokens
      elim found [
        | none ↦ ok (state, revoke_failed token_expired)
        | some _ ↦ revoke_found ports context input scope token_id state
      ]

    unfoldable pub revoke_display_token :
        DisplayTokenPorts
        → UserAuthorizationContext
        → RevokeDisplayTokenInput
        → S
        → Result (S × RevokeDisplayTokenResult)
    unfolding revoke_in_scope
    revoke_display_token ports context input state =
        if not (facilitator_authorized context input.meeting_id)
        then ok (state, revoke_failed token_forbidden)
        else elim (checked_token input) [
          | err _ ↦ ok (state, revoke_failed token_invalid)
          | ok (scope, token_id) ↦ revoke_in_scope ports context input scope token_id state
        ]

    -- The result of the search.
    abbrev pub display_result : String → Option ActiveDisplayToken → DisplayTokenAuthorizationResult
    display_result meeting none = display_refused
    display_result meeting (some token) =
        display_authorized
          (record {
            reads_meeting = true;
            display_token_id = token.display_token_id;
            meeting_id = meeting;
          })
          token.expires_at

    -- `digest` may throw, which is `err`.
    unfoldable pub authorize_display_token :
        (String → Result String)
        → Timestamp
        → String
        → String
        → S
        → Result DisplayTokenAuthorizationResult
    unfolding find_unexpired
    authorize_display_token digest now display_token meeting state =
        if display_token == ""
        then ok display_refused
        else elim (digest_in digest meeting display_token) [
          | err _ ↦ ok display_refused
          | ok hash ↦ (do
            records ← events.load state meeting none
            tokens ← active_display_tokens records
            found ← find_unexpired parse now hash tokens
            ok (display_result meeting found))
        ]
