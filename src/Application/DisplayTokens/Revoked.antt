-- ===== src/Application/DisplayTokens/Revoked.antt =====
-- About the displays that `authorizeDisplayToken` lets in after a revocation.
use mathlib.Core.Path.{subst}
use counterpoint_living_deci.Application.Authorization.{UserAuthorizationContext, access_eq}
use counterpoint_living_deci.Application.DisplayTokens.{
  answer, append_of, authorize_display_token, checked_scope, checked_token, display_result,
  facilitator_authorized, find_unexpired, is_unexpired, one_event, revoke_display_token,
  revoke_events, revoke_found, revoke_in_scope, text_or,
}
use counterpoint_living_deci.Application.DisplayTokens.Active.{
  NoResets, active_display_tokens-append, meeting_position-of_ℕ,
}
use counterpoint_living_deci.Application.DisplayTokens.Authorized.{checked_scope-eq-ok}
use counterpoint_living_deci.Application.DisplayTokens.Laws.{authorize_lem}
use counterpoint_living_deci.Application.DisplayTokens.Requests.{
  DisplayTokenPorts, RevokeDisplayTokenInput, RevokeDisplayTokenResult, display_refused,
  revoke_failed, token_expired, token_forbidden, token_invalid, token_revoked,
}
use counterpoint_living_deci.Application.DisplayTokens.State.{
  ActiveDisplayToken, active_display_tokens, apply_token_events,
}
use counterpoint_living_deci.Base.{
  >>=-eq-ok, Bool, Bool-cases, List, Option, Result, Result-cases, String, [], ap, ap₂, arith,
  filter, find, inl, inr, length, nat_eq, none, not, ok, ok-injective, option_eq, refl, some,
  string_eq, sym, ℕ, ◌&&◌, ◌++◌, ◌+◌, ◌==◌, ◌>>=◌, ◌∙◌, ◌∷◌, ◌≡◌, ◌≢◌, ◌≤◌,
}
use counterpoint_living_deci.Entities.Common.{confirmation_eq, origin_eq, visibility_eq}
use counterpoint_living_deci.Entities.Decisions.{action_status_eq, status_eq, task_state_eq}
use counterpoint_living_deci.Entities.People.{capability_eq}
use counterpoint_living_deci.Events.{DomainEvent}
use counterpoint_living_deci.Events.Payloads.{display_token_revoked}
use counterpoint_living_deci.Store.{
  AppendEventsRequest, AppendOutcome, EventRecord, EventStore, IsEventStore, appended, number,
  position_conflict, replayed,
}
use counterpoint_living_deci.Store.Projections.{key_eq, kind_eq}
use counterpoint_living_deci.Values.{max_safe_integer, meeting_position, of_ℕ, opaque_text}
use counterpoint_living_deci.Values.Ids.{MeetingId, Timestamp}
use counterpoint_living_deci.Values.Times.{concat, timestamp}

revoke_events_lem :
    (ports : DisplayTokenPorts) (context : UserAuthorizationContext) (scope : ℕ × MeetingId)
    (token_id : String) (at : Timestamp) (correlation : String)
    (made : List DomainEvent × String × ℕ) (tokens : List ActiveDisplayToken)
    → revoke_events ports context scope token_id at correlation ≡ ok made
    → (apply_token_events tokens made.0 ≡ filter (λ t. not (t.display_token_id == token_id)) tokens)
      × NoResets made.0
      × (scope.0 + length made.0 ≤ max_safe_integer)
unfolding revoke_events apply_token_events
revoke_events_lem ports context scope token_id at correlation made tokens h =
    let event : String → String → String → ℕ → DomainEvent = λ asking id key position.
      one_event scope.1 id position at correlation asking (some key)
        (display_token_revoked token_id at) in
    let finish : String → String → String → ℕ → Result (List DomainEvent × String × ℕ) =
      λ asking id key position. ok (event asking id key position ∷ [], key, position) in
    let name =
      opaque_text
        (concat "display-token-revoke:" (concat token_id (concat ":" ports.next_operation))) in
    let place = meeting_position (of_ℕ (scope.0 + 1)) in
    let (asking, _, h1) =
      >>=-eq-ok (opaque_text context.participant_id)
        (λ asking.
          opaque_text (ports.next_event 0) >>= λ id. name >>= λ key. place >>= finish asking id key)
        h in
    let (id, _, h2) =
      >>=-eq-ok (opaque_text (ports.next_event 0))
        (λ id. name >>= λ key. place >>= finish asking id key) h1 in
    let (key, _, h3) = >>=-eq-ok name (λ key. place >>= finish asking id key) h2 in
    let (position, placed, h4) = >>=-eq-ok place (finish asking id key) h3 in
    let events_same : event asking id key position ∷ [] ≡ made.0 =
      ap (λ r. r.0) (ok-injective h4) in
    let (_, bound) = meeting_position-of_ℕ (scope.0 + 1) position placed in
    rw (← events_same) (refl, (refl, tt), omega arith)

find-removed :
    (p : ActiveDisplayToken → Bool) (token_id : String) (tokens : List ActiveDisplayToken)
    → find
        (λ t. t.display_token_id == token_id && p t)
        (filter (λ t. not (t.display_token_id == token_id)) tokens)
      ≡ none
unfolding find filter
find-removed p token_id [] = refl
find-removed p token_id (t ∷ ts) = elim (Bool-cases (t.display_token_id == token_id)) [
  | inl e ↦ rw e (find-removed p token_id ts)
  | inr e ↦ rw e (rw e (find-removed p token_id ts))
]

module _ (parse : Timestamp → Option ℕ) (iso : ℕ → Timestamp) {S : Type 0}
    (events : EventStore S DomainEvent) (ports : DisplayTokenPorts)
    (context : UserAuthorizationContext) (input : RevokeDisplayTokenInput) where
  abbrev append_of_revoke : List DomainEvent × String × ℕ → AppendEventsRequest DomainEvent
  append_of_revoke made =
      append_of parse iso events input.meeting_id input.expected_position made.1 made.0

  checked_token-eq-ok :
      (scope : ℕ × MeetingId) (id : String)
      → checked_token input ≡ ok (scope, id)
      → checked_scope input.expected_position input.meeting_id ≡ ok scope
  checked_token-eq-ok scope id h =
      let (c, checked, h1) =
        >>=-eq-ok (checked_scope input.expected_position input.meeting_id)
          (λ c. opaque_text input.display_token_id >>= λ t. ok (c, t)) h in
      let (t, _, h2) = >>=-eq-ok (opaque_text input.display_token_id) (λ t. ok (c, t)) h1 in
      checked ∙ ap (λ q. ok (q.0)) (ok-injective h2)

  -- The parts of a revocation that succeeded.
  record Revoking (s s' : S) (token_id : String) : Type 0 where
    scope : ℕ × MeetingId
    before : List (EventRecord DomainEvent)
    tokens : List ActiveDisplayToken
    at : Timestamp
    correlation : String
    made : List DomainEvent × String × ℕ
    records : List (EventRecord DomainEvent)
    checked : checked_scope input.expected_position input.meeting_id ≡ ok scope
    loaded : events.load s input.meeting_id none ≡ ok before
    found : active_display_tokens before ≡ ok tokens
    making : revoke_events ports context scope token_id at correlation ≡ ok made
    appending : events.append s (append_of_revoke made) ≡ ok (s', appended records)

  answer-revoked :
      (outcome : AppendOutcome DomainEvent) (a b : String) (c : ℕ) (d : Timestamp) (a' b' : String)
      (c' : ℕ) (d' : Timestamp)
      → answer parse iso events revoke_failed (token_revoked a b c d) outcome
        ≡ token_revoked a' b' c' d'
      → (records : List (EventRecord DomainEvent)) × (outcome ≡ appended records) × (b ≡ b')
  answer-revoked (appended records) a b c d a' b' c' d' h = (records, refl, cc h)
  answer-revoked (replayed records) a b c d a' b' c' d' h = cc h
  answer-revoked (position_conflict x y) a b c d a' b' c' d' h = cc h
  answer-revoked (AppendOutcome.idempotency_conflict x) a b c d a' b' c' d' h = cc h

  appended-Revoking :
      (scope : ℕ × MeetingId) (s s' : S) (before : List (EventRecord DomainEvent))
      (tokens : List ActiveDisplayToken) (id at cor : String) (made : List DomainEvent × String × ℕ)
      (done : S × AppendOutcome DomainEvent) (correlation token_id : String) (position : ℕ)
      (revoked_at : Timestamp)
      → checked_scope input.expected_position input.meeting_id ≡ ok scope
      → events.load s input.meeting_id none ≡ ok before
      → active_display_tokens before ≡ ok tokens
      → revoke_events ports context scope id at cor ≡ ok made
      → events.append s (append_of_revoke made) ≡ ok done
      → ◌≡◌ {A = S × RevokeDisplayTokenResult}
          (done.0, answer parse iso events revoke_failed (token_revoked cor id made.2 at) done.1)
          (s', token_revoked correlation token_id position revoked_at)
      → Revoking s s' token_id
  appended-Revoking scope s s' before tokens id at cor made done correlation token_id position
        revoked_at checked loaded found making appending both =
      let (records, outcome, id_same) =
        answer-revoked done.1 cor id made.2 at correlation token_id position revoked_at
          (ap (λ r. r.1) both) in
      record {
        scope = scope;
        before = before;
        tokens = tokens;
        at = at;
        correlation = cor;
        made = made;
        records = records;
        checked = checked;
        loaded = loaded;
        found = found;
        making = ap (λ i. revoke_events ports context scope i at cor) (sym id_same) ∙ making;
        appending = appending ∙ ap₂ (λ a b. ok (a, b)) (ap (λ r. r.0) both) outcome;
      }

  revoke_found-Revoking :
      (scope : ℕ × MeetingId) (s s' : S) (before : List (EventRecord DomainEvent))
      (tokens : List ActiveDisplayToken) (id correlation token_id : String) (position : ℕ)
      (revoked_at : Timestamp)
      → checked_scope input.expected_position input.meeting_id ≡ ok scope
      → events.load s input.meeting_id none ≡ ok before
      → active_display_tokens before ≡ ok tokens
      → revoke_found parse iso events ports context input scope id s
        ≡ ok (s', token_revoked correlation token_id position revoked_at)
      → Revoking s s' token_id
  unfolding revoke_found
  revoke_found-Revoking scope s s' before tokens id correlation token_id position revoked_at checked
        loaded found h =
      let finish : Timestamp
          → String
          → List DomainEvent × String × ℕ
          → S × AppendOutcome DomainEvent
          → Result (S × RevokeDisplayTokenResult) =
        λ at cor made done.
          ok (
            done.0,
            answer parse iso events revoke_failed (token_revoked cor id made.2 at) done.1,
          ) in
      let append : List DomainEvent × String × ℕ → Result (S × AppendOutcome DomainEvent) =
        λ made. events.append s (append_of_revoke made) in
      let make : Timestamp → String → Result (List DomainEvent × String × ℕ) =
        λ at cor. revoke_events ports context scope id at cor in
      let correlating = opaque_text (text_or input.correlation_id ports.next_correlation) in
      let (at, _, h1) =
        >>=-eq-ok (timestamp parse iso ports.now)
          (λ at. correlating >>= λ cor. make at cor >>= λ made. append made >>= finish at cor made)
          h in
      let (cor, _, h2) =
        >>=-eq-ok correlating (λ cor. make at cor >>= λ made. append made >>= finish at cor made)
          h1 in
      let (made, making, h3) =
        >>=-eq-ok (make at cor) (λ made. append made >>= finish at cor made) h2 in
      let (done, appending, h4) = >>=-eq-ok (append made) (finish at cor made) h3 in
      appended-Revoking scope s s' before tokens id at cor made done correlation token_id position
        revoked_at checked loaded found making appending (ok-injective h4)

  revoke_in_scope-Revoking :
      (scope : ℕ × MeetingId) (s s' : S) (id correlation token_id : String) (position : ℕ)
      (revoked_at : Timestamp)
      → checked_scope input.expected_position input.meeting_id ≡ ok scope
      → revoke_in_scope parse iso events ports context input scope id s
        ≡ ok (s', token_revoked correlation token_id position revoked_at)
      → Revoking s s' token_id
  unfolding revoke_in_scope
  revoke_in_scope-Revoking scope s s' id correlation token_id position revoked_at checked h =
      let act : Option ActiveDisplayToken → Result (S × RevokeDisplayTokenResult) = λ found.
        elim found [
          | none ↦ ok (s, revoke_failed token_expired)
          | some _ ↦ revoke_found parse iso events ports context input scope id s
        ] in
      let (before, loaded, h1) =
        >>=-eq-ok (events.load s input.meeting_id none)
          (λ before. active_display_tokens before >>= λ tokens.
            find_unexpired parse ports.now input.display_token_id tokens >>= act)
          h in
      let (tokens, found, h2) =
        >>=-eq-ok (active_display_tokens before)
          (λ tokens. find_unexpired parse ports.now input.display_token_id tokens >>= act) h1 in
      let (there, _, h3) =
        >>=-eq-ok (find_unexpired parse ports.now input.display_token_id tokens) act h2 in
      found_case scope s s' before tokens id correlation token_id position revoked_at checked loaded
        found there h3
    where
      found_case :
          (scope : ℕ × MeetingId) (s s' : S) (before : List (EventRecord DomainEvent))
          (tokens : List ActiveDisplayToken) (id correlation token_id : String) (position : ℕ)
          (revoked_at : Timestamp)
          → checked_scope input.expected_position input.meeting_id ≡ ok scope
          → events.load s input.meeting_id none ≡ ok before
          → active_display_tokens before ≡ ok tokens
          → (there : Option ActiveDisplayToken)
          → elim there as (λ o. Result (S × RevokeDisplayTokenResult)) [
            | none ↦ ok (s, revoke_failed token_expired)
            | some _ ↦ revoke_found parse iso events ports context input scope id s
          ]
            ≡ ok (s', token_revoked correlation token_id position revoked_at)
          → Revoking s s' token_id
      found_case scope s s' before tokens id correlation token_id position revoked_at checked loaded
            found none h =
          cc h
      found_case scope s s' before tokens id correlation token_id position revoked_at checked loaded
            found (some _) h =
          revoke_found-Revoking scope s s' before tokens id correlation token_id position revoked_at
            checked loaded found h

  revoke-Revoking :
      (s s' : S) (correlation token_id : String) (position : ℕ) (revoked_at : Timestamp)
      → revoke_display_token parse iso events ports context input s
        ≡ ok (s', token_revoked correlation token_id position revoked_at)
      → Revoking s s' token_id
  unfolding revoke_display_token
  revoke-Revoking s s' correlation token_id position revoked_at h =
      elim (Bool-cases (facilitator_authorized context input.meeting_id)) [
        | inr e ↦
            let refused : revoke_display_token parse iso events ports context input s
                ≡ ok (s, revoke_failed token_forbidden) =
              rw (e, revoke_display_token) refl in
            cc (refused, h)
        | inl e ↦ elim (Result-cases (checked_token input)) [
          | inl ((scope, id), f) ↦
              revoke_in_scope-Revoking scope s s' id correlation token_id position revoked_at
                (checked_token-eq-ok scope id f)
                (sym (rw (e, revoke_display_token) (rw f refl)) ∙ h)
          | inr (fault, f) ↦
              let refused : revoke_display_token parse iso events ports context input s
                  ≡ ok (s, revoke_failed token_invalid) =
                rw (e, revoke_display_token) (rw f refl) in
              cc (refused, h)
        ]
      ]

module _ (parse : Timestamp → Option ℕ) (iso : ℕ → Timestamp) {S : Type 0}
    (events : EventStore S DomainEvent) (Good : S → Type 0)
    (lawful : IsEventStore events Good) where
  -- After a revocation over a lawful store, a display whose token hashes to the one that was revoked is
  -- refused at any time that the clock can show.
  pub revoke_refuses :
      (ports : DisplayTokenPorts) (context : UserAuthorizationContext)
      (input : RevokeDisplayTokenInput) (s s' : S) (correlation token_id : String) (position : ℕ)
      (revoked_at : Timestamp) (digest : String → Result String) (later : Timestamp) (later_ms : ℕ)
      (display_token : String)
      → Good s
      → revoke_display_token parse iso events ports context input s
        ≡ ok (s', token_revoked correlation token_id position revoked_at)
      → parse later ≡ some later_ms
      → display_token ≢ ""
      → digest display_token ≡ ok token_id
      → authorize_display_token parse iso events digest later display_token input.meeting_id s'
        ≡ ok display_refused
  revoke_refuses ports context input s s' correlation token_id position revoked_at digest later
        later_ms display_token good revoked read given hashed =
      let i =
        revoke-Revoking parse iso events ports context input s s' correlation token_id position
          revoked_at revoked in
      let a =
        lawful.append_appends s s' (append_of_revoke parse iso events ports context input i.made)
          i.records good i.appending in
      let (removed, none_of, bound) =
        revoke_events_lem ports context i.scope token_id i.at i.correlation i.made i.tokens
          i.making in
      let (placed, scoped) =
        checked_scope-eq-ok input.expected_position input.meeting_id i.scope i.checked in
      let last_lem : i.scope.0 ≡ a.last = sym placed ∙ a.expected input.expected_position refl in
      let bound' : a.last + length i.made.0 ≤ max_safe_integer =
        subst (λ n. n + length i.made.0 ≤ max_safe_integer) last_lem bound in
      let now_active =
        active_display_tokens-append i.before a.last i.made.0 i.tokens i.found bound' none_of in
      let old_before : a.before ≡ i.before = ok-injective (sym a.load_before ∙ i.loaded) in
      let reload : events.load s' input.meeting_id none ≡ ok (i.before ++ number a.last i.made.0) =
        a.load_after ∙ ap₂ (λ x y. ok (x ++ y)) old_before a.records_lem in
      let told =
        authorize_lem parse iso events digest later later_ms display_token input.meeting_id
          i.scope.1 token_id s' (i.before ++ number a.last i.made.0)
          (apply_token_events i.tokens i.made.0) given scoped hashed read reload now_active in
      let search =
        ap (find (λ t. t.display_token_id == token_id && is_unexpired parse later_ms t)) removed
        ∙ find-removed (is_unexpired parse later_ms) token_id i.tokens in
      told ∙ ap (λ o. ok (display_result parse iso events input.meeting_id o)) search
