-- ===== src/Application/DisplayTokens/Issued.antt =====
-- What an issue that succeeded did.
use counterpoint_living_deci.Application.Authorization.{UserAuthorizationContext}
use counterpoint_living_deci.Application.DisplayTokens.{
  is_unexpired, issue_events, issue_parts, now_milliseconds, one_event, revocations, text_or,
}
use counterpoint_living_deci.Application.DisplayTokens.Active.{
  NoResets, apply_token_events-append, meeting_position-of_ℕ,
}
use counterpoint_living_deci.Application.DisplayTokens.Issue.{
  AreBranded, issued-alone, revocations_lem,
}
use counterpoint_living_deci.Application.DisplayTokens.Requests.{
  DisplayTokenPorts, IssueDisplayTokenInput, IssueParts, display_token_ttl_ms,
}
use counterpoint_living_deci.Application.DisplayTokens.State.{
  ActiveDisplayToken, active_display_tokens, apply_token_events, is_reset_completed,
}
use counterpoint_living_deci.Base.{
  >>=-eq-ok, All-append, List, Option, Result, String, [], ap, arith, false, filter,
  invalid_domain_value, length, length-append, not, ok, ok-injective, refl, some, sym,
  throw_if-eq-ok, true, ℕ, ◌++◌, ◌+◌, ◌>>=◌, ◌||◌, ◌∙◌, ◌∷◌, ◌≡◌, ◌≤◌,
}
use counterpoint_living_deci.Events.{DomainEvent}
use counterpoint_living_deci.Events.Payloads.{display_token_issued}
use counterpoint_living_deci.Store.{EventRecord}
use counterpoint_living_deci.Values.{max_safe_integer, meeting_position, of_ℕ, opaque_text}
use counterpoint_living_deci.Values.Ids.{MeetingId, Timestamp}
use counterpoint_living_deci.Values.Times.{concat, ends_with_z, is_canonical, timestamp}

abbrev pub token_of : IssueParts → ActiveDisplayToken
token_of parts = record { display_token_id = parts.token_id; expires_at = parts.expires_at }

module _ (parse : Timestamp → Option ℕ) (iso : ℕ → Timestamp) where
  timestamp-eq-ok :
      (value : String) {out : Timestamp} → timestamp parse iso value ≡ ok out → value ≡ out
  unfolding timestamp
  timestamp-eq-ok value h =
      let bad = not (ends_with_z value) || not (is_canonical parse iso value (parse value)) in
      cc ((throw_if-eq-ok bad invalid_domain_value (ok value) h).1)

  -- The events leave the new token as the only one that is not expired.
  pub issue_events_lem :
      (ports : DisplayTokenPorts) (context : UserAuthorizationContext) (scope : ℕ × MeetingId)
      (parts : IssueParts) (made : List DomainEvent × String × ℕ)
      → AreBranded parts.tokens
      → is_unexpired parse parts.now_ms (token_of parts) ≡ true
      → issue_events parse iso ports context scope parts ≡ ok made
      → (filter (is_unexpired parse parts.now_ms) (apply_token_events parts.tokens made.0)
          ≡ token_of parts ∷ [])
        × NoResets made.0
        × (scope.0 + length made.0 ≤ max_safe_integer)
  unfolding issue_events apply_token_events
  issue_events_lem ports context scope parts made branded live h =
      let token = token_of parts in
      let now = parts.now_ms in
      let tokens = parts.tokens in
      let token_id = parts.token_id in
      let expires = parts.expires_at in
      let correlation = parts.correlation in
      let revoking : String → Result (List DomainEvent) = λ at.
        revocations ports context scope.1 scope.0 at correlation 0
          (filter (is_unexpired parse now) tokens) in
      let issued : String → List DomainEvent → String → String → String → ℕ → DomainEvent =
        λ at revoked asking id key position.
          one_event scope.1 id position at correlation asking (some key)
            (display_token_issued token_id expires) in
      let finish : String
          → List DomainEvent
          → String
          → String
          → String
          → ℕ
          → Result (List DomainEvent × String × ℕ) =
        λ at revoked asking id key position.
          ok (revoked ++ issued at revoked asking id key position ∷ [], key, position) in
      let place : List DomainEvent → Result ℕ =
        λ revoked. meeting_position (of_ℕ (scope.0 + length revoked + 1)) in
      let name = opaque_text (concat "display-token-issue:" token_id) in
      let (at, _, h1) =
        >>=-eq-ok (timestamp parse iso (iso now))
          (λ at. revoking at >>= λ revoked. opaque_text context.participant_id >>= λ asking.
            opaque_text (ports.next_event (length revoked)) >>= λ id.
            name >>= λ key. place revoked >>= finish at revoked asking id key)
          h in
      let (revoked, made_revoked, h2) =
        >>=-eq-ok (revoking at)
          (λ revoked. opaque_text context.participant_id >>= λ asking.
            opaque_text (ports.next_event (length revoked)) >>= λ id.
            name >>= λ key. place revoked >>= finish at revoked asking id key)
          h1 in
      let (asking, _, h3) =
        >>=-eq-ok (opaque_text context.participant_id)
          (λ asking. opaque_text (ports.next_event (length revoked)) >>= λ id.
            name >>= λ key. place revoked >>= finish at revoked asking id key)
          h2 in
      let (id, _, h4) =
        >>=-eq-ok (opaque_text (ports.next_event (length revoked)))
          (λ id. name >>= λ key. place revoked >>= finish at revoked asking id key) h3 in
      let (key, _, h5) =
        >>=-eq-ok name (λ key. place revoked >>= finish at revoked asking id key) h4 in
      let (position, placed, h6) = >>=-eq-ok (place revoked) (finish at revoked asking id key) h5 in
      let last_event = issued at revoked asking id key position in
      let same : ◌≡◌ {A = List DomainEvent × String × ℕ} (revoked ++ last_event ∷ [], key, position)
          made =
        cc h6 in
      let events_same : revoked ++ last_event ∷ [] ≡ made.0 = ap (λ r. r.0) same in
      let (clear, none_of) =
        revocations_lem parse ports context scope.1 scope.0 at correlation now tokens branded
          made_revoked in
      let (_, bound) = meeting_position-of_ℕ (scope.0 + length revoked + 1) position placed in
      rw (← events_same) (
        ap (filter (is_unexpired parse now))
              (apply_token_events-append tokens revoked (last_event ∷ []))
            ∙ issued-alone parse now (apply_token_events tokens revoked) token clear live,
        All-append (λ e. is_reset_completed e ≡ false) revoked (last_event ∷ []) none_of (refl, tt),
        omega (arith, length-append revoked (last_event ∷ []), bound),
      )

  -- What the parts of an issue are.
  pub issue_parts-eq-ok :
      (ports : DisplayTokenPorts) (input : IssueDisplayTokenInput)
      (records : List (EventRecord DomainEvent)) (parts : IssueParts)
      → issue_parts parse iso ports input records ≡ ok parts
      → (now_milliseconds parse ports.now ≡ ok parts.now_ms)
        × (iso (parts.now_ms + display_token_ttl_ms) ≡ parts.expires_at)
        × (active_display_tokens records ≡ ok parts.tokens)
  unfolding issue_parts
  issue_parts-eq-ok ports input records parts h =
      let finish : ℕ → String → Timestamp → String → List ActiveDisplayToken → Result IssueParts =
        λ now id expiry cor tokens. ok (record {
          now_ms = now;
          token_id = id;
          expires_at = expiry;
          correlation = cor;
          tokens = tokens;
        }) in
      let correlating = opaque_text (text_or input.correlation_id ports.next_correlation) in
      let expiring : ℕ → Result Timestamp =
        λ now. timestamp parse iso (iso (now + display_token_ttl_ms)) in
      let (now, clocked, h1) =
        >>=-eq-ok (now_milliseconds parse ports.now)
          (λ now. opaque_text ports.token_hash >>= λ id. expiring now >>= λ expiry.
            correlating >>= λ cor. active_display_tokens records >>= finish now id expiry cor)
          h in
      let (id, _, h2) =
        >>=-eq-ok (opaque_text ports.token_hash)
          (λ id. expiring now >>= λ expiry.
            correlating >>= λ cor. active_display_tokens records >>= finish now id expiry cor)
          h1 in
      let (expiry, expires, h3) =
        >>=-eq-ok (expiring now)
          (λ expiry.
            correlating >>= λ cor. active_display_tokens records >>= finish now id expiry cor)
          h2 in
      let (cor, _, h4) =
        >>=-eq-ok correlating (λ cor. active_display_tokens records >>= finish now id expiry cor)
          h3 in
      let (tokens, found, h5) =
        >>=-eq-ok (active_display_tokens records) (finish now id expiry cor) h4 in
      let same = ok-injective h5 in
      let now_same : now ≡ parts.now_ms = ap (λ p. p.now_ms) same in
      (
        clocked ∙ ap ok now_same,
        ap (λ n. iso (n + display_token_ttl_ms)) (sym now_same)
            ∙ timestamp-eq-ok (iso (now + display_token_ttl_ms)) expires
            ∙ ap (λ p. p.expires_at) same,
        found ∙ ap (λ p. ok (p.tokens)) same,
      )
