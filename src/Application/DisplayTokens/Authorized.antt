-- ===== src/Application/DisplayTokens/Authorized.antt =====
-- About the displays that `authorizeDisplayToken` lets in after an issue.
use mathlib.Core.Path.{subst}
use counterpoint_living_deci.Application.Authorization.{
  DisplayAuthorizationContext, UserAuthorizationContext, access_eq,
}
use counterpoint_living_deci.Application.DisplayTokens.{
  answer, append_of, authorize_display_token, checked_scope, display_result, facilitator_authorized,
  is_unexpired, issue_display_token, issue_events, issue_in_scope, issue_parts,
}
use counterpoint_living_deci.Application.DisplayTokens.Active.{active_display_tokens-append}
use counterpoint_living_deci.Application.DisplayTokens.Issue.{AreBranded}
use counterpoint_living_deci.Application.DisplayTokens.Issued.{
  issue_events_lem, issue_parts-eq-ok, token_of,
}
use counterpoint_living_deci.Application.DisplayTokens.Laws.{
  authorize_lem, find-filter, is_unexpired-le, is_unexpired-some, now_milliseconds_iff,
}
use counterpoint_living_deci.Application.DisplayTokens.Requests.{
  DisplayTokenPorts, IssueDisplayTokenInput, IssueDisplayTokenResult, IssueParts,
  display_authorized, display_refused, display_token_ttl_ms, issue_failed, token_forbidden,
  token_invalid, token_issued,
}
use counterpoint_living_deci.Application.DisplayTokens.State.{
  ActiveDisplayToken, active_display_tokens, apply_token_events,
}
use counterpoint_living_deci.Base.{
  >>=-eq-ok, Bool, Bool-cases, List, Option, Result, Result-cases, String, [], ap, ap₂, arith,
  false, filter, find, if◌then◌else◌, inl, inr, length, ltb, nat_eq, none, ok, ok-injective,
  option_eq, refl, some, some-cancel, string_eq, sym, true, ℕ, ◌&&◌, ◌++◌, ◌+◌, ◌==◌, ◌>>=◌, ◌∙◌,
  ◌∷◌, ◌≡◌, ◌≢◌, ◌≤◌,
}
use counterpoint_living_deci.Entities.Common.{confirmation_eq, origin_eq, visibility_eq}
use counterpoint_living_deci.Entities.Decisions.{action_status_eq, status_eq, task_state_eq}
use counterpoint_living_deci.Entities.People.{capability_eq}
use counterpoint_living_deci.Events.{DomainEvent}
use counterpoint_living_deci.Store.{
  AppendEventsRequest, AppendOutcome, EventRecord, EventStore, IsEventStore, appended, number,
  position_conflict, replayed,
}
use counterpoint_living_deci.Store.Projections.{key_eq, kind_eq}
use counterpoint_living_deci.Values.{Number, max_safe_integer, meeting_position, opaque_text, to_ℕ}
use counterpoint_living_deci.Values.Ids.{MeetingId, Timestamp}

abbrev append_of_issue :
    {S : Type 0}
    → (Timestamp → Option ℕ)
    → (ℕ → Timestamp)
    → EventStore S DomainEvent
    → IssueDisplayTokenInput
    → List DomainEvent × String × ℕ
    → AppendEventsRequest DomainEvent
append_of_issue parse iso events input made =
    append_of parse iso events input.meeting_id input.expected_position made.1 made.0

module _ (parse : Timestamp → Option ℕ) (iso : ℕ → Timestamp) {S : Type 0}
    (events : EventStore S DomainEvent) (ports : DisplayTokenPorts)
    (context : UserAuthorizationContext) (input : IssueDisplayTokenInput) where
  -- The parts of an issue that succeeded.
  record Issuing (s s' : S) (token_id : String) (expires : Timestamp) : Type 0 where
    scope : ℕ × MeetingId
    before : List (EventRecord DomainEvent)
    parts : IssueParts
    made : List DomainEvent × String × ℕ
    records : List (EventRecord DomainEvent)
    checked : checked_scope input.expected_position input.meeting_id ≡ ok scope
    loaded : events.load s input.meeting_id none ≡ ok before
    prepared : issue_parts parse iso ports input before ≡ ok parts
    making : issue_events parse iso ports context scope parts ≡ ok made
    appending :
        events.append s (append_of_issue parse iso events input made) ≡ ok (s', appended records)
    named : parts.token_id ≡ token_id
    expiring : parts.expires_at ≡ expires

  answer-issued :
      (outcome : AppendOutcome DomainEvent) (a b c : String) (d : Timestamp) (e : ℕ)
      (a' b' c' : String) (d' : Timestamp) (e' : ℕ)
      → answer parse iso events issue_failed (token_issued a b c d e) outcome
        ≡ token_issued a' b' c' d' e'
      → (records : List (EventRecord DomainEvent)) × (outcome ≡ appended records)
        × (c ≡ c')
        × (d ≡ d')
  answer-issued (appended records) a b c d e a' b' c' d' e' h = (records, refl, cc h, cc h)
  answer-issued (replayed records) a b c d e a' b' c' d' e' h = cc h
  answer-issued (position_conflict x y) a b c d e a' b' c' d' e' h = cc h
  answer-issued (AppendOutcome.idempotency_conflict x) a b c d e a' b' c' d' e' h = cc h

  appended-Issuing :
      (scope : ℕ × MeetingId) (s s' : S) (before : List (EventRecord DomainEvent))
      (parts : IssueParts) (made : List DomainEvent × String × ℕ)
      (done : S × AppendOutcome DomainEvent) (correlation value token_id : String)
      (expires : Timestamp) (position : ℕ)
      → checked_scope input.expected_position input.meeting_id ≡ ok scope
      → events.load s input.meeting_id none ≡ ok before
      → issue_parts parse iso ports input before ≡ ok parts
      → issue_events parse iso ports context scope parts ≡ ok made
      → events.append s (append_of_issue parse iso events input made) ≡ ok done
      → ◌≡◌ {A = S × IssueDisplayTokenResult}
          (
            done.0,
            answer parse iso events issue_failed
                (token_issued parts.correlation ports.token_value parts.token_id parts.expires_at
                  made.2)
                done.1,
          )
          (s', token_issued correlation value token_id expires position)
      → Issuing s s' token_id expires
  appended-Issuing scope s s' before parts made done correlation value token_id expires position
        checked loaded prepared making appending both =
      let (records, outcome, id_same, expiry_same) =
        answer-issued done.1 parts.correlation ports.token_value parts.token_id parts.expires_at
          made.2 correlation value token_id expires position (ap (λ r. r.1) both) in
      record {
        scope = scope;
        before = before;
        parts = parts;
        made = made;
        records = records;
        checked = checked;
        loaded = loaded;
        prepared = prepared;
        making = making;
        appending = appending ∙ ap₂ (λ a b. ok (a, b)) (ap (λ r. r.0) both) outcome;
        named = id_same;
        expiring = expiry_same;
      }

  issue_in_scope-Issuing :
      (scope : ℕ × MeetingId) (s s' : S) (correlation value token_id : String) (expires : Timestamp)
      (position : ℕ)
      → checked_scope input.expected_position input.meeting_id ≡ ok scope
      → issue_in_scope parse iso events ports context input scope s
        ≡ ok (s', token_issued correlation value token_id expires position)
      → Issuing s s' token_id expires
  unfolding issue_in_scope
  issue_in_scope-Issuing scope s s' correlation value token_id expires position checked h =
      let finish : IssueParts
          → List DomainEvent × String × ℕ
          → S × AppendOutcome DomainEvent
          → Result (S × IssueDisplayTokenResult) =
        λ parts made done. ok (
          done.0,
          answer parse iso events issue_failed
              (token_issued parts.correlation ports.token_value parts.token_id parts.expires_at
                made.2)
              done.1,
        ) in
      let append : List DomainEvent × String × ℕ → Result (S × AppendOutcome DomainEvent) =
        λ made. events.append s (append_of_issue parse iso events input made) in
      let make : IssueParts → Result (List DomainEvent × String × ℕ) =
        λ parts. issue_events parse iso ports context scope parts in
      let (before, loaded, h1) =
        >>=-eq-ok (events.load s input.meeting_id none)
          (λ before. issue_parts parse iso ports input before >>= λ parts.
            make parts >>= λ made. append made >>= finish parts made)
          h in
      let (parts, prepared, h2) =
        >>=-eq-ok (issue_parts parse iso ports input before)
          (λ parts. make parts >>= λ made. append made >>= finish parts made) h1 in
      let (made, making, h3) =
        >>=-eq-ok (make parts) (λ made. append made >>= finish parts made) h2 in
      let (done, appending, h4) = >>=-eq-ok (append made) (finish parts made) h3 in
      appended-Issuing scope s s' before parts made done correlation value token_id expires position
        checked loaded prepared making appending (ok-injective h4)

  issue-Issuing :
      (s s' : S) (correlation value token_id : String) (expires : Timestamp) (position : ℕ)
      → issue_display_token parse iso events ports context input s
        ≡ ok (s', token_issued correlation value token_id expires position)
      → Issuing s s' token_id expires
  unfolding issue_display_token
  issue-Issuing s s' correlation value token_id expires position h =
      elim (Bool-cases (facilitator_authorized context input.meeting_id)) [
        | inr e ↦
            let refused : issue_display_token parse iso events ports context input s
                ≡ ok (s, issue_failed token_forbidden) =
              rw (e, issue_display_token) refl in
            cc (refused, h)
        | inl e ↦ elim (Result-cases (checked_scope input.expected_position input.meeting_id)) [
          | inl (scope, f) ↦
              issue_in_scope-Issuing scope s s' correlation value token_id expires position f
                (sym (rw (e, issue_display_token) (rw f refl)) ∙ h)
          | inr (fault, f) ↦
              let refused : issue_display_token parse iso events ports context input s
                  ≡ ok (s, issue_failed token_invalid) =
                rw (e, issue_display_token) (rw f refl) in
              cc (refused, h)
        ]
      ]

to_ℕ-meeting_position : (v : Number) (p : ℕ) → meeting_position v ≡ ok p → to_ℕ v ≡ p
unfolding meeting_position
to_ℕ-meeting_position v p h = ground arith

pub checked_scope-eq-ok :
    (expected : Number) (meeting : String) (scope : ℕ × MeetingId)
    → checked_scope expected meeting ≡ ok scope
    → (to_ℕ expected ≡ scope.0) × (opaque_text meeting ≡ ok scope.1)
checked_scope-eq-ok expected meeting scope h =
    let (p, placed, h1) =
      >>=-eq-ok (meeting_position expected) (λ p. opaque_text meeting >>= λ m. ok (p, m)) h in
    let (m, named, h2) = >>=-eq-ok (opaque_text meeting) (λ m. ok (p, m)) h1 in
    let same = ok-injective h2 in
    (to_ℕ-meeting_position expected p placed ∙ ap (λ q. q.0) same, named ∙ ap (λ q. ok (q.1)) same)

-- The context of the display that a token opens.
abbrev pub opened_display : String → String → DisplayAuthorizationContext
opened_display token_id meeting = record {
  reads_meeting = true;
  display_token_id = token_id;
  meeting_id = meeting;
}

module _ (parse : Timestamp → Option ℕ) (iso : ℕ → Timestamp) {S : Type 0}
    (events : EventStore S DomainEvent) (Good : S → Type 0)
    (lawful : IsEventStore events Good) where
  -- The search for a token among those of which only one is not expired.
  find-alone :
      (now later : ℕ) (hash : String) (tokens : List ActiveDisplayToken)
      (token : ActiveDisplayToken) (ms : ℕ)
      → filter (is_unexpired parse now) tokens ≡ token ∷ []
      → now ≤ later
      → parse token.expires_at ≡ some ms
      → find (λ t. t.display_token_id == hash && is_unexpired parse later t) tokens
        ≡ (if token.display_token_id == hash && ltb later ms then some token else none)
  unfolding find
  find-alone now later hash tokens token ms alone l read =
      let p : ActiveDisplayToken → Bool =
        λ t. t.display_token_id == hash && is_unexpired parse later t in
      find-filter p (is_unexpired parse now) tokens
        (λ t h. is_unexpired-le parse now later t l (ground (arith, h)))
      ∙ ap (find p) alone
      ∙ ap (λ b. if token.display_token_id == hash && b then some token else none)
          (is_unexpired-some parse later ms token read)

  issued_lem :
      (ports : DisplayTokenPorts) (context : UserAuthorizationContext)
      (input : IssueDisplayTokenInput) (s s' : S) (token_id : String) (expires : Timestamp)
      (before : List (EventRecord DomainEvent)) (tokens : List ActiveDisplayToken)
      (digest : String → Result String) (later : Timestamp) (now_ms later_ms : ℕ)
      (display_token hash : String)
      → Good s
      → events.load s input.meeting_id none ≡ ok before
      → active_display_tokens before ≡ ok tokens
      → AreBranded tokens
      → parse ports.now ≡ some now_ms
      → parse (iso (now_ms + display_token_ttl_ms)) ≡ some (now_ms + display_token_ttl_ms)
      → parse later ≡ some later_ms
      → now_ms ≤ later_ms
      → display_token ≢ ""
      → digest display_token ≡ ok hash
      → (scope : ℕ × MeetingId) (before' : List (EventRecord DomainEvent)) (parts : IssueParts)
        (made : List DomainEvent × String × ℕ) (records : List (EventRecord DomainEvent))
      → checked_scope input.expected_position input.meeting_id ≡ ok scope
      → events.load s input.meeting_id none ≡ ok before'
      → issue_parts parse iso ports input before' ≡ ok parts
      → issue_events parse iso ports context scope parts ≡ ok made
      → events.append s (append_of_issue parse iso events input made) ≡ ok (s', appended records)
      → parts.token_id ≡ token_id
      → parts.expires_at ≡ expires
      → authorize_display_token parse iso events digest later display_token input.meeting_id s'
        ≡ ok (
            display_result parse iso events input.meeting_id (
              if token_id == hash && ltb later_ms (now_ms + display_token_ttl_ms)
              then some (record { display_token_id = token_id; expires_at = expires })
              else none))
  issued_lem ports context input s s' token_id expires before tokens digest later now_ms later_ms
        display_token hash good loaded active_tokens branded clock read_back read l given hashed
        scope before' parts made records checked loaded' prepared making appending named expiring =
      let a =
        lawful.append_appends s s' (append_of_issue parse iso events input made) records good
          appending in
      let (clocked, written, found) =
        issue_parts-eq-ok parse iso ports input before' parts prepared in
      let (placed, scoped) =
        checked_scope-eq-ok input.expected_position input.meeting_id scope checked in
      let same_before : before' ≡ before = ok-injective (sym loaded' ∙ loaded) in
      let old_before : a.before ≡ before' = ok-injective (sym a.load_before ∙ loaded') in
      let same_tokens : tokens ≡ parts.tokens =
        ok-injective (sym active_tokens ∙ ap active_display_tokens (sym same_before) ∙ found) in
      let same_now : now_ms ≡ parts.now_ms =
        some-cancel (sym clock ∙ (now_milliseconds_iff parse ports.now parts.now_ms).0 clocked) in
      let end_ms = now_ms + display_token_ttl_ms in
      let expiry : parse parts.expires_at ≡ some end_ms =
        ap parse (sym written)
        ∙ ap (λ n. parse (iso (n + display_token_ttl_ms))) (sym same_now)
        ∙ read_back in
      let live : is_unexpired parse parts.now_ms (token_of parts) ≡ true =
        is_unexpired-some parse parts.now_ms end_ms (token_of parts) expiry
        ∙ ap (λ n. ltb n end_ms) (sym same_now)
        ∙ ground arith in
      let (alone, none_of, bound) =
        issue_events_lem parse iso ports context scope parts made
          (subst AreBranded same_tokens branded) live making in
      let last_lem : scope.0 ≡ a.last = sym placed ∙ a.expected input.expected_position refl in
      let bound' : a.last + length made.0 ≤ max_safe_integer =
        subst (λ n. n + length made.0 ≤ max_safe_integer) last_lem bound in
      let now_active =
        active_display_tokens-append before' a.last made.0 parts.tokens found bound' none_of in
      let reload : events.load s' input.meeting_id none ≡ ok (before' ++ number a.last made.0) =
        a.load_after ∙ ap₂ (λ x y. ok (x ++ y)) old_before a.records_lem in
      let told =
        authorize_lem parse iso events digest later later_ms display_token input.meeting_id scope.1
          hash s' (before' ++ number a.last made.0) (apply_token_events parts.tokens made.0) given
          scoped hashed read reload now_active in
      let l' : parts.now_ms ≤ later_ms = subst (λ n. n ≤ later_ms) same_now l in
      let search =
        find-alone parts.now_ms later_ms hash (apply_token_events parts.tokens made.0)
          (token_of parts) end_ms alone l' expiry in
      told
      ∙ ap (λ o. ok (display_result parse iso events input.meeting_id o)) search
      ∙ ap₂
          (λ t e. ok (
            display_result parse iso events input.meeting_id (
              if t == hash && ltb later_ms end_ms
              then some (record { display_token_id = t; expires_at = e })
              else none)))
          named expiring

  display_result_lem :
      (token_id meeting : String) (expires : Timestamp) (test : Bool)
      → display_result parse iso events meeting (
          if test
          then some (record { display_token_id = token_id; expires_at = expires })
          else none)
        ≡ (if test
            then display_authorized (opened_display token_id meeting) expires
            else display_refused)
  display_result_lem token_id meeting expires true = refl
  display_result_lem token_id meeting expires false = refl

  -- If the time eight hours after the issue is read as it is written and the ids of the active tokens
  -- are as the brand leaves them, then after an issue over a lawful store, at any time from then on, a display is authorized
  -- for the meeting exactly if its token hashes to the one that was issued and less than eight hours
  -- have passed: all tokens that were active before have been revoked.
  pub issue_authorizes :
      (ports : DisplayTokenPorts) (context : UserAuthorizationContext)
      (input : IssueDisplayTokenInput) (s s' : S) (correlation value token_id : String)
      (expires : Timestamp) (position : ℕ) (before : List (EventRecord DomainEvent))
      (tokens : List ActiveDisplayToken) (digest : String → Result String) (later : Timestamp)
      (now_ms later_ms : ℕ) (display_token hash : String)
      → Good s
      → events.load s input.meeting_id none ≡ ok before
      → active_display_tokens before ≡ ok tokens
      → AreBranded tokens
      → issue_display_token parse iso events ports context input s
        ≡ ok (s', token_issued correlation value token_id expires position)
      → parse ports.now ≡ some now_ms
      → parse (iso (now_ms + display_token_ttl_ms)) ≡ some (now_ms + display_token_ttl_ms)
      → parse later ≡ some later_ms
      → now_ms ≤ later_ms
      → display_token ≢ ""
      → digest display_token ≡ ok hash
      → authorize_display_token parse iso events digest later display_token input.meeting_id s'
        ≡ ok (
            if token_id == hash && ltb later_ms (now_ms + display_token_ttl_ms)
            then display_authorized (opened_display token_id input.meeting_id) expires
            else display_refused)
  issue_authorizes ports context input s s' correlation value token_id expires position before
        tokens digest later now_ms later_ms display_token hash good loaded active_tokens branded
        issued clock read_back read l given hashed =
      let i =
        issue-Issuing parse iso events ports context input s s' correlation value token_id expires
          position issued in
      issued_lem ports context input s s' token_id expires before tokens digest later now_ms
        later_ms display_token hash good loaded active_tokens branded clock read_back read l given
        hashed i.scope i.before i.parts i.made i.records i.checked i.loaded i.prepared i.making
        i.appending i.named i.expiring
      ∙ ap ok (
          display_result_lem token_id input.meeting_id expires
            (token_id == hash && ltb later_ms (now_ms + display_token_ttl_ms)))
