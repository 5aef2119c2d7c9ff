-- ===== src/Tests/Displays.antt =====
-- A meeting whose display gets a token, over the log of that one meeting as its store.
use counterpoint_living_deci.Application.Authorization.{
  UserAuthorizationContext, access_eq, authorize, meeting_read,
}
use counterpoint_living_deci.Application.DisplayTokens.{
  authorize_display_token, facilitator_authorized, issue_display_token, one_event,
  revoke_display_token,
}
use counterpoint_living_deci.Application.DisplayTokens.Authorized.{issue_authorizes, opened_display}
use counterpoint_living_deci.Application.DisplayTokens.Requests.{
  DisplayTokenPorts, IssueDisplayTokenInput, RevokeDisplayTokenInput, display_authorized,
  display_refused, display_token_ttl_ms, token_issued, token_revoked,
}
use counterpoint_living_deci.Application.DisplayTokens.Revoked.{revoke_refuses}
use counterpoint_living_deci.Application.DisplayTokens.State.{
  ActiveDisplayToken, active_display_tokens,
}
use counterpoint_living_deci.Base.{
  ==_iff, Bool, Bool-cases, List, Option, Result, String, [], any, ap, arith, err, false, filter,
  if◌then◌else◌, inl, inr, length, ltb, nat_eq, none, ok, ok-injective, option_eq, refl, some,
  string_eq, suc, sym, traverse, true, type_error, zero, ℕ, ◌&&◌, ◌++◌, ◌+◌, ◌-◌, ◌==◌, ◌∙◌, ◌∷◌,
  ◌≡◌, ◌≢◌,
}
use counterpoint_living_deci.Base.Members.{contains}
use counterpoint_living_deci.Entities.Common.{confirmation_eq, origin_eq, visibility_eq}
use counterpoint_living_deci.Entities.Decisions.{action_status_eq, status_eq, task_state_eq}
use counterpoint_living_deci.Entities.People.{capability_eq, facilitator}
use counterpoint_living_deci.Events.{DomainEvent}
use counterpoint_living_deci.Events.Payloads.{display_token_issued, display_token_revoked}
use counterpoint_living_deci.Projection.Upsert.{upsert_by_id}
use counterpoint_living_deci.Store.{
  AppendEventsRequest, AppendOutcome, Appends, EventRecord, EventStore, IsEventStore, appended,
  is_appended, number, position_conflict,
}
use counterpoint_living_deci.Store.Projections.{key_eq, kind_eq}
use counterpoint_living_deci.Store.Sqlite.Returned.{conflicts_with-none}
use counterpoint_living_deci.Store.Sqlite.Tables.{conflicts_with}
use counterpoint_living_deci.Values.{
  Number, is_below, is_safe_integer, is_space, meeting_position, of_ℕ, opaque_text, to_ℕ,
}
use counterpoint_living_deci.Values.Ids.{Timestamp}
use counterpoint_living_deci.Values.Times.{concat, ends_with_z, timestamp, timestamp-iso}

abbrev log_append :
    List DomainEvent
    → AppendEventsRequest DomainEvent
    → Option Number
    → Bool
    → Result (List DomainEvent × AppendOutcome DomainEvent)
log_append log asked none true =
    ok (log ++ asked.events, appended (number (length log) asked.events))
log_append log asked (some expected) true = ok (log, position_conflict (length log) expected)
log_append log asked conflict false = err type_error

abbrev log_store : EventStore (List DomainEvent) DomainEvent
log_store = record {
  append = λ log asked.
      log_append log asked (conflicts_with asked.expected_position (length log))
        (asked.meeting_id == "m");
  load = λ log m after. if m == "m" then ok (number 0 log) else ok [];
  position = λ log m. if m == "m" then ok (length log) else ok 0;
}

abbrev AnyLog : List DomainEvent → Type 0
AnyLog log = Unit {0}

number-append :
    (n : ℕ) (es fs : List DomainEvent)
    → number n (es ++ fs) ≡ number n es ++ number (n + length es) fs
number-append n [] fs = ap (λ k. number k fs) (omega arith)
number-append n (e ∷ es) fs =
    let next : n + 1 + length es ≡ n + suc (length es) = omega arith in
    ap (λ r. record { event = e; position = n + 1 } ∷ r)
      (number-append (n + 1) es fs ∙ ap (λ k. number (n + 1) es ++ number k fs) next)

log_append-Appends :
    (log log' : List DomainEvent) (asked : AppendEventsRequest DomainEvent)
    (records : List (EventRecord DomainEvent)) (conflict : Option Number) (here : Bool)
    → conflicts_with asked.expected_position (length log) ≡ conflict
    → (asked.meeting_id == "m") ≡ here
    → log_append log asked conflict here ≡ ok (log', appended records)
    → Appends log_store log log' asked records
log_append-Appends log log' asked records none true fits there h =
    let both = ok-injective h in
    let log_same : log ++ asked.events ≡ log' = ap (λ r. r.0) both in
    let start : 0 + length log ≡ length log = omega arith in
    let records_same : number (length log) asked.events ≡ records = cc both in
    record {
      last = length log;
      before = number 0 log;
      position_before = rw there refl;
      records_lem = sym records_same;
      load_before = rw there refl;
      load_after = rw there (
          ap (λ l. ok (number 0 l)) (sym log_same)
          ∙ ap ok (
              number-append 0 log asked.events
              ∙ ap (λ r. number 0 log ++ r)
                  (ap (λ n. number n asked.events) start ∙ records_same)));
      expected = λ v e. conflicts_with-none asked.expected_position (length log) v fits e;
      others = λ m differs.
          let apart : (m == "m") ≡ false = elim (Bool-cases (m == "m")) [
            | inl e ↦
                absurd (differs ((==_iff m "m").0 e ∙ sym ((==_iff asked.meeting_id "m").0 there)))
            | inr e ↦ e
          ] in
          rw apart refl;
    }
log_append-Appends log log' asked records (some expected) true fits there h = cc h
log_append-Appends log log' asked records conflict false fits there h = cc h

log_append-unchanged :
    (log log' : List DomainEvent) (asked : AppendEventsRequest DomainEvent)
    (outcome : AppendOutcome DomainEvent) (conflict : Option Number) (here : Bool)
    → log_append log asked conflict here ≡ ok (log', outcome)
    → is_appended outcome ≡ false
    → log' ≡ log
log_append-unchanged log log' asked outcome none true h other =
    let both = ok-injective h in
    let same : appended (number (length log) asked.events) ≡ outcome = ap (λ r. r.1) both in
    cc (ap is_appended same, other)
log_append-unchanged log log' asked outcome (some expected) true h other =
    sym (ap (λ r. r.0) (ok-injective h))
log_append-unchanged log log' asked outcome conflict false h other = cc h

log_store-IsEventStore : IsEventStore log_store AnyLog
log_store-IsEventStore = record {
  append-Good = λ s s' asked outcome good h. tt;
  append_appends = λ s s' asked records good h.
      log_append-Appends s s' asked records (conflicts_with asked.expected_position (length s))
        (asked.meeting_id == "m") refl refl h;
  append_unchanged = λ s s' asked outcome good h other.
      log_append-unchanged s s' asked outcome (conflicts_with asked.expected_position (length s))
        (asked.meeting_id == "m") h other;
}

-- A time is written by as many marks, and a Z.
iso : ℕ → Timestamp
iso zero = "Z"
iso (suc n) = String.◌∷◌ "x" (iso n)

count_texts : String → ℕ
count_texts String.[] = 0
count_texts (String.◌∷◌ c s) = suc (count_texts s)

abbrev parse : Timestamp → Option ℕ
parse t = some (count_texts t - 1)

count_texts-iso : (n : ℕ) → count_texts (iso n) ≡ suc n
unfolding iso count_texts
count_texts-iso zero = refl
count_texts-iso (suc n) = ap (λ (k : ℕ). suc k) (count_texts-iso n)

parse-iso : (n : ℕ) → parse (iso n) ≡ some n
parse-iso n = let e = count_texts-iso n in ap some (omega arith)

ends_with_z-iso : (n : ℕ) → ends_with_z (iso n) ≡ true
unfolding iso ends_with_z
ends_with_z-iso zero = refl
ends_with_z-iso (suc zero) = refl
ends_with_z-iso (suc (suc n)) = ends_with_z-iso (suc n)

timestamp_accepted : (n : ℕ) → timestamp parse iso (iso n) ≡ ok (iso n)
timestamp_accepted n = timestamp-iso parse iso n (parse-iso n) (ends_with_z-iso n)

abbrev facilitating : UserAuthorizationContext
facilitating = record {
  capabilities = meeting_read ∷ [];
  meeting_id = "m";
  participant_id = "f";
  role = facilitator;
  session_id = "s";
  user_id = "u";
}

abbrev display_ports : DisplayTokenPorts
display_ports = record {
  now = "xxxxxZ";
  next_correlation = "c";
  next_event = λ k. if k == 0 then "e" else "f";
  next_operation = "o";
  token_hash = "new";
  token_value = "secret";
}

abbrev old_token : ActiveDisplayToken
old_token = record { display_token_id = "old"; expires_at = "xxxxxxxxxxZ" }

abbrev old_log : List DomainEvent
old_log = one_event "m" "a" 1 "Z" "c" "f" (some "k") (display_token_issued "old" "xxxxxxxxxxZ") ∷ []

abbrev new_log : List DomainEvent
new_log =
    old_log
    ++ one_event "m" "e" 2 (iso 5) "c" "f" none (display_token_revoked "old" (iso 5))
      ∷ one_event "m" "f" 3 (iso 5) "c" "f" (some "display-token-issue:new")
          (display_token_issued "new" (iso 28800005))
      ∷ []

abbrev issue_input : IssueDisplayTokenInput
issue_input = record { correlation_id = none; expected_position = of_ℕ 1; meeting_id = "m" }

old_tokens : active_display_tokens (number 0 old_log) ≡ ok (old_token ∷ [])
unfolding active_display_tokens traverse meeting_position is_safe_integer is_below to_ℕ any
    upsert_by_id
old_tokens = refl

issue_test :
    issue_display_token parse iso log_store display_ports facilitating issue_input old_log
    ≡ ok (new_log, token_issued "c" "secret" "new" (iso 28800005) 3)
unfolding issue_display_token facilitator_authorized authorize contains opaque_text is_space
    active_display_tokens traverse meeting_position is_safe_integer is_below to_ℕ any upsert_by_id
    filter concat count_texts
issue_test = rw (timestamp_accepted 28800005, timestamp_accepted 5) refl

abbrev opens_new : String → Result String
opens_new display_token = ok "new"

abbrev secret : String
secret = "secret"

abbrev new_id : String
new_id = "new"

secret_is_full : secret ≢ ""
secret_is_full e = ground (arith, (==_iff secret "").1 e)

issue_authorizes_example :
    authorize_display_token parse iso log_store opens_new "xxxxxxZ" secret "m" new_log
    ≡ ok (
        if new_id == new_id && ltb 6 (5 + display_token_ttl_ms)
        then display_authorized (opened_display "new" "m") (iso 28800005)
        else display_refused)
unfolding opaque_text is_space count_texts
issue_authorizes_example =
    issue_authorizes parse iso log_store AnyLog log_store-IsEventStore display_ports facilitating
      issue_input old_log new_log "c" "secret" "new" (iso 28800005) 3 (number 0 old_log)
      (old_token ∷ []) opens_new "xxxxxxZ" 5 6 secret new_id tt refl old_tokens (refl, tt)
      issue_test refl (parse-iso 28800005) refl (omega arith) secret_is_full refl

abbrev revoke_input : RevokeDisplayTokenInput
revoke_input = record {
  correlation_id = none;
  display_token_id = "old";
  expected_position = of_ℕ 1;
  meeting_id = "m";
}

abbrev revoked_log : List DomainEvent
revoked_log =
    old_log
    ++ one_event "m" "e" 2 "xxxxxZ" "c" "f" (some "display-token-revoke:old:o")
        (display_token_revoked "old" "xxxxxZ")
      ∷ []

revoke_test :
    revoke_display_token parse iso log_store display_ports facilitating revoke_input old_log
    ≡ ok (revoked_log, token_revoked "c" "old" 2 "xxxxxZ")
unfolding revoke_display_token facilitator_authorized authorize contains opaque_text is_space
    active_display_tokens traverse meeting_position is_safe_integer is_below to_ℕ any upsert_by_id
    filter concat count_texts timestamp iso
revoke_test = refl

abbrev opens_old : String → Result String
opens_old display_token = ok "old"

revoke_refuses_example :
    authorize_display_token parse iso log_store opens_old "xxxxxxZ" secret "m" revoked_log
    ≡ ok display_refused
unfolding count_texts
revoke_refuses_example =
    revoke_refuses parse iso log_store AnyLog log_store-IsEventStore display_ports facilitating
      revoke_input old_log revoked_log "c" "old" 2 "xxxxxZ" opens_old "xxxxxxZ" 6 secret tt
      revoke_test refl secret_is_full refl
