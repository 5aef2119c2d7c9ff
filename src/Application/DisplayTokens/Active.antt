-- ===== src/Application/DisplayTokens/Active.antt =====
-- How the active tokens change when events follow.
use counterpoint_living_deci.Application.DisplayTokens.State.{
  ActiveDisplayToken, active_display_tokens, apply_token_event, apply_token_events, at_position,
  is_reset_completed, normalized_events, since_reset,
}
use counterpoint_living_deci.Base.{
  >>=-eq-ok, All, Bool-cases, List, [], any, ap, arith, false, inl, inr, length, ok, refl, traverse,
  ℕ, ◌++◌, ◌+◌, ◌>>=◌, ◌∙◌, ◌∷◌, ◌≡◌, ◌≤◌,
}
use counterpoint_living_deci.Events.{DomainEvent, private_event, shared_event}
use counterpoint_living_deci.Store.{EventRecord, number}
use counterpoint_living_deci.Store.Sqlite.Append.{any-none}
use counterpoint_living_deci.Store.Sqlite.Rows.{traverse-append}
use counterpoint_living_deci.Values.{
  is_below, is_safe_integer, max_safe_integer, meeting_position, of_ℕ, to_ℕ,
}

pub apply_token_events-append :
    (tokens : List ActiveDisplayToken) (es fs : List DomainEvent)
    → apply_token_events tokens (es ++ fs) ≡ apply_token_events (apply_token_events tokens es) fs
unfolding apply_token_events
apply_token_events-append tokens [] fs = refl
apply_token_events-append tokens (e ∷ es) fs =
    apply_token_events-append (apply_token_event tokens e) es fs

abbrev pub NoResets : List DomainEvent → Type 0
NoResets es = All (λ e. is_reset_completed e ≡ false) es

any-append_none :
    (es fs : List DomainEvent)
    → NoResets fs
    → any is_reset_completed (es ++ fs) ≡ any is_reset_completed es
unfolding any
any-append_none [] fs h = any-none is_reset_completed fs h
any-append_none (e ∷ es) fs h = rw (any-append_none es fs h) refl

since_reset_none : (fs : List DomainEvent) → NoResets fs → since_reset fs ≡ fs
unfolding since_reset
since_reset_none [] h = refl
since_reset_none (f ∷ fs) h = rw (any-none is_reset_completed fs h.1, h.0) refl

pub since_reset-append :
    (es fs : List DomainEvent) → NoResets fs → since_reset (es ++ fs) ≡ since_reset es ++ fs
unfolding since_reset
since_reset-append [] fs h = since_reset_none fs h
since_reset-append (e ∷ es) fs h = elim (Bool-cases (any is_reset_completed es)) [
  | inl t ↦ rw (any-append_none es fs h) (rw t (since_reset-append es fs h))
  | inr t ↦ elim (Bool-cases (is_reset_completed e)) [
    | inl u ↦ rw (any-append_none es fs h) (rw t (rw u refl))
    | inr u ↦ rw (any-append_none es fs h) (rw t (rw u refl))
  ]
]

-- The position of an event does not matter for the tokens.
apply_token_event-at_position :
    (tokens : List ActiveDisplayToken) (p : ℕ) (e : DomainEvent)
    → apply_token_event tokens (at_position p e) ≡ apply_token_event tokens e
apply_token_event-at_position tokens p (shared_event e) = refl
apply_token_event-at_position tokens p (private_event e) = refl

is_reset_completed-at_position :
    (p : ℕ) (e : DomainEvent) → is_reset_completed (at_position p e) ≡ is_reset_completed e
is_reset_completed-at_position p (shared_event e) = refl
is_reset_completed-at_position p (private_event e) = refl

pub meeting_position-of_ℕ :
    (n p : ℕ) → meeting_position (of_ℕ n) ≡ ok p → (p ≡ n) × (n ≤ max_safe_integer)
unfolding meeting_position is_safe_integer is_below to_ℕ
meeting_position-of_ℕ n p h = (ground arith, ground arith)

meeting_position_safe : (n : ℕ) → n ≤ max_safe_integer → meeting_position (of_ℕ n) ≡ ok n
unfolding meeting_position is_safe_integer is_below to_ℕ
meeting_position_safe n h = ground arith

normalized_events-number :
    (n : ℕ) (es : List DomainEvent) (tokens : List ActiveDisplayToken)
    → n + length es ≤ max_safe_integer
    → NoResets es
    → (fs : List DomainEvent) × (normalized_events (number n es) ≡ ok fs)
      × (apply_token_events tokens fs ≡ apply_token_events tokens es)
      × NoResets fs
unfolding normalized_events traverse apply_token_events
normalized_events-number n [] tokens b h = ([], refl, refl, tt)
normalized_events-number n (e ∷ es) tokens b h =
    let (fs, made, same, none_of) =
      normalized_events-number (n + 1) es (apply_token_event tokens e) (omega arith) h.1 in
    (
      at_position (n + 1) e ∷ fs,
      rw (meeting_position_safe (n + 1) (omega arith), made) refl,
      rw (apply_token_event-at_position tokens (n + 1) e) same,
      (is_reset_completed-at_position (n + 1) e ∙ h.0, none_of),
    )

normalized_events-append :
    (rs qs : List (EventRecord DomainEvent)) {es fs : List DomainEvent}
    → normalized_events rs ≡ ok es
    → normalized_events qs ≡ ok fs
    → normalized_events (rs ++ qs) ≡ ok (es ++ fs)
unfolding normalized_events
normalized_events-append rs qs h k =
    traverse-append (λ r. meeting_position (of_ℕ r.position) >>= λ p. ok (at_position p r.event)) rs
      qs h k

-- Events that follow, but for resets, are applied to the tokens that were active.
pub active_display_tokens-append :
    (before : List (EventRecord DomainEvent)) (n : ℕ) (es : List DomainEvent)
    (tokens : List ActiveDisplayToken)
    → active_display_tokens before ≡ ok tokens
    → n + length es ≤ max_safe_integer
    → NoResets es
    → active_display_tokens (before ++ number n es) ≡ ok (apply_token_events tokens es)
unfolding active_display_tokens
active_display_tokens-append before n es tokens h b none_of =
    let (old, read, made) =
      >>=-eq-ok (normalized_events before)
        (λ events. ok (apply_token_events [] (since_reset events))) h in
    let start = apply_token_events [] (since_reset old) in
    let (fs, read', same, none_of') = normalized_events-number n es start b none_of in
    let all : normalized_events (before ++ number n es) ≡ ok (old ++ fs) =
      normalized_events-append before (number n es) read read' in
    let old_same : start ≡ tokens = cc made in
    ap (λ r. r >>= λ events. ok (apply_token_events [] (since_reset events))) all
    ∙ ap (λ events. ok (apply_token_events [] events)) (since_reset-append old fs none_of')
    ∙ ap ok (
        apply_token_events-append [] (since_reset old) fs
        ∙ same
        ∙ ap (λ t. apply_token_events t es) old_same)
