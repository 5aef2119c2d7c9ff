-- ===== src/Application/DisplayTokens/Laws.antt =====
-- Which displays are authorized after a token was issued or revoked.
use counterpoint_living_deci.Application.Authorization.{access_eq}
use counterpoint_living_deci.Application.DisplayTokens.{
  authorize_display_token, display_result, find_unexpired, is_unexpired, now_milliseconds,
}
use counterpoint_living_deci.Application.DisplayTokens.State.{
  ActiveDisplayToken, active_display_tokens,
}
use counterpoint_living_deci.Base.{
  ==_iff, Bool, Bool-cases, List, Option, Option-cases, Result, String, [], ap, arith, false,
  filter, find, if◌then◌else◌, inl, inr, ltb, nat_eq, none, ok, option_eq, refl, some, string_eq,
  sym, true, ℕ, ◌&&◌, ◌==◌, ◌↔◌, ◌∙◌, ◌∷◌, ◌≡◌, ◌≢◌, ◌≤◌,
}
use counterpoint_living_deci.Entities.Common.{confirmation_eq, origin_eq, visibility_eq}
use counterpoint_living_deci.Entities.Decisions.{action_status_eq, status_eq, task_state_eq}
use counterpoint_living_deci.Entities.People.{capability_eq}
use counterpoint_living_deci.Events.{DomainEvent}
use counterpoint_living_deci.Store.{EventRecord, EventStore}
use counterpoint_living_deci.Store.Projections.{key_eq, kind_eq}
use counterpoint_living_deci.Values.{opaque_text}
use counterpoint_living_deci.Values.Ids.{Timestamp}

pub find-filter {ℓ} :
    {A : Type ℓ} (p q : A → Bool) (xs : List A)
    → ((a : A) → p a ≡ true → q a ≡ true)
    → find p xs ≡ find p (filter q xs)
unfolding find filter
find-filter p q [] f = refl
find-filter p q (x ∷ xs) f = elim (Bool-cases (q x)) [
  | inl e ↦ rw e (ap (λ o. if p x then some x else o) (find-filter p q xs f))
  | inr e ↦
      let no_match : p x ≡ false = elim (Bool-cases (p x)) [ inl g ↦ cc (f x g, e) | inr g ↦ g ] in
      rw e (rw no_match (find-filter p q xs f))
]

module _ (parse : Timestamp → Option ℕ) where
  pub now_milliseconds_iff :
      (now : Timestamp) (ms : ℕ) → (now_milliseconds parse now ≡ ok ms) ↔ (parse now ≡ some ms)
  unfolding now_milliseconds
  now_milliseconds_iff now ms = elim (Option-cases (parse now)) [
    | inl e ↦ rw e ((λ h. cc h), λ h. cc h)
    | inr (k, e) ↦ rw e ((λ h. cc h), λ h. cc h)
  ]

  -- The search reads the clock at one time.
  find_unexpired_lem :
      (now : Timestamp) (ms : ℕ) (id : String) (tokens : List ActiveDisplayToken)
      → parse now ≡ some ms
      → find_unexpired parse now id tokens
        ≡ ok (find (λ t. t.display_token_id == id && is_unexpired parse ms t) tokens)
  unfolding find_unexpired find
  find_unexpired_lem now ms id [] read = refl
  find_unexpired_lem now ms id (t ∷ ts) read =
      let clock = (now_milliseconds_iff now ms).1 read in
      let ih = find_unexpired_lem now ms id ts read in
      elim (Bool-cases (t.display_token_id == id)) [
        | inl e ↦ elim (Bool-cases (is_unexpired parse ms t)) [
          | inl f ↦ rw e (rw clock (rw f refl))
          | inr f ↦ rw e (rw clock (rw f ih))
        ]
        | inr e ↦ rw e ih
      ]

  pub is_unexpired-some :
      (now ms : ℕ) (t : ActiveDisplayToken)
      → parse t.expires_at ≡ some ms
      → is_unexpired parse now t ≡ ltb now ms
  unfolding is_unexpired
  is_unexpired-some now ms t e = rw (e, is_unexpired) refl

  is_unexpired-none :
      (now : ℕ) (t : ActiveDisplayToken)
      → parse t.expires_at ≡ none
      → is_unexpired parse now t ≡ false
  unfolding is_unexpired
  is_unexpired-none now t e = rw (e, is_unexpired) refl

  -- What is expired stays expired.
  pub is_unexpired-le :
      (now later : ℕ) (t : ActiveDisplayToken)
      → now ≤ later
      → is_unexpired parse later t ≡ true
      → is_unexpired parse now t ≡ true
  is_unexpired-le now later t l h = elim (Option-cases (parse t.expires_at)) [
    | inl e ↦ cc (h, is_unexpired-none later t e)
    | inr (ms, e) ↦
        let after : ltb later ms ≡ true = sym (is_unexpired-some later ms t e) ∙ h in
        is_unexpired-some now ms t e ∙ ground (arith, after)
  ]

module _ (parse : Timestamp → Option ℕ) (iso : ℕ → Timestamp) {S : Type 0}
    (events : EventStore S DomainEvent) where
  -- What a display is told, by the tokens that are active.
  pub authorize_lem :
      (digest : String → Result String) (now : Timestamp) (ms : ℕ)
      (display_token meeting scope hash : String) (s : S) (records : List (EventRecord DomainEvent))
      (tokens : List ActiveDisplayToken)
      → display_token ≢ ""
      → opaque_text meeting ≡ ok scope
      → digest display_token ≡ ok hash
      → parse now ≡ some ms
      → events.load s meeting none ≡ ok records
      → active_display_tokens records ≡ ok tokens
      → authorize_display_token parse iso events digest now display_token meeting s
        ≡ ok (
            display_result parse iso events meeting
              (find (λ t. t.display_token_id == hash && is_unexpired parse ms t) tokens))
  unfolding authorize_display_token
  authorize_lem digest now ms display_token meeting scope hash s records tokens given named hashed
        read loaded active_tokens =
      let not_empty : (display_token == "") ≡ false = elim (Bool-cases (display_token == "")) [
        | inl e ↦ absurd (given ((==_iff display_token "").0 e))
        | inr e ↦ e
      ] in
      rw not_empty (
        rw named (
          rw hashed (
            rw loaded
              (rw active_tokens (rw (find_unexpired_lem parse now ms hash tokens read) refl)))))
