-- ===== src/Application/DisplayTokens/Issue.antt =====
-- About the events that `issueDisplayToken` appends.
use counterpoint_living_deci.Application.Authorization.{UserAuthorizationContext, access_eq}
use counterpoint_living_deci.Application.DisplayTokens.{is_unexpired, one_event, revocations}
use counterpoint_living_deci.Application.DisplayTokens.Active.{NoResets}
use counterpoint_living_deci.Application.DisplayTokens.Requests.{DisplayTokenPorts}
use counterpoint_living_deci.Application.DisplayTokens.State.{
  ActiveDisplayToken, apply_token_events,
}
use counterpoint_living_deci.Base.{
  ==_iff, >>=-eq-ok, All, Bool, Bool-cases, List, Option, Result, String, [], ap, arith, false,
  filter, inl, inr, length, map, nat_eq, none, not, ok, option_eq, refl, string_eq, suc, sym, true,
  ℕ, ◌&&◌, ◌+◌, ◌==◌, ◌>>=◌, ◌∙◌, ◌∷◌, ◌≡◌,
}
use counterpoint_living_deci.Base.Keys.{All-map, All-of_Mem, filter_none, filter_of_Mem, map_of_Mem}
use counterpoint_living_deci.Base.Members.{contains, contains_of_Mem}
use counterpoint_living_deci.Entities.Common.{confirmation_eq, origin_eq, visibility_eq}
use counterpoint_living_deci.Entities.Decisions.{action_status_eq, status_eq, task_state_eq}
use counterpoint_living_deci.Entities.People.{capability_eq}
use counterpoint_living_deci.Events.{DomainEvent}
use counterpoint_living_deci.Events.Payloads.{display_token_revoked}
use counterpoint_living_deci.Projection.Upsert.{upsert_by_id, upsert_where}
use counterpoint_living_deci.Projection.Upsert.Laws.{upsert_where-cons, upsert_where-nil}
use counterpoint_living_deci.Store.Projections.{key_eq, kind_eq}
use counterpoint_living_deci.Store.Sqlite.Lawful.{All-filter}
use counterpoint_living_deci.Values.{meeting_position, of_ℕ, opaque_text}
use counterpoint_living_deci.Values.Ids.{MeetingId, Timestamp}

All-filter_with {ℓ κ μ} :
    {A : Type ℓ} (P : A → Type κ) (Q : A → Type μ) (p : A → Bool) (xs : List A)
    → ((a : A) → P a → p a ≡ true → Q a)
    → All P xs
    → All Q (filter p xs)
unfolding filter
All-filter_with P Q p [] f h = tt
All-filter_with P Q p (x ∷ xs) f h = elim (Bool-cases (p x)) [
  | inl e ↦ rw e (f x h.0 e, All-filter_with P Q p xs f h.1)
  | inr e ↦ rw e (All-filter_with P Q p xs f h.1)
]

abbrev token_ids : List ActiveDisplayToken → List String
token_ids tokens = map (λ t. t.display_token_id) tokens

-- The ids are texts that the brand accepts as they are.
abbrev pub AreBranded : List ActiveDisplayToken → Type 0
AreBranded tokens = All (λ t. opaque_text t.display_token_id ≡ ok t.display_token_id) tokens

revocations-nil :
    (ports : DisplayTokenPorts) (context : UserAuthorizationContext) (scope : MeetingId) (p : ℕ)
    (at correlation : String) (k : ℕ)
    → revocations ports context scope p at correlation k [] ≡ ok []
unfolding revocations
revocations-nil ports context scope p at correlation k = refl

filter-upsert {ℓ} :
    {A : Type ℓ} (q p : A → Bool) (xs : List A) (x : A)
    → All (λ a. q a ≡ false) xs
    → q x ≡ true
    → filter q (upsert_where p xs x) ≡ x ∷ []
unfolding filter
filter-upsert q p [] x h live = rw (upsert_where-nil p x) (rw live refl)
filter-upsert q p (y ∷ ys) x h live = elim (Bool-cases (p y)) [
  | inl e ↦ rw (upsert_where-cons p y ys x) (rw e (rw live (rw (filter_none q ys h.1) refl)))
  | inr e ↦ rw (upsert_where-cons p y ys x) (rw e (rw (h.0) (filter-upsert q p ys x h.1 live)))
]

revocations-cons :
    (ports : DisplayTokenPorts) (context : UserAuthorizationContext) (scope : MeetingId) (p : ℕ)
    (at correlation : String) (k : ℕ) (u : ActiveDisplayToken) (us : List ActiveDisplayToken)
    {out : List DomainEvent}
    → opaque_text u.display_token_id ≡ ok u.display_token_id
    → revocations ports context scope p at correlation k (u ∷ us) ≡ ok out
    → (asking : String) × (id : String) × (q : ℕ) × (others : List DomainEvent) × (revocations ports
          context scope p at correlation
          (k + 1)
          us
        ≡ ok others)
      × (one_event scope id q at correlation asking none
              (display_token_revoked u.display_token_id at)
            ∷ others
          ≡ out)
unfolding revocations
revocations-cons ports context scope p at correlation k u us branded h =
    let rest : Result (List DomainEvent) =
      revocations ports context scope p at correlation (k + 1) us in
    let finish : String → String → String → ℕ → List DomainEvent → Result (List DomainEvent) =
      λ asking id token q others. ok (
        one_event scope id q at correlation asking none (display_token_revoked token at)
        ∷ others) in
    let place : Result ℕ = meeting_position (of_ℕ (p + k + 1)) in
    let (asking, _, h1) =
      >>=-eq-ok (opaque_text context.participant_id)
        (λ asking. opaque_text (ports.next_event k) >>= λ id.
          opaque_text u.display_token_id >>= λ token.
          place >>= λ q. rest >>= finish asking id token q)
        h in
    let (id, _, h2) =
      >>=-eq-ok (opaque_text (ports.next_event k))
        (λ id. opaque_text u.display_token_id >>= λ token.
          place >>= λ q. rest >>= finish asking id token q)
        h1 in
    let (token, named, h3) =
      >>=-eq-ok (opaque_text u.display_token_id)
        (λ token. place >>= λ q. rest >>= finish asking id token q) h2 in
    let (q, _, h4) = >>=-eq-ok place (λ q. rest >>= finish asking id token q) h3 in
    let (others, made, h5) = >>=-eq-ok rest (finish asking id token q) h4 in
    let same : token ≡ u.display_token_id = cc (named, branded) in
    (
      asking,
      id,
      q,
      others,
      made,
      ap
            (λ t.
              one_event scope id q at correlation asking none (display_token_revoked t at) ∷ others)
            (sym same)
          ∙ cc h5,
    )

module _ (parse : Timestamp → Option ℕ) where
  -- An active token that is not expired and is none of those to revoke.
  abbrev is_left : ℕ → List ActiveDisplayToken → ActiveDisplayToken → Bool
  is_left now us a = is_unexpired parse now a && not (contains (token_ids us) a.display_token_id)

  revocations-Clear :
      (ports : DisplayTokenPorts) (context : UserAuthorizationContext) (scope : MeetingId) (p : ℕ)
      (at correlation : String) (now k : ℕ) (us tokens : List ActiveDisplayToken)
      {out : List DomainEvent}
      → AreBranded us
      → revocations ports context scope p at correlation k us ≡ ok out
      → All (λ a. is_left now us a ≡ false) tokens
      → All (λ a. is_unexpired parse now a ≡ false) (apply_token_events tokens out)
        × NoResets out
        × (length out ≡ length us)
  unfolding contains apply_token_events
  revocations-Clear ports context scope p at correlation now k [] tokens {out} b h left =
      let none_made : [] ≡ out = cc (revocations-nil ports context scope p at correlation k, h) in
      rw (← none_made) (All-map tokens (λ a e. ground (arith, e)) left, tt, refl)
  revocations-Clear ports context scope p at correlation now k (u ∷ us) tokens {out} b h left =
      let (asking, id, q, others, made, same) =
        revocations-cons ports context scope p at correlation k u us b.0 h in
      let remaining : List ActiveDisplayToken =
        filter (λ t. not (t.display_token_id == u.display_token_id)) tokens in
      let left' =
        All-filter_with (λ a. is_left now (u ∷ us) a ≡ false) (λ a. is_left now us a ≡ false)
          (λ t. not (t.display_token_id == u.display_token_id)) tokens
          (λ a e f. ground (
            arith,
            e,
            f,
            ==_iff a.display_token_id u.display_token_id,
            ==_iff u.display_token_id a.display_token_id,
          ))
          left in
      let (clear, none_of, count) =
        revocations-Clear ports context scope p at correlation now (k + 1) us remaining b.1 made
          left' in
      rw (← same) (clear, (refl, none_of), ap suc count)

  -- The new token is the only one that is not expired.
  pub issued-alone :
      (now : ℕ) (tokens : List ActiveDisplayToken) (token : ActiveDisplayToken)
      → All (λ a. is_unexpired parse now a ≡ false) tokens
      → is_unexpired parse now token ≡ true
      → filter (is_unexpired parse now) (upsert_by_id (λ t. t.display_token_id) tokens token)
        ≡ token ∷ []
  unfolding upsert_by_id
  issued-alone now tokens token h live =
      filter-upsert (is_unexpired parse now) (λ e. e.display_token_id == token.display_token_id)
        tokens token h live

  -- Of the tokens that an issue revokes, none that is not expired is left out.
  left_nothing :
      (now : ℕ) (tokens : List ActiveDisplayToken)
      → All (λ a. is_left now (filter (is_unexpired parse now) tokens) a ≡ false) tokens
  left_nothing now tokens = All-of_Mem tokens λ a there.
      elim (Bool-cases (is_unexpired parse now a)) [
        | inl e ↦
            let kept = filter_of_Mem (is_unexpired parse now) tokens a there e in
            let named =
              contains_of_Mem (token_ids (filter (is_unexpired parse now) tokens))
                a.display_token_id
                (map_of_Mem (λ t. t.display_token_id) (filter (is_unexpired parse now) tokens) a
                  kept) in
            rw (e, named) refl
        | inr e ↦ rw e refl
      ]

  pub AreBranded-filter :
      (now : ℕ) (tokens : List ActiveDisplayToken)
      → AreBranded tokens
      → AreBranded (filter (is_unexpired parse now) tokens)
  AreBranded-filter now tokens h =
      All-filter (λ t. opaque_text t.display_token_id ≡ ok t.display_token_id)
        (is_unexpired parse now) tokens h

  -- After the revocations only expired tokens are left.
  pub revocations_lem :
      (ports : DisplayTokenPorts) (context : UserAuthorizationContext) (scope : MeetingId) (p : ℕ)
      (at correlation : String) (now : ℕ) (tokens : List ActiveDisplayToken)
      {out : List DomainEvent}
      → AreBranded tokens
      → revocations ports context scope p at correlation 0 (filter (is_unexpired parse now) tokens)
        ≡ ok out
      → All (λ a. is_unexpired parse now a ≡ false) (apply_token_events tokens out) × NoResets out
  revocations_lem ports context scope p at correlation now tokens branded h =
      let (clear, none_of, _) =
        revocations-Clear ports context scope p at correlation now 0
          (filter (is_unexpired parse now) tokens) tokens (AreBranded-filter now tokens branded) h
          (left_nothing now tokens) in
      (clear, none_of)
