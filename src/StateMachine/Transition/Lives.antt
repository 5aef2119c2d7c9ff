-- ===== src/StateMachine/Transition/Lives.antt =====
-- What holds of a Decision after any requests that were granted.
use mathlib.Core.List.{Memᴰ}
use counterpoint_living_deci.Base.{
  ==_iff, >>=-eq-ok, Bool, Bool-cases, List, Option, Result, [], ap, arith, err, false, fold,
  fold_inv, inl, inr, invalid_state_transition, nat_eq, none, ok, option_eq, refl, some, string_eq,
  sym, true, ◌==◌, ◌∙◌, ◌∷◌, ◌≡◌, ◌≢◌, ◌⊎◌,
}
use counterpoint_living_deci.Entities.Common.{confirmation_eq, origin_eq, visibility_eq}
use counterpoint_living_deci.Entities.Decisions.{
  Decision, DecisionStatus, action_status_eq, at_risk, committed, decision_rejected, draft,
  monitoring, review_required, status_eq, superseded, task_state_eq,
}
use counterpoint_living_deci.Entities.People.{capability_eq}
use counterpoint_living_deci.StateMachine.Requests.{
  DecisionTransitionRequest, by_facilitator, by_system,
}
use counterpoint_living_deci.StateMachine.Transition.{transition_decision}
use counterpoint_living_deci.StateMachine.Transition.Guards.{
  Enabled, Lists, back_to_monitoring, to_at_risk, to_committed, to_monitoring, to_ready,
  to_recommitted, to_rejected, to_review, to_superseded, transition_decision-Enabled,
}
use counterpoint_living_deci.StateMachine.Transition.Outcome.{
  Becomes, transition_decision-Becomes, transition_decision-reaches,
}
use counterpoint_living_deci.Values.Ids.{DecisionId, MonitorRegistrationId, ParticipantId}

-- The requests are made in turn; the first refusal ends the run.
unfoldable pub run : Decision → List DecisionTransitionRequest → Result Decision
run d rs = fold transition_decision d rs

-- A Decision that is watched has a monitor, and a superseded one has a replacement that is not itself.
pub record IsAccounted (d : Decision) : Type 0 where
  pub watched : d.status ≡ monitoring → d.monitor_condition.registration_id ≢ none
  pub endangered : d.status ≡ at_risk → d.monitor_condition.registration_id ≢ none
  pub reviewed : d.status ≡ review_required → d.monitor_condition.registration_id ≢ none
  pub replaced :
      d.status ≡ superseded → (o : DecisionId) × (d.superseded_by_decision_id ≡ some o) × (o ≢ d.id)

abbrev status_of : Decision → DecisionStatus
status_of d = d.status

abbrev registration_of : Decision → Option MonitorRegistrationId
registration_of d = d.monitor_condition.registration_id

abbrev is_unwatched : DecisionStatus → Bool
is_unwatched monitoring = false
is_unwatched at_risk = false
is_unwatched review_required = false
is_unwatched superseded = false
is_unwatched _ = true

unwatched :
    {d : Decision} {s : DecisionStatus} → d.status ≡ s → is_unwatched s ≡ true → IsAccounted d
unwatched {d} {s} e h = record {
  watched = λ x. ground arith;
  endangered = λ x. ground arith;
  reviewed = λ x. ground arith;
  replaced = λ x. absurd (ground arith);
}

abbrev is_superseded : DecisionStatus → Bool
is_superseded superseded = true
is_superseded _ = false

registered :
    {d : Decision} {s : DecisionStatus}
    → d.monitor_condition.registration_id ≢ none
    → d.status ≡ s
    → is_superseded s ≡ false
    → IsAccounted d
registered {d} {s} n e h = record {
  watched = λ x. n;
  endangered = λ x. n;
  reviewed = λ x. n;
  replaced = λ x. absurd (ground arith);
}

module _ (d : Decision) (r : DecisionTransitionRequest) {d' : Decision} where
  superseded_by :
      (o : DecisionId)
      → r.replacement_decision_id ≡ some o
      → o ≢ d.id
      → Becomes review_required superseded d r d'
      → IsAccounted d'
  superseded_by o g n h = record {
    watched = λ x. ground arith;
    endangered = λ x. ground arith;
    reviewed = λ x. ground arith;
    replaced = λ x. (o, ground arith, λ e. n (e ∙ ap (λ (y : Decision). y.id) h));
  }

  IsAccounted-of_edge :
      {a b : DecisionStatus}
      → d.status ≡ a
      → Enabled d r a b
      → Becomes a b d r d'
      → IsAccounted d
      → IsAccounted d'
  IsAccounted-of_edge e (to_ready _ _ _ _ _ _ _ _ _ _) h v = unwatched (ap status_of h) refl
  IsAccounted-of_edge e (to_committed _ _ _) h v = unwatched (ap status_of h) refl
  IsAccounted-of_edge e (to_monitoring _ x) h v =
      registered (λ n. x (sym (ap registration_of h) ∙ n)) (ap status_of h) refl
  IsAccounted-of_edge e (to_at_risk _ _ _ _ _) h v =
      registered (λ n. v.watched e (sym (ap registration_of h) ∙ n)) (ap status_of h) refl
  IsAccounted-of_edge e (to_review _ _ _ _ _ _) h v =
      registered (λ n. v.endangered e (sym (ap registration_of h) ∙ n)) (ap status_of h) refl
  IsAccounted-of_edge e (back_to_monitoring _ _ _) h v =
      registered (λ n. v.endangered e (sym (ap registration_of h) ∙ n)) (ap status_of h) refl
  IsAccounted-of_edge e (to_recommitted _ _ _ _ _ _ _ _ _ _) h v = unwatched (ap status_of h.2) refl
  IsAccounted-of_edge e (to_superseded _ o _ g n) h v = superseded_by o g n h
  IsAccounted-of_edge e (to_rejected _ _ _) h v = unwatched (ap status_of h) refl

  transition-IsAccounted : transition_decision d r ≡ ok d' → IsAccounted d → IsAccounted d'
  transition-IsAccounted h =
      IsAccounted-of_edge refl (transition_decision-Enabled d r h)
        (transition_decision-Becomes d r h)

-- After any granted requests, a Decision that started as a draft has a monitor registration whenever it
-- is monitored, at risk or under review, and a replacement other than itself when it is superseded.
pub run-IsAccounted :
    (d d' : Decision) (rs : List DecisionTransitionRequest)
    → d.status ≡ draft
    → run d rs ≡ ok d'
    → IsAccounted d'
unfolding run
run-IsAccounted d d' rs e h =
    fold_inv IsAccounted transition_decision (λ b c x v g. transition-IsAccounted b x g v) d d' rs
      (unwatched e refl) h

-- A closed Decision refuses every request.
pub closed_refuses :
    (d : Decision) (r : DecisionTransitionRequest)
    → (d.status ≡ superseded) ⊎ (d.status ≡ decision_rejected)
    → transition_decision d r ≡ err invalid_state_transition
unfolding transition_decision
closed_refuses d r h = ground arith

-- The facilitator alone moves a Decision, but for the two transitions of the system: into monitoring
-- after a commitment, and into risk.
pub transition_authority :
    (d : Decision) (r : DecisionTransitionRequest) {d' : Decision}
    → transition_decision d r ≡ ok d'
    → ((p : ParticipantId) × (r.authority ≡ by_facilitator p))
      ⊎ ((r.authority ≡ by_system)
          × (((d.status ≡ committed) × (r.to ≡ monitoring))
              ⊎ ((d.status ≡ monitoring) × (r.to ≡ at_risk))))
transition_authority d r h = authority_of (transition_decision-Enabled d r h) refl refl
  where
    authority_of :
        {a b : DecisionStatus}
        → Enabled d r a b
        → d.status ≡ a
        → r.to ≡ b
        → ((p : ParticipantId) × (r.authority ≡ by_facilitator p))
          ⊎ ((r.authority ≡ by_system)
              × (((d.status ≡ committed) × (r.to ≡ monitoring))
                  ⊎ ((d.status ≡ monitoring) × (r.to ≡ at_risk))))
    authority_of (to_ready p _ e _ _ _ _ _ _ _) x y = inl (p, e)
    authority_of (to_committed p e _) x y = inl (p, e)
    authority_of (to_monitoring e _) x y = inr (e, inl (x, y))
    authority_of (to_at_risk e _ _ _ _) x y = inr (e, inr (x, y))
    authority_of (to_review p e _ _ _ _) x y = inl (p, e)
    authority_of (back_to_monitoring p e _) x y = inl (p, e)
    authority_of (to_recommitted p _ e _ _ _ _ _ _ _) x y = inl (p, e)
    authority_of (to_superseded p _ e _ _) x y = inl (p, e)
    authority_of (to_rejected p e _) x y = inl (p, e)

-- The facilitator's confirmation that a review begins with.
pub record Confirms (r : DecisionTransitionRequest) : Type 0 where
  pub facilitator : ParticipantId
  pub authority : r.authority ≡ by_facilitator facilitator
  pub confirmed : r.invalidation_confirmed ≡ some true
  pub premises : Lists r.reviewed_premise_ids
  pub evidence : Lists r.reviewed_evidence_reference_ids
  pub actions : Lists r.reviewed_action_ids

Confirms-of_Enabled :
    {d : Decision} {r : DecisionTransitionRequest} {a b : DecisionStatus}
    → Enabled d r a b
    → b ≡ review_required
    → Confirms r
Confirms-of_Enabled (to_review p e x a b c) _ = record {
  facilitator = p;
  authority = e;
  confirmed = x;
  premises = a;
  evidence = b;
  actions = c;
}
Confirms-of_Enabled _ y = cc

-- A Decision comes under review only by a request among those made in which a facilitator confirmed
-- the invalidation, having reviewed premises, evidence and Actions.
pub run-Confirms :
    (d d' : Decision) (rs : List DecisionTransitionRequest)
    → d.status ≢ review_required
    → run d rs ≡ ok d'
    → d'.status ≡ review_required
    → (r : DecisionTransitionRequest) × Memᴰ r rs × Confirms r
unfolding run fold
run-Confirms d d' [] n h e = absurd (n (ground arith))
run-Confirms d d' (r ∷ rs) n h e =
    let (m, step, rest) =
      >>=-eq-ok (transition_decision d r) (λ t. fold transition_decision t rs) h in
    elim (Bool-cases (m.status == review_required)) [
      | inl same ↦ (
        r,
        Memᴰ.head refl,
        Confirms-of_Enabled (transition_decision-Enabled d r step)
            (sym (transition_decision-reaches d r step) ∙ (==_iff m.status review_required).0 same),
      )
      | inr other ↦
          let (q, found, c) = run-Confirms m d' rs (λ x. cc (x, other)) rest e in
          (q, Memᴰ.tail found, c)
    ]
