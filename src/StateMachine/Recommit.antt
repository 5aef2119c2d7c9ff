-- ===== src/StateMachine/Recommit.antt =====
-- About a review that ends in a new commitment: `nextDecisionRevision`, and `transitionDecision` on
-- the revision that it makes.
use mathlib.Core.Path.{subst, subst₂}
use counterpoint_living_deci.Base.{>>=-eq-ok, ap, arith, ok, some, sym, true, ◌+◌, ◌∙◌, ◌≡◌, ◌≤◌}
use counterpoint_living_deci.Entities.Decisions.{
  Decision, DecisionRevision, DecisionSnapshot, committed, create_decision_revision,
  review_required,
}
use counterpoint_living_deci.Entities.Validity.Decisions.{
  IsDecision, IsRevision, create_decision_revision_iff,
}
use counterpoint_living_deci.StateMachine.Requests.{DecisionTransitionRequest, by_facilitator}
use counterpoint_living_deci.StateMachine.Revisions.{
  NewDecisionRevisionInput, new_revision, next_decision_revision,
}
use counterpoint_living_deci.StateMachine.Transition.{transition_decision}
use counterpoint_living_deci.StateMachine.Transition.Complete.{transition_decision_iff}
use counterpoint_living_deci.StateMachine.Transition.Guards.{Enabled, to_recommitted}
use counterpoint_living_deci.StateMachine.Transition.Outcome.{Adopts, transition_decision-Adopts}
use counterpoint_living_deci.Values.{max_safe_integer, of_ℕ, revision_number}
use counterpoint_living_deci.Values.Numbers.{revision_number-of_ℕ}

-- What the new revision says of its Decision, besides its own validity.
pub record IsNext (d : Decision) (input : NewDecisionRevisionInput) (v : DecisionRevision)
    : Type 0 where
  pub good : IsRevision v
  pub decision : v.decision_id ≡ d.id
  pub number : v.version ≡ d.active_revision + 1
  pub bounded : v.version ≤ max_safe_integer
  pub author : v.created_by ≡ input.created_by
  pub previous : v.previous_revision_id ≡ some d.active_revision_id
  pub content : v.snapshot ≡ input.snapshot

pub next_decision_revision-IsNext :
    (d : Decision) (input : NewDecisionRevisionInput) {v : DecisionRevision}
    → next_decision_revision d input ≡ ok v
    → IsNext d input v
unfolding next_decision_revision
next_decision_revision-IsNext d input {v} h =
    let k = d.active_revision + 1 in
    let (n, e, h') =
      >>=-eq-ok (revision_number (of_ℕ k)) (λ n. create_decision_revision (new_revision d input n))
        h in
    let counted : (n ≡ k) × (n ≤ max_safe_integer) = ground (arith, e, revision_number-of_ℕ k) in
    let (same, good) = (create_decision_revision_iff (new_revision d input n) v).0 h' in
    record {
      good = subst IsRevision (sym same) good;
      decision = ap (λ (x : DecisionRevision). x.decision_id) same;
      number = ap (λ (x : DecisionRevision). x.version) same ∙ counted.0;
      bounded = rw (ap (λ (x : DecisionRevision). x.version) same) counted.1;
      author = ap (λ (x : DecisionRevision). x.created_by) same;
      previous = ap (λ (x : DecisionRevision). x.previous_revision_id) same;
      content = ap (λ (x : DecisionRevision). x.snapshot) same;
    }

-- The next revision of a valid Decision under review, with a snapshot that is committed, is accepted
-- when the facilitator who made it asks for the commitment explicitly; the Decision takes it over.
pub next_decision_revision-Adopts :
    (d : Decision) (input : NewDecisionRevisionInput) (r : DecisionTransitionRequest)
    {v : DecisionRevision}
    → IsDecision d
    → d.status ≡ review_required
    → input.snapshot.status ≡ committed
    → next_decision_revision d input ≡ ok v
    → r.to ≡ committed
    → r.authority ≡ by_facilitator input.created_by
    → r.explicit_commit ≡ some true
    → r.revision ≡ some v
    → (d' : Decision) × (transition_decision d r ≡ ok d') × Adopts d v d'
next_decision_revision-Adopts d input r {v} good s c h t a e g =
    let n = next_decision_revision-IsNext d input h in
    let enabled : Enabled d r review_required committed =
      to_recommitted input.created_by v a e g n.decision n.number n.bounded n.author
        (ap (λ (x : DecisionSnapshot). x.status) n.content ∙ c) in
    let (d', step) =
      (transition_decision_iff d r good (λ w f. subst IsRevision (cc (f, g)) n.good)).1
        (subst₂ (λ x y. Enabled d r x y) (sym s) (sym t) enabled) in
    let (w, f, adopts) = transition_decision-Adopts d r s t step in
    let same : w ≡ v = cc (f, g) in (d', step, subst (λ x. Adopts d x d') same adopts)
