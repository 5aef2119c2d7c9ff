-- ===== src/StateMachine/Transition/Outcome.antt =====
-- What a transition makes of a Decision.
use mathlib.Core.Path.{subst₂}
use counterpoint_living_deci.Base.{Option, String, ap, arith, none, ok, refl, some, ◌+◌, ◌≡◌, ◌≢◌}
use counterpoint_living_deci.Entities.Decisions.{
  Decision, DecisionRevision, DecisionStatus, at_risk, committed, create_decision, decision_ready,
  decision_rejected, monitoring, review_required, superseded,
}
use counterpoint_living_deci.Entities.Validity.Decisions.{IsDecision, create_decision_iff}
use counterpoint_living_deci.StateMachine.Requests.{DecisionTransitionRequest}
use counterpoint_living_deci.StateMachine.Transition.{
  commit, mark_at_risk, mark_ready, recommit, reject, reject_suggestion, replace_decision_status,
  require_review, start_monitoring, supersede, transition_between, transition_decision,
  with_revision,
}
use counterpoint_living_deci.StateMachine.Transition.Edges.{
  Edge, calms, commits, confirms, endangers, monitors, ready, recommits, rejects, replaces,
}
use counterpoint_living_deci.StateMachine.Transition.Guards.{
  Enabled, to_recommitted, transition_decision-Enabled, transition_decision-inv,
}

-- The registration of the monitor: the one asked for when monitoring of a commitment starts.
abbrev pub registration_after :
    DecisionStatus → DecisionStatus → Option String → Option String → Option String
registration_after committed monitoring asked old = asked
registration_after _ _ asked old = old

-- The Decision that replaces this one: the one asked for when this one is superseded.
abbrev pub replacement_after : DecisionStatus → Option String → Option String → Option String
replacement_after superseded asked old = asked
replacement_after _ asked old = old

-- What a Decision says after a request that takes it from the state `a` to `b`, but for that state.
pub record KeepsContent (a b : DecisionStatus) (d : Decision) (r : DecisionTransitionRequest)
    (d' : Decision) : Type 0 where
  pub common : d'.common ≡ d.common
  pub title : d'.title ≡ d.title
  pub outcome : d'.outcome ≡ d.outcome
  pub active_revision : d'.active_revision ≡ d.active_revision
  pub active_revision_id : d'.active_revision_id ≡ d.active_revision_id
  pub premises : d'.premise_ids ≡ d.premise_ids
  pub evidence : d'.evidence_ids ≡ d.evidence_ids
  pub dissent : d'.dissent_ids ≡ d.dissent_ids
  pub actions : d'.action_ids ≡ d.action_ids
  pub monitor : d'.monitor_condition.description ≡ d.monitor_condition.description
  pub registration :
      d'.monitor_condition.registration_id
      ≡ registration_after a b r.monitor_registration_id d.monitor_condition.registration_id
  pub replacement :
      d'.superseded_by_decision_id
      ≡ replacement_after b r.replacement_decision_id d.superseded_by_decision_id

-- The Decision has the content of a revision, which is its next one.
pub record Adopts (d : Decision) (v : DecisionRevision) (d' : Decision) : Type 0 where
  pub number : d'.active_revision ≡ d.active_revision + 1
  pub version : d'.active_revision ≡ v.version
  pub recorded : d'.revision ≡ d'.active_revision
  pub revision_id : d'.active_revision_id ≡ v.id
  pub title : d'.title ≡ v.snapshot.title
  pub outcome : d'.outcome ≡ v.snapshot.outcome
  pub premises : d'.premise_ids ≡ v.snapshot.premise_ids
  pub evidence : d'.evidence_ids ≡ v.snapshot.evidence_ids
  pub dissent : d'.dissent_ids ≡ v.snapshot.dissent_ids
  pub actions : d'.action_ids ≡ v.snapshot.action_ids
  pub monitor : d'.monitor_condition ≡ v.snapshot.monitor_condition
  pub same : d'.id ≡ d.id
  pub meeting : d'.meeting_id ≡ d.meeting_id

-- The Decision that an edge leads to.
abbrev pub Becomes :
    DecisionStatus → DecisionStatus → Decision → DecisionTransitionRequest → Decision → Type 0
Becomes committed monitoring d r d' = d' ≡ record d {
  monitor_condition = record d.monitor_condition { registration_id = r.monitor_registration_id };
  status = monitoring;
}
Becomes review_required committed d r d' =
    (v : DecisionRevision) × (r.revision ≡ some v) × (d' ≡ with_revision d v)
Becomes review_required superseded d r d' =
    d' ≡ record d { status = superseded; superseded_by_decision_id = r.replacement_decision_id }
Becomes _ to d r d' = d' ≡ record d { status = to }

accepted : {x d' : Decision} → create_decision x ≡ ok d' → IsDecision d' × (d' ≡ x)
accepted {x} {d'} h = let (e, v) = (create_decision_iff x d').0 h in (rw e v, e)

module _ (d : Decision) (r : DecisionTransitionRequest) {d' : Decision} where
  replaced :
      (s : DecisionStatus)
      → replace_decision_status d s ≡ ok d'
      → IsDecision d' × (d' ≡ record d { status = s })
  unfolding replace_decision_status
  replaced s h = accepted h

  recommit-Becomes :
      (o : Option DecisionRevision)
      → r.revision ≡ o
      → recommit d r ≡ ok d'
      → IsDecision d' × Becomes review_required committed d r d'
  unfolding recommit
  recommit-Becomes none g h = ground arith
  recommit-Becomes (some v) g h =
      let (good, e) = accepted {x = with_revision d v} (ground arith) in (good, (v, g, e))

  mark_ready-checked : mark_ready d r ≡ ok d' → replace_decision_status d decision_ready ≡ ok d'
  unfolding mark_ready
  mark_ready-checked h = ground arith

  commit-checked : commit d r ≡ ok d' → replace_decision_status d committed ≡ ok d'
  unfolding commit
  commit-checked h = ground arith

  mark_at_risk-checked : mark_at_risk d r ≡ ok d' → replace_decision_status d at_risk ≡ ok d'
  unfolding mark_at_risk
  mark_at_risk-checked h = ground arith

  reject_suggestion-checked :
      reject_suggestion d r ≡ ok d' → replace_decision_status d monitoring ≡ ok d'
  unfolding reject_suggestion
  reject_suggestion-checked h = ground arith

  require_review-checked :
      require_review d r ≡ ok d' → replace_decision_status d review_required ≡ ok d'
  unfolding require_review
  require_review-checked h = ground arith

  reject-checked : reject d r ≡ ok d' → replace_decision_status d decision_rejected ≡ ok d'
  unfolding reject
  reject-checked h = ground arith

  start_monitoring-Becomes :
      start_monitoring d r ≡ ok d' → IsDecision d' × Becomes committed monitoring d r d'
  unfolding start_monitoring
  start_monitoring-Becomes h = accepted (ground arith)

  supersede-Becomes :
      supersede d r ≡ ok d' → IsDecision d' × Becomes review_required superseded d r d'
  unfolding supersede
  supersede-Becomes h = accepted (ground arith)

  pub transition_between-Becomes :
      {a b : DecisionStatus}
      → Edge a b
      → transition_between a b d r ≡ ok d'
      → IsDecision d' × Becomes a b d r d'
  unfolding transition_between
  transition_between-Becomes ready h = replaced decision_ready (mark_ready-checked h)
  transition_between-Becomes commits h = replaced committed (commit-checked h)
  transition_between-Becomes monitors h = start_monitoring-Becomes h
  transition_between-Becomes endangers h = replaced at_risk (mark_at_risk-checked h)
  transition_between-Becomes calms h = replaced monitoring (reject_suggestion-checked h)
  transition_between-Becomes confirms h = replaced review_required (require_review-checked h)
  transition_between-Becomes recommits h = recommit-Becomes r.revision refl h
  transition_between-Becomes replaces h = supersede-Becomes h
  transition_between-Becomes rejects h = replaced decision_rejected (reject-checked h)

  -- A transition that succeeds gives a valid Decision.
  pub transition_decision-IsDecision : transition_decision d r ≡ ok d' → IsDecision d'
  transition_decision-IsDecision h =
      let (e, h') = transition_decision-inv d r h in (transition_between-Becomes e h').0

  pub transition_decision-Becomes : transition_decision d r ≡ ok d' → Becomes d.status r.to d r d'
  transition_decision-Becomes h =
      let (e, h') = transition_decision-inv d r h in (transition_between-Becomes e h').1

  Becomes-facts :
      {a b : DecisionStatus}
      → Edge a b
      → Becomes a b d r d'
      → (d'.status ≡ b) × ((b ≡ committed → a ≢ review_required) → KeepsContent a b d r d')
  Becomes-facts ready h = ground arith
  Becomes-facts commits h = ground arith
  Becomes-facts monitors h = ground arith
  Becomes-facts endangers h = ground arith
  Becomes-facts calms h = ground arith
  Becomes-facts confirms h = ground arith
  Becomes-facts recommits h = (rw h.2, λ k. absurd (k refl refl))
  Becomes-facts replaces h = ground arith
  Becomes-facts rejects h = ground arith

  transition_decision-facts :
      transition_decision d r ≡ ok d'
      → IsDecision d'
        × (d'.status ≡ r.to)
        × ((r.to ≡ committed → d.status ≢ review_required) → KeepsContent d.status r.to d r d')
  transition_decision-facts h =
      let (e, h') = transition_decision-inv d r h in
      let (good, b) = transition_between-Becomes e h' in
      let (s, k) = Becomes-facts e b in (good, s, k)

  -- A granted request takes the Decision to the state that was asked for.
  pub transition_decision-reaches : transition_decision d r ≡ ok d' → d'.status ≡ r.to
  transition_decision-reaches h = (transition_decision-facts h).1

  -- Unless it is a new commitment after a review, a transition that succeeds gives a valid Decision in
  -- the state that was asked for, and all else that the Decision says stays as it was, but that
  -- monitoring of a commitment takes over the registration asked for, and a superseded Decision the
  -- Decision that replaces it.
  pub transition_decision-KeepsContent :
      (r.to ≡ committed → d.status ≢ review_required)
      → transition_decision d r ≡ ok d'
      → IsDecision d' × (d'.status ≡ r.to) × KeepsContent d.status r.to d r d'
  transition_decision-KeepsContent k h =
      let (good, s, f) = transition_decision-facts h in (good, s, f k)

  Adopts-of_Enabled :
      {a b : DecisionStatus}
      → Enabled d r a b
      → a ≡ review_required
      → b ≡ committed
      → Becomes review_required committed d r d'
      → (v : DecisionRevision) × (r.revision ≡ some v) × Adopts d v d'
  Adopts-of_Enabled (to_recommitted p v _ _ g _ next _ _ _) _ _ (w, g', e) =
      let same : v ≡ w = cc (g, g') in
      (
        w,
        g',
        record {
          number = omega (
            arith,
            next,
            ap (λ (x : DecisionRevision). x.version) same,
            ap (λ (x : Decision). x.active_revision) e,
          );
          version = rw e refl;
          recorded = rw e refl;
          revision_id = rw e refl;
          title = rw e refl;
          outcome = rw e refl;
          premises = rw e refl;
          evidence = rw e refl;
          dissent = rw e refl;
          actions = rw e refl;
          monitor = rw e refl;
          same = rw e refl;
          meeting = rw e refl;
        },
      )
  Adopts-of_Enabled _ x y _ = cc

  -- A new commitment after a review takes over the revision that the request brought, whole, and
  -- the number of the active revision grows by one.
  pub transition_decision-Adopts :
      d.status ≡ review_required
      → r.to ≡ committed
      → transition_decision d r ≡ ok d'
      → (v : DecisionRevision) × (r.revision ≡ some v) × Adopts d v d'
  transition_decision-Adopts x y h =
      Adopts-of_Enabled (transition_decision-Enabled d r h) x y
        (subst₂ (λ a b. Becomes a b d r d') x y (transition_decision-Becomes h))
