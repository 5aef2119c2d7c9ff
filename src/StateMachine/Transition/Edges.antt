-- ===== src/StateMachine/Transition/Edges.antt =====
-- The diagram of the eight states of a Decision.
use counterpoint_living_deci.Base.{arith, refl, true, ◌↔◌, ◌≡◌}
use counterpoint_living_deci.Entities.Decisions.{
  DecisionStatus, at_risk, committed, decision_ready, decision_rejected, draft, monitoring,
  review_required, superseded,
}
use counterpoint_living_deci.StateMachine.Transition.{decision_transition_matrix}

pub data Edge : DecisionStatus → DecisionStatus → Type 0 where
  ready : Edge draft decision_ready
  commits : Edge decision_ready committed
  monitors : Edge committed monitoring
  endangers : Edge monitoring at_risk
  calms : Edge at_risk monitoring
  confirms : Edge at_risk review_required
  recommits : Edge review_required committed
  replaces : Edge review_required superseded
  rejects : Edge review_required decision_rejected

pub ruleset edges =
    (ready, commits, monitors, endangers, calms, confirms, recommits, replaces, rejects)

matrix_of_Edge : {a b : DecisionStatus} → Edge a b → decision_transition_matrix a b ≡ true
unfolding decision_transition_matrix
matrix_of_Edge ready = refl
matrix_of_Edge commits = refl
matrix_of_Edge monitors = refl
matrix_of_Edge endangers = refl
matrix_of_Edge calms = refl
matrix_of_Edge confirms = refl
matrix_of_Edge recommits = refl
matrix_of_Edge replaces = refl
matrix_of_Edge rejects = refl

Edge-of_matrix : (a b : DecisionStatus) → decision_transition_matrix a b ≡ true → Edge a b
unfolding decision_transition_matrix
Edge-of_matrix a b h = grind (arith, edges)

-- The table of allowed transitions holds exactly the edges of the diagram.
pub decision_transition_matrix_iff :
    (a b : DecisionStatus) → (decision_transition_matrix a b ≡ true) ↔ Edge a b
decision_transition_matrix_iff a b = (Edge-of_matrix a b, matrix_of_Edge)
