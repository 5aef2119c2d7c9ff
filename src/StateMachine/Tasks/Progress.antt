-- ===== src/StateMachine/Tasks/Progress.antt =====
-- The diagram of a task, and `reviseReconsiderationTask` along it.
use counterpoint_living_deci.Base.{
  ==_iff, Bool-cases, arith, err, inl, inr, invalid_state_transition, nat_eq, ok, option_eq, refl,
  string_eq, true, ◌+◌, ◌<◌, ◌==◌, ◌↔◌, ◌≡◌, ◌≢◌, ◌⊎◌,
}
use counterpoint_living_deci.Entities.Common.{confirmation_eq, origin_eq, visibility_eq}
use counterpoint_living_deci.Entities.Decisions.{
  ReconsiderationTask, TaskState, action_status_eq, cancelled, in_progress, status_eq,
  task_completed, task_open, task_state_eq,
}
use counterpoint_living_deci.Entities.People.{capability_eq}
use counterpoint_living_deci.Entities.Validity.Decisions.{IsTask, create_reconsideration_task_iff}
use counterpoint_living_deci.StateMachine.Tasks.{is_allowed, revise_reconsideration_task}
use counterpoint_living_deci.Values.{max_safe_integer}
use counterpoint_living_deci.Values.Numbers.{revision_number-of_ℕ}

pub data TaskEdge : TaskState → TaskState → Type 0 where
  starts : TaskEdge task_open in_progress
  drops : TaskEdge task_open cancelled
  finishes : TaskEdge in_progress task_completed
  stops : TaskEdge in_progress cancelled

is_allowed_iff : (a b : TaskState) → (is_allowed a b ≡ true) ↔ TaskEdge a b
unfolding is_allowed
is_allowed_iff a b = (grind (arith, starts, drops, finishes, stops), λ e. edge_allowed e)
  where
    edge_allowed : {x y : TaskState} → TaskEdge x y → is_allowed x y ≡ true
    edge_allowed starts = refl
    edge_allowed drops = refl
    edge_allowed finishes = refl
    edge_allowed stops = refl

-- The task in another state, with the next revision number.
abbrev pub moved : ReconsiderationTask → TaskState → ReconsiderationTask
moved task state = record task {
  common = record task.common { revision = task.revision + 1 };
  state = state;
}

moved-IsTask : (t : ReconsiderationTask) (s : TaskState) → IsTask t → IsTask (moved t s)
moved-IsTask t s v = record {
  scoped = record {
    named = v.scoped.named;
    owned = v.scoped.owned;
    owner_named = v.scoped.owner_named;
  };
  visible = v.visible;
  some_premise = v.some_premise;
  some_action = v.some_action;
  premises = v.premises;
  actions = v.actions;
}

-- A valid task whose revision number can grow accepts its own state, which changes nothing, and the
-- states that its diagram leads to, with the next revision number; any other state is refused.
pub revise_reconsideration_task_cases :
    (t : ReconsiderationTask) (s : TaskState)
    → IsTask t
    → t.revision < max_safe_integer
    → ((t.state ≡ s) × (revise_reconsideration_task t s ≡ ok t))
      ⊎ (TaskEdge t.state s × (revise_reconsideration_task t s ≡ ok (moved t s)))
      ⊎ ((t.state ≢ s)
          × (¬ TaskEdge t.state s)
          × (revise_reconsideration_task t s ≡ err invalid_state_transition))
unfolding revise_reconsideration_task
revise_reconsideration_task_cases t s v small = elim (Bool-cases (t.state == s)) [
  | inl e ↦ inl ((==_iff t.state s).0 e, ground (arith, e))
  | inr e ↦ elim (Bool-cases (is_allowed t.state s)) [
    | inl f ↦
        let good =
          (create_reconsideration_task_iff (moved t s) (moved t s)).1 (refl, moved-IsTask t s v) in
        inr (
          inl (
            (is_allowed_iff t.state s).0 f,
            ground (arith, e, f, good, revision_number-of_ℕ (t.revision + 1)),
          ))
    | inr f ↦ inr (
        inr (
          (λ x. cc (e, (==_iff t.state s).1 x)),
          (λ x. cc (f, (is_allowed_iff t.state s).1 x)),
          ground (arith, e, f),
        ))
  ]
]
