-- ===== src/StateMachine/Holds.antt =====
-- `selectActionsToHold` and `holdAffectedActions`.
pub mod Laws
pub mod Applied
use counterpoint_living_deci.Base.{
  Bool, List, Result, any, filter, if◌then◌else◌, map, nat_eq, not, ok, option_eq, some, string_eq,
  traverse, ℕ, ◌&&◌, ◌+◌, ◌==◌, ◌>>=◌, ◌>>◌,
}
use counterpoint_living_deci.Base.Members.{contains}
use counterpoint_living_deci.Entities.Common.{confirmation_eq, origin_eq, visibility_eq}
use counterpoint_living_deci.Entities.Decisions.{
  Action, action_status_eq, completed, create_action, held, status_eq, task_state_eq,
}
use counterpoint_living_deci.Entities.People.{capability_eq}
use counterpoint_living_deci.Values.{of_ℕ, revision_number}
use counterpoint_living_deci.Values.Ids.{ActionId, NonEmptyText, PremiseId}

pub record ActionHoldSelection : Type 0 where
  pub affected_premise_ids : List PremiseId
  pub suggested_action_ids : List ActionId
  pub hold_reason : NonEmptyText

-- The test of the filter. A `Set` of the source is asked only what it has, as its list can be.
unfoldable pub is_to_hold : ActionHoldSelection → Action → Bool
is_to_hold selection action =
    not (action.status == completed)
    && not (action.status == held)
    && contains selection.suggested_action_ids action.id
    && any (contains selection.affected_premise_ids) action.affected_premise_ids

unfoldable pub select_actions_to_hold : List Action → ActionHoldSelection → List Action
unfolding is_to_hold
select_actions_to_hold actions selection = filter (is_to_hold selection) actions

abbrev pub action_id_of : Action → ActionId
action_id_of a = a.id

-- The held Action, before it is checked.
abbrev pub held_action : NonEmptyText → ℕ → Action → Action
held_action reason n action = record action {
  common = record action.common { revision = n };
  status = held;
  hold_reason = some reason;
}

-- The callback of the map.
unfoldable pub hold_selected : List ActionId → NonEmptyText → Action → Result Action
hold_selected chosen reason action =
    if contains chosen action.id
    then (do
      n ← revision_number (of_ℕ (action.revision + 1))
      create_action (held_action reason n action))
    else ok action

unfoldable pub hold_affected_actions : List Action → ActionHoldSelection → Result (List Action)
unfolding select_actions_to_hold hold_selected
hold_affected_actions actions selection =
    let chosen = map action_id_of (select_actions_to_hold actions selection) in
    traverse (hold_selected chosen selection.hold_reason) actions
