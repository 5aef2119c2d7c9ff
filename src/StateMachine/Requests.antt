-- ===== src/StateMachine/Requests.antt =====
-- Who asks for a transition of a Decision, and with what.
use counterpoint_living_deci.Base.{Bool, List, Option, String, [], false, none, some, true, ◌∷◌}
use counterpoint_living_deci.Entities.Decisions.{
  DecisionReadiness, DecisionRevision, DecisionStatus,
}
use counterpoint_living_deci.Values.Ids.{
  ActionId, DecisionId, MonitorRegistrationId, NonEmptyText, ParticipantId, PremiseId,
}

pub data DecisionAuthority : Type 0 where
  by_facilitator : ParticipantId → DecisionAuthority
  by_system : DecisionAuthority
  by_ai : NonEmptyText → DecisionAuthority
  by_participant : ParticipantId → DecisionAuthority

-- A field that the source marks `?` is an `Option`; ids of references are plain texts.
pub record DecisionTransitionRequest : Type 0 where
  pub to : DecisionStatus
  pub authority : DecisionAuthority
  pub readiness : Option DecisionReadiness
  pub explicit_commit : Option Bool
  pub monitor_registration_id : Option MonitorRegistrationId
  pub invalidation_suggestion_recorded : Option Bool
  pub suggestion_reference_ids : Option (List String)
  pub affected_premise_ids : Option (List PremiseId)
  pub affected_action_ids : Option (List ActionId)
  pub reviewed_premise_ids : Option (List PremiseId)
  pub reviewed_evidence_reference_ids : Option (List String)
  pub reviewed_action_ids : Option (List ActionId)
  pub invalidation_confirmed : Option Bool
  pub rejection_reason : Option NonEmptyText
  pub revision : Option DecisionRevision
  pub replacement_decision_id : Option DecisionId

-- `flag === true`.
abbrev pub is_true : Option Bool → Bool
is_true none = false
is_true (some b) = b

abbrev pub has_items : List String → Bool
has_items [] = false
has_items (_ ∷ _) = true

-- `(ids?.length ?? 0) > 0`.
abbrev pub has_any : Option (List String) → Bool
has_any none = false
has_any (some ids) = has_items ids
