-- ===== src/Entities/Claims.antt =====
-- What is said in a meeting: propositions, stances, premises, options, risks and their relations.
use counterpoint_living_deci.Base.{
  List, Option, Result, String, invalid_domain_value, nat_eq, ok, option_eq, string_eq, throw_if,
  ◌==◌, ◌>>◌,
}
use counterpoint_living_deci.Entities.Common.{
  CommonRecordFields, assert_common_record, assert_probability, assert_unique, confirmation_eq,
  origin_eq, visibility_eq,
}
use counterpoint_living_deci.Entities.People.{capability_eq}
use counterpoint_living_deci.Values.{Number}
use counterpoint_living_deci.Values.Ids.{
  CriterionId, MonitorRegistrationId, NonEmptyText, OptionId, ParticipantId, PropositionId,
  SourceReferenceId,
}

pub record Proposition : Type 0 where
  pub common : CommonRecordFields
  pub open common use *
  pub statement : NonEmptyText
  pub source_reference_ids : List SourceReferenceId

pub data StancePosition : Type 0 where
  support oppose uncertain : StancePosition

pub record Stance : Type 0 where
  pub common : CommonRecordFields
  pub open common use *
  pub participant_id : ParticipantId
  pub proposition_id : PropositionId
  pub position : StancePosition

pub data ResolutionStatus : Type 0 where
  open_question resolved : ResolutionStatus

pub record Question : Type 0 where
  pub common : CommonRecordFields
  pub open common use *
  pub prompt : NonEmptyText
  pub resolution_status : ResolutionStatus

pub record Claim : Type 0 where
  pub common : CommonRecordFields
  pub open common use *
  pub statement : NonEmptyText
  pub source_reference_ids : List SourceReferenceId

pub record MonitorCondition : Type 0 where
  pub description : NonEmptyText
  pub registration_id : Option MonitorRegistrationId

pub record Premise : Type 0 where
  pub common : CommonRecordFields
  pub open common use *
  pub statement : NonEmptyText
  pub dependency_scope : List NonEmptyText
  pub monitor_condition : Option MonitorCondition

pub data OptionState : Type 0 where
  candidate selected discarded : OptionState

-- The type `Option` of the source.
pub record DecisionOption : Type 0 where
  pub common : CommonRecordFields
  pub open common use *
  pub label : NonEmptyText
  pub description : NonEmptyText
  pub state : OptionState

pub record Criterion : Type 0 where
  pub common : CommonRecordFields
  pub open common use *
  pub name : NonEmptyText
  pub description : NonEmptyText

pub record Constraint : Type 0 where
  pub common : CommonRecordFields
  pub open common use *
  pub statement : NonEmptyText
  pub source_reference_ids : List SourceReferenceId

pub record Risk : Type 0 where
  pub common : CommonRecordFields
  pub open common use *
  pub statement : NonEmptyText
  pub probability : Option Number
  pub impact : Option Number

pub record Evaluation : Type 0 where
  pub common : CommonRecordFields
  pub open common use *
  pub option_id : OptionId
  pub criterion_id : CriterionId
  pub assessment : NonEmptyText

pub data RelationKind : Type 0 where
  supports contradicts assumes answers depends_on satisfies violates implements : RelationKind
  derived_from affects : RelationKind

pub record Relation : Type 0 where
  pub common : CommonRecordFields
  pub open common use *
  pub source_id : String
  pub target_id : String
  pub kind : RelationKind
  pub source_reference_ids : List SourceReferenceId

unfoldable pub create_proposition : Proposition → Result Proposition
create_proposition input = do
  assert_common_record input.common
  assert_unique input.source_reference_ids
  ok input

unfoldable pub create_stance : Stance → Result Stance
create_stance input = do assert_common_record input.common; ok input

unfoldable pub create_question : Question → Result Question
create_question input = do assert_common_record input.common; ok input

unfoldable pub create_claim : Claim → Result Claim
create_claim input = do
  assert_common_record input.common
  assert_unique input.source_reference_ids
  ok input

unfoldable pub create_premise : Premise → Result Premise
create_premise input = do
  assert_common_record input.common
  assert_unique input.dependency_scope
  ok input

unfoldable pub create_option : DecisionOption → Result DecisionOption
create_option input = do assert_common_record input.common; ok input

unfoldable pub create_criterion : Criterion → Result Criterion
create_criterion input = do assert_common_record input.common; ok input

unfoldable pub create_constraint : Constraint → Result Constraint
create_constraint input = do
  assert_common_record input.common
  assert_unique input.source_reference_ids
  ok input

unfoldable pub create_risk : Risk → Result Risk
create_risk input = do
  assert_common_record input.common
  assert_probability input.probability
  assert_probability input.impact
  ok input

unfoldable pub create_evaluation : Evaluation → Result Evaluation
create_evaluation input = do assert_common_record input.common; ok input

unfoldable pub create_relation : Relation → Result Relation
create_relation input = do
  assert_common_record input.common
  throw_if (input.source_id == input.target_id) invalid_domain_value
  assert_unique input.source_reference_ids
  ok input
