-- ===== src/Events/Suggestions.antt =====
-- What an AI suggests and what a person makes of it.
use counterpoint_living_deci.Base.{Bool, List, Option}
use counterpoint_living_deci.Entities.Claims.{
  DecisionOption, MonitorCondition, Premise, Proposition, Stance,
}
use counterpoint_living_deci.Entities.Decisions.{Action, Dissent}
use counterpoint_living_deci.Values.{Number, TextRange}
use counterpoint_living_deci.Values.Ids.{
  ArtifactId, NonEmptyText, ParticipantId, PromptVersion, SourceReferenceId, SuggestionId,
  Timestamp,
}

pub record AiSuggestionMetadata : Type 0 where
  pub model : NonEmptyText
  pub prompt_version : PromptVersion
  pub input_reference_ids : List SourceReferenceId
  pub confidence : Number
  pub reason : NonEmptyText

pub record PremiseInferenceSuggestionDetails : Type 0 where
  pub evidence_reference_ids : List SourceReferenceId
  pub dependency_scope : List NonEmptyText
  pub monitor_condition : Option MonitorCondition

pub record DissentInferenceSuggestionDetails : Type 0 where
  pub participant_id : ParticipantId
  pub retained : Bool

pub record ActionInferenceSuggestionDetails : Type 0 where
  pub owner_participant_id : ParticipantId
  pub scope : List NonEmptyText
  pub affected_premise_suggestion_ids : List SuggestionId

pub data SuggestionProvenance : Type 0 where
  ai_assisted :
      (operation output_schema_version : NonEmptyText) (generated_at : Timestamp)
      → SuggestionProvenance
  human_authored : SuggestionProvenance

pub record DecisionInferenceSuggestionDetails : Type 0 where
  pub title : NonEmptyText
  pub outcome : NonEmptyText
  pub monitor_condition : MonitorCondition
  pub premise_suggestion_ids : List SuggestionId
  pub dissent_suggestion_ids : List SuggestionId
  pub action_suggestion_ids : List SuggestionId
  pub provenance : Option SuggestionProvenance

-- `candidateKind` with its `details`.
pub data Candidate : Type 0 where
  proposition_candidate : Candidate
  premise_candidate : Option PremiseInferenceSuggestionDetails → Candidate
  dissent_candidate : Option DissentInferenceSuggestionDetails → Candidate
  action_candidate : Option ActionInferenceSuggestionDetails → Candidate
  decision_candidate : Option DecisionInferenceSuggestionDetails → Candidate

pub record InferenceSuggestedPayload : Type 0 where
  pub suggestion_id : SuggestionId
  pub statement : NonEmptyText
  pub metadata : AiSuggestionMetadata
  pub candidate : Candidate

pub data ConfirmedInference : Type 0 where
  proposition : Proposition → ConfirmedInference
  stance : Stance → ConfirmedInference
  premise : Premise → ConfirmedInference
  option : DecisionOption → ConfirmedInference
  dissent : Dissent → ConfirmedInference
  action : Action → ConfirmedInference

pub record InferenceConfirmedPayload : Type 0 where
  pub suggestion_id : SuggestionId
  pub result : ConfirmedInference
  pub confirmed_by : ParticipantId

pub record InferenceRejectedPayload : Type 0 where
  pub suggestion_id : SuggestionId
  pub rejected_by : ParticipantId
  pub reason : Option NonEmptyText

pub record DisclosureOutgoingPayload : Type 0 where
  pub exact_snippet : NonEmptyText
  pub source_artifact_id : ArtifactId
  pub source_range : TextRange
