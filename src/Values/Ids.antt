-- ===== src/Values/Ids.antt =====
-- The branded types of packages/domain/src/values.ts. A brand has no value at run time: an id, a
-- hash, a text and a canonical UTC timestamp are texts, and a checked integer is a number.
use Prim.Native.Nat.{ℕ}
use Prim.Native.String.{String}

abbrev pub ActionId : Type 0
ActionId = String

abbrev pub ArtifactId : Type 0
ArtifactId = String

abbrev pub AuditReferenceId : Type 0
AuditReferenceId = String

abbrev pub CausationId : Type 0
CausationId = String

abbrev pub ClaimId : Type 0
ClaimId = String

abbrev pub ConstraintId : Type 0
ConstraintId = String

abbrev pub CorrelationId : Type 0
CorrelationId = String

abbrev pub CriterionId : Type 0
CriterionId = String

abbrev pub DecisionId : Type 0
DecisionId = String

abbrev pub DecisionRevisionId : Type 0
DecisionRevisionId = String

abbrev pub DisclosureId : Type 0
DisclosureId = String

abbrev pub DisplayTokenId : Type 0
DisplayTokenId = String

abbrev pub DissentId : Type 0
DissentId = String

abbrev pub EvaluationId : Type 0
EvaluationId = String

abbrev pub EventId : Type 0
EventId = String

abbrev pub EvidenceId : Type 0
EvidenceId = String

abbrev pub ExternalEventId : Type 0
ExternalEventId = String

abbrev pub IdempotencyKey : Type 0
IdempotencyKey = String

abbrev pub InterventionId : Type 0
InterventionId = String

abbrev pub MeetingId : Type 0
MeetingId = String

abbrev pub MonitorRegistrationId : Type 0
MonitorRegistrationId = String

abbrev pub OptionId : Type 0
OptionId = String

abbrev pub ParticipantId : Type 0
ParticipantId = String

abbrev pub PremiseId : Type 0
PremiseId = String

abbrev pub PropositionId : Type 0
PropositionId = String

abbrev pub QuestionId : Type 0
QuestionId = String

abbrev pub ReconsiderationTaskId : Type 0
ReconsiderationTaskId = String

abbrev pub RelationId : Type 0
RelationId = String

abbrev pub ResetRequestId : Type 0
ResetRequestId = String

abbrev pub RiskId : Type 0
RiskId = String

abbrev pub SourceReferenceId : Type 0
SourceReferenceId = String

abbrev pub StanceId : Type 0
StanceId = String

abbrev pub SuggestionId : Type 0
SuggestionId = String

abbrev pub Timestamp : Type 0
Timestamp = String

abbrev pub UserId : Type 0
UserId = String

abbrev pub UtteranceId : Type 0
UtteranceId = String

abbrev pub ContentHash : Type 0
ContentHash = String

abbrev pub NonEmptyText : Type 0
NonEmptyText = String

abbrev pub PreviewHash : Type 0
PreviewHash = String

abbrev pub PromptVersion : Type 0
PromptVersion = String

abbrev pub MeetingPosition : Type 0
MeetingPosition = ℕ

abbrev pub RevisionNumber : Type 0
RevisionNumber = ℕ

abbrev pub SchemaVersion : Type 0
SchemaVersion = ℕ
