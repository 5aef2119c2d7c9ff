-- ===== src/Entities/Sources.antt =====
-- Source artifacts, utterances and the evidence that is published from them.
use counterpoint_living_deci.Base.{
  Option, Result, invalid_domain_value, nat_eq, none, not, ok, option_eq, some, string_eq, throw_if,
  ◌&&◌, ◌==◌, ◌>>◌, ◌||◌,
}
use counterpoint_living_deci.Entities.Common.{
  CommonRecordFields, Visibility, assert_common_record, assert_size, confirmation_eq, confirmed,
  origin_eq, private, shared, source_artifact, visibility_eq,
}
use counterpoint_living_deci.Entities.People.{capability_eq}
use counterpoint_living_deci.Values.{Number, TextRange}
use counterpoint_living_deci.Values.Ids.{
  ArtifactId, AuditReferenceId, ContentHash, IdempotencyKey, NonEmptyText, ParticipantId, Timestamp,
}

pub data ArtifactType : Type 0 where
  document url text : ArtifactType

pub data ArtifactProcessingState : Type 0 where
  registered processing processed failed : ArtifactProcessingState

pub record SourceArtifact : Type 0 where
  pub common : CommonRecordFields
  pub open common use *
  pub artifact_type : ArtifactType
  pub storage_reference : NonEmptyText
  pub content_hash : ContentHash
  pub content_type : Option NonEmptyText
  pub derived_artifact_id : Option ArtifactId
  pub derived_content_hash : Option ContentHash
  pub derived_size_bytes : Option Number
  pub derived_storage_reference : Option NonEmptyText
  pub original_filename : Option NonEmptyText
  pub source_locator_hash : Option ContentHash
  pub size_bytes : Number
  pub processing_state : ArtifactProcessingState

-- `UtteranceChannel` has the two values of `Visibility`.
pub record Utterance : Type 0 where
  pub common : CommonRecordFields
  pub open common use *
  pub participant_id : ParticipantId
  pub channel : Visibility
  pub text : NonEmptyText
  pub captured_at : Timestamp
  pub idempotency_key : IdempotencyKey

pub record Evidence : Type 0 where
  pub common : CommonRecordFields
  pub open common use *
  pub exact_snippet : NonEmptyText
  pub source_artifact_id : ArtifactId
  pub source_range : TextRange
  pub disclosure_audit_reference_id : AuditReferenceId

abbrev pub assert_optional_size : Option Number → Result (Unit {0})
assert_optional_size none = ok tt
assert_optional_size (some size) = assert_size size

unfoldable pub create_source_artifact : SourceArtifact → Result SourceArtifact
create_source_artifact input = do
  assert_common_record input.common
  assert_size input.size_bytes
  assert_optional_size input.derived_size_bytes
  ok input

unfoldable pub create_utterance : Utterance → Result Utterance
create_utterance input = do
  assert_common_record input.common
  throw_if (not (input.channel == input.visibility)) invalid_domain_value
  throw_if
      (input.visibility == private && not (some input.participant_id == input.owner_participant_id))
      invalid_domain_value
  ok input

unfoldable pub create_evidence : Evidence → Result Evidence
create_evidence input = do
  assert_common_record input.common
  throw_if (not (input.visibility == shared) || not (input.confirmation_status == confirmed))
      invalid_domain_value
  throw_if (not (input.origin == source_artifact)) invalid_domain_value
  ok input
