-- ===== src/Entities/Decisions.antt =====
-- Decisions and their revisions, dissent, Actions, interventions, external events and tasks.
use counterpoint_living_deci.Base.{
  Bool, Eq, List, Option, Result, arith, eq_of_tag, invalid_domain_value, is_none, is_some, length,
  ltb, nat_eq, not, ok, option_eq, string_eq, throw_if, ℕ, ◌&&◌, ◌==◌, ◌>>◌, ◌||◌, ◌≡◌,
}
use counterpoint_living_deci.Entities.Claims.{MonitorCondition}
use counterpoint_living_deci.Entities.Common.{
  CommonRecordFields, assert_common_record, assert_unique, confirmation_eq, confirmed, origin_eq,
  shared, visibility_eq,
}
use counterpoint_living_deci.Entities.People.{capability_eq}
use counterpoint_living_deci.Values.Ids.{
  ActionId, ContentHash, DecisionId, DecisionRevisionId, DissentId, EvidenceId, ExternalEventId,
  MonitorRegistrationId, NonEmptyText, ParticipantId, PremiseId, RevisionNumber, Timestamp,
}

pub data DecisionStatus : Type 0 where
  draft decision_ready committed monitoring at_risk review_required superseded : DecisionStatus
  decision_rejected : DecisionStatus

abbrev pub status_tag : DecisionStatus → ℕ
status_tag draft = 0
status_tag decision_ready = 1
status_tag committed = 2
status_tag monitoring = 3
status_tag at_risk = 4
status_tag review_required = 5
status_tag superseded = 6
status_tag decision_rejected = 7

pub status_tag-injective : (a b : DecisionStatus) → status_tag a ≡ status_tag b → a ≡ b
status_tag-injective a b h = ground arith

instance abbrev pub status_eq : Eq DecisionStatus
status_eq = eq_of_tag status_tag status_tag-injective

pub record DecisionReadiness : Type 0 where
  pub outcome : Bool
  pub premise_ids : Bool
  pub evidence_ids : Bool
  pub action_ids : Bool
  pub monitor_condition : Bool

pub record Decision : Type 0 where
  pub common : CommonRecordFields
  pub open common use *
  pub title : NonEmptyText
  pub outcome : NonEmptyText
  pub status : DecisionStatus
  pub active_revision : RevisionNumber
  pub active_revision_id : DecisionRevisionId
  pub premise_ids : List PremiseId
  pub evidence_ids : List EvidenceId
  pub dissent_ids : List DissentId
  pub action_ids : List ActionId
  pub monitor_condition : MonitorCondition
  pub superseded_by_decision_id : Option DecisionId

pub record Dissent : Type 0 where
  pub common : CommonRecordFields
  pub open common use *
  pub participant_id : ParticipantId
  pub reason : NonEmptyText
  pub retained : Bool

pub data ActionStatus : Type 0 where
  planned active held completed : ActionStatus

abbrev pub action_status_tag : ActionStatus → ℕ
action_status_tag planned = 0
action_status_tag active = 1
action_status_tag held = 2
action_status_tag completed = 3

pub action_status_tag-injective :
    (a b : ActionStatus) → action_status_tag a ≡ action_status_tag b → a ≡ b
action_status_tag-injective a b h = ground arith

instance abbrev pub action_status_eq : Eq ActionStatus
action_status_eq = eq_of_tag action_status_tag action_status_tag-injective

pub record Action : Type 0 where
  pub common : CommonRecordFields
  pub open common use *
  pub owner : ParticipantId
  pub scope : List NonEmptyText
  pub status : ActionStatus
  pub affected_premise_ids : List PremiseId
  pub hold_reason : Option NonEmptyText

pub data Disposition : Type 0 where
  pending accepted declined : Disposition

pub record Intervention : Type 0 where
  pub common : CommonRecordFields
  pub open common use *
  pub suggestion : NonEmptyText
  pub audience_participant_ids : List ParticipantId
  pub disposition : Disposition

pub data SignatureResult : Type 0 where
  valid signature_not_applicable : SignatureResult

pub record ExternalEvent : Type 0 where
  pub common : CommonRecordFields
  pub open common use *
  pub description : NonEmptyText
  pub event_type : NonEmptyText
  pub monitor_registration_id : MonitorRegistrationId
  pub payload_hash : ContentHash
  pub schema_version : RevisionNumber
  pub source : NonEmptyText
  pub source_reference : NonEmptyText
  pub jurisdiction : NonEmptyText
  pub effective_at : Timestamp
  pub received_at : Timestamp
  pub signature_result : SignatureResult

pub record DecisionSnapshot : Type 0 where
  pub title : NonEmptyText
  pub outcome : NonEmptyText
  pub status : DecisionStatus
  pub premise_ids : List PremiseId
  pub evidence_ids : List EvidenceId
  pub dissent_ids : List DissentId
  pub action_ids : List ActionId
  pub monitor_condition : MonitorCondition

pub record DecisionRevision : Type 0 where
  pub common : CommonRecordFields
  pub open common use *
  pub decision_id : DecisionId
  pub version : RevisionNumber
  pub previous_revision_id : Option DecisionRevisionId
  pub snapshot : DecisionSnapshot
  pub change_reason : NonEmptyText

pub data TaskState : Type 0 where
  task_open in_progress task_completed cancelled : TaskState

abbrev pub task_state_tag : TaskState → ℕ
task_state_tag task_open = 0
task_state_tag in_progress = 1
task_state_tag task_completed = 2
task_state_tag cancelled = 3

pub task_state_tag-injective : (a b : TaskState) → task_state_tag a ≡ task_state_tag b → a ≡ b
task_state_tag-injective a b h = ground arith

instance abbrev pub task_state_eq : Eq TaskState
task_state_eq = eq_of_tag task_state_tag task_state_tag-injective

pub record ReconsiderationTask : Type 0 where
  pub common : CommonRecordFields
  pub open common use *
  pub decision_id : DecisionId
  pub trigger_external_event_id : ExternalEventId
  pub owner : ParticipantId
  pub affected_premise_ids : List PremiseId
  pub affected_action_ids : List ActionId
  pub state : TaskState

unfoldable pub create_decision : Decision → Result Decision
create_decision input = do
  assert_common_record input.common
  assert_unique input.premise_ids
  assert_unique input.evidence_ids
  assert_unique input.dissent_ids
  assert_unique input.action_ids
  throw_if (not (input.active_revision == input.revision)) invalid_domain_value
  throw_if (input.status == superseded && is_none input.superseded_by_decision_id)
      invalid_domain_value
  ok input

unfoldable pub create_dissent : Dissent → Result Dissent
create_dissent input = do assert_common_record input.common; ok input

unfoldable pub create_action : Action → Result Action
create_action input = do
  assert_common_record input.common
  throw_if (input.owner == "") invalid_domain_value
  assert_unique input.scope
  assert_unique input.affected_premise_ids
  throw_if (input.status == held && is_none input.hold_reason) invalid_domain_value
  ok input

unfoldable pub create_intervention : Intervention → Result Intervention
create_intervention input = do
  assert_common_record input.common
  assert_unique input.audience_participant_ids
  ok input

-- Both values of `signatureResult` pass the source's test of it.
unfoldable pub create_external_event : ExternalEvent → Result ExternalEvent
create_external_event input = do
  assert_common_record input.common
  throw_if (not (input.visibility == shared)) invalid_domain_value
  ok input

-- `revisionNumber(1)` is 1.
unfoldable pub create_decision_revision : DecisionRevision → Result DecisionRevision
create_decision_revision input = do
  assert_common_record input.common
  throw_if
      (not (input.visibility == shared)
        || not (input.confirmation_status == confirmed)
        || not (input.revision == input.version))
      invalid_domain_value
  throw_if (input.version == 1 && is_some input.previous_revision_id) invalid_domain_value
  throw_if (ltb 1 input.version && is_none input.previous_revision_id) invalid_domain_value
  assert_unique input.snapshot.premise_ids
  assert_unique input.snapshot.evidence_ids
  assert_unique input.snapshot.dissent_ids
  assert_unique input.snapshot.action_ids
  ok input

unfoldable pub create_reconsideration_task : ReconsiderationTask → Result ReconsiderationTask
create_reconsideration_task input = do
  assert_common_record input.common
  throw_if (not (input.visibility == shared)) invalid_domain_value
  throw_if (length input.affected_premise_ids == 0 || length input.affected_action_ids == 0)
      invalid_domain_value
  assert_unique input.affected_premise_ids
  assert_unique input.affected_action_ids
  ok input
