-- ===== src/Entities/People.antt =====
-- Meetings and participants.
use counterpoint_living_deci.Base.{
  Bool, Eq, List, Option, Result, arith, eq_of_tag, false, find, invalid_domain_value, length, map,
  nat_eq, none, not, ok, option_eq, some, string_eq, throw_if, true, ℕ, ◌&&◌, ◌==◌, ◌>>◌, ◌||◌, ◌≡◌,
}
use counterpoint_living_deci.Base.Members.{contains}
use counterpoint_living_deci.Base.Unique.{is_unique}
use counterpoint_living_deci.Entities.Common.{
  CommonRecordFields, assert_common_record, assert_unique, confirmation_eq, origin_eq, shared,
  visibility_eq,
}
use counterpoint_living_deci.Values.Ids.{
  DisplayTokenId, NonEmptyText, ParticipantId, Timestamp, UserId,
}

pub data MeetingPhase : Type 0 where
  preparing deliberating deciding ended : MeetingPhase

pub data ParticipantRole : Type 0 where
  facilitator participant : ParticipantRole

abbrev pub is_facilitator : ParticipantRole → Bool
is_facilitator facilitator = true
is_facilitator participant = false

pub record ParticipantAssignment : Type 0 where
  pub participant_id : ParticipantId
  pub role : ParticipantRole
  pub active : Bool

pub record DisplayTokenState : Type 0 where
  pub token_id : DisplayTokenId
  pub expires_at : Timestamp
  pub revoked_at : Option Timestamp

pub record Meeting : Type 0 where
  pub common : CommonRecordFields
  pub open common use *
  pub purpose : NonEmptyText
  pub phase : MeetingPhase
  pub facilitator_participant_id : ParticipantId
  pub participant_assignments : List ParticipantAssignment
  pub display_tokens : List DisplayTokenState

pub data Capability : Type 0 where
  read_shared read_own_private add_own_private_artifact propose_own_disclosure : Capability
  commit_decision confirm_review_required inject_demo_event reset_demo_meeting : Capability
  configure_byok : Capability

abbrev pub capability_tag : Capability → ℕ
capability_tag read_shared = 0
capability_tag read_own_private = 1
capability_tag add_own_private_artifact = 2
capability_tag propose_own_disclosure = 3
capability_tag commit_decision = 4
capability_tag confirm_review_required = 5
capability_tag inject_demo_event = 6
capability_tag reset_demo_meeting = 7
capability_tag configure_byok = 8

pub capability_tag-injective : (a b : Capability) → capability_tag a ≡ capability_tag b → a ≡ b
capability_tag-injective a b h = ground arith

instance abbrev pub capability_eq : Eq Capability
capability_eq = eq_of_tag capability_tag capability_tag-injective

pub record Participant : Type 0 where
  pub common : CommonRecordFields
  pub open common use *
  pub user_id : UserId
  pub role : ParticipantRole
  pub permissions : List Capability
  pub active : Bool
  pub joined_at : Option Timestamp

-- `facilitator?.role !== "facilitator" || !facilitator.active`.
abbrev pub lacks_facilitator : Option ParticipantAssignment → Bool
lacks_facilitator none = true
lacks_facilitator (some a) = not (is_facilitator a.role) || not a.active

unfoldable pub create_meeting : Meeting → Result Meeting
create_meeting input = do
  assert_common_record input.common
  throw_if (not (input.visibility == shared) || not (input.id == input.meeting_id))
      invalid_domain_value
  throw_if (length input.participant_assignments == 0) invalid_domain_value
  assert_unique
      (map (λ (a : ParticipantAssignment). a.participant_id) input.participant_assignments)
  throw_if
      (lacks_facilitator (
        find (λ (a : ParticipantAssignment). a.participant_id == input.facilitator_participant_id)
          input.participant_assignments))
      invalid_domain_value
  ok input

unfoldable pub create_participant : Participant → Result Participant
create_participant input = do
  assert_common_record input.common
  throw_if (not (input.visibility == shared)) invalid_domain_value
  throw_if (not (is_unique input.permissions)) invalid_domain_value
  throw_if
      (is_facilitator input.role
        && (not (contains input.permissions commit_decision)
            || not (contains input.permissions confirm_review_required)))
      invalid_domain_value
  ok input
