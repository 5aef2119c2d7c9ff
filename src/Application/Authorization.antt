-- ===== src/Application/Authorization.antt =====
-- authorization.ts, and from sessions.ts the capabilities of roles and the contexts of users.
pub mod Policy
use counterpoint_living_deci.Base.{
  Bool, Eq, List, Option, String, [], arith, eq_of_tag, false, if◌then◌else◌, nat_eq, none, not,
  option_eq, some, string_eq, true, ℕ, ◌&&◌, ◌++◌, ◌==◌, ◌∷◌, ◌≡◌,
}
use counterpoint_living_deci.Base.Members.{contains}
use counterpoint_living_deci.Entities.Common.{confirmation_eq, origin_eq, visibility_eq}
use counterpoint_living_deci.Entities.Decisions.{action_status_eq, status_eq, task_state_eq}
use counterpoint_living_deci.Entities.People.{ParticipantRole, capability_eq, is_facilitator}

-- `Capability` of authorization.ts, which is not that of the domain.
pub data AccessCapability : Type 0 where
  meeting_read private_read_own artifact_create_own disclosure_propose_own : AccessCapability
  disclosure_approve_own decision_commit decision_review_confirm : AccessCapability
  demo_event_inject demo_reset byok_configure judge_managed_ai : AccessCapability

abbrev pub access_tag : AccessCapability → ℕ
access_tag meeting_read = 0
access_tag private_read_own = 1
access_tag artifact_create_own = 2
access_tag disclosure_propose_own = 3
access_tag disclosure_approve_own = 4
access_tag decision_commit = 5
access_tag decision_review_confirm = 6
access_tag demo_event_inject = 7
access_tag demo_reset = 8
access_tag byok_configure = 9
access_tag judge_managed_ai = 10

pub access_tag-injective : (a b : AccessCapability) → access_tag a ≡ access_tag b → a ≡ b
access_tag-injective a b h = ground arith

instance abbrev pub access_eq : Eq AccessCapability
access_eq = eq_of_tag access_tag access_tag-injective

-- A set of capabilities is only asked what it has, as its list can be.
pub record UserAuthorizationContext : Type 0 where
  pub capabilities : List AccessCapability
  pub meeting_id : String
  pub participant_id : String
  pub role : ParticipantRole
  pub session_id : String
  pub user_id : String

-- The set of a display has at most the one capability of its type, "meeting:read".
pub record DisplayAuthorizationContext : Type 0 where
  pub reads_meeting : Bool
  pub display_token_id : String
  pub meeting_id : String

pub data AuthorizationContext : Type 0 where
  user_context : UserAuthorizationContext → AuthorizationContext
  display_context : DisplayAuthorizationContext → AuthorizationContext

-- The failures, and the result of a request that passes.
pub data Authorization : Type 0 where
  authorized forbidden out_of_meeting out_of_owner : Authorization

pub record AuthorizationRequest : Type 0 where
  pub capability : AccessCapability
  pub meeting_id : String
  pub owner_participant_id : Option String

abbrev pub meeting_of : AuthorizationContext → String
meeting_of (user_context c) = c.meeting_id
meeting_of (display_context c) = c.meeting_id

-- `ownerParticipantId !== undefined && (kind !== "user" || participantId !== ownerParticipantId)`.
abbrev pub is_other_owner : AuthorizationContext → Option String → Bool
is_other_owner context none = false
is_other_owner (display_context c) (some owner) = true
is_other_owner (user_context c) (some owner) = not (c.participant_id == owner)

abbrev pub has_capability : AuthorizationContext → AccessCapability → Bool
has_capability (user_context c) capability = contains c.capabilities capability
has_capability (display_context c) capability = c.reads_meeting && capability == meeting_read

unfoldable pub authorize : AuthorizationContext → AuthorizationRequest → Authorization
authorize context request =
    if not (meeting_of context == request.meeting_id)
    then out_of_meeting
    else if is_other_owner context request.owner_participant_id
    then out_of_owner
    else if not (has_capability context request.capability)
    then forbidden
    else authorized

abbrev pub shared_capabilities : List AccessCapability
shared_capabilities =
    meeting_read ∷ private_read_own ∷ artifact_create_own ∷ disclosure_propose_own
    ∷ disclosure_approve_own ∷ []

abbrev pub facilitator_capabilities : List AccessCapability
facilitator_capabilities =
    decision_commit ∷ decision_review_confirm ∷ demo_event_inject ∷ demo_reset ∷ byok_configure ∷ []

-- `judgeManagedAi === true` is the second argument.
unfoldable pub capabilities_for_role : ParticipantRole → Bool → List AccessCapability
capabilities_for_role role judge =
    (if is_facilitator role
      then shared_capabilities ++ facilitator_capabilities
      else shared_capabilities)
    ++ (if judge then judge_managed_ai ∷ [] else [])

pub record UserInput : Type 0 where
  pub meeting_id : String
  pub participant_id : String
  pub role : ParticipantRole
  pub session_id : String
  pub user_id : String

-- `policy.judgeManagedAiUserIds?.has(userId) === true`.
abbrev pub is_judge : Option (List String) → String → Bool
is_judge none user = false
is_judge (some users) user = contains users user

unfoldable pub user_authorization_context :
    UserInput → Option (List String) → UserAuthorizationContext
unfolding capabilities_for_role
user_authorization_context input judges = record {
  capabilities = capabilities_for_role input.role (is_judge judges input.user_id);
  meeting_id = input.meeting_id;
  participant_id = input.participant_id;
  role = input.role;
  session_id = input.session_id;
  user_id = input.user_id;
}
