-- ===== src/Application/Authorization/Policy.antt =====
-- Who may do what, said without the order of the checks.
use mathlib.Core.List.{Memᴰ}
use counterpoint_living_deci.Application.Authorization.{
  AccessCapability, AuthorizationRequest, DisplayAuthorizationContext, UserAuthorizationContext,
  UserInput, access_eq, artifact_create_own, authorize, authorized, byok_configure,
  capabilities_for_role, decision_commit, decision_review_confirm, demo_event_inject, demo_reset,
  disclosure_approve_own, disclosure_propose_own, display_context, is_judge, is_other_owner,
  judge_managed_ai, meeting_read, private_read_own, user_authorization_context, user_context,
}
use counterpoint_living_deci.Base.{
  ==_iff, Bool-cases, List, Option, String, arith, false, inl, inr, nat_eq, none, option_eq, some,
  string_eq, true, ◌↔◌, ◌≡◌,
}
use counterpoint_living_deci.Base.Members.{contains, contains_iff}
use counterpoint_living_deci.Entities.Common.{confirmation_eq, origin_eq, visibility_eq}
use counterpoint_living_deci.Entities.Decisions.{action_status_eq, status_eq, task_state_eq}
use counterpoint_living_deci.Entities.People.{ParticipantRole, capability_eq, facilitator}

-- The users whom the policy names as judges.
abbrev pub IsJudge : Option (List String) → String → Type 0
IsJudge none user = ⊥
IsJudge (some users) user = Memᴰ user users

-- What a user in a role may do, under a policy that names the judges.
pub data IsGranted (judges : Option (List String)) (user : String)
    : ParticipantRole → AccessCapability → Type 0 where
  everyone_reads : {r : ParticipantRole} → IsGranted judges user r meeting_read
  everyone_reads_own : {r : ParticipantRole} → IsGranted judges user r private_read_own
  everyone_creates : {r : ParticipantRole} → IsGranted judges user r artifact_create_own
  everyone_proposes : {r : ParticipantRole} → IsGranted judges user r disclosure_propose_own
  everyone_approves : {r : ParticipantRole} → IsGranted judges user r disclosure_approve_own
  facilitator_commits : IsGranted judges user facilitator decision_commit
  facilitator_confirms : IsGranted judges user facilitator decision_review_confirm
  facilitator_injects : IsGranted judges user facilitator demo_event_inject
  facilitator_resets : IsGranted judges user facilitator demo_reset
  facilitator_configures : IsGranted judges user facilitator byok_configure
  judge_uses_ai :
      {r : ParticipantRole} → IsJudge judges user → IsGranted judges user r judge_managed_ai

pub ruleset grants = (
  everyone_reads, everyone_reads_own, everyone_creates, everyone_proposes, everyone_approves,
  facilitator_commits, facilitator_confirms, facilitator_injects, facilitator_resets,
  facilitator_configures, judge_uses_ai,
)

is_judge_iff :
    (judges : Option (List String)) (user : String)
    → (is_judge judges user ≡ true) ↔ IsJudge judges user
is_judge_iff none user = ground arith
is_judge_iff (some users) user = contains_iff users user

module _ (judges : Option (List String)) (user : String) where
  IsGranted-capabilities :
      (r : ParticipantRole) (c : AccessCapability)
      → IsGranted judges user r c
      → contains (capabilities_for_role r (is_judge judges user)) c ≡ true
  unfolding capabilities_for_role contains
  IsGranted-capabilities r c everyone_reads = ground arith
  IsGranted-capabilities r c everyone_reads_own = ground arith
  IsGranted-capabilities r c everyone_creates = ground arith
  IsGranted-capabilities r c everyone_proposes = ground arith
  IsGranted-capabilities r c everyone_approves = ground arith
  IsGranted-capabilities r c facilitator_commits = ground arith
  IsGranted-capabilities r c facilitator_confirms = ground arith
  IsGranted-capabilities r c facilitator_injects = ground arith
  IsGranted-capabilities r c facilitator_resets = ground arith
  IsGranted-capabilities r c facilitator_configures = ground arith
  IsGranted-capabilities r c (judge_uses_ai named) =
      ground (arith, (is_judge_iff judges user).1 named)

  capabilities-IsGranted :
      (r : ParticipantRole) (c : AccessCapability)
      → contains (capabilities_for_role r (is_judge judges user)) c ≡ true
      → IsGranted judges user r c
  unfolding capabilities_for_role contains
  capabilities-IsGranted r c h = elim (Bool-cases (is_judge judges user)) [
    | inl e ↦ let named = (is_judge_iff judges user).0 e in grind (arith, grants)
    | inr e ↦ grind (arith, grants, e)
  ]

-- A request for a record of an owner is made by the owner.
abbrev pub IsOwner : Option String → String → Type 0
IsOwner none asking = Unit
IsOwner (some owner) asking = asking ≡ owner

own_records_iff :
    (c : UserAuthorizationContext) (o : Option String)
    → (is_other_owner (user_context c) o ≡ false) ↔ IsOwner o c.participant_id
own_records_iff c none = ground arith
own_records_iff c (some owner) = ground (arith, ==_iff c.participant_id owner)

-- A user is authorized exactly for what the role grants, or for the managed AI where the policy names
-- the user as a judge, in the user's meeting, and for no records but the user's own.
pub authorize_user_iff :
    (input : UserInput) (judges : Option (List String)) (request : AuthorizationRequest)
    → (authorize (user_context (user_authorization_context input judges)) request ≡ authorized) ↔ (
        (input.meeting_id ≡ request.meeting_id)
        × IsOwner request.owner_participant_id input.participant_id
        × IsGranted judges input.user_id input.role request.capability)
unfolding authorize user_authorization_context
authorize_user_iff input judges request =
    let c = user_authorization_context input judges in
    let k = request.capability in
    ground (
      arith,
      ==_iff input.meeting_id request.meeting_id,
      own_records_iff c request.owner_participant_id,
      IsGranted-capabilities judges input.user_id input.role k,
      capabilities-IsGranted judges input.user_id input.role k,
    )

-- A display is authorized exactly to read its meeting, if it has that capability, and for no records of
-- an owner.
pub authorize_display_iff :
    (display : DisplayAuthorizationContext) (request : AuthorizationRequest)
    → (authorize (display_context display) request ≡ authorized) ↔ (
        (display.meeting_id ≡ request.meeting_id)
        × (request.owner_participant_id ≡ none)
        × (display.reads_meeting ≡ true)
        × (request.capability ≡ meeting_read))
unfolding authorize
authorize_display_iff display request =
    ground
      (arith, ==_iff display.meeting_id request.meeting_id, ==_iff request.capability meeting_read)
