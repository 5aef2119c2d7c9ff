-- ===== src/StateMachine/Revisions.antt =====
-- `nextDecisionRevision`, `appendDecisionRevision` and the comparison of two revisions.
pub mod Same
pub mod History
use counterpoint_living_deci.Base.{
  Bool, List, Option, Result, String, [], decision_condition_required, err, false, filter, find,
  if◌then◌else◌, last, length, nat_eq, none, ok, option_eq, require, some, string_eq, true, ℕ, ◌&&◌,
  ◌++◌, ◌+◌, ◌==◌, ◌>>=◌, ◌>>◌, ◌∷◌,
}
use counterpoint_living_deci.Entities.Common.{
  confirmation_eq, confirmed, human_input, origin_eq, shared, visibility_eq,
}
use counterpoint_living_deci.Entities.Decisions.{
  Decision, DecisionRevision, DecisionSnapshot, action_status_eq, create_decision_revision,
  status_eq, task_state_eq,
}
use counterpoint_living_deci.Entities.People.{capability_eq}
use counterpoint_living_deci.Values.{of_ℕ, revision_number}
use counterpoint_living_deci.Values.Ids.{
  DecisionId, DecisionRevisionId, NonEmptyText, ParticipantId, Timestamp,
}

pub record NewDecisionRevisionInput : Type 0 where
  pub id : DecisionRevisionId
  pub change_reason : NonEmptyText
  pub created_at : Timestamp
  pub created_by : ParticipantId
  pub snapshot : DecisionSnapshot

abbrev pub new_revision : Decision → NewDecisionRevisionInput → ℕ → DecisionRevision
new_revision decision input n = record {
  common = record {
    id = input.id;
    meeting_id = decision.meeting_id;
    created_at = input.created_at;
    created_by = input.created_by;
    origin = human_input;
    confirmation_status = confirmed;
    revision = n;
    visibility = shared;
    owner_participant_id = none;
  };
  decision_id = decision.id;
  version = n;
  previous_revision_id = some decision.active_revision_id;
  snapshot = input.snapshot;
  change_reason = input.change_reason;
}

unfoldable pub next_decision_revision :
    Decision → NewDecisionRevisionInput → Result DecisionRevision
next_decision_revision decision input = do
  n ← revision_number (of_ℕ (decision.active_revision + 1))
  create_decision_revision (new_revision decision input n)

-- `left.every((value, index) => value === right[index])`.
unfoldable pub every_at : List String → List String → Bool
every_at [] right = true
every_at (x ∷ left) [] = false
every_at (x ∷ left) (y ∷ right) = x == y && every_at left right

unfoldable pub same_values : List String → List String → Bool
unfolding every_at
same_values left right = length left == length right && every_at left right

unfoldable pub same_snapshot : DecisionSnapshot → DecisionSnapshot → Bool
same_snapshot left right =
    left.title == right.title
    && left.outcome == right.outcome
    && left.status == right.status
    && same_values left.premise_ids right.premise_ids
    && same_values left.evidence_ids right.evidence_ids
    && same_values left.dissent_ids right.dissent_ids
    && same_values left.action_ids right.action_ids
    && left.monitor_condition.description == right.monitor_condition.description
    && left.monitor_condition.registration_id == right.monitor_condition.registration_id

-- The conjuncts of the source, in three groups: what the revision is, its snapshot, its origin.
unfoldable pub same_place : DecisionRevision → DecisionRevision → Bool
same_place left right =
    left.id == right.id
    && left.meeting_id == right.meeting_id
    && left.decision_id == right.decision_id
    && left.version == right.version
    && left.previous_revision_id == right.previous_revision_id

unfoldable pub same_origin : DecisionRevision → DecisionRevision → Bool
same_origin left right =
    left.change_reason == right.change_reason
    && left.created_at == right.created_at
    && left.created_by == right.created_by
    && left.origin == right.origin
    && left.confirmation_status == right.confirmation_status
    && left.revision == right.revision

unfoldable pub same_decision_revision : DecisionRevision → DecisionRevision → Bool
same_decision_revision left right =
    same_place left right && same_snapshot left.snapshot right.snapshot && same_origin left right

-- The revisions of one Decision, in order.
unfoldable pub revisions_of : DecisionId → List DecisionRevision → List DecisionRevision
revisions_of id history = filter (λ (r : DecisionRevision). r.decision_id == id) history

-- `latest?.version ?? 0` and `latest?.id`.
abbrev pub version_or_zero : Option DecisionRevision → ℕ
version_or_zero none = 0
version_or_zero (some r) = r.version

abbrev pub id_or_none : Option DecisionRevision → Option DecisionRevisionId
id_or_none none = none
id_or_none (some r) = some r.id

-- The code behind the search for an existing revision.
unfoldable pub append_new :
    List DecisionRevision → DecisionRevision → Result (List DecisionRevision)
unfolding revisions_of
append_new history revision =
    let latest = last (revisions_of revision.decision_id history) in
    do
      expected ← revision_number (of_ℕ (version_or_zero latest + 1))
      require (revision.version == expected && revision.previous_revision_id == id_or_none latest)
          decision_condition_required
      r ← create_decision_revision revision
      ok (history ++ r ∷ [])

abbrev pub append_unless :
    Option DecisionRevision
    → List DecisionRevision
    → DecisionRevision
    → Result (List DecisionRevision)
append_unless none history revision = append_new history revision
append_unless (some existing) history revision =
    if same_decision_revision existing revision then ok history else err decision_condition_required

unfoldable pub append_decision_revision :
    List DecisionRevision → DecisionRevision → Result (List DecisionRevision)
append_decision_revision history revision =
    append_unless (find (λ (r : DecisionRevision). r.id == revision.id) history) history revision
