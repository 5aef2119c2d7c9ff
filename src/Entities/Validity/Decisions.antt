-- ===== src/Entities/Validity/Decisions.antt =====
-- What the constructors of Decisions, Actions, revisions and tasks accept, said without their tests.
use counterpoint_living_deci.Base.{
  ==_iff, [], arith, nat_eq, none, ok, option_eq, string_eq, ◌<◌, ◌↔◌, ◌≡◌, ◌≢◌,
}
use counterpoint_living_deci.Base.Unique.{Distinct}
use counterpoint_living_deci.Entities.Common.{
  confirmation_eq, confirmed, origin_eq, shared, visibility_eq,
}
use counterpoint_living_deci.Entities.Decisions.{
  Action, Decision, DecisionRevision, ReconsiderationTask, action_status_eq, create_action,
  create_decision, create_decision_revision, create_reconsideration_task, held, status_eq,
  superseded, task_state_eq,
}
use counterpoint_living_deci.Entities.People.{capability_eq}
use counterpoint_living_deci.Entities.Validity.{
  IsScoped, assert_common_record_iff, assert_unique_iff,
}

pub record IsDecision (d : Decision) : Type 0 where
  pub scoped : IsScoped d.common
  pub premises : Distinct d.premise_ids
  pub evidence : Distinct d.evidence_ids
  pub dissent : Distinct d.dissent_ids
  pub actions : Distinct d.action_ids
  pub revised : d.active_revision ≡ d.revision
  pub replaced : d.status ≡ superseded → d.superseded_by_decision_id ≢ none

-- A Decision is accepted, unchanged, exactly when it has an id, an owner if it is private, no id
-- twice in a list, one revision number, and its replacement if it is superseded.
pub create_decision_iff :
    (d d' : Decision) → (create_decision d ≡ ok d') ↔ ((d' ≡ d) × IsDecision d)
unfolding create_decision
create_decision_iff d d' = ground (
  arith,
  assert_common_record_iff d.common,
  assert_unique_iff d.premise_ids,
  assert_unique_iff d.evidence_ids,
  assert_unique_iff d.dissent_ids,
  assert_unique_iff d.action_ids,
)

pub record IsAction (a : Action) : Type 0 where
  pub scoped : IsScoped a.common
  pub owned : a.owner ≢ ""
  pub scope : Distinct a.scope
  pub premises : Distinct a.affected_premise_ids
  pub explained : a.status ≡ held → a.hold_reason ≢ none

-- An Action is accepted, unchanged, exactly when it is a well-formed record with a named owner, no
-- scope or premise twice, and a reason if it is held.
pub create_action_iff : (a b : Action) → (create_action a ≡ ok b) ↔ ((b ≡ a) × IsAction a)
unfolding create_action
create_action_iff a b = ground (
  arith,
  assert_common_record_iff a.common,
  assert_unique_iff a.scope,
  assert_unique_iff a.affected_premise_ids,
  ==_iff a.owner "",
)

pub record IsRevision (r : DecisionRevision) : Type 0 where
  pub scoped : IsScoped r.common
  pub visible : r.visibility ≡ shared
  pub human_confirmed : r.confirmation_status ≡ confirmed
  pub numbered : r.revision ≡ r.version
  pub first : r.version ≡ 1 → r.previous_revision_id ≡ none
  pub later : 1 < r.version → r.previous_revision_id ≢ none
  pub premises : Distinct r.snapshot.premise_ids
  pub evidence : Distinct r.snapshot.evidence_ids
  pub dissent : Distinct r.snapshot.dissent_ids
  pub actions : Distinct r.snapshot.action_ids

-- A revision is accepted, unchanged, exactly when it is a well-formed shared record that is confirmed,
-- its version is its revision number, it names no previous revision if that is 1 and one if it is above
-- 1, and its snapshot has no id twice in a list.
pub create_decision_revision_iff :
    (r r' : DecisionRevision) → (create_decision_revision r ≡ ok r') ↔ ((r' ≡ r) × IsRevision r)
unfolding create_decision_revision
create_decision_revision_iff r r' = ground (
  arith,
  assert_common_record_iff r.common,
  assert_unique_iff r.snapshot.premise_ids,
  assert_unique_iff r.snapshot.evidence_ids,
  assert_unique_iff r.snapshot.dissent_ids,
  assert_unique_iff r.snapshot.action_ids,
)

pub record IsTask (t : ReconsiderationTask) : Type 0 where
  pub scoped : IsScoped t.common
  pub visible : t.visibility ≡ shared
  pub some_premise : t.affected_premise_ids ≢ []
  pub some_action : t.affected_action_ids ≢ []
  pub premises : Distinct t.affected_premise_ids
  pub actions : Distinct t.affected_action_ids

-- A task is accepted, unchanged, exactly when it is a well-formed shared record that names at least one
-- premise and one Action, and none of them twice.
pub create_reconsideration_task_iff :
    (t t' : ReconsiderationTask) → (create_reconsideration_task t ≡ ok t') ↔ ((t' ≡ t) × IsTask t)
unfolding create_reconsideration_task
create_reconsideration_task_iff t t' = ground (
  arith,
  assert_common_record_iff t.common,
  assert_unique_iff t.affected_premise_ids,
  assert_unique_iff t.affected_action_ids,
)
