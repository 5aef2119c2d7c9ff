-- ===== src/Tests/Entities.antt =====
-- Records and values that the constructors accept or refuse, and the theorems applied to them.
use counterpoint_living_deci.Application.Authorization.{access_eq}
use counterpoint_living_deci.Base.{
  String, [], err, find, invalid_domain_value, nat_eq, none, ok, option_eq, refl, some, string_eq,
  true, ◌<◌, ◌↔◌, ◌∷◌, ◌≡◌, ◌≤◌,
}
use counterpoint_living_deci.Base.Members.{contains}
use counterpoint_living_deci.Base.Unique.{is_unique, set_of}
use counterpoint_living_deci.Entities.Common.{
  assert_common_record, assert_record_scope, assert_unique, confirmation_eq, origin_eq, private,
  source_artifact, visibility_eq,
}
use counterpoint_living_deci.Entities.Decisions.{
  action_status_eq, create_decision, create_decision_revision, status_eq, task_state_eq,
}
use counterpoint_living_deci.Entities.People.{
  Meeting, Participant, capability_eq, commit_decision, confirm_review_required, create_meeting,
  create_participant, facilitator, participant, preparing,
}
use counterpoint_living_deci.Entities.Sources.{
  Evidence, Utterance, create_evidence, create_utterance,
}
use counterpoint_living_deci.Entities.Validity.Decisions.{
  IsDecision, IsRevision, create_decision_iff, create_decision_revision_iff,
}
use counterpoint_living_deci.Store.Projections.{key_eq, kind_eq}
use counterpoint_living_deci.Tests.Data.{common_of, day, draft_decision, second_revision}
use counterpoint_living_deci.Values.{
  cons_end, is_below, is_safe_integer, is_space, max_safe_integer, opaque_integer, opaque_text,
  ratio, text_range, to_ℕ, trim, trim_end, trim_start,
}
use counterpoint_living_deci.Values.Numbers.{Is, text_range_iff}

abbrev meeting : Meeting
meeting = record {
  common = common_of "m" "ann" 1;
  purpose = "Where to work";
  phase = preparing;
  facilitator_participant_id = "ann";
  participant_assignments =
      record { participant_id = "ann"; role = facilitator; active = true }
      ∷ record { participant_id = "bob"; role = participant; active = true }
      ∷ [];
  display_tokens = [];
}

abbrev ann : Participant
ann = record {
  common = common_of "ann" "ann" 1;
  user_id = "u";
  role = facilitator;
  permissions = commit_decision ∷ confirm_review_required ∷ [];
  active = true;
  joined_at = none;
}

abbrev spoken : Utterance
spoken = record {
  common = record (common_of "s" "bob" 1) {
    visibility = private;
    owner_participant_id = some "bob";
  };
  participant_id = "bob";
  channel = private;
  text = "I doubt it";
  captured_at = day;
  idempotency_key = "k";
}

abbrev snippet : Evidence
snippet = record {
  common = record (common_of "v" "bob" 1) { origin = source_artifact };
  exact_snippet = "rent doubles";
  source_artifact_id = "n";
  source_range = record { start = 3; end = 15 };
  disclosure_audit_reference_id = "x";
}

code : Unit {0}
unfolding create_meeting create_participant create_utterance create_evidence assert_common_record
    assert_record_scope assert_unique is_unique set_of contains find text_range is_safe_integer
    is_below to_ℕ opaque_text trim trim_start trim_end cons_end is_space opaque_integer
code = tt

entity_tests :
    (create_meeting meeting ≡ ok meeting)
    × (create_meeting (record meeting { facilitator_participant_id = "bob" })
        ≡ err invalid_domain_value)
    × (create_participant ann ≡ ok ann)
    × (create_participant (record ann { permissions = [] }) ≡ err invalid_domain_value)
    × (create_utterance spoken ≡ ok spoken)
    × (create_utterance (record spoken { participant_id = "ann" }) ≡ err invalid_domain_value)
    × (create_evidence snippet ≡ ok snippet)
unfolding code
entity_tests = (refl, refl, refl, refl, refl, refl, refl)

value_tests :
    (opaque_text "  a b " ≡ ok "a b")
    × (opaque_text "   " ≡ err invalid_domain_value)
    × (text_range (ratio 3 0) (ratio 15 0) ≡ ok (record { start = 3; end = 15 }))
    × (text_range (ratio 3 0) (ratio 3 0) ≡ err invalid_domain_value)
    × (opaque_integer (ratio 3 1) 0 ≡ err invalid_domain_value)
unfolding code
value_tests = (refl, refl, refl, refl, refl)

abbrev phrase : String
phrase = "a b"

text_range_iff_example :
    (text_range (ratio 3 0) (ratio 15 0) ≡ ok snippet.source_range)
    ↔ (Is (ratio 3 0) 3 × Is (ratio 15 0) 15 × (3 < 15) × (15 ≤ max_safe_integer))
text_range_iff_example = text_range_iff (ratio 3 0) (ratio 15 0) snippet.source_range

create_decision_iff_example :
    (create_decision draft_decision ≡ ok draft_decision)
    ↔ ((draft_decision ≡ draft_decision) × IsDecision draft_decision)
create_decision_iff_example = create_decision_iff draft_decision draft_decision

create_decision_revision_iff_example :
    (create_decision_revision second_revision ≡ ok second_revision)
    ↔ ((second_revision ≡ second_revision) × IsRevision second_revision)
create_decision_revision_iff_example = create_decision_revision_iff second_revision second_revision
