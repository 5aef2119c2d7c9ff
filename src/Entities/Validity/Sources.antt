-- ===== src/Entities/Validity/Sources.antt =====
-- What the constructors of artifacts, utterances and evidence accept, said without their tests.
use counterpoint_living_deci.Base.{
  ==_iff, >>-eq-ok_iff, Option, ap, arith, nat_eq, none, ok, option_eq, some, string_eq, sym, ◌>>◌,
  ◌↔◌, ◌≡◌,
}
use counterpoint_living_deci.Entities.Common.{
  CommonRecordFields, assert_common_record, assert_size, confirmation_eq, confirmed, origin_eq,
  private, shared, source_artifact, visibility_eq,
}
use counterpoint_living_deci.Entities.Decisions.{action_status_eq, status_eq, task_state_eq}
use counterpoint_living_deci.Entities.People.{capability_eq}
use counterpoint_living_deci.Entities.Sources.{
  Evidence, SourceArtifact, Utterance, assert_optional_size, create_evidence,
  create_source_artifact, create_utterance,
}
use counterpoint_living_deci.Entities.Validity.{
  IsOptional, IsScoped, IsSize, assert_common_record_iff, assert_size_iff,
}
use counterpoint_living_deci.Values.{Number}

pub record IsArtifact (a : SourceArtifact) : Type 0 where
  pub scoped : IsScoped a.common
  pub sized : IsSize a.size_bytes
  pub derived : IsOptional IsSize a.derived_size_bytes

-- The checks of an artifact, on its parts.
artifact_checks_iff :
    (c : CommonRecordFields) (v : Number) (o : Option Number) (a b : SourceArtifact)
    → ((do assert_common_record c; assert_size v; assert_optional_size o; ok a) ≡ ok b)
      ↔ ((b ≡ a) × IsScoped c × IsSize v × IsOptional IsSize o)
artifact_checks_iff c v none a b = grind (arith, assert_common_record_iff c, assert_size_iff v)
artifact_checks_iff c v (some w) a b =
    let f =
      >>-eq-ok_iff (assert_common_record c) (do assert_size v; assert_size w; ok a) {out = b} in
    let g = >>-eq-ok_iff (assert_size v) (do assert_size w; ok a) {out = b} in
    let k = >>-eq-ok_iff (assert_size w) (ok a) {out = b} in
    (
      (λ h.
          let x = f.0 h in
          let y = g.0 x.1 in
          let z = k.0 y.1 in
          (
            sym (cc (z.1)),
            (assert_common_record_iff c).0 x.0,
            (assert_size_iff v).0 y.0,
            (assert_size_iff w).0 z.0,
          )),
      λ h. f.1 (
        (assert_common_record_iff c).1 h.1,
        g.1 ((assert_size_iff v).1 h.2, k.1 ((assert_size_iff w).1 h.3, ap ok (sym h.0))),
      ),
    )

-- An artifact is accepted, unchanged, exactly when it is a well-formed record whose size, and whose
-- derived size if it has one, are whole numbers of bytes of at most 20 MB.
pub create_source_artifact_iff :
    (a b : SourceArtifact) → (create_source_artifact a ≡ ok b) ↔ ((b ≡ a) × IsArtifact a)
unfolding create_source_artifact
create_source_artifact_iff a b =
    let f = artifact_checks_iff a.common a.size_bytes a.derived_size_bytes a b in
    (
      (λ h. let r = f.0 h in (r.0, record { scoped = r.1; sized = r.2; derived = r.3 })),
      λ h. f.1 (h.0, h.1.scoped, h.1.sized, h.1.derived),
    )

pub record IsUtterance (u : Utterance) : Type 0 where
  pub scoped : IsScoped u.common
  pub channelled : u.channel ≡ u.visibility
  pub spoken_by_owner : u.visibility ≡ private → u.owner_participant_id ≡ some u.participant_id

-- An utterance is accepted, unchanged, exactly when it is a well-formed record whose channel is its
-- visibility and which, if private, belongs to its speaker.
pub create_utterance_iff :
    (u u' : Utterance) → (create_utterance u ≡ ok u') ↔ ((u' ≡ u) × IsUtterance u)
unfolding create_utterance
create_utterance_iff u u' = ground (
  arith,
  assert_common_record_iff u.common,
  ==_iff (some u.participant_id) u.owner_participant_id,
  ==_iff u.channel u.visibility,
)

pub record IsEvidence (e : Evidence) : Type 0 where
  pub scoped : IsScoped e.common
  pub visible : e.visibility ≡ shared
  pub human_confirmed : e.confirmation_status ≡ confirmed
  pub sourced : e.origin ≡ source_artifact

-- Evidence is accepted, unchanged, exactly when it is a well-formed shared record that is confirmed and
-- comes from an artifact.
pub create_evidence_iff :
    (e e' : Evidence) → (create_evidence e ≡ ok e') ↔ ((e' ≡ e) × IsEvidence e)
unfolding create_evidence
create_evidence_iff e e' = ground (arith, assert_common_record_iff e.common)
