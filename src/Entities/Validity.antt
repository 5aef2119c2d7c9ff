-- ===== src/Entities/Validity.antt =====
-- What the checks that all constructors of entities.ts share accept, said without their tests.
pub mod Decisions
pub mod Sources
pub mod People
use counterpoint_living_deci.Base.{
  ==_iff, ==_refl, List, Option, Option-cases, String, arith, inl, inr, nat_eq, none, ok, option_eq,
  refl, some, string_eq, suc, ℕ, ◌↔◌, ◌≡◌, ◌≢◌, ◌≤◌,
}
use counterpoint_living_deci.Base.Unique.{Distinct, is_unique_iff}
use counterpoint_living_deci.Entities.Common.{
  CommonRecordFields, assert_common_record, assert_probability, assert_size, assert_unique,
  confirmation_eq, origin_eq, private, size_limit, visibility_eq,
}
use counterpoint_living_deci.Entities.Decisions.{action_status_eq, status_eq, task_state_eq}
use counterpoint_living_deci.Entities.People.{capability_eq}
use counterpoint_living_deci.Values.{Number, minus, not_finite, ratio, to_ℕ}
use counterpoint_living_deci.Values.Numbers.{Is, checked_iff}

pub record IsScoped (r : CommonRecordFields) : Type 0 where
  pub named : r.id ≢ ""
  pub owned : r.visibility ≡ private → r.owner_participant_id ≢ none
  pub owner_named : r.visibility ≡ private → r.owner_participant_id ≢ some ""

pub assert_common_record_iff :
    (r : CommonRecordFields) → (assert_common_record r ≡ ok tt) ↔ IsScoped r
unfolding assert_common_record
assert_common_record_iff r = (
  (λ h. record {
    named = ground (arith, ==_iff r.id "");
    owned = ground arith;
    owner_named = λ v e. ground (arith, ==_refl {A = String} "");
  }),
  λ h. elim (Option-cases r.owner_participant_id) [
    | inl e ↦ ground (arith, ==_iff r.id "", h.named, h.owned)
    | inr (o, e) ↦ ground (arith, ==_iff r.id "", h.named, ==_iff o "", h.owner_named)
  ],
)

pub assert_unique_iff : (xs : List String) → (assert_unique xs ≡ ok tt) ↔ Distinct xs
unfolding assert_unique
assert_unique_iff xs = ground (arith, is_unique_iff xs)

-- A size of at most 20 MB, in whole bytes.
abbrev pub IsSize : Number → Type 0
IsSize v = (k : ℕ) × Is v k × (k ≤ size_limit)

pub assert_size_iff : (v : Number) → (assert_size v ≡ ok tt) ↔ IsSize v
unfolding assert_size
assert_size_iff v = (
  (λ h. let f = checked_iff v (to_ℕ v) in (to_ℕ v, (f.0 (ground arith)).0, ground arith)),
  λ h. let f = checked_iff v h.0 in ground (arith, f.1 (h.1, omega arith)),
)

-- The number lies between 0 and 1.
abbrev pub IsProbability : Number → Type 0
IsProbability (ratio n d) = n ≤ suc d
IsProbability (minus n d) = n ≡ 0
IsProbability not_finite = ⊥

abbrev pub IsOptional {ℓ} : {A : Type ℓ} → (A → Type 0) → Option A → Type 0
IsOptional P none = Unit
IsOptional P (some a) = P a

pub assert_probability_iff :
    (o : Option Number) → (assert_probability o ≡ ok tt) ↔ IsOptional IsProbability o
unfolding assert_probability
assert_probability_iff none = ((λ h. tt), λ h. refl)
assert_probability_iff (some (ratio n d)) = ground arith
assert_probability_iff (some (minus n d)) = ground arith
assert_probability_iff (some not_finite) = ground arith
