-- ===== src/Projection/Upsert.antt =====
-- `upsertById` and the three functions beside it that search by another key.
pub mod Laws
use counterpoint_living_deci.Base.{
  Bool, List, Option, String, [], if◌then◌else◌, nat_eq, none, option_eq, some, string_eq, suc,
  zero, ℕ, ◌++◌, ◌==◌, ◌∷◌,
}
use counterpoint_living_deci.Entities.Common.{confirmation_eq, origin_eq, visibility_eq}
use counterpoint_living_deci.Entities.Decisions.{action_status_eq, status_eq, task_state_eq}
use counterpoint_living_deci.Entities.People.{capability_eq}

module _ {ℓ} {A : Type ℓ} where
  -- `Array.prototype.findIndex`, `none` for -1.
  unfoldable pub find_index : (A → Bool) → List A → Option ℕ
  find_index p [] = none
  find_index p (x ∷ xs) =
      if p x then some 0 else elim (find_index p xs) [ none ↦ none | some i ↦ some (suc i) ]

  -- `xs.map((current, i) => i === index ? x : current)`.
  unfoldable pub replace_at : ℕ → A → List A → List A
  replace_at i x [] = []
  replace_at zero x (y ∷ ys) = x ∷ ys
  replace_at (suc i) x (y ∷ ys) = y ∷ replace_at i x ys

  unfoldable pub upsert_where : (A → Bool) → List A → A → List A
  unfolding find_index replace_at
  upsert_where is_same entities entity = elim (find_index is_same entities) [
    | none ↦ entities ++ entity ∷ []
    | some index ↦ replace_at index entity entities
  ]

  -- `upsertById` for entities whose `id` is `key`.
  unfoldable pub upsert_by_id : (A → String) → List A → A → List A
  unfolding upsert_where
  upsert_by_id key entities entity = upsert_where (λ e. key e == key entity) entities entity
