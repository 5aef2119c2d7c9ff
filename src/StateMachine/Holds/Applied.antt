-- ===== src/StateMachine/Holds/Applied.antt =====
-- About `holdAffectedActions` over the whole list.
use mathlib.Core.List.{Memᴰ}
use mathlib.Core.Path.{subst}
use counterpoint_living_deci.Base.{
  All, Bool-cases, List, Pairwise, [], arith, false, inl, inr, map, nat_eq, ok, option_eq, refl,
  string_eq, traverse-Pairwise, traverse_id, traverse_total, true, ◌+◌, ◌<◌, ◌↔◌, ◌∷◌, ◌≡◌,
}
use counterpoint_living_deci.Base.Keys.{
  All-map, All-of_Mem, Mem_of_map, eq_of_key, filter_none, map_of_Mem,
}
use counterpoint_living_deci.Base.Members.{contains, contains_iff}
use counterpoint_living_deci.Base.Unique.{Distinct}
use counterpoint_living_deci.Entities.Common.{confirmation_eq, origin_eq, visibility_eq}
use counterpoint_living_deci.Entities.Decisions.{Action, action_status_eq, status_eq, task_state_eq}
use counterpoint_living_deci.Entities.People.{capability_eq}
use counterpoint_living_deci.Entities.Validity.Decisions.{IsAction, create_action_iff}
use counterpoint_living_deci.StateMachine.Holds.{
  ActionHoldSelection, action_id_of, held_action, hold_affected_actions, hold_selected, is_to_hold,
  select_actions_to_hold,
}
use counterpoint_living_deci.StateMachine.Holds.Laws.{
  Handled, NeedsHold, hold_selected-IsHeld, is_to_hold_iff, select_actions_to_hold_iff,
}
use counterpoint_living_deci.Values.{max_safe_integer}
use counterpoint_living_deci.Values.Ids.{ActionId}
use counterpoint_living_deci.Values.Numbers.{revision_number-of_ℕ}

module _ (s : ActionHoldSelection) where
  abbrev chosen : List Action → List ActionId
  chosen actions = map action_id_of (select_actions_to_hold actions s)

  -- Where ids are distinct, the ids selected are those of the Actions that need it.
  chosen_iff :
      (actions : List Action) (a : Action)
      → Distinct (map action_id_of actions)
      → Memᴰ a actions
      → (contains (chosen actions) a.id ≡ true) ↔ NeedsHold s a
  chosen_iff actions a d m = (
    (λ h.
        let (b, n, e) =
          Mem_of_map action_id_of (select_actions_to_hold actions s) a.id
            ((contains_iff (chosen actions) a.id).0 h) in
        let (n', needs) = (select_actions_to_hold_iff s actions b).0 n in
        subst (NeedsHold s) (eq_of_key action_id_of actions b a d n' m e) needs),
    λ h. (contains_iff (chosen actions) a.id).1 (
        map_of_Mem action_id_of (select_actions_to_hold actions s) a
          ((select_actions_to_hold_iff s actions a).1 (m, h))),
  )

  hold_selected-Handled :
      (ids : List ActionId) (a b : Action)
      → (contains ids a.id ≡ true) ↔ NeedsHold s a
      → hold_selected ids s.hold_reason a ≡ ok b
      → Handled s a b
  hold_selected-Handled ids a b f h = elim (Bool-cases (contains ids a.id)) [
    | inl e ↦ inl (f.0 e, hold_selected-IsHeld ids s.hold_reason a e h)
    | inr e ↦ inr ((λ n. cc (e, f.1 n)), unfold hold_selected in ground (arith, e))
  ]

  -- If no two Actions share an id, each Action that needs it is held, with the reason and the next
  -- revision number, every other one is returned as it was, and the order stays.
  pub hold_affected_actions-Handled :
      (actions out : List Action)
      → Distinct (map action_id_of actions)
      → hold_affected_actions actions s ≡ ok out
      → Pairwise (Handled s) actions out
  unfolding hold_affected_actions
  hold_affected_actions-Handled actions out d h =
      traverse-Pairwise (λ (a : Action). (contains (chosen actions) a.id ≡ true) ↔ NeedsHold s a)
        (Handled s) (hold_selected (chosen actions) s.hold_reason)
        (λ a b. hold_selected-Handled (chosen actions) a b) actions out
        (All-of_Mem actions (λ a m. chosen_iff actions a d m)) h

  -- Holding leaves nothing to select, whatever the ids are.
  abbrev Settled : Action → Action → Type 0
  Settled a b = is_to_hold s b ≡ false

  hold_selected-Settled :
      (ids : List ActionId) (a b : Action)
      → (is_to_hold s a ≡ true → contains ids a.id ≡ true)
      → hold_selected ids s.hold_reason a ≡ ok b
      → Settled a b
  hold_selected-Settled ids a b f h = elim (Bool-cases (contains ids a.id)) [
    | inl e ↦
        let k = hold_selected-IsHeld ids s.hold_reason a e h in
        unfold is_to_hold in ground (arith, k.held_now)
    | inr e ↦ unfold hold_selected in ground (arith, e)
  ]

  All-of_Pairwise :
      (actions out : List Action)
      → Pairwise Settled actions out
      → All (λ b. is_to_hold s b ≡ false) out
  All-of_Pairwise [] [] h = tt
  All-of_Pairwise [] (y ∷ out) h = elim h [ ]
  All-of_Pairwise (x ∷ xs) [] h = elim h [ ]
  All-of_Pairwise (x ∷ xs) (y ∷ out) h = (h.0, All-of_Pairwise xs out h.1)

  unchosen :
      (out : List Action)
      → All (λ b. is_to_hold s b ≡ false) out
      → hold_affected_actions out s ≡ ok out
  unfolding hold_affected_actions
  unchosen out h = rw (filter_none (is_to_hold s) out h) (
      traverse_id (hold_selected [] s.hold_reason) out
        (All-of_Mem out (λ a m. unfold hold_selected contains in refl)))

  -- Holding what is held already changes nothing.
  pub hold_affected_actions_idem :
      (actions out : List Action)
      → hold_affected_actions actions s ≡ ok out
      → hold_affected_actions out s ≡ ok out
  unfolding hold_affected_actions
  hold_affected_actions_idem actions out h = unchosen out (
      All-of_Pairwise actions out (
        traverse-Pairwise
          (λ (a : Action). is_to_hold s a ≡ true → contains (chosen actions) a.id ≡ true) Settled
          (hold_selected (chosen actions) s.hold_reason)
          (λ a b. hold_selected-Settled (chosen actions) a b) actions out
          (All-of_Mem actions (λ a m e. (contains_iff (chosen actions) a.id).1 (
            map_of_Mem action_id_of (select_actions_to_hold actions s) a
              ((select_actions_to_hold_iff s actions a).1 (m, (is_to_hold_iff s a).0 e)))))
          h))

  hold_selected_total :
      (ids : List ActionId) (a : Action)
      → IsAction a
      → a.revision < max_safe_integer
      → (b : Action) × (hold_selected ids s.hold_reason a ≡ ok b)
  unfolding hold_selected
  hold_selected_total ids a v small = elim (Bool-cases (contains ids a.id)) [
    | inl e ↦
        let b = held_action s.hold_reason (a.revision + 1) a in
        let good = (create_action_iff b b).1 (
          refl,
          record {
            scoped = record {
              named = v.scoped.named;
              owned = v.scoped.owned;
              owner_named = v.scoped.owner_named;
            };
            owned = v.owned;
            scope = v.scope;
            premises = v.premises;
            explained = λ x. λ y. cc;
          },
        ) in
        (b, ground (arith, e, good, revision_number-of_ℕ (a.revision + 1)))
    | inr e ↦ (a, rw e)
  ]

  -- On valid Actions whose revision numbers can grow, holding always succeeds.
  pub hold_affected_actions_total :
      (actions : List Action)
      → All (λ (a : Action). IsAction a × (a.revision < max_safe_integer)) actions
      → (out : List Action) × (hold_affected_actions actions s ≡ ok out)
  unfolding hold_affected_actions
  hold_affected_actions_total actions h =
      traverse_total (hold_selected (chosen actions) s.hold_reason) actions
        (All-map actions (λ a v. hold_selected_total (chosen actions) a v.0 v.1) h)
