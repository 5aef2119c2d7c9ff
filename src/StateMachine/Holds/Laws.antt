-- ===== src/StateMachine/Holds/Laws.antt =====
-- Which Actions are held when an invalidation is confirmed, and what becomes of the others.
use mathlib.Core.List.{Memᴰ}
use counterpoint_living_deci.Base.{
  Bool-cases, List, String, [], any, arith, inl, inr, nat_eq, ok, option_eq, refl, some, string_eq,
  true, ◌+◌, ◌↔◌, ◌∷◌, ◌≡◌, ◌≢◌, ◌⊎◌,
}
use counterpoint_living_deci.Base.Keys.{Mem_of_filter, filter_of_Mem}
use counterpoint_living_deci.Base.Members.{contains, contains_iff}
use counterpoint_living_deci.Entities.Common.{confirmation_eq, origin_eq, visibility_eq}
use counterpoint_living_deci.Entities.Decisions.{
  Action, action_status_eq, completed, held, status_eq, task_state_eq,
}
use counterpoint_living_deci.Entities.People.{capability_eq}
use counterpoint_living_deci.Entities.Validity.Decisions.{IsAction, create_action_iff}
use counterpoint_living_deci.StateMachine.Holds.{
  ActionHoldSelection, held_action, hold_selected, is_to_hold, select_actions_to_hold,
}
use counterpoint_living_deci.Values.Ids.{ActionId, NonEmptyText, PremiseId}
use counterpoint_living_deci.Values.Numbers.{revision_number-of_ℕ}

-- An open Action that the suggestion names and that rests on an affected premise.
pub record NeedsHold (selection : ActionHoldSelection) (a : Action) : Type 0 where
  pub not_completed : a.status ≢ completed
  pub not_held : a.status ≢ held
  pub suggested : Memᴰ a.id selection.suggested_action_ids
  pub premise : PremiseId
  pub needed : Memᴰ premise a.affected_premise_ids
  pub affected : Memᴰ premise selection.affected_premise_ids

any_iff_Mem :
    (xs ys : List String) → (any (contains ys) xs ≡ true) ↔ ((x : String) × Memᴰ x xs × Memᴰ x ys)
unfolding any
any_iff_Mem xs ys = (found xs, λ h. seen xs h.0 h.1 h.2)
  where
    found : (zs : List String) → any (contains ys) zs ≡ true → (x : String) × Memᴰ x zs × Memᴰ x ys
    found [] h = cc
    found (z ∷ zs) h = elim (Bool-cases (contains ys z)) [
      | inl e ↦ (z, Memᴰ.head refl, (contains_iff ys z).0 e)
      | inr e ↦ let (x, m, n) = found zs (ground (arith, e)) in (x, Memᴰ.tail m, n)
    ]

    seen : (zs : List String) (x : String) → Memᴰ x zs → Memᴰ x ys → any (contains ys) zs ≡ true
    seen [] x m n = elim m [ ]
    seen (z ∷ zs) x (Memᴰ.head e) n = ground (arith, (contains_iff ys z).1 (rw (← e) n))
    seen (z ∷ zs) x (Memᴰ.tail m) n = ground (arith, seen zs x m n)

pub is_to_hold_iff :
    (s : ActionHoldSelection) (a : Action) → (is_to_hold s a ≡ true) ↔ NeedsHold s a
unfolding is_to_hold
is_to_hold_iff s a =
    let p = any_iff_Mem a.affected_premise_ids s.affected_premise_ids in
    let c = contains_iff s.suggested_action_ids a.id in
    (
      (λ h.
          let (x, m, n) = p.0 (ground arith) in
          record {
            not_completed = ground arith;
            not_held = ground arith;
            suggested = c.0 (ground arith);
            premise = x;
            needed = m;
            affected = n;
          }),
      λ h. ground (
        arith,
        h.not_completed,
        h.not_held,
        c.1 h.suggested,
        p.1 (h.premise, h.needed, h.affected),
      ),
    )

-- Exactly the open Actions that the suggestion names and that rest on an affected premise are selected.
pub select_actions_to_hold_iff :
    (s : ActionHoldSelection) (actions : List Action) (a : Action)
    → Memᴰ a (select_actions_to_hold actions s) ↔ (Memᴰ a actions × NeedsHold s a)
unfolding select_actions_to_hold
select_actions_to_hold_iff s actions a =
    let f = is_to_hold_iff s a in
    (
      (λ m. let (m', h) = Mem_of_filter (is_to_hold s) actions a m in (m', f.0 h)),
      λ h. filter_of_Mem (is_to_hold s) actions a h.0 (f.1 h.1),
    )

-- What becomes of one Action.
pub record IsHeld (reason : NonEmptyText) (a b : Action) : Type 0 where
  pub same : b.id ≡ a.id
  pub held_now : b.status ≡ held
  pub explained : b.hold_reason ≡ some reason
  pub revised : b.revision ≡ a.revision + 1
  pub owner : b.owner ≡ a.owner
  pub scope : b.scope ≡ a.scope
  pub premises : b.affected_premise_ids ≡ a.affected_premise_ids
  pub accepted : IsAction b

abbrev pub Handled : ActionHoldSelection → Action → Action → Type 0
Handled s a b = (NeedsHold s a × IsHeld s.hold_reason a b) ⊎ ((¬ NeedsHold s a) × (b ≡ a))

pub hold_selected-IsHeld :
    (ids : List ActionId) (reason : NonEmptyText) (a : Action) {b : Action}
    → contains ids a.id ≡ true
    → hold_selected ids reason a ≡ ok b
    → IsHeld reason a b
unfolding hold_selected
hold_selected-IsHeld ids reason a {b} c h =
    let f = create_action_iff (held_action reason (a.revision + 1) a) b in
    let r = revision_number-of_ℕ (a.revision + 1) in
    let (e, v) = f.0 (ground (arith, r)) in
    rw e (record {
      same = refl;
      held_now = refl;
      explained = refl;
      revised = refl;
      owner = refl;
      scope = refl;
      premises = refl;
      accepted = v;
    })
