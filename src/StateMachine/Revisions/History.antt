-- ===== src/StateMachine/Revisions/History.antt =====
-- About the history of revisions and its chains of versions.
use mathlib.Core.List.{Memᴰ}
use mathlib.Core.Path.{subst}
use counterpoint_living_deci.Base.{
  ==_iff, ==_refl, All, Bool, Bool-cases, List, Option, Option-cases, Result-cases, [], ap, arith,
  filter, find, fold, fold_inv, if◌then◌else◌, inl, inr, last, map, nat_eq, none, ok, option_eq,
  refl, some, string_eq, sym, true, ℕ, ◌++◌, ◌+◌, ◌==◌, ◌∙◌, ◌∷◌, ◌≡◌, ◌≢◌, ◌⊎◌,
}
use counterpoint_living_deci.Base.Keys.{
  All-map, All-snoc, All-map_of, Distinct-snoc, find-none, find-some, map-snoc,
}
use counterpoint_living_deci.Base.Unique.{Distinct}
use counterpoint_living_deci.Entities.Common.{confirmation_eq, origin_eq, visibility_eq}
use counterpoint_living_deci.Entities.Decisions.{
  DecisionRevision, action_status_eq, create_decision_revision, status_eq, task_state_eq,
}
use counterpoint_living_deci.Entities.People.{capability_eq}
use counterpoint_living_deci.Entities.Validity.Decisions.{IsRevision, create_decision_revision_iff}
use counterpoint_living_deci.StateMachine.Revisions.{
  append_decision_revision, append_new, id_or_none, revisions_of, same_decision_revision,
  version_or_zero,
}
use counterpoint_living_deci.StateMachine.Revisions.Same.{same_decision_revision_refl}
use counterpoint_living_deci.Values.Ids.{DecisionId, DecisionRevisionId}
use counterpoint_living_deci.Values.Numbers.{revision_number-of_ℕ}

-- The revisions of one Decision are numbered from `n`, and each names the one before it.
abbrev pub Chain : ℕ → Option DecisionRevisionId → List DecisionRevision → Type 0
Chain n p [] = Unit
Chain n p (r ∷ rs) = (r.version ≡ n) × (r.previous_revision_id ≡ p) × Chain (n + 1) (some r.id) rs

abbrev pub revision_id_of : DecisionRevision → DecisionRevisionId
revision_id_of r = r.id

pub record IsHistory (h : List DecisionRevision) : Type 0 where
  pub ids : Distinct (map revision_id_of h)
  pub chained : (d : DecisionId) → Chain 1 none (revisions_of d h)
  pub accepted : All IsRevision h

abbrev version_after : ℕ → Option DecisionRevision → ℕ
version_after n none = n
version_after n (some r) = r.version + 1

abbrev id_after : Option DecisionRevisionId → Option DecisionRevision → Option DecisionRevisionId
id_after p none = p
id_after p (some r) = some r.id

last_cons :
    (x : DecisionRevision) (xs : List DecisionRevision)
    → (y : DecisionRevision) × (last (x ∷ xs) ≡ some y)
unfolding last
last_cons x [] = (x, refl)
last_cons x (y ∷ ys) = last_cons y ys

Chain-snoc :
    (n : ℕ) (p : Option DecisionRevisionId) (rs : List DecisionRevision) (r : DecisionRevision)
    → Chain n p rs
    → r.version ≡ version_after n (last rs)
    → r.previous_revision_id ≡ id_after p (last rs)
    → Chain n p (rs ++ r ∷ [])
unfolding last
Chain-snoc n p [] r c v i = (v, i, tt)
Chain-snoc n p (x ∷ []) r c v i = (c.0, c.1, (v ∙ ap (λ (t : ℕ). t + 1) c.0, i, tt))
Chain-snoc n p (x ∷ y ∷ ys) r c v i =
    let (z, e) = last_cons y ys in
    (
      c.0,
      c.1,
      Chain-snoc (n + 1) (some x.id) (y ∷ ys) r c.2 (v ∙ unfold last in (rw e))
          (i ∙ unfold last in (rw e)),
    )

filter-snoc :
    (p : DecisionRevision → Bool) (xs : List DecisionRevision) (x : DecisionRevision)
    → filter p (xs ++ x ∷ []) ≡ (if p x then filter p xs ++ x ∷ [] else filter p xs)
unfolding filter
filter-snoc p [] x = ground arith
filter-snoc p (y ∷ ys) x = ground (arith, filter-snoc p ys x)

-- A revision that was appended is valid and follows the latest one of its Decision.
pub record Follows (h : List DecisionRevision) (r : DecisionRevision) : Type 0 where
  pub accepted : IsRevision r
  pub version : r.version ≡ version_or_zero (last (revisions_of r.decision_id h)) + 1
  pub previous : r.previous_revision_id ≡ id_or_none (last (revisions_of r.decision_id h))

append_new-Follows :
    (h h' : List DecisionRevision) (r : DecisionRevision)
    → append_new h r ≡ ok h'
    → Follows h r × (h' ≡ h ++ r ∷ [])
unfolding append_new
append_new-Follows h h' r e =
    let latest = last (revisions_of r.decision_id h) in
    let n = revision_number-of_ℕ (version_or_zero latest + 1) in
    let q = ==_iff r.previous_revision_id (id_or_none latest) in
    elim (Result-cases (create_decision_revision r)) [
      | inl (x, c) ↦
          let (same, good) = (create_decision_revision_iff r x).0 c in
          (
            record {
              accepted = good;
              version = ground (arith, n, c);
              previous = ground (arith, n, c, q);
            },
            ground (arith, n, c, same),
          )
      | inr (f, c) ↦ absurd (ground (arith, n, c))
    ]

append-cases :
    (h h' : List DecisionRevision) (r : DecisionRevision)
    → append_decision_revision h r ≡ ok h'
    → (All (λ (x : DecisionRevision). x.id ≢ r.id) h × Follows h r × (h' ≡ h ++ r ∷ []))
      ⊎ ((x : DecisionRevision) × Memᴰ x h × (same_decision_revision x r ≡ true) × (h' ≡ h))
unfolding append_decision_revision
append-cases h h' r e = elim (Option-cases (find (λ (x : DecisionRevision). x.id == r.id) h)) [
  | inl n ↦
      let (f, g) = append_new-Follows h h' r (ground (arith, n)) in
      inl (All-map h (λ x b y. cc (b, (==_iff x.id r.id).1 y)) (find-none _ h n), f, g)
  | inr (x, s) ↦ inr (x, (find-some _ h x s).0, ground (arith, s), ground (arith, s))
]

revisions_of-snoc :
    (d : DecisionId) (h : List DecisionRevision) (r : DecisionRevision)
    → revisions_of d (h ++ r ∷ [])
      ≡ (if r.decision_id == d then revisions_of d h ++ r ∷ [] else revisions_of d h)
unfolding revisions_of
revisions_of-snoc d h r = filter-snoc (λ (x : DecisionRevision). x.decision_id == d) h r

version_after_latest : (o : Option DecisionRevision) → version_or_zero o + 1 ≡ version_after 1 o
version_after_latest none = refl
version_after_latest (some r) = refl

id_after_latest : (o : Option DecisionRevision) → id_or_none o ≡ id_after none o
id_after_latest none = refl
id_after_latest (some r) = refl

Chain-appended :
    (h : List DecisionRevision) (r : DecisionRevision)
    → IsHistory h
    → Follows h r
    → (d : DecisionId) → Chain 1 none (revisions_of d (h ++ r ∷ []))
Chain-appended h r v f d = elim (Bool-cases (r.decision_id == d)) [
  | inl e ↦
      let same = (==_iff r.decision_id d).0 e in
      rw (revisions_of-snoc d h r) (
        rw e (
          Chain-snoc 1 none (revisions_of d h) r (v.chained d)
            (f.version
              ∙ ap (λ t. version_or_zero (last (revisions_of t h)) + 1) same
              ∙ version_after_latest (last (revisions_of d h)))
            (f.previous
              ∙ ap (λ t. id_or_none (last (revisions_of t h))) same
              ∙ id_after_latest (last (revisions_of d h)))))
  | inr e ↦ rw (revisions_of-snoc d h r) (rw e (v.chained d))
]

IsHistory-snoc :
    (h : List DecisionRevision) (r : DecisionRevision)
    → IsHistory h
    → All (λ (x : DecisionRevision). x.id ≢ r.id) h
    → Follows h r
    → IsHistory (h ++ r ∷ [])
IsHistory-snoc h r v fresh f = record {
  ids = subst Distinct (sym (map-snoc revision_id_of h r)) (
      Distinct-snoc (map revision_id_of h) r.id v.ids
        (All-map_of (λ (y : DecisionRevisionId). y ≢ r.id) revision_id_of h fresh));
  chained = Chain-appended h r v f;
  accepted = All-snoc IsRevision h r v.accepted f.accepted;
}

IsHistory-nil : IsHistory []
unfolding revisions_of filter
IsHistory-nil = record { ids = tt; chained = λ d. tt; accepted = tt }

-- Appending keeps the ids distinct, each Decision's chain of versions and the validity of all revisions.
pub append-IsHistory :
    (h h' : List DecisionRevision) (r : DecisionRevision)
    → IsHistory h
    → append_decision_revision h r ≡ ok h'
    → IsHistory h'
append-IsHistory h h' r v e = elim (append-cases h h' r e) [
  | inl (fresh, f, same) ↦ subst IsHistory (sym same) (IsHistory-snoc h r v fresh f)
  | inr (x, m, _, same) ↦ subst IsHistory (sym same) v
]

-- A history that is built by appending has distinct ids, a chain of versions from 1 without a gap for
-- each Decision, and valid revisions only.
pub replayed-IsHistory :
    (rs h : List DecisionRevision) → fold append_decision_revision [] rs ≡ ok h → IsHistory h
replayed-IsHistory rs h e =
    fold_inv IsHistory append_decision_revision (λ a b r v. append-IsHistory a b r v) [] h rs
      IsHistory-nil e

-- Nothing is replaced: the new history is the old one, or the old one and the revision behind it.
pub append_only :
    (h h' : List DecisionRevision) (r : DecisionRevision)
    → append_decision_revision h r ≡ ok h'
    → (h' ≡ h) ⊎ (h' ≡ h ++ r ∷ [])
append_only h h' r e = elim (append-cases h h' r e) [
  | inl (_, _, same) ↦ inr same
  | inr (_, _, _, same) ↦ inl same
]

find_appended :
    (h : List DecisionRevision) (r : DecisionRevision)
    → All (λ (x : DecisionRevision). x.id ≢ r.id) h
    → find (λ (x : DecisionRevision). x.id == r.id) (h ++ r ∷ []) ≡ some r
unfolding find
find_appended [] r fresh = rw (==_refl r.id)
find_appended (x ∷ xs) r fresh =
    ground (arith, fresh.0, ==_iff x.id r.id, find_appended xs r fresh.1)

-- A revision that was appended can be delivered again, and changes nothing.
pub append_decision_revision_idem :
    (h h' : List DecisionRevision) (r : DecisionRevision)
    → append_decision_revision h r ≡ ok h'
    → append_decision_revision h' r ≡ ok h'
unfolding append_decision_revision
append_decision_revision_idem h h' r e = elim (append-cases h h' r e) [
  | inl (fresh, f, same) ↦ rw same (rw (find_appended h r fresh, same_decision_revision_refl r))
  | inr (x, m, s, same) ↦ rw same (rw same at e)
]
