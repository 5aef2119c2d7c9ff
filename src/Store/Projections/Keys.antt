-- ===== src/Store/Projections/Keys.antt =====
-- About the keys under which the projections are found.
use counterpoint_living_deci.Application.Authorization.{access_eq}
use counterpoint_living_deci.Base.{
  ==_iff, >>-eq-ok_iff, >>=-eq-ok, Bool-cases, List, Option, String, [], ap, false, find,
  if◌then◌else◌, inl, inr, nat_eq, none, ok, option_eq, refl, some, string_eq, sym, ◌==◌, ◌>>◌, ◌∙◌,
  ◌∷◌, ◌≡◌,
}
use counterpoint_living_deci.Entities.Common.{confirmation_eq, origin_eq, visibility_eq}
use counterpoint_living_deci.Entities.Decisions.{action_status_eq, status_eq, task_state_eq}
use counterpoint_living_deci.Entities.People.{capability_eq}
use counterpoint_living_deci.Store.Projections.{
  ProjectionScope, key_eq, key_of, kind_eq, owner_partition, projection_partition, put_row,
}
use counterpoint_living_deci.Store.Sqlite.Tables.{
  ProjectionKey, ProjectionRow, ScopeKind, owner_private_scope, require_non_empty, shared_scope,
}

-- The owner of a partition, and the scope of a key.
abbrev owner_of : ScopeKind → String → Option String
owner_of owner_private_scope owner = some owner
owner_of shared_scope owner = none

abbrev scope_of : ProjectionKey → ProjectionScope
scope_of key = record {
  meeting_id = key.meeting_id;
  owner_participant_id = owner_of key.scope_kind key.owner_participant_id;
  projection = key.projection;
}

owner_partition-eq-ok :
    (owner : Option String) (p : ScopeKind × String)
    → owner_partition owner ≡ ok p
    → owner_of p.0 p.1 ≡ owner
unfolding owner_partition
owner_partition-eq-ok none p h =
    let same : ◌≡◌ {A = ScopeKind × String} (shared_scope, "") p = cc h in
    sym (ap (λ q. owner_of q.0 q.1) same)
owner_partition-eq-ok (some owner) p h =
    let (_, h') = (>>-eq-ok_iff (require_non_empty owner) (ok (owner_private_scope, owner))).0 h in
    let same : ◌≡◌ {A = ScopeKind × String} (owner_private_scope, owner) p = cc h' in
    sym (ap (λ q. owner_of q.0 q.1) same)

scope_of-key_of : (s : ProjectionScope) (k : ProjectionKey) → key_of s ≡ ok k → scope_of k ≡ s
unfolding key_of projection_partition
scope_of-key_of s k h =
    let key_with : ScopeKind × String → ProjectionKey = λ p. record {
      meeting_id = s.meeting_id;
      projection = s.projection;
      scope_kind = p.0;
      owner_participant_id = p.1;
    } in
    let (p, h1, h2) = >>=-eq-ok (projection_partition s) (λ p. ok (key_with p)) h in
    let same : key_with p ≡ k = cc h2 in
    let inner = owner_partition s.owner_participant_id in
    let (_, h3) =
      (>>-eq-ok_iff (require_non_empty s.meeting_id) (require_non_empty s.projection >> inner)).0
        h1 in
    let (_, h4) = (>>-eq-ok_iff (require_non_empty s.projection) inner).0 h3 in
    sym (ap scope_of same)
    ∙ ap (λ owner. record s { owner_participant_id = owner })
        (owner_partition-eq-ok s.owner_participant_id p h4)

-- Two scopes that a query accepts have one key only if they are one scope.
pub key_of-injective :
    (a b : ProjectionScope) (k : ProjectionKey) → key_of a ≡ ok k → key_of b ≡ ok k → a ≡ b
key_of-injective a b k h h' = sym (scope_of-key_of a k h) ∙ scope_of-key_of b k h'

-- After a row was put in, its key finds it, and every other key finds what it found before.
pub find-put_row :
    (row : ProjectionRow) (rows : List ProjectionRow) (k : ProjectionKey)
    → find (λ r. r.key == k) (put_row row rows)
      ≡ (if row.key == k then some row else find (λ r. r.key == k) rows)
unfolding put_row find
find-put_row row [] k = refl
find-put_row row (other ∷ rest) k = elim (Bool-cases (other.key == row.key)) [
  | inl e ↦
      let same : other.key ≡ row.key = (==_iff other.key row.key).0 e in
      let changed : ◌≡◌ {A = ProjectionRow} (record other { payload_json = row.payload_json }) row =
        ap (λ q. record row { key = q }) same in
      rw e (
        ap (λ r. find (λ r. r.key == k) (r ∷ rest)) changed ∙ elim (Bool-cases (row.key == k)) [
          | inl f ↦ rw f refl
          | inr f ↦ rw f (rw (ap (λ q. q == k) same ∙ f) refl)
        ])
  | inr e ↦ elim (Bool-cases (other.key == k)) [
    | inl f ↦
        let differs : (row.key == k) ≡ false = elim (Bool-cases (row.key == k)) [
          | inl g ↦ cc (
            e,
            (==_iff other.key row.key).1 ((==_iff other.key k).0 f ∙ sym ((==_iff row.key k).0 g)),
          )
          | inr g ↦ g
        ] in
        rw (e, differs) (rw f refl)
    | inr f ↦ rw (e) (rw f (find-put_row row rest k))
  ]
]
