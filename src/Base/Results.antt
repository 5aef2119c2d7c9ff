-- ===== src/Base/Results.antt =====
-- Code that may throw: a value or the code of the error. The texts of the messages are left out.
use mathlib.Core.Path.{◌≡◌, refl, subst}
use mathlib.Core.Bool.{Bool, true, false}
use mathlib.Core.Logic.{◌↔◌, ◌⊎◌, inl, inr}
use mathlib.Core.List.{List, [], ◌∷◌}
use counterpoint_living_deci.Base.Lists.{All}

-- `DomainValueError.code`, `DecisionTransitionError.code`, `ProjectionError.code`, the `Error` of a
-- clock whose time cannot be read, and what a store throws: `TypeError`, `RangeError`, the violation
-- of a table's constraint, and the `Error` of an append that lacks its events, and that of a new meeting without its
-- facilitator.
pub data Fault : Type 0 where
  invalid_domain_value : Fault
  invalid_state_transition decision_authority_required decision_condition_required : Fault
  meeting_scope_mismatch stale_position position_gap idempotency_conflict event_id_conflict : Fault
  optimistic_concurrency_conflict invalid_event_payload not_iso_timestamp : Fault
  type_error range_error constraint_violation incomplete_event_range : Fault
  lost_facilitator : Fault

pub data Result {κ} (T : Type κ) : Type κ where
  err : Fault → Result T
  ok : T → Result T

-- The rest of a body runs only behind a call that returned.
infixl 5 ◌>>=◌
abbrev pub ◌>>=◌ {κ μ} : {S : Type κ} {T : Type μ} → Result S → (S → Result T) → Result T
err fault >>= rest = err fault
ok value >>= rest = rest value

-- The same behind a check, which returns nothing.
infixl 5 ◌>>◌
abbrev pub ◌>>◌ {κ} : {T : Type κ} → Result (Unit {0}) → Result T → Result T
check >> rest = check >>= λ (done : Unit {0}). rest

-- `if (test) throw …`.
abbrev pub throw_if : Bool → Fault → Result (Unit {0})
throw_if true e = err e
throw_if false e = ok tt

abbrev pub require : Bool → Fault → Result (Unit {0})
require true e = ok tt
require false e = err e

pub Result-cases {ℓ} :
    {A : Type ℓ} (m : Result A) → ((a : A) × (m ≡ ok a)) ⊎ ((f : Fault) × (m ≡ err f))
Result-cases (ok a) = inl (a, refl)
Result-cases (err f) = inr (f, refl)

module _ {ℓ κ} {A : Type ℓ} {B : Type κ} where
  -- `map` with a callback that may throw: the first error ends it.
  unfoldable pub traverse : (A → Result B) → List A → Result (List B)
  traverse f [] = ok []
  traverse f (x ∷ xs) = do y ← f x; ys ← traverse f xs; ok (y ∷ ys)

  -- `reduce` with a callback that may throw.
  unfoldable pub fold : (B → A → Result B) → B → List A → Result B
  fold f b [] = ok b
  fold f b (x ∷ xs) = f b x >>= λ c. fold f c xs

  pub >>=-eq-ok :
      (call : Result A) (rest : A → Result B) {out : B}
      → (call >>= rest) ≡ ok out
      → (x : A) × (call ≡ ok x) × (rest x ≡ ok out)
  >>=-eq-ok (err fault) rest returned = cc
  >>=-eq-ok (ok x) rest returned = (x, refl, returned)

-- A body returns when its first check passes and its rest returns.
pub >>-eq-ok_iff {ℓ} :
    {B : Type ℓ} (check : Result (Unit {0})) (rest : Result B) {out : B}
    → ((check >> rest) ≡ ok out) ↔ ((check ≡ ok tt) × (rest ≡ ok out))
>>-eq-ok_iff (err fault) rest = ((λ h. cc h), λ h. cc (h.0))
>>-eq-ok_iff (ok done) rest = ((λ h. (refl, h)), λ h. h.1)

pub ok-injective {ℓ} : {A : Type ℓ} {a b : A} → ok a ≡ ok b → a ≡ b
ok-injective h = cc h

-- Past a test that throws, the test failed.
pub throw_if-eq-ok {ℓ} :
    {B : Type ℓ} (test : Bool) (fault : Fault) (rest : Result B) {out : B}
    → (throw_if test fault >> rest) ≡ ok out
    → (test ≡ false) × (rest ≡ ok out)
throw_if-eq-ok true fault rest h = cc h
throw_if-eq-ok false fault rest h = (refl, h)

module _ {ℓ κ μ} {A : Type ℓ} {B : Type κ} (P : B → Type μ) (f : B → A → Result B) where
  -- What each call keeps, the loop keeps.
  pub fold_inv :
      ((b c : B) (x : A) → P b → f b x ≡ ok c → P c)
      → (b c : B) (xs : List A) → P b
      → fold f b xs ≡ ok c
      → P c
  unfolding fold
  fold_inv keep b c [] h e = subst (elim [ ok x ↦ P x | err _ ↦ P b ]) e h
  fold_inv keep b c (x ∷ xs) h e =
      let (b', e', e'') = >>=-eq-ok (f b x) (λ t. fold f t xs) e in
      fold_inv keep b' c xs (keep b b' x h e') e''

module _ {ℓ κ} {A : Type ℓ} {B : Type κ} where
  pub traverse-cons :
      (f : A → Result B) (x : A) (xs : List A) (out : List B)
      → traverse f (x ∷ xs) ≡ ok out
      → (y : B) × (ys : List B) × (f x ≡ ok y) × (traverse f xs ≡ ok ys) × (y ∷ ys ≡ out)
  unfolding traverse
  traverse-cons f x xs out h =
      let (y, e, h') = >>=-eq-ok (f x) (λ y. traverse f xs >>= λ ys. ok (y ∷ ys)) h in
      let (ys, e', h'') = >>=-eq-ok (traverse f xs) (λ ys. ok (y ∷ ys)) h' in (y, ys, e, e', cc h'')

  -- The relation holds entry by entry, and the lists are of one length.
  abbrev pub Pairwise : (A → B → Type 0) → List A → List B → Type 0
  Pairwise R [] [] = Unit
  Pairwise R (x ∷ xs) (y ∷ ys) = R x y × Pairwise R xs ys
  Pairwise R _ _ = ⊥

  pub traverse-Pairwise {μ} :
      (P : A → Type μ) (R : A → B → Type 0) (f : A → Result B)
      → ((x : A) (y : B) → P x → f x ≡ ok y → R x y)
      → (xs : List A) (out : List B) → All P xs
      → traverse f xs ≡ ok out
      → Pairwise R xs out
  unfolding traverse
  traverse-Pairwise P R f step [] [] h e = tt
  traverse-Pairwise P R f step [] (y ∷ out) h e = cc
  traverse-Pairwise P R f step (x ∷ xs) out h e =
      let (y, ys, e', e'', same) = traverse-cons f x xs out e in
      subst (Pairwise R (x ∷ xs)) same (step x y h.0 e', traverse-Pairwise P R f step xs ys h.1 e'')

  -- A callback that accepts each entry as it is, or that never throws, gives a result.
  pub traverse_total :
      (f : A → Result B)
      → (xs : List A) → All (λ x. (y : B) × (f x ≡ ok y)) xs
      → (ys : List B) × (traverse f xs ≡ ok ys)
  unfolding traverse
  traverse_total f [] h = ([], refl)
  traverse_total f (x ∷ xs) h = let (ys, e) = traverse_total f xs h.1 in (h.0.0 ∷ ys, rw (h.0.1, e))

pub traverse_id {ℓ} :
    {A : Type ℓ} (f : A → Result A) (xs : List A) → All (λ x. f x ≡ ok x) xs → traverse f xs ≡ ok xs
unfolding traverse
traverse_id f [] h = refl
traverse_id f (x ∷ xs) h = rw (h.0, traverse_id f xs h.1)
