-- ===== src/Base/Unique.antt =====
-- `new Set(values)`, and its size as a test that no value is there twice.
use mathlib.Core.Path.{◌≡◌, refl}
use mathlib.Core.Bool.{Bool, true, false, ◌||◌}
use mathlib.Core.Logic.{inl, inr, ◌↔◌, ◌≢◌}
use mathlib.Core.List.{List, [], ◌∷◌, ◌++◌}
use Prim.Native.Nat.{◌+◌, ◌≤◌}
use native.Mathlib.Omega.{arith}
use counterpoint_living_deci.Base.Lists.{All, length, length-append}
use counterpoint_living_deci.Base.Members.{contains, contains-append}
use counterpoint_living_deci.Base.Tests.{
  Eq, ◌==◌, ==_iff, Bool-cases, if◌then◌else◌, nat_eq, nat_beq_iff,
}

module _ {ℓ} {A : Type ℓ} ⦃e : Eq A⦄ where
  -- The elements of a set in the order of insertion.
  set_from : List A → List A → List A
  set_from s [] = s
  set_from s (x ∷ xs) = set_from (if contains s x then s else s ++ x ∷ []) xs

  unfoldable pub set_of : List A → List A
  unfolding set_from
  set_of xs = set_from [] xs

  unfoldable pub is_unique : List A → Bool
  unfolding set_of
  is_unique xs = length (set_of xs) == length xs

  -- Each value differs from all that follow it.
  abbrev pub Distinct : List A → Type ℓ
  Distinct [] = Unit
  Distinct (x ∷ xs) = All (λ y. x ≢ y) xs × Distinct xs

  abbrev Fresh : List A → List A → Type 0
  Fresh s xs = All (λ x. contains s x ≡ false) xs

  length-set_from-le : (s xs : List A) → length (set_from s xs) ≤ length s + length xs
  unfolding set_from
  length-set_from-le s [] = omega arith
  length-set_from-le s (x ∷ xs) = elim (Bool-cases (contains s x)) [
    | inl old ↦ rw old (omega (arith, length-set_from-le s xs))
    | inr new ↦
        rw new (omega (arith, length-set_from-le (s ++ x ∷ []) xs, length-append s (x ∷ [])))
  ]

  contains-snoc : (s : List A) (x y : A) → contains (s ++ x ∷ []) y ≡ (contains s y || x == y)
  unfolding contains
  contains-snoc s x y = ground (arith, contains-append s (x ∷ []) y)

  Fresh-snoc :
      (s : List A) (x : A) (xs : List A)
      → Fresh (s ++ x ∷ []) xs ↔ (Fresh s xs × All (λ y. x ≢ y) xs)
  Fresh-snoc s x [] = ground arith
  Fresh-snoc s x (y ∷ ys) = grind (arith, Fresh-snoc s x ys, contains-snoc s x y, ==_iff x y)

  length-set_from_iff :
      (s xs : List A) → (length (set_from s xs) ≡ length s + length xs) ↔ (Fresh s xs × Distinct xs)
  unfolding set_from
  length-set_from_iff s [] = ((λ h. (tt, tt)), (λ h. omega arith))
  length-set_from_iff s (x ∷ xs) = elim (Bool-cases (contains s x)) [
    | inl old ↦ rw old ((λ h. absurd (omega (arith, length-set_from-le s xs))), (λ h. cc (h.0.0)))
    | inr new ↦
        let f = length-set_from_iff (s ++ x ∷ []) xs in
        let g = Fresh-snoc s x xs in
        let l = length-append s (x ∷ []) in
        rw new (
          (λ h. let r = f.0 (omega (arith, l)) in ((refl, (g.0 r.0).0), ((g.0 r.0).1, r.1))),
          (λ h. omega (arith, f.1 (g.1 (h.0.1, h.1.0), h.1.1), l)),
        )
  ]

  Fresh-nil : (xs : List A) → Fresh [] xs
  unfolding contains
  Fresh-nil [] = tt
  Fresh-nil (x ∷ xs) = (refl, Fresh-nil xs)

  -- The source's test for duplicates decides that the values are distinct.
  pub is_unique_iff : (xs : List A) → (is_unique xs ≡ true) ↔ Distinct xs
  unfolding is_unique
  is_unique_iff xs =
      let f = length-set_from_iff [] xs in
      let t = nat_beq_iff (length (set_of xs)) (length xs) in
      ((λ h. (f.0 (omega (arith, t.0 h))).1), (λ h. t.1 (omega (arith, f.1 (Fresh-nil xs, h)))))
