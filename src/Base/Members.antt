-- ===== src/Base/Members.antt =====
-- `Array.prototype.includes` and `Set.prototype.has`, and membership as a relation.
use mathlib.Core.Path.{◌≡◌, refl, sym}
use mathlib.Core.Bool.{Bool, true, false, ◌||◌}
use mathlib.Core.Logic.{inl, inr, ◌↔◌, ◌≢◌}
use mathlib.Core.List.{List, [], ◌∷◌, ◌++◌, Memᴰ}
use native.Mathlib.Omega.{arith}
use counterpoint_living_deci.Base.Lists.{All}
use counterpoint_living_deci.Base.Tests.{Eq, ◌==◌, ==_iff, Bool-cases}

module _ {ℓ} {A : Type ℓ} ⦃e : Eq A⦄ where
  unfoldable pub contains : List A → A → Bool
  contains [] a = false
  contains (x ∷ xs) a = x == a || contains xs a

  pub contains-append :
      (xs ys : List A) (a : A) → contains (xs ++ ys) a ≡ (contains xs a || contains ys a)
  unfolding contains
  contains-append [] ys a = refl
  contains-append (x ∷ xs) ys a = ground (arith, contains-append xs ys a)

  pub Mem_of_contains : (xs : List A) (a : A) → contains xs a ≡ true → Memᴰ a xs
  unfolding contains
  Mem_of_contains [] a h = cc
  Mem_of_contains (x ∷ xs) a h = elim (Bool-cases (x == a)) [
    | inl same ↦ Memᴰ.head (sym ((==_iff x a).0 same))
    | inr other ↦ Memᴰ.tail (Mem_of_contains xs a (ground (arith, other)))
  ]

  pub contains_of_Mem : (xs : List A) (a : A) → Memᴰ a xs → contains xs a ≡ true
  unfolding contains
  contains_of_Mem [] a m = elim m [ ]
  contains_of_Mem (x ∷ xs) a (Memᴰ.head p) = ground (arith, (==_iff x a).1 (sym p))
  contains_of_Mem (x ∷ xs) a (Memᴰ.tail m) = ground (arith, contains_of_Mem xs a m)

  pub contains_iff : (xs : List A) (a : A) → (contains xs a ≡ true) ↔ Memᴰ a xs
  contains_iff xs a = (Mem_of_contains xs a, contains_of_Mem xs a)

  pub contains-false_iff : (xs : List A) (a : A) → (contains xs a ≡ false) ↔ All (λ x. x ≢ a) xs
  unfolding contains
  contains-false_iff [] a = ground arith
  contains-false_iff (x ∷ xs) a = grind (arith, contains-false_iff xs a, ==_iff x a)
