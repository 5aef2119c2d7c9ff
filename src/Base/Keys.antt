-- ===== src/Base/Keys.antt =====
-- Entries found by a key that no two of them share.
use mathlib.Core.Bool.{Bool, false, true}
use mathlib.Core.List.{List, Memᴰ, [], map, ◌++◌, ◌∷◌}
use mathlib.Core.Logic.{inl, inr, ◌≢◌, ◌⊎◌}
use mathlib.Core.Option.{none, some}
use mathlib.Core.Path.{ap, refl, subst, sym, ◌∙◌, ◌≡◌}
use native.Mathlib.Omega.{arith}
use counterpoint_living_deci.Base.Lists.{All, filter, find}
use counterpoint_living_deci.Base.Tests.{
  Bool-cases, Eq, if◌then◌else◌, nat_eq, option_eq, string_eq,
}
use counterpoint_living_deci.Base.Unique.{Distinct}

module _ {ℓ} {A : Type ℓ} where
  -- What holds of each entry that is there.
  pub All-of_Mem {κ} : {P : A → Type κ} (xs : List A) → ((a : A) → Memᴰ a xs → P a) → All P xs
  All-of_Mem [] h = tt
  All-of_Mem (x ∷ xs) h = (h x (Memᴰ.head refl), All-of_Mem xs (λ a m. h a (Memᴰ.tail m)))

  pub All-lookup {κ} : (P : A → Type κ) (xs : List A) (a : A) → All P xs → Memᴰ a xs → P a
  All-lookup P [] a h m = elim m [ ]
  All-lookup P (x ∷ xs) a h (Memᴰ.head e) = subst P (sym e) h.0
  All-lookup P (x ∷ xs) a h (Memᴰ.tail m) = All-lookup P xs a h.1 m

  pub All-map {κ μ} :
      {P : A → Type κ} {Q : A → Type μ} (xs : List A) → ((a : A) → P a → Q a) → All P xs → All Q xs
  All-map [] f h = tt
  All-map (x ∷ xs) f h = (f x h.0, All-map xs f h.1)

  filter_cons :
      (p : A → Bool) (x a : A) (rest : List A) (b : Bool)
      → p x ≡ b
      → Memᴰ a (if b then x ∷ rest else rest)
      → ((p a ≡ true) × (a ≡ x)) ⊎ Memᴰ a rest
  filter_cons p x a rest true e (Memᴰ.head s) = inl (ap p s ∙ e, s)
  filter_cons p x a rest true e (Memᴰ.tail m) = inr m
  filter_cons p x a rest false e m = inr m

  pub Mem_of_filter :
      (p : A → Bool) (xs : List A) (a : A) → Memᴰ a (filter p xs) → Memᴰ a xs × (p a ≡ true)
  unfolding filter
  Mem_of_filter p [] a m = elim m [ ]
  Mem_of_filter p (x ∷ xs) a m = elim (filter_cons p x a (filter p xs) (p x) refl m) [
    | inl (h, s) ↦ (Memᴰ.head s, h)
    | inr m' ↦ let (m'', h) = Mem_of_filter p xs a m' in (Memᴰ.tail m'', h)
  ]

  cons_filter :
      (x a : A) (rest : List A) (b : Bool)
      → ((a ≡ x) × (b ≡ true)) ⊎ Memᴰ a rest
      → Memᴰ a (if b then x ∷ rest else rest)
  cons_filter x a rest true (inl h) = Memᴰ.head h.0
  cons_filter x a rest true (inr m) = Memᴰ.tail m
  cons_filter x a rest false (inl h) = cc (h.1)
  cons_filter x a rest false (inr m) = m

  pub filter_of_Mem :
      (p : A → Bool) (xs : List A) (a : A) → Memᴰ a xs → p a ≡ true → Memᴰ a (filter p xs)
  unfolding filter
  filter_of_Mem p [] a m h = elim m [ ]
  filter_of_Mem p (x ∷ xs) a (Memᴰ.head s) h =
      cons_filter x a (filter p xs) (p x) (inl (s, ap p (sym s) ∙ h))
  filter_of_Mem p (x ∷ xs) a (Memᴰ.tail m) h =
      cons_filter x a (filter p xs) (p x) (inr (filter_of_Mem p xs a m h))

  pub filter_none : (p : A → Bool) (xs : List A) → All (λ a. p a ≡ false) xs → filter p xs ≡ []
  unfolding filter
  filter_none p [] h = refl
  filter_none p (x ∷ xs) h = rw (h.0, filter_none p xs h.1)

module _ {ℓ κ} {A : Type ℓ} {B : Type κ} where
  pub map_of_Mem : (f : A → B) (xs : List A) (a : A) → Memᴰ a xs → Memᴰ (f a) (map f xs)
  map_of_Mem f [] a m = elim m [ ]
  map_of_Mem f (x ∷ xs) a (Memᴰ.head s) = Memᴰ.head (ap f s)
  map_of_Mem f (x ∷ xs) a (Memᴰ.tail m) = Memᴰ.tail (map_of_Mem f xs a m)

  pub Mem_of_map :
      (f : A → B) (xs : List A) (b : B) → Memᴰ b (map f xs) → (a : A) × Memᴰ a xs × (f a ≡ b)
  Mem_of_map f [] b m = elim m [ ]
  Mem_of_map f (x ∷ xs) b (Memᴰ.head s) = (x, Memᴰ.head refl, sym s)
  Mem_of_map f (x ∷ xs) b (Memᴰ.tail m) =
      let (a, m', e) = Mem_of_map f xs b m in (a, Memᴰ.tail m', e)

  -- Two entries with one key are one entry.
  pub eq_of_key :
      ⦃e : Eq B⦄ (key : A → B) (xs : List A) (a b : A)
      → Distinct (map key xs)
      → Memᴰ a xs
      → Memᴰ b xs
      → key a ≡ key b
      → a ≡ b
  eq_of_key key [] a b h m n k = elim m [ ]
  eq_of_key key (x ∷ xs) a b h (Memᴰ.head s) (Memᴰ.head t) k = s ∙ sym t
  eq_of_key key (x ∷ xs) a b h (Memᴰ.head s) (Memᴰ.tail n) k = absurd (
      All-lookup (λ y. key x ≢ y) (map key xs) (key b) h.0 (map_of_Mem key xs b n)
        (ap key (sym s) ∙ k))
  eq_of_key key (x ∷ xs) a b h (Memᴰ.tail m) (Memᴰ.head t) k = absurd (
      All-lookup (λ y. key x ≢ y) (map key xs) (key a) h.0 (map_of_Mem key xs a m)
        (ap key (sym t) ∙ sym k))
  eq_of_key key (x ∷ xs) a b h (Memᴰ.tail m) (Memᴰ.tail n) k = eq_of_key key xs a b h.1 m n k

module _ {ℓ} {A : Type ℓ} where
  pub find-none : (p : A → Bool) (xs : List A) → find p xs ≡ none → All (λ x. p x ≡ false) xs
  unfolding find
  find-none p [] h = tt
  find-none p (x ∷ xs) h = elim (Bool-cases (p x)) [
    | inl e ↦ ground (arith, e)
    | inr e ↦ (e, find-none p xs (ground (arith, e)))
  ]

  pub none_of_All : (p : A → Bool) (xs : List A) → All (λ x. p x ≡ false) xs → find p xs ≡ none
  unfolding find
  none_of_All p [] h = refl
  none_of_All p (x ∷ xs) h = rw (h.0, none_of_All p xs h.1)

  pub find-some :
      (p : A → Bool) (xs : List A) (a : A) → find p xs ≡ some a → Memᴰ a xs × (p a ≡ true)
  unfolding find
  find-some p [] a h = cc
  find-some p (x ∷ xs) a h = elim (Bool-cases (p x)) [
    | inl e ↦
        let same : x ≡ a = ground (arith, e) in
        (Memᴰ.head (sym same), subst (λ y. p y ≡ true) same e)
    | inr e ↦ let (m, q) = find-some p xs a (ground (arith, e)) in (Memᴰ.tail m, q)
  ]

  pub find-append :
      (p : A → Bool) (xs ys : List A)
      → find p (xs ++ ys) ≡ elim (find p xs) [ none ↦ find p ys | some a ↦ some a ]
  unfolding find
  find-append p [] ys = refl
  find-append p (x ∷ xs) ys = ground (arith, find-append p xs ys)

  pub All-snoc {κ} : (P : A → Type κ) (xs : List A) (x : A) → All P xs → P x → All P (xs ++ x ∷ [])
  All-snoc P [] x h p = (p, tt)
  All-snoc P (y ∷ ys) x h p = (h.0, All-snoc P ys x h.1 p)

  pub Distinct-snoc :
      ⦃e : Eq A⦄ (xs : List A) (x : A) → Distinct xs → All (λ y. y ≢ x) xs → Distinct (xs ++ x ∷ [])
  Distinct-snoc [] x d h = (tt, tt)
  Distinct-snoc (y ∷ ys) x d h = (All-snoc (λ z. y ≢ z) ys x d.0 h.0, Distinct-snoc ys x d.1 h.1)

pub All-map_of {ℓ κ μ} :
    {A : Type ℓ} {B : Type κ} (P : B → Type μ) (f : A → B) (xs : List A)
    → All (λ x. P (f x)) xs
    → All P (map f xs)
All-map_of P f [] h = tt
All-map_of P f (x ∷ xs) h = (h.0, All-map_of P f xs h.1)

pub map-snoc {ℓ κ} :
    {A : Type ℓ} {B : Type κ} (f : A → B) (xs : List A) (x : A)
    → map f (xs ++ x ∷ []) ≡ map f xs ++ f x ∷ []
map-snoc f [] x = refl
map-snoc f (y ∷ ys) x = rw (map-snoc f ys x)
