-- ===== src/Projection/Upsert/Laws.antt =====
-- What an upsert does to a list: by recursion, to a predicate on all entries, to a search, to the keys.
use counterpoint_living_deci.Base.{
  All, Bool, Bool-cases, List, [], arith, false, find, if◌then◌else◌, inl, inr, refl, some, true,
  ◌∷◌, ◌≡◌,
}
use counterpoint_living_deci.Projection.Upsert.{find_index, replace_at, upsert_where}

module _ {ℓ} {A : Type ℓ} where
  -- The search for an index and the write to it, as one recursion.
  pub upsert_where-nil : (p : A → Bool) (x : A) → upsert_where p [] x ≡ x ∷ []
  unfolding upsert_where
  upsert_where-nil p x = refl

  pub upsert_where-cons :
      (p : A → Bool) (y : A) (ys : List A) (x : A)
      → upsert_where p (y ∷ ys) x ≡ (if p y then x ∷ ys else y ∷ upsert_where p ys x)
  unfolding upsert_where find_index replace_at
  upsert_where-cons p y ys x = ground arith

  pub All-upsert {κ} :
      (P : A → Type κ) (p : A → Bool) (xs : List A) (x : A)
      → All P xs
      → P x
      → All P (upsert_where p xs x)
  All-upsert P p [] x h k = rw (upsert_where-nil p x) (k, tt)
  All-upsert P p (y ∷ ys) x h k = elim (Bool-cases (p y)) [
    | inl e ↦ rw (upsert_where-cons p y ys x) (rw e (k, h.1))
    | inr e ↦ rw (upsert_where-cons p y ys x) (rw e (h.0, All-upsert P p ys x h.1 k))
  ]

  -- The entry is found where it was put; a search that its key does not meet finds what it found.
  pub find-upsert_self :
      (p : A → Bool) (xs : List A) (x : A) → p x ≡ true → find p (upsert_where p xs x) ≡ some x
  unfolding find
  find-upsert_self p [] x h = rw (upsert_where-nil p x) (rw h refl)
  find-upsert_self p (y ∷ ys) x h = elim (Bool-cases (p y)) [
    | inl e ↦ rw (upsert_where-cons p y ys x) (rw e (rw h refl))
    | inr e ↦ rw (upsert_where-cons p y ys x) (rw e (rw e (find-upsert_self p ys x h)))
  ]

  pub find-upsert_other :
      (p q : A → Bool) (xs : List A) (x : A)
      → q x ≡ false
      → ((y : A) → p y ≡ true → q y ≡ false)
      → find q (upsert_where p xs x) ≡ find q xs
  unfolding find
  find-upsert_other p q [] x h k = rw (upsert_where-nil p x) (rw h refl)
  find-upsert_other p q (y ∷ ys) x h k = elim (Bool-cases (p y)) [
    | inl e ↦ rw (upsert_where-cons p y ys x) (rw e (rw (h, k y e) refl))
    | inr e ↦ rw (upsert_where-cons p y ys x) (rw e (rw (find-upsert_other p q ys x h k) refl))
  ]
