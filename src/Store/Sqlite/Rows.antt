-- ===== src/Store/Sqlite/Rows.antt =====
-- The rows of one meeting: numbered from 1 in the order of insertion, and what the queries make of
-- them.
use mathlib.Core.Path.{subst}
use counterpoint_living_deci.Base.{
  All, Bool, Bool-cases, List, Result, [], ap, arith, filter, inl, inr, last, length, ok, refl, suc,
  traverse, traverse-cons, true, ℕ, ◌++◌, ◌+◌, ◌<◌, ◌∷◌, ◌≡◌, ◌≤◌,
}
use counterpoint_living_deci.Base.Keys.{All-map}
use counterpoint_living_deci.Store.Sqlite.Tables.{
  EventRow, insert_by_position, max_position, order_by_position,
}

-- The rows hold the positions that follow `last`, in order.
abbrev pub Numbered : ℕ → List EventRow → Type 0
Numbered last [] = Unit {0}
Numbered last (row ∷ rows) = (row.position ≡ last + 1) × Numbered (last + 1) rows

-- The positions rise, from above `low`.
abbrev pub Ascending : ℕ → List EventRow → Type 0
Ascending low [] = Unit {0}
Ascending low (row ∷ rows) = (low < row.position) × Ascending row.position rows

pub Ascending-le :
    (low high : ℕ) (rows : List EventRow) → low ≤ high → Ascending high rows → Ascending low rows
Ascending-le low high [] l h = tt
Ascending-le low high (row ∷ rows) l h = (omega arith, h.1)

pub Numbered-Ascending :
    (last : ℕ) (rows : List EventRow) → Numbered last rows → Ascending last rows
Numbered-Ascending last [] h = tt
Numbered-Ascending last (row ∷ rows) h =
    (omega arith, rw (h.0) (Numbered-Ascending (last + 1) rows h.1))

pub Ascending-filter :
    (p : EventRow → Bool) (low : ℕ) (rows : List EventRow)
    → Ascending low rows
    → Ascending low (filter p rows)
unfolding filter
Ascending-filter p low [] h = tt
Ascending-filter p low (row ∷ rows) h =
    let ih = Ascending-filter p row.position rows h.1 in
    elim (Bool-cases (p row)) [
      | inl e ↦ rw e (h.0, ih)
      | inr e ↦ rw e (Ascending-le low row.position (filter p rows) (omega arith) ih)
    ]

pub insert_by_position-Ascending :
    (row : EventRow) (rows : List EventRow)
    → Ascending row.position rows
    → insert_by_position row rows ≡ row ∷ rows
unfolding insert_by_position
insert_by_position-Ascending row [] h = refl
insert_by_position-Ascending row (next ∷ rest) h = ground arith

pub order_by_position-Ascending :
    (low : ℕ) (rows : List EventRow) → Ascending low rows → order_by_position rows ≡ rows
unfolding order_by_position
order_by_position-Ascending low [] h = refl
order_by_position-Ascending low (row ∷ rows) h =
    rw (order_by_position-Ascending row.position rows h.1)
      (insert_by_position-Ascending row rows h.1)

pub max_position-Numbered :
    (last : ℕ) (rows : List EventRow)
    → Numbered last rows
    → max_position last rows ≡ last + length rows
unfolding max_position
max_position-Numbered last [] h = omega arith
max_position-Numbered last (row ∷ rows) h =
    let ih = max_position-Numbered (last + 1) rows h.1 in ground (arith, ih)

pub Numbered-append :
    (last : ℕ) (rows more : List EventRow)
    → Numbered last rows
    → Numbered (last + length rows) more
    → Numbered last (rows ++ more)
Numbered-append last [] more h k = subst (λ n. Numbered n more) (omega arith) k
Numbered-append last (row ∷ rows) more h k =
    (h.0, Numbered-append (last + 1) rows more h.1 (subst (λ n. Numbered n more) (omega arith) k))

pub Numbered-bounded :
    (last : ℕ) (rows : List EventRow)
    → Numbered last rows
    → All (λ row. (last < row.position) × (row.position ≤ last + length rows)) rows
Numbered-bounded last [] h = tt
Numbered-bounded last (row ∷ rows) h = (
  (omega arith, omega arith),
  All-map rows (λ r b. (omega arith, omega arith)) (Numbered-bounded (last + 1) rows h.1),
)

pub filter-append {ℓ} :
    {A : Type ℓ} (p : A → Bool) (xs ys : List A) → filter p (xs ++ ys) ≡ filter p xs ++ filter p ys
unfolding filter
filter-append p [] ys = refl
filter-append p (x ∷ xs) ys = elim (Bool-cases (p x)) [
  | inl e ↦ rw (e, filter-append p xs ys)
  | inr e ↦ rw (e, filter-append p xs ys)
]

pub filter-All {ℓ} :
    {A : Type ℓ} (p : A → Bool) (xs : List A) → All (λ x. p x ≡ true) xs → filter p xs ≡ xs
unfolding filter
filter-All p [] h = refl
filter-All p (x ∷ xs) h = rw (h.0, filter-All p xs h.1)

pub traverse-append {ℓ κ} :
    {A : Type ℓ} {B : Type κ} (f : A → Result B) (xs ys : List A) {us vs : List B}
    → traverse f xs ≡ ok us
    → traverse f ys ≡ ok vs
    → traverse f (xs ++ ys) ≡ ok (us ++ vs)
unfolding traverse
traverse-append f [] ys {us} {vs} h k = let e : [] ≡ us = cc in rw (← e) k
traverse-append f (x ∷ xs) ys {us} {vs} h k =
    let (u, us', e, e', same) = traverse-cons f x xs us h in
    rw (← same) (rw (e, traverse-append f xs ys e' k))

-- What one function writes and the other reads back, entry by entry.
pub traverse-inverse {ℓ κ} :
    {A : Type ℓ} {B : Type κ} (f : A → Result B) (g : B → Result A)
    → ((x : A) (y : B) → f x ≡ ok y → g y ≡ ok x)
    → (xs : List A) (ys : List B) → traverse f xs ≡ ok ys
    → traverse g ys ≡ ok xs
unfolding traverse
traverse-inverse f g back [] ys h = let e : [] ≡ ys = cc in rw (← e) refl
traverse-inverse f g back (x ∷ xs) ys h =
    let (y, rest, e, e', same) = traverse-cons f x xs ys h in
    rw (← same) (rw (back x y e, traverse-inverse f g back xs rest e'))

pub traverse-length {ℓ κ} :
    {A : Type ℓ} {B : Type κ} (f : A → Result B) (xs : List A) (ys : List B)
    → traverse f xs ≡ ok ys
    → length ys ≡ length xs
unfolding traverse
traverse-length f [] ys h = let e : [] ≡ ys = cc in rw (← e) refl
traverse-length f (x ∷ xs) ys h =
    let (y, rest, e, e', same) = traverse-cons f x xs ys h in
    rw (← same) (ap suc (traverse-length f xs rest e'))
