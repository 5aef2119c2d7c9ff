-- ===== src/Values/Numbers.antt =====
-- What the checked integers and ranges of values.ts are.
use native.Mathlib.Nat.{
  div-add-mod', le_of_mul-le-mul_right, mul-div_left, mul-le-mul_right, mul-mod_left,
}
use counterpoint_living_deci.Base.{
  ap, arith, err, false, if◌then◌else◌, invalid_domain_value, leb, ok, suc, true, ℕ, ◌%◌, ◌&&◌, ◌*◌,
  ◌/◌, ◌<◌, ◌↔◌, ◌≡◌, ◌≤◌,
}
use counterpoint_living_deci.Values.{
  Number, TextRange, is_below, is_safe_integer, max_safe_integer, minus, not_finite, of_ℕ,
  opaque_integer, ratio, revision_number, text_range, to_ℕ,
}

-- The number is the natural number `k`.
abbrev pub Is : Number → ℕ → Type 0
Is (ratio n d) k = n ≡ k * suc d
Is (minus n d) k = (n ≡ 0) × (k ≡ 0)
Is not_finite k = ⊥

whole-quotient : (n d k : ℕ) → n % suc d ≡ 0 → n / suc d ≡ k → n ≡ k * suc d
whole-quotient n d k r q = omega (arith, div-add-mod' n (suc d), ap (λ (t : ℕ). t * suc d) q)

multiple-rem-quotient : (n d k : ℕ) → n ≡ k * suc d → (n % suc d ≡ 0) × (n / suc d ≡ k)
multiple-rem-quotient n d k e =
    (rw e (mul-mod_left k (suc d)), rw e (mul-div_left k {n = suc d} (omega arith)))

-- The tests on a fraction, and what they mean for its value `k`.
fraction_iff :
    (n d m k : ℕ)
    → ((n % suc d ≡ 0) × (n / suc d ≤ max_safe_integer) × (m * suc d ≤ n) × (n / suc d ≡ k))
      ↔ ((n ≡ k * suc d) × (m ≤ k) × (k ≤ max_safe_integer))
fraction_iff n d m k = (
  (λ h.
      let e = whole-quotient n d k h.0 h.3 in
      (e, le_of_mul-le-mul_right {k = suc d} (rw (← e) h.2) (omega arith), omega arith)),
  λ h.
      let f = multiple-rem-quotient n d k h.0 in
      (f.0, omega arith, rw h.0 (mul-le-mul_right (suc d) h.1), f.1),
)

-- A number is accepted, and is then the result, exactly when it is an integer from `m` to
-- `Number.MAX_SAFE_INTEGER`.
pub opaque_integer_iff :
    (v : Number) (m k : ℕ)
    → (opaque_integer v m ≡ ok k) ↔ (Is v k × (m ≤ k) × (k ≤ max_safe_integer))
unfolding opaque_integer is_safe_integer is_below to_ℕ
opaque_integer_iff (ratio n d) m k =
    let f = fraction_iff n d m k in
    (
      (λ h. f.0 (ground arith, ground arith, ground arith, ground arith)),
      λ h. ground (arith, f.1 h),
    )
opaque_integer_iff (minus n d) m k =
    ((λ h. ((ground arith, ground arith), ground arith, ground arith)), λ h. grind arith)
opaque_integer_iff not_finite m k = ground arith

pub revision_number-of_ℕ :
    (n : ℕ)
    → revision_number (of_ℕ n)
      ≡ (if leb 1 n && leb n max_safe_integer then ok n else err invalid_domain_value)
unfolding revision_number is_safe_integer is_below to_ℕ
revision_number-of_ℕ n = ground arith

-- The tests that `opaque_integer` and `text_range` share.
pub checked_iff :
    (v : Number) (k : ℕ)
    → ((is_safe_integer v ≡ true) × (is_below v 0 ≡ false) × (to_ℕ v ≡ k))
      ↔ (Is v k × (k ≤ max_safe_integer))
unfolding opaque_integer
checked_iff v k =
    let f = opaque_integer_iff v 0 k in
    (
      (λ h. let r = f.0 (ground arith) in (r.0, r.2)),
      λ h. ground (arith, f.1 (h.0, omega arith, h.1)),
    )

-- A range is accepted exactly when both offsets are safe natural numbers and the end is beyond the
-- start; the result holds these two numbers.
pub text_range_iff :
    (s e : Number) (r : TextRange)
    → (text_range s e ≡ ok r)
      ↔ (Is s r.start × Is e r.end × (r.start < r.end) × (r.end ≤ max_safe_integer))
unfolding text_range
text_range_iff s e r =
    let f = checked_iff s r.start in
    let g = checked_iff e r.end in
    (
      (λ h.
          let a = f.0 (ground arith) in
          let b = g.0 (ground arith) in (a.0, b.0, ground arith, b.1)),
      λ h. ground (arith, f.1 (h.0, omega arith), g.1 (h.1, h.3)),
    )
