-- ===== src/Values/Times.antt =====
-- `timestamp` of packages/domain/src/values.ts, over the date parser of the runtime, and the texts of
-- templates.
use Prim.Native.Char.{code}
use counterpoint_living_deci.Base.{
  ==_refl, Bool, Option, Result, String, false, invalid_domain_value, nat_eq, none, not, ok,
  option_eq, refl, some, string_eq, throw_if, true, ℕ, ◌==◌, ◌>>◌, ◌||◌, ◌≡◌,
}
use counterpoint_living_deci.Values.Ids.{Timestamp}

unfoldable pub ends_with_z : String → Bool
ends_with_z String.[] = false
ends_with_z (String.◌∷◌ c String.[]) = code c == 90
ends_with_z (String.◌∷◌ c (String.◌∷◌ d s)) = ends_with_z (String.◌∷◌ d s)

-- `${first}${second}`.
unfoldable pub concat : String → String → String
concat String.[] second = second
concat (String.◌∷◌ c first) second = String.◌∷◌ c (concat first second)

-- `parse` is `Date.parse` in milliseconds, `none` where it is NaN, and `iso` is `toISOString`.
module _ (parse : Timestamp → Option ℕ) (iso : ℕ → Timestamp) where
  -- `new Date(value).toISOString() !== value`, with the test before it.
  abbrev pub is_canonical : String → Option ℕ → Bool
  is_canonical value none = false
  is_canonical value (some ms) = iso ms == value

  unfoldable pub timestamp : String → Result Timestamp
  unfolding ends_with_z
  timestamp value = do
    throw_if (not (ends_with_z value) || not (is_canonical value (parse value)))
        invalid_domain_value
    ok value

  -- What is written with a Z and read back is accepted as it is.
  pub timestamp-iso :
      (n : ℕ) → parse (iso n) ≡ some n → ends_with_z (iso n) ≡ true → timestamp (iso n) ≡ ok (iso n)
  unfolding timestamp
  timestamp-iso n read ends = rw (read, ends) (rw (==_refl (iso n)) refl)
