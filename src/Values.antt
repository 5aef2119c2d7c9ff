-- ===== src/Values.antt =====
-- packages/domain/src/values.ts: the validated texts and numbers that all records are made of.
pub mod Ids
pub mod Numbers
pub mod Texts
pub mod Times
use Prim.Native.Char.{code}
use Prim.Native.String.{String}
use counterpoint_living_deci.Base.{
  ℕ, suc, ◌-◌, ◌*◌, ◌/◌, ◌%◌, ◌+◌, Bool, true, false, ◌&&◌, ◌||◌, not, leb, ltb, ◌==◌, nat_eq,
  string_eq, if◌then◌else◌, Result, ok, err, Fault, invalid_domain_value, throw_if, ◌>>=◌, ◌>>◌,
}

-- The white space and line terminators that `String.prototype.trim` removes.
unfoldable pub is_space : ℕ → Bool
is_space c =
    (leb 9 c && leb c 13)
    || c == 32
    || c == 160
    || c == 5760
    || (leb 8192 c && leb c 8202)
    || c == 8232
    || c == 8233
    || c == 8239
    || c == 8287
    || c == 12288
    || c == 65279

unfoldable pub trim_start : String → String
trim_start String.[] = String.[]
trim_start (String.◌∷◌ c s) =
    let rest = trim_start s in if is_space (code c) then rest else String.◌∷◌ c s

-- Puts a character before a text that has been trimmed at its end.
unfoldable pub cons_end : ℕ → String → String → String
cons_end c whole String.[] = if is_space c then String.[] else whole
cons_end c whole (String.◌∷◌ d s) = whole

unfoldable pub trim_end : String → String
unfolding cons_end
trim_end String.[] = String.[]
trim_end (String.◌∷◌ c s) = let rest = trim_end s in cons_end (code c) (String.◌∷◌ c rest) rest

unfoldable pub trim : String → String
unfolding is_space trim_start trim_end
trim s = trim_end (trim_start s)

-- Every `…Id`, hash and non-empty text is made by this function.
unfoldable pub opaque_text : String → Result String
unfolding trim
opaque_text value =
    let normalized = trim value in
    do throw_if (normalized == "") invalid_domain_value; ok normalized

-- A JavaScript number: n / (d + 1), - n / (d + 1), or one that is not finite. Each finite double is
-- such a fraction.
pub data Number : Type 0 where
  ratio : ℕ → ℕ → Number
  minus : ℕ → ℕ → Number
  not_finite : Number

abbrev pub of_ℕ : ℕ → Number
of_ℕ n = ratio n 0

-- `Number.MAX_SAFE_INTEGER`.
abbrev pub max_safe_integer : ℕ
max_safe_integer = 9007199254740991

-- `Number.isSafeInteger`.
unfoldable pub is_safe_integer : Number → Bool
is_safe_integer (ratio n d) = n % suc d == 0 && leb (n / suc d) max_safe_integer
is_safe_integer (minus n d) = n % suc d == 0 && leb (n / suc d) max_safe_integer
is_safe_integer not_finite = false

-- `value < minimum` for a natural number; it is not read at a number that is not finite.
unfoldable pub is_below : Number → ℕ → Bool
is_below (ratio n d) m = ltb n (m * suc d)
is_below (minus n d) m = ltb 0 (m * suc d + n)
is_below not_finite m = false

-- The natural number that a checked value is; -0 counts as 0.
unfoldable pub to_ℕ : Number → ℕ
to_ℕ (ratio n d) = n / suc d
to_ℕ _ = 0

unfoldable pub opaque_integer : Number → ℕ → Result ℕ
opaque_integer value minimum = do
  throw_if (not (is_safe_integer value) || is_below value minimum) invalid_domain_value
  ok (to_ℕ value)

unfoldable pub meeting_position : Number → Result ℕ
unfolding opaque_integer
meeting_position value = opaque_integer value 0

unfoldable pub revision_number : Number → Result ℕ
unfolding opaque_integer
revision_number value = opaque_integer value 1

unfoldable pub schema_version : Number → Result ℕ
unfolding opaque_integer
schema_version value = opaque_integer value 1

pub record TextRange : Type 0 where
  pub start : ℕ
  pub end : ℕ

-- `end <= start` of two safe integers that are not negative.
unfoldable pub text_range : Number → Number → Result TextRange
text_range start end = do
  throw_if
      (not (is_safe_integer start)
        || not (is_safe_integer end)
        || is_below start 0
        || (is_below end 0 || leb (to_ℕ end) (to_ℕ start)))
      invalid_domain_value
  ok (record { start = to_ℕ start; end = to_ℕ end })
