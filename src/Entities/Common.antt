-- ===== src/Entities/Common.antt =====
-- The fields that every record has, its scope, and the checks that all constructors share.
use counterpoint_living_deci.Base.{
  Bool, Eq, List, Option, Result, String, arith, eq_of_tag, invalid_domain_value, ltb, nat_eq, none,
  not, ok, option_eq, some, string_eq, suc, throw_if, true, ℕ, ◌&&◌, ◌==◌, ◌>>◌, ◌||◌, ◌≡◌,
}
use counterpoint_living_deci.Base.Unique.{is_unique}
use counterpoint_living_deci.Values.{
  Number, is_below, is_safe_integer, minus, not_finite, ratio, to_ℕ,
}
use counterpoint_living_deci.Values.Ids.{MeetingId, ParticipantId, RevisionNumber, Timestamp}

pub data Visibility : Type 0 where
  private shared : Visibility

abbrev pub visibility_tag : Visibility → ℕ
visibility_tag private = 0
visibility_tag shared = 1

pub visibility_tag-injective : (a b : Visibility) → visibility_tag a ≡ visibility_tag b → a ≡ b
visibility_tag-injective a b h = ground arith

instance abbrev pub visibility_eq : Eq Visibility
visibility_eq = eq_of_tag visibility_tag visibility_tag-injective

pub data Origin : Type 0 where
  human_utterance human_input source_artifact ai_inference system : Origin

abbrev pub origin_tag : Origin → ℕ
origin_tag human_utterance = 0
origin_tag human_input = 1
origin_tag source_artifact = 2
origin_tag ai_inference = 3
origin_tag system = 4

pub origin_tag-injective : (a b : Origin) → origin_tag a ≡ origin_tag b → a ≡ b
origin_tag-injective a b h = ground arith

instance abbrev pub origin_eq : Eq Origin
origin_eq = eq_of_tag origin_tag origin_tag-injective

pub data ConfirmationStatus : Type 0 where
  not_applicable proposed confirmed rejected : ConfirmationStatus

abbrev pub confirmation_tag : ConfirmationStatus → ℕ
confirmation_tag not_applicable = 0
confirmation_tag proposed = 1
confirmation_tag confirmed = 2
confirmation_tag rejected = 3

pub confirmation_tag-injective :
    (a b : ConfirmationStatus) → confirmation_tag a ≡ confirmation_tag b → a ≡ b
confirmation_tag-injective a b h = ground arith

instance abbrev pub confirmation_eq : Eq ConfirmationStatus
confirmation_eq = eq_of_tag confirmation_tag confirmation_tag-injective

-- `CommonRecordFields & RecordScope`. The owner is there for a private record; `created_by` is a
-- participant's id or "system".
pub record CommonRecordFields : Type 0 where
  pub id : String
  pub meeting_id : MeetingId
  pub created_at : Timestamp
  pub created_by : String
  pub origin : Origin
  pub confirmation_status : ConfirmationStatus
  pub revision : RevisionNumber
  pub visibility : Visibility
  pub owner_participant_id : Option ParticipantId

-- `value === undefined || value.length === 0`.
abbrev pub is_missing : Option String → Bool
is_missing none = true
is_missing (some s) = s == ""

unfoldable pub assert_record_scope : CommonRecordFields → Result (Unit {0})
assert_record_scope r =
    throw_if (r.visibility == private && is_missing r.owner_participant_id) invalid_domain_value

unfoldable pub assert_common_record : CommonRecordFields → Result (Unit {0})
unfolding assert_record_scope
assert_common_record r = do assert_record_scope r; throw_if (r.id == "") invalid_domain_value

unfoldable pub assert_unique : List String → Result (Unit {0})
assert_unique values = throw_if (not (is_unique values)) invalid_domain_value

-- `!Number.isFinite(value) || value < 0 || value > 1`.
is_improper : Number → Bool
is_improper (ratio n d) = ltb (suc d) n
is_improper (minus n d) = ltb 0 n
is_improper not_finite = true

unfoldable pub assert_probability : Option Number → Result (Unit {0})
unfolding is_improper
assert_probability none = ok tt
assert_probability (some value) = throw_if (is_improper value) invalid_domain_value

abbrev pub size_limit : ℕ
size_limit = 20971520

-- `!Number.isSafeInteger(value) || value < 0 || value > 20 * 1024 * 1024`.
unfoldable pub assert_size : Number → Result (Unit {0})
assert_size value =
    throw_if (not (is_safe_integer value) || is_below value 0 || ltb size_limit (to_ℕ value))
      invalid_domain_value
