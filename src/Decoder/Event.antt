-- ===== src/Decoder/Event.antt =====
-- The events and their lenient fields, as they come out of the JSON parser
-- (apps/control-plane/src/decoder.rs).
use trunk_scope.Common.{
  ℕ, suc, Bool, false, ◌||◌, Option, [], ◌∷◌, ltb, filter_some, and_then, Text, codes, text_eq,
  eq_ignore_ascii_case, parse_uint, decimal, id_eq, text_key,
}
use trunk_scope.Common.Float.{F32, F64}
use trunk_scope.Common.Clock.{Time}
use trunk_scope.Common.Int.{ℤ, parse_i64}
use trunk_scope.Common.Json.{Number, pos_int, neg_int, float, is_nonzero_i64}

pub data FlexibleText : Type 0 where
  text : Text → FlexibleText
  numeral : Number → FlexibleText
  missing : FlexibleText

pub data FlexibleBool : Type 0 where
  flag : Bool → FlexibleBool
  word : Text → FlexibleBool
  count : Number → FlexibleBool
  absent : FlexibleBool

pub record DecoderCall : Type 0 where
  pub id : FlexibleText
  pub freq : FlexibleText
  pub short_name : FlexibleText
  pub talkgroup : FlexibleText
  pub talkgrouptag : FlexibleText
  pub phase2 : FlexibleBool
  pub is_encrypted : FlexibleBool  -- `encrypted`
  pub analog : FlexibleBool
  pub tone : FlexibleText
  pub signal : FlexibleText
  pub noise : FlexibleText
  pub start_time : FlexibleText
  pub stop_time : FlexibleText
  pub src_num : FlexibleText
  pub filename : FlexibleText

pub data StatusEvent : Type 0 where
  call_start call_end : DecoderCall → StatusEvent
  other : StatusEvent

-- What the code relies on and does not implement: rounding conversions of floats, and chrono's
-- moment of a Unix time, which there is none of out of its range.
pub record Conversions : Type 0 where
  pub parse_f32 : Text → Option F32
  pub parse_f64 : Text → Option F64
  pub round_to_u64 : F64 → ℕ  -- `.round() as u64`
  pub print_f64 : F64 → Text
  pub print_mhz : ℕ → Text  -- `{:.4}` of a frequency in Hz, over a million
  pub from_timestamp : ℤ → Option Time

module _ (x : Conversions) where
  unfoldable pub text_value : FlexibleText → Text
  unfolding decimal
  text_value (text value) = value
  text_value (numeral (pos_int n)) = decimal n
  text_value (numeral (neg_int n)) = b'-' ∷ decimal (suc n)
  text_value (numeral (float v)) = x.print_f64 v
  text_value missing = []

  -- `parse_epoch`
  unfoldable pub parse_epoch : Text → Option Time
  unfolding parse_i64
  parse_epoch value = and_then (parse_i64 value) x.from_timestamp

unfoldable pub bool_value : FlexibleBool → Bool
unfolding eq_ignore_ascii_case text_eq
bool_value (flag value) = value
bool_value (word value) = eq_ignore_ascii_case value (codes "true") || text_eq value (codes "1")
bool_value (count value) = is_nonzero_i64 value
bool_value absent = false

-- `parse_u32`: a positive 32-bit number.
unfoldable pub parse_u32 : Text → Option ℕ
unfolding parse_uint
parse_u32 value = filter_some (λ n. ltb 0 n) (parse_uint 4294967296 value)
