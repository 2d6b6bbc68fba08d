-- ===== src/Common/Json.antt =====
-- `serde_json::Value`, with an object as its members in order of insertion.
use Prim.Native.Nat.{ℕ}
use mathlib.Core.Bool.{Bool, true, false, ◌&&◌}
use mathlib.Core.Option.{Option, none, some}
use trunk_scope.Common.Tests.{if◌then◌else◌, ltb}
use mathlib.Core.Path.{◌≡◌, refl}
use native.Mathlib.Omega.{arith}
use trunk_scope.Common.Strings.{Text, text_eq, text_eq_iff}
use trunk_scope.Common.Float.{F64}

-- `serde_json::Number`: a non-negative integer, -(n + 1), or a float.
pub data Number : Type 0 where
  pos_int : ℕ → Number
  neg_int : ℕ → Number
  float : F64 → Number

mutual
  pub data Json : Type 0 where
    null : Json
    boolean : Bool → Json
    number : Number → Json
    string : Text → Json
    array : Items → Json
    object : Members → Json

  pub data Items : Type 0 where
    end : Items
    item : Json → Items → Items

  pub data Members : Type 0 where
    done : Members
    member : Text → Json → Members → Members

-- `object.insert(key, value)`.
unfoldable pub put_member : Text → Json → Members → Members
put_member k v done = member k v done
put_member k v (member j w m) =
    let rest = put_member k v m in if text_eq j k then member k v m else member j w rest

-- `object.get(key)`.
unfoldable pub find_member : Text → Members → Option Json
find_member k done = none
find_member k (member j w m) = let rest = find_member k m in if text_eq j k then some w else rest

-- A member that was put is found, and the others as before.
pub find_member-put_member :
    (k j : Text) (v : Json) (m : Members)
    → find_member k (put_member j v m) ≡ (if text_eq j k then some v else find_member k m)
unfolding find_member put_member
find_member-put_member k j v done = refl
find_member-put_member k j v (member i w m) =
    ground
      (arith, text_eq_iff i j, text_eq_iff i k, text_eq_iff j k, find_member-put_member k j v m)

-- `value.get(key)`.
abbrev pub get_key : Text → Json → Option Json
get_key k (object m) = find_member k m
get_key k _ = none

-- `Value::as_str`.
abbrev pub as_str : Json → Option Text
as_str (string text) = some text
as_str _ = none

-- `Number::as_i64`, compared with zero: false on a float and on a value above `i64::MAX`.
abbrev pub is_nonzero_i64 : Number → Bool
is_nonzero_i64 (pos_int n) = ltb 0 n && ltb n 9223372036854775808
is_nonzero_i64 (neg_int n) = true
is_nonzero_i64 (float x) = false
