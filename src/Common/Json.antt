-- ===== src/Common/Json.antt =====
-- `serde_json::Value`, a library type: the accessors that the code calls, as an interface.
use pccs_rs.Common.Text.{Text}
use pccs_rs.Common.Int.{ℤ}
use Prim.Native.Nat.{ℕ}
use mathlib.Core.Bool.{Bool}
use mathlib.Core.Option.{Option}
use mathlib.Core.List.{List}

-- `get` with a string key, `as_str`, `as_i64`, `as_u64`, `as_bool`, `as_array`, `is_object` and the
-- test for `Value::Null`. Texts are bytes.
pub record JsonApi : Type 1 where
  pub Value : Type 0
  pub get : Value → Text → Option Value
  pub as_str : Value → Option Text
  pub as_i64 : Value → Option ℤ
  pub as_u64 : Value → Option ℕ
  pub as_bool : Value → Option Bool
  pub as_array : Value → Option (List Value)
  pub is_object : Value → Bool
  pub is_null : Value → Bool
