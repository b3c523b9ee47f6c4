-- ===== src/Common/Slice.antt =====
-- Rust's slicing: a bound out of range panics.
use Prim.Native.Nat.{ℕ}
use mathlib.Core.List.{List}
use pccs_rs.Common.Tests.{ltb, if◌then◌else◌}
use pccs_rs.Common.Lists.{length, take, drop}
use pccs_rs.Common.Result.{Result, ok, panic}

module _ {E A : Type 0} where
  -- `&xs[..end]`
  abbrev pub slice_to : ℕ → List A → Result E (List A)
  slice_to end xs = if ltb (length xs) end then panic else ok (take end xs)

  -- `&xs[start..]`
  abbrev pub slice_from : ℕ → List A → Result E (List A)
  slice_from start xs = if ltb (length xs) start then panic else ok (drop start xs)
