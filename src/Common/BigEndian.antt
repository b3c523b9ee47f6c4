-- ===== src/Common/BigEndian.antt =====
-- Bytes as the digits of a number, and tests that are decided by evaluation over a range.
use Prim.Native.Nat.{ℕ, zero, suc, ◌+◌, ◌*◌, ◌^◌, ◌≤◌, ◌<◌}
use mathlib.Core.Path.{◌≡◌}
use mathlib.Core.Bool.{Bool, true, false}
use mathlib.Core.List.{List, [], ◌∷◌}
use native.Mathlib.Omega.{arith}
use pccs_rs.Common.Tests.{if◌then◌else◌}
use pccs_rs.Common.Lists.{length}

-- The number that bytes stand for, the most significant first: each counts by its place.
unfoldable pub be_value : List ℕ → ℕ
be_value [] = 0
be_value (b ∷ bs) = b * 256 ^ length bs + be_value bs

pub power_pos : (k : ℕ) → 1 ≤ 256 ^ k
power_pos zero = omega arith
power_pos (suc k) = omega (arith, power_pos k)

pub le_mul : (x k : ℕ) → 1 ≤ k → x ≤ x * k
le_mul x zero h = absurd (omega arith)
le_mul x (suc k) h = grind arith

pub next_place : (v b n m : ℕ) → (v * 256 + b) * 256 ^ n + m ≡ v * 256 ^ suc n + (b * 256 ^ n + m)
next_place v b n m =
    let scale : (k v b m : ℕ) → (v * 256 + b) * k + m ≡ v * (256 * k) + (b * k + m) =
      λ k v b m. grind arith in
    let power : 256 ^ suc n ≡ 256 * 256 ^ n = omega arith in rw power (scale (256 ^ n) v b m)

-- A test that holds at every number below a bound.
unfoldable pub holds_to : (ℕ → Bool) → ℕ → Bool
holds_to test zero = true
holds_to test (suc bound) = if holds_to test bound then test bound else false

pub holds_to_lem :
    (test : ℕ → Bool) (bound b : ℕ) → b < bound → holds_to test bound ≡ true → test b ≡ true
unfolding holds_to
holds_to_lem test zero b less h = absurd (omega arith)
holds_to_lem test (suc bound) b less h = ground (arith, holds_to_lem test bound b)
