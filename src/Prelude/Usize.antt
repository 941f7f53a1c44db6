-- ===== src/Prelude/Usize.antt =====
-- The 64-bit `usize`: its bounds, and the operations of std that the source calls on it.
use Prim.Native.Nat.{ℕ, zero, suc, ◌+◌, ◌-◌, ◌%◌, ◌^◌, ◌<◌}
use mathlib.Core.Path.{◌≡◌, sym}
use mathlib.Core.Logic.{inl, inr}
use mathlib.Core.Bool.{Bool, true, false, ◌||◌}
use mathlib.Core.Option.{Option, none, some}
use native.Mathlib.Omega.{arith}
use rkyv_utils.Prelude.Tests.{ltb, ◌==◌, ==_iff, Bool-cases, if◌then◌else◌}

abbrev pub usize_bits : ℕ
usize_bits = 64

abbrev pub usize_mod : ℕ
usize_mod = 2 ^ 64

abbrev pub usize_max : ℕ
usize_max = usize_mod - 1

abbrev pub isize_max : ℕ
isize_max = 2 ^ 63 - 1

abbrev pub wrapping_add : ℕ → ℕ → ℕ
wrapping_add a b = (a + b) % usize_mod

abbrev pub wrapping_sub : ℕ → ℕ → ℕ
wrapping_sub a b = (a + usize_mod - b) % usize_mod

abbrev pub checked_add : ℕ → ℕ → Option ℕ
checked_add a b = if ltb (a + b) usize_mod then some (a + b) else none

abbrev pub bit_not : ℕ → ℕ
bit_not a = usize_max - a

-- `x` is `2 ^ k` for some `k` below the bound.
pub is_power_below : ℕ → ℕ → Bool
is_power_below zero x = false
is_power_below (suc k) x = (2 ^ k == x) || is_power_below k x

unfoldable pub is_power_of_two : ℕ → Bool
unfolding is_power_below
is_power_of_two x = is_power_below usize_bits x

is_power_below-exponent : (n x : ℕ) → is_power_below n x ≡ true → (k : ℕ) × (k < n) × (x ≡ 2 ^ k)
unfolding is_power_below
is_power_below-exponent zero x h = ground arith
is_power_below-exponent (suc n) x h = elim (Bool-cases (2 ^ n == x)) [
  | inl e ↦ (n, omega arith, sym ((==_iff (2 ^ n) x).0 e))
  | inr e ↦ let (k, below, eq) = is_power_below-exponent n x (ground arith) in (k, omega arith, eq)
]

pub is_power_of_two-exponent :
    (x : ℕ) → is_power_of_two x ≡ true → (k : ℕ) × (k < usize_bits) × (x ≡ 2 ^ k)
unfolding is_power_of_two
is_power_of_two-exponent x h = is_power_below-exponent usize_bits x h
