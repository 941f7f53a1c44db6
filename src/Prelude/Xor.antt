-- ===== src/Prelude/Xor.antt =====
-- `^` with all ones, as arithmetic.
use Prim.Native.Nat.{
  ℕ, zero, suc, ◌+◌, ◌-◌, ◌*◌, ◌/◌, ◌%◌, ◌^◌, ◌<◌, bit_xor, bit_xor-bitwise, differ,
}
use mathlib.Core.Path.{◌≡◌, refl, ap}
use native.Mathlib.Omega.{arith}
use native.Mathlib.Nat.{pow-suc, one-le-pow}
use rkyv_utils.Prelude.Bits.{digits_slack}

xor_low : (a b : ℕ) → bit_xor a b ≡ bit_xor (a / 2) (b / 2) * 2 + differ (a % 2) (b % 2)
xor_low zero b = omega (arith, bit_xor-bitwise 0 b, bit_xor-bitwise 0 (b / 2))
xor_low (suc a) b = omega (
  arith,
  bit_xor-bitwise (suc a) b,
  bit_xor-bitwise (suc a / 2) (b / 2),
  digits_slack (λ y. y) differ a (suc a / 2) (suc a / 2) (b / 2) (omega arith) (omega arith),
)

differ_one : (x : ℕ) → x < 2 → differ x 1 ≡ 1 - x
differ_one zero h = refl
differ_one (suc zero) h = refl
differ_one (suc (suc x)) h = absurd (omega arith)

-- The complement of a number of `k` bits.
pub xor_ones : (k a : ℕ) → a < 2 ^ k → bit_xor a (2 ^ k - 1) ≡ 2 ^ k - 1 - a
xor_ones zero a h = ground (arith, xor_low a 0)
xor_ones (suc k) a h =
    let double = pow-suc 2 k in
    let positive = one-le-pow k 2 (omega arith) in
    let odd : (2 ^ suc k - 1) % 2 ≡ 1 = omega arith in
    let half : (2 ^ suc k - 1) / 2 ≡ 2 ^ k - 1 = omega arith in
    omega (
      arith,
      xor_low a (2 ^ suc k - 1),
      ap (λ (x : ℕ). differ (a % 2) x) odd,
      ap (λ (x : ℕ). bit_xor (a / 2) x) half,
      differ_one (a % 2) (omega arith),
      xor_ones k (a / 2) (omega arith),
    )
