-- ===== src/Prelude/Round.antt =====
-- Clearing the low bits of a word by `& !(2 ^ k - 1)`.
use Prim.Native.Nat.{ℕ, zero, suc, ◌+◌, ◌-◌, ◌*◌, ◌/◌, ◌%◌, ◌^◌, ◌≤◌, ◌<◌, bit_and}
use mathlib.Core.Path.{◌≡◌, ap, ◌∙◌}
use native.Mathlib.Omega.{arith}
use native.Mathlib.Nat.{pow-suc, one-le-pow, div-mul-le_self, mod-eq_of_lt, pow-le-pow_right}
use rkyv_utils.Prelude.Usize.{usize_mod, bit_not}
use rkyv_utils.Prelude.Bits.{and_mask, and_high_split}

pow_cong : {m n : ℕ} → m ≡ n → 2 ^ m ≡ 2 ^ n
pow_cong e = ap (λ (t : ℕ). 2 ^ t) e

pow_add : (j k : ℕ) → 2 ^ (j + k) ≡ 2 ^ j * 2 ^ k
pow_add j zero = let e : j + 0 ≡ j = omega arith in omega (arith, pow_cong e)
pow_add j (suc k) =
    let e : j + suc k ≡ suc (j + k) = omega arith in
    grind (arith, pow_cong e, pow-suc 2 (j + k), pow-suc 2 k, pow_add j k)

pub pow_split : (n k : ℕ) → k ≤ n → 2 ^ n ≡ 2 ^ (n - k) * 2 ^ k
pow_split n k h = let e : n ≡ n - k + k = omega arith in pow_cong e ∙ pow_add (n - k) k

clear_low : (a b n : ℕ) → 0 < a → 0 < b → n ≡ a * b → n - 1 - (b - 1) ≡ (a - 1) * b
clear_low zero b n p q e = absurd (omega arith)
clear_low (suc a) b n p q e = let e' : suc a - 1 ≡ a = omega arith in rw e' (omega arith)

not_low : (k : ℕ) → k < 64 → bit_not (2 ^ k - 1) ≡ (2 ^ (64 - k) - 1) * 2 ^ k
not_low k h =
    clear_low (2 ^ (64 - k)) (2 ^ k) (2 ^ 64) (one-le-pow (64 - k) 2 (omega arith))
      (one-le-pow k 2 (omega arith)) (pow_split 64 k (omega arith))

div-pow-lt : (k x : ℕ) → k < 64 → x < usize_mod → x / 2 ^ k < 2 ^ (64 - k)
div-pow-lt k x h small =
    grind (arith, pow_split 64 k (omega arith), div-mul-le_self x (2 ^ k), one-le-pow k 2)

-- A word with its low `k` bits cleared.
pub bit_and_not_low :
    (k x : ℕ) → k < 64 → x < usize_mod → bit_and x (bit_not (2 ^ k - 1)) ≡ x / 2 ^ k * 2 ^ k
bit_and_not_low k x h small = ground (
  arith,
  not_low k h,
  one-le-pow k 2,
  and_high_split k (x / 2 ^ k) (x % 2 ^ k) (2 ^ (64 - k) - 1),
  and_mask (64 - k) (x / 2 ^ k),
  mod-eq_of_lt (div-pow-lt k x h small),
)

pub two_pow_bounds : (k : ℕ) → k < 64 → (1 ≤ 2 ^ k) × (2 ^ k ≤ 2 ^ 63)
two_pow_bounds k h = (
  one-le-pow k 2 (omega arith),
  pow-le-pow_right {n = 2} (omega arith) {i = k} {j = 63} (omega arith),
)
