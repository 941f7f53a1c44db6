-- ===== src/Prelude/Bits.antt =====
-- `&` with a mask and `|` of disjoint fields, as arithmetic at every width.
use Prim.Native.Nat.{
  ℕ, zero, suc, ◌+◌, ◌-◌, ◌*◌, ◌/◌, ◌%◌, ◌^◌, ◌≤◌, ◌<◌, min, max, bit_and, bit_or, digits,
  bit_and-bitwise, bit_or-bitwise,
}
use mathlib.Core.Path.{◌≡◌, refl, ap}
use native.Mathlib.Omega.{arith}
use native.Mathlib.Nat.{pow-suc, one-le-pow}

-- The digit recursion behind the native operations runs on fuel, and extra fuel changes nothing.
module _ (z : ℕ → ℕ) (f : ℕ → ℕ → ℕ) where
  pub digits_slack : (n m a b : ℕ) → a ≤ n → a ≤ m → digits z f n a b ≡ digits z f m a b
  digits_slack (suc n) (suc m) (suc a) b p q =
      omega (arith, digits_slack n m (suc a / 2) (b / 2) (omega arith) (omega arith))
  digits_slack (suc n) (suc m) zero b p q = refl
  digits_slack (suc n) zero zero b p q = refl
  digits_slack zero (suc m) zero b p q = refl
  digits_slack zero zero a b p q = refl
  digits_slack (suc n) zero (suc a) b p q = absurd (omega arith)
  digits_slack zero (suc m) (suc a) b p q = absurd (omega arith)

-- The lowest digit of `&` and of `|`.
and_low : (a b : ℕ) → bit_and a b ≡ bit_and (a / 2) (b / 2) * 2 + min (a % 2) (b % 2)
and_low zero b = omega (arith, bit_and-bitwise 0 b, bit_and-bitwise 0 (b / 2))
and_low (suc a) b = omega (
  arith,
  bit_and-bitwise (suc a) b,
  bit_and-bitwise (suc a / 2) (b / 2),
  digits_slack (λ y. 0) min a (suc a / 2) (suc a / 2) (b / 2) (omega arith) (omega arith),
)

or_low : (a b : ℕ) → bit_or a b ≡ bit_or (a / 2) (b / 2) * 2 + max (a % 2) (b % 2)
or_low zero b = omega (arith, bit_or-bitwise 0 b, bit_or-bitwise 0 (b / 2))
or_low (suc a) b = omega (
  arith,
  bit_or-bitwise (suc a) b,
  bit_or-bitwise (suc a / 2) (b / 2),
  digits_slack (λ y. y) max a (suc a / 2) (suc a / 2) (b / 2) (omega arith) (omega arith),
)

scale-suc : (q k : ℕ) → q * 2 ^ suc k ≡ q * 2 ^ k * 2
scale-suc q k = omega (arith, ap (λ (t : ℕ). q * t) (pow-suc 2 k))

-- By induction on a bound of `a`: zero shares nothing with `a` and adds nothing to it.
and_zero_below : (n a : ℕ) → a ≤ n → bit_and a 0 ≡ 0
and_zero_below n zero h = refl
and_zero_below zero (suc a) h = absurd (omega arith)
and_zero_below (suc n) (suc a) h =
    omega (arith, and_low (suc a) 0, and_zero_below n (suc a / 2) (omega arith))

or_zero_below : (n a : ℕ) → a ≤ n → bit_or a 0 ≡ a
or_zero_below n zero h = refl
or_zero_below zero (suc a) h = absurd (omega arith)
or_zero_below (suc n) (suc a) h =
    omega (arith, or_low (suc a) 0, or_zero_below n (suc a / 2) (omega arith))

pub bit_and-zero : (a : ℕ) → bit_and a 0 ≡ 0
bit_and-zero a = and_zero_below a a (omega arith)

pub bit_or-zero : (a : ℕ) → bit_or a 0 ≡ a
bit_or-zero a = or_zero_below a a (omega arith)

-- Low mask: `x & (2 ^ k - 1)` for `x` split at bit `k`.
and_mask_split : (k q r : ℕ) → r < 2 ^ k → bit_and (q * 2 ^ k + r) (2 ^ k - 1) ≡ r
and_mask_split zero q r h = ground (arith, bit_and-zero (q * 1 + r))
and_mask_split (suc k) q r h = ground (
  arith,
  and_low (q * 2 ^ suc k + r) (2 ^ suc k - 1),
  scale-suc q k,
  pow-suc 2 k,
  and_mask_split k q (r / 2) (omega (arith, pow-suc 2 k)),
)

pub and_mask : (k a : ℕ) → bit_and a (2 ^ k - 1) ≡ a % 2 ^ k
and_mask k a = ground (arith, one-le-pow k 2, and_mask_split k (a / 2 ^ k) (a % 2 ^ k))

-- High mask: the low `k` bits of the mask are clear.
pub and_high_split :
    (k q r m : ℕ) → r < 2 ^ k → bit_and (q * 2 ^ k + r) (m * 2 ^ k) ≡ bit_and q m * 2 ^ k
and_high_split zero q r m h = ground arith
and_high_split (suc k) q r m h = ground (
  arith,
  and_low (q * 2 ^ suc k + r) (m * 2 ^ suc k),
  scale-suc q k,
  scale-suc m k,
  scale-suc (bit_and q m) k,
  pow-suc 2 k,
  and_high_split k q (r / 2) m (omega (arith, pow-suc 2 k)),
)

-- Disjoint fields: `(q << k) | r` is a sum where `r` fits `k` bits.
pub or_fields : (k q r : ℕ) → r < 2 ^ k → bit_or (q * 2 ^ k) r ≡ q * 2 ^ k + r
or_fields zero q r h = ground (arith, bit_or-zero q)
or_fields (suc k) q r h = ground (
  arith,
  or_low (q * 2 ^ suc k) r,
  scale-suc q k,
  pow-suc 2 k,
  or_fields k q (r / 2) (omega (arith, pow-suc 2 k)),
)

or_comm_below : (n a b : ℕ) → a ≤ n → b ≤ n → bit_or a b ≡ bit_or b a
or_comm_below zero zero zero h k = refl
or_comm_below zero zero (suc b) h k = absurd (omega arith)
or_comm_below zero (suc a) b h k = absurd (omega arith)
or_comm_below (suc n) a b h k =
    omega
      (arith, or_low a b, or_low b a, or_comm_below n (a / 2) (b / 2) (omega arith) (omega arith))

pub bit_or_comm : (a b : ℕ) → bit_or a b ≡ bit_or b a
bit_or_comm a b = or_comm_below (a + b) a b (omega arith) (omega arith)
