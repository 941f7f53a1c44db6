-- ===== src/Layout/Padding.antt =====
-- The padding by masks is the padding by division.
use native.Mathlib.Nat.{div-add-mod, mod-lt, mul-mod_left, div-mul-le_self}
use rkyv_utils.Prelude.{
  ℕ, ◌+◌, ◌-◌, ◌/◌, ◌%◌, ◌^◌, ◌≤◌, ◌<◌, ◌≡◌, arith, isize_max, bit_not, bit_and, bit_and_not_low,
  two_pow_bounds, wrapping_sub, wrapping_add,
}
use rkyv_utils.Layout.{Layout, padding_needed_for, round_up}

round_up_bounds :
    (n a : ℕ) → 0 < a → (n ≤ round_up n a) × (round_up n a < n + a) × (round_up n a % a ≡ 0)
round_up_bounds n a h = (
  grind (arith, div-add-mod (n + a - 1) a, mod-lt (n + a - 1) h),
  grind (arith, div-mul-le_self (n + a - 1) a),
  mul-mod_left ((n + a - 1) / a) a,
)

-- Sizes of layouts are far below the word's limit, so nothing wraps.
sum_plain :
    (n a : ℕ) → n ≤ isize_max → 1 ≤ a → a ≤ 2 ^ 63 → wrapping_sub (wrapping_add n a) 1 ≡ n + a - 1
sum_plain n a h low high = omega arith

rounded :
    (n k : ℕ)
    → n ≤ isize_max
    → k < 64
    → bit_and (wrapping_sub (wrapping_add n (2 ^ k)) 1) (bit_not (wrapping_sub (2 ^ k) 1))
      ≡ round_up n (2 ^ k)
rounded n k h small =
    let bounds = two_pow_bounds k small in
    let mask : wrapping_sub (2 ^ k) 1 ≡ 2 ^ k - 1 = omega arith in
    rw (sum_plain n (2 ^ k) h bounds.0 bounds.1, mask)
      (bit_and_not_low k (n + 2 ^ k - 1) small (omega arith))

pub round_up_fits :
    (n k : ℕ)
    → n ≤ isize_max
    → k < 64
    → (n ≤ round_up n (2 ^ k)) × (round_up n (2 ^ k) < n + 2 ^ k) × (round_up n (2 ^ k) % 2 ^ k ≡ 0)
round_up_fits n k h small = round_up_bounds n (2 ^ k) (two_pow_bounds k small).0

pub padding_needed_for-round_up :
    (l : Layout) (k : ℕ)
    → l.size ≤ isize_max
    → k < 64
    → padding_needed_for l (2 ^ k) ≡ round_up l.size (2 ^ k) - l.size
unfolding padding_needed_for
padding_needed_for-round_up l k h small =
    let up = round_up_fits l.size k h small in
    let bounds = two_pow_bounds k small in rw (rounded l.size k h small) (omega arith)

-- The padding reaches a multiple of the alignment and is smaller than the alignment, for the size
-- of a valid layout and a power of two below 2^64.
pub padding_needed_for_least :
    (l : Layout) (k : ℕ)
    → l.size ≤ isize_max
    → k < 64
    → ((l.size + padding_needed_for l (2 ^ k)) % 2 ^ k ≡ 0) × (padding_needed_for l (2 ^ k) < 2 ^ k)
padding_needed_for_least l k h small =
    let up = round_up_fits l.size k h small in
    let eq : l.size + (round_up l.size (2 ^ k) - l.size) ≡ round_up l.size (2 ^ k) = omega arith in
    rw (padding_needed_for-round_up l k h small) (rw eq up.2, omega arith)
