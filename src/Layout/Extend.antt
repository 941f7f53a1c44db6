-- ===== src/Layout/Extend.antt =====
-- `LayoutHelper::extend` against `Layout::extend`.
use rkyv_utils.Prelude.{
  ℕ, ◌+◌, ◌^◌, ◌≤◌, ◌<◌, ◌≡◌, inl, inr, Bool-cases, some, arith, isize_max, is_power_of_two,
  is_power_of_two-exponent, two_pow_bounds,
}
use rkyv_utils.Layout.{
  Layout, IsLayout, from_size_align, from_size_alignment, std_extend, extend, padding_needed_for,
  round_up,
}
use rkyv_utils.Layout.Padding.{padding_needed_for-round_up, round_up_fits}

-- What `from_size_align` accepts are the layouts that std promises.
pub from_size_align-IsLayout :
    (size align : ℕ) {l : Layout} → from_size_align size align ≡ some l → IsLayout l
unfolding from_size_align
from_size_align-IsLayout size align {l} e = elim (Bool-cases (is_power_of_two align)) [
  | inl two ↦
      let (k, small, power) = is_power_of_two-exponent align two in
      record { exponent = k; power = ground arith; small = small; fits = ground arith }
  | inr other ↦ absurd (ground arith)
]

-- A valid layout's size and alignment, as plain bounds.
pub IsLayout-bounds :
    (l : Layout) → IsLayout l → (1 ≤ l.align) × (l.align ≤ 2 ^ 63) × (l.size ≤ isize_max)
IsLayout-bounds l v =
    let two = two_pow_bounds v.exponent v.small in (omega arith, omega arith, omega arith)

-- The padding of `next` behind `l` takes `l` up to the offset of std.
padding_behind :
    (l next : Layout)
    → IsLayout l
    → IsLayout next
    → (l.size + padding_needed_for l next.align ≡ round_up l.size next.align)
      × (l.size ≤ round_up l.size next.align)
      × (round_up l.size next.align < l.size + next.align)
padding_behind l next v w =
    let room = IsLayout-bounds l v in
    let up = round_up_fits l.size w.exponent room.2 w.small in
    rw w.power
      (rw (padding_needed_for-round_up l w.exponent room.2 w.small) (omega arith), up.0, up.1)

-- The constant `extend` computes what std's `Layout::extend` computes, and panics where that
-- returns an error.
pub extend-std_extend :
    (l next : Layout) → IsLayout l → IsLayout next → extend l next ≡ std_extend l next
unfolding extend std_extend from_size_alignment
extend-std_extend l next v w =
    let behind = padding_behind l next v w in
    let room = IsLayout-bounds l v in
    let room' = IsLayout-bounds next w in rw (behind.0, extend) (ground arith)
