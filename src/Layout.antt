-- ===== src/Layout.antt =====
-- crates/aligned-buffer/src/raw/layout.rs: layout arithmetic in constant functions, beside the
-- `Layout` of std that it imitates. A `LayoutHelper` is a `Layout`. `none` is an error of std, and
-- a panic of the helper.
pub mod Padding
pub mod Extend
use rkyv_utils.Prelude.{
  ℕ, ◌+◌, ◌-◌, ◌*◌, ◌/◌, ◌^◌, ◌≤◌, ◌<◌, ◌≡◌, Bool, true, ◌&&◌, Option, none, some, max, bit_and,
  isize_max, bit_not, wrapping_add, wrapping_sub, checked_add, is_power_of_two, ltb, leb,
  if◌then◌else◌,
}

-- std::alloc::Layout
pub record Layout : Type 0 where
  pub size : ℕ
  pub align : ℕ

-- What std promises of every layout.
pub record IsLayout (l : Layout) : Type 0 where
  pub exponent : ℕ
  pub power : l.align ≡ 2 ^ exponent
  pub small : exponent < 64
  pub fits : l.size + l.align ≤ isize_max + 1

-- `Layout::from_size_align`: the alignment is a power of two, and the size rounded up to it does
-- not exceed `isize::MAX`.
unfoldable pub from_size_align : ℕ → ℕ → Option Layout
from_size_align size align =
    if is_power_of_two align && leb (size + align) (isize_max + 1)
    then some (record { size = size; align = align })
    else none

-- The least multiple of `align` from `size` on.
abbrev pub round_up : ℕ → ℕ → ℕ
round_up size align = (size + align - 1) / align * align

-- `Layout::extend`: `next` behind `l`, with its offset.
unfoldable pub std_extend : Layout → Layout → Option (Layout × ℕ)
std_extend l next =
    let offset = round_up l.size next.align in
    elim (from_size_align (offset + next.size) (max l.align next.align)) [
      | none ↦ none
      | some r ↦ some (r, offset)
    ]

unfoldable pub from_size_alignment : ℕ → ℕ → Option Layout
unfolding from_size_align
from_size_alignment size alignment = elim (from_size_align size alignment) [
  | some layout ↦ some layout
  | none ↦ none
]

unfoldable pub padding_needed_for : Layout → ℕ → ℕ
padding_needed_for l align =
    let len = l.size in
    let len_rounded_up =
      bit_and (wrapping_sub (wrapping_add len align) 1) (bit_not (wrapping_sub align 1)) in
    wrapping_sub len_rounded_up len

unfoldable pub extend : Layout → Layout → Option (Layout × ℕ)
unfolding padding_needed_for
extend l next =
    let new_align = if ltb l.align next.align then next.align else l.align in
    let pad = padding_needed_for l next.align in
    elim (checked_add l.size pad) [
      | none ↦ none
      | some offset ↦ elim (checked_add offset next.size) [
        | none ↦ none
        | some new_size ↦ elim (from_size_alignment new_size new_align) [
          | none ↦ none
          | some layout ↦ some (layout, offset)
        ]
      ]
    ]
