-- ===== src/TaggedCap.antt =====
-- crates/aligned-buffer/src/raw/cap.rs: a capacity of 63 bits with a tag in the highest bit that
-- says whether the buffer has an allocation. `none` is a panic; `debug` says whether the
-- `debug_assert!`s are compiled in.
pub mod Fields
use mathlib.Core.Option
use rkyv_utils.Prelude.{
  ℕ, ◌+◌, ◌-◌, ◌/◌, Bool, true, false, not, ◌&&◌, Option, none, some, bit_and, bit_or, bit_not,
  usize_max, leb, ◌==◌, if◌then◌else◌,
}

pub record TaggedCap : Type 0 where
  pub word : ℕ

abbrev pub tag : ℕ
tag = bit_not (usize_max / 2)

abbrev pub tag_mask : ℕ
tag_mask = tag

abbrev pub value_mask : ℕ
value_mask = bit_not tag_mask

abbrev pub max_value : ℕ
max_value = value_mask

abbrev pub as_usize : Bool → ℕ
as_usize false = 0
as_usize true = 1

abbrev pub zero_cap : TaggedCap
zero_cap = record { word = 0 }

unfoldable pub value : TaggedCap → ℕ
value c = bit_and c.word value_mask

unfoldable pub is_allocated : TaggedCap → Bool
is_allocated c = not (bit_and c.word tag_mask == 0)

unfoldable pub with_value : Bool → TaggedCap → ℕ → Option TaggedCap
with_value debug c v =
    if debug && not (leb v value_mask)
    then none
    else some (record { word = bit_or (bit_and c.word tag_mask) (bit_and v value_mask) })

unfoldable pub with_allocated : TaggedCap → Bool → TaggedCap
with_allocated c allocated =
    let value_part = bit_and c.word value_mask in
    let tag_part = bit_and (tag - 1 + as_usize allocated) tag_mask in
    record { word = bit_or value_part tag_part }

unfoldable pub new : Bool → ℕ → Bool → Option TaggedCap
new debug v allocated = Option.map (λ c. with_allocated c allocated) (with_value debug zero_cap v)
