-- ===== src/BufferLayout.antt =====
-- crates/aligned-buffer/src/raw.rs: where the buffer lies in its allocation, behind the header.
pub mod Fits
use rkyv_utils.Prelude.{
  ℕ, ◌-◌, ◌≡◌, Bool, true, false, ◌&&◌, Option, none, some, Result, ok, err, usize_bits, ltb, ◌==◌,
  if◌then◌else◌,
}
use rkyv_utils.TaggedCap.{max_value}
use rkyv_utils.Layout.{Layout, from_size_alignment, extend, std_extend}
use rkyv_utils.Memory.{Target, Cmd, pure, ◌>>=◌, ◌>>◌, debug_assert, sub_usize}

pub data RawBufferError : Type 0 where
  capacity_overflow : RawBufferError
  alloc_error : Layout → RawBufferError

module _ (t : Target) where
  -- `BUFFER_OFFSET`; `none` is a panic of the constant, so that the crate does not compile.
  unfoldable pub offset_const : Option ℕ
  offset_const = elim (from_size_alignment 0 t.alignment) [
    | none ↦ none
    | some buffer_layout ↦ elim (extend t.header buffer_layout) [
      | none ↦ none
      | some (_, offset) ↦ some offset
    ]
  ]

  unfoldable pub buffer_offset : ℕ
  unfolding offset_const
  buffer_offset = elim offset_const [ none ↦ 0 | some offset ↦ offset ]

  pub max_capacity : ℕ
  max_capacity = max_value - buffer_offset - 64

  -- `from_size_align_unchecked` makes no test, so the layout is written down as it is.
  unfoldable pub layout : {S : Type 0} → ℕ → Cmd S (Result Layout RawBufferError)
  layout size = elim (std_extend t.header (record { size = size; align = t.alignment })) [
    | none ↦ pure (err capacity_overflow)
    | some (full, offset) ↦ do debug_assert t (offset == buffer_offset); pure (ok full)
  ]

  -- The test is made on targets of less than 64 bits only.
  unfoldable pub alloc_guard : {S : Type 0} → ℕ → Cmd S (Result (Unit {0}) RawBufferError)
  alloc_guard alloc_size =
      if ltb usize_bits 64
      then (do
        rest ← sub_usize t alloc_size t.header.size
        pure (if ltb max_capacity rest then err capacity_overflow else ok tt))
      else pure (ok tt)
