-- ===== src/Alloc.antt =====
-- crates/aligned-buffer/src/alloc.rs: the allocator traits, and raw buffers. An allocator is a
-- parameter: its operations are commands over the blocks and a state of its own. `none` is
-- `AllocError`. A clone of an allocator is the same allocator, as the trait demands.
pub mod Contract
pub mod Default
pub mod Global
pub mod Borrowed
use rkyv_utils.Prelude.{ℕ, ◌≡◌, Option, none, some, Result, ok, err, ◌==◌}
use rkyv_utils.TaggedCap.{TaggedCap, value}
use rkyv_utils.Layout.{Layout}
use rkyv_utils.Memory.{
  Target, Ptr, World, Cmd, panic, pure, ◌>>=◌, ◌>>◌, debug_assert, ptr_sub, load_header,
}
use rkyv_utils.BufferLayout.{RawBufferError, buffer_offset, layout}

-- `NonNull<[u8]>`
pub record Slice : Type 0 where
  pub start : Ptr
  pub len : ℕ

pub record Allocator (S : Type 0) : Type 0 where
  pub allocate : Layout → Cmd S (Option Slice)
  pub allocate_zeroed : Layout → Cmd S (Option Slice)
  pub deallocate : Ptr → Layout → Cmd S (Unit {0})
  pub grow : Ptr → (old_layout new_layout : Layout) → Cmd S (Option Slice)
  pub grow_zeroed : Ptr → (old_layout new_layout : Layout) → Cmd S (Option Slice)
  pub shrink : Ptr → (old_layout new_layout : Layout) → Cmd S (Option Slice)

pub record RawBuffer : Type 0 where
  pub buf : Ptr
  pub cap : TaggedCap

pub record BufferAllocator (S : Type 0) : Type 0 where
  pub allocator : Allocator S
  pub open allocator use *
  pub deallocate_buffer : RawBuffer → Cmd S (Unit {0})

module _ {S : Type 0} (t : Target) where
  -- `.expect("Invalid layout")`
  unfoldable pub expect_layout : Result Layout RawBufferError → Cmd S Layout
  expect_layout (ok l) = pure l
  expect_layout (err e) = λ w. panic

  unfoldable pub alloc_info : RawBuffer → Cmd S (Ptr × Layout)
  unfolding expect_layout
  alloc_info raw = do
    size_result ← layout t (value raw.cap)
    full ← expect_layout size_result
    start ← ptr_sub raw.buf (buffer_offset t)
    header ← load_header start
    debug_assert t (value raw.cap == header.alloc_buffer_size)
    pure (start, full)

  -- The method that `BufferAllocator` provides, and that `Global` keeps.
  unfoldable pub default_deallocate_buffer : Allocator S → RawBuffer → Cmd S (Unit {0})
  default_deallocate_buffer a raw = do (start, full) ← alloc_info raw; a.deallocate start full
