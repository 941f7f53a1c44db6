-- ===== src/Alloc/Global.antt =====
-- crates/aligned-buffer/src/alloc.rs: `Global`, on top of the allocation functions of std, which
-- are a parameter. A null pointer is `none`.
pub mod Cleared
pub mod Lawful
use rkyv_utils.Prelude.{ℕ, Bool, true, false, Option, none, some, leb, ◌==◌, if◌then◌else◌}
use rkyv_utils.Layout.{Layout}
use rkyv_utils.Memory.{
  Target, Ptr, ptr_add, dangling, Cmd, pure, ◌>>=◌, ◌>>◌, debug_assert, sub_usize, write_zeroes,
}
use rkyv_utils.Alloc.{Slice, Allocator, BufferAllocator, default_deallocate_buffer}
use rkyv_utils.Alloc.Default.{relocate}

-- `std::alloc::{alloc, alloc_zeroed, dealloc, realloc}`
pub record System (S : Type 0) : Type 0 where
  pub alloc : Layout → Cmd S (Option Ptr)
  pub alloc_zeroed : Layout → Cmd S (Option Ptr)
  pub dealloc : Ptr → Layout → Cmd S (Unit {0})
  pub realloc : Ptr → Layout → ℕ → Cmd S (Option Ptr)

-- `NonNull::slice_from_raw_parts`, after the test for null.
abbrev pub slice_of : ℕ → Option Ptr → Option Slice
slice_of n none = none
slice_of n (some p) = some (record { start = p; len = n })

module _ {S : Type 0} (t : Target) (sys : System S) where
  unfoldable pub alloc_impl : Layout → (zeroed : Bool) → Cmd S (Option Slice)
  alloc_impl l zeroed =
      if l.size == 0 then pure (some (record { start = dangling; len = 0 })) else (do
        raw_ptr ← if zeroed then sys.alloc_zeroed l else sys.alloc l
        pure (slice_of l.size raw_ptr))

  unfoldable pub allocate : Layout → Cmd S (Option Slice)
  allocate l = alloc_impl l false

  unfoldable pub allocate_zeroed : Layout → Cmd S (Option Slice)
  allocate_zeroed l = alloc_impl l true

  unfoldable pub deallocate : Ptr → Layout → Cmd S (Unit {0})
  deallocate p l = if l.size == 0 then pure tt else sys.dealloc p l

  -- The bytes that `realloc` added are cleared.
  unfoldable pub clear_rest :
      (zeroed : Bool) → (old_size new_size : ℕ) → Option Ptr → Cmd S (Option Slice)
  clear_rest zeroed old_size new_size none = pure none
  clear_rest zeroed old_size new_size (some p) =
      if zeroed
      then (do
        rest ← sub_usize t new_size old_size
        write_zeroes t (ptr_add p old_size) rest
        pure (some (record { start = p; len = new_size })))
      else pure (some (record { start = p; len = new_size }))

  unfoldable pub grow_impl :
      Ptr → (old_layout new_layout : Layout) → (zeroed : Bool) → Cmd S (Option Slice)
  unfolding clear_rest
  grow_impl p old_layout new_layout zeroed = do
    debug_assert t (leb old_layout.size new_layout.size)
    if old_layout.size == 0
        then alloc_impl new_layout zeroed
        else (if old_layout.align == new_layout.align
            then (do
              raw_ptr ← sys.realloc p old_layout new_layout.size
              clear_rest zeroed old_layout.size new_layout.size raw_ptr)
            else (do
              new_ptr ← alloc_impl new_layout zeroed
              relocate t deallocate p old_layout old_layout.size new_ptr))

  unfoldable pub grow : Ptr → (old_layout new_layout : Layout) → Cmd S (Option Slice)
  grow p old_layout new_layout = grow_impl p old_layout new_layout false

  unfoldable pub grow_zeroed : Ptr → (old_layout new_layout : Layout) → Cmd S (Option Slice)
  grow_zeroed p old_layout new_layout = grow_impl p old_layout new_layout true

  unfoldable pub shrink : Ptr → (old_layout new_layout : Layout) → Cmd S (Option Slice)
  shrink p old_layout new_layout = do
    debug_assert t (leb new_layout.size old_layout.size)
    if new_layout.size == 0
        then (do deallocate p old_layout; pure (some (record { start = dangling; len = 0 })))
        else (if old_layout.align == new_layout.align
            then (do
              raw_ptr ← sys.realloc p old_layout new_layout.size
              pure (slice_of new_layout.size raw_ptr))
            else (do
              new_ptr ← allocate new_layout
              relocate t deallocate p old_layout new_layout.size new_ptr))

  -- `impl Allocator for Global`, and `impl BufferAllocator for Global`, which keeps the provided
  -- `deallocate_buffer`.
  abbrev pub global : Allocator S
  global = record {
    allocate = allocate;
    allocate_zeroed = allocate_zeroed;
    deallocate = deallocate;
    grow = grow;
    grow_zeroed = grow_zeroed;
    shrink = shrink;
  }

  abbrev pub global_buffers : BufferAllocator S
  global_buffers = record {
    allocator = global;
    deallocate_buffer = default_deallocate_buffer t global;
  }
