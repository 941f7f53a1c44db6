-- ===== src/Serializer/Scratch.antt =====
-- `pop_alloc` of the scratch allocator.
use rkyv_utils.Prelude.{
  ℕ, ◌+◌, ◌≤◌, ◌<◌, ◌≡◌, ok, err, List, length, arith, isize_max, leb, if◌then◌else◌,
}
use rkyv_utils.Layout.{Layout}
use rkyv_utils.Memory.{Target, World, ptr_add, done}
use rkyv_utils.BufferLayout.Fits.{IsTarget}
use rkyv_utils.Alloc.{BufferAllocator}
use rkyv_utils.Unique
use rkyv_utils.Unique.{Unique, as_ptr, capacity, truncate}
use rkyv_utils.Unique.Contents.{Contains, capacity-Contains}
use rkyv_utils.Serializer.{pop_alloc, not_popped_in_reverse_order}

module _ {S : Type 0} {t : Target} (v : IsTarget t) (a : BufferAllocator S) where
  -- `pop_alloc` at a place within the contents cuts the scratch back to that place, where the
  -- allocation does not run past the end; else it is refused as not popped in reverse order and
  -- nothing changes. The size is at most isize::MAX.
  pub pop_alloc-Contains :
      (w : World S) (scratch : Unique) (xs : List ℕ) (k : ℕ) (l : Layout)
      → Contains t w scratch xs
      → k < length xs
      → l.size ≤ isize_max
      → pop_alloc t a scratch (ptr_add (as_ptr scratch) k) l w ≡ (
          if leb (k + l.size) (length xs)
          then done (truncate scratch k, ok tt) w
          else done (scratch, err (not_popped_in_reverse_order (length xs) k l.size)) w)
  unfolding pop_alloc Unique.set_len as_ptr truncate
  pop_alloc-Contains w scratch xs k l c inside small =
      let bounds = capacity-Contains v w scratch xs c in
      ground (arith, c.len, bounds.0, bounds.1, bounds.2)
