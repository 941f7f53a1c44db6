-- ===== src/Shared/Threads/Values.antt =====
-- What the steps on the header and the block come to.
use rkyv_utils.Prelude.{ℕ, ◌≡◌, refl, List, [], length, true, ◌==◌, arith}
use rkyv_utils.TaggedCap.Fields.{tagged, value-tagged, new-tagged}
use rkyv_utils.Memory.{Target, Block, World, and_then, pure, done, ptr_sub, load_header}
use rkyv_utils.Memory.Ends
use rkyv_utils.Memory.Ends.{Ends, ends, aborts}
use rkyv_utils.BufferLayout.Fits.{IsTarget}
use rkyv_utils.Alloc.{BufferAllocator}
use rkyv_utils.Raw
use rkyv_utils.Raw.{Raw, dealloc_slow, max_refcount}
use rkyv_utils.Unique.{Unique}
use rkyv_utils.Shared.{Shared, len}
use rkyv_utils.Shared.Handles.{Shares, Shares-bounds}
use rkyv_utils.Shared.Counting.{last-Owns}
use rkyv_utils.Shared.Sharing.{into_shared-owned}
use rkyv_utils.Shared.Threads.{stored, alone, load, next}

module _ {S : Type 0} {t : Target} (v : IsTarget t) (a : BufferAllocator S) (s : Shared) (cap : ℕ)
    (xs : List ℕ) where
  pub load-Shares :
      (w : World S) (blk : Block) (n : ℕ)
      → Shares t w s cap blk xs n
      → load t a s w ≡ done blk.header w
  unfolding load ptr_sub load_header
  load-Shares w blk n h = ground (arith, h.offset, h.there)

  -- The buffer of the last handle, as the allocator gets it.
  pub last-dealloc :
      (w : World S) (blk : Block) (n : ℕ)
      → Shares t w s cap blk xs n
      → next t a s stored w
        ≡ and_then
            (a.deallocate_buffer (record { buf = s.buf.buf; cap = tagged true cap }) w)
            (λ _. pure (record { handles = 0; calls = []; freed = 1 }))
  unfolding next dealloc_slow
  last-dealloc w blk n h =
      let bounds = Shares-bounds v h in
      let full = new-tagged t.debug true cap (omega arith) in
      let read = value-tagged true cap (omega arith) in
      let same : (cap == cap) ≡ true = ground arith in
      rw (load-Shares w blk n h, h.recorded, full, read) (rw (Ends.debug_assert-true t w same) refl)

  -- The whole buffer, shared again.
  pub reshared :
      (w : World S) (blk : Block)
      → Shares t w s cap blk xs 1
      → next t a s alone w ≡ done (record { handles = 1; calls = []; freed = 0 }) w
  unfolding next len Raw.reset_cap ptr_sub load_header
  reshared w blk h =
      let bounds = Shares-bounds v h in
      let full = new-tagged t.debug true cap (omega arith) in
      let whole : Unique = record {
        buf = record { buf = s.buf.buf; cap_or_len = tagged true cap };
        len = length xs;
      } in
      let again =
        into_shared-owned v a w whole cap blk xs (last-Owns v a w s cap blk xs h) h.room refl in
      let reset : Raw.reset_cap t a s.buf w ≡ done whole.buf w = ground (arith, h.recorded) in
      rw (reset, bounds.1, again) refl
