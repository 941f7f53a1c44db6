-- ===== src/Raw/Release.antt =====
-- Giving the buffer back: `deallocate_buffer` as the trait provides it, and `drop` of a unique buffer.
use rkyv_utils.Prelude.{ℕ, ◌≡◌, sym, ap, fun_ext, true, false, none, some, List, arith}
use rkyv_utils.TaggedCap.Fields.{value-tagged, is_allocated-tagged, new-tagged}
use rkyv_utils.Memory.{
  Target, Block, Blocks, World, ptr, put, done, ptr_sub, load_header, store_header,
}
use rkyv_utils.Memory.Ends
use rkyv_utils.Memory.Ends.{Ends, ends, at_base}
use rkyv_utils.BufferLayout.Fits.{IsTarget, full_layout, layout-Fits}
use rkyv_utils.Alloc.{
  Allocator, BufferAllocator, alloc_info, default_deallocate_buffer, expect_layout,
}
use rkyv_utils.Alloc.Contract.{IsAllocator}
use rkyv_utils.Raw
use rkyv_utils.Raw.{Raw, drop, dealloc_slow}
use rkyv_utils.Raw.Holds.{
  Owns, Holds, unallocated, allocated, Spares, Owns-bounds, IsBufferAllocator,
}

module _ {S : Type 0} {t : Target} (v : IsTarget t) where
  pub alloc_info-Owns :
      (w : World S) (b : Raw) (cap : ℕ) (blk : Block)
      → Owns t w b cap blk
      → alloc_info t (record { buf = b.buf; cap = b.cap_or_len }) w
        ≡ done (ptr b.buf.base 0, full_layout t cap) w
  unfolding alloc_info expect_layout ptr_sub load_header
  alloc_info-Owns w b cap blk o =
      let bounds = Owns-bounds v o in
      rw (bounds.1, layout-Fits v cap w o.fits) (ground (arith, o.offset, o.there, o.recorded))

  -- The `deallocate_buffer` that the trait provides gives back exactly the block of the buffer,
  -- with the layout that it was allocated with.
  pub default_deallocate_buffer-Owns :
      {X : Type 0} (a : Allocator S) (law : IsAllocator t a X) (w : World S) (b : Raw) (cap : ℕ)
      (blk : Block)
      → Owns t w b cap blk
      → Ends
          (λ _ w'. w'.blocks ≡ put w.blocks b.buf.base none)
          ⊥
          ⊥
          (default_deallocate_buffer t a (record { buf = b.buf; cap = b.cap_or_len }) w)
  unfolding default_deallocate_buffer
  default_deallocate_buffer-Owns a law w b cap blk o = rw (alloc_info-Owns w b cap blk o) (
      law.deallocate b.buf.base blk (full_layout t cap) w o.there
        (record { size = sym o.size; align = sym o.align }) (omega arith))

  pub default-IsBufferAllocator :
      {X : Type 0} (a : Allocator S) (law : IsAllocator t a X)
      → IsBufferAllocator t
          (record { allocator = a; deallocate_buffer = default_deallocate_buffer t a })
          X
  default-IsBufferAllocator a law = record {
    lawful = law;
    gives_back = λ b cap blk w o.
        Ends.weaken (default_deallocate_buffer-Owns a law w b cap blk o)
          (λ _ w' gone p c other there. ground (arith, at_base gone p, other, there)) (λ x. x)
          (λ x. x);
  }

module _ {S : Type 0} {t : Target} (v : IsTarget t) (a : BufferAllocator S) where
  -- The memory in which the count of the last handle is 1 again.
  abbrev pub released : World S → Raw → Block → World S
  released w b blk = record w {
    blocks = put (put w.blocks b.buf.base (some (counted_zero blk))) b.buf.base (some blk);
  }
    where
      counted_zero : Block → Block
      counted_zero blk' = record blk' { header = record blk'.header { ref_count = 0 } }

  pub drop-deallocate :
      (w : World S) (b : Raw) (cap : ℕ) (blk : Block)
      → Owns t w b cap blk
      → drop t a b w
        ≡ a.deallocate_buffer (record { buf = b.buf; cap = b.cap_or_len }) (released w b blk)
  unfolding drop dealloc_slow ptr_sub load_header store_header
  drop-deallocate w b cap blk o =
      let bounds = Owns-bounds v o in
      let full = new-tagged t.debug true cap (omega arith) in
      let read = value-tagged true cap (omega arith) in
      ground (arith, o.allocated, o.offset, o.there, o.single, o.recorded)

  -- It was 1 before, so the memory is as it was.
  pub released-same :
      (w : World S) (b : Raw) (cap : ℕ) (blk : Block) → Owns t w b cap blk → released w b blk ≡ w
  released-same w b cap blk o =
      ap (λ (m : Blocks). record w { blocks = m }) (fun_ext λ p. ground (arith, o.there))

  pub released-Owns :
      (w : World S) (b : Raw) (cap : ℕ) (blk : Block)
      → Owns t w b cap blk
      → Owns t (released w b blk) b cap blk
  released-Owns w b cap blk o = record {
    allocated = o.allocated;
    offset = o.offset;
    aligned = o.aligned;
    there = ground arith;
    size = o.size;
    align = o.align;
    recorded = o.recorded;
    single = o.single;
    positive = o.positive;
    fits = o.fits;
  }

  -- `drop` of a unique buffer gives its block back, where it has one, and touches no other block.
  pub drop-Holds :
      {X : Type 0} (law : IsBufferAllocator t a X) (w : World S) (b : Raw) (cap : ℕ) (xs : List ℕ)
      → Holds t w b cap xs
      → Ends (λ _ w'. Spares w b w') ⊥ ⊥ (drop t a b w)
  unfolding drop Raw.new_in
  drop-Holds law w b cap xs (unallocated e z n) =
      rw (e, is_allocated-tagged false 0 (omega arith)) (ends (λ p c other there. there))
  drop-Holds law w b cap xs (allocated blk o room bytes) = rw (drop-deallocate w b cap blk o) (
      Ends.weaken (law.gives_back b cap blk (released w b blk) (released-Owns w b cap blk o))
        (λ _ w' spares p c other there. spares p c other (ground (arith, other, there))) (λ x. x)
        (λ x. x))
