-- ===== src/Shared/Counting.antt =====
-- The reference count under `clone` and `drop`.
use native.Mathlib.Decide.{dec_lt}
use rkyv_utils.Prelude.{
  ℕ, ◌+◌, ◌-◌, ◌≤◌, ◌<◌, ◌≡◌, ◌⊎◌, inl, inr, refl, ap, ◌∙◌, fun_ext, true, some, List, isize_max,
  usize_mod, arith,
}
use rkyv_utils.TaggedCap.Fields.{tagged, value-tagged, new-tagged}
use rkyv_utils.Memory.{
  Target, Block, Blocks, World, put, done, abort, ptr_sub, load_header, store_header,
}
use rkyv_utils.Memory.Ends
use rkyv_utils.Memory.Ends.{Ends, ends, aborts}
use rkyv_utils.BufferLayout.Fits.{IsTarget}
use rkyv_utils.Alloc.{BufferAllocator}
use rkyv_utils.Raw
use rkyv_utils.Raw.{Raw, dealloc_slow}
use rkyv_utils.Raw.Holds.{Owns, Spares, Frame, IsBufferAllocator}
use rkyv_utils.Shared.{Shared, clone, drop}
use rkyv_utils.Shared.Handles.{Shares, Shares-bounds}

abbrev pub counting : Block → ℕ → Block
counting blk n = record blk { header = record blk.header { ref_count = n } }

-- The memory in which the buffer of `s` has `n` handles.
abbrev pub recount : {S : Type 0} → World S → Shared → Block → ℕ → World S
recount w s blk n = record w { blocks = put w.blocks s.buf.buf.base (some (counting blk n)) }

module _ {S : Type 0} {t : Target} (v : IsTarget t) (a : BufferAllocator S) where
  pub recount-Shares :
      (w : World S) (s : Shared) (cap : ℕ) (blk : Block) (xs : List ℕ) (n k : ℕ)
      → Shares t w s cap blk xs n
      → Shares t (recount w s blk k) s cap (counting blk k) xs k
  recount-Shares w s cap blk xs n k h = record {
    word = h.word;
    offset = h.offset;
    aligned = h.aligned;
    there = ground arith;
    size = h.size;
    align = h.align;
    recorded = h.recorded;
    counted = refl;
    positive = h.positive;
    fits = h.fits;
    room = h.room;
    bytes = h.bytes;
  }

  recount-Frame :
      (w : World S) (s : Shared) (blk : Block) (k : ℕ) → Frame w s.buf (recount w s blk k) s.buf
  recount-Frame w s blk k p c real other there = (ground (arith, other), other)

  pub clone-few :
      (w : World S) (s : Shared) (cap : ℕ) (blk : Block) (xs : List ℕ) (n : ℕ)
      → Shares t w s cap blk xs n
      → n ≤ isize_max
      → clone t a s w ≡ done s (recount w s blk (n + 1))
  unfolding clone Raw.ref_clone ptr_sub load_header store_header
  clone-few w s cap blk xs n h few =
      let bounds = Shares-bounds v h in ground (arith, h.word, h.offset, h.there, h.counted)

  pub clone-many :
      (w : World S) (s : Shared) (cap : ℕ) (blk : Block) (xs : List ℕ) (n : ℕ)
      → Shares t w s cap blk xs n
      → isize_max < n
      → clone t a s w ≡ abort
  unfolding clone Raw.ref_clone ptr_sub load_header store_header
  clone-many w s cap blk xs n h many =
      let bounds = Shares-bounds v h in ground (arith, h.word, h.offset, h.there, h.counted)

  pub drop-more :
      (w : World S) (s : Shared) (cap : ℕ) (blk : Block) (xs : List ℕ) (n : ℕ)
      → Shares t w s cap blk xs n
      → 1 < n
      → n < usize_mod
      → drop t a s w ≡ done tt (recount w s blk (n - 1))
  unfolding drop Raw.drop ptr_sub load_header store_header
  drop-more w s cap blk xs n h more machine =
      let bounds = Shares-bounds v h in ground (arith, h.word, h.offset, h.there, h.counted)

  pub clone-Ends :
      (w : World S) (s : Shared) (cap : ℕ) (blk : Block) (xs : List ℕ) (n : ℕ)
      → Shares t w s cap blk xs n
      → Ends
          (λ s' w'.
            (s' ≡ s) × Shares t w' s cap (counting blk (n + 1)) xs (n + 1) × Frame w s.buf w' s.buf)
          ⊥
          (isize_max < n)
          (clone t a s w)
  clone-Ends w s cap blk xs n h = elim (dec_lt isize_max n) [
    | yes many ↦ rw (clone-many w s cap blk xs n h many) (aborts many)
    | no few ↦
        Ends.ends_of_eq (clone-few w s cap blk xs n h (omega arith))
          (refl, recount-Shares w s cap blk xs n (n + 1) h, recount-Frame w s blk (n + 1))
  ]

  -- Up to isize::MAX handles `clone` gives the same handle and counts it, without undefined
  -- behaviour, panic or abort, and no other block changes; beyond them the program always aborts.
  pub clone-Shares :
      (w : World S) (s : Shared) (cap : ℕ) (blk : Block) (xs : List ℕ) (n : ℕ)
      → Shares t w s cap blk xs n
      → ((n ≤ isize_max)
          × Ends
              (λ s' w'.
                (s' ≡ s)
                × Shares t w' s cap (counting blk (n + 1)) xs (n + 1)
                × Frame w s.buf w' s.buf)
              ⊥
              ⊥
              (clone t a s w))
        ⊎ ((isize_max < n) × (clone t a s w ≡ abort))
  clone-Shares w s cap blk xs n h = elim (dec_lt isize_max n) [
    | yes many ↦ inr (many, clone-many w s cap blk xs n h many)
    | no few ↦
        let small : n ≤ isize_max = omega arith in
        inl (
          small,
          Ends.ends_of_eq (clone-few w s cap blk xs n h small)
              (refl, recount-Shares w s cap blk xs n (n + 1) h, recount-Frame w s blk (n + 1)),
        )
  ]

  -- `drop` of one handle of several leaves the others, which read the same bytes, and counts one
  -- less.
  pub drop-Shares :
      (w : World S) (s : Shared) (cap : ℕ) (blk : Block) (xs : List ℕ) (n : ℕ)
      → Shares t w s cap blk xs n
      → 1 < n
      → n < usize_mod
      → Ends
          (λ _ w'. Shares t w' s cap (counting blk (n - 1)) xs (n - 1) × Frame w s.buf w' s.buf)
          ⊥
          ⊥
          (drop t a s w)
  drop-Shares w s cap blk xs n h more machine =
      Ends.ends_of_eq (drop-more w s cap blk xs n h more machine)
        (recount-Shares w s cap blk xs n (n - 1) h, recount-Frame w s blk (n - 1))

  pub drop-one :
      (w : World S) (s : Shared) (cap : ℕ) (blk : Block) (xs : List ℕ)
      → Shares t w s cap blk xs 1
      → drop t a s w
        ≡ a.deallocate_buffer
            (record { buf = s.buf.buf; cap = tagged true cap })
            (recount (recount w s blk 0) s (counting blk 0) 1)
  unfolding drop Raw.drop dealloc_slow ptr_sub load_header store_header
  drop-one w s cap blk xs h =
      let bounds = Shares-bounds v h in
      let full = new-tagged t.debug true cap (omega arith) in
      let read = value-tagged true cap (omega arith) in
      ground (arith, h.word, h.offset, h.there, h.counted, h.recorded)

  pub last-Owns :
      (w : World S) (s : Shared) (cap : ℕ) (blk : Block) (xs : List ℕ)
      → Shares t w s cap blk xs 1
      → Owns t w (record { buf = s.buf.buf; cap_or_len = tagged true cap }) cap blk
  last-Owns w s cap blk xs h = record {
    allocated = refl;
    offset = h.offset;
    aligned = h.aligned;
    there = h.there;
    size = h.size;
    align = h.align;
    recorded = h.recorded;
    single = h.counted;
    positive = h.positive;
    fits = h.fits;
  }

  recount-same :
      (w : World S) (s : Shared) (cap : ℕ) (blk : Block) (xs : List ℕ)
      → Shares t w s cap blk xs 1
      → recount (recount w s blk 0) s (counting blk 0) 1 ≡ w
  recount-same w s cap blk xs h =
      let back : counting (counting blk 0) 1 ≡ blk = ground (arith, h.counted) in
      ap (λ (m : Blocks). record w { blocks = m }) (fun_ext λ p. rw back (ground (arith, h.there)))

  -- `drop` of the last handle calls the allocator's `deallocate_buffer` with the pointer and the
  -- capacity that the header holds, as an allocated one, in the memory as it was, where that is
  -- the only handle on the block; so it ends without undefined behaviour, panic or abort, and
  -- every other block stays as it was. This is for an allocator that meets the contract and
  -- touches no other block when a buffer is given back to it.
  pub drop_last-Shares :
      {X : Type 0} (law : IsBufferAllocator t a X) (w : World S) (s : Shared) (cap : ℕ)
      (blk : Block) (xs : List ℕ)
      → Shares t w s cap blk xs 1
      → (drop t a s w ≡ a.deallocate_buffer (record { buf = s.buf.buf; cap = tagged true cap }) w)
        × Owns t w (record { buf = s.buf.buf; cap_or_len = tagged true cap }) cap blk
        × Ends (λ _ w'. Spares w s.buf w') ⊥ ⊥ (drop t a s w)
  drop_last-Shares law w s cap blk xs h =
      let e =
        drop-one w s cap blk xs h
        ∙ ap (a.deallocate_buffer (record { buf = s.buf.buf; cap = tagged true cap }))
            (recount-same w s cap blk xs h) in
      let own = last-Owns w s cap blk xs h in (e, own, rw e (law.gives_back _ cap blk w own))
