-- ===== src/Raw/Realloc.antt =====
-- A change of the allocation's size.
use rkyv_utils.Prelude.{
  ℕ, ◌+◌, ◌-◌, ◌≤◌, ◌<◌, ◌≡◌, ◌≢◌, refl, ◌∙◌, true, Option, none, some, ok, List, isize_max, length,
  arith, inl, inr, compare-cases, ◌==◌, not,
}
use rkyv_utils.TaggedCap.{value, max_value}
use rkyv_utils.TaggedCap.Fields.{tagged, with_value-tagged}
use rkyv_utils.Memory.{
  Target, Block, ptr, World, done, put, ptr_add, load_list, store_header, load_header, ptr_sub,
}
use rkyv_utils.Memory.Bytes.{load_list-cong}
use rkyv_utils.Memory.Ends
use rkyv_utils.Memory.Ends.{Ends, ends}
use rkyv_utils.BufferLayout.{buffer_offset}
use rkyv_utils.BufferLayout.Fits.{
  IsTarget, Fits, full_layout, full_layout-IsLayout, dec_Fits, layout-Fits, layout-not_Fits,
  alloc_guard-passes, align-pos, header-le-buffer_offset,
}
use rkyv_utils.Alloc.{Slice, BufferAllocator}
use rkyv_utils.Alloc.Contract.{IsNewBlock, IsAllocator, Answer, Keeps, FitsBlock}
use rkyv_utils.Raw.{Raw, realloc, realloc_answer, reinstall, resize_block}
use rkyv_utils.Raw.Holds.{Owns, Owns-bounds, allocated, Frame, Frame-refl, Grows}

module _ {S : Type 0} {t : Target} (v : IsTarget t) (a : BufferAllocator S) where
  -- The block with its new size recorded, and the handle on it.
  abbrev resized_block : Slice → Block → Block
  resized_block s b = record b {
    header = record b.header { alloc_buffer_size = s.len - buffer_offset t };
  }

  abbrev resized_raw : Slice → Raw
  resized_raw s = record {
    buf = ptr_add s.start (buffer_offset t);
    cap_or_len = tagged true (s.len - buffer_offset t);
  }

  reinstall_lem :
      (s : Slice) (b : Raw) (blk : Block) (cap : ℕ) (w : World S)
      → s.start.offset ≡ 0
      → buffer_offset t ≤ s.len
      → s.len ≤ isize_max
      → w.blocks s.start.base ≡ some blk
      → b.cap_or_len ≡ tagged true cap
      → cap ≤ max_value
      → reinstall t a b s w
        ≡ done
            (resized_raw s, ok tt)
            (record w { blocks = put w.blocks s.start.base (some (resized_block s blk)) })
  unfolding reinstall store_header load_header
  reinstall_lem s b blk cap w start enough small there tag fits =
      ground
        (arith, with_value-tagged t.debug true cap (s.len - buffer_offset t) fits (omega arith))

  module _ {b : Raw} {cap : ℕ} {blk : Block} {w : World S} (o : Owns t w b cap blk) where
    resized-Owns :
        (s : Slice) (c : Block) (w' : World S) (size : ℕ)
        → 0 < size
        → IsNewBlock (put w.blocks b.buf.base none) (full_layout t size) s c
        → c.header ≡ blk.header
        → Owns t
            (record w' { blocks = put w'.blocks s.start.base (some (resized_block s c)) })
            (resized_raw s)
            (s.len - buffer_offset t)
            (resized_block s c)
    resized-Owns s c w' size pos n kept = record {
      allocated = refl;
      offset = ground arith;
      aligned = n.aligned;
      there = ground arith;
      size = ground arith;
      align = n.align;
      recorded = refl;
      single = ground arith;
      positive = omega arith;
      fits = omega arith;
    }

    resized-Frame :
        (s : Slice) (c : Block) (w' : World S)
        → put w.blocks b.buf.base none s.start.base ≡ none
        → w'.blocks ≡ put (put w.blocks b.buf.base none) s.start.base (some c)
        → Frame w b
            (record w' { blocks = put w'.blocks s.start.base (some (resized_block s c)) })
            (resized_raw s)
    resized-Frame s c w' free e p d real other there =
        let apart : p ≢ s.start.base = ground arith in (ground (arith, Ends.at_base e p), apart)

    realloc_answer-Grows :
        {X : Type 0} (xs : List ℕ) (size n : ℕ)
        → 0 < size
        → buffer_offset t + length xs ≤ n
        → length xs ≤ size
        → load_list blk.bytes (buffer_offset t) (length xs) ≡ xs
        → (answer : Option Slice) (w' : World S)
        → Answer X w.blocks
            (put w.blocks b.buf.base none)
            (full_layout t size)
            (Keeps n blk)
            answer
            w'
        → Ends
            (Grows t X w b xs size size)
            ⊥
            ⊥
            (realloc_answer t a b (full_layout t size) answer w')
    unfolding realloc_answer
    realloc_answer-Grows xs size n pos kept room held none w' (x, same) = ends (x, refl, same)
    realloc_answer-Grows xs size n pos kept room held (some s) w' (c, new, keeps, e) =
        let there : w'.blocks s.start.base ≡ some c = ground (arith, Ends.at_base e s.start.base) in
        let some_align = align-pos v in
        let bounds = Owns-bounds v o in
        Ends.ends_of_eq
          (reinstall_lem s b c cap w' new.at_start (omega arith) (omega arith) there o.allocated
            (omega arith))
          (
            s.len - buffer_offset t,
            omega arith,
            allocated (resized_block s c) (resized-Owns s c w' size pos new keeps.header)
                (omega arith)
                (load_list-cong c.bytes blk.bytes (buffer_offset t) (length xs)
                    (λ j low high. keeps.bytes j (omega arith))
                  ∙ held),
            resized-Frame s c w' new.fresh e,
          )

    start_of : (n : ℕ) → n ≡ buffer_offset t → ptr_sub b.buf n w ≡ done (ptr b.buf.base 0) w
    unfolding ptr_sub
    start_of n e = ground (arith, o.offset)

    resize_block-Grows :
        {X : Type 0}
        → IsAllocator t a.allocator X
        → (xs : List ℕ) (size : ℕ) → Fits t size
        → 0 < size
        → length xs ≤ size
        → length xs ≤ cap
        → load_list blk.bytes (buffer_offset t) (length xs) ≡ xs
        → Ends
            (Grows t X w b xs size size)
            ⊥
            ⊥
            (resize_block t a b (full_layout t size) (ok (full_layout t cap)) w)
    unfolding resize_block
    resize_block-Grows law xs size fits pos held held' bytes =
        rw (Ends.debug_assert-true t w same_align, start_of (buffer_offset t) refl)
          (elim (compare-cases (buffer_offset t + cap) (buffer_offset t + size)) [
            | inl (e, less) ↦ rw e (
                Ends.chain
                  (law.grow b.buf.base blk (full_layout t cap) (full_layout t size) w o.there
                    fitting (full_layout-IsLayout v size fits) (omega arith) room (omega arith))
                  (realloc_answer-Grows xs size (buffer_offset t + cap) pos (omega arith) held
                    bytes))
            | inr (inl (e, same)) ↦
                rw e (ends (cap, omega arith, allocated blk o held' bytes, Frame-refl w b))
            | inr (inr (e, more)) ↦ rw e (
                Ends.chain
                  (law.shrink b.buf.base blk (full_layout t cap) (full_layout t size) w o.there
                    fitting (full_layout-IsLayout v size fits) (omega arith) room' (omega arith))
                  (realloc_answer-Grows xs size (buffer_offset t + size) pos (omega arith) held
                    bytes))
          ])
      where
        same_align : ((full_layout t cap).align == (full_layout t size).align) ≡ true
        same_align = ground arith

        room : t.header.size ≤ buffer_offset t + cap
        room = omega (arith, header-le-buffer_offset v)

        room' : t.header.size ≤ buffer_offset t + size
        room' = omega (arith, header-le-buffer_offset v)

        fitting : FitsBlock (full_layout t cap) blk
        fitting = record { size = ground (arith, o.size); align = ground (arith, o.align) }

    -- Whatever the allocator answers, a request for `size` bytes, no fewer than the bytes that are
    -- kept, is met or leaves the buffer as it was.
    pub realloc-Grows :
        {X : Type 0}
        → IsAllocator t a.allocator X
        → (xs : List ℕ) (size : ℕ) → 0 < size
        → length xs ≤ size
        → length xs ≤ cap
        → load_list blk.bytes (buffer_offset t) (length xs) ≡ xs
        → Ends (Grows t X w b xs size size) ⊥ ⊥ (realloc t a b size w)
    unfolding realloc
    realloc-Grows law xs size pos held held' bytes =
        let bounds = Owns-bounds v o in
        let positive = o.positive in
        let some_room : not (value b.cap_or_len == 0) ≡ true = ground (arith, bounds.1) in
        rw (Ends.debug_assert-true t w some_room, Ends.debug_assert-true t w bounds.2)
          (elim (dec_Fits t size) [
            | yes fits ↦
                rw
                  (
                    layout-Fits v size w fits,
                    alloc_guard-passes t (buffer_offset t + size) w,
                    bounds.1,
                    layout-Fits v cap w o.fits,
                  )
                  (resize_block-Grows law xs size fits pos held held' bytes)
            | no too_large ↦ rw (layout-not_Fits v size w too_large) (ends (too_large, refl, refl))
          ])
