-- ===== src/Shared/Handles.antt =====
-- The invariant of a shared buffer: what each of its handles is.
use rkyv_utils.Prelude.{
  ℕ, ◌+◌, ◌%◌, ◌≤◌, ◌<◌, ◌≡◌, refl, true, some, List, [], ◌∷◌, max, isize_max, length, arith,
}
use rkyv_utils.TaggedCap.{value, is_allocated}
use rkyv_utils.TaggedCap.Fields.{tagged, value-tagged, is_allocated-tagged}
use rkyv_utils.Memory.{Target, Block, World, Ptr, load_list, read_bytes, done}
use rkyv_utils.BufferLayout.{buffer_offset}
use rkyv_utils.BufferLayout.Fits.{IsTarget, Fits, align-pos, header-le-buffer_offset}
use rkyv_utils.Alloc.{BufferAllocator}
use rkyv_utils.Shared.{Shared, as_ptr, as_slice, len}

-- `s` is one of `n` handles on the bytes `xs`, in a block with room for `cap`.
pub record Shares {S : Type 0} (t : Target) (w : World S) (s : Shared) (cap : ℕ) (blk : Block)
    (xs : List ℕ) (n : ℕ) : Type 0 where
  pub word : s.buf.cap_or_len ≡ tagged true (length xs)
  pub offset : s.buf.buf.offset ≡ buffer_offset t
  pub aligned : s.buf.buf.base % max t.header.align t.alignment ≡ 0
  pub there : w.blocks s.buf.buf.base ≡ some blk
  pub size : blk.length ≡ buffer_offset t + cap
  pub align : blk.align ≡ max t.header.align t.alignment
  pub recorded : blk.header.alloc_buffer_size ≡ cap
  pub counted : blk.header.ref_count ≡ n
  pub positive : 0 < cap
  pub fits : Fits t cap
  pub room : length xs ≤ cap
  pub bytes : load_list blk.bytes (buffer_offset t) (length xs) ≡ xs

-- A handle is only read where its block lies.
pub Shares-moved :
    {S S' : Type 0} {t : Target} {w : World S} {w' : World S'} {s : Shared} {cap : ℕ} {blk : Block}
    {xs : List ℕ} {n : ℕ}
    → w'.blocks s.buf.buf.base ≡ some blk
    → Shares t w s cap blk xs n
    → Shares t w' s cap blk xs n
Shares-moved there h = record {
  word = h.word;
  offset = h.offset;
  aligned = h.aligned;
  there = there;
  size = h.size;
  align = h.align;
  recorded = h.recorded;
  counted = h.counted;
  positive = h.positive;
  fits = h.fits;
  room = h.room;
  bytes = h.bytes;
}

module _ {S : Type 0} {t : Target} (v : IsTarget t) where
  pub Shares-bounds :
      {w : World S} {s : Shared} {cap : ℕ} {blk : Block} {xs : List ℕ} {n : ℕ}
      → Shares t w s cap blk xs n
      → (buffer_offset t + cap ≤ isize_max)
        × (value s.buf.cap_or_len ≡ length xs)
        × (is_allocated s.buf.cap_or_len ≡ true)
  Shares-bounds {xs} h =
      let some_align = align-pos v in
      let fits = h.fits in
      let room = h.room in
      rw h.word (
        omega arith,
        value-tagged true (length xs) (omega arith),
        is_allocated-tagged true (length xs) (omega arith),
      )

  read_shared :
      (w : World S) (p : Ptr) (blk : Block) (cap : ℕ) (xs : List ℕ)
      → p.offset ≡ buffer_offset t
      → w.blocks p.base ≡ some blk
      → blk.length ≡ buffer_offset t + cap
      → length xs ≤ cap
      → load_list blk.bytes (buffer_offset t) (length xs) ≡ xs
      → read_bytes t p (length xs) w ≡ done xs w
  unfolding read_bytes
  read_shared w p blk cap [] o there size room bytes = refl
  read_shared w p blk cap (x ∷ xs) o there size room bytes =
      ground (arith, header-le-buffer_offset v)

  -- Every handle reads the bytes of the buffer.
  pub as_slice-Shares :
      (a : BufferAllocator S) (w : World S) (s : Shared) (cap : ℕ) (blk : Block) (xs : List ℕ)
      (n : ℕ)
      → Shares t w s cap blk xs n
      → as_slice t a s w ≡ done xs w
  unfolding as_slice as_ptr len
  as_slice-Shares a w s cap blk xs n h =
      let bounds = Shares-bounds h in
      rw bounds.1 (read_shared w s.buf.buf blk cap xs h.offset h.there h.size h.room h.bytes)
