-- ===== src/Shared/Sharing.antt =====
-- Sharing a buffer, counting its handles, and getting it back.
use rkyv_utils.Prelude.{
  ℕ, ◌≤◌, ◌≡◌, refl, true, ok, err, List, [], isize_max, length, arith, Bool-cases, inl, inr, ◌==◌,
  ◌≢◌, false, ap, ◌∙◌,
}
use rkyv_utils.TaggedCap.{is_allocated}
use rkyv_utils.TaggedCap.Fields.{
  tagged, value-tagged, is_allocated-tagged, with_value-tagged, new-tagged,
}
use rkyv_utils.Memory.{
  Target, Block, World, load_list, read_bytes, done, ptr_sub, load_header, ◌>>=◌,
}
use rkyv_utils.BufferLayout.{buffer_offset}
use rkyv_utils.BufferLayout.Fits.{IsTarget}
use rkyv_utils.Alloc.{BufferAllocator}
use rkyv_utils.Raw
use rkyv_utils.Raw.{Raw}
use rkyv_utils.Raw.Holds.{Owns, unallocated, allocated, Owns-bounds}
use rkyv_utils.Unique.{Unique}
use rkyv_utils.Unique.Contents.{Contains}
use rkyv_utils.Shared.{Shared, into_shared, try_unique, is_unique, as_slice, as_ptr, len}
use rkyv_utils.Shared.Handles.{Shares, Shares-bounds, as_slice-Shares}

module _ {S : Type 0} {t : Target} (v : IsTarget t) (a : BufferAllocator S) where
  -- The handle on a buffer once it is shared.
  abbrev pub shared : Unique → List ℕ → Shared
  shared u xs = record { buf = record { buf = u.buf.buf; cap_or_len = tagged true (length xs) } }

  pub into_shared-owned :
      (w : World S) (u : Unique) (cap : ℕ) (blk : Block) (xs : List ℕ)
      → Owns t w u.buf cap blk
      → length xs ≤ cap
      → u.len ≡ length xs
      → into_shared t a u w ≡ done (shared u xs) w
  unfolding into_shared Raw.reset_len
  into_shared-owned w u cap blk xs o room l =
      let bounds = Owns-bounds v o in
      let small : cap ≤ isize_max = omega arith in
      let word = with_value-tagged t.debug true cap (length xs) (omega arith) (omega arith) in
      let back = value-tagged true (length xs) (omega arith) in
      ground (arith, o.allocated, word, back, value-tagged true cap (omega arith))

  -- A handle reads the count of the header.
  pub ref_count-Shares :
      (w : World S) (s : Shared) (cap : ℕ) (blk : Block) (xs : List ℕ) (n : ℕ)
      → Shares t w s cap blk xs n
      → Raw.ref_count t a s.buf w ≡ done n w
  unfolding Raw.ref_count ptr_sub load_header
  ref_count-Shares w s cap blk xs n h =
      let bounds = Shares-bounds v h in ground (arith, h.word, h.offset, h.there, h.counted)

  pub try_unique-alone :
      (w : World S) (s : Shared) (cap : ℕ) (blk : Block) (xs : List ℕ)
      → Shares t w s cap blk xs 1
      → try_unique t a s w
        ≡ done
            (ok (record {
              buf = record { buf = s.buf.buf; cap_or_len = tagged true cap };
              len = length xs;
            }))
            w
  unfolding try_unique is_unique Raw.is_unique Raw.reset_cap ptr_sub load_header len
  try_unique-alone w s cap blk xs h =
      let bounds = Shares-bounds v h in
      let count = ref_count-Shares w s cap blk xs 1 h in
      let full = new-tagged t.debug true cap (omega arith) in
      rw count (ground (arith, h.word, h.offset, h.there, h.recorded))

  -- What sharing a unique buffer gives: one handle.
  pub into_shared-Shares :
      (w : World S) (u : Unique) (cap : ℕ) (blk : Block) (xs : List ℕ)
      → Owns t w u.buf cap blk
      → length xs ≤ cap
      → load_list blk.bytes (buffer_offset t) (length xs) ≡ xs
      → Shares t w (shared u xs) cap blk xs 1
  into_shared-Shares w u cap blk xs o room bytes = record {
    word = refl;
    offset = o.offset;
    aligned = o.aligned;
    there = o.there;
    size = o.size;
    align = o.align;
    recorded = o.recorded;
    counted = o.single;
    positive = o.positive;
    fits = o.fits;
    room = room;
    bytes = bytes;
  }

  -- A well-formed buffer with an allocation that is shared and then taken back, while there is one
  -- handle, is the buffer that it was, with its whole capacity, and memory is unchanged.
  pub try_unique-into_shared :
      (w : World S) (u : Unique) (xs : List ℕ)
      → Contains t w u xs
      → is_allocated u.buf.cap_or_len ≡ true
      → (into_shared t a u >>= try_unique t a) w ≡ done (ok u) w
  unfolding Raw.new_in
  try_unique-into_shared w u xs c real = elim c.holds [
    | unallocated e z n ↦ absurd (empty e)
    | allocated blk o room bytes ↦
        rw
          (
            into_shared-owned w u c.cap blk xs o room c.len,
            try_unique-alone w (shared u xs) c.cap blk xs
                (into_shared-Shares w u c.cap blk xs o room bytes),
          )
          (ground (arith, o.allocated, c.len))
  ]
    where
      empty : u.buf ≡ Raw.new_in → ⊥
      empty e =
          let none = is_allocated-tagged false 0 (omega arith) in ground (arith, e, real, none)

  into_shared-empty :
      (w : World S) (u : Unique)
      → u.buf ≡ Raw.new_in
      → u.len ≡ 0
      → (into_shared t a u >>= as_slice t a) w ≡ done [] w
  unfolding into_shared as_slice Raw.reset_len Raw.new_in as_ptr len read_bytes
  into_shared-empty w u e l =
      let word = with_value-tagged t.debug false 0 0 (omega arith) (omega arith) in
      let read = value-tagged false 0 (omega arith) in rw (e, l, word) (ground (arith, read))

  -- Sharing a buffer changes nothing in memory, and the shared buffer reads the same bytes.
  pub as_slice-into_shared :
      (w : World S) (u : Unique) (xs : List ℕ)
      → Contains t w u xs
      → (into_shared t a u >>= as_slice t a) w ≡ done xs w
  as_slice-into_shared w u xs c = elim c.holds [
    | unallocated e z n ↦ (rw n (into_shared-empty w u e (c.len ∙ ap length n)))
    | allocated blk o room bytes ↦ rw (into_shared-owned w u c.cap blk xs o room c.len) (
        as_slice-Shares v a w (shared u xs) c.cap blk xs 1
          (into_shared-Shares w u c.cap blk xs o room bytes))
  ]

  -- While there are more handles, `try_unique` gives back the handle that came in.
  pub try_unique-Shares :
      (w : World S) (s : Shared) (cap : ℕ) (blk : Block) (xs : List ℕ) (n : ℕ)
      → Shares t w s cap blk xs n
      → n ≢ 1
      → try_unique t a s w ≡ done (err s) w
  unfolding try_unique is_unique Raw.is_unique
  try_unique-Shares w s cap blk xs n h more =
      let count = ref_count-Shares w s cap blk xs n h in
      elim (Bool-cases (n == 1)) [
        | inl one ↦ absurd (ground (arith, one, more))
        | inr none_left ↦ rw (count, none_left) refl
      ]
