-- ===== src/Raw/Alloc.antt =====
-- A first allocation.
use rkyv_utils.Prelude.{
  ℕ, ◌+◌, ◌-◌, ◌≤◌, ◌<◌, ◌≡◌, ◌≢◌, refl, true, false, Option, none, some, ok, [], isize_max, arith,
  ◌==◌, not,
}
use rkyv_utils.TaggedCap.{value, is_allocated, zero_cap}
use rkyv_utils.TaggedCap.Fields.{tagged, new-tagged, value-tagged, is_allocated-tagged}
use rkyv_utils.Memory.{
  Target, Block, World, done, put, ptr_add, load_list, store_header, debug_assert,
}
use rkyv_utils.Memory.Ends
use rkyv_utils.Memory.Ends.{Ends, ends}
use rkyv_utils.BufferLayout.{buffer_offset}
use rkyv_utils.BufferLayout.Fits.{
  IsTarget, full_layout, full_layout-IsLayout, dec_Fits, layout-Fits, layout-not_Fits,
  alloc_guard-passes, align-pos,
}
use rkyv_utils.Alloc.{Slice, BufferAllocator}
use rkyv_utils.Alloc.Contract.{IsNewBlock, IsAllocator, Answer}
use rkyv_utils.Raw.{Raw, new_in, install, alloc, alloc_answer}
use rkyv_utils.Raw.Holds.{Owns, allocated, Frame, Grows}

module _ {S : Type 0} {t : Target} (v : IsTarget t) (a : BufferAllocator S) where
  -- The header that `alloc` writes, and the handle that it makes.
  abbrev fresh_block : Slice → Block → Block
  fresh_block s b = record b {
    header = record { ref_count = 1; alloc_buffer_size = s.len - buffer_offset t };
  }

  abbrev fresh_raw : Slice → Raw
  fresh_raw s = record {
    buf = ptr_add s.start (buffer_offset t);
    cap_or_len = tagged true (s.len - buffer_offset t);
  }

  install_lem :
      (s : Slice) (b : Block) (w : World S)
      → s.start.offset ≡ 0
      → buffer_offset t ≤ s.len
      → s.len ≤ isize_max
      → w.blocks s.start.base ≡ some b
      → install t a s w
        ≡ done
            (fresh_raw s, ok tt)
            (record w { blocks = put w.blocks s.start.base (some (fresh_block s b)) })
  unfolding install store_header
  install_lem s b w start enough small there =
      ground (arith, new-tagged t.debug true (s.len - buffer_offset t) (omega arith))

  fresh-Owns :
      (s : Slice) (b : Block) (w w' : World S) (cap : ℕ)
      → 0 < cap
      → IsNewBlock w.blocks (full_layout t cap) s b
      → w'.blocks ≡ put w.blocks s.start.base (some b)
      → Owns t
          (record w' { blocks = put w'.blocks s.start.base (some (fresh_block s b)) })
          (fresh_raw s)
          (s.len - buffer_offset t)
          (fresh_block s b)
  fresh-Owns s b w w' cap pos n e = record {
    allocated = refl;
    offset = ground arith;
    aligned = n.aligned;
    there = ground arith;
    size = ground arith;
    align = n.align;
    recorded = refl;
    single = refl;
    positive = omega arith;
    fits = omega arith;
  }

  fresh-Frame :
      (s : Slice) (b : Block) (w w' : World S)
      → w.blocks s.start.base ≡ none
      → w'.blocks ≡ put w.blocks s.start.base (some b)
      → Frame w new_in
          (record w' { blocks = put w'.blocks s.start.base (some (fresh_block s b)) })
          (fresh_raw s)
  fresh-Frame s b w w' free e p c real other there =
      let apart : p ≢ s.start.base = ground arith in (ground (arith, Ends.at_base e p), apart)

  alloc_answer-Grows :
      {X : Type 0} (cap : ℕ) (w : World S)
      → 0 < cap
      → (answer : Option Slice) (w' : World S)
      → Answer X w.blocks w.blocks (full_layout t cap) (λ _. Unit {0}) answer w'
      → Ends
          (Grows t X w new_in [] cap cap)
          ⊥
          ⊥
          (alloc_answer t a new_in (full_layout t cap) answer w')
  unfolding alloc_answer load_list
  alloc_answer-Grows cap w pos none w' (x, same) = ends (x, refl, same)
  alloc_answer-Grows cap w pos (some s) w' (b, n, _, e) =
      let there : w'.blocks s.start.base ≡ some b = ground (arith, Ends.at_base e s.start.base) in
      let some_align = align-pos v in
      Ends.ends_of_eq (install_lem s b w' n.at_start (omega arith) (omega arith) there) (
        s.len - buffer_offset t,
        omega arith,
        allocated (fresh_block s b) (fresh-Owns s b w w' cap pos n e) (omega arith) refl,
        fresh-Frame s b w w' n.fresh e,
      )

  -- Whatever the allocator answers, a first allocation for `cap` bytes meets the request or leaves
  -- the buffer as it was.
  pub alloc-Grows :
      {X : Type 0}
      → IsAllocator t a.allocator X
      → (cap : ℕ) (w : World S) → 0 < cap
      → Ends (Grows t X w new_in [] cap cap) ⊥ ⊥ (alloc t a new_in cap w)
  unfolding alloc new_in
  alloc-Grows {X} law cap w pos =
      rw (asserted w, asserted' w)
        (elim (dec_Fits t cap) [
          | yes fits ↦
              rw (layout-Fits v cap w fits, alloc_guard-passes t (buffer_offset t + cap) w)
                (Ends.chain
                  (law.allocate (full_layout t cap) w (full_layout-IsLayout v cap fits)
                    (omega arith))
                  (alloc_answer-Grows cap w pos))
          | no too_large ↦ rw (layout-not_Fits v cap w too_large) (ends (too_large, refl, refl))
        ])
    where
      asserted : (w : World S) → debug_assert t (value zero_cap == 0) w ≡ done tt w
      asserted w = Ends.debug_assert-true t w (ground (arith, value-tagged false 0))

      asserted' : (w : World S) → debug_assert t (not (is_allocated zero_cap)) w ≡ done tt w
      asserted' w = Ends.debug_assert-true t w (ground (arith, is_allocated-tagged false 0))
