-- ===== src/Alloc/Global/Lawful.antt =====
-- `Global`, and the contract of the trait. What the documentation of std::alloc promises of its
-- functions is `IsSystem`.
use native.Mathlib.Nat.{mod-eq_of_lt}
use rkyv_utils.Prelude.{
  ℕ, ◌%◌, ◌<◌, ◌≡◌, refl, sym, subst, min, none, some, arith, le→leb, true, false, Bool-cases, inl,
  inr, ◌==◌,
}
use rkyv_utils.Layout.{Layout, IsLayout}
use rkyv_utils.Memory.{Target, Block, World, ptr, put, done, address, dangling}
use rkyv_utils.Memory.Ends
use rkyv_utils.Memory.Ends.{Ends, ends, at_base}
use rkyv_utils.Alloc.Contract.{
  FitsBlock, Keeps, IsZeroed, Answer, Allocates, Deallocates, IsAllocator,
}
use rkyv_utils.Alloc.Default.Lawful.{relocate-Answer, overwritten-Keeps, overwritten-Extends}
use rkyv_utils.Alloc.Global.Cleared.{clear_rest-false, clear_rest-Answer}
use rkyv_utils.Alloc.Global.{
  System, slice_of, alloc_impl, allocate, allocate_zeroed, deallocate, grow_impl, grow, grow_zeroed,
  shrink, global,
}

-- The documentation of `alloc`, `alloc_zeroed`, `dealloc` and `realloc`, for the layouts that their safety rules
-- allow.
pub record IsSystem {S : Type 0} (sys : System S) (Exhausted : Type 0) : Type 0 where
  pub alloc :
      (l : Layout) (w : World S)
      → IsLayout l
      → 0 < l.size
      → Ends
          (λ r. Answer Exhausted w.blocks w.blocks l (λ _. Unit {0}) (slice_of l.size r))
          ⊥
          ⊥
          (sys.alloc l w)
  pub alloc_zeroed :
      (l : Layout) (w : World S)
      → IsLayout l
      → 0 < l.size
      → Ends
          (λ r. Answer Exhausted w.blocks w.blocks l IsZeroed (slice_of l.size r))
          ⊥
          ⊥
          (sys.alloc_zeroed l w)
  pub dealloc : Deallocates sys.dealloc
  pub realloc :
      (base : ℕ) (b : Block) (l : Layout) (new_size : ℕ) (w : World S)
      → w.blocks base ≡ some b
      → FitsBlock l b
      → 0 < new_size
      → IsLayout (record l { size = new_size })
      → Ends
          (λ r.
            Answer Exhausted w.blocks
              (put w.blocks base none)
              (record l { size = new_size })
              (Keeps (min l.size new_size) b)
              (slice_of new_size r))
          ⊥
          ⊥
          (sys.realloc (ptr base 0) l new_size w)

module _ {S : Type 0} (t : Target) (sys : System S) {X : Type 0} (law : IsSystem sys X) where
  alloc_impl-Answer : Allocates X (λ l. alloc_impl t sys l false)
  unfolding alloc_impl
  alloc_impl-Answer l w layout pos =
      let some_size : (l.size == 0) ≡ false = ground arith in
      rw some_size (Ends.chain (law.alloc l w layout pos) λ r w1 a. ends a)

  zeroed-Answer :
      (l : Layout) (w : World S)
      → IsLayout l
      → 0 < l.size
      → Ends (Answer X w.blocks w.blocks l IsZeroed) ⊥ ⊥ (alloc_impl t sys l true w)
  unfolding alloc_impl
  zeroed-Answer l w layout pos =
      let some_size : (l.size == 0) ≡ false = ground arith in
      rw some_size (Ends.chain (law.alloc_zeroed l w layout pos) λ r w1 a. ends a)

  allocate-Answer : Allocates X (allocate t sys)
  unfolding allocate
  allocate-Answer = alloc_impl-Answer

  deallocate-Answer : Deallocates (deallocate t sys)
  unfolding deallocate
  deallocate-Answer base b l w there fits pos =
      let some_size : (l.size == 0) ≡ false = ground arith in
      rw some_size (law.dealloc base b l w there fits pos)

  -- `realloc` to the size of a layout with the same alignment.
  realloc-Answer :
      (base : ℕ) (b : Block) (old new : Layout) (n : ℕ) (w : World S)
      → w.blocks base ≡ some b
      → FitsBlock old b
      → IsLayout new
      → 0 < new.size
      → old.align ≡ new.align
      → min old.size new.size ≡ n
      → Ends
          (λ r. Answer X w.blocks (put w.blocks base none) new (Keeps n b) (slice_of new.size r))
          ⊥
          ⊥
          (sys.realloc (ptr base 0) old new.size w)
  realloc-Answer base b old new n w there fits layout pos same kept =
      let e : record old { size = new.size } ≡ new = ground (arith, same) in
      subst
        (λ (k : ℕ).
          Ends
            (λ r. Answer X w.blocks (put w.blocks base none) new (Keeps k b) (slice_of new.size r))
            ⊥ ⊥ (sys.realloc (ptr base 0) old new.size w))
        kept
        (subst
          (λ (l : Layout).
            Ends
              (λ r.
                Answer X w.blocks (put w.blocks base none) l (Keeps (min old.size new.size) b)
                  (slice_of new.size r))
              ⊥ ⊥ (sys.realloc (ptr base 0) old new.size w))
          e (law.realloc base b old new.size w there fits pos (subst IsLayout (sym e) layout)))

  -- On top of every system allocator that does what the documentation of std::alloc says, `Global`
  -- does what the `Allocator` trait promises for the layouts that raw buffers use: sizes above
  -- zero, room for a header in a block that is copied or cleared, and an old layout that is the
  -- whole block. allocate and allocate_zeroed give a new block that fits the layout, the second
  -- one zeroed; grow, grow_zeroed and shrink move the bytes that both sizes have, header included,
  -- to a block for the new layout, also with another alignment, and grow_zeroed clears the rest;
  -- deallocate frees exactly the block. A call fails only where memory is exhausted, with every
  -- block as it was, and none has undefined behaviour, panics or aborts.
  pub global-IsAllocator : IsAllocator t (global t sys) X
  unfolding grow grow_zeroed grow_impl allocate_zeroed shrink
  global-IsAllocator = record {
    allocate = allocate-Answer;
    allocate_zeroed = λ l w layout pos low. zeroed-Answer l w layout pos;
    deallocate = deallocate-Answer;
    grow = λ base b old new w there fits layout pos low le.
        let some_size : (old.size == 0) ≡ false = ground arith in
        rw (Ends.debug_assert-true t w (le→leb _ _ le), some_size)
          (elim (Bool-cases (old.align == new.align)) [
            | inl same ↦ rw same (
                Ends.chain
                  (realloc-Answer base b old new old.size w there fits layout (omega arith)
                    (ground (arith, same)) (omega arith))
                  λ r w1 a. rw (clear_rest-false t sys old.size new.size r w1) (ends a))
            | inr other ↦ rw other (
                Ends.chain (alloc_impl-Answer new w layout (omega arith)) λ answer w1 a.
                  relocate-Answer t (deallocate t sys) _ _ deallocate-Answer base old.size b old new
                    w w1 answer there fits pos low (omega arith) le
                    (λ c p. overwritten-Keeps t (deallocate t sys) b c old.size) a)
          ]);
    grow_zeroed = λ base b old new w there fits layout pos low le.
        let some_size : (old.size == 0) ≡ false = ground arith in
        rw (Ends.debug_assert-true t w (le→leb _ _ le), some_size)
          (elim (Bool-cases (old.align == new.align)) [
            | inl same ↦ rw same (
                Ends.chain
                  (realloc-Answer base b old new old.size w there fits layout (omega arith)
                    (ground (arith, same)) (omega arith))
                  λ r w1 a. clear_rest-Answer t sys X base b old new r w w1 layout pos low le a)
            | inr other ↦ rw other (
                Ends.chain (zeroed-Answer new w layout (omega arith)) λ answer w1 a.
                  relocate-Answer t (deallocate t sys) _ _ deallocate-Answer base old.size b old new
                    w w1 answer there fits pos low (omega arith) le
                    (λ c z. overwritten-Extends t (deallocate t sys) b c old.size z) a)
          ]);
    shrink = λ base b old new w there fits layout pos low le.
        let some_size : (new.size == 0) ≡ false = ground arith in
        rw (Ends.debug_assert-true t w (le→leb _ _ le), some_size)
          (elim (Bool-cases (old.align == new.align)) [
            | inl same ↦ rw same (
                Ends.chain
                  (realloc-Answer base b old new new.size w there fits layout pos
                    (ground (arith, same)) (omega arith))
                  λ r w1 a. ends a)
            | inr other ↦ rw other (
                Ends.chain (allocate-Answer new w layout pos) λ answer w1 a.
                  relocate-Answer t (deallocate t sys) _ _ deallocate-Answer base new.size b old new
                    w w1 answer there fits (omega arith) low le (omega arith)
                    (λ c p. overwritten-Keeps t (deallocate t sys) b c new.size) a)
          ]);
  }

-- For a layout of size zero `Global` answers the address 1, whatever the alignment: it is aligned
-- only where the alignment is 1.
pub allocate_zero_size :
    {S : Type 0} (t : Target) (sys : System S) (align : ℕ) (w : World S)
    → 1 < align
    → (allocate t sys (record { size = 0; align = align }) w
        ≡ done (some (record { start = dangling; len = 0 })) w)
      × (address dangling % align ≡ 1)
unfolding allocate alloc_impl
allocate_zero_size t sys align w h = (refl, mod-eq_of_lt h)
