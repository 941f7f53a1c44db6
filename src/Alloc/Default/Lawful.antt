-- ===== src/Alloc/Default/Lawful.antt =====
-- The provided methods, and the contract of the trait.
use rkyv_utils.Prelude.{
  ℕ, ◌≤◌, ◌<◌, ◌≡◌, ◌≢◌, refl, ap, ◌∙◌, fun_ext, Option, none, some, arith, le→leb,
}
use rkyv_utils.Layout.{Layout, IsLayout}
use rkyv_utils.Memory.{
  Target, Block, World, Ptr, ptr, put, Cmd, done, copied, zeroed, zero_header, copy_nonoverlapping,
  write_zeroes,
}
use rkyv_utils.Memory.Ends
use rkyv_utils.Memory.Ends.{Ends, ends, at_base}
use rkyv_utils.Alloc.{Slice}
use rkyv_utils.Alloc.Contract.{
  FitsBlock, Keeps, IsZeroed, Extends, Answer, Allocates, Deallocates, IsAllocator,
}
use rkyv_utils.Alloc.Default.{
  relocate, fill_zero, default_allocate_zeroed, default_grow_zeroed, default_grow, default_shrink,
  with_defaults,
}

abbrev overwritten : Block → Block → ℕ → Block
overwritten b c n = record c { header = b.header; bytes = copied b.bytes c.bytes n }

abbrev cleared : Block → Block
cleared c = record c { header = zero_header; bytes = zeroed c.bytes 0 c.length }

module _ {S : Type 0} (t : Target) (deallocate : Ptr → Layout → Cmd S (Unit {0})) where
  -- A new block takes over the first `n` bytes of an old one, which is given back.
  pub relocate-Answer :
      {X : Type 0} (P Q : Block → Type 0)
      → Deallocates deallocate
      → (base n : ℕ) (b : Block) (old new : Layout) (w w1 : World S) (answer : Option Slice)
      → w.blocks base ≡ some b
      → FitsBlock old b
      → 0 < old.size
      → t.header.size ≤ n
      → n ≤ old.size
      → n ≤ new.size
      → ((c : Block) → P c → Q (overwritten b c n))
      → Answer X w.blocks w.blocks new P answer w1
      → Ends
          (Answer X w.blocks (put w.blocks base none) new Q)
          ⊥
          ⊥
          (relocate t deallocate (ptr base 0) old n answer w1)
  unfolding relocate copy_nonoverlapping
  relocate-Answer {X} P Q free base n b old new w w1 none there fits pos low le_old le_new over
        failed =
      ends failed
  relocate-Answer {X} P Q free base n b old new w w1 (some s) there fits pos low le_old le_new over
        (c, fresh, p, e) =
      let apart : s.start.base ≢ base = λ same. ground (arith, ap w.blocks same, fresh.fresh) in
      let old_there : w1.blocks base ≡ some b = ground (arith, at_base e base, apart) in
      let new_there : w1.blocks s.start.base ≡ some c = ground (arith, at_base e s.start.base) in
      let w2 = record w1 { blocks = put w1.blocks s.start.base (some (overwritten b c n)) } in
      let copy : copy_nonoverlapping t (ptr base 0) s.start n w1 ≡ done tt w2 =
        ground (arith, apart, fresh.at_start, fits.size, fresh.length, fresh.enough) in
      rw copy (
        Ends.chain (free base b old w2 (ground (arith, apart)) fits pos) λ _ w3 gone. ends (
          overwritten b c n,
          record {
            at_start = fresh.at_start;
            fresh = ground (arith, fresh.fresh, apart);
            enough = fresh.enough;
            small = fresh.small;
            length = fresh.length;
            align = fresh.align;
            aligned = fresh.aligned;
          },
          over c p,
          gone ∙ fun_ext (λ q. ground (arith, apart, at_base e q)),
        ))

  pub overwritten-Keeps : (b c : Block) (n : ℕ) → Keeps n b (overwritten b c n)
  overwritten-Keeps b c n = record { header = refl; bytes = λ i small. ground arith }

  pub overwritten-Extends : (b c : Block) (n : ℕ) → IsZeroed c → Extends n b (overwritten b c n)
  overwritten-Extends b c n z = record {
    kept = overwritten-Keeps b c n;
    zero = λ i low high. ground (arith, z.bytes i high);
  }

  fill_zero-Answer :
      {X : Type 0} (allocate : Layout → Cmd S (Option Slice)) (l : Layout) (w w1 : World S)
      (answer : Option Slice)
      → t.header.size ≤ l.size
      → Answer X w.blocks w.blocks l (λ _. Unit {0}) answer w1
      → Ends (Answer X w.blocks w.blocks l IsZeroed) ⊥ ⊥ (fill_zero t allocate answer w1)
  unfolding fill_zero write_zeroes
  fill_zero-Answer allocate l w w1 none low failed = ends failed
  fill_zero-Answer allocate l w w1 (some s) low (c, fresh, _, e) =
      let there : w1.blocks s.start.base ≡ some c = ground (arith, at_base e s.start.base) in
      let clear : write_zeroes t s.start s.len w1
          ≡ done tt (record w1 { blocks = put w1.blocks s.start.base (some (cleared c)) }) =
        ground (arith, there, fresh.at_start, fresh.length, fresh.enough) in
      rw clear (
        ends (
          cleared c,
          record {
            at_start = fresh.at_start;
            fresh = fresh.fresh;
            enough = fresh.enough;
            small = fresh.small;
            length = fresh.length;
            align = fresh.align;
            aligned = fresh.aligned;
          },
          record { header = refl; bytes = λ i small. ground arith },
          fun_ext (λ q. ground (arith, at_base e q)),
        ))

  default_zeroed-Answer :
      {X : Type 0} (allocate : Layout → Cmd S (Option Slice))
      → Allocates X allocate
      → (l : Layout) (w : World S) → IsLayout l
      → 0 < l.size
      → t.header.size ≤ l.size
      → Ends (Answer X w.blocks w.blocks l IsZeroed) ⊥ ⊥ (default_allocate_zeroed t allocate l w)
  unfolding default_allocate_zeroed
  default_zeroed-Answer allocate new l w layout pos low =
      Ends.chain (new l w layout pos) λ answer w1 a. fill_zero-Answer allocate l w w1 answer low a

  -- The allocate_zeroed, grow, grow_zeroed and shrink that the `Allocator` trait provides do what
  -- it promises of them for the layouts that raw buffers use: sizes above zero, room for a header
  -- in a block that is copied or cleared, and an old layout that is the whole block, whatever
  -- allocate and deallocate are that do what it promises of those for such layouts.
  pub with_defaults-IsAllocator :
      {X : Type 0} (allocate : Layout → Cmd S (Option Slice))
      → Allocates X allocate
      → Deallocates deallocate
      → IsAllocator t (with_defaults t allocate deallocate) X
  unfolding default_allocate_zeroed default_grow default_grow_zeroed default_shrink
  with_defaults-IsAllocator allocate new free = record {
    allocate = new;
    allocate_zeroed = λ l w layout pos low. default_zeroed-Answer allocate new l w layout pos low;
    deallocate = free;
    grow = λ base b old l w there fits layout pos low le.
        rw (Ends.debug_assert-true t w (le→leb _ _ le)) (
          Ends.chain (new l w layout (omega arith)) λ answer w1 a.
            relocate-Answer _ _ free base old.size b old l w w1 answer there fits pos low
              (omega arith) le (λ c p. overwritten-Keeps b c old.size) a);
    grow_zeroed = λ base b old l w there fits layout pos low le.
        rw (Ends.debug_assert-true t w (le→leb _ _ le)) (
          Ends.chain (default_zeroed-Answer allocate new l w layout (omega arith) (omega arith))
            λ answer w1 a.
              relocate-Answer _ _ free base old.size b old l w w1 answer there fits pos low
                (omega arith) le (λ c z. overwritten-Extends b c old.size z) a);
    shrink = λ base b old l w there fits layout pos low le.
        rw (Ends.debug_assert-true t w (le→leb _ _ le)) (
          Ends.chain (new l w layout pos) λ answer w1 a.
            relocate-Answer _ _ free base l.size b old l w w1 answer there fits (omega arith) low le
              (omega arith) (λ c p. overwritten-Keeps b c l.size) a);
  }
