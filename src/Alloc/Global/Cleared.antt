-- ===== src/Alloc/Global/Cleared.antt =====
-- crates/aligned-buffer/src/alloc.rs: what `grow_impl` does behind `realloc`.
use rkyv_utils.Prelude.{
  ℕ, ◌+◌, ◌-◌, ◌≤◌, ◌<◌, ◌≡◌, isize_max, wrapping_sub, fun_ext, refl, Option, none, some, arith,
  le→leb, true, false,
}
use rkyv_utils.Layout.{Layout, IsLayout}
use rkyv_utils.Memory.{Target, Block, World, Ptr, put, done, write_zeroes, zeroed, ptr_add}
use rkyv_utils.Memory.Ends
use rkyv_utils.Memory.Ends.{Ends, ends, at_base}
use rkyv_utils.Alloc.Contract.{Keeps, Extends, Answer}
use rkyv_utils.Alloc.Global.{System, clear_rest, slice_of}

abbrev cleared_from : Block → ℕ → ℕ → Block
cleared_from c i n = record c { bytes = zeroed c.bytes i n }

module _ {S : Type 0} (t : Target) (sys : System S) where
  pub clear_rest-false :
      (n m : ℕ) (r : Option Ptr) (w : World S)
      → clear_rest t sys false n m r w ≡ done (slice_of m r) w
  unfolding clear_rest
  clear_rest-false n m none w = refl
  clear_rest-false n m (some p) w = refl

  -- The bytes that `realloc` added are cleared, and the others stay.
  pub clear_rest-Answer :
      (X : Type 0) (base : ℕ) (b : Block) (old new : Layout) (r : Option Ptr) (w w1 : World S)
      → IsLayout new
      → 0 < old.size
      → t.header.size ≤ old.size
      → old.size ≤ new.size
      → Answer X w.blocks (put w.blocks base none) new (Keeps old.size b) (slice_of new.size r) w1
      → Ends
          (Answer X w.blocks (put w.blocks base none) new (Extends old.size b))
          ⊥
          ⊥
          (clear_rest t sys true old.size new.size r w1)
  unfolding clear_rest write_zeroes
  clear_rest-Answer X base b old new none w w1 layout pos low le failed = ends failed
  clear_rest-Answer X base b old new (some p) w w1 layout pos low le (c, fresh, kept, e) =
      let there : w1.blocks p.base ≡ some c = ground (arith, at_base e p.base) in
      let small : new.size ≤ isize_max + 1 = omega (arith, layout.fits) in
      let rest : wrapping_sub new.size old.size ≡ new.size - old.size = omega arith in
      let n = new.size - old.size in
      let w2 = record w1 { blocks = put w1.blocks p.base (some (cleared_from c old.size n)) } in
      let clear : write_zeroes t (ptr_add p old.size) n w1 ≡ done tt w2 =
        ground (arith, there, fresh.at_start, fresh.length) in
      rw (Ends.debug_assert-true t w1 (le→leb _ _ le), rest, clear)
        (ends (
          cleared_from c old.size n,
          record {
            at_start = fresh.at_start;
            fresh = fresh.fresh;
            enough = fresh.enough;
            small = fresh.small;
            length = fresh.length;
            align = fresh.align;
            aligned = fresh.aligned;
          },
          record {
            kept = record {
              header = kept.header;
              bytes = λ i low_i. ground (arith, kept.bytes i low_i);
            };
            zero = λ i low_i high. ground (arith, fresh.length);
          },
          fun_ext (λ q. ground (arith, at_base e q)),
        ))
