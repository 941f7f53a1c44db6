-- ===== src/Shared/Empty.antt =====
-- What the buffer that never allocated does when it is shared.
use rkyv_utils.Prelude.{◌≡◌, refl, true, false, arith}
use rkyv_utils.TaggedCap.Fields.{value-tagged, is_allocated-tagged}
use rkyv_utils.Memory.{Target, World, panic}
use rkyv_utils.Alloc.{BufferAllocator}
use rkyv_utils.Raw
use rkyv_utils.Raw.{Raw}
use rkyv_utils.Shared.{new_in, ref_count, is_unique, try_unique}

module _ {S : Type 0} (t : Target) (a : BufferAllocator S) where
  -- With debug assertions, the buffer that never allocated has no reference count, cannot be asked
  -- whether it is unique, and cannot become unique again: each of these panics.
  pub try_unique_empty :
      t.debug ≡ true
      → (w : World S)
      → (ref_count t a new_in w ≡ panic)
        × (is_unique t a new_in w ≡ panic)
        × (try_unique t a new_in w ≡ panic)
  unfolding ref_count is_unique try_unique new_in Raw.ref_count Raw.is_unique Raw.new_in
  try_unique_empty d w =
      rw (is_allocated-tagged false 0 (omega arith), value-tagged false 0 (omega arith), d)
        (refl, refl, refl)
