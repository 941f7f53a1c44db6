-- ===== src/Shared/Views.antt =====
-- crates/aligned-buffer/src/shared.rs: constructors, conversions, and indexing.
use rkyv_utils.Prelude.{ℕ, ◌≡◌, refl, Result, List, get_elem?}
use rkyv_utils.Memory.{Target, Block, World, Cmd, done, or_panic, ◌>>=◌}
use rkyv_utils.BufferLayout.Fits.{IsTarget}
use rkyv_utils.Alloc.{BufferAllocator}
use rkyv_utils.Unique.{Unique}
use rkyv_utils.Shared.{Shared, new_in, as_slice, into_shared, try_unique}
use rkyv_utils.Shared.Handles.{Shares, as_slice-Shares}

unfoldable pub new : Shared
new = new_in

-- `Default`, for any allocator.
unfoldable pub default : Shared
default = new_in

module _ {S : Type 0} (t : Target) (a : BufferAllocator S) where
  -- `SharedAlignedBuffer::from(buf)`
  unfoldable pub from : Unique → Cmd S Shared
  from buf = into_shared t a buf

  -- `UniqueAlignedBuffer::try_from(value)`
  unfoldable pub try_from : Shared → Cmd S (Result Unique Shared)
  try_from value = try_unique t a value

  unfoldable pub as_ref : Shared → Cmd S (List ℕ)
  as_ref s = as_slice t a s

  -- `buf[i]`
  unfoldable pub index : Shared → ℕ → Cmd S ℕ
  index s i = do xs ← as_slice t a s; or_panic (get_elem? xs i)

-- Every handle reads the same byte at the same index, or panics, if it is out of bounds.
pub index-Shares :
    {S : Type 0} {t : Target} (v : IsTarget t) (a : BufferAllocator S) (w : World S) (s : Shared)
    (cap : ℕ) (blk : Block) (xs : List ℕ) (n i : ℕ)
    → Shares t w s cap blk xs n
    → (index t a s i w ≡ or_panic (get_elem? xs i) w) × (as_ref t a s w ≡ done xs w)
unfolding index as_ref
index-Shares v a w s cap blk xs n i h =
    let read = as_slice-Shares v a w s cap blk xs n h in (rw read refl, read)
