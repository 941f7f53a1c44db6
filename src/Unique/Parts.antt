-- ===== src/Unique/Parts.antt =====
-- crates/aligned-buffer/src/unique.rs: buffers of the allocator `Global`, taken apart and put
-- together, and the views that read the whole buffer.
use rkyv_utils.Prelude.{ℕ, ◌≤◌, ◌≡◌, List, [], length, length-take, take, arith}
use rkyv_utils.TaggedCap.{TaggedCap}
use rkyv_utils.Memory.{Target, World, Ptr, Cmd, done}
use rkyv_utils.Memory.Ends.{Ends}
use rkyv_utils.BufferLayout.Fits.{IsTarget, Fits}
use rkyv_utils.Alloc.{BufferAllocator}
use rkyv_utils.Alloc.Global.{System, global_buffers}
use rkyv_utils.Alloc.Global.Lawful.{IsSystem, global-IsAllocator}
use rkyv_utils.Raw
use rkyv_utils.Unique.{Unique, as_slice, new_in, with_capacity_in, truncate}
use rkyv_utils.Unique.Append.{Becomes}
use rkyv_utils.Unique.Build.{with_capacity_in-Becomes}
use rkyv_utils.Unique.Contents.{Contains, as_slice-Contains}
use rkyv_utils.Unique.Resize.{truncate-Contains}

unfoldable pub new : Unique
new = new_in

-- `Default`, for any allocator.
unfoldable pub default : Unique
default = new_in

unfoldable pub into_raw_parts : Unique → Ptr × ℕ × TaggedCap
into_raw_parts u = let (ptr, cap) = Raw.Parts.into_raw_parts u.buf in (ptr, u.len, cap)

unfoldable pub from_raw_parts : Ptr → (len : ℕ) → TaggedCap → Unique
from_raw_parts ptr len capacity = record { buf = Raw.Parts.from_raw_parts ptr capacity; len = len }

unfoldable pub len : Unique → ℕ
len u = u.len

unfoldable pub as_mut_ptr : Unique → Ptr
as_mut_ptr u = Raw.Parts.ptr u.buf

unfoldable pub with_capacity : {S : Type 0} → Target → System S → ℕ → Cmd S Unique
with_capacity t system capacity = with_capacity_in t (global_buffers t system) capacity

-- What `&mut` views see when they are made.
module _ {S : Type 0} (t : Target) (a : BufferAllocator S) where
  unfoldable pub as_mut_slice : Unique → Cmd S (List ℕ)
  as_mut_slice u = as_slice t a u

  unfoldable pub as_ref : Unique → Cmd S (List ℕ)
  as_ref u = as_slice t a u

  unfoldable pub as_mut : Unique → Cmd S (List ℕ)
  unfolding as_mut_slice
  as_mut u = as_mut_slice u

module _ {S : Type 0} {t : Target} (v : IsTarget t) where
  -- A buffer that is put together from the parts of another with a smaller length has the bytes in
  -- front.
  pub from_raw_parts-Contains :
      (a : BufferAllocator S) (w : World S) (u : Unique) (xs : List ℕ) (n : ℕ)
      → Contains t w u xs
      → n ≤ len u
      → Contains t w (let (p, l, c) = into_raw_parts u in from_raw_parts p n c) (take n xs)
  unfolding into_raw_parts from_raw_parts Raw.Parts.into_raw_parts Raw.Parts.from_raw_parts truncate
      len
  from_raw_parts-Contains a w u xs n c short =
      let kept = truncate-Contains v a w u xs n c in
      record { cap = kept.cap; holds = kept.holds; len = omega (arith, c.len, length-take n xs) }

  -- Every view reads the contents.
  pub views-Contains :
      (a : BufferAllocator S) (w : World S) (u : Unique) (xs : List ℕ)
      → Contains t w u xs
      → (as_mut_slice t a u w ≡ done xs w)
        × (as_ref t a u w ≡ done xs w)
        × (as_mut t a u w ≡ done xs w)
        × (len u ≡ length xs)
  unfolding as_mut_slice as_ref as_mut len
  views-Contains a w u xs c = let read = as_slice-Contains v a w u xs c in (read, read, read, c.len)

  -- `with_capacity` makes an empty buffer.
  pub with_capacity-Becomes :
      {X : Type 0} (system : System S) (law : IsSystem system X) (w : World S) (n : ℕ)
      → Ends (Becomes t w new []) (¬ Fits t n) X (with_capacity t system n w)
  unfolding with_capacity new
  with_capacity-Becomes system law w n =
      with_capacity_in-Becomes v (global_buffers t system) (global-IsAllocator t system law) w n
