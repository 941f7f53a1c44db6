-- ===== src/Alloc/Borrowed.antt =====
-- crates/aligned-buffer/src/alloc.rs: `Allocator` for `&A`, `by_ref`, and the parts of a raw buffer.
use rkyv_utils.TaggedCap.{TaggedCap}
use rkyv_utils.Memory.{Target, Ptr}
use rkyv_utils.Alloc.{Allocator, RawBuffer}
use rkyv_utils.Alloc.Contract.{IsAllocator}

-- `impl Allocator for &A`
unfoldable pub borrowed : {S : Type 0} → Allocator S → Allocator S
borrowed a = record {
  allocate = λ layout. a.allocate layout;
  allocate_zeroed = λ layout. a.allocate_zeroed layout;
  deallocate = λ p layout. a.deallocate p layout;
  grow = λ p old_layout new_layout. a.grow p old_layout new_layout;
  grow_zeroed = λ p old_layout new_layout. a.grow_zeroed p old_layout new_layout;
  shrink = λ p old_layout new_layout. a.shrink p old_layout new_layout;
}

unfoldable pub by_ref : {S : Type 0} → Allocator S → Allocator S
unfolding borrowed
by_ref a = borrowed a

unfoldable pub new : Ptr → TaggedCap → RawBuffer
new buf capacity = record { buf = buf; cap = capacity }

unfoldable pub buf_ptr : RawBuffer → Ptr
buf_ptr raw = raw.buf

unfoldable pub capacity : RawBuffer → TaggedCap
capacity raw = raw.cap

-- A borrowed allocator keeps the contract of the one that it borrows.
pub by_ref-IsAllocator :
    {S X : Type 0} (t : Target) (a : Allocator S) → IsAllocator t a X → IsAllocator t (by_ref a) X
unfolding by_ref borrowed
by_ref-IsAllocator t a law = record {
  allocate = law.allocate;
  allocate_zeroed = law.allocate_zeroed;
  deallocate = law.deallocate;
  grow = law.grow;
  grow_zeroed = law.grow_zeroed;
  shrink = law.shrink;
}
