-- ===== src/Pool/Forward.antt =====
-- The allocator of the pool's buffers, and the contract of the trait.
use rkyv_utils.Prelude.{Option, none, some}
use rkyv_utils.Layout.{Layout}
use rkyv_utils.Memory.{Target, World, Block, Blocks, Run}
use rkyv_utils.Memory.Ends.{Ends, ends, panics, aborts}
use rkyv_utils.Alloc.{Allocator, Slice}
use rkyv_utils.Alloc.Contract.{IsAllocator, Answer}
use rkyv_utils.Pool.{PoolState, inner, outer, resume, forward}

module _ {Q R : Type 0} where
  pub resume-Ends :
      {A : Type 0} {P : A → World R → Type 0} {P' : A → World (PoolState Q R) → Type 0}
      {X Y : Type 0} (w : World (PoolState Q R)) {r : Run R A}
      → Ends P X Y r
      → ((x : A) (w' : World R) → P x w' → P' x (outer w w'))
      → Ends P' X Y (resume w r)
  resume-Ends w (ends p) f = ends (f _ _ p)
  resume-Ends w (panics x) f = panics x
  resume-Ends w (aborts y) f = aborts y

  Answer-outer :
      (X : Type 0) (m rest : Blocks) (l : Layout) (P : Block → Type 0) (w : World (PoolState Q R))
      (r : Option Slice) (w' : World R)
      → Answer X m rest l P r w'
      → Answer X m rest l P r (outer w w')
  Answer-outer X m rest l P w none w' a = a
  Answer-outer X m rest l P w (some s) w' a = a

  pub forward-IsAllocator :
      {X : Type 0} (t : Target) (a : Allocator R)
      → IsAllocator t a X
      → IsAllocator t (forward {Q = Q} a) X
  forward-IsAllocator t a law = record {
    allocate =
        λ l w h pos. resume-Ends w (law.allocate l (inner w) h pos) (Answer-outer _ _ _ _ _ w);
    allocate_zeroed = λ l w h pos low.
        resume-Ends w (law.allocate_zeroed l (inner w) h pos low) (Answer-outer _ _ _ _ _ w);
    deallocate = λ base b l w there fits pos.
        resume-Ends w (law.deallocate base b l (inner w) there fits pos) (λ _ w' e. e);
    grow = λ base b old l w there fits h pos low le.
        resume-Ends w (law.grow base b old l (inner w) there fits h pos low le)
          (Answer-outer _ _ _ _ _ w);
    grow_zeroed = λ base b old l w there fits h pos low le.
        resume-Ends w (law.grow_zeroed base b old l (inner w) there fits h pos low le)
          (Answer-outer _ _ _ _ _ w);
    shrink = λ base b old l w there fits h pos low le.
        resume-Ends w (law.shrink base b old l (inner w) there fits h pos low le)
          (Answer-outer _ _ _ _ _ w);
  }
