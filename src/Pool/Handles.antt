-- ===== src/Pool/Handles.antt =====
-- crates/aligned-buffer-pool/src/buffer_pool.rs: the constructors of `AlignedBufferPool`, and its
-- weak references.
use rkyv_utils.Prelude.{ℕ, ◌≡◌, refl, Bool, true, Option, some, [], arith, if◌then◌else◌}
use rkyv_utils.Memory.{Target, Cmd, done}
use rkyv_utils.Alloc.{Allocator}
use rkyv_utils.Unique.{Unique}
use rkyv_utils.Queue.{ArrayQueue, IsArrayQueue}
use rkyv_utils.Pool
use rkyv_utils.Pool.{PoolState}

-- The policy is one of the parameters, `P::default()` included.
module _ {Q R : Type 0} (t : Target) (queue : ArrayQueue Unique Q) (policy : ℕ → Bool)
    (a : Allocator R) where
  unfoldable pub new_in : (capacity : ℕ) → R → Option (PoolState Q R)
  new_in capacity rest = Pool.new_in t queue policy a capacity rest

  unfoldable pub with_policy : (capacity : ℕ) → R → Option (PoolState Q R)
  unfolding new_in
  with_policy capacity rest = new_in capacity rest

  unfoldable pub with_capacity_in : (capacity : ℕ) → R → Option (PoolState Q R)
  unfolding new_in
  with_capacity_in capacity rest = new_in capacity rest

  unfoldable pub new : (capacity : ℕ) → R → Option (PoolState Q R)
  unfolding with_policy
  new capacity rest = with_policy capacity rest

  unfoldable pub with_capacity : (capacity : ℕ) → R → Option (PoolState Q R)
  unfolding with_capacity_in
  with_capacity capacity rest = with_capacity_in capacity rest

  unfoldable pub get : Cmd (PoolState Q R) Unique
  get = Pool.get t queue policy a

  -- `WeakAlignedBufferPool::with`: nothing happens where the pool is gone.
  unfoldable pub with_inner : Cmd (PoolState Q R) (Unit {0}) → Cmd (PoolState Q R) (Unit {0})
  with_inner f w = if w.state.alive then f w else done tt w

  -- A pool that is made for some buffers is there, and has none yet.
  pub new-empty :
      (laws : IsArrayQueue queue) (capacity : ℕ) (rest : R) (q : Q)
      → queue.new capacity ≡ some q
      → (new capacity rest ≡ some (record { alive = true; pool = q; rest = rest }))
        × (with_capacity capacity rest ≡ new capacity rest)
        × (queue.items q ≡ [])
  unfolding new with_capacity Pool.new_in
  new-empty laws capacity rest q e = (ground (arith, e), refl, (laws.new_lem capacity q e).0)
