-- ===== src/Pool/Rented.antt =====
-- crates/aligned-buffer-pool/src/buffer_pool.rs: buffers that are taken from a pool, changed by their
-- methods, and dropped, in any order.
pub mod Separate
pub mod Steps
pub mod Isolation
use rkyv_utils.Prelude.{ℕ, Bool, ◌≡◌, some, List, [], ◌∷◌, ◌++◌}
use rkyv_utils.Memory.{Target, World, Blocks, done}
use rkyv_utils.Alloc.{Allocator}
use rkyv_utils.Unique
use rkyv_utils.Unique.{Unique}
use rkyv_utils.Unique.Script.{Op, call, bytes_after, IsCall}
use rkyv_utils.Queue.{ArrayQueue}
use rkyv_utils.Pool.{PoolState, get, pooled, new_in}

-- The buffers in use, each with the bytes that its owner has put there.
abbrev pub Rented : Type 0
Rented = List (Unique × List ℕ)

module _ {Q R : Type 0} (t : Target) (queue : ArrayQueue Unique Q) (should_retain : ℕ → Bool)
    (a : Allocator R) where
  pub data Step (w : World (PoolState Q R)) (rented : Rented)
      : World (PoolState Q R) → Rented → Type 0 where
    taken :
        {u : Unique} {w' : World (PoolState Q R)}
        → get t queue should_retain a w ≡ done u w'
        → Step w rented w' ((u, []) ∷ rented)
    -- The pool stays as it is but where a buffer shrinks to nothing, which is left out here.
    called :
        {u' : Unique} {w' : World (PoolState Q R)} (front back : Rented) (u : Unique) (xs : List ℕ)
        (op : Op)
        → rented ≡ front ++ (u, xs) ∷ back
        → IsCall op
        → call t (pooled t queue should_retain a) op u w ≡ done u' w'
        → queue.items w'.state.pool ≡ queue.items w.state.pool
        → Step w rented w' (front ++ (u', bytes_after op xs) ∷ back)
    dropped :
        {w' : World (PoolState Q R)} (front back : Rented) (u : Unique) (xs : List ℕ)
        → rented ≡ front ++ (u, xs) ∷ back
        → Unique.drop t (pooled t queue should_retain a) u w ≡ done tt w'
        → Step w rented w' (front ++ back)

  -- From a new pool, with every buffer still to come.
  pub data Reach (capacity : ℕ) (rest : R) (blocks : Blocks)
      : World (PoolState Q R) → Rented → Type 0 where
    here :
        {pool : PoolState Q R}
        → new_in t queue should_retain a capacity rest ≡ some pool
        → Reach capacity rest blocks (record { blocks = blocks; state = pool }) []
    later :
        {w w' : World (PoolState Q R)} {rented rented' : Rented}
        → Reach capacity rest blocks w rented
        → Step w rented w' rented'
        → Reach capacity rest blocks w' rented'
