-- ===== src/Pool.antt =====
-- crates/aligned-buffer-pool/src/buffer_pool.rs: a pool of buffers that are given back, and the
-- allocator of its buffers. The pool is part of the allocator's state, since a buffer that is
-- dropped finds it through a weak reference.
pub mod Forward
pub mod Idle
pub mod Recycle
pub mod Reuse
pub mod Closing
pub mod Rented
pub mod Handles
use rkyv_utils.Prelude.{
  ℕ, Bool, true, false, Option, none, some, Result, ok, err, List, [], ◌∷◌, if◌then◌else◌, leb,
}
use rkyv_utils.TaggedCap.{value}
use rkyv_utils.Memory.{
  Target, World, Run, done, panic, abort, undefined, Cmd, pure, ◌>>=◌, ◌>>◌, or_panic,
}
use rkyv_utils.Alloc.{Allocator, BufferAllocator, RawBuffer, alloc_info}
use rkyv_utils.Unique
use rkyv_utils.Unique.{Unique}
use rkyv_utils.Queue.{ArrayQueue}

-- Whether the pool is still referred to (`Weak::upgrade`), its queue, and what the allocator below
-- it keeps.
pub record PoolState (Q R : Type 0) : Type 0 where
  pub alive : Bool
  pub pool : Q
  pub rest : R

module _ {Q R : Type 0} where
  abbrev pub inner : World (PoolState Q R) → World R
  inner w = record { blocks = w.blocks; state = w.state.rest }

  abbrev pub outer : World (PoolState Q R) → World R → World (PoolState Q R)
  outer w w' = record { blocks = w'.blocks; state = record w.state { rest = w'.state } }

  abbrev pub resume : {A : Type 0} → World (PoolState Q R) → Run R A → Run (PoolState Q R) A
  resume w (done a w') = done a (outer w w')
  resume w panic = panic
  resume w abort = abort
  resume w undefined = undefined

  -- A command of the allocator below leaves the pool alone.
  abbrev pub lift : {A : Type 0} → Cmd R A → Cmd (PoolState Q R) A
  lift m w = resume w (m (inner w))

  abbrev pub with_pool : World (PoolState Q R) → Q → World (PoolState Q R)
  with_pool w q = record w { state = record w.state { pool = q } }

  -- `impl Allocator for BufferPoolAllocator`
  abbrev pub forward : Allocator R → Allocator (PoolState Q R)
  forward a = record {
    allocate = λ l. lift (a.allocate l);
    allocate_zeroed = λ l. lift (a.allocate_zeroed l);
    deallocate = λ p l. lift (a.deallocate p l);
    grow = λ p old new. lift (a.grow p old new);
    grow_zeroed = λ p old new. lift (a.grow_zeroed p old new);
    shrink = λ p old new. lift (a.shrink p old new);
  }

-- `RetainAllRetentionPolicy` and `ConstMaxSizeRetentionPolicy`
unfoldable pub retain_all : ℕ → Bool
retain_all capacity = true

unfoldable pub retain_max : (size : ℕ) → ℕ → Bool
retain_max size capacity = leb capacity size

module _ {Q R : Type 0} (t : Target) (queue : ArrayQueue Unique Q) (should_retain : ℕ → Bool)
    (a : Allocator R) where
  -- The guard `DeallocOnDrop`.
  unfoldable pub dealloc_on_drop : RawBuffer → Cmd (PoolState Q R) (Unit {0})
  dealloc_on_drop raw = do (p, l) ← alloc_info t raw; lift (a.deallocate p l)

  -- After the push: a buffer that was refused is forgotten, and the guard dropped.
  pushed : RawBuffer → Result (Unit {0}) Unique → Cmd (PoolState Q R) (Unit {0})
  pushed raw (ok _) = pure tt
  pushed raw (err _) = dealloc_on_drop raw

  retain : RawBuffer → Cmd (PoolState Q R) (Unit {0})
  unfolding pushed
  retain raw w =
      let (q, r) = queue.push w.state.pool (Unique.from_raw_parts raw.buf 0 raw.cap) in
      pushed raw r (with_pool w q)

  -- Where the pool is gone the closure is dropped, and the guard with it.
  unfoldable pub deallocate_buffer : RawBuffer → Cmd (PoolState Q R) (Unit {0})
  unfolding retain
  deallocate_buffer raw w =
      if should_retain (value raw.cap)
      then (if w.state.alive then retain raw w else dealloc_on_drop raw w)
      else dealloc_on_drop raw w

  abbrev pub pooled : BufferAllocator (PoolState Q R)
  pooled = record { allocator = forward a; deallocate_buffer = deallocate_buffer }

  unfoldable pub or_new : Option Unique → Unique
  or_new none = Unique.new_in
  or_new (some u) = u

  unfoldable pub get : Cmd (PoolState Q R) Unique
  unfolding or_new
  get w = let (q, r) = queue.pop w.state.pool in done (or_new r) (with_pool w q)

  -- `AlignedBufferPool::new_in`; `none` is the panic of the queue.
  unfoldable pub new_in : (capacity : ℕ) → R → Option (PoolState Q R)
  new_in capacity rest = elim (queue.new capacity) [
    | none ↦ none
    | some q ↦ some (record { alive = true; pool = q; rest = rest })
  ]

  drop_all : List Unique → Cmd (PoolState Q R) (Unit {0})
  drop_all [] = pure tt
  drop_all (u ∷ us) = do Unique.drop t pooled u; drop_all us

  -- The last reference to the pool is dropped: no weak reference upgrades from then on, and the
  -- queue drops its buffers.
  unfoldable pub close : Cmd (PoolState Q R) (Unit {0})
  unfolding drop_all
  close w =
      drop_all (queue.items w.state.pool) (record w { state = record w.state { alive = false } })
