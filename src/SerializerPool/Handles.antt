-- ===== src/SerializerPool/Handles.antt =====
-- crates/aligned-buffer-pool/src/serializer_pool.rs: the constructors of `SerializerPool`, and a
-- serializer as a writer and as an allocator of rkyv.
use rkyv_utils.Prelude.{ℕ, Bool, Option, Result, List}
use rkyv_utils.Layout.{Layout}
use rkyv_utils.Memory.{Target, Cmd, Ptr, pure, ◌>>=◌}
use rkyv_utils.Alloc.{Allocator, Slice}
use rkyv_utils.Unique.{Unique}
use rkyv_utils.Shared.{Shared}
use rkyv_utils.Queue.{ArrayQueue}
use rkyv_utils.Pool.{pooled}
use rkyv_utils.Rkyv
use rkyv_utils.Serializer
use rkyv_utils.Serializer.{Unify, BufferAllocError, SharingState, SharingError}
use rkyv_utils.SerializerPool
use rkyv_utils.SerializerPool.{Inner, on_writers, on_scratch}

module _ {Q U R : Type 0} (t : Target) (buffers : ArrayQueue Unique Q) (maps : ArrayQueue Unify U)
    (policy : ℕ → Bool) (a : Allocator R) where
  unfoldable pub with_policy : (capacity : ℕ) → R → Option (Inner Q U R)
  with_policy capacity rest = SerializerPool.new_in t buffers maps policy a capacity rest

  unfoldable pub with_capacity_in : (capacity : ℕ) → R → Option (Inner Q U R)
  with_capacity_in capacity rest = SerializerPool.new_in t buffers maps policy a capacity rest

  unfoldable pub new : (capacity : ℕ) → R → Option (Inner Q U R)
  unfolding with_policy
  new capacity rest = with_policy capacity rest

  unfoldable pub with_capacity : (capacity : ℕ) → R → Option (Inner Q U R)
  unfolding with_capacity_in
  with_capacity capacity rest = with_capacity_in capacity rest

  unfoldable pub from : SerializerPool.Serializer → Cmd (Inner Q U R) Shared
  from s = SerializerPool.into_buffer t buffers maps policy a s

  -- `Positional` and `Writer`
  unfoldable pub pos : SerializerPool.Serializer → ℕ
  pos s = Rkyv.pos s.writer

  unfoldable pub write :
      {E : Type 0}
      → SerializerPool.Serializer
      → List ℕ
      → Cmd (Inner Q U R) (SerializerPool.Serializer × Result (Unit {0}) E)
  write s bytes = do
    (writer, r) ← on_writers (Rkyv.write t (pooled t buffers policy a) s.writer bytes)
    pure (record s { writer = writer }, r)

  -- `Allocator` of rkyv
  unfoldable pub push_alloc :
      SerializerPool.Serializer → Layout → Cmd (Inner Q U R) (SerializerPool.Serializer × Slice)
  push_alloc s l = do
    (scratch, slice) ← on_scratch (Serializer.push_alloc t (pooled t buffers policy a) s.scratch l)
    pure (record s { scratch = scratch }, slice)

  unfoldable pub pop_alloc :
      SerializerPool.Serializer
      → Ptr
      → Layout
      → Cmd (Inner Q U R) (SerializerPool.Serializer × Result (Unit {0}) BufferAllocError)
  pop_alloc s p l = do
    (scratch, r) ← on_scratch (Serializer.pop_alloc t (pooled t buffers policy a) s.scratch p l)
    pure (record s { scratch = scratch }, r)

-- `Sharing` of rkyv
unfoldable pub start_sharing :
    SerializerPool.Serializer → (address : ℕ) → SerializerPool.Serializer × SharingState
start_sharing s address =
    let (map, r) = Serializer.start_sharing s.unify address in (record s { unify = map }, r)
