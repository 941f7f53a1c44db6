-- ===== src/SerializerPool.antt =====
-- crates/aligned-buffer-pool/src/serializer_pool.rs: the pool of serializers. It keeps writers,
-- scratch buffers and maps of shared objects, each in a queue of its own.
pub mod Focus
pub mod Reuse
pub mod Finish
pub mod Handles
pub mod Pipeline
use rkyv_utils.Prelude.{ℕ, Bool, true, Option, none, some, Result, ok, err, List, [], if◌then◌else◌}
use rkyv_utils.Memory.{Target, World, Run, done, panic, abort, undefined, Cmd, pure, ◌>>=◌, ◌>>◌}
use rkyv_utils.Alloc.{Allocator}
use rkyv_utils.Unique
use rkyv_utils.Unique.{Unique, append}
use rkyv_utils.Shared
use rkyv_utils.Shared.{Shared}
use rkyv_utils.Queue.{ArrayQueue}
use rkyv_utils.Queue.Every.{or_default}
use rkyv_utils.Pool
use rkyv_utils.Pool.{PoolState, pooled}
use rkyv_utils.Serializer.{Unify}

-- `Inner`, whether it is still referred to, and the state of the allocator below. `Q` is a queue of
-- buffers and `U` one of maps.
pub record Inner (Q U R : Type 0) : Type 0 where
  pub alive : Bool
  pub writers : Q
  pub scratch : Q
  pub unify : U
  pub rest : R

pub record Serializer : Type 0 where
  pub writer : Unique
  pub scratch : Unique
  pub unify : Unify

abbrev pub no_entries : Unify
no_entries address = none

module _ {Q U R : Type 0} where
  -- The two pools of buffers, as `SerializerWeakRef` and `SerializerScratchRef` reach them.
  abbrev pub writers_of : World (Inner Q U R) → World (PoolState Q R)
  writers_of w = record {
    blocks = w.blocks;
    state = record { alive = w.state.alive; pool = w.state.writers; rest = w.state.rest };
  }

  abbrev pub scratch_of : World (Inner Q U R) → World (PoolState Q R)
  scratch_of w = record {
    blocks = w.blocks;
    state = record { alive = w.state.alive; pool = w.state.scratch; rest = w.state.rest };
  }

  abbrev pub with_writers : World (Inner Q U R) → World (PoolState Q R) → World (Inner Q U R)
  with_writers w w' = record {
    blocks = w'.blocks;
    state = record w.state { writers = w'.state.pool; rest = w'.state.rest };
  }

  abbrev pub with_scratch : World (Inner Q U R) → World (PoolState Q R) → World (Inner Q U R)
  with_scratch w w' = record {
    blocks = w'.blocks;
    state = record w.state { scratch = w'.state.pool; rest = w'.state.rest };
  }

  -- A run of one of the pools, as a run of the whole.
  abbrev pub focus :
      {A : Type 0}
      → (World (PoolState Q R) → World (Inner Q U R))
      → Run (PoolState Q R) A
      → Run (Inner Q U R) A
  focus whole (done a w) = done a (whole w)
  focus whole panic = panic
  focus whole abort = abort
  focus whole undefined = undefined

  abbrev pub on_writers : {A : Type 0} → Cmd (PoolState Q R) A → Cmd (Inner Q U R) A
  on_writers m w = focus (with_writers w) (m (writers_of w))

  abbrev pub on_scratch : {A : Type 0} → Cmd (PoolState Q R) A → Cmd (Inner Q U R) A
  on_scratch m w = focus (with_scratch w) (m (scratch_of w))

module _ {Q U R : Type 0} (t : Target) (buffers : ArrayQueue Unique Q) (maps : ArrayQueue Unify U)
    (should_retain : ℕ → Bool) (a : Allocator R) where
  -- `none` is the panic of a queue that is made for no element.
  unfoldable pub new_in : (capacity : ℕ) → R → Option (Inner Q U R)
  new_in capacity rest = elim (buffers.new capacity) [
    | none ↦ none
    | some writers ↦ elim (buffers.new capacity) [
      | none ↦ none
      | some scratch ↦ elim (maps.new capacity) [
        | none ↦ none
        | some unify ↦ some (record {
          alive = true;
          writers = writers;
          scratch = scratch;
          unify = unify;
          rest = rest;
        })
      ]
    ]
  ]

  pop_unify : Cmd (Inner Q U R) Unify
  pop_unify w =
      let (q, m) = maps.pop w.state.unify in
      done (or_default no_entries m) (record w { state = record w.state { unify = q } })

  unfoldable pub get : Cmd (Inner Q U R) Serializer
  unfolding pop_unify
  get = do
    writer ← on_writers (Pool.get t buffers should_retain a)
    scratch ← on_scratch (Pool.get t buffers should_retain a)
    unify ← pop_unify
    pure (record { writer = writer; scratch = scratch; unify = unify })

  -- The drop of a `RentedUnify`: the map goes back with its entries.
  unfoldable pub drop_unify : Unify → Cmd (Inner Q U R) (Unit {0})
  drop_unify map w = done tt (
      if w.state.alive
      then record w { state = record w.state { unify = (maps.push w.state.unify map).0 } }
      else w)

  -- The writer is moved out, and the other fields are dropped in their order.
  unfoldable pub into_buffer : Serializer → Cmd (Inner Q U R) Shared
  unfolding drop_unify
  into_buffer s = do
    buf ← on_writers (Shared.into_shared t (pooled t buffers should_retain a) s.writer)
    on_scratch (Unique.drop t (pooled t buffers should_retain a) s.scratch)
    drop_unify s.unify
    pure buf

  unfoldable pub drop : Serializer → Cmd (Inner Q U R) (Unit {0})
  unfolding drop_unify
  drop s = do
    on_writers (Unique.drop t (pooled t buffers should_retain a) s.writer)
    on_scratch (Unique.drop t (pooled t buffers should_retain a) s.scratch)
    drop_unify s.unify

  -- After `serialize_using`: the early return of `?` drops the serializer.
  returned : {E : Type 0} → Serializer × Result ℕ E → Cmd (Inner Q U R) (Result Shared E)
  unfolding into_buffer drop
  returned (buf, ok _) = do shared ← into_buffer buf; pure (ok shared)
  returned (buf, err e) = do drop buf; pure (err e)

  -- `SerializerPool::serialize`, with `serialize_using` of rkyv as a parameter: it ends with the
  -- serializer as it leaves it, and its result.
  unfoldable pub serialize :
      {V E : Type 0}
      → (V → Serializer → Cmd (Inner Q U R) (Serializer × Result ℕ E))
      → V
      → Cmd (Inner Q U R) (Result Shared E)
  unfolding get returned
  serialize serialize_using value = do
    buf ← get
    result ← serialize_using value buf
    returned result
