-- ===== src/Tests/Pools.antt =====
-- The allocators and the pools at concrete inputs: a pool with room for two, to which the stored
-- buffer is given back.
use rkyv_utils.Prelude.{◌≡◌, refl, true, [], ◌∷◌, arith}
use rkyv_utils.Memory.{World, ◌>>◌}
use rkyv_utils.Memory.Ends.{Ends}
use rkyv_utils.Alloc.Contract.{IsAllocator}
use rkyv_utils.Alloc.Default.{with_defaults}
use rkyv_utils.Alloc.Default.Lawful.{with_defaults-IsAllocator}
use rkyv_utils.Alloc.Global.{global}
use rkyv_utils.Alloc.Global.Lawful.{global-IsAllocator}
use rkyv_utils.Raw.Holds.{Owns}
use rkyv_utils.Unique
use rkyv_utils.Unique.{Unique, capacity}
use rkyv_utils.Pool.{PoolState, pooled, deallocate_buffer, get, close, retain_max}
use rkyv_utils.Pool.Idle.{IsIdle, Owns-moved, Pooled}
use rkyv_utils.Pool.Recycle.{emptied, keeps, GivenBack, deallocate_buffer-Owns}
use rkyv_utils.Pool.Reuse.{deallocate_buffer-Pooled, drop-get}
use rkyv_utils.Pool.Closing.{without, close-without}
use rkyv_utils.Tests.{blk, memory, stored, stored-Owns}
use rkyv_utils.Tests.Slot.{
  target, target-IsTarget, slot, slot_system, slot_system-IsSystem, slot-IsAllocator,
}
use rkyv_utils.Tests.Queues.{Ring, ring, ring_laws}

global-IsAllocator_example : IsAllocator target (global target slot_system) (Unit {0})
global-IsAllocator_example = global-IsAllocator target slot_system slot_system-IsSystem

with_defaults-IsAllocator_example :
    IsAllocator target (with_defaults target slot.allocate slot.deallocate) (Unit {0})
with_defaults-IsAllocator_example =
    with_defaults-IsAllocator target slot.deallocate slot.allocate slot-IsAllocator.allocate
      slot-IsAllocator.deallocate

abbrev pub no_buffers : Ring Unique
no_buffers = record { capacity = 2; items = [] }

abbrev pool_memory : World (PoolState (Ring Unique) (Unit {0}))
pool_memory = record {
  blocks = memory.blocks;
  state = record { alive = true; pool = no_buffers; rest = tt };
}

abbrev full_memory : World (PoolState (Ring Unique) (Unit {0}))
full_memory = record {
  blocks = memory.blocks;
  state = record {
    alive = true;
    pool = record { capacity = 2; items = emptied stored.buf ∷ [] };
    rest = tt;
  };
}

pool-Owns : Owns target pool_memory stored.buf 8 blk
pool-Owns = Owns-moved refl stored-Owns

full-Owns : Owns target full_memory stored.buf 8 blk
full-Owns = Owns-moved refl stored-Owns

pool-IsIdle : IsIdle target pool_memory (emptied stored.buf)
pool-IsIdle = record { cap = 8; blk = blk; owns = pool-Owns; empty = refl; real = omega arith }

full-IsIdle : IsIdle target full_memory (emptied stored.buf)
full-IsIdle = record { cap = 8; blk = blk; owns = full-Owns; empty = refl; real = omega arith }

deallocate_buffer-Owns_example :
    Ends
      (λ _ w'.
        GivenBack ring ring_laws
          (retain_max 4)
          (keeps ring ring_laws (retain_max 4) pool_memory 8)
          pool_memory
          stored.buf
          w'
        × (w'.state.alive ≡ true))
      ⊥
      ⊥
      (deallocate_buffer target ring
        (retain_max 4)
        slot
        (record { buf = stored.buf.buf; cap = stored.buf.cap_or_len })
        pool_memory)
deallocate_buffer-Owns_example =
    deallocate_buffer-Owns ring ring_laws (retain_max 4) target-IsTarget slot slot-IsAllocator
      pool_memory stored.buf 8 blk pool-Owns

deallocate_buffer-Pooled_example :
    Ends
      (λ _ w'. Pooled target w' w'.state.pool.items)
      ⊥
      ⊥
      (deallocate_buffer target ring
        (retain_max 64)
        slot
        (record { buf = stored.buf.buf; cap = stored.buf.cap_or_len })
        pool_memory)
deallocate_buffer-Pooled_example =
    deallocate_buffer-Pooled ring ring_laws (retain_max 64) target-IsTarget slot slot-IsAllocator
      pool_memory stored.buf pool-IsIdle tt tt

kept : keeps ring ring_laws (retain_max 64) pool_memory 8 ≡ true
unfolding retain_max
kept = refl

drop-get_example :
    Ends
      (λ u' w'. (u' ≡ emptied stored.buf) × (capacity u' ≡ 8) × (w'.state.pool.items ≡ []))
      ⊥
      ⊥
      ((Unique.drop target (pooled target ring (retain_max 64) slot) stored
          >> get target ring (retain_max 64) slot)
        pool_memory)
drop-get_example =
    drop-get ring ring_laws (retain_max 64) target-IsTarget slot slot-IsAllocator pool_memory stored
      8 blk pool-Owns refl kept

close-without_example :
    Ends
      (λ _ w'. w'.blocks ≡ without (emptied stored.buf ∷ []) memory.blocks)
      ⊥
      ⊥
      (close target ring (retain_max 64) slot full_memory)
close-without_example =
    close-without ring ring_laws (retain_max 64) target-IsTarget slot slot-IsAllocator full_memory
      (full-IsIdle, tt, tt)
