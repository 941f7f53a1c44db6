-- ===== src/Tests/Rented.antt =====
-- A pool at a concrete run: a buffer is taken and gets a byte, and a second one is taken.
use rkyv_utils.Prelude.{ℕ, ◌≡◌, refl, true, none, List, [], ◌∷◌, ◌++◌, arith, is_power_of_two}
use rkyv_utils.TaggedCap
use rkyv_utils.TaggedCap.Fields.{tagged}
use rkyv_utils.Memory.{World, ptr, done, store_header, write_bytes}
use rkyv_utils.Memory.Ends.{Ends}
use rkyv_utils.Layout
use rkyv_utils.BufferLayout
use rkyv_utils.Alloc.Global
use rkyv_utils.Raw
use rkyv_utils.Unique
use rkyv_utils.Unique.{Unique, as_slice}
use rkyv_utils.Unique.Script
use rkyv_utils.Unique.Script.{call}
use rkyv_utils.Pool
use rkyv_utils.Pool.{PoolState, pooled, get, retain_max}
use rkyv_utils.Pool.Rented.{Reach, here, later, taken, called}
use rkyv_utils.Pool.Rented.Separate.{ApartAll, Separate}
use rkyv_utils.Pool.Rented.Steps.{as_rented}
use rkyv_utils.Pool.Rented.Isolation.{Reach-isolated}
use rkyv_utils.Tests.Slot.{target, target-IsTarget, slot, slot-IsAllocator}
use rkyv_utils.Tests.Queues.{Ring, ring, ring_laws}

abbrev start : World (PoolState (Ring Unique) (Unit {0}))
start = record {
  blocks = λ _. none;
  state = record { alive = true; pool = record { capacity = 2; items = [] }; rest = tt };
}

abbrev one_byte : Unique
one_byte = record { buf = record { buf = ptr 128 256; cap_or_len = tagged true 8 }; len = 1 }

pushed :
    (w' : World (PoolState (Ring Unique) (Unit {0}))) × (call target
        (pooled target ring (retain_max 64) slot)
        (Script.push 7)
        Unique.new_in
        start
      ≡ done one_byte w')
    × (w'.state.pool.items ≡ [])
unfolding call Unique.new_in Unique.push Unique.capacity TaggedCap.value Raw.new_in Raw.reserve
    Raw.needs_to_grow Raw.grow_amortized Raw.grow_to TaggedCap.is_allocated Raw.alloc retain_max
    BufferLayout.layout Layout.std_extend Layout.from_size_align is_power_of_two
    BufferLayout.buffer_offset Layout.from_size_alignment Layout.extend BufferLayout.alloc_guard
    Global.allocate Global.alloc_impl store_header TaggedCap.new TaggedCap.with_value
    Raw.handle_reserve write_bytes Unique.as_ptr TaggedCap.with_allocated
pushed = (_, refl, refl)

new_pool : Reach target ring (retain_max 64) slot 2 tt (λ _. none) start []
unfolding Pool.new_in
new_pool = here refl

take_one : get target ring (retain_max 64) slot start ≡ done Unique.new_in start
unfolding get Pool.or_new
take_one = refl

abbrev new_buffer : Unique × List ℕ
new_buffer = (Unique.new_in, [])

in_use :
    Reach target ring
      (retain_max 64)
      slot
      2
      tt
      (λ _. none)
      pushed.0
      ((one_byte, 7 ∷ []) ∷ new_buffer ∷ [])
unfolding Script.bytes_after Script.IsCall
in_use =
    later (later (later new_pool (taken take_one)) (taken take_one))
      (called [] (new_buffer ∷ []) Unique.new_in [] (Script.push 7) refl tt pushed.1 pushed.2)

Reach-isolated_example :
    (as_slice target (pooled target ring (retain_max 64) slot) one_byte pushed.0
      ≡ done (7 ∷ []) pushed.0)
    × ApartAll one_byte.buf ((new_buffer ∷ []) ++ as_rented pushed.0.state.pool.items)
    × Ends
        (λ _ w'. Separate target w' ((new_buffer ∷ []) ++ as_rented w'.state.pool.items))
        ⊥
        ⊥
        (Unique.drop target (pooled target ring (retain_max 64) slot) one_byte pushed.0)
Reach-isolated_example =
    Reach-isolated ring ring_laws (retain_max 64) target-IsTarget (omega arith) slot
      slot-IsAllocator 2 tt (λ _. none) [] (new_buffer ∷ []) one_byte (7 ∷ []) in_use
