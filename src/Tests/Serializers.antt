-- ===== src/Tests/Serializers.antt =====
-- The serializer and its pool at concrete inputs.
use rkyv_utils.Prelude.{ℕ, Result, ok, List, ◌∷◌, ◌+◌, ◌%◌, ◌≡◌, refl, true, none, some, [], arith}
use native.Mathlib.Nat.{dvd_of_mod-eq-zero}
use rkyv_utils.Memory.{World, Cmd, pure, ◌>>=◌, address, ◌>>◌}
use rkyv_utils.Memory.Ends
use rkyv_utils.Memory.Ends.{Ends, ends}
use rkyv_utils.BufferLayout.Fits.{Fits}
use rkyv_utils.Unique
use rkyv_utils.Unique.{Unique, capacity}
use rkyv_utils.Unique.Append.{doubled}
use rkyv_utils.Pool.{retain_max}
use rkyv_utils.Serializer.{Unify, push_alloc, insert}
use rkyv_utils.Serializer.Push.{padding}
use rkyv_utils.Serializer.Aligned.{push_alloc-aligned, push_alloc-first}
use rkyv_utils.SerializerPool.{Inner}
use rkyv_utils.SerializerPool
use rkyv_utils.SerializerPool.Reuse.{drop_unify-get}
use rkyv_utils.SerializerPool.Handles.{write}
use rkyv_utils.SerializerPool.Pipeline.{Serializes}
use rkyv_utils.SerializerPool.Pipeline.End.{Course, serialize-Served}
use rkyv_utils.SerializerPool.Pipeline.Write.{write-Ready}
use rkyv_utils.Tests.{memory, stored, two_bytes, stored-Holds}
use rkyv_utils.Tests.Slot.{target, target-IsTarget, slot, slots, slot-IsAllocator}
use rkyv_utils.Tests.Queues.{Ring, ring, ring_laws}
use rkyv_utils.Tests.Words.{word_layout, word_layout-IsLayout}
use rkyv_utils.Tests.Pools.{no_buffers}

push_alloc-aligned_example :
    Ends
      (λ (u', s) w'. (address s.start % 8 ≡ 0) × (s.len ≡ 13))
      (¬ Fits target (doubled (2 + (padding 386 word_layout + 13))))
      (Unit {0})
      (push_alloc target slots stored word_layout memory)
push_alloc-aligned_example =
    push_alloc-aligned target-IsTarget slots slot-IsAllocator memory stored two_bytes word_layout
      (record { cap = 8; holds = stored-Holds; len = refl }) (omega arith) word_layout-IsLayout
      (dvd_of_mod-eq-zero 8 refl) (omega arith) (omega arith)

push_alloc-first_example :
    Ends
      (λ (u', s) w'. address s.start % 8 ≡ 7)
      (¬ Fits target (doubled (0 + (padding 1 word_layout + 13))))
      (Unit {0})
      (push_alloc target slots Unique.new_in word_layout memory)
push_alloc-first_example =
    push_alloc-first target-IsTarget slots slot-IsAllocator memory word_layout word_layout-IsLayout
      (dvd_of_mod-eq-zero 8 refl) (omega arith)

-- A map that has an object at 4096, which stands at 16.
abbrev used : Unify
used = insert (λ _. none) 4096 (some 16)

abbrev serializers : World (Inner (Ring Unique) (Ring Unify) (Unit {0}))
serializers = record {
  blocks = memory.blocks;
  state = record {
    alive = true;
    writers = no_buffers;
    scratch = no_buffers;
    unify = record { capacity = 1; items = [] };
    rest = tt;
  };
}

drop_unify-get_example :
    Ends
      (λ s w'. (s.unify ≡ used) × (w'.state.unify.items ≡ []))
      ⊥
      ⊥
      ((SerializerPool.drop_unify target ring ring (retain_max 64) slot used
          >> SerializerPool.get target ring ring (retain_max 64) slot)
        serializers)
drop_unify-get_example =
    drop_unify-get ring ring_laws ring ring_laws (retain_max 64) target slot serializers used refl
      refl (omega arith)

-- The value is its bytes, which are written at once.
abbrev write_value :
    List ℕ
    → SerializerPool.Serializer
    → Cmd
        (Inner (Ring Unique) (Ring Unify) (Unit {0}))
        (SerializerPool.Serializer × Result ℕ (Unit {0}))
write_value value s = do
  (s', r) ← write target ring ring (retain_max 64) slot {E = Unit {0}} s value
  pure (s', ok 0)

write_value-Serializes :
    Serializes target write_value
      (1 ∷ 2 ∷ 3 ∷ [])
      (1 ∷ 2 ∷ 3 ∷ [])
      (¬ Fits target (doubled 3))
      (Unit {0})
write_value-Serializes w s r =
    Ends.chain
      (write-Ready ring ring_laws ring (retain_max 64) target-IsTarget (omega arith) slot
        slot-IsAllocator w s [] (1 ∷ 2 ∷ 3 ∷ []) r)
      λ r' w' (ready, fine). ends ready

serialize-Served_example :
    Ends
      (Course ring ring_laws ring
        (retain_max 64)
        target
        slot
        write_value
        (1 ∷ 2 ∷ 3 ∷ [])
        (1 ∷ 2 ∷ 3 ∷ [])
        serializers)
      (¬ Fits target (doubled 3))
      (Unit {0})
      (SerializerPool.serialize target ring ring
        (retain_max 64)
        slot
        write_value
        (1 ∷ 2 ∷ 3 ∷ [])
        serializers)
serialize-Served_example =
    serialize-Served ring ring_laws ring (retain_max 64) target-IsTarget (omega arith) slot
      slot-IsAllocator write_value (1 ∷ 2 ∷ 3 ∷ []) (1 ∷ 2 ∷ 3 ∷ []) (¬ Fits target (doubled 3))
      (Unit {0}) serializers write_value-Serializes tt (omega arith)
