-- ===== src/Tests/Scripts.antt =====
-- A run of several methods on the stored buffer, and a slice that goes to the scratch and back.
use rkyv_utils.Prelude.{◌+◌, ◌≡◌, ok, List, [], ◌∷◌, ◌++◌, replicate, arith}
use rkyv_utils.Memory.{◌>>=◌}
use rkyv_utils.Memory.Ends.{Ends}
use rkyv_utils.BufferLayout.Fits.{Fits}
use rkyv_utils.Unique.Append.{Becomes, doubled}
use rkyv_utils.Unique.Script.{
  Op, push, append, extend, resize, truncate, index_mut, reserve, shrink_to, shrink_to_fit, calls,
  all_after, SomePanics, AreCalls, IsCall, bytes_after,
}
use rkyv_utils.Unique.Script.Refinement.{calls-Becomes}
use rkyv_utils.Serializer.{push_alloc, pop_alloc}
use rkyv_utils.Serializer.Push.{padding}
use rkyv_utils.Serializer.RoundTrip.{push_alloc-pop_alloc}
use rkyv_utils.Tests.{memory, stored, two_bytes, stored-Contains}
use rkyv_utils.Tests.Slot.{
  target, target-IsTarget, slots, slot-IsAllocator, slots-IsBufferAllocator,
}
use rkyv_utils.Tests.Words.{word_layout, word_layout-IsLayout}

abbrev several : List Op
several =
    push 7
    ∷ append (1 ∷ 2 ∷ [])
    ∷ extend 9 (3 ∷ [])
    ∷ resize 20 4
    ∷ index_mut 0 8
    ∷ truncate 3
    ∷ reserve 100
    ∷ shrink_to 10
    ∷ shrink_to_fit
    ∷ []

several-AreCalls : AreCalls several
unfolding AreCalls IsCall
several-AreCalls = (tt, (tt, (tt, (omega arith, (tt, (tt, (tt, (tt, (tt, tt)))))))))

calls-Becomes_example :
    Ends
      (Becomes target memory stored (8 ∷ 5 ∷ 7 ∷ []))
      (SomePanics target several two_bytes)
      (Unit {0})
      (calls target slots several stored memory)
unfolding all_after bytes_after
calls-Becomes_example =
    calls-Becomes target-IsTarget slots slots-IsBufferAllocator several memory stored two_bytes
      stored-Contains several-AreCalls

push_alloc-pop_alloc_example :
    Ends
      (λ (u', r) w'.
        (r ≡ ok tt)
        × Becomes target memory stored (two_bytes ++ replicate (padding 386 word_layout) 0) u' w')
      (¬ Fits target (doubled (2 + (padding 386 word_layout + 13))))
      (Unit {0})
      ((push_alloc target slots stored word_layout >>= λ (u', s).
          pop_alloc target slots u' s.start word_layout)
        memory)
push_alloc-pop_alloc_example =
    push_alloc-pop_alloc target-IsTarget slots slot-IsAllocator memory stored two_bytes word_layout
      stored-Contains word_layout-IsLayout (omega arith) (omega arith)
