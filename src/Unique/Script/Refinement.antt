-- ===== src/Unique/Script/Refinement.antt =====
-- A buffer under any sequence of its methods, against the list of its bytes.
use rkyv_utils.Prelude.{ℕ, List, [], ◌∷◌, inl, inr}
use rkyv_utils.Memory.{Target, World}
use rkyv_utils.Memory.Ends
use rkyv_utils.Memory.Ends.{Ends, ends}
use rkyv_utils.BufferLayout.Fits.{IsTarget}
use rkyv_utils.Alloc.{BufferAllocator}
use rkyv_utils.Raw.Holds.{Frame-refl, Frame-trans, IsBufferAllocator}
use rkyv_utils.Unique
use rkyv_utils.Unique.{Unique}
use rkyv_utils.Unique.Script.{
  Op, push, append, extend, resize, truncate, clear, index_mut, reserve, reserve_exact, shrink_to,
  shrink_to_fit, call, calls, bytes_after, all_after, Panics, SomePanics, IsCall, AreCalls,
}
use rkyv_utils.Unique.Contents.{Contains}
use rkyv_utils.Unique.Append.{Becomes, reserve-Becomes, append-Becomes, push-Becomes}
use rkyv_utils.Unique.Resize.{truncate-Contains, resize-Becomes, extend-Becomes}
use rkyv_utils.Unique.Build.{shrink_to-Becomes}
use rkyv_utils.Unique.Index.{index_mut-Becomes}
use rkyv_utils.Unique.Script.Single.{clear-Contains, reserve_exact-Becomes, shrink_to_fit-Becomes}

module _ {S : Type 0} {t : Target} (v : IsTarget t) (a : BufferAllocator S) {X : Type 0}
    (law : IsBufferAllocator t a X) where
  pub call-Becomes :
      (op : Op) (w : World S) (u : Unique) (xs : List ℕ)
      → Contains t w u xs
      → IsCall op
      → Ends (Becomes t w u (bytes_after op xs)) (Panics t op xs) X (call t a op u w)
  unfolding call bytes_after Panics IsCall Unique.clear Unique.truncate
  call-Becomes (push value) w u xs c i = push-Becomes v a law.lawful w u xs value c
  call-Becomes (append other) w u xs c i = append-Becomes v a law.lawful w u xs other c
  call-Becomes (extend lower iter) w u xs c i = extend-Becomes v a law.lawful w u xs lower iter c
  call-Becomes (resize new_len value) w u xs c i =
      resize-Becomes v a law.lawful w u xs new_len value c i
  call-Becomes (truncate len) w u xs c i =
      ends (truncate-Contains v a w u xs len c, Frame-refl w u.buf)
  call-Becomes clear w u xs c i = ends (clear-Contains v a w u xs c, Frame-refl w u.buf)
  call-Becomes (index_mut i value) w u xs c word =
      Ends.chain
        (Ends.weaken (index_mut-Becomes v a w u xs i value c) (λ r w' b. b) (λ x. x) absurd)
        λ r w' (b, inside). ends b
  call-Becomes (reserve additional) w u xs c i =
      Ends.weaken (reserve-Becomes v a law.lawful w u xs additional c) (λ u' w' r. r.0) (λ x. x)
        (λ x. x)
  call-Becomes (reserve_exact additional) w u xs c i =
      Ends.weaken (reserve_exact-Becomes v a law.lawful w u xs additional c) (λ u' w' r. r.0)
        (λ x. x) (λ x. x)
  call-Becomes (shrink_to min_capacity) w u xs c i =
      Ends.weaken (shrink_to-Becomes v a law w u xs min_capacity c) (λ u' w' r. r.0) (λ x. x)
        (λ x. x)
  call-Becomes shrink_to_fit w u xs c i = shrink_to_fit-Becomes v a law w u xs c

  -- Any sequence of push, append, extend, resize, truncate, clear, writes by index, reserve,
  -- reserve_exact, shrink_to and shrink_to_fit does to the bytes of a well-formed buffer what the
  -- same sequence does to a list, and leaves every other block as it was; for new lengths of
  -- resize below 2^64 and an allocator that meets the contract. It panics only where one of them
  -- has a size that no layout admits, or an index out of bounds, and aborts only where memory is
  -- exhausted.
  pub calls-Becomes :
      (ops : List Op) (w : World S) (u : Unique) (xs : List ℕ)
      → Contains t w u xs
      → AreCalls ops
      → Ends (Becomes t w u (all_after ops xs)) (SomePanics t ops xs) X (calls t a ops u w)
  unfolding calls all_after SomePanics AreCalls
  calls-Becomes [] w u xs c i = ends (c, Frame-refl w u.buf)
  calls-Becomes (op ∷ ops) w u xs c i =
      Ends.chain (Ends.weaken (call-Becomes op w u xs c i.0) (λ r w' b. b) inl (λ x. x))
        λ u1 w1 (c1, f1).
          Ends.weaken (calls-Becomes ops w1 u1 (bytes_after op xs) c1 i.1)
            (λ u2 w2 (c2, f2). (c2, Frame-trans w u.buf w1 u1.buf w2 u2.buf f1 f2)) inr (λ x. x)
