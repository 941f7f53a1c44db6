-- ===== src/SerializerPool/Pipeline/Write.antt =====
-- Bytes that are written through a serializer.
use rkyv_utils.Prelude.{ℕ, ◌+◌, ◌<◌, ◌≡◌, refl, max, Bool, ok, List, ◌++◌, length}
use rkyv_utils.Memory.{Target, World}
use rkyv_utils.Memory.Ends
use rkyv_utils.Memory.Ends.{Ends, ends}
use rkyv_utils.BufferLayout.Fits.{IsTarget, Fits}
use rkyv_utils.Alloc.{Allocator}
use rkyv_utils.Alloc.Contract.{IsAllocator}
use rkyv_utils.Unique.{Unique}
use rkyv_utils.Unique.Append.{doubled}
use rkyv_utils.Queue.{ArrayQueue, IsArrayQueue}
use rkyv_utils.Pool.{pooled}
use rkyv_utils.Pool.Recycle.{pooled-IsBufferAllocator}
use rkyv_utils.Pool.Rented.Separate.{beside}
use rkyv_utils.Rkyv.Writing.{write-Becomes}
use rkyv_utils.Serializer.{Unify}
use rkyv_utils.SerializerPool.{Inner, Serializer, writers_of, with_writers}
use rkyv_utils.SerializerPool.Focus.{focus-Ends, Contains-same}
use rkyv_utils.SerializerPool.Handles.{write}
use rkyv_utils.SerializerPool.Pipeline.{Ready}

module _ {Q U R : Type 0} (buffers : ArrayQueue Unique Q) (laws : IsArrayQueue buffers)
    (maps : ArrayQueue Unify U) (policy : ℕ → Bool) {t : Target} (v : IsTarget t)
    (wide : 1 < max t.header.align t.alignment) {X : Type 0} (a : Allocator R)
    (law : IsAllocator t a X) where
  -- A write adds its bytes to those of the writer, never returns an error, and keeps the scratch
  -- as it is, in a block of its own.
  pub write-Ready :
      {E : Type 0} (w : World (Inner Q U R)) (s : Serializer) (xs ys : List ℕ)
      → Ready t w s xs
      → Ends
          (λ (s', r) w'. Ready t w' s' (xs ++ ys) × (r ≡ ok tt))
          (¬ Fits t (doubled (length xs + length ys)))
          X
          (write t buffers maps policy a {E = E} s ys w)
  unfolding write
  write-Ready {E} w s xs ys r =
      let all = pooled t buffers policy a in
      let safe = pooled-IsBufferAllocator buffers laws policy v a law in
      let one = Contains-same w (writers_of w) s.writer xs refl r.writer in
      let two = Contains-same w (writers_of w) s.scratch r.rest refl r.scratch in
      Ends.chain
        (focus-Ends
          {P' = λ (u, result) w'.
            Ready t w' (record s { writer = u }) (xs ++ ys) × (result ≡ ok tt)}
          (with_writers w) (write-Becomes v all safe.lawful (writers_of w) s.writer xs ys one)
          (λ (u, result) w' ((c, frame), fine, moved).
            let kept =
              beside t wide (writers_of w) w' s.writer.buf u.buf s.scratch r.rest frame two
                r.apart in
            (
              record {
                writer = Contains-same w' (with_writers w w') u (xs ++ ys) refl c;
                rest = r.rest;
                scratch = Contains-same w' (with_writers w w') s.scratch r.rest refl kept.0;
                apart = kept.1;
              },
              fine,
            )))
        λ r' w' after. ends after
