-- ===== src/SerializerPool/Pipeline/End.antt =====
-- How `serialize` ends, with a shared buffer or with an error.
use rkyv_utils.Prelude.{ℕ, ◌<◌, ◌≡◌, refl, ap, max, Bool, Result, ok, err, List, [], length, arith}
use rkyv_utils.Memory.{Target, World, Block, Cmd, done}
use rkyv_utils.Memory.Ends
use rkyv_utils.Memory.Ends.{Ends, ends}
use rkyv_utils.BufferLayout.Fits.{IsTarget}
use rkyv_utils.Alloc.{Allocator}
use rkyv_utils.Alloc.Contract.{IsAllocator}
use rkyv_utils.Raw
use rkyv_utils.Raw.Holds.{unallocated, allocated}
use rkyv_utils.Unique.{Unique}
use rkyv_utils.Unique.Contents.{Contains}
use rkyv_utils.Shared.{Shared}
use rkyv_utils.Shared.Handles.{Shares}
use rkyv_utils.Queue.{ArrayQueue, IsArrayQueue}
use rkyv_utils.Pool.Recycle.{Dropped, Dropped-moved, Dropped-Spares, drop-Dropped}
use rkyv_utils.Pool.Rented.Separate.{Owns-real, beside}
use rkyv_utils.Serializer.{Unify}
use rkyv_utils.SerializerPool.{
  Inner, Serializer, writers_of, with_writers, get, into_buffer, drop, returned, serialize,
}
use rkyv_utils.SerializerPool.Focus.{focus-Ends, Contains-same}
use rkyv_utils.SerializerPool.Finish.{Ended, rest-Ended, into_buffer-Shares}
use rkyv_utils.SerializerPool.Pipeline.{Ready, Idle, Left, Serializes}
use rkyv_utils.SerializerPool.Pipeline.Begin.{get-Ready}

module _ {Q U R : Type 0} (buffers : ArrayQueue Unique Q) (laws : IsArrayQueue buffers)
    (maps : ArrayQueue Unify U) (should_retain : ℕ → Bool) (t : Target) where
  -- From `w` to `w'` the writer was dropped, and nothing else.
  pub record WriterDropped (w : World (Inner Q U R)) (s : Serializer) (w' : World (Inner Q U R))
      : Type 0 where
    pub writer : Dropped buffers laws should_retain t (writers_of w) s.writer (writers_of w')
    pub scratch : w'.state.scratch ≡ w.state.scratch
    pub unify : w'.state.unify ≡ w.state.unify
    pub alive : w'.state.alive ≡ w.state.alive

  -- What `serialize` comes to after rkyv left a serializer and a result in `w`: a shared buffer with
  -- one handle on the block of the writer and the bytes `xs`, with the scratch and the map dropped; or the error of rkyv, with
  -- the writer, the scratch and the map dropped.
  abbrev pub Served :
      {E : Type 0} (xs : List ℕ)
      → Serializer × Result ℕ E
      → World (Inner Q U R)
      → Result Shared E
      → World (Inner Q U R)
      → Type 0
  Served xs (s, ok pos) w (ok b) w' =
      (cap : ℕ) × (blk : Block) × (b.buf.buf ≡ s.writer.buf.buf)
      × Shares t w' b cap blk xs 1
      × Ended buffers laws maps should_retain t w s w'
  Served xs (s, err e) w (err e') w' =
      (w1 : World (Inner Q U R)) × (e' ≡ e)
      × WriterDropped w s w1
      × Ended buffers laws maps should_retain t w1 s w'
  Served xs _ w _ w' = ⊥

  -- A whole call: what `get` gives, what rkyv makes of it, and the end.
  pub record Course {V E : Type 0} (a : Allocator R)
      (serialize_using : V → Serializer → Cmd (Inner Q U R) (Serializer × Result ℕ E)) (value : V)
      (xs : List ℕ) (w : World (Inner Q U R)) (r : Result Shared E) (w' : World (Inner Q U R))
      : Type 0 where
    pub rented : Serializer
    pub before : World (Inner Q U R)
    pub gets : get t buffers maps should_retain a w ≡ done rented before
    pub empty : Ready t before rented []
    pub result : Serializer × Result ℕ E
    pub behind : World (Inner Q U R)
    pub works : serialize_using value rented before ≡ done result behind
    pub served : Served xs result behind r w'

module _ {Q U R : Type 0} (buffers : ArrayQueue Unique Q) (laws : IsArrayQueue buffers)
    (maps : ArrayQueue Unify U) (should_retain : ℕ → Bool) {t : Target} (v : IsTarget t)
    (wide : 1 < max t.header.align t.alignment) {X : Type 0} (a : Allocator R)
    (law : IsAllocator t a X) where
  into_buffer-Ready :
      (w : World (Inner Q U R)) (s : Serializer) (xs : List ℕ)
      → Ready t w s xs
      → 0 < length xs
      → Ends
          (λ b w'.
            (cap : ℕ) × (blk : Block) × (b.buf.buf ≡ s.writer.buf.buf)
            × Shares t w' b cap blk xs 1
            × Ended buffers laws maps should_retain t w s w')
          ⊥
          ⊥
          (into_buffer t buffers maps should_retain a s w)
  into_buffer-Ready w s xs r some = elim r.writer.holds [
    | unallocated e z n ↦ absurd (omega (arith, ap length n))
    | allocated blk o enough bytes ↦
        let cap = r.writer.cap in
        Ends.weaken
          (into_buffer-Shares buffers laws maps should_retain v a law w s cap blk xs r.rest o enough
            bytes r.writer.len r.scratch
            (λ e. Owns-real t wide w s.writer.buf cap blk o (r.apart e)))
          (λ b w' h. (cap, blk, h.0, h.1, h.2)) (λ x. x) (λ x. x)
  ]

  -- A serializer that is dropped.
  drop-Ready :
      (w : World (Inner Q U R)) (s : Serializer) (xs : List ℕ)
      → Ready t w s xs
      → Ends
          (λ _ w'.
            (w1 : World (Inner Q U R)) × WriterDropped buffers laws maps should_retain t w s w1
            × Ended buffers laws maps should_retain t w1 s w')
          ⊥
          ⊥
          (drop t buffers maps should_retain a s w)
  unfolding drop Raw.new_in
  drop-Ready w s xs r =
      let one = Contains-same w (writers_of w) s.writer xs refl r.writer in
      let two = Contains-same w (writers_of w) s.scratch r.rest refl r.scratch in
      Ends.chain
        (focus-Ends
          {P' = λ _ w1.
            WriterDropped buffers laws maps should_retain t w s w1 × Contains t w1 s.scratch r.rest}
          (with_writers w)
          (drop-Dropped buffers laws should_retain v a law (writers_of w) s.writer xs one)
          (λ _ w' gone. (
            record {
              writer = Dropped-moved buffers laws should_retain refl refl gone;
              scratch = refl;
              unify = refl;
              alive = refl;
            },
            Contains-same w' (with_writers w w') s.scratch r.rest refl
                (beside t wide (writers_of w) w' s.writer.buf Raw.new_in s.scratch r.rest
                  (λ p c real other there.
                    (Dropped-Spares buffers laws should_retain v a law gone p c other there, real))
                  two r.apart).0,
          )))
        λ _ w1 (gone, c1).
          Ends.weaken (rest-Ended buffers laws maps should_retain v a law w1 s r.rest c1)
            (λ _ w' ended. (w1, gone, ended)) (λ x. x) (λ x. x)

  returned-Served :
      {E : Type 0} (result : Serializer × Result ℕ E) (xs : List ℕ) (w : World (Inner Q U R))
      → Left t xs result w
      → 0 < length xs
      → Ends
          (Served buffers laws maps should_retain t xs result w)
          ⊥
          ⊥
          (returned t buffers maps should_retain a result w)
  unfolding returned
  returned-Served (s, ok pos) xs w left some =
      Ends.chain (into_buffer-Ready w s xs left some) λ b w' h. ends h
  returned-Served (s, err e) xs w (ys, left) some =
      Ends.chain (drop-Ready w s ys left) λ r w' (w1, gone, ended). ends (w1, refl, gone, ended)

  -- SerializerPool::serialize takes a serializer from the pool with `get`, with an empty writer,
  -- has rkyv work on it, and goes by its result. Where that is a position, it gives a shared
  -- buffer with one handle on the block of the writer and the bytes of the value, and the scratch
  -- and the map were dropped: the scratch is kept by the pool or freed, as its policy, its life
  -- and its room say, and the map is pushed where the pool is there. Where it is an error, it
  -- gives that error, and the writer, the scratch and the map were dropped so. This is for a pool
  -- whose buffers are empty and have blocks of their own, a value with at least one byte, a header
  -- aligned to more than one byte, an allocator that meets the contract, and rkyv working on the
  -- serializer that it is given: from an empty writer it ends with the bytes of the value in it or
  -- with an error. It panics and aborts only where rkyv's part does.
  pub serialize-Served :
      {V E : Type 0}
      (serialize_using : V → Serializer → Cmd (Inner Q U R) (Serializer × Result ℕ E)) (value : V)
      (xs : List ℕ) (P Y : Type 0) (w : World (Inner Q U R))
      → Serializes t serialize_using value xs P Y
      → Idle t buffers w
      → 0 < length xs
      → Ends
          (Course buffers laws maps should_retain t a serialize_using value xs w)
          P
          Y
          (serialize t buffers maps should_retain a serialize_using value w)
  unfolding serialize
  serialize-Served serialize_using value xs P Y w writes idle some =
      Ends.chain
        (Ends.weaken (Ends.traced (get-Ready buffers laws should_retain t a maps w idle))
          (λ s w' r. r) absurd absurd)
        λ s w1 (r1, gets). Ends.chain (Ends.traced (writes w1 s r1)) λ result w2 (left, works).
          Ends.weaken (returned-Served result xs w2 left some)
            (λ r w' served. record {
              rented = s;
              before = w1;
              gets = gets;
              empty = r1;
              result = result;
              behind = w2;
              works = works;
              served = served;
            })
            absurd absurd
