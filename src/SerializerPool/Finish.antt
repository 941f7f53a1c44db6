-- ===== src/SerializerPool/Finish.antt =====
-- `into_buffer`: the end of a serializer.
use rkyv_utils.Prelude.{
  ℕ, ◌≤◌, ◌≡◌, ◌≢◌, refl, Bool, Bool-cases, inl, inr, List, length, if◌then◌else◌, arith,
}
use rkyv_utils.Memory.{Target, World, Block, load_list, done, pure, ◌>>◌}
use rkyv_utils.Memory.Ends
use rkyv_utils.Memory.Ends.{Ends, ends}
use rkyv_utils.BufferLayout.{buffer_offset}
use rkyv_utils.BufferLayout.Fits.{IsTarget}
use rkyv_utils.Alloc.{Allocator}
use rkyv_utils.Alloc.Contract.{IsAllocator}
use rkyv_utils.Raw.Holds.{Owns}
use rkyv_utils.Unique
use rkyv_utils.Unique.{Unique}
use rkyv_utils.Unique.Contents.{Contains}
use rkyv_utils.Shared.Handles.{Shares, Shares-moved}
use rkyv_utils.Shared.Sharing.{shared, into_shared-owned, into_shared-Shares}
use rkyv_utils.Queue.{ArrayQueue, IsArrayQueue}
use rkyv_utils.Pool.{pooled}
use rkyv_utils.Pool.Idle.{Owns-moved}
use rkyv_utils.Pool.Recycle.{Dropped, Dropped-moved, Dropped-Spares, drop-Dropped}
use rkyv_utils.Serializer.{Unify}
use rkyv_utils.SerializerPool.{
  Inner, Serializer, writers_of, scratch_of, with_writers, with_scratch, on_scratch, into_buffer,
  drop_unify,
}
use rkyv_utils.SerializerPool.Focus.{focus-Ends, Contains-same}

-- Where the map is after its drop: in the queue, where that has room and the pool is still there.
abbrev pub map_back : {Q U R : Type 0} (maps : ArrayQueue Unify U) → World (Inner Q U R) → Unify → U
map_back maps w map = if w.state.alive then (maps.push w.state.unify map).0 else w.state.unify

module _ {Q U R : Type 0} (buffers : ArrayQueue Unique Q) (laws : IsArrayQueue buffers)
    (maps : ArrayQueue Unify U) (should_retain : ℕ → Bool) (t : Target) where
  -- From `w` to `w'` the scratch was dropped, and then the map; the queue of the writers is as it
  -- was.
  pub record Ended (w : World (Inner Q U R)) (s : Serializer) (w' : World (Inner Q U R))
      : Type 0 where
    pub scratch : Dropped buffers laws should_retain t (scratch_of w) s.scratch (scratch_of w')
    pub unify : w'.state.unify ≡ map_back maps w s.unify
    pub writers : w'.state.writers ≡ w.state.writers
    pub alive : w'.state.alive ≡ w.state.alive

module _ {Q U R : Type 0} (buffers : ArrayQueue Unique Q) (laws : IsArrayQueue buffers)
    (maps : ArrayQueue Unify U) (should_retain : ℕ → Bool) {t : Target} (v : IsTarget t)
    {X : Type 0} (a : Allocator R) (law : IsAllocator t a X) where
  drop_unify-done :
      (w : World (Inner Q U R)) (map : Unify)
      → drop_unify t buffers maps should_retain a map w
        ≡ done tt (record w { state = record w.state { unify = map_back maps w map } })
  unfolding drop_unify
  drop_unify-done w map = elim (Bool-cases w.state.alive) [
    | inl alive ↦ rw alive refl
    | inr gone ↦ rw gone refl
  ]

  -- The end of a serializer, behind its writer.
  pub rest-Ended :
      (w : World (Inner Q U R)) (s : Serializer) (rest : List ℕ)
      → Contains t w s.scratch rest
      → Ends
          (λ _ w'. Ended buffers laws maps should_retain t w s w')
          ⊥
          ⊥
          ((on_scratch (Unique.drop t (pooled t buffers should_retain a) s.scratch)
              >> drop_unify t buffers maps should_retain a s.unify)
            w)
  rest-Ended w s rest c =
      Ends.chain
        (focus-Ends
          {P' = λ _ w1.
            Dropped buffers laws should_retain t (scratch_of w) s.scratch (scratch_of w1)
            × (w1.state.unify ≡ w.state.unify)
            × (w1.state.writers ≡ w.state.writers)
            × (w1.state.alive ≡ w.state.alive)}
          (with_scratch w)
          (drop-Dropped buffers laws should_retain v a law (scratch_of w) s.scratch rest
            (Contains-same w (scratch_of w) s.scratch rest refl c))
          (λ _ w1 d. (Dropped-moved buffers laws should_retain refl refl d, refl, refl, refl)))
        λ _ w1 (d, unify, writers, alive). Ends.ends_of_eq (drop_unify-done w1 s.unify) (record {
          scratch = Dropped-moved buffers laws should_retain refl refl d;
          unify = ground (arith, unify, alive);
          writers = writers;
          alive = alive;
        })

  -- A serializer with a well-formed scratch and a well-formed writer that has an allocation apart
  -- from it ends, without undefined behaviour, panic or abort, in a shared buffer with one handle
  -- on the block of the writer and with its bytes, after the scratch and the map were dropped.
  pub into_buffer-Shares :
      (w : World (Inner Q U R)) (s : Serializer) (cap : ℕ) (blk : Block) (xs rest : List ℕ)
      → Owns t w s.writer.buf cap blk
      → length xs ≤ cap
      → load_list blk.bytes (buffer_offset t) (length xs) ≡ xs
      → s.writer.len ≡ length xs
      → Contains t w s.scratch rest
      → s.writer.buf.buf.base ≢ s.scratch.buf.buf.base
      → Ends
          (λ b w'.
            (b.buf.buf ≡ s.writer.buf.buf)
            × Shares t w' b cap blk xs 1
            × Ended buffers laws maps should_retain t w s w')
          ⊥
          ⊥
          (into_buffer t buffers maps should_retain a s w)
  unfolding into_buffer
  into_buffer-Shares w s cap blk xs rest o enough bytes len c apart =
      let all = pooled t buffers should_retain a in
      let o1 = Owns-moved {w' = writers_of w} o.there o in
      let w1 = with_writers w (writers_of w) in
      let h = into_shared-Shares v all (writers_of w) s.writer cap blk xs o1 enough bytes in
      rw (into_shared-owned v all (writers_of w) s.writer cap blk xs o1 enough len) (
        Ends.after (on_scratch (Unique.drop t all s.scratch) w1)
          (λ _. drop_unify t buffers maps should_retain a s.unify)
          (λ _. pure (shared v all s.writer xs))
          (Ends.chain (rest-Ended w1 s rest c) λ _ w' ended. ends (
            refl,
            Shares-moved
                (Dropped-Spares buffers laws should_retain v a law ended.scratch
                  s.writer.buf.buf.base blk apart o.there)
                h,
            ended,
          )))
