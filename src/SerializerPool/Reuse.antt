-- ===== src/SerializerPool/Reuse.antt =====
-- What a serializer starts from.
use rkyv_utils.Prelude.{ℕ, ◌<◌, ◌≡◌, refl, ap, ◌∙◌, Bool, true, List, [], ◌∷◌, ◌++◌}
use rkyv_utils.Memory.{Target, World, ◌>>◌}
use rkyv_utils.Memory.Ends
use rkyv_utils.Memory.Ends.{Ends, ends}
use rkyv_utils.BufferLayout.Fits.{IsTarget}
use rkyv_utils.Alloc.{Allocator}
use rkyv_utils.Alloc.Contract.{IsAllocator}
use rkyv_utils.Unique.{Unique}
use rkyv_utils.Unique.Contents.{Contains}
use rkyv_utils.Queue.Every.{or_default}
use rkyv_utils.Queue.{ArrayQueue, IsArrayQueue}
use rkyv_utils.Pool
use rkyv_utils.Pool.Idle.{Pooled, Pooled-same}
use rkyv_utils.Pool.Reuse.{get-Pooled}
use rkyv_utils.Serializer.{Unify}
use rkyv_utils.SerializerPool.{
  Inner, writers_of, scratch_of, with_writers, with_scratch, no_entries, get, drop_unify,
}
use rkyv_utils.SerializerPool.Focus.{focus-Ends, Contains-same}

module _ {Q U R : Type 0} (buffers : ArrayQueue Unique Q) (laws : IsArrayQueue buffers)
    (maps : ArrayQueue Unify U) (map_laws : IsArrayQueue maps) (should_retain : ℕ → Bool)
    (t : Target) (a : Allocator R) where
  -- The map of shared objects of a serializer that is dropped, while the pool is there and has
  -- room for maps but none in store, is the map of the next serializer, with all its entries.
  pub drop_unify-get :
      (w : World (Inner Q U R)) (map : Unify)
      → w.state.alive ≡ true
      → maps.items w.state.unify ≡ []
      → 0 < map_laws.capacity w.state.unify
      → Ends
          (λ s w'. (s.unify ≡ map) × (maps.items w'.state.unify ≡ []))
          ⊥
          ⊥
          ((drop_unify t buffers maps should_retain a map >> get t buffers maps should_retain a) w)
  unfolding drop_unify get Pool.get
  drop_unify-get w map alive none_yet room =
      let pushed = map_laws.push_room w.state.unify map (rw none_yet room) in
      let one = pushed.1 ∙ ap (λ (ms : List Unify). ms ++ map ∷ []) none_yet in
      let popped = map_laws.pop_first (maps.push w.state.unify map).0 map [] one in
      rw alive (ends (ap (or_default no_entries) popped.0, popped.1))

  -- A serializer from a pool whose buffers are idle writes into empty buffers, and the pool keeps
  -- its other buffers idle.
  pub get-Empty :
      (v : IsTarget t) {X : Type 0} (law : IsAllocator t a X) (w : World (Inner Q U R))
      → Pooled t (writers_of w) (buffers.items w.state.writers)
      → Pooled t (scratch_of w) (buffers.items w.state.scratch)
      → Ends
          (λ s w'.
            Contains t w' s.writer []
            × Contains t w' s.scratch []
            × Pooled t (writers_of w') (buffers.items w'.state.writers)
            × Pooled t (scratch_of w') (buffers.items w'.state.scratch))
          ⊥
          ⊥
          (get t buffers maps should_retain a w)
  unfolding get
  get-Empty v law w writers scratch =
      Ends.chain
        (focus-Ends
          {P' = λ u w1.
            Contains t w1 u []
            × Pooled t (writers_of w1) (buffers.items w1.state.writers)
            × Pooled t (scratch_of w1) (buffers.items w1.state.scratch)}
          (with_writers w) (get-Pooled buffers laws should_retain v a law (writers_of w) writers)
          (λ u w' (c, pooled, _, same). (
            Contains-same w' (with_writers w w') u [] refl c,
            Pooled-same t w' (writers_of (with_writers w w')) _ refl pooled,
            Pooled-same t (scratch_of w) (scratch_of (with_writers w w')) _ same scratch,
          )))
        λ u w1 (c1, writers1, scratch1).
          Ends.chain
            (focus-Ends
              {P' = λ s w2.
                Contains t w2 u []
                × Contains t w2 s []
                × Pooled t (writers_of w2) (buffers.items w2.state.writers)
                × Pooled t (scratch_of w2) (buffers.items w2.state.scratch)}
              (with_scratch w1)
              (get-Pooled buffers laws should_retain v a law (scratch_of w1) scratch1)
              (λ s w' (c, pooled, _, same). (
                Contains-same w1 (with_scratch w1 w') u [] same c1,
                Contains-same w' (with_scratch w1 w') s [] refl c,
                Pooled-same t (writers_of w1) (writers_of (with_scratch w1 w')) _ same writers1,
                Pooled-same t w' (scratch_of (with_scratch w1 w')) _ refl pooled,
              )))
            λ s w2 (c, c', p, p'). ends (
              Contains-same w2 _ u [] refl c,
              Contains-same w2 _ s [] refl c',
              Pooled-same t (writers_of w2) _ _ refl p,
              Pooled-same t (scratch_of w2) _ _ refl p',
            )
