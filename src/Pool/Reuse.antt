-- ===== src/Pool/Reuse.antt =====
-- The buffers of the pool, as they go in and come out.
use rkyv_utils.Prelude.{
  ℕ, ◌≡◌, refl, sym, subst, ◌⊎◌, ap, ◌∙◌, Bool, true, false, inl, inr, List, [], ◌∷◌, ◌++◌,
}
use rkyv_utils.Memory.{Target, World, Block, ◌>>◌}
use rkyv_utils.Memory.Ends
use rkyv_utils.Memory.Ends.{Ends, ends, at_base}
use rkyv_utils.BufferLayout.Fits.{IsTarget}
use rkyv_utils.Alloc.{Allocator}
use rkyv_utils.Alloc.Contract.{IsAllocator}
use rkyv_utils.Raw.{Raw}
use rkyv_utils.Raw.Holds.{Owns, unallocated, Owns-bounds}
use rkyv_utils.Raw.Release.{drop-deallocate, released, released-Owns}
use rkyv_utils.Unique
use rkyv_utils.Unique.{Unique, from_raw_parts, capacity}
use rkyv_utils.Unique.Contents.{Contains}
use rkyv_utils.Queue.{ArrayQueue, IsArrayQueue}
use rkyv_utils.Pool.{PoolState, with_pool, get, or_new, pooled, deallocate_buffer}
use rkyv_utils.Pool.Idle.{
  IsIdle, IsIdle-Contains, IsIdle-moved, Avoids, Pooled, Pooled-append, Pooled-same, Spares-Pooled,
}
use rkyv_utils.Pool.Recycle.{emptied, keeps, GivenBack, GivenBack-Spares, deallocate_buffer-Owns}

module _ {Q R : Type 0} (queue : ArrayQueue Unique Q) (laws : IsArrayQueue queue)
    (should_retain : ℕ → Bool) where
  module _ {t : Target} (v : IsTarget t) {X : Type 0} (a : Allocator R)
      (law : IsAllocator t a X) where
    GivenBack-Pooled :
        (kept : Bool) (w : World (PoolState Q R)) (b : Raw) (w' : World (PoolState Q R))
        → GivenBack queue laws should_retain kept w b w'
        → IsIdle t w (emptied b)
        → Avoids b.buf.base (queue.items w.state.pool)
        → Pooled t w (queue.items w.state.pool)
        → Pooled t w' (queue.items w'.state.pool)
    GivenBack-Pooled true w b w' given idle away p =
        subst (λ (us : List Unique). Pooled t w' us) (sym given.1)
          (Pooled-append t w' (queue.items w.state.pool) (emptied b)
            (Spares-Pooled t w w' b (queue.items w.state.pool)
              (GivenBack-Spares queue laws should_retain v a law true w b w' given) away p)
            (IsIdle-moved idle (at_base given.0 b.buf.base ∙ idle.owns.there)) away)
    GivenBack-Pooled false w b w' given idle away p =
        subst (λ (us : List Unique). Pooled t w' us) (sym given.1)
          (Spares-Pooled t w w' b (queue.items w.state.pool)
            (GivenBack-Spares queue laws should_retain v a law false w b w' given) away p)

    -- What is given back, kept or not, leaves every buffer of the pool empty and with a block of
    -- its own, where that held before and the buffer has a block that no buffer of the pool has.
    pub deallocate_buffer-Pooled :
        (w : World (PoolState Q R)) (b : Raw)
        → IsIdle t w (emptied b)
        → Avoids b.buf.base (queue.items w.state.pool)
        → Pooled t w (queue.items w.state.pool)
        → Ends
            (λ _ w'. Pooled t w' (queue.items w'.state.pool))
            ⊥
            ⊥
            (deallocate_buffer t queue should_retain a
              (record { buf = b.buf; cap = b.cap_or_len })
              w)
    deallocate_buffer-Pooled w b idle away p =
        Ends.weaken
          (deallocate_buffer-Owns queue laws should_retain v a law w b idle.cap idle.blk idle.owns)
          (λ _ w' (given, _).
            GivenBack-Pooled (keeps queue laws should_retain w idle.cap) w b w' given idle away p)
          (λ x. x) (λ x. x)

    got :
        (us : List Unique) (w : World (PoolState Q R))
        → queue.items w.state.pool ≡ us
        → Pooled t w us
        → Ends
            (λ u w'.
              Contains t w' u []
              × Pooled t w' (queue.items w'.state.pool)
              × ((u ≡ Unique.new_in) ⊎ Avoids u.buf.buf.base (queue.items w'.state.pool))
              × (w'.blocks ≡ w.blocks))
            ⊥
            ⊥
            (get t queue should_retain a w)
    unfolding get Unique.new_in
    got [] w e p =
        let facts = laws.pop_empty w.state.pool e in
        rw (facts.0, or_new)
          (ends (
            record { cap = 0; holds = unallocated refl refl refl; len = refl },
            subst (λ (us : List Unique). Pooled t (with_pool w (queue.pop w.state.pool).0) us)
                (sym facts.1) tt,
            inl refl,
            refl,
          ))
    got (u ∷ us) w e p =
        let facts = laws.pop_first w.state.pool u us e in
        let w' = with_pool w (queue.pop w.state.pool).0 in
        rw (facts.0, or_new)
          (ends (
            IsIdle-Contains (IsIdle-moved p.0 p.0.owns.there),
            subst (λ (xs : List Unique). Pooled t w' xs) (sym facts.1)
                (Pooled-same t w w' us refl p.2),
            inr (subst (λ (xs : List Unique). Avoids u.buf.buf.base xs) (sym facts.1) p.1),
            refl,
          ))

    -- A buffer from the pool is empty, new or with a block that no other buffer of the pool has, and
    -- the pool is as it should be afterwards. Memory does not change.
    pub get-Pooled :
        (w : World (PoolState Q R))
        → Pooled t w (queue.items w.state.pool)
        → Ends
            (λ u w'.
              Contains t w' u []
              × Pooled t w' (queue.items w'.state.pool)
              × ((u ≡ Unique.new_in) ⊎ Avoids u.buf.buf.base (queue.items w'.state.pool))
              × (w'.blocks ≡ w.blocks))
            ⊥
            ⊥
            (get t queue should_retain a w)
    get-Pooled w p = got (queue.items w.state.pool) w refl p

    -- A buffer with an allocation that is dropped while the pool is empty, and is kept, is the
    -- next buffer that the pool hands out, with its whole capacity.
    pub drop-get :
        (w : World (PoolState Q R)) (u : Unique) (cap : ℕ) (blk : Block)
        → Owns t w u.buf cap blk
        → queue.items w.state.pool ≡ []
        → keeps queue laws should_retain w cap ≡ true
        → Ends
            (λ u' w'. (u' ≡ emptied u.buf) × (capacity u' ≡ cap) × (queue.items w'.state.pool ≡ []))
            ⊥
            ⊥
            ((Unique.drop t (pooled t queue should_retain a) u >> get t queue should_retain a) w)
    unfolding Unique.drop get capacity
    drop-get w u cap blk o none_yet kept =
        let w1 = released v (pooled t queue should_retain a) w u.buf blk in
        rw (drop-deallocate v (pooled t queue should_retain a) w u.buf cap blk o) (
          Ends.chain
            (deallocate_buffer-Owns queue laws should_retain v a law w1 u.buf cap blk
              (released-Owns v (pooled t queue should_retain a) w u.buf cap blk o))
            λ _ w2 (given, _).
              let given' : GivenBack queue laws should_retain true w1 u.buf w2 =
                subst (λ (k : Bool). GivenBack queue laws should_retain k w1 u.buf w2) kept given in
              let one : queue.items w2.state.pool ≡ emptied u.buf ∷ [] =
                given'.1 ∙ ap (λ (us : List Unique). us ++ emptied u.buf ∷ []) none_yet in
              let facts = laws.pop_first w2.state.pool (emptied u.buf) [] one in
              rw (facts.0, or_new) (ends (refl, (Owns-bounds v o).1, facts.1)))
