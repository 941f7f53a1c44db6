-- ===== src/Pool/Closing.antt =====
-- The end of a pool.
use rkyv_utils.Prelude.{
  ℕ, ◌≡◌, refl, subst, ap, fun_ext, ◌∙◌, Bool, false, none, List, [], ◌∷◌, arith,
}
use rkyv_utils.Memory.{Target, World, Blocks, put}
use rkyv_utils.Memory.Ends
use rkyv_utils.Memory.Ends.{Ends, ends, at_base}
use rkyv_utils.BufferLayout.Fits.{IsTarget}
use rkyv_utils.Alloc.{Allocator}
use rkyv_utils.Alloc.Contract.{IsAllocator}
use rkyv_utils.Raw.Release.{drop-deallocate, released, released-Owns}
use rkyv_utils.Unique
use rkyv_utils.Unique.{Unique}
use rkyv_utils.Queue.{ArrayQueue, IsArrayQueue}
use rkyv_utils.Pool.{PoolState, pooled, drop_all, close}
use rkyv_utils.Pool.Idle.{IsIdle, Pooled, Pooled-same, Spares-Pooled}
use rkyv_utils.Pool.Recycle.{keeps, GivenBack, deallocate_buffer-Owns}

-- The memory without the blocks of some buffers.
abbrev pub without : List Unique → Blocks → Blocks
without [] m = m
without (u ∷ us) m = without us (put m u.buf.buf.base none)

module _ {Q R : Type 0} (queue : ArrayQueue Unique Q) (laws : IsArrayQueue queue)
    (should_retain : ℕ → Bool) {t : Target} (v : IsTarget t) {X : Type 0} (a : Allocator R)
    (law : IsAllocator t a X) where
  -- While no weak reference upgrades, a buffer that is dropped is freed.
  drop_one :
      (w : World (PoolState Q R)) (u : Unique)
      → IsIdle t w u
      → w.state.alive ≡ false
      → Ends
          (λ _ w'. (w'.blocks ≡ put w.blocks u.buf.buf.base none) × (w'.state.alive ≡ false))
          ⊥
          ⊥
          (Unique.drop t (pooled t queue should_retain a) u w)
  unfolding Unique.drop
  drop_one w u i closed =
      let w1 = released v (pooled t queue should_retain a) w u.buf i.blk in
      let unkept : keeps queue laws should_retain w1 i.cap ≡ false = ground (arith, closed) in
      rw (drop-deallocate v (pooled t queue should_retain a) w u.buf i.cap i.blk i.owns) (
        Ends.weaken
          (deallocate_buffer-Owns queue laws should_retain v a law w1 u.buf i.cap i.blk
            (released-Owns v (pooled t queue should_retain a) w u.buf i.cap i.blk i.owns))
          (λ _ w2 (given, alive).
            let given' : GivenBack queue laws should_retain false w1 u.buf w2 =
              subst (λ (k : Bool). GivenBack queue laws should_retain k w1 u.buf w2) unkept given in
            (given'.0 ∙ fun_ext (λ p. ground arith), alive ∙ closed))
          (λ x. x) (λ x. x))

  drop_all-without :
      (us : List Unique) (w : World (PoolState Q R))
      → Pooled t w us
      → w.state.alive ≡ false
      → Ends (λ _ w'. w'.blocks ≡ without us w.blocks) ⊥ ⊥ (drop_all t queue should_retain a us w)
  unfolding drop_all
  drop_all-without [] w p closed = ends refl
  drop_all-without (u ∷ us) w p closed =
      Ends.chain (drop_one w u p.0 closed) λ _ w1 (gone, closed1).
        let rest =
          Spares-Pooled t w w1 u.buf us
            (λ q c other there. ground (arith, at_base gone q, other, there)) p.1 p.2 in
        Ends.weaken (drop_all-without us w1 rest closed1)
          (λ _ w2 e. e ∙ ap (λ (m : Blocks). without us m) gone) (λ x. x) (λ x. x)

  -- A pool that goes away, with buffers that are empty and have blocks of their own, gives back
  -- the blocks of all of them, and no other block changes.
  pub close-without :
      (w : World (PoolState Q R))
      → Pooled t w (queue.items w.state.pool)
      → Ends
          (λ _ w'. w'.blocks ≡ without (queue.items w.state.pool) w.blocks)
          ⊥
          ⊥
          (close t queue should_retain a w)
  unfolding close
  close-without w p =
      let w1 = record w { state = record w.state { alive = false } } in
      drop_all-without (queue.items w.state.pool) w1
        (Pooled-same t w w1 (queue.items w.state.pool) refl p) refl
