-- ===== src/Pool/Rented/Isolation.antt =====
-- What holds of every buffer in use, whatever was done with the pool and the other buffers.
use rkyv_utils.Prelude.{
  ℕ, ◌<◌, ◌≡◌, subst, sym, ap, ◌∙◌, some, Option-cases, inl, inr, Bool, arith, max, List, [], ◌∷◌,
  ◌++◌,
}
use rkyv_utils.Memory.{Target, World, Blocks, done}
use rkyv_utils.Memory.Ends.{Ends, given}
use rkyv_utils.BufferLayout.Fits.{IsTarget}
use rkyv_utils.Alloc.{Allocator}
use rkyv_utils.Alloc.Contract.{IsAllocator}
use rkyv_utils.Unique
use rkyv_utils.Unique.{Unique, as_slice}
use rkyv_utils.Unique.Contents.{as_slice-Contains}
use rkyv_utils.Unique.Script.Refinement.{call-Becomes}
use rkyv_utils.Queue.{ArrayQueue, IsArrayQueue}
use rkyv_utils.Pool.{PoolState, new_in, pooled}
use rkyv_utils.Pool.Recycle.{pooled-IsBufferAllocator}
use rkyv_utils.Pool.Rented.{Rented, Step, taken, called, dropped, Reach, here, later}
use rkyv_utils.Pool.Rented.Separate.{ApartAll, Separate}
use rkyv_utils.Pool.Rented.Steps.{as_rented, All, get-All, called-All, drop-All, picked}

module _ {Q R : Type 0} (queue : ArrayQueue Unique Q) (laws : IsArrayQueue queue)
    (should_retain : ℕ → Bool) {t : Target} (v : IsTarget t)
    (wide : 1 < max t.header.align t.alignment) {X : Type 0} (a : Allocator R)
    (law : IsAllocator t a X) where
  stepped :
      (w w' : World (PoolState Q R)) (rented rented' : Rented)
      → Step t queue should_retain a w rented w' rented'
      → All queue laws should_retain v wide a law w rented
      → All queue laws should_retain v wide a law w' rented'
  stepped w w' rented _ (taken e) h =
      given (get-All queue laws should_retain v wide a law w rented h) e
  stepped w w' rented _ (called {u'} front back u xs op split word e same) h =
      let all = subst (All queue laws should_retain v wide a law w) split h in
      let buffers = pooled t queue should_retain a in
      let safe = pooled-IsBufferAllocator queue laws should_retain v a law in
      let before = picked queue laws should_retain v wide a law w front back (u, xs) all in
      called-All queue laws should_retain v wide a law w w' front back u u' xs _
        (given (call-Becomes v buffers safe op w u xs before.0 word) e) same all
  stepped w w' rented _ (dropped front back u xs split e) h =
      given
        (drop-All queue laws should_retain v wide a law w front back u xs
          (subst (All queue laws should_retain v wide a law w) split h))
        e

  module _ (capacity : ℕ) (rest : R) (blocks : Blocks) where
    started :
        (pool : PoolState Q R)
        → new_in t queue should_retain a capacity rest ≡ some pool
        → All queue laws should_retain v wide a law (record { blocks = blocks; state = pool }) []
    unfolding new_in
    started pool e =
        let none_yet : queue.items pool.pool ≡ [] = elim (Option-cases (queue.new capacity)) [
          | inl refused ↦ absurd (ground (arith, e, refused))
          | inr (q, made) ↦
              let same : pool.pool ≡ q = ground (arith, e, made) in
              ap queue.items same ∙ (laws.new_lem capacity q made).0
        ] in
        subst
          (λ (us : List Unique).
            Separate t (record { blocks = blocks; state = pool }) (as_rented us))
          (sym none_yet) tt

    reached :
        {w : World (PoolState Q R)} {rented : Rented}
        → Reach t queue should_retain a capacity rest blocks w rented
        → All queue laws should_retain v wide a law w rented
    reached (here {pool} e) = started pool e
    reached (later {w} {w'} {rented} {rented'} r step) =
        stepped w w' rented rented' step (reached r)

    -- Whatever buffers are taken from a new pool, changed by their methods and dropped, in any
    -- order, every buffer in use reads the bytes that its owner put there, has a block that no
    -- other buffer in use and no buffer of the pool has, if it has one, and can be dropped, which
    -- leaves the others as they should be; for a header aligned to more than one byte, an
    -- allocator that meets the contract, and no call that hands a buffer that shrinks to nothing
    -- to the pool.
    pub Reach-isolated :
        {w : World (PoolState Q R)} (front back : Rented) (u : Unique) (xs : List ℕ)
        → Reach t queue should_retain a capacity rest blocks w (front ++ (u, xs) ∷ back)
        → (as_slice t (pooled t queue should_retain a) u w ≡ done xs w)
          × ApartAll u.buf ((front ++ back) ++ as_rented (queue.items w.state.pool))
          × Ends
              (λ _ w'. Separate t w' ((front ++ back) ++ as_rented (queue.items w'.state.pool)))
              ⊥
              ⊥
              (Unique.drop t (pooled t queue should_retain a) u w)
    Reach-isolated {w} front back u xs r =
        let all = reached r in
        let now = picked queue laws should_retain v wide a law w front back (u, xs) all in
        (
          as_slice-Contains v (pooled t queue should_retain a) w u xs now.0,
          now.1,
          drop-All queue laws should_retain v wide a law w front back u xs all,
        )
