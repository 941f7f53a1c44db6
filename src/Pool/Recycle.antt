-- ===== src/Pool/Recycle.antt =====
-- `deallocate_buffer` of the pool's allocator.
use native.Mathlib.Decide.{dec_lt}
use rkyv_utils.Prelude.{
  ℕ, ◌≡◌, refl, sym, ap, ◌∙◌, Bool, true, false, ◌&&◌, Bool-cases, inl, inr, none, List, [], ◌∷◌,
  ◌++◌, length, ltb, arith,
}
use rkyv_utils.Memory.{Target, World, Block, put}
use rkyv_utils.Memory.Ends
use rkyv_utils.Memory.Ends.{Ends, ends, at_base}
use rkyv_utils.BufferLayout.Fits.{IsTarget, full_layout}
use rkyv_utils.Alloc.{Allocator}
use rkyv_utils.Alloc.Contract.{IsAllocator}
use rkyv_utils.TaggedCap.Fields.{is_allocated-tagged}
use rkyv_utils.Raw
use rkyv_utils.Raw.{Raw, new_in}
use rkyv_utils.Raw.Holds.{Owns, unallocated, allocated, Owns-bounds, Spares, IsBufferAllocator}
use rkyv_utils.Raw.Release.{alloc_info-Owns, drop-deallocate, released-same}
use rkyv_utils.Unique
use rkyv_utils.Unique.{Unique, from_raw_parts}
use rkyv_utils.Unique.Contents.{Contains}
use rkyv_utils.Queue.{ArrayQueue, IsArrayQueue}
use rkyv_utils.Pool.{
  PoolState, inner, with_pool, pooled, dealloc_on_drop, pushed, retain, deallocate_buffer,
}
use rkyv_utils.Pool.Idle.{Owns-moved}
use rkyv_utils.Pool.Forward.{resume-Ends, forward-IsAllocator}

-- The buffer as the pool keeps it.
abbrev pub emptied : Raw → Unique
emptied b = record { buf = b; len = 0 }

module _ {Q R : Type 0} (queue : ArrayQueue Unique Q) (laws : IsArrayQueue queue)
    (should_retain : ℕ → Bool) where
  -- Whether the pool keeps a buffer: the policy wants it, the pool is there, and it has room.
  abbrev pub keeps : World (PoolState Q R) → ℕ → Bool
  keeps w cap =
      should_retain cap
      && w.state.alive
      && ltb (length (queue.items w.state.pool)) (laws.capacity w.state.pool)

  -- A buffer that is kept stays as it is in memory, behind the others; one that is not is freed.
  abbrev pub GivenBack : Bool → World (PoolState Q R) → Raw → World (PoolState Q R) → Type 0
  GivenBack true w b w' =
      (w'.blocks ≡ w.blocks)
      × (queue.items w'.state.pool ≡ queue.items w.state.pool ++ emptied b ∷ [])
  GivenBack false w b w' =
      (w'.blocks ≡ put w.blocks b.buf.base none)
      × (queue.items w'.state.pool ≡ queue.items w.state.pool)

  GivenBack-moved :
      (kept : Bool) (w : World (PoolState Q R)) (b : Raw) (w1 w2 : World (PoolState Q R))
      → w2.blocks ≡ w1.blocks
      → w2.state.pool ≡ w1.state.pool
      → GivenBack kept w b w1
      → GivenBack kept w b w2
  GivenBack-moved true w b w1 w2 same items (blocks, pool) =
      (same ∙ blocks, ap queue.items items ∙ pool)
  GivenBack-moved false w b w1 w2 same items (blocks, pool) =
      (same ∙ blocks, ap queue.items items ∙ pool)

  -- What the drop of a buffer comes to: nothing for one without an allocation, and otherwise what
  -- the pool does with it.
  pub data Dropped (t : Target) (w : World (PoolState Q R)) (u : Unique)
      (w' : World (PoolState Q R)) : Type 0 where
    nothing :
        u.buf ≡ new_in → w'.blocks ≡ w.blocks → w'.state.pool ≡ w.state.pool → Dropped t w u w'
    given_back :
        (cap : ℕ) (blk : Block)
        → Owns t w u.buf cap blk
        → GivenBack (keeps w cap) w u.buf w'
        → Dropped t w u w'

  pub Dropped-moved :
      {t : Target} {w w1 w2 : World (PoolState Q R)} {u : Unique}
      → w2.blocks ≡ w1.blocks
      → w2.state.pool ≡ w1.state.pool
      → Dropped t w u w1
      → Dropped t w u w2
  Dropped-moved same items (nothing e blocks pool) = nothing e (same ∙ blocks) (items ∙ pool)
  Dropped-moved {w = w} {u = u} same items (given_back cap blk o given) =
      given_back cap blk o (GivenBack-moved (keeps w cap) w u.buf _ _ same items given)

  module _ {t : Target} (v : IsTarget t) {X : Type 0} (a : Allocator R)
      (law : IsAllocator t a X) where
    dealloc_on_drop-Owns :
        (w : World (PoolState Q R)) (b : Raw) (cap : ℕ) (blk : Block)
        → Owns t w b cap blk
        → Ends
            (λ _ w'. GivenBack false w b w' × (w'.state.alive ≡ w.state.alive))
            ⊥
            ⊥
            (dealloc_on_drop t queue should_retain a (record { buf = b.buf; cap = b.cap_or_len }) w)
    unfolding dealloc_on_drop
    dealloc_on_drop-Owns w b cap blk o = rw (alloc_info-Owns v w b cap blk o) (
        resume-Ends w
          (law.deallocate b.buf.base blk (full_layout t cap) (inner w) o.there
            (record { size = sym o.size; align = sym o.align }) (omega (arith, o.positive)))
          (λ _ w' gone. ((gone, refl), refl)))

    retained :
        (w : World (PoolState Q R)) (b : Raw) (cap : ℕ) (blk : Block)
        → Owns t w b cap blk
        → (should_retain cap && w.state.alive) ≡ true
        → deallocate_buffer t queue should_retain a (record { buf = b.buf; cap = b.cap_or_len }) w
          ≡ retain t queue should_retain a (record { buf = b.buf; cap = b.cap_or_len }) w
    unfolding deallocate_buffer
    retained w b cap blk o wanted = let read = (Owns-bounds v o).1 in ground (arith, read)

    not_retained :
        (w : World (PoolState Q R)) (b : Raw) (cap : ℕ) (blk : Block)
        → Owns t w b cap blk
        → (should_retain cap && w.state.alive) ≡ false
        → deallocate_buffer t queue should_retain a (record { buf = b.buf; cap = b.cap_or_len }) w
          ≡ dealloc_on_drop t queue should_retain a (record { buf = b.buf; cap = b.cap_or_len }) w
    unfolding deallocate_buffer
    not_retained w b cap blk o refused = let read = (Owns-bounds v o).1 in ground (arith, read)

    -- Giving a buffer back to the pool keeps it exactly where the policy wants it, the pool is
    -- still there and its queue has room, and frees its block otherwise; without undefined
    -- behaviour, panic or abort.
    pub deallocate_buffer-Owns :
        (w : World (PoolState Q R)) (b : Raw) (cap : ℕ) (blk : Block)
        → Owns t w b cap blk
        → Ends
            (λ _ w'. GivenBack (keeps w cap) w b w' × (w'.state.alive ≡ w.state.alive))
            ⊥
            ⊥
            (deallocate_buffer t queue should_retain a
              (record { buf = b.buf; cap = b.cap_or_len })
              w)
    unfolding retain from_raw_parts
    deallocate_buffer-Owns w b cap blk o = elim (Bool-cases (should_retain cap && w.state.alive)) [
      | inr refused ↦
          let unkept : keeps w cap ≡ false = ground arith in
          rw (not_retained w b cap blk o refused, unkept) (dealloc_on_drop-Owns w b cap blk o)
      | inl wanted ↦
          rw (retained w b cap blk o wanted)
            (elim (dec_lt (length (queue.items w.state.pool)) (laws.capacity w.state.pool)) [
              | yes room ↦
                  let kept : keeps w cap ≡ true = ground arith in
                  let facts = laws.push_room w.state.pool (emptied b) room in
                  rw (kept, facts.0, pushed) (ends ((refl, facts.1), refl))
              | no full ↦
                  let unkept : keeps w cap ≡ false = ground arith in
                  let facts = laws.push_full w.state.pool (emptied b) (omega arith) in
                  rw (unkept, facts.0, pushed)
                    (Ends.weaken
                      (dealloc_on_drop-Owns (with_pool w (queue.push w.state.pool (emptied b)).0) b
                        cap blk (Owns-moved o.there o))
                      (λ _ w' ((gone, same), alive). ((gone, same ∙ facts.1), alive)) (λ x. x)
                      (λ x. x))
            ])
    ]

    pub GivenBack-Spares :
        (kept : Bool) (w : World (PoolState Q R)) (b : Raw) (w' : World (PoolState Q R))
        → GivenBack kept w b w'
        → Spares w b w'
    GivenBack-Spares true w b w' (same, _) p c other there = ground (arith, at_base same p, there)
    GivenBack-Spares false w b w' (gone, _) p c other there =
        ground (arith, at_base gone p, other, there)

    -- A buffer that is dropped goes back to the pool or is freed.
    pub drop-Dropped :
        (w : World (PoolState Q R)) (u : Unique) (xs : List ℕ)
        → Contains t w u xs
        → Ends (λ _ w'. Dropped t w u w') ⊥ ⊥ (Unique.drop t (pooled t queue should_retain a) u w)
    unfolding Unique.drop Raw.drop Raw.new_in
    drop-Dropped w u xs c = elim c.holds [
      | unallocated e z n ↦
          rw (e, is_allocated-tagged false 0 (omega arith)) (ends (nothing refl refl refl))
      | allocated blk o enough bytes ↦
          let all = pooled t queue should_retain a in
          rw (drop-deallocate v all w u.buf c.cap blk o, released-same v all w u.buf c.cap blk o)
            (Ends.weaken (deallocate_buffer-Owns w u.buf c.cap blk o)
              (λ _ w' (given, alive). given_back c.cap blk o given) (λ x. x) (λ x. x))
    ]

    pub Dropped-Spares :
        {w w' : World (PoolState Q R)} {u : Unique} → Dropped t w u w' → Spares w u.buf w'
    Dropped-Spares {w} {w'} {u} (nothing e same items) p c other there =
        ground (arith, at_base same p, there)
    Dropped-Spares {w} {w'} {u} (given_back cap blk o given) p c other there =
        GivenBack-Spares (keeps w cap) w u.buf w' given p c other there

    -- The allocator of pooled buffers is one that the buffers can rely on.
    pub pooled-IsBufferAllocator : IsBufferAllocator t (pooled t queue should_retain a) X
    pooled-IsBufferAllocator = record {
      lawful = forward-IsAllocator t a law;
      gives_back = λ b cap blk w o.
          Ends.weaken (deallocate_buffer-Owns w b cap blk o)
            (λ _ w' (given, _). GivenBack-Spares (keeps w cap) w b w' given) (λ x. x) (λ x. x);
    }
