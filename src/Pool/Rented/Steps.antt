-- ===== src/Pool/Rented/Steps.antt =====
-- Each step keeps the buffers in use and those of the pool apart.
use rkyv_utils.Prelude.{
  ℕ, ◌<◌, ◌≡◌, refl, sym, ap, ◌∙◌, subst, max, Bool, true, false, List, [], ◌∷◌, ◌++◌, append-nil,
  append_assoc, arith,
}
use rkyv_utils.TaggedCap.Fields.{is_allocated-tagged}
use rkyv_utils.Memory.{Target, World, Block, load_list}
use rkyv_utils.Memory.Ends
use rkyv_utils.Memory.Ends.{Ends, ends, at_base}
use rkyv_utils.BufferLayout.Fits.{IsTarget}
use rkyv_utils.Alloc.{Allocator}
use rkyv_utils.Alloc.Contract.{IsAllocator}
use rkyv_utils.Raw
use rkyv_utils.Raw.{Raw}
use rkyv_utils.Raw.Holds.{Owns, unallocated, allocated}
use rkyv_utils.Raw.Release.{drop-deallocate, released, released-Owns}
use rkyv_utils.Unique
use rkyv_utils.Unique.{Unique}
use rkyv_utils.Unique.Contents.{Contains}
use rkyv_utils.Unique.Append.{Becomes}
use rkyv_utils.Queue.{ArrayQueue, IsArrayQueue}
use rkyv_utils.Pool.{PoolState, with_pool, get, or_new, pooled}
use rkyv_utils.Pool.Idle.{Owns-moved}
use rkyv_utils.Pool.Recycle.{emptied, keeps, GivenBack, GivenBack-Spares, deallocate_buffer-Owns}
use rkyv_utils.Pool.Rented.{Rented}
use rkyv_utils.Pool.Rented.Separate.{
  ApartAll, Separate, Separate-pick, Separate-put, Frame-Separate, Spares-Separate, Separate-same,
  ApartAll-new_in,
}

-- A buffer of the pool has no bytes.
abbrev pub as_rented : List Unique → Rented
as_rented [] = []
as_rented (u ∷ us) = (u, []) ∷ as_rented us

as_rented-append :
    (us : List Unique) (u : Unique) → as_rented (us ++ u ∷ []) ≡ as_rented us ++ (u, []) ∷ []
as_rented-append [] u = refl
as_rented-append (x ∷ us) u = ap (λ (l : Rented). (x, []) ∷ l) (as_rented-append us u)

module _ {Q R : Type 0} (queue : ArrayQueue Unique Q) (laws : IsArrayQueue queue)
    (should_retain : ℕ → Bool) {t : Target} (v : IsTarget t)
    (wide : 1 < max t.header.align t.alignment) {X : Type 0} (a : Allocator R)
    (law : IsAllocator t a X) where
  -- The buffers in use and those of the pool.
  abbrev pub All : World (PoolState Q R) → Rented → Type 0
  All w rented = Separate t w (rented ++ as_rented (queue.items w.state.pool))

  taken_from :
      (us : List Unique) (w : World (PoolState Q R)) (rented : Rented)
      → queue.items w.state.pool ≡ us
      → Separate t w (rented ++ as_rented us)
      → Ends (λ u w'. All w' ((u, []) ∷ rented)) ⊥ ⊥ (get t queue should_retain a w)
  unfolding get or_new Unique.new_in
  taken_from [] w rented e h =
      let facts = laws.pop_empty w.state.pool e in
      let w' = with_pool w (queue.pop w.state.pool).0 in
      rw facts.0 (
        ends (
          subst (λ (us : List Unique). Separate t w' ((Unique.new_in, []) ∷ rented ++ as_rented us))
            (sym facts.1)
            (
              record { cap = 0; holds = unallocated refl refl refl; len = refl },
              ApartAll-new_in (rented ++ []),
              Separate-same t wide w w' (rented ++ []) refl h,
            )))
  taken_from (u ∷ us) w rented e h =
      let facts = laws.pop_first w.state.pool u us e in
      let w' = with_pool w (queue.pop w.state.pool).0 in
      rw facts.0 (
        ends (
          subst (λ (l : List Unique). Separate t w' ((u, []) ∷ rented ++ as_rented l)) (sym facts.1)
            (Separate-same t wide w w' ((u, []) ∷ rented ++ as_rented us) refl
              (Separate-pick t w rented (as_rented us) (u, []) h))))

  pub get-All :
      (w : World (PoolState Q R)) (rented : Rented)
      → All w rented
      → Ends (λ u w'. All w' ((u, []) ∷ rented)) ⊥ ⊥ (get t queue should_retain a w)
  get-All w rented h = taken_from (queue.items w.state.pool) w rented refl h

  -- A buffer in front of all others, and back at its place.
  pub picked :
      (w : World (PoolState Q R)) (front back : Rented) (r : Unique × List ℕ)
      → All w (front ++ r ∷ back)
      → Separate t w (r ∷ ((front ++ back) ++ as_rented (queue.items w.state.pool)))
  picked w front back r h =
      let items = as_rented (queue.items w.state.pool) in
      subst (λ (l : Rented). Separate t w (r ∷ l)) (sym (append_assoc front back items))
        (Separate-pick t w front (back ++ items) r
          (subst (Separate t w) (append_assoc front (r ∷ back) items) h))

  put_back :
      (w : World (PoolState Q R)) (front back : Rented) (r : Unique × List ℕ)
      → Separate t w (r ∷ ((front ++ back) ++ as_rented (queue.items w.state.pool)))
      → All w (front ++ r ∷ back)
  put_back w front back r h =
      let items = as_rented (queue.items w.state.pool) in
      subst (Separate t w) (sym (append_assoc front (r ∷ back) items)) (
        Separate-put t w front (back ++ items) r
          (subst (λ (l : Rented). Separate t w (r ∷ l)) (append_assoc front back items) h))

  -- What a method makes of its buffer.
  pub called-All :
      (w w' : World (PoolState Q R)) (front back : Rented) (u u' : Unique) (xs xs' : List ℕ)
      → Becomes t w u xs' u' w'
      → queue.items w'.state.pool ≡ queue.items w.state.pool
      → All w (front ++ (u, xs) ∷ back)
      → All w' (front ++ (u', xs') ∷ back)
  called-All w w' front back u u' xs xs' (c, frame) same h =
      let items = as_rented (queue.items w.state.pool) in
      let before = picked w front back (u, xs) h in
      let rest =
        Frame-Separate t wide w w' u.buf u'.buf ((front ++ back) ++ items) frame before.1
          before.2 in
      put_back w' front back (u', xs')
        (subst (λ (us : List Unique). Separate t w' ((u', xs') ∷ ((front ++ back) ++ as_rented us)))
          (sym same) (c, rest.1, rest.0))

  given_back :
      (kept : Bool) (w w1 w' : World (PoolState Q R)) (rest : Rented) (b : Raw) (cap : ℕ)
      (blk : Block)
      → Owns t w1 b cap blk
      → queue.items w1.state.pool ≡ queue.items w.state.pool
      → GivenBack queue laws should_retain kept w1 b w'
      → ApartAll b (rest ++ as_rented (queue.items w.state.pool))
      → Separate t w' (rest ++ as_rented (queue.items w.state.pool))
      → All w' rest
  unfolding load_list
  given_back true w w1 w' rest b cap blk o pool back apart h =
      let items = queue.items w.state.pool in
      let beside = rest ++ as_rented items in
      let idle : Contains t w' (emptied b) [] = record {
        cap = cap;
        holds =
            allocated blk (Owns-moved (at_base back.0 b.buf.base ∙ o.there) o) (omega arith) refl;
        len = refl;
      } in
      let last : Separate t w' (beside ++ (emptied b, []) ∷ []) =
        Separate-put t w' beside [] (emptied b, [])
          (subst (λ (l : Rented). Separate t w' ((emptied b, []) ∷ l)) (sym (append-nil beside))
            (idle, apart, h)) in
      let all : queue.items w'.state.pool ≡ items ++ emptied b ∷ [] =
        back.1 ∙ ap (λ (us : List Unique). us ++ emptied b ∷ []) pool in
      subst (λ (l : Rented). Separate t w' l)
        (append_assoc rest (as_rented items) ((emptied b, []) ∷ [])
          ∙ ap (λ (l : Rented). rest ++ l)
              (sym (as_rented-append items (emptied b)) ∙ ap as_rented (sym all)))
        last
  given_back false w w1 w' rest b cap blk o pool back apart h =
      subst (λ (us : List Unique). Separate t w' (rest ++ as_rented us)) (sym (back.1 ∙ pool)) h

  pub drop-All :
      (w : World (PoolState Q R)) (front back : Rented) (u : Unique) (xs : List ℕ)
      → All w (front ++ (u, xs) ∷ back)
      → Ends
          (λ _ w'. All w' (front ++ back))
          ⊥
          ⊥
          (Unique.drop t (pooled t queue should_retain a) u w)
  unfolding Unique.drop Raw.drop Raw.new_in
  drop-All w front back u xs h =
      let before = picked w front back (u, xs) h in
      let others = (front ++ back) ++ as_rented (queue.items w.state.pool) in
      elim before.0.holds [
        | unallocated e z n ↦ rw (e, is_allocated-tagged false 0 (omega arith)) (ends before.2)
        | allocated blk o room bytes ↦
            let pools = pooled t queue should_retain a in
            let cap = before.0.cap in
            let w1 = released v pools w u.buf blk in
            let o1 = released-Owns v pools w u.buf cap blk o in
            rw (drop-deallocate v pools w u.buf cap blk o) (
              Ends.weaken
                (deallocate_buffer-Owns queue laws should_retain v a law w1 u.buf cap blk o1)
                (λ _ w' (given, _).
                  let kept = keeps queue laws should_retain w1 cap in
                  let spares =
                    GivenBack-Spares queue laws should_retain v a law kept w1 u.buf w' given in
                  given_back kept w w1 w' (front ++ back) u.buf cap blk o1 refl given before.1 (
                    Spares-Separate t wide w w' u.buf others
                      (λ p c other there. spares p c other (ground (arith, other, there))) before.1
                      before.2))
                (λ x. x) (λ x. x))
      ]
