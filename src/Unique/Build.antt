-- ===== src/Unique/Build.antt =====
-- Buffers that are built with a capacity or from an iterator, and the room that is given back.
use rkyv_utils.Prelude.{
  ℕ, ◌≤◌, ◌<◌, refl, List, [], length, max, min, ltb, arith, Bool-cases, inl, inr,
}
use rkyv_utils.Memory.{Target, World}
use rkyv_utils.Memory.Ends
use rkyv_utils.Memory.Ends.{Ends, ends}
use rkyv_utils.BufferLayout.Fits.{IsTarget, Fits}
use rkyv_utils.Alloc.{BufferAllocator}
use rkyv_utils.Alloc.Contract.{IsAllocator}
use rkyv_utils.Raw.Capacity.{with_capacity_in-Reserved}
use rkyv_utils.Raw.Shrink.{shrink_to_fit-Reserved}
use rkyv_utils.Raw.Holds.{Frame-refl, Frame-trans, Holds-capacity, IsBufferAllocator}
use rkyv_utils.Unique
use rkyv_utils.Unique.{Unique, capacity, with_capacity_in, from_iter, shrink_to}
use rkyv_utils.Unique.Contents.{Contains, capacity-Contains}
use rkyv_utils.Unique.Append.{doubled, Becomes}
use rkyv_utils.Unique.Resize.{extend-Becomes}

module _ {S : Type 0} {t : Target} (v : IsTarget t) (a : BufferAllocator S) {X : Type 0} where
  module _ (law : IsAllocator t a.allocator X) (w : World S) where
    -- A buffer made with a capacity is empty.
    pub with_capacity_in-Becomes :
        (n : ℕ) → Ends (Becomes t w Unique.new_in []) (¬ Fits t n) X (with_capacity_in t a n w)
    unfolding with_capacity_in Unique.new_in
    with_capacity_in-Becomes n =
        Ends.chain (with_capacity_in-Reserved v a law w n) λ b w1 (cap, enough, holds, f1).
          ends (record { cap = cap; holds = holds; len = refl }, f1)

    -- `from_iter` collects every byte of an iterator, whether or not its lower bound is right.
    pub from_iter-Becomes :
        (lower : ℕ) (iter : List ℕ)
        → Ends
            (Becomes t w Unique.new_in iter)
            (¬ Fits t (doubled (max lower (length iter))))
            X
            (from_iter t a lower iter w)
    unfolding from_iter
    from_iter-Becomes lower iter =
        Ends.chain
          (Ends.weaken (with_capacity_in-Becomes lower) (λ b w' h. h)
            (λ refused fits. refused (omega arith)) (λ x. x))
          λ u w1 (c1, f1).
            Ends.weaken (extend-Becomes v a law w1 u [] lower iter c1)
              (λ u' w2 (c2, f2). (c2, Frame-trans w Unique.new_in.buf w1 u.buf w2 u'.buf f1 f2))
              (λ refused fits. refused (omega arith)) (λ x. x)

  -- `shrink_to` keeps the bytes and at least the room asked for, where there was as much, and
  -- leaves every other block as it was. It never panics, and aborts only where memory is
  -- exhausted.
  pub shrink_to-Becomes :
      (law : IsBufferAllocator t a X) (w : World S) (u : Unique) (xs : List ℕ) (room : ℕ)
      → Contains t w u xs
      → Ends
          (λ u' w'. Becomes t w u xs u' w' × (min room (capacity u) ≤ capacity u'))
          ⊥
          X
          (shrink_to t a u room w)
  unfolding shrink_to capacity
  shrink_to-Becomes law w u xs room c =
      let bounds = capacity-Contains v w u xs c in
      elim (Bool-cases (ltb room (capacity u))) [
        | inr enough ↦ rw enough (ends ((c, Frame-refl w u.buf), omega arith))
        | inl more ↦
            let less : room < capacity u = ground (arith, more) in
            rw (more, c.len)
              (Ends.chain
                (Ends.weaken
                  (shrink_to_fit-Reserved v a law w u.buf c.cap xs (max (length xs) room) c.holds
                    (omega arith) (omega arith))
                  (λ b w' r. r) absurd (λ x. x))
                λ b w1 (cap1, kept, holds, f1). ends (
                  (record { cap = cap1; holds = holds; len = refl }, f1),
                  omega (arith, (Holds-capacity v holds).0),
                ))
      ]
