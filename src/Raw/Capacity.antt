-- ===== src/Raw/Capacity.antt =====
-- The operations that panic or abort where no room can be had, and those that give room back.
use native.Mathlib.Decide.{dec_lt}
use rkyv_utils.Prelude.{
  ℕ, ◌+◌, ◌<◌, refl, List, [], length, arith, lt→ltb, ge→ltb, ◌==◌, Bool-cases, inl, inr,
}
use rkyv_utils.Memory.{Target, World}
use rkyv_utils.Memory.Ends
use rkyv_utils.Memory.Ends.{Ends, ends}
use rkyv_utils.BufferLayout.Fits.{IsTarget, Fits}
use rkyv_utils.Alloc.{BufferAllocator}
use rkyv_utils.Alloc.Contract.{IsAllocator}
use rkyv_utils.Raw.{Raw, new_in, reserve, try_reserve_exact, reserve_exact, with_capacity_in}
use rkyv_utils.Raw.Holds.{Holds, unallocated, Grows, Reserved, Holds-capacity, Frame-refl}
use rkyv_utils.Raw.Alloc.{alloc-Grows}
use rkyv_utils.Raw.Reserve.{
  amortized, handle_reserve-Reserved, grow_amortized-Grows, grow_exact-Grows, needs_to_grow_lem,
}

module _ {S : Type 0} {t : Target} (v : IsTarget t) (a : BufferAllocator S) where
  -- `new_in` holds nothing.
  pub new_in-Holds : (w : World S) → Holds t w new_in 0 []
  new_in-Holds w = unallocated refl refl refl

  module _ {X : Type 0} (law : IsAllocator t a.allocator X) (w : World S) where
    handled :
        (b : Raw) (xs : List ℕ) (need asked : ℕ) {r : _}
        → Ends (Grows t X w b xs need asked) ⊥ ⊥ r
        → Ends (Grows t X w b xs need asked) (¬ Fits t asked) X r
    handled b xs need asked e = Ends.weaken e (λ r w' g. g) absurd absurd

    -- `reserve` makes room and keeps the bytes; it panics only where the capacity is short and the
    -- amortized one fits no layout, and aborts only where memory is exhausted.
    pub reserve-Reserved :
        (b : Raw) (cap : ℕ) (xs : List ℕ) (additional : ℕ)
        → Holds t w b cap xs
        → let need = length xs + additional in
          Ends
            (Reserved t w b xs need)
            ((cap < need) × (¬ Fits t (amortized cap need)))
            X
            (reserve t a b (length xs) additional w)
    unfolding reserve
    reserve-Reserved b cap xs additional h =
        let facts = Holds-capacity v h in
        let need : ℕ = length xs + additional in
        rw (needs_to_grow_lem v a law w b cap (length xs) additional facts.0 facts.1 facts.2)
          (elim (dec_lt cap need) [
            | yes short ↦ rw (lt→ltb _ _ short) (
                Ends.weaken
                  (Ends.chain
                    (handled b xs need (amortized cap need) (
                      grow_amortized-Grows v a law w b cap xs (length xs) additional h (omega arith)
                        short))
                    (handle_reserve-Reserved v a w b xs need (amortized cap need)))
                  (λ b' w' r. r) (λ refused. (short, refused)) (λ x. x))
            | no enough ↦
                rw (ge→ltb cap need (omega arith)) (ends (cap, omega arith, h, Frame-refl w b))
          ])

    -- `try_reserve_exact` makes room for more bytes behind the contents, or says why it cannot;
    -- the contents and all other blocks are kept in every case.
    pub try_reserve_exact-Grows :
        (b : Raw) (cap : ℕ) (xs : List ℕ) (additional : ℕ)
        → Holds t w b cap xs
        → let need = length xs + additional in
          Ends (Grows t X w b xs need need) ⊥ ⊥ (try_reserve_exact t a b (length xs) additional w)
    unfolding try_reserve_exact
    try_reserve_exact-Grows b cap xs additional h =
        let facts = Holds-capacity v h in
        let need : ℕ = length xs + additional in
        rw (needs_to_grow_lem v a law w b cap (length xs) additional facts.0 facts.1 facts.2)
          (elim (dec_lt cap need) [
            | yes short ↦
                rw (lt→ltb _ _ short)
                  (grow_exact-Grows v a law w b cap xs (length xs) additional h short)
            | no enough ↦
                rw (ge→ltb cap need (omega arith)) (ends (cap, omega arith, h, Frame-refl w b))
          ])

    -- `reserve_exact` makes room and keeps the bytes; it panics only where the bytes needed fit no
    -- layout, and aborts only where memory is exhausted.
    pub reserve_exact-Reserved :
        (b : Raw) (cap : ℕ) (xs : List ℕ) (additional : ℕ)
        → Holds t w b cap xs
        → let need = length xs + additional in
          Ends
            (Reserved t w b xs need)
            (¬ Fits t need)
            X
            (reserve_exact t a b (length xs) additional w)
    unfolding reserve_exact
    reserve_exact-Reserved b cap xs additional h =
        let need : ℕ = length xs + additional in
        Ends.chain (handled b xs need need (try_reserve_exact-Grows b cap xs additional h))
          (handle_reserve-Reserved v a w b xs need need)

    -- A buffer made with a capacity has at least that capacity, and no bytes; it panics only where
    -- the capacity fits no layout, and aborts only where memory is exhausted.
    pub with_capacity_in-Reserved :
        (size : ℕ)
        → Ends (Reserved t w new_in [] size) (¬ Fits t size) X (with_capacity_in t a size w)
    unfolding with_capacity_in
    with_capacity_in-Reserved size = elim (Bool-cases (size == 0)) [
      | inl e ↦ rw e (ends (0, ground arith, new_in-Holds w, Frame-refl w new_in))
      | inr e ↦ rw e (
          Ends.chain (handled new_in [] size size (alloc-Grows v a law size w (ground arith)))
            (handle_reserve-Reserved v a w new_in [] size size))
    ]
