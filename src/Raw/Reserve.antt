-- ===== src/Raw/Reserve.antt =====
-- Reserving room in a unique buffer.
use native.Mathlib.Decide.{dec_lt}
use rkyv_utils.Prelude.{
  ℕ, ◌+◌, ◌*◌, ◌≤◌, ◌<◌, ◌≡◌, refl, true, false, ok, err, List, [], max, isize_max, length, arith,
  ltb, usize_mod, lt→ltb, ge→ltb,
}
use rkyv_utils.TaggedCap.{value, zero_cap}
use rkyv_utils.TaggedCap.Fields.{value-tagged, is_allocated-tagged}
use rkyv_utils.Memory.{Target, World, done}
use rkyv_utils.Memory.Ends
use rkyv_utils.Memory.Ends.{Ends, ends, panics, aborts}
use rkyv_utils.BufferLayout.{capacity_overflow, alloc_error}
use rkyv_utils.BufferLayout.Fits.{IsTarget, Fits}
use rkyv_utils.Alloc.{BufferAllocator}
use rkyv_utils.Alloc.Contract.{IsAllocator}
use rkyv_utils.Raw.{
  Raw, Outcome, new_in, min_non_zero_cap, handle_reserve, needs_to_grow, grow_to, grow_amortized,
  grow_exact, try_reserve,
}
use rkyv_utils.Raw.Holds.{
  Owns-bounds, Holds, unallocated, allocated, Frame-refl, Grows, Reserved, Holds-capacity,
}
use rkyv_utils.Raw.Alloc.{alloc-Grows}
use rkyv_utils.Raw.Realloc.{realloc-Grows}

-- The capacity that `grow_amortized` asks for.
abbrev pub amortized : (cap need : ℕ) → ℕ
amortized cap need = max min_non_zero_cap (max (cap * 2) need)

module _ {S : Type 0} {t : Target} (v : IsTarget t) (a : BufferAllocator S) where
  pub handle_reserve-Reserved :
      {X : Type 0} (w : World S) (b : Raw) (xs : List ℕ) (need asked : ℕ) (r : Raw × Outcome)
      (w' : World S)
      → Grows t X w b xs need asked r w'
      → Ends (Reserved t w b xs need) (¬ Fits t asked) X (handle_reserve r w')
  unfolding handle_reserve
  handle_reserve-Reserved w b xs need asked (b', ok _) w' g = ends g
  handle_reserve-Reserved w b xs need asked (b', err capacity_overflow) w' g = panics g.0
  handle_reserve-Reserved w b xs need asked (b', err (alloc_error l)) w' g = aborts g.0

  module _ {X : Type 0} (law : IsAllocator t a.allocator X) (w : World S) where
    grow_to_new :
        (size : ℕ)
        → 0 < size
        → Ends (Grows t X w new_in [] size size) ⊥ ⊥ (grow_to t a new_in size w)
    unfolding grow_to new_in
    grow_to_new size more =
        let empty = value-tagged false 0 (omega arith) in
        let larger : ltb (value zero_cap) size ≡ true = ground (arith, empty) in
        rw (Ends.debug_assert-true t w larger, is_allocated-tagged false 0 (omega arith))
          (alloc-Grows v a law size w more)

    grow_to-Grows :
        (b : Raw) {cap : ℕ} {xs : List ℕ} (size : ℕ)
        → Holds t w b cap xs
        → cap < size
        → Ends (Grows t X w b xs size size) ⊥ ⊥ (grow_to t a b size w)
    unfolding grow_to
    grow_to-Grows b size (unallocated e z n) more = rw (e, n) (grow_to_new size (omega arith))
    grow_to-Grows b {cap} {xs} size (allocated blk o room bytes) more =
        let bounds = Owns-bounds v o in
        let larger : ltb (value b.cap_or_len) size ≡ true = ground (arith, bounds.1) in
        rw (Ends.debug_assert-true t w larger, bounds.2)
          (realloc-Grows v a o law xs size (omega arith) (omega arith) room bytes)

    Grows-less :
        (b : Raw) (xs : List ℕ) (need asked : ℕ)
        → need ≤ asked
        → (r : Raw × Outcome) (w' : World S) → Grows t X w b xs asked asked r w'
        → Grows t X w b xs need asked r w'
    Grows-less b xs need asked le (b', ok _) w' (cap', enough, holds, frame) =
        (cap', omega arith, holds, frame)
    Grows-less b xs need asked le (b', err capacity_overflow) w' g = g
    Grows-less b xs need asked le (b', err (alloc_error l)) w' g = g

    grow_amortized-grow_to :
        (b : Raw) (cap len additional : ℕ)
        → value b.cap_or_len ≡ cap
        → cap ≤ isize_max
        → 0 < additional
        → len + additional < usize_mod
        → grow_amortized t a b len additional w ≡ grow_to t a b (amortized cap (len + additional)) w
    unfolding grow_amortized
    grow_amortized-grow_to b cap len additional e small more plain = ground arith

    grow_amortized-overflow :
        (b : Raw) (len additional : ℕ)
        → 0 < additional
        → usize_mod ≤ len + additional
        → grow_amortized t a b len additional w ≡ done (b, err capacity_overflow) w
    unfolding grow_amortized
    grow_amortized-overflow b len additional more big = ground arith

    pub grow_amortized-Grows :
        (b : Raw) (cap : ℕ) (xs : List ℕ) (len additional : ℕ)
        → Holds t w b cap xs
        → 0 < additional
        → cap < len + additional
        → Ends
            (Grows t X w b xs (len + additional) (amortized cap (len + additional)))
            ⊥
            ⊥
            (grow_amortized t a b len additional w)
    grow_amortized-Grows b cap xs len additional h more short =
        let facts = Holds-capacity v h in
        elim (dec_lt (len + additional) usize_mod) [
          | yes plain ↦
              rw (grow_amortized-grow_to b cap len additional facts.0 facts.1 more plain) (
                Ends.weaken (grow_to-Grows b (amortized cap (len + additional)) h (omega arith))
                  (Grows-less b xs (len + additional) (amortized cap (len + additional))
                    (omega arith))
                  (λ x. x) (λ y. y))
          | no big ↦
              rw (grow_amortized-overflow b len additional more (omega arith))
                (ends (omega arith, refl, refl))
        ]

    pub grow_exact-Grows :
        (b : Raw) (cap : ℕ) (xs : List ℕ) (len additional : ℕ)
        → Holds t w b cap xs
        → cap < len + additional
        → Ends
            (Grows t X w b xs (len + additional) (len + additional))
            ⊥
            ⊥
            (grow_exact t a b len additional w)
    unfolding grow_exact
    grow_exact-Grows b cap xs len additional h short = elim (dec_lt (len + additional) usize_mod) [
      | yes plain ↦ rw (lt→ltb _ _ plain, grow_exact) (grow_to-Grows b (len + additional) h short)
      | no big ↦
          rw (ge→ltb (len + additional) usize_mod (omega arith), grow_exact)
            (ends (omega arith, refl, refl))
    ]

    pub needs_to_grow_lem :
        (b : Raw) (cap len additional : ℕ)
        → value b.cap_or_len ≡ cap
        → cap ≤ isize_max
        → len ≤ cap
        → needs_to_grow t a b len additional ≡ ltb cap (len + additional)
    unfolding needs_to_grow
    needs_to_grow_lem b cap len additional e small le = ground arith

    -- `try_reserve` makes room for more bytes behind the contents, or says why it cannot; the
    -- contents and all other blocks are kept in every case.
    pub try_reserve-Grows :
        (b : Raw) (cap : ℕ) (xs : List ℕ) (additional : ℕ)
        → Holds t w b cap xs
        → let need = length xs + additional in
          Ends
            (Grows t X w b xs need (amortized cap need))
            ⊥
            ⊥
            (try_reserve t a b (length xs) additional w)
    unfolding try_reserve
    try_reserve-Grows b cap xs additional h =
        let facts = Holds-capacity v h in
        rw (needs_to_grow_lem b cap (length xs) additional facts.0 facts.1 facts.2)
          (elim (dec_lt cap (length xs + additional)) [
            | yes short ↦
                rw (lt→ltb _ _ short)
                  (grow_amortized-Grows b cap xs (length xs) additional h (omega arith) short)
            | no enough ↦
                rw (ge→ltb cap (length xs + additional) (omega arith))
                  (ends (cap, omega arith, h, Frame-refl w b))
          ])
