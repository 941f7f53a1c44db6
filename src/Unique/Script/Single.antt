-- ===== src/Unique/Script/Single.antt =====
-- The methods that make room or give it back, and `clear`.
use rkyv_utils.Prelude.{ℕ, ◌+◌, ◌≤◌, refl, List, [], length, ltb, arith, Bool-cases, inl, inr}
use rkyv_utils.Memory.{Target, World}
use rkyv_utils.Memory.Ends
use rkyv_utils.Memory.Ends.{Ends, ends}
use rkyv_utils.BufferLayout.Fits.{IsTarget, Fits}
use rkyv_utils.Alloc.{BufferAllocator}
use rkyv_utils.Alloc.Contract.{IsAllocator}
use rkyv_utils.Raw.Capacity.{reserve_exact-Reserved}
use rkyv_utils.Raw.Shrink.{shrink_to_fit-Reserved}
use rkyv_utils.Raw.Holds.{Frame-refl, Holds-capacity, IsBufferAllocator}
use rkyv_utils.Unique.{Unique, capacity, reserve_exact, shrink_to_fit, clear, truncate}
use rkyv_utils.Unique.Contents.{Contains, capacity-Contains}
use rkyv_utils.Unique.Append.{Becomes}
use rkyv_utils.Unique.Resize.{truncate-Contains}

module _ {S : Type 0} {t : Target} (v : IsTarget t) (a : BufferAllocator S) where
  -- `clear` leaves no bytes.
  pub clear-Contains :
      (w : World S) (u : Unique) (xs : List ℕ) → Contains t w u xs → Contains t w (clear u) []
  unfolding clear truncate
  clear-Contains w u xs c =
      let kept = truncate-Contains v a w u xs 0 c in
      record { cap = kept.cap; holds = kept.holds; len = refl }

  module _ {X : Type 0} where
    -- `reserve_exact` makes room and keeps the bytes. It panics only where the bytes needed fit no
    -- layout, and aborts only where memory is exhausted.
    pub reserve_exact-Becomes :
        (law : IsAllocator t a.allocator X) (w : World S) (u : Unique) (xs : List ℕ)
        (additional : ℕ)
        → Contains t w u xs
        → let need = length xs + additional in
          Ends
            (λ u' w'. Becomes t w u xs u' w' × (need ≤ capacity u'))
            (¬ Fits t need)
            X
            (reserve_exact t a u additional w)
    unfolding reserve_exact capacity
    reserve_exact-Becomes law w u xs additional c = rw c.len (
        Ends.chain (reserve_exact-Reserved v a law w u.buf c.cap xs additional c.holds)
          λ b' w' (cap', enough, holds, frame). ends (
            (record { cap = cap'; holds = holds; len = refl }, frame),
            omega (arith, (Holds-capacity v holds).0),
          ))

    -- `shrink_to_fit` keeps the bytes. It never panics, and aborts only where memory is exhausted.
    pub shrink_to_fit-Becomes :
        (law : IsBufferAllocator t a X) (w : World S) (u : Unique) (xs : List ℕ)
        → Contains t w u xs
        → Ends (Becomes t w u xs) ⊥ X (shrink_to_fit t a u w)
    unfolding shrink_to_fit
    shrink_to_fit-Becomes law w u xs c =
        let bounds = capacity-Contains v w u xs c in
        elim (Bool-cases (ltb u.len (capacity u))) [
          | inr enough ↦ rw enough (ends (c, Frame-refl w u.buf))
          | inl more ↦
              rw (more, c.len)
                (Ends.chain
                  (shrink_to_fit-Reserved v a law w u.buf c.cap xs (length xs) c.holds (omega arith)
                    (omega arith))
                  λ b w1 (cap1, kept, holds, f1).
                    ends (record { cap = cap1; holds = holds; len = refl }, f1))
        ]
