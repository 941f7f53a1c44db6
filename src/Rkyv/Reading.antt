-- ===== src/Rkyv/Reading.antt =====
-- Reading an archived buffer: the check, and the copy into a buffer of one's own.
use rkyv_utils.Prelude.{
  ℕ, ◌≡◌, ◌%◌, refl, Bool-cases, inl, inr, ◌↔◌, Result, ok, err, List, [], length, ◌==◌, arith,
}
use rkyv_utils.Memory.{Target, World, Run, Cmd, done, panic, abort, undefined, and_then, ◌>>=◌}
use rkyv_utils.Memory.Ends
use rkyv_utils.Memory.Ends.{Ends, ends}
use rkyv_utils.BufferLayout.Fits.{IsTarget, Fits}
use rkyv_utils.Alloc.{BufferAllocator}
use rkyv_utils.Alloc.Contract.{IsAllocator}
use rkyv_utils.Raw.Holds.{Frame-trans}
use rkyv_utils.Unique
use rkyv_utils.Unique.{Unique, extend_from_slice}
use rkyv_utils.Unique.Build.{with_capacity_in-Becomes}
use rkyv_utils.Unique.Append.{doubled, Becomes, append-Becomes}
use rkyv_utils.Shared
use rkyv_utils.Shared.Sharing.{as_slice-into_shared}
use rkyv_utils.Rkyv.{check_bytes, aligned, deserialize_unique, deserialize_shared}

-- Commands can be grouped.
and_then_assoc :
    {S A B C : Type 0} (r : Run S A) (f : A → Cmd S B) (g : B → Cmd S C)
    → and_then (and_then r f) g ≡ and_then r (λ x w. and_then (f x w) g)
and_then_assoc (done x w) f g = refl
and_then_assoc panic f g = refl
and_then_assoc abort f g = refl
and_then_assoc undefined f g = refl

module _ {V C E : Type 0} (check_box : V → C → C × Result (Unit {0}) E) (ptr : V → ℕ)
    (t : Target) where
  -- The test of the alignment, after the box is checked.
  aligned_iff :
      (value : V) (p : C × Result (Unit {0}) E)
      → ((aligned check_box ptr t value p).1 ≡ ok tt)
        ↔ ((p.1 ≡ ok tt) × (ptr value % t.alignment ≡ 0))
  unfolding aligned
  aligned_iff value (context, err e) = (λ h. ground (arith, h), λ h. ground (arith, h.0))
  aligned_iff value (context, ok tt) = elim (Bool-cases (ptr value % t.alignment == 0)) [
    | inl e ↦ (λ h. (refl, ground (arith, e)), λ h. ground (arith, e))
    | inr e ↦ (λ h. ground (arith, h, e), λ h. ground (arith, h.1, e))
  ]

  pub check_bytes_iff :
      (value : V) (context : C)
      → ((check_bytes check_box ptr t value context).1 ≡ ok tt)
        ↔ (((check_box value context).1 ≡ ok tt) × (ptr value % t.alignment ≡ 0))
  unfolding check_bytes
  check_bytes_iff value context = aligned_iff value (check_box value context)

module _ {S : Type 0} {t : Target} (v : IsTarget t) (a : BufferAllocator S) {X : Type 0}
    (law : IsAllocator t a.allocator X) where
  -- The copy has the bytes of the archive, and every other block is as it was.
  pub deserialize_unique-Becomes :
      (w : World S) (xs : List ℕ)
      → Ends
          (Becomes t w Unique.new_in xs)
          (¬ Fits t (doubled (length xs)))
          X
          (deserialize_unique t a xs w)
  unfolding deserialize_unique extend_from_slice
  deserialize_unique-Becomes w xs =
      Ends.chain
        (Ends.weaken (with_capacity_in-Becomes v a law w (length xs)) (λ b w' h. h)
          (λ refused fits. refused (omega arith)) (λ x. x))
        λ u w1 (c1, f1).
          Ends.weaken (append-Becomes v a law w1 u [] xs c1)
            (λ u' w2 (c2, f2). (c2, Frame-trans w Unique.new_in.buf w1 u.buf w2 u'.buf f1 f2))
            (λ refused fits. refused (omega arith)) (λ x. x)

  -- A shared copy of an archived buffer reads as the bytes of the archive. It panics only where
  -- twice its length fits no layout, and aborts only where memory is exhausted.
  pub as_slice-deserialize_shared :
      (w : World S) (xs : List ℕ)
      → Ends
          (λ ys w'. ys ≡ xs)
          (¬ Fits t (doubled (length xs)))
          X
          ((deserialize_shared t a xs >>= Shared.as_slice t a) w)
  unfolding deserialize_shared
  as_slice-deserialize_shared w xs =
      rw
        (and_then_assoc (deserialize_unique t a xs w) (Shared.into_shared t a)
          (Shared.as_slice t a))
        (Ends.chain (deserialize_unique-Becomes w xs)
          λ u w1 (c1, f1). Ends.ends_of_eq (as_slice-into_shared v a w1 u xs c1) refl)
