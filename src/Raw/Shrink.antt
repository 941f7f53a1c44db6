-- ===== src/Raw/Shrink.antt =====
-- Giving room back.
use rkyv_utils.Prelude.{
  ℕ, ◌≤◌, ◌<◌, ◌≡◌, refl, List, [], ◌∷◌, length, arith, le→leb, ◌==◌, Bool-cases, inl, inr,
  if◌then◌else◌,
}
use rkyv_utils.Memory.{Target, World, Block}
use rkyv_utils.Memory.Ends
use rkyv_utils.Memory.Ends.{Ends, ends}
use rkyv_utils.BufferLayout.Fits.{IsTarget}
use rkyv_utils.Alloc.{BufferAllocator}
use rkyv_utils.Raw.{Raw, new_in, shrink, shrink_to_fit, realloc, dealloc_buf, dealloc_slow}
use rkyv_utils.Raw.Holds.{
  Owns, Owns-bounds, Holds, unallocated, allocated, Grows, Reserved, Holds-capacity, Holds-Fits,
  IsBufferAllocator, Frame-refl,
}
use rkyv_utils.Raw.Realloc.{realloc-Grows}
use rkyv_utils.Raw.Reserve.{handle_reserve-Reserved}

module _ {S : Type 0} {t : Target} (v : IsTarget t) (a : BufferAllocator S) {X : Type 0}
    (law : IsBufferAllocator t a X) (w : World S) where
  dealloc_buf-Grows :
      (b : Raw) (cap size : ℕ) (blk : Block) (xs : List ℕ)
      → Owns t w b cap blk
      → length xs ≤ size
      → size ≡ 0
      → Ends (Grows t X w b xs size size) ⊥ ⊥ (dealloc_buf t a b w)
  unfolding dealloc_buf dealloc_slow new_in
  dealloc_buf-Grows b cap size blk (x ∷ xs) o held none_left = absurd (omega arith)
  dealloc_buf-Grows b cap size blk [] o held none_left =
      rw (Ends.debug_assert-true t w (Owns-bounds v o).2) (
        Ends.chain (law.gives_back b cap blk w o) λ _ w' spares. ends (
          0,
          omega arith,
          unallocated refl refl refl,
          λ p c real other there. (spares p c other there, real),
        ))

  shrink_smaller :
      (b : Raw) (cap : ℕ) (xs : List ℕ) (size : ℕ)
      → Holds t w b cap xs
      → length xs ≤ size
      → size < cap
      → Ends
          (Grows t X w b xs size size)
          ⊥
          ⊥
          ((if size == 0 then dealloc_buf t a b else realloc t a b size) w)
  shrink_smaller b cap xs size (unallocated e z n) kept less = absurd (omega arith)
  shrink_smaller b cap xs size (allocated blk o room bytes) kept less =
      elim (Bool-cases (size == 0)) [
        | inl e ↦ rw e (dealloc_buf-Grows b cap size blk xs o kept (ground arith))
        | inr e ↦ rw e (realloc-Grows v a o law.lawful xs size (ground arith) kept room bytes)
      ]

  shrink-Grows :
      (b : Raw) (cap : ℕ) (xs : List ℕ) (size : ℕ)
      → Holds t w b cap xs
      → length xs ≤ size
      → size ≤ cap
      → Ends (Grows t X w b xs size size) ⊥ ⊥ (shrink t a b size w)
  unfolding shrink
  shrink-Grows b cap xs size h kept less =
      let facts = Holds-capacity v h in
      rw (facts.0, shrink)
        (rw (le→leb _ _ less) (elim (Bool-cases (size == cap)) [
          | inl e ↦ rw e (ends (cap, less, h, Frame-refl w b))
          | inr e ↦ rw e (shrink_smaller b cap xs size h kept (ground arith))
        ]))

  -- `shrink_to_fit` keeps the bytes and at least the room asked for. It never panics on a size
  -- between the length and the capacity, and aborts only where memory is exhausted.
  pub shrink_to_fit-Reserved :
      (b : Raw) (cap : ℕ) (xs : List ℕ) (size : ℕ)
      → Holds t w b cap xs
      → length xs ≤ size
      → size ≤ cap
      → Ends (Reserved t w b xs size) ⊥ X (shrink_to_fit t a b size w)
  unfolding shrink_to_fit
  shrink_to_fit-Reserved b cap xs size h kept less =
      let fits = Holds-Fits v h in
      Ends.weaken
        (Ends.chain
          (Ends.weaken (shrink-Grows b cap xs size h kept less) (λ r w' g. g) absurd absurd)
          (handle_reserve-Reserved v a w b xs size size))
        (λ b' w' r. r) (λ refused. refused (omega arith)) (λ x. x)
