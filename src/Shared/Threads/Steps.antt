-- ===== src/Shared/Threads/Steps.antt =====
-- Every step of a call keeps the invariant, and is defined.
use rkyv_utils.Prelude.{
  ℕ, ◌+◌, ◌-◌, ◌%◌, ◌≤◌, ◌<◌, ◌≡◌, ◌≢◌, ◌⊎◌, inl, inr, List, ◌∷◌, ◌++◌, length, isize_max,
  usize_mod, wrapping_sub, ◌==◌, Bool-cases, arith,
}
use rkyv_utils.Memory.{Target, Block, World, done, ptr_sub, load_header, store_header}
use rkyv_utils.Memory.Ends.{Ends, ends}
use rkyv_utils.BufferLayout.Fits.{IsTarget}
use rkyv_utils.Alloc.{BufferAllocator}
use rkyv_utils.Raw
use rkyv_utils.Shared.{Shared, is_unique}
use rkyv_utils.Shared.Handles.{Shares}
use rkyv_utils.Shared.Counting.{counting, recount, recount-Shares}
use rkyv_utils.Shared.Sharing.{ref_count-Shares}
use rkyv_utils.Shared.Threads
use rkyv_utils.Shared.Threads.{
  Pending, cloned, subtracted, acquired, stored, alone, Call, Left, fetch_update, begin, next,
}
use rkyv_utils.Shared.Threads.Tally.{
  tally, giving, aborting, ending, lonely, tally-lonely, tally-aborting, tally-storing,
}
use rkyv_utils.Shared.Threads.Phases.{Phase, alive, leaving, gone, Invariant, counted}

module _ {S : Type 0} {t : Target} (v : IsTarget t) (a : BufferAllocator S) (s : Shared) (cap : ℕ)
    (xs : List ℕ) where
  pub fetch_update-Shares :
      (f : ℕ → ℕ) (w : World S) (blk : Block) (n : ℕ)
      → Shares t w s cap blk xs n
      → fetch_update t a s f w ≡ done n (recount w s blk (f n))
  unfolding fetch_update ptr_sub load_header store_header
  fetch_update-Shares f w blk n h = ground (arith, h.offset, h.there, h.counted)

  module _ (threads : ℕ) (limit : isize_max + 1 + threads < usize_mod) where
    begin-clone :
        (w : World S) (n : ℕ) (calls : List Pending) (freed : ℕ)
        → Invariant threads t s cap xs w n calls freed
        → 0 < n
        → length calls < threads
        → Ends
            (λ left w'.
              Invariant threads t s cap xs w' (n - 1 + left.handles) (left.calls ++ calls) freed)
            ⊥
            ⊥
            (begin t a s Threads.clone w)
    unfolding begin
    begin-clone w n calls freed i some few = elim i.phase [
      | leaving blk k h none one store free ↦ absurd (omega arith)
      | gone none one free ↦ absurd (omega arith)
      | alive blk k h count pos none lone free ↦
          let few_lonely = tally-lonely calls in
          let doomed = tally-aborting calls in
          let i_few = i.few in
          let wraps : (k + 1) % usize_mod ≡ k + 1 = omega arith in
          let one : giving (cloned k) + aborting (cloned k) ≡ 1 = ground arith in
          let small : n + giving (cloned k) + tally giving calls ≤ isize_max + 1 = ground arith in
          let e = fetch_update-Shares (λ m. (m + 1) % usize_mod) w blk k h in
          rw e (
            ends (record {
              phase =
                  alive (counting blk ((k + 1) % usize_mod)) ((k + 1) % usize_mod)
                    (recount-Shares v a w s cap blk xs k ((k + 1) % usize_mod) h) (omega arith)
                    (omega arith) (omega arith) (inl (omega arith)) free;
              few = omega arith;
              in_flight = omega arith;
            }))
    ]

    subtracted-Phase :
        (w : World S) (n : ℕ) (calls : List Pending) (freed : ℕ) (blk : Block) (k k' : ℕ)
        → Shares t w s cap blk xs k'
        → k' + 1 ≡ k
        → k ≡ counted n calls
        → 0 < n
        → tally ending calls ≡ 0
        → (tally lonely calls ≡ 0) ⊎ (k ≡ 1)
        → freed ≡ 0
        → Phase t s cap xs w (n - 1 + 0) (subtracted k ∷ calls) freed
    subtracted-Phase w n calls freed blk k k' h less count some none lone free =
        let few_lonely = tally-lonely calls in
        let few = tally-storing calls in
        elim (Bool-cases (k == 1)) [
          | inl one ↦
              let all : k ≡ 1 = ground (arith, one) in
              let last : ending (subtracted k) ≡ 1 = ground (arith, one) in
              leaving blk k' h (omega arith) (omega arith) (inl (omega arith)) free
          | inr more ↦
              let not_all : k ≢ 1 = ground (arith, more) in
              let others : ending (subtracted k) ≡ 0 = ground (arith, more) in
              alive blk k' h (omega arith) (omega arith) (omega arith) (inl (omega arith)) free
        ]

    begin-drop :
        (w : World S) (n : ℕ) (calls : List Pending) (freed : ℕ)
        → Invariant threads t s cap xs w n calls freed
        → 0 < n
        → length calls < threads
        → Ends
            (λ left w'.
              Invariant threads t s cap xs w' (n - 1 + left.handles) (left.calls ++ calls) freed)
            ⊥
            ⊥
            (begin t a s Threads.drop w)
    unfolding begin
    begin-drop w n calls freed i some few = elim i.phase [
      | leaving blk k h none one store free ↦ absurd (omega arith)
      | gone none one free ↦ absurd (omega arith)
      | alive blk k h count pos none lone free ↦
          let few_lonely = tally-lonely calls in
          let doomed = tally-aborting calls in
          let i_few = i.few in
          let less : wrapping_sub k 1 + 1 ≡ k = omega arith in
          let after = recount-Shares v a w s cap blk xs k (wrapping_sub k 1) h in
          rw (fetch_update-Shares (λ m. wrapping_sub m 1) w blk k h) (
            ends (record {
              phase =
                  subtracted-Phase _ n calls freed _ k (wrapping_sub k 1) after less count some none
                    lone free;
              few = omega arith;
              in_flight = omega arith;
            }))
    ]

    begin-try_unique :
        (w : World S) (n : ℕ) (calls : List Pending) (freed : ℕ)
        → Invariant threads t s cap xs w n calls freed
        → 0 < n
        → length calls < threads
        → Ends
            (λ left w'.
              Invariant threads t s cap xs w' (n - 1 + left.handles) (left.calls ++ calls) freed)
            ⊥
            ⊥
            (begin t a s Threads.try_unique w)
    unfolding begin is_unique Raw.is_unique
    begin-try_unique w n calls freed i some few = elim i.phase [
      | leaving blk k h none one store free ↦ absurd (omega arith)
      | gone none one free ↦ absurd (omega arith)
      | alive blk k h count pos none lone free ↦
          let few_lonely = tally-lonely calls in
          let i_few = i.few in
          let e = ref_count-Shares v a w s cap blk xs k h in
          elim (Bool-cases (k == 1)) [
            | inl one ↦
                rw (e, one)
                  (ends (record {
                    phase =
                        alive blk k h (omega arith) pos (omega arith) (inr (ground (arith, one)))
                          free;
                    few = omega arith;
                    in_flight = omega arith;
                  }))
            | inr more ↦
                rw (e, more)
                  (ends (record {
                    phase = alive blk k h (omega arith) pos none (omega arith) free;
                    few = omega arith;
                    in_flight = omega arith;
                  }))
          ]
    ]

    pub begin-Invariant :
        (call : Call) (w : World S) (n : ℕ) (calls : List Pending) (freed : ℕ)
        → Invariant threads t s cap xs w n calls freed
        → 0 < n
        → length calls < threads
        → Ends
            (λ left w'.
              Invariant threads t s cap xs w' (n - 1 + left.handles) (left.calls ++ calls) freed)
            ⊥
            ⊥
            (begin t a s call w)
    begin-Invariant Threads.clone = begin-clone
    begin-Invariant Threads.drop = begin-drop
    begin-Invariant Threads.try_unique = begin-try_unique
