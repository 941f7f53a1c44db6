-- ===== src/Shared/Threads/Returns.antt =====
-- Every later step of a call keeps the invariant, and is defined.
use rkyv_utils.Prelude.{
  ℕ, ◌+◌, ◌≤◌, ◌<◌, ◌≡◌, inl, inr, refl, List, [], ◌∷◌, ◌++◌, length, isize_max, subst, lt→ltb,
  ge→ltb, ◌==◌, Bool-cases, arith,
}
use native.Mathlib.Decide.{dec_lt}
use rkyv_utils.Memory.{Target, World}
use rkyv_utils.Memory.Ends
use rkyv_utils.Memory.Ends.{Ends, ends, aborts}
use rkyv_utils.BufferLayout.Fits.{IsTarget}
use rkyv_utils.Alloc.{BufferAllocator}
use rkyv_utils.Raw.{max_refcount}
use rkyv_utils.Raw.Holds.{IsBufferAllocator}
use rkyv_utils.Shared.{Shared, len}
use rkyv_utils.Shared.Handles.{Shares}
use rkyv_utils.Shared.Counting.{counting, recount-Shares, last-Owns}
use rkyv_utils.Shared.Threads.{Pending, cloned, subtracted, acquired, stored, alone, Left, next}
use rkyv_utils.Shared.Threads.Tally.{tally, giving, aborting, ending, storing, lonely}
use rkyv_utils.Shared.Threads.Phases.{
  alive, leaving, gone, Phase-relabel, Invariant, Invariant-moved,
}
use rkyv_utils.Shared.Threads.Steps.{fetch_update-Shares}
use rkyv_utils.Shared.Threads.Values.{load-Shares, last-dealloc, reshared}

module _ {S : Type 0} {t : Target} (v : IsTarget t) (a : BufferAllocator S) (s : Shared) (cap : ℕ)
    (xs : List ℕ) where
  module _ {X : Type 0} (law : IsBufferAllocator t a X) (threads : ℕ) where
    -- After a step of a call that stood first.
    abbrev After : (w : World S) (n : ℕ) (rest : List Pending) (freed : ℕ) → Left → World S → Type 0
    After w n rest freed left w' =
        Invariant threads t s cap xs w' (n + left.handles) (left.calls ++ rest) (freed + left.freed)

    relabel :
        (w : World S) (n n' : ℕ) (calls calls' : List Pending) (freed freed' : ℕ)
        → Invariant threads t s cap xs w n calls freed
        → n' + tally giving calls' ≡ n + tally giving calls
        → tally aborting calls' ≡ tally aborting calls
        → tally ending calls' ≡ tally ending calls
        → tally storing calls' ≤ tally storing calls
        → tally lonely calls' ≤ tally lonely calls
        → length calls' ≤ length calls
        → freed' ≡ freed
        → Invariant threads t s cap xs w n' calls' freed'
    relabel w n n' calls calls' freed freed' i g u e st l len f =
        let few = i.few in
        let in_flight = i.in_flight in
        record {
          phase = Phase-relabel i.phase (omega arith) e st l f;
          few = omega arith;
          in_flight = omega arith;
        }

    next-cloned :
        (old : ℕ) (w : World S) (n : ℕ) (rest : List Pending) (freed : ℕ)
        → Invariant threads t s cap xs w n (cloned old ∷ rest) freed
        → Ends (After w n rest freed) ⊥ (isize_max < old) (next t a s (cloned old) w)
    unfolding next
    next-cloned old w n rest freed i = elim (dec_lt isize_max old) [
      | yes many ↦ rw (lt→ltb _ _ many) (aborts many)
      | no few ↦
          let giving_one : giving (cloned old) ≡ 1 = ground arith in
          let aborting_none : aborting (cloned old) ≡ 0 = ground arith in
          rw (ge→ltb max_refcount old (omega arith)) (
            ends (
              relabel w n (n + 1) (cloned old ∷ rest) rest freed (freed + 0) i (omega arith)
                (omega arith) (omega arith) (omega arith) (omega arith) (omega arith)
                (omega arith)))
    ]

    next-subtracted :
        (old : ℕ) (w : World S) (n : ℕ) (rest : List Pending) (freed : ℕ)
        → Invariant threads t s cap xs w n (subtracted old ∷ rest) freed
        → Ends (After w n rest freed) ⊥ ⊥ (next t a s (subtracted old) w)
    unfolding next
    next-subtracted old w n rest freed i = elim (Bool-cases (old == 1)) [
      | inl one ↦
          let last : ending (subtracted old) ≡ 1 = ground (arith, one) in
          elim i.phase [
            | alive blk k h count pos none lone free ↦ absurd (omega arith)
            | gone none over free ↦ absurd (omega arith)
            | leaving blk k h none over store free ↦
                rw (one, load-Shares v a s cap xs w blk k h)
                  (ends (
                    relabel w n (n + 0) (subtracted old ∷ rest) (acquired ∷ rest) freed (freed + 0)
                      i (omega arith) (omega arith) (omega arith) (omega arith) (omega arith)
                      (omega arith) (omega arith)))
          ]
      | inr more ↦
          let others : ending (subtracted old) ≡ 0 = ground (arith, more) in
          rw more (
            ends (
              relabel w n (n + 0) (subtracted old ∷ rest) rest freed (freed + 0) i (omega arith)
                (omega arith) (omega arith) (omega arith) (omega arith) (omega arith)
                (omega arith)))
    ]

    next-acquired :
        (w : World S) (n : ℕ) (rest : List Pending) (freed : ℕ)
        → Invariant threads t s cap xs w n (acquired ∷ rest) freed
        → Ends (After w n rest freed) ⊥ ⊥ (next t a s acquired w)
    unfolding next
    next-acquired w n rest freed i =
        let few = i.few in
        let in_flight = i.in_flight in
        elim i.phase [
          | alive blk k h count pos none lone free ↦ absurd (omega arith)
          | gone none over free ↦ absurd (omega arith)
          | leaving blk k h none over store free ↦
              rw (fetch_update-Shares v a s cap xs (λ m. 1) w blk k h) (
                ends (record {
                  phase =
                      leaving (counting blk 1) 1 (recount-Shares v a w s cap blk xs k 1 h)
                        (omega arith) (omega arith) (inr refl) (omega arith);
                  few = omega arith;
                  in_flight = omega arith;
                }))
        ]

    next-stored :
        (w : World S) (n : ℕ) (rest : List Pending) (freed : ℕ)
        → Invariant threads t s cap xs w n (stored ∷ rest) freed
        → Ends (After w n rest freed) ⊥ ⊥ (next t a s stored w)
    next-stored w n rest freed i =
        let few = i.few in
        let in_flight = i.in_flight in
        elim i.phase [
          | alive blk k h count pos none lone free ↦ absurd (omega arith)
          | gone none over free ↦ absurd (omega arith)
          | leaving blk k h none over store free ↦
              let one : k ≡ 1 = omega arith in
              let alone_now = subst (λ (m : ℕ). Shares t w s cap blk xs m) one h in
              rw (last-dealloc v a s cap xs w blk k h) (
                Ends.chain
                  (Ends.weaken (law.gives_back _ cap blk w (last-Owns v a w s cap blk xs alone_now))
                    (λ r w' spares. tt) (λ x. x) (λ x. x))
                  λ r w' done_now. ends (record {
                    phase = gone (omega arith) (omega arith) (omega arith);
                    few = omega arith;
                    in_flight = omega arith;
                  }))
        ]

    next-alone :
        (w : World S) (n : ℕ) (rest : List Pending) (freed : ℕ)
        → Invariant threads t s cap xs w n (alone ∷ rest) freed
        → Ends (After w n rest freed) ⊥ ⊥ (next t a s alone w)
    next-alone w n rest freed i = elim i.phase [
      | leaving blk k h none over store free ↦ absurd (omega arith)
      | gone none over free ↦ absurd (omega arith)
      | alive blk k h count pos none lone free ↦
          let one : k ≡ 1 = omega arith in
          let alone_now = subst (λ (m : ℕ). Shares t w s cap blk xs m) one h in
          rw (reshared v a s cap xs w blk alone_now) (
            ends (
              relabel w n (n + 1) (alone ∷ rest) rest freed (freed + 0) i (omega arith)
                (omega arith) (omega arith) (omega arith) (omega arith) (omega arith)
                (omega arith)))
    ]

    next_front :
        (call : Pending) (w : World S) (n : ℕ) (rest : List Pending) (freed : ℕ)
        → Invariant threads t s cap xs w n (call ∷ rest) freed
        → Ends (After w n rest freed) ⊥ (aborting call ≡ 1) (next t a s call w)
    next_front (cloned old) w n rest freed i =
        Ends.weaken (next-cloned old w n rest freed i) (λ r w' h. h) (λ x. x)
          (λ many. ground (arith, many))
    next_front (subtracted old) w n rest freed i =
        Ends.weaken (next-subtracted old w n rest freed i) (λ r w' h. h) (λ x. x) absurd
    next_front acquired w n rest freed i =
        Ends.weaken (next-acquired w n rest freed i) (λ r w' h. h) (λ x. x) absurd
    next_front stored w n rest freed i =
        Ends.weaken (next-stored w n rest freed i) (λ r w' h. h) (λ x. x) absurd
    next_front alone w n rest freed i =
        Ends.weaken (next-alone w n rest freed i) (λ r w' h. h) (λ x. x) absurd

    pub next-Invariant :
        (front back : List Pending) (call : Pending) (w : World S) (n freed : ℕ)
        → Invariant threads t s cap xs w n (front ++ call ∷ back) freed
        → Ends
            (λ left w'.
              Invariant threads t s cap xs w'
                (n + left.handles)
                (front ++ (left.calls ++ back))
                (freed + left.freed))
            ⊥
            (aborting call ≡ 1)
            (next t a s call w)
    next-Invariant front back call w n freed i =
        Ends.weaken
          (next_front call w n (front ++ back) freed (Invariant-moved (call ∷ []) front back i))
          (λ left w' h. Invariant-moved front left.calls back h) (λ x. x) (λ x. x)
