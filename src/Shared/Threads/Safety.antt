-- ===== src/Shared/Threads/Safety.antt =====
-- What holds at every moment while threads share a buffer.
use rkyv_utils.Prelude.{
  ℕ, ◌+◌, ◌≤◌, ◌<◌, ◌≡◌, inl, inr, ◌∙◌, subst, List, [], ◌∷◌, ◌++◌, length, isize_max, usize_mod,
  arith,
}
use rkyv_utils.Memory.{Target, Block, World, done}
use rkyv_utils.Memory.Ends
use rkyv_utils.Memory.Ends.{Ends, given}
use rkyv_utils.BufferLayout.Fits.{IsTarget}
use rkyv_utils.Alloc.{BufferAllocator}
use rkyv_utils.Raw.Holds.{IsBufferAllocator}
use rkyv_utils.Shared.{Shared, as_slice}
use rkyv_utils.Shared.Handles.{Shares, Shares-moved, as_slice-Shares}
use rkyv_utils.Shared.Threads.{
  Pending, alone, Call, begin, next, Step, begun, went_on, elsewhere, Reach, here, later,
}
use rkyv_utils.Shared.Threads.Tally.{aborting}
use rkyv_utils.Shared.Threads.Phases.{
  Phase, alive, leaving, gone, Invariant, Invariant-moved, counted,
}
use rkyv_utils.Shared.Threads.Steps.{begin-Invariant}
use rkyv_utils.Shared.Threads.Returns.{next-Invariant}

module _ {S : Type 0} {t : Target} (v : IsTarget t) (a : BufferAllocator S) {X : Type 0}
    (law : IsBufferAllocator t a X) (s : Shared) (cap : ℕ) (xs : List ℕ) (threads : ℕ)
    (limit : isize_max + 1 + threads < usize_mod) where
  moved :
      {w w' : World S} {n freed : ℕ} {calls : List Pending}
      → w'.blocks s.buf.buf.base ≡ w.blocks s.buf.buf.base
      → Phase t s cap xs w n calls freed
      → Phase t s cap xs w' n calls freed
  moved same (alive blk k h count pos none lone free) =
      alive blk k (Shares-moved (same ∙ h.there) h) count pos none lone free
  moved same (leaving blk k h none one store free) =
      leaving blk k (Shares-moved (same ∙ h.there) h) none one store free
  moved same (gone none one free) = gone none one free

  after_gone :
      {w w' : World S} {n freed : ℕ} {calls : List Pending}
      → 0 < freed
      → Phase t s cap xs w n calls freed
      → Phase t s cap xs w' n calls freed
  after_gone given_back (alive blk k h count pos none lone free) = absurd (omega arith)
  after_gone given_back (leaving blk k h none one store free) = absurd (omega arith)
  after_gone given_back (gone none one free) = gone none one free

  stepped :
      (w w' : World S) (n n' : ℕ) (calls calls' : List Pending) (freed freed' : ℕ)
      → Step t a s threads w n calls freed w' n' calls' freed'
      → Invariant threads t s cap xs w n calls freed
      → Invariant threads t s cap xs w' n' calls' freed'
  stepped w w' n _ calls _ freed _ (begun call some few e) i =
      given (begin-Invariant v a s cap xs threads limit call w n calls freed i some few) e
  stepped w w' n _ calls _ freed _ (went_on front back call split e) i =
      given
        (next-Invariant v a s cap xs law threads front back call w n freed
          (subst (λ (cs : List Pending). Invariant threads t s cap xs w n cs freed) split i))
        e
  stepped w w' n _ calls _ freed _ (elsewhere (inl given_back)) i = record {
    phase = after_gone given_back i.phase;
    few = i.few;
    in_flight = i.in_flight;
  }
  stepped w w' n _ calls _ freed _ (elsewhere (inr same)) i = record {
    phase = moved same i.phase;
    few = i.few;
    in_flight = i.in_flight;
  }

  module _ (w0 : World S) (blk : Block) (h : Shares t w0 s cap blk xs 1) where
    reached :
        {w : World S} {n freed : ℕ} {calls : List Pending}
        → Reach t a s threads w0 w n calls freed
        → Invariant threads t s cap xs w n calls freed
    reached here = record {
      phase = alive blk 1 h (omega arith) (omega arith) (omega arith) (omega arith) (omega arith);
      few = omega arith;
      in_flight = omega arith;
    }
    reached (later {w} {w'} {n} {n'} {calls} {calls'} {freed} {freed'} r step) =
        stepped w w' n n' calls calls' freed freed' step (reached r)

    -- In any interleaving of the steps of clones, drops and try_unique on a shared buffer with an
    -- allocation, as long as there is a handle the buffer is not given back and reads its bytes,
    -- and each of the calls can begin, without undefined behaviour, panic or abort, if there is
    -- room for a call in flight.
    pub Reach-handle :
        {w : World S} {n freed : ℕ} {calls : List Pending}
        → Reach t a s threads w0 w n calls freed
        → 0 < n
        → length calls < threads
        → (call : Call)
        → (as_slice t a s w ≡ done xs w)
          × (freed ≡ 0)
          × Ends (λ left w'. Unit {0}) ⊥ ⊥ (begin t a s call w)
    Reach-handle {w} {n} {freed} {calls} r some few call =
        let i = reached r in
        let begins = begin-Invariant v a s cap xs threads limit call w n calls freed i some few in
        elim i.phase [
          | leaving blk' k h' none one store free ↦ absurd (omega arith)
          | gone none one free ↦ absurd (omega arith)
          | alive blk' k h' count pos none lone free ↦ (
            as_slice-Shares v a w s cap blk' xs k h',
            free,
            Ends.weaken begins (λ left w' after. tt) (λ x. x) (λ x. x),
          )
        ]

    once :
        {w : World S} {n freed : ℕ} {calls : List Pending}
        → Phase t s cap xs w n calls freed
        → freed ≤ 1
    once (alive blk' k h' count pos none lone free) = omega arith
    once (leaving blk' k h' none one store free) = omega arith
    once (gone none one free) = omega arith

    -- While threads clone, drop and try_unique handles of a shared buffer with an allocation, step
    -- by step in any interleaving and between work on other blocks, every further step of a call
    -- in flight is without undefined behaviour and panic, the buffer is given back at most once,
    -- and only a clone that counted more than isize::MAX handles aborts; for at most 2^63 - 1
    -- calls in flight at a time.
    pub Reach-next :
        {w : World S} {n freed : ℕ} (front back : List Pending) (call : Pending)
        → Reach t a s threads w0 w n (front ++ call ∷ back) freed
        → Ends (λ left w'. freed + left.freed ≤ 1) ⊥ (aborting call ≡ 1) (next t a s call w)
    Reach-next {w} {n} {freed} front back call r =
        Ends.weaken (next-Invariant v a s cap xs law threads front back call w n freed (reached r))
          (λ left w' i. once i.phase) (λ x. x) (λ x. x)

    -- In any interleaving of the steps of clones, drops and try_unique on a shared buffer with an
    -- allocation, from the moment that try_unique reads a count of one there is no other handle,
    -- and no call in flight that will give one, and the buffer still has its bytes; a thread that
    -- took the buffer shares it again, unchanged.
    pub Reach-alone :
        {w : World S} {n freed : ℕ} (front back : List Pending)
        → Reach t a s threads w0 w n (front ++ alone ∷ back) freed
        → (n ≡ 0) × (counted 0 (front ++ back) ≡ 0) × (as_slice t a s w ≡ done xs w)
    Reach-alone {w} {n} {freed} front back r =
        let i = Invariant-moved (alone ∷ []) front back (reached r) in
        elim i.phase [
          | leaving blk' k h' none one store free ↦ absurd (omega arith)
          | gone none one free ↦ absurd (omega arith)
          | alive blk' k h' count pos none lone free ↦
              (omega arith, omega arith, as_slice-Shares v a w s cap blk' xs k h')
        ]

    -- When threads have dropped every handle of a shared buffer with an allocation, in any
    -- interleaving of the steps of clones, drops and try_unique with at most 2^63 - 1 calls in
    -- flight, and every call has returned, the buffer was given back to its allocator exactly
    -- once.
    pub Reach-returned : {w : World S} {freed : ℕ} → Reach t a s threads w0 w 0 [] freed → freed ≡ 1
    Reach-returned r = elim (reached r).phase [
      | leaving blk' k h' none one store free ↦ absurd (omega arith)
      | gone none one free ↦ free
      | alive blk' k h' count pos none lone free ↦ absurd (omega arith)
    ]
