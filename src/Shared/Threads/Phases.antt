-- ===== src/Shared/Threads/Phases.antt =====
-- The invariant of a buffer that threads share: it is alive, on its way out, or gone.
use rkyv_utils.Prelude.{
  ℕ, ◌+◌, ◌≤◌, ◌<◌, ◌≡◌, ◌⊎◌, refl, length-append, List, ◌++◌, length, isize_max, arith,
}
use rkyv_utils.Memory.{Target, Block, World}
use rkyv_utils.Shared.{Shared}
use rkyv_utils.Shared.Handles.{Shares}
use rkyv_utils.Shared.Threads.{Pending}
use rkyv_utils.Shared.Threads.Tally.{tally, giving, aborting, ending, storing, lonely, tally-moved}

-- Handles that are there or on their way.
abbrev pub counted : ℕ → List Pending → ℕ
counted handles calls = handles + tally giving calls + tally aborting calls

-- Alive: the count is the number of handles, those on their way included; it is 1 while a call has
-- the buffer for itself. On its way out: there is
-- no handle, and one call gives the buffer back. Gone: it was given back once.
pub data Phase {S : Type 0} (t : Target) (s : Shared) (cap : ℕ) (xs : List ℕ) (w : World S)
    (handles : ℕ) (calls : List Pending) (freed : ℕ) : Type 0 where
  alive :
      (blk : Block) (n : ℕ)
      → Shares t w s cap blk xs n
      → n ≡ counted handles calls
      → 0 < n
      → tally ending calls ≡ 0
      → (tally lonely calls ≡ 0) ⊎ (n ≡ 1)
      → freed ≡ 0
      → Phase t s cap xs w handles calls freed
  leaving :
      (blk : Block) (n : ℕ)
      → Shares t w s cap blk xs n
      → counted handles calls ≡ 0
      → tally ending calls ≡ 1
      → (tally storing calls ≡ 0) ⊎ (n ≡ 1)
      → freed ≡ 0
      → Phase t s cap xs w handles calls freed
  gone :
      counted handles calls ≡ 0
      → tally ending calls ≡ 0
      → freed ≡ 1
      → Phase t s cap xs w handles calls freed

-- The handles that are there were counted up to isize::MAX.
pub record Invariant {S : Type 0} (threads : ℕ) (t : Target) (s : Shared) (cap : ℕ) (xs : List ℕ)
    (w : World S) (handles : ℕ) (calls : List Pending) (freed : ℕ) : Type 0 where
  pub phase : Phase t s cap xs w handles calls freed
  pub few : handles + tally giving calls ≤ isize_max + 1
  pub in_flight : length calls ≤ threads

-- Only the sums matter.
pub Phase-relabel :
    {S : Type 0} {t : Target} {s : Shared} {cap : ℕ} {xs : List ℕ} {w : World S} {n n' : ℕ}
    {calls calls' : List Pending} {freed freed' : ℕ}
    → Phase t s cap xs w n calls freed
    → counted n' calls' ≡ counted n calls
    → tally ending calls' ≡ tally ending calls
    → tally storing calls' ≤ tally storing calls
    → tally lonely calls' ≤ tally lonely calls
    → freed' ≡ freed
    → Phase t s cap xs w n' calls' freed'
Phase-relabel (alive blk k h count pos none lone free) c e st l f =
    alive blk k h (omega arith) pos (omega arith) (omega arith) (omega arith)
Phase-relabel (leaving blk k h none one store free) c e st l f =
    leaving blk k h (omega arith) (omega arith) (omega arith) (omega arith)
Phase-relabel (gone none one free) c e st l f = gone (omega arith) (omega arith) (omega arith)

pub Invariant-moved :
    {S : Type 0} {threads : ℕ} {t : Target} {s : Shared} {cap : ℕ} {xs : List ℕ} {w : World S}
    {n : ℕ} {freed : ℕ} (front middle back : List Pending)
    → Invariant threads t s cap xs w n (middle ++ (front ++ back)) freed
    → Invariant threads t s cap xs w n (front ++ (middle ++ back)) freed
Invariant-moved front middle back i =
    let g = tally-moved giving front middle back in
    let u = tally-moved aborting front middle back in
    let few = i.few in
    let in_flight = i.in_flight in
    record {
      phase =
          Phase-relabel i.phase (omega arith) (tally-moved ending front middle back)
            (omega (arith, tally-moved storing front middle back))
            (omega (arith, tally-moved lonely front middle back)) refl;
      few = omega arith;
      in_flight = omega (
        arith,
        length-append front (middle ++ back),
        length-append middle (front ++ back),
        length-append middle back,
        length-append front back,
      );
    }
