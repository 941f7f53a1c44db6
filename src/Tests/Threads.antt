-- ===== src/Tests/Threads.antt =====
-- Threads at concrete moments: the one handle on the stored buffer is cloned, taken back, or dropped.
use rkyv_utils.Prelude.{ℕ, ◌+◌, ◌%◌, ◌≤◌, wrapping_sub, usize_mod, ◌≡◌, refl, [], ◌∷◌, arith}
use rkyv_utils.Memory.{Block, World, done}
use rkyv_utils.Memory.Ends
use rkyv_utils.Memory.Ends.{Ends}
use rkyv_utils.Raw
use rkyv_utils.Shared.{as_slice, is_unique}
use rkyv_utils.Shared.Handles.{Shares}
use rkyv_utils.Shared.Counting.{counting, recount, recount-Shares, last-Owns}
use rkyv_utils.Shared.Sharing.{ref_count-Shares}
use rkyv_utils.Shared.Threads
use rkyv_utils.Shared.Threads.{
  Pending, cloned, subtracted, acquired, stored, alone, Left, begin, next, Reach, here, later,
  begun, went_on,
}
use rkyv_utils.Shared.Threads.Tally.{aborting}
use rkyv_utils.Shared.Threads.Phases.{counted}
use rkyv_utils.Shared.Threads.Steps.{fetch_update-Shares}
use rkyv_utils.Shared.Threads.Values.{load-Shares, last-dealloc}
use rkyv_utils.Shared.Threads.Safety.{Reach-handle, Reach-next, Reach-alone, Reach-returned}
use rkyv_utils.Tests.{blk, memory, two_bytes, handle, one_handle, shared_memory}
use rkyv_utils.Tests.Slot.{target, target-IsTarget, slots, slots-IsBufferAllocator}

-- A clone has counted, and not yet returned.
clone_began :
    begin target slots handle Threads.clone memory
    ≡ done (record { handles = 1; calls = cloned 1 ∷ []; freed = 0 }) shared_memory
unfolding begin
clone_began =
    rw
      (fetch_update-Shares target-IsTarget slots handle 8 two_bytes (λ n. (n + 1) % usize_mod)
        memory blk 1 one_handle)
      refl

cloning : Reach target slots handle 4 memory shared_memory 1 (cloned 1 ∷ []) 0
cloning = later here (begun Threads.clone (omega arith) (omega arith) clone_began)

Reach-handle_example :
    (as_slice target slots handle shared_memory ≡ done two_bytes shared_memory)
    × (◌≡◌ {A = ℕ} 0 0)
    × Ends (λ left w'. Unit {0}) ⊥ ⊥ (begin target slots handle Threads.drop shared_memory)
Reach-handle_example =
    Reach-handle target-IsTarget slots slots-IsBufferAllocator handle 8 two_bytes 4 (omega arith)
      memory blk one_handle cloning (omega arith) (omega arith) Threads.drop

Reach-next_example :
    Ends
      (λ left w'. 0 + left.freed ≤ 1)
      ⊥
      (aborting (cloned 1) ≡ 1)
      (next target slots handle (cloned 1) shared_memory)
Reach-next_example =
    Reach-next target-IsTarget slots slots-IsBufferAllocator handle 8 two_bytes 4 (omega arith)
      memory blk one_handle [] [] (cloned 1) cloning

-- `try_unique` has found the handle to be the only one.
try_begins :
    begin target slots handle Threads.try_unique memory
    ≡ done (record { handles = 0; calls = alone ∷ []; freed = 0 }) memory
unfolding begin is_unique Raw.is_unique
try_begins =
    rw (ref_count-Shares target-IsTarget slots memory handle 8 blk two_bytes 1 one_handle) refl

found_alone : Reach target slots handle 4 memory memory 0 (alone ∷ []) 0
found_alone = later here (begun Threads.try_unique (omega arith) (omega arith) try_begins)

Reach-alone_example :
    (◌≡◌ {A = ℕ} 0 0)
    × (counted 0 [] ≡ 0)
    × (as_slice target slots handle memory ≡ done two_bytes memory)
Reach-alone_example =
    Reach-alone target-IsTarget slots slots-IsBufferAllocator handle 8 two_bytes 4 (omega arith)
      memory blk one_handle [] [] found_alone

-- The drop of the one handle, step by step.
abbrev blk0 : Block
blk0 = counting blk 0

abbrev memory0 : World (Unit {0})
memory0 = recount memory handle blk 0

no_handle : Shares target memory0 handle 8 blk0 two_bytes 0
no_handle = recount-Shares target-IsTarget slots memory handle 8 blk two_bytes 1 0 one_handle

abbrev memory1 : World (Unit {0})
memory1 = recount memory0 handle blk0 1

last_handle : Shares target memory1 handle 8 (counting blk0 1) two_bytes 1
last_handle = recount-Shares target-IsTarget slots memory0 handle 8 blk0 two_bytes 0 1 no_handle

drop_begins :
    begin target slots handle Threads.drop memory
    ≡ done (record { handles = 0; calls = subtracted 1 ∷ []; freed = 0 }) memory0
unfolding begin
drop_begins =
    rw
      (fetch_update-Shares target-IsTarget slots handle 8 two_bytes (λ n. wrapping_sub n 1) memory
        blk 1 one_handle)
      refl

acquires :
    next target slots handle (subtracted 1) memory0
    ≡ done (record { handles = 0; calls = acquired ∷ []; freed = 0 }) memory0
unfolding next
acquires = rw (load-Shares target-IsTarget slots handle 8 two_bytes memory0 blk0 0 no_handle) refl

stores :
    next target slots handle acquired memory0
    ≡ done (record { handles = 0; calls = stored ∷ []; freed = 0 }) memory1
unfolding next
stores =
    rw
      (fetch_update-Shares target-IsTarget slots handle 8 two_bytes (λ n. 1) memory0 blk0 0
        no_handle)
      refl

given_back :
    (w' : World (Unit {0})) × (next target slots handle stored memory1
      ≡ done (record { handles = 0; calls = []; freed = 1 }) w')
given_back =
    let (u, w', e, spares) =
      Ends.result_of
        (slots-IsBufferAllocator.gives_back _ 8 (counting blk0 1) memory1 (
          last-Owns target-IsTarget slots memory1 handle 8 (counting blk0 1) two_bytes last_handle))
        (λ x. x) (λ x. x) in
    (
      w',
      rw
          (
            last-dealloc target-IsTarget slots handle 8 two_bytes memory1 (counting blk0 1) 1
                last_handle,
            e,
          )
          refl,
    )

all_dropped : Reach target slots handle 4 memory given_back.0 0 [] 1
all_dropped =
    later
      (later
        (later (later here (begun Threads.drop (omega arith) (omega arith) drop_begins))
          (went_on [] [] (subtracted 1) refl acquires))
        (went_on [] [] acquired refl stores))
      (went_on [] [] stored refl given_back.1)

Reach-returned_example : ◌≡◌ {A = ℕ} 1 1
Reach-returned_example =
    Reach-returned target-IsTarget slots slots-IsBufferAllocator handle 8 two_bytes 4 (omega arith)
      memory blk one_handle all_dropped
