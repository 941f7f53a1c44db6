-- ===== src/Tests/Lives.antt =====
-- The life of a shared buffer at a concrete run.
use rkyv_utils.Prelude.{◌≡◌, ok, arith}
use rkyv_utils.Memory.{World, done}
use rkyv_utils.Shared.{as_slice, try_unique, ref_count}
use rkyv_utils.Shared.Counting.{counting, recount, clone-few, drop-more}
use rkyv_utils.Shared.Lifetime.{cloned, dropped, Reach, here, later, Reach-Shares}
use rkyv_utils.Tests.{
  blk, memory, stored, two_bytes, handle, one_handle, shared_memory, two_handles,
}
use rkyv_utils.Tests.Slot.{target, target-IsTarget, slots}

-- A handle is cloned, and one of the two is dropped.
abbrev one_left : World (Unit {0})
one_left = recount shared_memory handle (counting blk 2) 1

two_steps : Reach target slots handle memory one_left 1
two_steps =
    later
      (later here (
        cloned (
          clone-few target-IsTarget slots memory handle 8 blk two_bytes 1 one_handle
            (omega arith))))
      (dropped (omega arith) (
        drop-more target-IsTarget slots shared_memory handle 8 (counting blk 2) two_bytes 2
          two_handles (omega arith) (omega arith)))

Reach-Shares_example :
    (as_slice target slots handle one_left ≡ done two_bytes one_left)
    × (ref_count target slots handle one_left ≡ done 1 one_left)
    × (try_unique target slots handle one_left ≡ done (ok stored) one_left)
Reach-Shares_example =
    Reach-Shares target slots handle target-IsTarget memory 8 blk two_bytes one_handle two_steps
