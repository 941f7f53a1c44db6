-- ===== src/Tests/Words.antt =====
-- Words, layouts and the map of shared objects at concrete inputs.
use rkyv_utils.Prelude.{◌+◌, ◌-◌, ◌%◌, ◌^◌, ◌<◌, ◌≡◌, refl, none, some, ok, err, arith, usize_max}
use rkyv_utils.Layout.{Layout, IsLayout, extend, std_extend, padding_needed_for}
use rkyv_utils.Layout.Padding.{padding_needed_for_least}
use rkyv_utils.Layout.Extend.{extend-std_extend}
use rkyv_utils.Serializer.{
  insert, start_sharing, finish_sharing, started, pending, finished, already_finished,
}
use rkyv_utils.Serializer.Sharing.{start_sharing-finish_sharing}
use rkyv_utils.Tests.Slot.{target, target-IsTarget}

abbrev pub word_layout : Layout
word_layout = record { size = 13; align = 8 }

pub word_layout-IsLayout : IsLayout word_layout
word_layout-IsLayout = record {
  exponent = 3;
  power = refl;
  small = omega arith;
  fits = omega arith;
}

extend-std_extend_example : extend word_layout target.header ≡ std_extend word_layout target.header
extend-std_extend_example =
    extend-std_extend word_layout target.header word_layout-IsLayout target-IsTarget.header

padding_needed_for_least_example :
    ((13 + padding_needed_for word_layout (2 ^ 3)) % 2 ^ 3 ≡ 0)
    × (padding_needed_for word_layout (2 ^ 3) < 2 ^ 3)
padding_needed_for_least_example =
    padding_needed_for_least word_layout 3 (omega arith) (omega arith)

start_sharing-finish_sharing_example :
    (start_sharing (λ _. none) 4096 ≡ (insert (λ _. none) 4096 none, started))
    × (start_sharing (insert (λ _. none) 4096 none) 4096 ≡ (insert (λ _. none) 4096 none, pending))
    × (finish_sharing (insert (λ _. none) 4096 none) 4096 16
        ≡ some (insert (insert (λ _. none) 4096 none) 4096 (some (usize_max - 16)), ok tt))
    × (start_sharing (insert (insert (λ _. none) 4096 none) 4096 (some (usize_max - 16))) 4096
        ≡ (insert (insert (λ _. none) 4096 none) 4096 (some (usize_max - 16)), finished 16))
    × (finish_sharing (insert (insert (λ _. none) 4096 none) 4096 (some (usize_max - 16))) 4096 32
        ≡ some (
          insert (insert (λ _. none) 4096 none) 4096 (some (usize_max - 16)),
          err already_finished,
        ))
    × (insert (insert (λ _. none) 4096 none) 4096 (some (usize_max - 16)) 8192 ≡ none)
start_sharing-finish_sharing_example =
    start_sharing-finish_sharing (λ _. none) 4096 16 32 8192 refl (omega arith) (omega arith)
