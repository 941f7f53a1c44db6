-- ===== src/Tests.antt =====
-- Each property at a concrete input: a buffer of two bytes with room for eight, alone in memory.
pub mod Slot
pub mod Words
pub mod Queues
pub mod Pools
pub mod Archives
pub mod Lives
pub mod Serializers
pub mod Validators
pub mod Threads
pub mod Scripts
pub mod Rented
use rkyv_utils.Prelude.{
  ℕ, ◌+◌, ◌-◌, ◌*◌, ◌%◌, ◌^◌, ◌<◌, ◌≤◌, ◌≡◌, ◌≢◌, ◌⊎◌, refl, sym, true, false, none, some, ok, err,
  List, [], ◌∷◌, ◌++◌, replicate, length, arith, usize_mod, usize_max, isize_max, max, min,
}
use rkyv_utils.TaggedCap
use rkyv_utils.TaggedCap.{TaggedCap, value, is_allocated, max_value}
use rkyv_utils.TaggedCap.Fields.{tagged, new_lem, is_allocated-tagged}
use rkyv_utils.Layout.{Layout, IsLayout, extend, std_extend, padding_needed_for}
use rkyv_utils.Layout.Padding.{padding_needed_for_least}
use rkyv_utils.Layout.Extend.{extend-std_extend}
use rkyv_utils.Memory.{Block, World, ptr, put, load_list, done, panic, abort, address, ◌>>=◌}
use rkyv_utils.Memory.Ends.{Ends}
use rkyv_utils.BufferLayout.{buffer_offset, layout, capacity_overflow}
use rkyv_utils.BufferLayout.Fits.{Fits, dec_Fits, full_layout, layout_lem}
use rkyv_utils.Alloc.{default_deallocate_buffer}
use rkyv_utils.Raw
use rkyv_utils.Raw.{Raw}
use rkyv_utils.Raw.Holds.{Owns, Holds, allocated, Grows, Reserved, Spares, Frame}
use rkyv_utils.Raw.Reserve.{amortized, try_reserve-Grows}
use rkyv_utils.Raw.Capacity.{
  reserve-Reserved, try_reserve_exact-Grows, reserve_exact-Reserved, with_capacity_in-Reserved,
}
use rkyv_utils.Raw.Shrink.{shrink_to_fit-Reserved}
use rkyv_utils.Raw.Release.{default_deallocate_buffer-Owns, drop-Holds}
use rkyv_utils.Raw.Aligned.{Owns-aligned}
use rkyv_utils.Unique
use rkyv_utils.Unique.{Unique}
use rkyv_utils.Unique.Contents.{Contains, as_slice-Contains}
use rkyv_utils.Unique.Build.{shrink_to-Becomes}
use rkyv_utils.Unique.Append.{Becomes, doubled, reserve-Becomes, append-Becomes, push-Becomes}
use rkyv_utils.Unique.Extend.{extend_with-Becomes}
use rkyv_utils.Unique.Resize.{truncate-Contains, resize-Becomes, extend-Becomes}
use rkyv_utils.Prelude.{take}
use rkyv_utils.Shared
use rkyv_utils.Shared.{Shared, into_shared, try_unique, clone}
use rkyv_utils.Shared.Handles.{Shares, as_slice-Shares}
use rkyv_utils.Shared.Sharing.{
  shared, into_shared-Shares, try_unique-into_shared, try_unique-Shares, as_slice-into_shared,
}
use rkyv_utils.Shared.Counting.{
  counting, recount, recount-Shares, clone-Shares, drop-Shares, drop_last-Shares,
}
use rkyv_utils.Shared.Empty.{try_unique_empty}
use rkyv_utils.Serializer.{
  insert, start_sharing, finish_sharing, started, pending, finished, already_finished,
}
use rkyv_utils.Serializer.{pop_alloc, not_popped_in_reverse_order}
use rkyv_utils.Serializer.Scratch.{pop_alloc-Contains}
use rkyv_utils.Memory.{ptr_add}
use rkyv_utils.Prelude.{leb, if◌then◌else◌}
use rkyv_utils.Serializer.Sharing.{start_sharing-finish_sharing}
use Slot.{
  target, target-IsTarget, buffer_offset_lem, slot, slots, slot-IsAllocator,
  slots-IsBufferAllocator,
}

abbrev blk : Block
blk = record {
  length = 264;
  align = 128;
  header = record { ref_count = 1; alloc_buffer_size = 8 };
  bytes = λ _. 5;
}

abbrev memory : World (Unit {0})
memory = record { blocks = put (λ _. none) 128 (some blk); state = tt }

abbrev two_bytes : List ℕ
two_bytes = 5 ∷ 5 ∷ []

abbrev stored : Unique
stored = record { buf = record { buf = ptr 128 256; cap_or_len = tagged true 8 }; len = 2 }

stored-Fits : Fits target 8
stored-Fits = omega (arith, buffer_offset_lem)

stored-Owns : Owns target memory stored.buf 8 blk
stored-Owns = record {
  allocated = refl;
  offset = sym buffer_offset_lem;
  aligned = refl;
  there = refl;
  size = omega (arith, buffer_offset_lem);
  align = refl;
  recorded = refl;
  single = refl;
  positive = omega arith;
  fits = stored-Fits;
}

stored-bytes : load_list blk.bytes (buffer_offset target) 2 ≡ two_bytes
unfolding load_list
stored-bytes = refl

stored-Holds : Holds target memory stored.buf 8 two_bytes
stored-Holds = allocated blk stored-Owns (omega arith) stored-bytes

stored-Contains : Contains target memory stored two_bytes
stored-Contains = record { cap = 8; holds = stored-Holds; len = refl }

stored-allocated : is_allocated stored.buf.cap_or_len ≡ true
stored-allocated = is_allocated-tagged true 8 (omega arith)

abbrev handle : Shared
handle = shared target-IsTarget slots stored two_bytes

one_handle : Shares target memory handle 8 blk two_bytes 1
one_handle =
    into_shared-Shares target-IsTarget slots memory stored 8 blk two_bytes stored-Owns (omega arith)
      stored-bytes

abbrev shared_memory : World (Unit {0})
shared_memory = recount memory handle blk 2

two_handles : Shares target shared_memory handle 8 (counting blk 2) two_bytes 2
two_handles = recount-Shares target-IsTarget slots memory handle 8 blk two_bytes 1 2 one_handle

push-Becomes_example :
    Ends
      (Becomes target memory stored (two_bytes ++ 7 ∷ []))
      (¬ Fits target (doubled 3))
      (Unit {0})
      (Unique.push target slots stored 7 memory)
push-Becomes_example =
    push-Becomes target-IsTarget slots slot-IsAllocator memory stored two_bytes 7 stored-Contains

append-Becomes_example :
    Ends
      (Becomes target memory stored (two_bytes ++ 1 ∷ 2 ∷ 3 ∷ []))
      (¬ Fits target (doubled 5))
      (Unit {0})
      (Unique.append target slots stored (1 ∷ 2 ∷ 3 ∷ []) memory)
append-Becomes_example =
    append-Becomes target-IsTarget slots slot-IsAllocator memory stored two_bytes (1 ∷ 2 ∷ 3 ∷ [])
      stored-Contains

extend_with-Becomes_example :
    Ends
      (Becomes target memory stored (two_bytes ++ replicate 20 9))
      (¬ Fits target (doubled 22))
      (Unit {0})
      (Unique.extend_with target slots stored 20 9 memory)
extend_with-Becomes_example =
    extend_with-Becomes target-IsTarget slots slot-IsAllocator memory stored two_bytes 20 9
      stored-Contains

try_unique-into_shared_example :
    (into_shared target slots stored >>= try_unique target slots) memory ≡ done (ok stored) memory
try_unique-into_shared_example =
    try_unique-into_shared target-IsTarget slots memory stored two_bytes stored-Contains
      stored-allocated

clone-Shares_example :
    ((1 ≤ isize_max)
      × Ends
          (λ s' w'.
            (s' ≡ handle)
            × Shares target w' handle 8 (counting blk 2) two_bytes 2
            × Frame memory handle.buf w' handle.buf)
          ⊥
          ⊥
          (clone target slots handle memory))
    ⊎ ((isize_max < 1) × (clone target slots handle memory ≡ abort))
clone-Shares_example = clone-Shares target-IsTarget slots memory handle 8 blk two_bytes 1 one_handle

drop_last-Shares_example :
    (Shared.drop target slots handle memory
      ≡ slots.deallocate_buffer (record { buf = handle.buf.buf; cap = tagged true 8 }) memory)
    × Owns target memory (record { buf = handle.buf.buf; cap_or_len = tagged true 8 }) 8 blk
    × Ends (λ _ w'. Spares memory handle.buf w') ⊥ ⊥ (Shared.drop target slots handle memory)
drop_last-Shares_example =
    drop_last-Shares target-IsTarget slots slots-IsBufferAllocator memory handle 8 blk two_bytes
      one_handle

new_lem_example :
    ((8 ≤ max_value)
      × (c : TaggedCap) × (TaggedCap.new true 8 true ≡ some c)
      × (c.word ≡ 2 ^ 63 + 8)
      × (c.word < 2 ^ 64)
      × (value c ≡ 8)
      × (is_allocated c ≡ true))
    ⊎ ((max_value < 8)
        × (TaggedCap.new true 8 true ≡ none)
        × (TaggedCap.new false 8 true ≡ some (tagged true (8 % 2 ^ 63)))
        × (is_allocated (tagged true (8 % 2 ^ 63)) ≡ true))
new_lem_example = new_lem true true 8

try_unique_empty_example :
    (Shared.ref_count target slots Shared.new_in memory ≡ panic)
    × (Shared.is_unique target slots Shared.new_in memory ≡ panic)
    × (try_unique target slots Shared.new_in memory ≡ panic)
try_unique_empty_example = try_unique_empty target slots refl memory

shrink_to-Becomes_example :
    Ends
      (λ u' w'.
        Becomes target memory stored two_bytes u' w'
        × (min 3 (Unique.capacity stored) ≤ Unique.capacity u'))
      ⊥
      (Unit {0})
      (Unique.shrink_to target slots stored 3 memory)
shrink_to-Becomes_example =
    shrink_to-Becomes target-IsTarget slots slots-IsBufferAllocator memory stored two_bytes 3
      stored-Contains

Owns-aligned_example : address stored.buf.buf % 64 ≡ 0
Owns-aligned_example = Owns-aligned target-IsTarget memory stored.buf 8 blk stored-Owns

pop_alloc-Contains_example :
    pop_alloc target slots stored
      (ptr_add (Unique.as_ptr stored) 1)
      (record { size = 1; align = 1 })
      memory
    ≡ (if leb (1 + 1) 2
        then done (Unique.truncate stored 1, ok tt) memory
        else done (stored, err (not_popped_in_reverse_order 2 1 1)) memory)
pop_alloc-Contains_example =
    pop_alloc-Contains target-IsTarget slots memory stored two_bytes 1
      (record { size = 1; align = 1 }) stored-Contains (omega arith) (omega arith)
