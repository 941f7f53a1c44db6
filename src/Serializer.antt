-- ===== src/Serializer.antt =====
-- crates/aligned-buffer-pool/src/serializer_pool.rs: the serializer's scratch allocator, and the
-- map by which it serializes a shared object once.
pub mod Sharing
pub mod Scratch
pub mod Push
pub mod Aligned
pub mod RoundTrip
use rkyv_utils.Prelude.{
  ℕ, ◌+◌, ◌-◌, ◌%◌, Bool, true, ◌&&◌, Option, none, some, Result, ok, err, List, [], ◌∷◌, ltb, leb,
  ◌==◌, if◌then◌else◌, replicate, wrapping_sub, bit_xor, usize_max,
}
use rkyv_utils.Layout.{Layout}
use rkyv_utils.Memory.{
  Target, Ptr, ptr_add, address, Cmd, pure, panic, done, undefined, ◌>>=◌, ◌>>◌, debug_assert,
  add_usize, read_bytes, write_bytes,
}
use rkyv_utils.Alloc.{BufferAllocator, Slice}
use rkyv_utils.Unique
use rkyv_utils.Unique.{Unique, as_ptr, as_slice}

pub data BufferAllocError : Type 0 where
  not_popped_in_reverse_order : (pos popped_pos popped_size : ℕ) → BufferAllocError
  does_not_contain_allocation : BufferAllocError

abbrev all_zero : List ℕ → Bool
all_zero [] = true
all_zero (x ∷ xs) = (x == 0) && all_zero xs

-- `p.offset_from(q)`, which is defined for pointers into one allocation.
offset_from : {S : Type 0} → Ptr → Ptr → Cmd S ℕ
offset_from p q w =
    if (p.base == q.base) && leb q.offset p.offset then done (p.offset - q.offset) w else undefined

module _ {S : Type 0} (t : Target) (a : BufferAllocator S) where
  -- The second half of `push_alloc`: the bytes are cleared, and the slice is handed out.
  handed_out : Unique → (alloc_pad alloc_len : ℕ) → Layout → Cmd S (Unique × Slice)
  handed_out scratch alloc_pad alloc_len l = do
    write_bytes t (ptr_add (as_ptr scratch) scratch.len) (replicate alloc_len 0)
    let old_len = scratch.len
    start ← add_usize t old_len alloc_pad
    new_len ← add_usize t scratch.len alloc_len
    scratch' ← Unique.set_len t a scratch new_len
    let result_start = ptr_add (as_ptr scratch') start
    result_slice ← read_bytes t result_start l.size
    debug_assert t (all_zero result_slice)
    pure (scratch', record { start = result_start; len = l.size })

  -- The padding is computed from the pointer that the scratch has before it reserves.
  unfoldable pub push_alloc : Unique → Layout → Cmd S (Unique × Slice)
  unfolding handed_out
  push_alloc scratch l = do
    alloc_offset ← add_usize t (address (as_ptr scratch)) scratch.len
    let alloc_pad = wrapping_sub 0 alloc_offset % l.align
    alloc_len ← add_usize t alloc_pad l.size
    scratch' ← Unique.reserve t a scratch alloc_len
    handed_out scratch' alloc_pad alloc_len l

  -- `contains` compares addresses, and `offset_from` is defined for a pointer into the same block.
  unfoldable pub pop_alloc :
      Unique → Ptr → Layout → Cmd S (Unique × Result (Unit {0}) BufferAllocError)
  unfolding offset_from
  pop_alloc scratch p l = do
    let start = address (as_ptr scratch)
    if leb start (address p) && ltb (address p) (start + scratch.len)
        then (do
          popped_pos ← offset_from p (as_ptr scratch)
          end ← add_usize t popped_pos l.size
          if leb end scratch.len
              then (do scratch' ← Unique.set_len t a scratch popped_pos; pure (scratch', ok tt))
              else pure (scratch, err (not_popped_in_reverse_order scratch.len popped_pos l.size)))
        else pure (scratch, err does_not_contain_allocation)

-- rkyv's `SharingState`
pub data SharingState : Type 0 where
  started pending : SharingState
  finished : ℕ → SharingState

pub data SharingError : Type 0 where
  not_started already_finished : SharingError

-- The map of shared objects: for an address that was started, the complement of its position, once
-- it is finished. Its values are `Option<NonZeroUsize>`.
abbrev pub Unify : Type 0
Unify = ℕ → Option (Option ℕ)

abbrev pub insert : Unify → ℕ → Option ℕ → Unify
insert m address v k = if k == address then some v else m k

unfoldable pub start_sharing : Unify → (address : ℕ) → Unify × SharingState
start_sharing map address = elim (map address) [
  | none ↦ (insert map address none, started)
  | some none ↦ (map, pending)
  | some (some pos) ↦ (map, finished (bit_xor pos usize_max))
]

-- `NonZeroUsize::new`
abbrev non_zero : ℕ → Option ℕ
non_zero n = if n == 0 then none else some n

-- `none` is the panic of `unwrap`.
unfoldable pub finish_sharing :
    Unify → (address pos : ℕ) → Option (Unify × Result (Unit {0}) SharingError)
finish_sharing map address pos = elim (map address) [
  | none ↦ some (map, err not_started)
  | some (some _) ↦ some (map, err already_finished)
  | some none ↦ elim (non_zero (bit_xor pos usize_max)) [
    | none ↦ none
    | some inner ↦ some (insert map address (some inner), ok tt)
  ]
]
