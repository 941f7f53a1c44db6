-- ===== src/Raw.antt =====
-- crates/aligned-buffer/src/raw.rs: `RawAlignedBuffer`, its growth, sharing and release. A method
-- on `&mut self` returns the new buffer with its result.
pub mod Holds
pub mod Alloc
pub mod Shrink
pub mod Capacity
pub mod Reserve
pub mod Realloc
pub mod Release
pub mod Aligned
pub mod Parts
use rkyv_utils.Prelude.{
  ℕ, ◌+◌, ◌%◌, Bool, true, not, Option, none, some, Result, ok, err, max, isize_max, wrapping_sub,
  checked_add, ltb, leb, ◌==◌, if◌then◌else◌, usize_mod,
}
use Prim.Native.Nat.{compare, Ordering}
use rkyv_utils.TaggedCap
use rkyv_utils.TaggedCap.{TaggedCap, zero_cap, value, is_allocated, with_value}
use rkyv_utils.Layout.{Layout}
use rkyv_utils.Memory.{
  Target, Header, Ptr, ptr, ptr_add, dangling, World, Cmd, panic, abort, pure, ◌>>=◌, ◌>>◌, assert,
  debug_assert, or_panic, sub_usize, mul_usize, ptr_sub, load_header, store_header,
}
use rkyv_utils.BufferLayout.{
  RawBufferError, capacity_overflow, alloc_error, buffer_offset, layout, alloc_guard,
}
use rkyv_utils.Alloc.{Slice, Allocator, RawBuffer, BufferAllocator}

-- `cap_or_len` is the capacity of a unique buffer and the length of a shared one.
pub record Raw : Type 0 where
  pub buf : Ptr
  pub cap_or_len : TaggedCap

abbrev pub Outcome : Type 0
Outcome = Result (Unit {0}) RawBufferError

abbrev pub min_non_zero_cap : ℕ
min_non_zero_cap = 8

abbrev pub max_refcount : ℕ
max_refcount = isize_max

unfoldable pub new_in : Raw
new_in = record { buf = dangling; cap_or_len = zero_cap }

module _ {S : Type 0} where
  -- The panic of `capacity_overflow`, and the abort of `handle_alloc_error`.
  unfoldable pub handle_reserve : Raw × Outcome → Cmd S Raw
  handle_reserve (b, ok _) = pure b
  handle_reserve (b, err capacity_overflow) = λ w. panic
  handle_reserve (b, err (alloc_error l)) = λ w. abort

  -- The early return of `?`.
  abbrev pub or_return :
      {A : Type 0}
      → Raw
      → Result A RawBufferError
      → (A → Cmd S (Raw × Outcome))
      → Cmd S (Raw × Outcome)
  or_return b (ok a) k = k a
  or_return b (err e) k = pure (b, err e)

module _ {S : Type 0} (t : Target) (a : BufferAllocator S) where
  -- The end of `alloc`: the header is written, and the buffer starts behind it.
  install : Slice → Cmd S (Raw × Outcome)
  install s = do
    cap ← sub_usize t s.len (buffer_offset t)
    store_header s.start (record { ref_count = 1; alloc_buffer_size = cap })
    tagged ← or_panic (TaggedCap.new t.debug cap true)
    pure (record { buf = ptr_add s.start (buffer_offset t); cap_or_len = tagged }, ok tt)

  alloc_answer : Raw → Layout → Option Slice → Cmd S (Raw × Outcome)
  alloc_answer b l none = pure (b, err (alloc_error l))
  alloc_answer b l (some s) = install s

  unfoldable pub alloc : Raw → ℕ → Cmd S (Raw × Outcome)
  unfolding install alloc_answer
  alloc b cap = do
    debug_assert t (value b.cap_or_len == 0)
    debug_assert t (not (is_allocated b.cap_or_len))
    full ← layout t cap
    or_return b full λ l. do
      guarded ← alloc_guard t l.size
      or_return b guarded λ _. do answer ← a.allocate l; alloc_answer b l answer

  -- The end of `realloc`: only the size in the header is written.
  reinstall : Raw → Slice → Cmd S (Raw × Outcome)
  reinstall b s = do
    cap ← sub_usize t s.len (buffer_offset t)
    header ← load_header s.start
    store_header s.start (record header { alloc_buffer_size = cap })
    tagged ← or_panic (with_value t.debug b.cap_or_len cap)
    pure (record { buf = ptr_add s.start (buffer_offset t); cap_or_len = tagged }, ok tt)

  realloc_answer : Raw → Layout → Option Slice → Cmd S (Raw × Outcome)
  realloc_answer b l none = pure (b, err (alloc_error l))
  realloc_answer b l (some s) = reinstall b s

  -- `unreachable!` where the layout of the present capacity is an error.
  resize_block : Raw → Layout → Result Layout RawBufferError → Cmd S (Raw × Outcome)
  resize_block b new_layout (err e) = λ w. panic
  resize_block b new_layout (ok old_layout) = do
    debug_assert t (old_layout.align == new_layout.align)
    start ← ptr_sub b.buf (buffer_offset t)
    elim (compare old_layout.size new_layout.size) [
      | Ordering.eq ↦ pure (b, ok tt)
      | Ordering.lt ↦ a.grow start old_layout new_layout >>= realloc_answer b new_layout
      | Ordering.gt ↦ a.shrink start old_layout new_layout >>= realloc_answer b new_layout
    ]

  unfoldable pub realloc : Raw → ℕ → Cmd S (Raw × Outcome)
  unfolding reinstall realloc_answer resize_block
  realloc b cap = do
    debug_assert t (not (value b.cap_or_len == 0))
    debug_assert t (is_allocated b.cap_or_len)
    full ← layout t cap
    or_return b full λ new_layout. do
      guarded ← alloc_guard t new_layout.size
      or_return b guarded λ _. do old ← layout t (value b.cap_or_len); resize_block b new_layout old

  unfoldable pub needs_to_grow : Raw → (len additional : ℕ) → Bool
  needs_to_grow b len additional = ltb (wrapping_sub (value b.cap_or_len) len) additional

  unfoldable pub grow_to : Raw → ℕ → Cmd S (Raw × Outcome)
  grow_to b cap = do
    debug_assert t (ltb (value b.cap_or_len) cap)
    if not (is_allocated b.cap_or_len) then alloc b cap else realloc b cap

  unfoldable pub grow_amortized : Raw → (len additional : ℕ) → Cmd S (Raw × Outcome)
  grow_amortized b len additional = do
    debug_assert t (ltb 0 additional)
    elim (checked_add len additional) [
      | none ↦ pure (b, err capacity_overflow)
      | some required_cap ↦ do
        doubled ← mul_usize t (value b.cap_or_len) 2
        grow_to b (max min_non_zero_cap (max doubled required_cap))
    ]

  unfoldable pub grow_exact : Raw → (len additional : ℕ) → Cmd S (Raw × Outcome)
  grow_exact b len additional = elim (checked_add len additional) [
    | none ↦ pure (b, err capacity_overflow)
    | some cap ↦ grow_to b cap
  ]

  unfoldable pub try_reserve : Raw → (len additional : ℕ) → Cmd S (Raw × Outcome)
  try_reserve b len additional =
      if needs_to_grow b len additional then grow_amortized b len additional else pure (b, ok tt)

  unfoldable pub reserve : Raw → (len additional : ℕ) → Cmd S Raw
  reserve b len additional =
      if needs_to_grow b len additional
      then grow_amortized b len additional >>= handle_reserve
      else pure b

  unfoldable pub try_reserve_exact : Raw → (len additional : ℕ) → Cmd S (Raw × Outcome)
  try_reserve_exact b len additional =
      if needs_to_grow b len additional then grow_exact b len additional else pure (b, ok tt)

  unfoldable pub reserve_exact : Raw → (len additional : ℕ) → Cmd S Raw
  reserve_exact b len additional = try_reserve_exact b len additional >>= handle_reserve

  unfoldable pub with_capacity_in : ℕ → Cmd S Raw
  with_capacity_in size = if size == 0 then pure new_in else alloc new_in size >>= handle_reserve

  unfoldable pub dealloc_slow : Ptr → TaggedCap → Cmd S (Unit {0})
  dealloc_slow buf cap = a.deallocate_buffer (record { buf = buf; cap = cap })

  dealloc_buf : Raw → Cmd S (Raw × Outcome)
  dealloc_buf b = do
    debug_assert t (is_allocated b.cap_or_len)
    dealloc_slow b.buf b.cap_or_len
    pure (record { buf = dangling; cap_or_len = zero_cap }, ok tt)

  unfoldable pub shrink : Raw → ℕ → Cmd S (Raw × Outcome)
  unfolding dealloc_buf
  shrink b cap = do
    assert (leb cap (value b.cap_or_len))
    if cap == value b.cap_or_len
        then pure (b, ok tt)
        else (if cap == 0 then dealloc_buf b else realloc b cap)

  unfoldable pub shrink_to_fit : Raw → ℕ → Cmd S Raw
  shrink_to_fit b cap = shrink b cap >>= handle_reserve

  -- From the capacity to the length, when a buffer is shared.
  unfoldable pub reset_len : Raw → ℕ → Cmd S Raw
  reset_len b len = do
    debug_assert t (leb len (value b.cap_or_len))
    shorter ← or_panic (with_value t.debug b.cap_or_len len)
    pure (record b { cap_or_len = shorter })

  -- And back to the capacity, which the header keeps.
  unfoldable pub reset_cap : Raw → Cmd S Raw
  reset_cap b =
      if not (is_allocated b.cap_or_len)
      then (do debug_assert t (value b.cap_or_len == 0); pure b)
      else (do
        start ← ptr_sub b.buf (buffer_offset t)
        header ← load_header start
        full ← or_panic (TaggedCap.new t.debug header.alloc_buffer_size true)
        pure (record b { cap_or_len = full }))

  unfoldable pub ref_count : Raw → Cmd S ℕ
  ref_count b =
      if not (is_allocated b.cap_or_len)
      then (do debug_assert t (not (value b.cap_or_len == 0)); pure 1)
      else (do
        start ← ptr_sub b.buf (buffer_offset t)
        header ← load_header start
        pure header.ref_count)

  unfoldable pub is_unique : Raw → Cmd S Bool
  is_unique b = do n ← ref_count b; pure (n == 1)

  -- `fetch_add` wraps; past `MAX_REFCOUNT` the program aborts.
  unfoldable pub ref_clone : Raw → Cmd S Raw
  ref_clone b = if not (is_allocated b.cap_or_len) then pure new_in else (do
    start ← ptr_sub b.buf (buffer_offset t)
    header ← load_header start
    store_header start (record header { ref_count = (header.ref_count + 1) % usize_mod })
    if ltb max_refcount header.ref_count then (λ w. abort) else pure b)

  -- `drop`: the last handle sets the count to 1 and hands the buffer to its allocator.
  release : Raw → Ptr → Header → Cmd S (Unit {0})
  release b start header = do
    store_header start (record header { ref_count = 1 })
    cap ← or_panic (TaggedCap.new t.debug header.alloc_buffer_size true)
    debug_assert t (value cap == header.alloc_buffer_size)
    dealloc_slow b.buf cap

  unfoldable pub drop : Raw → Cmd S (Unit {0})
  unfolding release
  drop b = if not (is_allocated b.cap_or_len) then pure tt else (do
    start ← ptr_sub b.buf (buffer_offset t)
    header ← load_header start
    store_header start (record header { ref_count = wrapping_sub header.ref_count 1 })
    if not (header.ref_count == 1) then pure tt else release b start header)
