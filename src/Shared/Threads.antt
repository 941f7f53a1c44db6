-- ===== src/Shared/Threads.antt =====
-- crates/aligned-buffer/src/raw.rs and shared.rs: `ref_clone`, `drop` and `try_unique` of handles on
-- one buffer as threads run them, cut where a step on the atomic count or on the block ends.
pub mod Tally
pub mod Phases
pub mod Steps
pub mod Values
pub mod Returns
pub mod Safety
pub mod Whole
use rkyv_utils.Prelude.{
  ℕ, ◌+◌, ◌-◌, ◌%◌, ◌≤◌, ◌<◌, ◌≡◌, ◌⊎◌, List, [], ◌∷◌, ◌++◌, not, true, ltb, ◌==◌, if◌then◌else◌,
  wrapping_sub, usize_mod, length,
}
use rkyv_utils.TaggedCap
use rkyv_utils.TaggedCap.{value}
use rkyv_utils.Memory.{
  Target, Header, World, Cmd, abort, done, pure, ◌>>=◌, ◌>>◌, debug_assert, or_panic, ptr_sub,
  load_header, store_header,
}
use rkyv_utils.BufferLayout.{buffer_offset}
use rkyv_utils.Alloc.{BufferAllocator}
use rkyv_utils.Raw
use rkyv_utils.Raw.{max_refcount, dealloc_slow}
use rkyv_utils.Shared.{Shared, len, is_unique, into_shared}

-- What a thread calls on a handle.
pub data Call : Type 0 where
  clone : Call
  drop : Call
  try_unique : Call

-- A call that has begun and not returned: a clone and a drop with what `fetch_add` and `fetch_sub`
-- returned, a last drop behind its load and behind its store, and a buffer that `try_unique` found
-- alone.
pub data Pending : Type 0 where
  cloned : (old : ℕ) → Pending
  subtracted : (old : ℕ) → Pending
  acquired : Pending
  stored : Pending
  alone : Pending

-- What a step of a call adds: handles, what is left of the call, and buffers given back.
pub record Left : Type 0 where
  pub handles : ℕ
  pub calls : List Pending
  pub freed : ℕ

abbrev nothing : Left
nothing = record { handles = 0; calls = []; freed = 0 }

abbrev call_left : Pending → Left
call_left p = record { handles = 0; calls = p ∷ []; freed = 0 }

abbrev handle_left : Left
handle_left = record { handles = 1; calls = []; freed = 0 }

abbrev freed_left : Left
freed_left = record { handles = 0; calls = []; freed = 1 }

module _ {S : Type 0} (t : Target) (a : BufferAllocator S) (s : Shared) where
  -- An atomic change of the count, with the count before it.
  unfoldable pub fetch_update : (ℕ → ℕ) → Cmd S ℕ
  fetch_update f = do
    start ← ptr_sub s.buf.buf (buffer_offset t)
    header ← load_header start
    store_header start (record header { ref_count = f header.ref_count })
    pure header.ref_count

  unfoldable pub load : Cmd S Header
  load = do start ← ptr_sub s.buf.buf (buffer_offset t); load_header start

  -- `ref_clone` up to its `fetch_add`, and its test against MAX_REFCOUNT, on a handle of a buffer
  -- with an allocation.
  abbrev clone_begins : Cmd S Left
  clone_begins = do
    old ← fetch_update λ n. (n + 1) % usize_mod
    pure (record { handles = 1; calls = cloned old ∷ []; freed = 0 })

  abbrev clone_ends : ℕ → Cmd S Left
  clone_ends old = if ltb max_refcount old then (λ w. abort) else pure handle_left

  -- `drop` up to its `fetch_sub`.
  abbrev drop_begins : Cmd S Left
  drop_begins = do old ← fetch_update λ n. wrapping_sub n 1; pure (call_left (subtracted old))

  -- `try_unique` up to its load, and `reset_cap`. In the end a thread that got the buffer shares it
  -- again, unchanged, which is no code of `try_unique`: so the buffer stays in play.
  abbrev try_unique_begins : Cmd S Left
  try_unique_begins = do one ← is_unique t a s; pure (if one then call_left alone else handle_left)

  abbrev try_unique_ends : Cmd S Left
  try_unique_ends = do
    buf ← Raw.reset_cap t a s.buf
    again ← into_shared t a (record { buf = buf; len = len s })
    pure handle_left

  -- A clone borrows its handle, the others take it.
  unfoldable pub begin : Call → Cmd S Left
  unfolding fetch_update
  begin clone = clone_begins
  begin drop = drop_begins
  begin try_unique = try_unique_begins

  -- The rest of a call, one step at a time; of `drop` it is the test against 1 and the load, the
  -- store, and the end of the last drop.
  unfoldable pub next : Pending → Cmd S Left
  unfolding fetch_update load
  next (cloned old) = clone_ends old
  next (subtracted old) =
      if not (old == 1) then pure nothing else (do header ← load; pure (call_left acquired))
  next acquired = do old ← fetch_update λ n. 1; pure (call_left stored)
  next stored = do
    header ← load
    cap ← or_panic (TaggedCap.new t.debug header.alloc_buffer_size true)
    debug_assert t (value cap == header.alloc_buffer_size)
    dealloc_slow t a s.buf.buf cap
    pure freed_left
  next alone = try_unique_ends

  -- The handles and the calls in flight, at most `threads` of these, and how often the buffer was
  -- given back. Where it was, its place may be used for something else.
  pub data Step (threads : ℕ) (w : World S) (handles : ℕ) (calls : List Pending) (freed : ℕ)
      : World S → ℕ → List Pending → ℕ → Type 0 where
    begun :
        {w' : World S} {left : Left} (call : Call)
        → 0 < handles
        → length calls < threads
        → begin call w ≡ done left w'
        → Step threads w handles calls freed w'
            (handles - 1 + left.handles)
            (left.calls ++ calls)
            freed
    went_on :
        {w' : World S} {left : Left} (front back : List Pending) (call : Pending)
        → calls ≡ front ++ call ∷ back
        → next call w ≡ done left w'
        → Step threads w handles calls freed w'
            (handles + left.handles)
            (front ++ (left.calls ++ back))
            (freed + left.freed)
    elsewhere :
        {w' : World S}
        → (0 < freed) ⊎ (w'.blocks s.buf.buf.base ≡ w.blocks s.buf.buf.base)
        → Step threads w handles calls freed w' handles calls freed

  -- From the one handle that sharing gives, with no call in flight.
  pub data Reach (threads : ℕ) (w0 : World S) : World S → ℕ → List Pending → ℕ → Type 0 where
    here : Reach threads w0 w0 1 [] 0
    later :
        {w w' : World S} {n n' : ℕ} {calls calls' : List Pending} {freed freed' : ℕ}
        → Reach threads w0 w n calls freed
        → Step threads w n calls freed w' n' calls' freed'
        → Reach threads w0 w' n' calls' freed'
