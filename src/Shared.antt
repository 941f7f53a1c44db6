-- ===== src/Shared.antt =====
-- crates/aligned-buffer/src/shared.rs: `SharedAlignedBuffer`, a counted handle on a buffer that no
-- longer changes, and `into_shared` of crates/aligned-buffer/src/unique.rs.
pub mod Handles
pub mod Sharing
pub mod Counting
pub mod Lifetime
pub mod Empty
pub mod Threads
pub mod Views
use rkyv_utils.Prelude.{ℕ, Bool, Result, ok, err, List, ◌==◌, if◌then◌else◌}
use rkyv_utils.TaggedCap.{value}
use rkyv_utils.Memory.{Target, Ptr, Cmd, pure, ◌>>=◌, ◌>>◌, debug_assert, read_bytes}
use rkyv_utils.Alloc.{BufferAllocator}
use rkyv_utils.Raw
use rkyv_utils.Raw.{Raw}
use rkyv_utils.Unique.{Unique}

pub record Shared : Type 0 where
  pub buf : Raw

unfoldable pub new_in : Shared
new_in = record { buf = Raw.new_in }

unfoldable pub as_ptr : Shared → Ptr
as_ptr s = s.buf.buf

-- The word of a shared buffer is its length.
unfoldable pub len : Shared → ℕ
len s = value s.buf.cap_or_len

unfoldable pub is_empty : Shared → Bool
is_empty s = len s == 0

module _ {S : Type 0} (t : Target) (a : BufferAllocator S) where
  -- `deref`, and what goes through it.
  unfoldable pub as_slice : Shared → Cmd S (List ℕ)
  as_slice s = read_bytes t (as_ptr s) (len s)

  unfoldable pub is_unique : Shared → Cmd S Bool
  is_unique s = Raw.is_unique t a s.buf

  unfoldable pub ref_count : Shared → Cmd S ℕ
  ref_count s = Raw.ref_count t a s.buf

  -- The error is the buffer that came in.
  unfoldable pub try_unique : Shared → Cmd S (Result Unique Shared)
  try_unique s = do
    alone ← is_unique s
    if alone
        then (do buf ← Raw.reset_cap t a s.buf; pure (ok (record { buf = buf; len = len s })))
        else pure (err s)

  unfoldable pub clone : Shared → Cmd S Shared
  clone s = do buf ← Raw.ref_clone t a s.buf; pure (record { buf = buf })

  -- The field is dropped.
  unfoldable pub drop : Shared → Cmd S (Unit {0})
  drop s = Raw.drop t a s.buf

  -- `UniqueAlignedBuffer::into_shared`
  unfoldable pub into_shared : Unique → Cmd S Shared
  into_shared u = do
    buf ← Raw.reset_len t a u.buf u.len
    debug_assert t (value buf.cap_or_len == u.len)
    pure (record { buf = buf })
