-- ===== src/Unique.antt =====
-- crates/aligned-buffer/src/unique.rs: `UniqueAlignedBuffer`, a growable run of bytes. A method on
-- `&mut self` returns the new buffer, `try_…` with its result. An iterator is the lower bound of
-- its size hint with the bytes that it yields.
pub mod Contents
pub mod Extend
pub mod Resize
pub mod Append
pub mod Build
pub mod Index
pub mod Parts
pub mod Script
use rkyv_utils.Prelude.{
  ℕ, zero, suc, Bool, Result, ok, err, List, [], ◌∷◌, min, max, ltb, leb, ◌==◌, if◌then◌else◌,
  length, replicate,
}
use rkyv_utils.TaggedCap.{TaggedCap, value}
use rkyv_utils.Memory.{
  Target, Ptr, ptr_add, Cmd, pure, ◌>>=◌, ◌>>◌, debug_assert, add_usize, sub_usize, read_bytes,
  write_bytes,
}
use rkyv_utils.Alloc.{BufferAllocator}
use rkyv_utils.Raw
use rkyv_utils.Raw.{Raw, Outcome}

pub record Unique : Type 0 where
  pub buf : Raw
  pub len : ℕ

unfoldable pub new_in : Unique
new_in = record { buf = Raw.new_in; len = 0 }

-- The pointer, the length and the capacity; the allocator stays a parameter.
unfoldable pub into_raw_parts : Unique → Ptr × ℕ × TaggedCap
into_raw_parts u = (u.buf.buf, u.len, u.buf.cap_or_len)

unfoldable pub from_raw_parts : Ptr → ℕ → TaggedCap → Unique
from_raw_parts ptr len capacity = record {
  buf = record { buf = ptr; cap_or_len = capacity };
  len = len;
}

unfoldable pub capacity : Unique → ℕ
capacity u = value u.buf.cap_or_len

unfoldable pub as_ptr : Unique → Ptr
as_ptr u = u.buf.buf

unfoldable pub truncate : Unique → ℕ → Unique
truncate u len = record u { len = min len u.len }

unfoldable pub clear : Unique → Unique
clear u = record u { len = 0 }

unfoldable pub is_empty : Unique → Bool
is_empty u = u.len == 0

abbrev with_result : Unique → Raw × Outcome → Unique × Outcome
with_result u (b, r) = (record u { buf = b }, r)

module _ {S : Type 0} (t : Target) (a : BufferAllocator S) where
  unfoldable pub with_capacity_in : ℕ → Cmd S Unique
  with_capacity_in capacity = do
    buf ← Raw.with_capacity_in t a capacity
    pure (record { buf = buf; len = 0 })

  unfoldable pub reserve : Unique → ℕ → Cmd S Unique
  reserve u additional = do
    buf ← Raw.reserve t a u.buf u.len additional
    pure (record u { buf = buf })

  unfoldable pub reserve_exact : Unique → ℕ → Cmd S Unique
  reserve_exact u additional = do
    buf ← Raw.reserve_exact t a u.buf u.len additional
    pure (record u { buf = buf })

  unfoldable pub try_reserve : Unique → ℕ → Cmd S (Unique × Outcome)
  try_reserve u additional = do
    r ← Raw.try_reserve t a u.buf u.len additional
    pure (with_result u r)

  unfoldable pub try_reserve_exact : Unique → ℕ → Cmd S (Unique × Outcome)
  try_reserve_exact u additional = do
    r ← Raw.try_reserve_exact t a u.buf u.len additional
    pure (with_result u r)

  unfoldable pub shrink_to_fit : Unique → Cmd S Unique
  shrink_to_fit u =
      if ltb u.len (capacity u)
      then (do buf ← Raw.shrink_to_fit t a u.buf u.len; pure (record u { buf = buf }))
      else pure u

  unfoldable pub shrink_to : Unique → ℕ → Cmd S Unique
  shrink_to u min_capacity =
      if ltb min_capacity (capacity u)
      then (do
        buf ← Raw.shrink_to_fit t a u.buf (max u.len min_capacity)
        pure (record u { buf = buf }))
      else pure u

  -- `deref`, and what goes through it.
  unfoldable pub as_slice : Unique → Cmd S (List ℕ)
  as_slice u = read_bytes t (as_ptr u) u.len

  unfoldable pub set_len : Unique → ℕ → Cmd S Unique
  set_len u new_len = do
    debug_assert t (leb new_len (capacity u))
    pure (record u { len = new_len })

  unfoldable pub push : Unique → ℕ → Cmd S Unique
  push u value = do
    u' ←
        if u.len == capacity u
        then (do buf ← Raw.reserve t a u.buf u.len 1; pure (record u { buf = buf }))
        else pure u
    write_bytes t (ptr_add (as_ptr u') u'.len) (value ∷ [])
    len ← add_usize t u'.len 1
    pure (record u' { len = len })

  unfoldable pub append_elements : Unique → List ℕ → Cmd S Unique
  append_elements u other = do
    let count = length other
    u' ← reserve u count
    write_bytes t (ptr_add (as_ptr u') u'.len) other
    len ← add_usize t u'.len count
    pure (record u' { len = len })

  unfoldable pub append : Unique → List ℕ → Cmd S Unique
  unfolding append_elements
  append u other = append_elements u other

  unfoldable pub extend_from_slice : Unique → List ℕ → Cmd S Unique
  unfolding append
  extend_from_slice u other = append u other

  -- The loop of `extend_with`.
  fill : ℕ → Ptr → ℕ → Cmd S (Unit {0})
  fill zero p value = pure tt
  fill (suc n) p value = do write_bytes t p (value ∷ []); fill n (ptr_add p 1) value

  unfoldable pub extend_with : Unique → (n value : ℕ) → Cmd S Unique
  unfolding fill
  extend_with u n value = do
    u' ← reserve u n
    fill n (ptr_add (as_ptr u') u'.len) value
    len ← add_usize t u'.len n
    pure (record u' { len = len })

  unfoldable pub resize : Unique → (new_len value : ℕ) → Cmd S Unique
  resize u new_len value =
      if ltb u.len new_len
      then (do n ← sub_usize t new_len u.len; extend_with u n value)
      else pure (truncate u new_len)

  -- The loops of `extend`: into the free room, with the length and the rest of the iterator, and
  -- one by one for what is left.
  pub fill_free : (free : ℕ) → Ptr → (local_len : ℕ) → List ℕ → Cmd S (ℕ × List ℕ)
  fill_free zero p local_len iter = pure (local_len, iter)
  fill_free (suc free) p local_len [] = pure (local_len, [])
  fill_free (suc free) p local_len (byte ∷ iter) = do
    write_bytes t p (byte ∷ [])
    local_len' ← add_usize t local_len 1
    fill_free free (ptr_add p 1) local_len' iter

  unfoldable pub push_all : Unique → List ℕ → Cmd S Unique
  push_all u [] = pure u
  push_all u (byte ∷ iter) = do u' ← push u byte; push_all u' iter

  unfoldable pub extend : Unique → (lower : ℕ) → List ℕ → Cmd S Unique
  unfolding fill_free push_all
  extend u lower iter = do
    u' ← reserve u lower
    free ← sub_usize t (capacity u') u'.len
    (len, rest) ← fill_free free (ptr_add (as_ptr u') u'.len) u'.len iter
    push_all (record u' { len = len }) rest

  unfoldable pub from_iter : (lower : ℕ) → List ℕ → Cmd S Unique
  from_iter lower iter = do buf ← with_capacity_in lower; extend buf lower iter

  -- The fields are dropped, and `buf` is the one with a `drop`.
  unfoldable pub drop : Unique → Cmd S (Unit {0})
  drop u = Raw.drop t a u.buf
