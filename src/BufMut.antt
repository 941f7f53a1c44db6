-- ===== src/BufMut.antt =====
-- crates/aligned-buffer/src/bytes.rs: the `BufMut` of a unique buffer. `Buf` of the crate bytes is
-- a parameter, with its documentation as laws.
pub mod Chunk
pub mod Put
use rkyv_utils.Prelude.{
  ℕ, zero, suc, Option, none, some, List, ltb, leb, length, replicate, ◌+◌, ◌==◌, ◌++◌, ◌≡◌, ◌<◌,
  if◌then◌else◌,
}
use rkyv_utils.Memory.{
  Target, Ptr, ptr_add, Cmd, pure, ◌>>=◌, ◌>>◌, assert, debug_assert, add_usize, sub_usize,
  write_bytes,
}
use rkyv_utils.BufferLayout.{max_capacity}
use rkyv_utils.Alloc.{BufferAllocator, Slice}
use rkyv_utils.Unique
use rkyv_utils.Unique.{Unique, as_ptr, capacity, extend_from_slice}

pub record Buf (B : Type 0) : Type 0 where
  pub remaining : B → ℕ
  pub chunk : B → List ℕ
  pub advance : B → (count : ℕ) → B

-- `rest` are the bytes between the cursor and the end.
pub record IsBuf {B : Type 0} (buf : Buf B) : Type 0 where
  pub rest : B → List ℕ
  pub remaining_lem : (src : B) → length (rest src) ≡ buf.remaining src
  pub chunk_lem : (src : B) → 0 < buf.remaining src → 0 < length (buf.chunk src)
  pub advance_lem :
      (src : B) → rest src ≡ buf.chunk src ++ rest (buf.advance src (length (buf.chunk src)))

module _ {S : Type 0} (t : Target) (a : BufferAllocator S) where
  unfoldable pub remaining_mut : Unique → Cmd S ℕ
  remaining_mut u = sub_usize t (max_capacity t) u.len

  unfoldable pub advance_mut : Unique → (cnt : ℕ) → Cmd S Unique
  advance_mut u cnt = do
    new_len ← add_usize t u.len cnt
    assert (leb new_len (capacity u))
    Unique.set_len t a u new_len

  unfoldable pub chunk_mut : Unique → Cmd S (Unique × Slice)
  chunk_mut u = do
    u' ← if capacity u == u.len then Unique.reserve t a u 64 else pure u
    len ← sub_usize t (capacity u') u'.len
    pure (u', record { start = ptr_add (as_ptr u') u'.len; len = len })

  unfoldable pub put_slice : Unique → List ℕ → Cmd S Unique
  put_slice u src = extend_from_slice t a u src

  unfoldable pub put_bytes : Unique → (val cnt : ℕ) → Cmd S Unique
  unfolding advance_mut
  put_bytes u val cnt = do
    u' ← Unique.reserve t a u cnt
    let offset = u'.len
    len ← sub_usize t (capacity u') offset
    debug_assert t (leb cnt len)
    write_bytes t (ptr_add (as_ptr u') offset) (replicate cnt val)
    advance_mut u' cnt

  -- The loop of `put`; `none` where the fuel runs out.
  unfoldable pub put : {B : Type 0} → Buf B → (fuel : ℕ) → Unique → B → Cmd S (Option Unique)
  put buf zero u src = if ltb 0 (buf.remaining src) then pure none else pure (some u)
  put buf (suc fuel) u src =
      if ltb 0 (buf.remaining src)
      then (do
        let s = buf.chunk src
        let l = length s
        u' ← extend_from_slice t a u s
        put buf fuel u' (buf.advance src l))
      else pure (some u)
