-- ===== src/Rkyv.antt =====
-- crates/aligned-buffer/src/rkyv.rs: buffers as writers of rkyv, and as values that are archived.
-- The writer that an archive goes to is a parameter, as is the check of an `ArchivedBox`.
pub mod Writing
pub mod Reading
use rkyv_utils.Prelude.{ℕ, ◌≡◌, ◌%◌, Bool, Result, ok, err, List, ◌++◌, length, ◌==◌, if◌then◌else◌}
use rkyv_utils.Memory.{Target, Cmd, pure, ◌>>=◌, ◌>>◌}
use rkyv_utils.Alloc.{BufferAllocator}
use rkyv_utils.Unique
use rkyv_utils.Unique.{Unique, extend_from_slice}
use rkyv_utils.Shared
use rkyv_utils.Shared.{Shared, into_shared}

-- `Positional`, `Writer` and `WriterExt` of rkyv
pub record Writer (W E : Type 0) : Type 0 where
  pub pos : W → ℕ
  pub align : W → ℕ → W × Result (Unit {0}) E
  pub write : W → List ℕ → W × Result (Unit {0}) E

-- `written` is everything that was written so far.
pub record IsWriter {W E : Type 0} (out : Writer W E) : Type 0 where
  pub written : W → List ℕ
  pub pos_lem : (s : W) → out.pos s ≡ length (written s)
  pub align_lem :
      (s : W) (n : ℕ)
      → (out.align s n).1 ≡ ok tt
      → (pad : List ℕ) × (written (out.align s n).0 ≡ written s ++ pad)
        × (length (written s ++ pad) % n ≡ 0)
  pub write_lem :
      (s : W) (bytes : List ℕ)
      → (out.write s bytes).1 ≡ ok tt
      → written (out.write s bytes).0 ≡ written s ++ bytes

-- `Serialize` of a buffer: the bytes at the next multiple of ALIGNMENT. The result is the position
-- that the resolver keeps.
module _ {W E : Type 0} (out : Writer W E) where
  end : ℕ → W × Result (Unit {0}) E → W × Result ℕ E
  end pos (s, err e) = (s, err e)
  end pos (s, ok _) = (s, ok pos)

  behind : {S : Type 0} → Cmd S (List ℕ) → W × Result (Unit {0}) E → Cmd S (W × Result ℕ E)
  unfolding end
  behind as_slice (s, err e) = pure (s, err e)
  behind as_slice (s, ok _) = do
    let pos = out.pos s
    bytes ← as_slice
    pure (end pos (out.write s bytes))

  module _ {S : Type 0} (t : Target) (a : BufferAllocator S) where
    unfoldable pub serialize_shared : Shared → W → Cmd S (W × Result ℕ E)
    unfolding behind
    serialize_shared buffer s = behind (Shared.as_slice t a buffer) (out.align s t.alignment)

    unfoldable pub serialize_unique : Unique → W → Cmd S (W × Result ℕ E)
    unfolding behind
    serialize_unique buffer s = behind (Unique.as_slice t a buffer) (out.align s t.alignment)

pub data CheckError (E : Type 0) : Type 0 where
  misaligned : CheckError E
  boxed : E → CheckError E

-- `check_bytes`: the box is checked by rkyv, and `ptr` is the address that it points to.
module _ {V C E : Type 0} (check_box : V → C → C × Result (Unit {0}) E) (ptr : V → ℕ) where
  aligned : Target → V → C × Result (Unit {0}) E → C × Result (Unit {0}) (CheckError E)
  aligned t value (context, err e) = (context, err (boxed e))
  aligned t value (context, ok _) =
      if ptr value % t.alignment == 0 then (context, ok tt) else (context, err misaligned)

  unfoldable pub check_bytes : Target → V → C → C × Result (Unit {0}) (CheckError E)
  unfolding aligned
  check_bytes t value context = aligned t value (check_box value context)

-- The position of a buffer as a writer
unfoldable pub pos : Unique → ℕ
pos u = u.len

module _ {S : Type 0} (t : Target) (a : BufferAllocator S) where
  unfoldable pub write : {E : Type 0} → Unique → List ℕ → Cmd S (Unique × Result (Unit {0}) E)
  write u bytes = do u' ← extend_from_slice t a u bytes; pure (u', ok tt)

  -- `inner` are the bytes of the archived box.
  unfoldable pub deserialize_unique : (inner : List ℕ) → Cmd S Unique
  deserialize_unique inner = do
    buf ← Unique.with_capacity_in t a (length inner)
    extend_from_slice t a buf inner

  unfoldable pub deserialize_shared : (inner : List ℕ) → Cmd S Shared
  deserialize_shared inner = do buf ← deserialize_unique inner; into_shared t a buf
