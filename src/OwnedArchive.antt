-- ===== src/OwnedArchive.antt =====
-- crates/rkyv-owned-archive/src/lib.rs and pool.rs: `OwnedArchive`, a shared buffer and the position
-- of an archived value in it. Types have a size; `access_pos_with_context` of rkyv is a parameter,
-- and a function on references is one on addresses.
pub mod Access
pub mod Mapping
pub mod Views
use rkyv_utils.Prelude.{
  ℕ, ◌+◌, ◌-◌, Bool, true, ◌&&◌, Option, none, some, Result, ok, err, List, leb, if◌then◌else◌,
}
use rkyv_utils.Memory.{Target, address, Cmd, pure, done, ◌>>=◌, ◌>>◌, assert, add_usize, sub_usize}
use rkyv_utils.Alloc.{BufferAllocator}
use rkyv_utils.Shared
use rkyv_utils.Shared.{Shared, as_ptr, as_slice, len}
use rkyv_utils.Queue.{ArrayQueue}
use rkyv_utils.Validator
use rkyv_utils.Validator.{SharedValidator, validator}

pub record OwnedArchive : Type 0 where
  pub buffer : Shared
  pub pos : ℕ

-- `ALIGNMENT_OK` of a type of the given size
unfoldable pub alignment_ok : Target → (size : ℕ) → Bool
alignment_ok t size = leb size t.alignment

unfoldable pub new_unchecked_with_pos : Shared → ℕ → OwnedArchive
new_unchecked_with_pos buffer pos = record { buffer = buffer; pos = pos }

-- `saturating_sub` stops at zero, as `-` does.
unfoldable pub root_pos : (size : ℕ) → Shared → ℕ
root_pos size buffer = len buffer - size

unfoldable pub new_unchecked : (size : ℕ) → Shared → OwnedArchive
unfolding root_pos new_unchecked_with_pos
new_unchecked size buffer = new_unchecked_with_pos buffer (root_pos size buffer)

-- What a constructor makes of the check.
made : {E : Type 0} → Shared → ℕ → Result (Unit {0}) E → Result OwnedArchive E
unfolding new_unchecked_with_pos
made buffer pos (err e) = err e
made buffer pos (ok _) = ok (new_unchecked_with_pos buffer pos)

module _ {S : Type 0} (t : Target) (a : BufferAllocator S) where
  unfoldable pub clone : OwnedArchive → Cmd S OwnedArchive
  clone o = do buffer ← Shared.clone t a o.buffer; pure (record o { buffer = buffer })

  module _ {C E : Type 0} (access : List ℕ → (pos : ℕ) → C → C × Result (Unit {0}) E) where
    unfoldable pub new_with_pos_and_context : Shared → ℕ → C → Cmd S (C × Result OwnedArchive E)
    unfolding made
    new_with_pos_and_context buffer pos context = do
      bytes ← as_slice t a buffer
      let (context', checked) = access bytes pos context
      pure (context', made buffer pos checked)

    unfoldable pub new_with_context : (size : ℕ) → Shared → C → Cmd S (C × Result OwnedArchive E)
    unfolding root_pos
    new_with_context size buffer context =
        new_with_pos_and_context buffer (root_pos size buffer) context

    -- `validator` makes a validator for the bytes, and it is gone after the check.
    unfoldable pub new_with_pos :
        (validator : List ℕ → C) → Shared → ℕ → Cmd S (Result OwnedArchive E)
    unfolding made
    new_with_pos validator buffer pos = do
      bytes ← as_slice t a buffer
      let (_, checked) = access bytes pos (validator bytes)
      pure (made buffer pos checked)

    unfoldable pub new :
        (validator : List ℕ → C) (size : ℕ) → Shared → Cmd S (Result OwnedArchive E)
    unfolding root_pos
    new validator size buffer = new_with_pos validator buffer (root_pos size buffer)

  -- With a validator of a pool, whose queue is handed on: the validator is dropped after the check,
  -- and the pool is there, since the caller has a reference.
  module _ {T Q E : Type 0} (queue : ArrayQueue (SharedValidator T) Q)
      (access : List ℕ
        → (pos : ℕ) → SharedValidator T
        → SharedValidator T × Result (Unit {0}) E) where
    unfoldable pub new_with_pos_and_pooled_validator :
        Shared → ℕ → Q → Cmd S (Q × Result OwnedArchive E)
    unfolding made
    new_with_pos_and_pooled_validator buffer pos pool = do
      bytes ← as_slice t a buffer
      let (pool', shared) = validator queue pool
      let (shared', checked) = access bytes pos shared
      pure (Validator.drop queue true pool' shared', made buffer pos checked)

    unfoldable pub new_with_pooled_validator :
        (size : ℕ) → Shared → Q → Cmd S (Q × Result OwnedArchive E)
    unfolding root_pos
    new_with_pooled_validator size buffer pool =
        new_with_pos_and_pooled_validator buffer (root_pos size buffer) pool

  -- The second half of a map: the value at `start` has to lie in the buffer.
  within : OwnedArchive → (size start : ℕ) → Cmd S OwnedArchive
  unfolding new_unchecked_with_pos
  within o size start = do
    ptr_end ← add_usize t start size
    let buf_start = address (as_ptr o.buffer)
    buf_end ← add_usize t buf_start (len o.buffer)
    assert (leb buf_start start && leb start buf_end)
    assert (leb buf_start ptr_end && leb ptr_end buf_end)
    pos ← sub_usize t start buf_start
    pure (new_unchecked_with_pos o.buffer pos)

  -- `size` is the size of the type that is mapped to. The function is given the address of the
  -- value, and the bytes.
  unfoldable pub map_with_buffer : OwnedArchive → (size : ℕ) → (ℕ → List ℕ → ℕ) → Cmd S OwnedArchive
  unfolding within
  map_with_buffer o size f = do
    bytes ← as_slice t a o.buffer
    within o size (f (address (as_ptr o.buffer) + o.pos) bytes)

  unfoldable pub map : OwnedArchive → (size : ℕ) → (ℕ → ℕ) → Cmd S OwnedArchive
  map o size f = map_with_buffer o size (λ value _. f value)

  -- `?` on what the function returns
  try_within : {E : Type 0} → OwnedArchive → (size : ℕ) → Result ℕ E → Cmd S (Result OwnedArchive E)
  try_within o size (err e) = pure (err e)
  try_within o size (ok start) = do o' ← within o size start; pure (ok o')

  unfoldable pub try_map_with_buffer :
      {E : Type 0}
      → OwnedArchive
      → (size : ℕ) → (ℕ → List ℕ → Result ℕ E)
      → Cmd S (Result OwnedArchive E)
  unfolding within try_within
  try_map_with_buffer o size f = do
    bytes ← as_slice t a o.buffer
    try_within o size (f (address (as_ptr o.buffer) + o.pos) bytes)

  unfoldable pub try_map :
      {E : Type 0} → OwnedArchive → (size : ℕ) → (ℕ → Result ℕ E) → Cmd S (Result OwnedArchive E)
  try_map o size f = try_map_with_buffer o size (λ value _. f value)
