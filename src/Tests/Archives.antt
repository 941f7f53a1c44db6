-- ===== src/Tests/Archives.antt =====
-- Reading and writing at concrete inputs: bytes that arrive one at a time, a writer that pads
-- nothing, and an archive of one byte.
use rkyv_utils.Prelude.{
  ℕ, ◌+◌, ◌%◌, ◌<◌, ◌≡◌, refl, sym, Bool-cases, inl, inr, ok, err, List, [], ◌∷◌, ◌++◌, append-nil,
  length, drop, arith, Result, ◌==◌, leb, if◌then◌else◌,
}
use rkyv_utils.Memory.{◌>>=◌}
use rkyv_utils.Memory.Ends.{Ends}
use rkyv_utils.BufferLayout.Fits.{Fits}
use rkyv_utils.Unique.Append.{doubled}
use rkyv_utils.BufMut.{Buf, IsBuf, put}
use rkyv_utils.BufMut.Put.{Put, put-Becomes}
use rkyv_utils.Rkyv.{Writer, IsWriter, serialize_shared, deserialize_shared}
use rkyv_utils.Rkyv.Writing.{Archived, serialize_shared-Archived}
use rkyv_utils.Rkyv.Reading.{as_slice-deserialize_shared}
use rkyv_utils.Shared
use rkyv_utils.OwnedArchive.{OwnedArchive, map_with_buffer, new_with_pooled_validator}
use rkyv_utils.OwnedArchive.Mapping.{Inside, Mapped, map_with_buffer-Mapped}
use rkyv_utils.OwnedArchive.Access.{ChecksBounds, Made, new_with_pooled_validator-Made}
use rkyv_utils.Validator.{SharedValidator, empty}
use rkyv_utils.Queue.Every.{Every}
use rkyv_utils.Validator.Recycle.{IsEmpty}
use rkyv_utils.Tests.{blk, memory, stored, two_bytes, stored-Contains, handle, one_handle}
use rkyv_utils.Tests.Slot.{target, target-IsTarget, slots, slot-IsAllocator}
use rkyv_utils.Tests.Queues.{Ring, ring, ring_laws}

abbrev first_byte : List ℕ → List ℕ
first_byte [] = []
first_byte (x ∷ xs) = x ∷ []

-- `Buf` with one byte to a chunk
abbrev bytes : Buf (List ℕ)
bytes = record { remaining = length; chunk = first_byte; advance = λ xs n. drop n xs }

chunk_lem : (xs : List ℕ) → 0 < length xs → 0 < length (first_byte xs)
chunk_lem [] h = absurd (omega arith)
chunk_lem (x ∷ xs) h = omega arith

advance_lem : (xs : List ℕ) → xs ≡ first_byte xs ++ drop (length (first_byte xs)) xs
advance_lem [] = refl
advance_lem (x ∷ xs) = refl

abbrev bytes_laws : IsBuf bytes
bytes_laws = record {
  rest = λ xs. xs;
  remaining_lem = λ xs. refl;
  chunk_lem = chunk_lem;
  advance_lem = advance_lem;
}

put-Becomes_example :
    Ends
      (Put target-IsTarget slots slot-IsAllocator bytes bytes_laws memory stored
        (two_bytes ++ 1 ∷ 2 ∷ 3 ∷ []))
      (¬ Fits target (doubled 5))
      (Unit {0})
      (put target slots bytes 3 stored (1 ∷ 2 ∷ 3 ∷ []) memory)
put-Becomes_example =
    put-Becomes target-IsTarget slots slot-IsAllocator bytes bytes_laws 3 memory stored two_bytes
      (1 ∷ 2 ∷ 3 ∷ []) stored-Contains (omega arith)

-- A writer that refuses to pad
abbrev output : Writer (List ℕ) (Unit {0})
output = record {
  pos = length;
  align = λ xs n. (xs, if length xs % n == 0 then ok tt else err tt);
  write = λ xs ys. (xs ++ ys, ok tt);
}

align_lem :
    (xs : List ℕ) (n : ℕ)
    → (output.align xs n).1 ≡ ok tt
    → (pad : List ℕ) × (xs ≡ xs ++ pad) × (length (xs ++ pad) % n ≡ 0)
align_lem xs n h = elim (Bool-cases (length xs % n == 0)) [
  | inl e ↦ ([], sym (append-nil xs), rw (append-nil xs) (ground (arith, e)))
  | inr e ↦ absurd (ground (arith, h, e))
]

output_laws : IsWriter output
output_laws = record {
  written = λ xs. xs;
  pos_lem = λ xs. refl;
  align_lem = align_lem;
  write_lem = λ xs ys h. refl;
}

serialize_shared-Archived_example :
    Ends
      (λ r w'. Archived output output_laws target [] two_bytes r × (w' ≡ memory))
      ⊥
      ⊥
      (serialize_shared output target slots handle [] memory)
serialize_shared-Archived_example =
    serialize_shared-Archived output output_laws target-IsTarget slots memory handle 8 blk two_bytes
      1 [] one_handle

as_slice-deserialize_shared_example :
    Ends
      (λ ys w'. ys ≡ two_bytes)
      (¬ Fits target (doubled 2))
      (Unit {0})
      ((deserialize_shared target slots two_bytes >>= Shared.as_slice target slots) memory)
as_slice-deserialize_shared_example =
    as_slice-deserialize_shared target-IsTarget slots slot-IsAllocator memory two_bytes

abbrev archive : OwnedArchive
archive = record { buffer = handle; pos = 0 }

map_with_buffer-Mapped_example :
    Ends
      (λ o' w'. Mapped archive 2 1 385 o' × (w' ≡ memory))
      (¬ Inside handle 2 1 385)
      ⊥
      (map_with_buffer target slots archive 1 (λ value _. value + 1) memory)
unfolding Shared.as_ptr
map_with_buffer-Mapped_example =
    map_with_buffer-Mapped target-IsTarget slots memory archive 8 blk two_bytes 1 1 one_handle
      (omega arith) (λ value _. value + 1) 385 refl (omega arith)

-- The check of a type of one byte
abbrev access : List ℕ → ℕ → SharedValidator ℕ → SharedValidator ℕ × Result (Unit {0}) (Unit {0})
access xs pos v = (v, if leb (pos + 1) (length xs) then ok tt else err tt)

access-ChecksBounds : ChecksBounds 1 access
access-ChecksBounds xs pos v h = elim (Bool-cases (leb (pos + 1) (length xs))) [
  | inl e ↦ ground (arith, e)
  | inr e ↦ absurd (ground (arith, h, e))
]

abbrev validators : Ring (SharedValidator ℕ)
validators = record { capacity = 1; items = empty ∷ [] }

new_with_pooled_validator-Made_example :
    Ends
      (λ (pool', r) w'.
        Made handle two_bytes 1 (access two_bytes 1 empty).1 r
        × Every IsEmpty pool'.items
        × (w' ≡ memory))
      ⊥
      ⊥
      (new_with_pooled_validator target slots ring access 1 handle validators memory)
new_with_pooled_validator-Made_example =
    new_with_pooled_validator-Made target-IsTarget slots memory handle 8 blk two_bytes 1 one_handle
      1 ring ring_laws access validators access-ChecksBounds (refl, tt)
