-- ===== src/Unique/Index.antt =====
-- crates/aligned-buffer/src/unique.rs: indexing, `buf[i]` and `buf[i] = value`, through the slice of
-- the contents.
use rkyv_utils.Prelude.{
  ℕ, ◌≤◌, ◌<◌, ◌≡◌, refl, ap, subst, List, [], ◌∷◌, arith, length, take, length-take, get_elem?,
  set, length-set, ltb, lt→ltb, ge→ltb,
}
use native.Mathlib.Decide.{dec_lt}
use rkyv_utils.Memory.{Target, World, ptr_add, Cmd, ◌>>=◌, ◌>>◌, assert, or_panic, write_bytes}
use rkyv_utils.Memory.Bytes.{load_list-set}
use rkyv_utils.Memory.Ends
use rkyv_utils.Memory.Ends.{Ends, ends, panics}
use rkyv_utils.BufferLayout.{buffer_offset}
use rkyv_utils.BufferLayout.Fits.{IsTarget}
use rkyv_utils.Alloc.{BufferAllocator}
use rkyv_utils.Raw.Holds.{Holds, unallocated, allocated}
use rkyv_utils.Unique.{Unique, as_slice, as_ptr}
use rkyv_utils.Unique.Append.{Becomes}
use rkyv_utils.Unique.Contents.{
  Contains, written, write_bytes-written, written-Owns, as_slice-Contains,
}

module _ {S : Type 0} (t : Target) (a : BufferAllocator S) where
  -- `buf[i]`
  unfoldable pub index : Unique → ℕ → Cmd S ℕ
  index u i = do xs ← as_slice t a u; or_panic (get_elem? xs i)

  -- `buf[i] = value`
  unfoldable pub index_mut : Unique → (i value : ℕ) → Cmd S (Unit {0})
  index_mut u i value = do
    xs ← as_slice t a u
    assert (ltb i (length xs))
    write_bytes t (ptr_add (as_ptr u) i) (value ∷ [])

module _ {S : Type 0} {t : Target} (v : IsTarget t) (a : BufferAllocator S) where
  write_within :
      (w : World S) (u : Unique) (xs : List ℕ) (i x : ℕ) (c : Contains t w u xs)
      → i < length xs
      → Ends
          (λ _ w'. Becomes t w u (set xs i x) u w')
          ⊥
          ⊥
          (write_bytes t (ptr_add u.buf.buf i) (x ∷ []) w)
  write_within w u xs i x c room = within c.holds
    where
      within :
          Holds t w u.buf c.cap xs
          → Ends
              (λ _ w'. Becomes t w u (set xs i x) u w')
              ⊥
              ⊥
              (write_bytes t (ptr_add u.buf.buf i) (x ∷ []) w)
      within (unallocated e z n) = absurd (omega (arith, ap length n))
      within (allocated blk o enough bytes) =
          let front : length (take i xs) ≡ i = omega (arith, length-take i xs) in
          subst
            (λ (k : ℕ).
              Ends (λ _ w'. Becomes t w u (set xs i x) u w') ⊥ ⊥
                (write_bytes t (ptr_add u.buf.buf k) (x ∷ []) w))
            front
            (Ends.ends_of_eq
              (write_bytes-written v w u.buf c.cap blk (take i xs) x [] o (omega arith))
              (
                record {
                  cap = c.cap;
                  holds =
                      allocated (written t blk (take i xs) (x ∷ []))
                        (written-Owns v w u.buf c.cap blk (take i xs) (x ∷ []) o)
                        (omega (arith, length-set xs i x))
                        (rw front (load_list-set blk.bytes (buffer_offset t) i x xs bytes room));
                  len = omega (arith, c.len, length-set xs i x);
                },
                λ p b real other there. (ground (arith, other), other),
              ))

  -- A byte is replaced by an index within the length, and the rest of the memory is as it was;
  -- an index out of bounds is a panic, and only that.
  pub index_mut-Becomes :
      (w : World S) (u : Unique) (xs : List ℕ) (i x : ℕ)
      → Contains t w u xs
      → Ends
          (λ _ w'. Becomes t w u (set xs i x) u w' × (i < length xs))
          (length xs ≤ i)
          ⊥
          (index_mut t a u i x w)
  unfolding index_mut as_ptr
  index_mut-Becomes w u xs i x c =
      rw (as_slice-Contains v a w u xs c) (elim (dec_lt i (length xs)) [
        | yes inside ↦
            rw (lt→ltb _ _ inside)
              (Ends.weaken (write_within w u xs i x c inside) (λ r w' b. (b, inside)) absurd absurd)
        | no outside ↦ rw (ge→ltb i (length xs) (omega arith)) (panics (omega arith))
      ])

  -- What is read at an index within the length is the byte there.
  pub index-Contains :
      (w : World S) (u : Unique) (xs : List ℕ) (i : ℕ)
      → Contains t w u xs
      → index t a u i w ≡ or_panic (get_elem? xs i) w
  unfolding index
  index-Contains w u xs i c = rw (as_slice-Contains v a w u xs c) refl
