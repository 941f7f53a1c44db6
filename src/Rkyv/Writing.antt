-- ===== src/Rkyv/Writing.antt =====
-- Writing into a unique buffer, and archiving buffers.
use rkyv_utils.Prelude.{
  ℕ, ◌+◌, ◌≡◌, ◌%◌, refl, sym, ap, ◌∙◌, Result, ok, err, List, ◌++◌, length, length-append, ◌⊎◌,
  inl, inr, arith,
}
use rkyv_utils.Memory.{Target, World, Block, Cmd, done}
use rkyv_utils.Memory.Ends
use rkyv_utils.Memory.Ends.{Ends, ends}
use rkyv_utils.BufferLayout.Fits.{IsTarget, Fits}
use rkyv_utils.Alloc.{BufferAllocator}
use rkyv_utils.Alloc.Contract.{IsAllocator}
use rkyv_utils.Unique.{Unique, extend_from_slice}
use rkyv_utils.Unique.Contents.{Contains, as_slice-Contains}
use rkyv_utils.Unique.Append.{doubled, Becomes, append-Becomes}
use rkyv_utils.Shared.{Shared}
use rkyv_utils.Shared.Handles.{Shares, as_slice-Shares}
use rkyv_utils.Rkyv.{Writer, IsWriter, end, behind, serialize_shared, serialize_unique, pos, write}

module _ {W E : Type 0} (out : Writer W E) (laws : IsWriter out) where
  -- What a buffer with the bytes `xs` leaves in the writer.
  abbrev pub Archived : Target → W → List ℕ → W × Result ℕ E → Type 0
  Archived t s xs (s', ok at) =
      (pad : List ℕ) × (laws.written s' ≡ (laws.written s ++ pad) ++ xs)
      × (at ≡ length (laws.written s ++ pad))
      × (at % t.alignment ≡ 0)
  Archived t s xs (s', err e) =
      ((out.align s t.alignment).1 ≡ err e) ⊎ ((out.write (out.align s t.alignment).0 xs).1 ≡ err e)

  module _ {S : Type 0} (t : Target) (w : World S) (s : W) (xs : List ℕ) where
    ended :
        (s1 s2 : W) (r : Result (Unit {0}) E)
        → out.align s t.alignment ≡ (s1, ok tt)
        → out.write s1 xs ≡ (s2, r)
        → Archived t s xs (end out (out.pos s1) (s2, r))
    unfolding end
    ended s1 s2 (err e) first second = inr (rw first (ap (λ p. p.1) second))
    ended s1 s2 (ok tt) first second =
        let (pad, grown, whole) = laws.align_lem s t.alignment (ap (λ p. p.1) first) in
        let moved : laws.written s1 ≡ laws.written s ++ pad =
          ap (λ p. laws.written p.0) (sym first) ∙ grown in
        let position = laws.pos_lem s1 ∙ ap length moved in
        (
          pad,
          ap (λ p. laws.written p.0) (sym second)
              ∙ laws.write_lem s1 xs (ap (λ p. p.1) second)
              ∙ ap (λ (ys : List ℕ). ys ++ xs) moved,
          position,
          ap (λ (k : ℕ). k % t.alignment) position ∙ whole,
        )

    put_behind :
        (read : Cmd S (List ℕ)) (p : W × Result (Unit {0}) E)
        → read w ≡ done xs w
        → out.align s t.alignment ≡ p
        → Ends (λ r w'. Archived t s xs r × (w' ≡ w)) ⊥ ⊥ (behind out read p w)
    unfolding behind
    put_behind read (s1, err e) reads first = ends (inl (ap (λ p. p.1) first), refl)
    put_behind read (s1, ok tt) reads first =
        rw reads (ends (ended s1 (out.write s1 xs).0 (out.write s1 xs).1 first refl, refl))

  -- A shared buffer with an allocation is archived behind what was written, at a position that is
  -- a multiple of ALIGNMENT and is the one that is returned, or the error of the writer is passed
  -- on. Memory does not change.
  pub serialize_shared-Archived :
      {S : Type 0} {t : Target} (v : IsTarget t) (a : BufferAllocator S) (w : World S)
      (buffer : Shared) (cap : ℕ) (blk : Block) (xs : List ℕ) (n : ℕ) (s : W)
      → Shares t w buffer cap blk xs n
      → Ends (λ r w'. Archived t s xs r × (w' ≡ w)) ⊥ ⊥ (serialize_shared out t a buffer s w)
  unfolding serialize_shared
  serialize_shared-Archived {S} {t} v a w buffer cap blk xs n s h =
      put_behind t w s xs _ (out.align s t.alignment) (as_slice-Shares v a w buffer cap blk xs n h)
        refl

  pub serialize_unique-Archived :
      {S : Type 0} {t : Target} (v : IsTarget t) (a : BufferAllocator S) (w : World S)
      (buffer : Unique) (xs : List ℕ) (s : W)
      → Contains t w buffer xs
      → Ends (λ r w'. Archived t s xs r × (w' ≡ w)) ⊥ ⊥ (serialize_unique out t a buffer s w)
  unfolding serialize_unique
  serialize_unique-Archived {S} {t} v a w buffer xs s c =
      put_behind t w s xs _ (out.align s t.alignment) (as_slice-Contains v a w buffer xs c) refl

-- A unique buffer is a writer: a write adds the bytes at its position, and never returns an error.
pub write-Becomes :
    {S : Type 0} {t : Target} (v : IsTarget t) (a : BufferAllocator S) {X E : Type 0}
    (law : IsAllocator t a.allocator X) (w : World S) (u : Unique) (xs ys : List ℕ)
    → Contains t w u xs
    → Ends
        (λ (u', r) w'. Becomes t w u (xs ++ ys) u' w' × (r ≡ ok tt) × (pos u' ≡ pos u + length ys))
        (¬ Fits t (doubled (length xs + length ys)))
        X
        (write t a {E = E} u ys w)
unfolding write pos extend_from_slice
write-Becomes v a law w u xs ys c =
    Ends.chain (append-Becomes v a law w u xs ys c) λ u' w' (c', frame).
      ends ((c', frame), refl, omega (arith, c.len, c'.len, length-append xs ys))
