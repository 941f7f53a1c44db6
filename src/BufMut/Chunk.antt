-- ===== src/BufMut/Chunk.antt =====
-- The room behind the contents, and a run of one byte.
use rkyv_utils.Prelude.{
  ℕ, ◌+◌, ◌-◌, ◌≤◌, ◌<◌, ◌≡◌, ap, true, List, ◌++◌, length, length-append, length-replicate,
  replicate, arith, Bool-cases, inl, inr, ◌==◌, leb, le→leb, usize_mod,
}
use rkyv_utils.Memory.{Target, World, ptr_add, done, pure, ◌>>=◌, sub_usize, add_usize}
use rkyv_utils.Memory.Ends
use rkyv_utils.Memory.Ends.{Ends, ends}
use rkyv_utils.BufferLayout.Fits.{IsTarget, Fits}
use rkyv_utils.Alloc.{BufferAllocator, Slice}
use rkyv_utils.Alloc.Contract.{IsAllocator}
use rkyv_utils.Raw.Holds.{Frame-refl, Frame-trans}
use rkyv_utils.Unique
use rkyv_utils.Unique.{Unique, as_ptr, capacity}
use rkyv_utils.Unique.Contents.{Contains, capacity-Contains, write_bytes-Holds}
use rkyv_utils.Unique.Append.{doubled, Becomes, add_usize-plain, reserve-Becomes}
use rkyv_utils.BufMut.{advance_mut, chunk_mut, put_bytes}

module _ {S : Type 0} {t : Target} (v : IsTarget t) (a : BufferAllocator S) {X : Type 0}
    (law : IsAllocator t a.allocator X) where
  free :
      (w : World S) (u : Unique) (xs : List ℕ)
      → Contains t w u xs
      → sub_usize t (capacity u) u.len w ≡ done (capacity u - length xs) w
  free w u xs c = let bounds = capacity-Contains v w u xs c in ground (arith, c.len, bounds.0)

  -- What `chunk_mut` hands out.
  abbrev pub Chunk : World S → Unique → List ℕ → Unique × Slice → World S → Type 0
  Chunk w u xs (u', s) w' =
      Becomes t w u xs u' w'
      × (s ≡ record { start = ptr_add (as_ptr u') (length xs); len = capacity u' - length xs })
      × (0 < s.len)

  room_after :
      (w : World S) (u : Unique) (w' : World S) (u' : Unique) (xs : List ℕ)
      → Becomes t w u xs u' w'
      → length xs < capacity u'
      → Ends (Chunk w u xs) ⊥ ⊥ (
          (do
            len ← sub_usize t (capacity u') u'.len
            pure (u', record { start = ptr_add (as_ptr u') u'.len; len = len }))
            w')
  room_after w u w' u' xs (c, frame) room = rw (free w' u' xs c) (
      ends (
        (c, frame),
        ap (λ (n : ℕ). record { start = ptr_add (as_ptr u') n; len = capacity u' - length xs })
            c.len,
        omega arith,
      ))

  -- `chunk_mut` hands out all the room behind the contents, which is never empty, and keeps the
  -- bytes. It panics only where twice the length with 64 more bytes fits no layout, and aborts
  -- only where memory is exhausted.
  pub chunk_mut-Chunk :
      (w : World S) (u : Unique) (xs : List ℕ)
      → Contains t w u xs
      → Ends (Chunk w u xs) (¬ Fits t (doubled (length xs + 64))) X (chunk_mut t a u w)
  unfolding chunk_mut
  chunk_mut-Chunk w u xs c =
      let bounds = capacity-Contains v w u xs c in
      elim (Bool-cases (capacity u == u.len)) [
        | inl full ↦ rw full (
            Ends.chain (reserve-Becomes v a law w u xs 64 c) λ u' w' (b, enough).
              Ends.weaken (room_after w u w' u' xs b (omega arith)) (λ r w'' h. h) absurd absurd)
        | inr some_room ↦
            let room : length xs < capacity u =
              ground (arith, some_room, c.len, bounds.2, bounds.0) in
            rw some_room (
              Ends.weaken (room_after w u w u xs (c, Frame-refl w u.buf) room) (λ r w'' h. h) absurd
                absurd)
      ]

  -- `advance_mut` after the bytes are written.
  pub advance_mut-Holds :
      (w : World S) (u : Unique) (n m : ℕ)
      → u.len ≡ n
      → n + m ≤ capacity u
      → n + m < usize_mod
      → advance_mut t a u m w ≡ done (record u { len = n + m }) w
  unfolding advance_mut Unique.set_len
  advance_mut-Holds w u n m len room small =
      let fits : leb (n + m) (capacity u) ≡ true = le→leb _ _ room in
      let sum : add_usize t u.len m w ≡ done (n + m) w = rw len (add_usize-plain v a n m w small) in
      ground (arith, sum, fits)

  pub put_bytes-Becomes :
      (w : World S) (u : Unique) (xs : List ℕ) (value n : ℕ)
      → Contains t w u xs
      → Ends
          (Becomes t w u (xs ++ replicate n value))
          (¬ Fits t (doubled (length xs + n)))
          X
          (put_bytes t a u value n w)
  unfolding put_bytes as_ptr
  put_bytes-Becomes w u xs value n c =
      Ends.chain (reserve-Becomes v a law w u xs n c) λ u1 w1 ((c1, f1), enough).
        let bounds = capacity-Contains v w1 u1 xs c1 in
        let ys : List ℕ = replicate n value in
        let written : length ys ≡ n = length-replicate n value in
        let asserted : leb n (capacity u1 - length xs) ≡ true = le→leb _ _ (omega arith) in
        rw (free w1 u1 xs c1, Ends.debug_assert-true t w1 asserted)
          (rw (ptr_at u1 (length xs) c1.len) (
            Ends.chain
              (Ends.weaken
                (write_bytes-Holds v w1 u1.buf c1.cap xs ys c1.holds
                  (omega (arith, written, enough, bounds.0)))
                (λ r w' h. h) absurd absurd)
              λ _ w2 (h2, f2).
                rw (advance_mut-Holds w2 u1 (length xs) n c1.len enough (omega arith)) (
                  ends (
                    record {
                      cap = c1.cap;
                      holds = h2;
                      len = omega (arith, written, length-append xs ys);
                    },
                    Frame-trans w u.buf w1 u1.buf w2 u1.buf f1 f2,
                  ))))
    where
      ptr_at : (u1 : Unique) (n : ℕ) → u1.len ≡ n → ptr_add u1.buf.buf u1.len ≡ ptr_add u1.buf.buf n
      ptr_at u1 n e = ap (ptr_add u1.buf.buf) e
