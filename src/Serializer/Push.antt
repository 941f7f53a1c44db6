-- ===== src/Serializer/Push.antt =====
-- What the scratch allocator hands out.
use native.Mathlib.Nat.{mod-lt}
use rkyv_utils.Prelude.{
  ℕ, zero, suc, ◌+◌, ◌%◌, ◌≤◌, ◌<◌, ◌≡◌, refl, sym, true, List, ◌++◌, length, length-append,
  length-replicate, replicate, take, drop, take-all, drop-append, drop-replicate, arith, usize_mod,
  wrapping_sub, leb, le→leb, two_pow_bounds,
}
use rkyv_utils.TaggedCap.{value}
use rkyv_utils.Layout.{Layout, IsLayout}
use rkyv_utils.Memory.{Target, World, ptr_add, done, address, add_usize, ◌>>=◌}
use rkyv_utils.Memory.Ends
use rkyv_utils.Memory.Ends.{Ends, ends}
use rkyv_utils.BufferLayout.Fits.{IsTarget, Fits}
use rkyv_utils.Alloc.{BufferAllocator, Slice}
use rkyv_utils.Alloc.Contract.{IsAllocator}
use rkyv_utils.Raw.Holds.{Frame-trans}
use rkyv_utils.Unique
use rkyv_utils.Unique.{Unique, as_ptr, capacity}
use rkyv_utils.Unique.Contents.{Contains, capacity-Contains, write_bytes-Holds, read_bytes-part}
use rkyv_utils.Unique.Append.{doubled, Becomes, add_usize-plain, reserve-Becomes}
use rkyv_utils.Serializer.{all_zero, handed_out, push_alloc}

all_zero-replicate : (n : ℕ) → all_zero (replicate n 0) ≡ true
all_zero-replicate zero = refl
all_zero-replicate (suc n) = ground (arith, all_zero-replicate n)

-- The end of the zeroes that are written behind the contents.
zero_part :
    (xs : List ℕ) (n m : ℕ)
    → take m (drop (length xs + n) (xs ++ replicate (n + m) 0)) ≡ replicate m 0
zero_part xs n m =
    let zeroes : ℕ → List ℕ = λ k. replicate k 0 in
    let len : length (zeroes m) ≡ m = length-replicate m 0 in
    let rest : drop n (zeroes (n + m)) ≡ zeroes m = drop-replicate n m 0 in
    rw (drop-append n xs (zeroes (n + m)), rest) (take-all m (zeroes m) (omega (arith, len)))

-- The padding for an address, as `push_alloc` computes it.
abbrev pub padding : ℕ → Layout → ℕ
padding offset l = wrapping_sub 0 offset % l.align

pub padding-lt : (offset : ℕ) (l : Layout) → IsLayout l → padding offset l < l.align
padding-lt offset l h =
    let positive : 0 < l.align = omega (arith, h.power, (two_pow_bounds h.exponent h.small).0) in
    mod-lt (wrapping_sub 0 offset) positive

module _ {S : Type 0} {t : Target} (v : IsTarget t) (a : BufferAllocator S) {X : Type 0}
    (law : IsAllocator t a.allocator X) where
  -- What `push_alloc` hands out: zeroes behind the contents, after the padding that the pointer
  -- asked for before the scratch made room.
  abbrev pub Pushed : World S → Unique → List ℕ → Layout → Unique × Slice → World S → Type 0
  Pushed w u xs l (u', s) w' =
      let pad = padding (address u.buf.buf + length xs) l in
      Becomes t w u (xs ++ replicate (pad + l.size) 0) u' w'
      × (s ≡ record { start = ptr_add (as_ptr u') (length xs + pad); len = l.size })

  finish :
      (w : World S) (u : Unique) (xs : List ℕ) (pad : ℕ) (l : Layout) (c : Contains t w u xs)
      → length xs + (pad + l.size) ≤ c.cap
      → Ends
          (λ r w'.
            Becomes t w u (xs ++ replicate (pad + l.size) 0) r.0 w'
            × (r.1 ≡ record { start = ptr_add (as_ptr r.0) (length xs + pad); len = l.size }))
          ⊥
          ⊥
          (handed_out t a u pad (pad + l.size) l w)
  unfolding handed_out Unique.set_len as_ptr capacity
  finish w u xs pad l c room =
      let bounds = capacity-Contains v w u xs c in
      let n : ℕ = pad + l.size in
      let written : length (replicate {A = ℕ} n 0) ≡ n = length-replicate n 0 in
      rw c.len (
        Ends.chain
          (write_bytes-Holds v w u.buf c.cap xs (replicate n 0) c.holds
            (omega (arith, written, room)))
          λ _ w1 (h1, f1).
            let total : length (xs ++ replicate n 0) ≡ length xs + n =
              omega (arith, written, length-append xs (replicate n 0)) in
            let fits : leb (length xs + n) (value u.buf.cap_or_len) ≡ true =
              le→leb _ _ (omega (arith, bounds.0)) in
            let part =
              read_bytes-part v w1 u.buf c.cap (length xs + pad) l.size (xs ++ replicate n 0) h1
                (omega arith) in
            rw
              (
                add_usize-plain v a (length xs) pad w1 (omega arith),
                add_usize-plain v a (length xs) n w1 (omega arith),
                Ends.debug_assert-true t w1 fits,
                part,
                zero_part xs pad l.size,
                Ends.debug_assert-true t w1 (all_zero-replicate l.size),
              )
              (ends ((record { cap = c.cap; holds = h1; len = sym total }, f1), refl)))

  -- The padding and the room that `push_alloc` computes.
  push_alloc-steps :
      (w : World S) (u : Unique) (n : ℕ) (l : Layout)
      → u.len ≡ n
      → IsLayout l
      → address u.buf.buf + n < usize_mod
      → let pad = padding (address u.buf.buf + n) l in
        push_alloc t a u l w
        ≡ (do u' ← Unique.reserve t a u (pad + l.size); handed_out t a u' pad (pad + l.size) l) w
  unfolding push_alloc as_ptr
  push_alloc-steps w u n l len h below =
      let pad : ℕ = padding (address u.buf.buf + n) l in
      let small : pad < l.align = padding-lt _ l h in
      let small' : pad + l.size < usize_mod = omega (arith, h.fits, small) in
      let offset : add_usize t (address u.buf.buf) u.len w ≡ done (address u.buf.buf + n) w =
        rw len (add_usize-plain v a (address u.buf.buf) n w below) in
      rw (offset, add_usize-plain v a pad l.size w small') refl

  -- `push_alloc` writes zeroes behind the contents of the scratch, as many as the padding and the
  -- layout need, hands out the last of them, and leaves every other block as it was; for addresses
  -- below 2^64. It panics only where twice the bytes needed fit no layout, and aborts only where
  -- memory is exhausted.
  pub push_alloc-Pushed :
      (w : World S) (u : Unique) (xs : List ℕ) (l : Layout)
      → Contains t w u xs
      → IsLayout l
      → address u.buf.buf + length xs < usize_mod
      → Ends
          (Pushed w u xs l)
          (¬ Fits t (doubled (length xs + (padding (address u.buf.buf + length xs) l + l.size))))
          X
          (push_alloc t a u l w)
  push_alloc-Pushed w u xs l c h below =
      let pad : ℕ = padding (address u.buf.buf + length xs) l in
      rw (push_alloc-steps w u (length xs) l c.len h below) (
        Ends.chain (reserve-Becomes v a law w u xs (pad + l.size) c) λ u' w' ((c', frame), enough).
          Ends.weaken (finish w' u' xs pad l c' (room w' u' xs (pad + l.size) c' enough))
            (λ r w'' ((c'', frame'), e).
              ((c'', Frame-trans w u.buf w' u'.buf w'' r.0.buf frame frame'), e))
            absurd absurd)
    where
      room :
          (w' : World S) (u' : Unique) (xs : List ℕ) (n : ℕ) (c' : Contains t w' u' xs)
          → length xs + n ≤ capacity u'
          → length xs + n ≤ c'.cap
      room w' u' xs n c' enough = let bounds = capacity-Contains v w' u' xs c' in omega arith
