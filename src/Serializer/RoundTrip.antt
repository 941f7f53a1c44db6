-- ===== src/Serializer/RoundTrip.antt =====
-- What `push_alloc` hands out, given to `pop_alloc`.
use rkyv_utils.Prelude.{
  ℕ, ◌+◌, ◌<◌, ◌≡◌, refl, ap, ◌∙◌, subst, ok, List, ◌++◌, length, length-append, length-replicate,
  replicate, take, take-append, take-replicate, true, leb, le→leb, usize_mod, arith,
}
use rkyv_utils.Layout.{Layout, IsLayout}
use rkyv_utils.Memory.{Target, World, address, ◌>>=◌}
use rkyv_utils.Memory.Ends
use rkyv_utils.Memory.Ends.{Ends, ends}
use rkyv_utils.BufferLayout.Fits.{IsTarget, Fits}
use rkyv_utils.Alloc.{BufferAllocator}
use rkyv_utils.Alloc.Contract.{IsAllocator}
use rkyv_utils.Unique.{Unique, truncate}
use rkyv_utils.Unique.Contents.{Contains}
use rkyv_utils.Unique.Append.{doubled, Becomes}
use rkyv_utils.Unique.Resize.{truncate-Contains}
use rkyv_utils.Serializer.{push_alloc, pop_alloc}
use rkyv_utils.Serializer.Push.{padding, padding-lt, push_alloc-Pushed}
use rkyv_utils.Serializer.Scratch.{pop_alloc-Contains}

module _ {S : Type 0} {t : Target} (v : IsTarget t) (a : BufferAllocator S) {X : Type 0}
    (law : IsAllocator t a.allocator X) where
  -- What push_alloc hands out is accepted by pop_alloc, and the scratch then has what it had
  -- before, followed by the zeroes that filled up to the alignment; for a positive size and
  -- addresses below 2^64. It panics only where twice the bytes needed fit no layout, and aborts
  -- only where memory is exhausted.
  pub push_alloc-pop_alloc :
      (w : World S) (u : Unique) (xs : List ℕ) (l : Layout)
      → Contains t w u xs
      → IsLayout l
      → 0 < l.size
      → address u.buf.buf + length xs < usize_mod
      → let pad = padding (address u.buf.buf + length xs) l in
        Ends
          (λ (u', r) w'. (r ≡ ok tt) × Becomes t w u (xs ++ replicate pad 0) u' w')
          (¬ Fits t (doubled (length xs + (pad + l.size))))
          X
          ((push_alloc t a u l >>= λ (u', s). pop_alloc t a u' s.start l) w)
  unfolding truncate
  push_alloc-pop_alloc w u xs l c h some_size below =
      let pad : ℕ = padding (address u.buf.buf + length xs) l in
      let zeroes : List ℕ = replicate (pad + l.size) 0 in
      let small : pad < l.align = padding-lt _ l h in
      let many : length zeroes ≡ pad + l.size = length-replicate (pad + l.size) 0 in
      let total : length (xs ++ zeroes) ≡ length xs + (pad + l.size) =
        omega (arith, many, length-append xs zeroes) in
      let within : leb (length xs + pad + l.size) (length (xs ++ zeroes)) ≡ true =
        le→leb _ _ (omega arith) in
      let kept : take (length xs + pad) (xs ++ zeroes) ≡ xs ++ replicate pad 0 =
        take-append xs zeroes pad ∙ ap (λ (zs : List ℕ). xs ++ zs) (take-replicate pad l.size 0) in
      Ends.chain (push_alloc-Pushed v a law w u xs l c h below) λ r w1 ((c1, frame), e).
        rw
          (
            e,
            pop_alloc-Contains v a w1 r.0 (xs ++ zeroes) (length xs + pad) l c1 (omega arith)
                (omega (arith, h.fits)),
            within,
          )
          (ends (
            refl,
            (
              subst (Contains t w1 (truncate r.0 (length xs + pad))) kept
                  (truncate-Contains v a w1 r.0 (xs ++ zeroes) (length xs + pad) c1),
              frame,
            ),
          ))
