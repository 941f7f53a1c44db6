-- ===== src/BufMut/Put.antt =====
-- The loop of `put`.
use rkyv_utils.Prelude.{
  ℕ, zero, suc, ◌+◌, ◌≤◌, ◌<◌, ◌≡◌, refl, ap, sym, subst, ◌∙◌, false, Option, none, some, List, [],
  ◌∷◌, ◌++◌, append-nil, append_assoc, length, length-append, arith, Bool-cases, inl, inr, ltb,
}
use rkyv_utils.Memory.{Target, World}
use rkyv_utils.Memory.Ends
use rkyv_utils.Memory.Ends.{Ends, ends}
use rkyv_utils.BufferLayout.Fits.{IsTarget, Fits}
use rkyv_utils.Alloc.{BufferAllocator}
use rkyv_utils.Alloc.Contract.{IsAllocator}
use rkyv_utils.Raw.Holds.{Frame, Frame-refl, Frame-trans}
use rkyv_utils.Unique.{Unique, extend_from_slice}
use rkyv_utils.Unique.Contents.{Contains}
use rkyv_utils.Unique.Append.{doubled, Becomes, append-Becomes}
use rkyv_utils.BufMut.{Buf, IsBuf, put}

module _ {S : Type 0} {t : Target} (v : IsTarget t) (a : BufferAllocator S) {X : Type 0}
    (law : IsAllocator t a.allocator X) {B : Type 0} (buf : Buf B) (laws : IsBuf buf) where
  smaller : (n m : ℕ) → n ≤ m → ¬ Fits t (doubled n) → ¬ Fits t (doubled m)
  smaller n m h refused fits = refused (omega arith)

  -- What `put` leaves.
  abbrev pub Put : World S → Unique → List ℕ → Option Unique → World S → Type 0
  Put w u xs none w' = ⊥
  Put w u xs (some u') w' = Becomes t w u xs u' w'

  no_bytes : (xs : List ℕ) → length xs ≡ 0 → xs ≡ []
  no_bytes [] e = refl
  no_bytes (x ∷ xs) e = absurd (omega (arith, e))

  done_here :
      (w : World S) (u : Unique) (xs : List ℕ) (src : B)
      → Contains t w u xs
      → buf.remaining src ≡ 0
      → Becomes t w u (xs ++ laws.rest src) u w
  done_here w u xs src c e = (
    subst (λ ys. Contains t w u (xs ++ ys))
        (sym (no_bytes (laws.rest src) (laws.remaining_lem src ∙ e)))
        (subst (Contains t w u) (sym (append-nil xs)) c),
    Frame-refl w u.buf,
  )

  later :
      (w : World S) (u : Unique) (xs s : List ℕ) (src next : B) (w1 : World S) (u1 : Unique)
      → laws.rest src ≡ s ++ laws.rest next
      → Frame w u.buf w1 u1.buf
      → (r : Option Unique) (w2 : World S) → Put w1 u1 ((xs ++ s) ++ laws.rest next) r w2
      → Put w u (xs ++ laws.rest src) r w2
  later w u xs s src next w1 u1 split f1 none w2 p = p
  later w u xs s src next w1 u1 split f1 (some u2) w2 (c2, f2) = (
    subst (Contains t w2 u2)
        (append_assoc xs s (laws.rest next) ∙ ap (λ (ys : List ℕ). xs ++ ys) (sym split)) c2,
    Frame-trans w u.buf w1 u1.buf w2 u2.buf f1 f2,
  )

  -- `put` ends after at most as many chunks as there are bytes, and has then added all the bytes
  -- of its source behind the contents. It panics only where twice the bytes needed fit no layout,
  -- and aborts only where memory is exhausted.
  pub put-Becomes :
      (fuel : ℕ) (w : World S) (u : Unique) (xs : List ℕ) (src : B)
      → Contains t w u xs
      → buf.remaining src ≤ fuel
      → Ends
          (Put w u (xs ++ laws.rest src))
          (¬ Fits t (doubled (length xs + buf.remaining src)))
          X
          (put t a buf fuel u src w)
  unfolding put extend_from_slice
  put-Becomes zero w u xs src c enough =
      let test : ltb 0 (buf.remaining src) ≡ false = ground arith in
      rw test (ends (done_here w u xs src c (omega arith)))
  put-Becomes (suc fuel) w u xs src c enough = elim (Bool-cases (ltb 0 (buf.remaining src))) [
    | inr test ↦ rw test (ends (done_here w u xs src c (ground (arith, test))))
    | inl test ↦
        let some_left : 0 < buf.remaining src = ground (arith, test) in
        let s = buf.chunk src in
        let next = buf.advance src (length s) in
        let left = laws.remaining_lem src in
        let left' = laws.remaining_lem next in
        let split = laws.advance_lem src in
        let total : length (laws.rest src) ≡ length s + length (laws.rest next) =
          ap length split ∙ length-append s (laws.rest next) in
        let progress = laws.chunk_lem src some_left in
        rw test (
          Ends.chain
            (Ends.weaken (append-Becomes v a law w u xs s c) (λ r w' h. h)
              (smaller _ _ (omega arith)) (λ x. x))
            λ u1 w1 (c1, f1).
              Ends.weaken (put-Becomes fuel w1 u1 (xs ++ s) next c1 (omega arith))
                (λ r w2 p. later w u xs s src next w1 u1 split f1 r w2 p)
                (smaller _ _ (omega (arith, length-append xs s))) (λ x. x))
  ]
