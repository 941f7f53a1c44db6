-- ===== src/Unique/Extend.antt =====
-- The loops of `extend_with` and `extend`.
use rkyv_utils.Prelude.{
  ℕ, zero, suc, ◌+◌, ◌≤◌, ◌≡◌, refl, ap, sym, subst, ◌∙◌, List, [], ◌∷◌, ◌++◌, append-nil,
  append_assoc, arith, length, length-append, length-replicate, replicate, isize_max,
}
use rkyv_utils.Memory.{Target, World, Ptr, ptr_add}
use rkyv_utils.Memory.Ends
use rkyv_utils.Memory.Ends.{Ends, ends}
use rkyv_utils.BufferLayout.Fits.{IsTarget, Fits}
use rkyv_utils.Alloc.{BufferAllocator}
use rkyv_utils.Alloc.Contract.{IsAllocator}
use rkyv_utils.Raw.{Raw}
use rkyv_utils.Raw.Holds.{Holds, Frame, Frame-refl, Frame-trans}
use rkyv_utils.Unique.Append.{doubled, Becomes, add_usize-plain, reserve-Becomes}
use rkyv_utils.Unique.{Unique, as_ptr, extend_with, fill, fill_free}
use rkyv_utils.Unique.Contents.{Contains, write_bytes-Holds, capacity-Contains}

-- What the loop of `extend` leaves: it wrote a front of the iterator behind the contents.
abbrev pub Filled :
    {S : Type 0} (t : Target) (w : World S) (b : Raw) (cap : ℕ) (xs iter : List ℕ)
    → ℕ × List ℕ
    → World S
    → Type 0
Filled t w b cap xs iter (len, rest) w' =
    (ys : List ℕ) × (iter ≡ ys ++ rest)
    × (len ≡ length (xs ++ ys))
    × Holds t w' b cap (xs ++ ys)
    × Frame w b w' b

module _ {S : Type 0} {t : Target} (v : IsTarget t) (a : BufferAllocator S) where
  -- The loop of `extend_with` writes `n` copies of `value` behind the contents.
  fill-Holds :
      (n : ℕ) (b : Raw) (cap : ℕ) (xs : List ℕ) (value : ℕ) (w' : World S)
      → Holds t w' b cap xs
      → length xs + n ≤ cap
      → Ends
          (λ _ w''. Holds t w'' b cap (xs ++ replicate n value) × Frame w' b w'' b)
          ⊥
          ⊥
          (fill t a n (ptr_add b.buf (length xs)) value w')
  unfolding fill
  fill-Holds zero b cap xs value w' h room = rw (append-nil xs) (ends (h, Frame-refl w' b))
  fill-Holds (suc n) b cap xs value w' h room =
      Ends.chain (write_bytes-Holds v w' b cap xs (value ∷ []) h (omega arith)) λ _ w1 (h1, f1).
        Ends.weaken
          (subst
            (λ (p : Ptr).
              Ends
                (λ _ w''.
                  Holds t w'' b cap ((xs ++ value ∷ []) ++ replicate n value) × Frame w1 b w'' b)
                ⊥ ⊥ (fill t a n p value w1))
            next
            (fill-Holds n b cap (xs ++ value ∷ []) value w1 h1
              (omega (arith, length-append xs (value ∷ [])))))
          (λ _ w2 (h2, f2). (
            rw (append_assoc xs (value ∷ []) (replicate n value)) at h2,
            Frame-trans w' b w1 b w2 b f1 f2,
          ))
          (λ x. x) (λ x. x)
    where
      next : ptr_add b.buf (length (xs ++ value ∷ [])) ≡ ptr_add (ptr_add b.buf (length xs)) 1
      next = ground (arith, length-append xs (value ∷ []))

  -- One byte of `fill_free` at a time: what is written and what is left make up the iterator.
  pub fill_free-Holds :
      (free : ℕ) (b : Raw) (cap : ℕ) (xs iter : List ℕ) (w' : World S)
      → Holds t w' b cap xs
      → length xs + free ≤ cap
      → cap ≤ isize_max
      → Ends
          (Filled t w' b cap xs iter)
          ⊥
          ⊥
          (fill_free t a free (ptr_add b.buf (length xs)) (length xs) iter w')
  unfolding fill_free
  fill_free-Holds zero b cap xs iter w' h room small =
      ends ([], refl, ap length (sym (append-nil xs)), rw (append-nil xs) h, Frame-refl w' b)
  fill_free-Holds (suc n) b cap xs [] w' h room small =
      ends ([], refl, ap length (sym (append-nil xs)), rw (append-nil xs) h, Frame-refl w' b)
  fill_free-Holds (suc n) b cap xs (byte ∷ iter) w' h room small =
      Ends.chain (write_bytes-Holds v w' b cap xs (byte ∷ []) h (omega arith)) λ _ w1 (h1, f1).
        rw (add_usize-plain v a (length xs) 1 w1 (omega arith)) (
          Ends.weaken
            (subst
              (λ ((p, l) : Ptr × ℕ).
                Ends (Filled t w1 b cap (xs ++ byte ∷ []) iter) ⊥ ⊥ (fill_free t a n p l iter w1))
              next
              (fill_free-Holds n b cap (xs ++ byte ∷ []) iter w1 h1
                (omega (arith, length-append xs (byte ∷ []))) small))
            (λ r w2 (ys, e, l, h2, f2). (
              byte ∷ ys,
              ap (λ (zs : List ℕ). byte ∷ zs) e,
              l ∙ ap length (append_assoc xs (byte ∷ []) ys),
              (rw (append_assoc xs (byte ∷ []) ys) at h2),
              Frame-trans w' b w1 b w2 b f1 f2,
            ))
            (λ x. x) (λ x. x))
    where
      next :
          ◌≡◌ {A = Ptr × ℕ}
            (ptr_add b.buf (length (xs ++ byte ∷ [])), length (xs ++ byte ∷ []))
            (ptr_add (ptr_add b.buf (length xs)) 1, length xs + 1)
      next = ground (arith, length-append xs (byte ∷ []))

  module _ {X : Type 0} (law : IsAllocator t a.allocator X) (w : World S) where
    -- `extend_with` adds n copies of a byte behind the contents and leaves every other block as it
    -- was. It panics only where twice the bytes needed fit no layout, and aborts only where memory
    -- is exhausted.
    pub extend_with-Becomes :
        (u : Unique) (xs : List ℕ) (n value : ℕ)
        → Contains t w u xs
        → Ends
            (Becomes t w u (xs ++ replicate n value))
            (¬ Fits t (doubled (length xs + n)))
            X
            (extend_with t a u n value w)
    unfolding extend_with as_ptr
    extend_with-Becomes u xs n value c =
        Ends.chain (reserve-Becomes v a law w u xs n c) λ u' w1 ((c1, f1), enough).
          let bounds = capacity-Contains v w1 u' xs c1 in
          rw c1.len (
            Ends.chain
              (Ends.weaken (fill-Holds n u'.buf c1.cap xs value w1 c1.holds (omega arith))
                (λ r w2 h. h) absurd absurd)
              λ _ w2 (h2, f2). rw (add_usize-plain v a (length xs) n w2 (omega arith)) (
                ends (
                  record {
                    cap = c1.cap;
                    holds = h2;
                    len =
                        omega
                          (arith, length-append xs (replicate n value), length-replicate n value);
                  },
                  Frame-trans w u.buf w1 u'.buf w2 u'.buf f1 f2,
                )))
