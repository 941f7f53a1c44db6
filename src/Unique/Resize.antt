-- ===== src/Unique/Resize.antt =====
-- `truncate`, `resize`, and `extend` from an iterator.
use native.Mathlib.Decide.{dec_lt}
use rkyv_utils.Prelude.{
  take-all, length-take, ℕ, zero, suc, ◌+◌, ◌-◌, ◌≤◌, ◌<◌, ◌≡◌, refl, ap, sym, ◌∙◌, List, [], ◌∷◌,
  ◌++◌, append-nil, append_assoc, arith, length, take, length-append, replicate, max, usize_mod,
  true, false, ltb,
}
use rkyv_utils.Memory.{Target, World, done, sub_usize}
use rkyv_utils.Memory.Ends
use rkyv_utils.Memory.Ends.{Ends, ends}
use rkyv_utils.BufferLayout.{buffer_offset}
use rkyv_utils.BufferLayout.Fits.{IsTarget, Fits}
use rkyv_utils.Alloc.{BufferAllocator}
use rkyv_utils.Alloc.Contract.{IsAllocator}
use rkyv_utils.Raw.{Raw}
use rkyv_utils.Raw.Holds.{Holds, unallocated, allocated, Frame-refl, Frame-trans}
use rkyv_utils.Memory.Bytes.{load_list-take}
use rkyv_utils.Unique.Append.{doubled, Becomes, reserve-Becomes, push-Becomes}
use rkyv_utils.Unique.Extend.{extend_with-Becomes, fill_free-Holds}
use rkyv_utils.Unique.{Unique, as_ptr, capacity, extend_with, truncate, resize, push_all, extend}
use rkyv_utils.Unique.Contents.{Contains, capacity-Contains}

module _ {S : Type 0} {t : Target} (v : IsTarget t) (a : BufferAllocator S) where
  take-Holds :
      (w : World S) (b : Raw) (cap : ℕ) (xs : List ℕ) (n : ℕ)
      → Holds t w b cap xs
      → Holds t w b cap (take n xs)
  take-Holds w b cap xs n (unallocated e z none) =
      unallocated e z (ap (λ (ys : List ℕ). take n ys) none ∙ take_nil n)
    where
      take_nil : (m : ℕ) → take {A = ℕ} m [] ≡ []
      take_nil zero = refl
      take_nil (suc m) = refl
  take-Holds w b cap xs n (allocated blk o room bytes) =
      allocated blk o (omega (arith, length-take n xs))
        (load_list-take blk.bytes (buffer_offset t) n xs bytes)

  -- `truncate` keeps the bytes in front.
  pub truncate-Contains :
      (w : World S) (u : Unique) (xs : List ℕ) (n : ℕ)
      → Contains t w u xs
      → Contains t w (truncate u n) (take n xs)
  unfolding truncate
  truncate-Contains w u xs n c = record {
    cap = c.cap;
    holds = take-Holds w u.buf c.cap xs n c.holds;
    len = omega (arith, c.len, length-take n xs);
  }

  module _ {X : Type 0} (law : IsAllocator t a.allocator X) (w : World S) where
    resize-longer :
        (u : Unique) (xs : List ℕ) (new_len value : ℕ)
        → Contains t w u xs
        → new_len < usize_mod
        → length xs < new_len
        → resize t a u new_len value w ≡ extend_with t a u (new_len - length xs) value w
    unfolding resize
    resize-longer u xs new_len value c machine longer =
        let test : ltb u.len new_len ≡ true = ground (arith, c.len) in
        let step : sub_usize t new_len u.len w ≡ done (new_len - length xs) w =
          ground (arith, c.len) in
        rw (test, step) refl

    resize-shorter :
        (u : Unique) (xs : List ℕ) (new_len value : ℕ)
        → Contains t w u xs
        → new_len ≤ length xs
        → resize t a u new_len value w ≡ done (truncate u new_len) w
    unfolding resize
    resize-shorter u xs new_len value c shorter =
        let test : ltb u.len new_len ≡ false = ground (arith, c.len) in rw test refl

    -- `resize` keeps the bytes in front and fills up with the value, for a new length below 2^64.
    -- It panics only where twice the new length fits no layout, and aborts only where memory is
    -- exhausted.
    pub resize-Becomes :
        (u : Unique) (xs : List ℕ) (new_len value : ℕ)
        → Contains t w u xs
        → new_len < usize_mod
        → Ends
            (Becomes t w u (take new_len xs ++ replicate (new_len - length xs) value))
            (¬ Fits t (doubled new_len))
            X
            (resize t a u new_len value w)
    unfolding truncate
    resize-Becomes u xs new_len value c machine =
        let bounds = capacity-Contains v w u xs c in
        elim (dec_lt (length xs) new_len) [
          | yes longer ↦
              let e : length xs + (new_len - length xs) ≡ new_len = omega arith in
              rw
                (
                  resize-longer u xs new_len value c machine longer,
                  take-all new_len xs (omega arith),
                )
                (Ends.weaken (extend_with-Becomes v a law w u xs (new_len - length xs) value c)
                  (λ r w' h. h) (λ no fits. no (omega arith)) (λ x. x))
          | no shorter ↦
              let none_left : new_len - length xs ≡ 0 = omega arith in
              let kept = truncate-Contains w u xs new_len c in
              rw
                (
                  resize-shorter u xs new_len value c (omega arith),
                  none_left,
                  append-nil (take new_len xs),
                )
                (ends (kept, Frame-refl w u.buf))
        ]

    -- The loop of `push`.
    push_all-Becomes :
        (iter : List ℕ) (u : Unique) (xs : List ℕ) (w' : World S)
        → Contains t w' u xs
        → Ends
            (Becomes t w' u (xs ++ iter))
            (¬ Fits t (doubled (length xs + length iter)))
            X
            (push_all t a u iter w')
    unfolding push_all
    push_all-Becomes [] u xs w' c = rw (append-nil xs) (ends (c, Frame-refl w' u.buf))
    push_all-Becomes (byte ∷ iter) u xs w' c =
        Ends.chain
          (Ends.weaken (push-Becomes v a law w' u xs byte c) (λ r w'' h. h)
            (λ no fits. no (omega arith)) (λ x. x))
          λ u1 w1 (c1, f1).
            Ends.weaken (push_all-Becomes iter u1 (xs ++ byte ∷ []) w1 c1)
              (λ u2 w2 (c2, f2). (
                (rw (append_assoc xs (byte ∷ []) iter) at c2),
                Frame-trans w' u.buf w1 u1.buf w2 u2.buf f1 f2,
              ))
              (λ no fits. no (omega (arith, length-append xs (byte ∷ [])))) (λ x. x)

    -- `extend` adds every byte of an iterator, whether or not its lower bound is right. It panics
    -- only where twice the bytes needed, or promised, fit no layout, and aborts only where memory
    -- is exhausted.
    pub extend-Becomes :
        (u : Unique) (xs : List ℕ) (lower : ℕ) (iter : List ℕ)
        → Contains t w u xs
        → Ends
            (Becomes t w u (xs ++ iter))
            (¬ Fits t (doubled (length xs + max lower (length iter))))
            X
            (extend t a u lower iter w)
    unfolding extend as_ptr
    extend-Becomes u xs lower iter c =
        Ends.chain
          (Ends.weaken (reserve-Becomes v a law w u xs lower c) (λ r w' h. h)
            (λ no fits. no (omega arith)) (λ x. x))
          λ u1 w1 ((c1, f1), enough).
            let bounds = capacity-Contains v w1 u1 xs c1 in
            let step : sub_usize t (capacity u1) u1.len w1 ≡ done (c1.cap - length xs) w1 =
              ground (arith, c1.len, bounds.0) in
            rw step (
              rw c1.len (
                Ends.chain
                  (Ends.weaken
                    (fill_free-Holds v a (c1.cap - length xs) u1.buf c1.cap xs iter w1 c1.holds
                      (omega arith) bounds.1)
                    (λ r w2 h. h) absurd absurd)
                  λ r w2 (ys, all, len, h2, f2).
                    let total : length (xs ++ ys) + length r.1 ≡ length xs + length iter =
                      omega (arith, length-append xs ys, length-append ys r.1, ap length all) in
                    Ends.weaken
                      (push_all-Becomes r.1 (record { buf = u1.buf; len = r.0 }) (xs ++ ys) w2
                        (record { cap = c1.cap; holds = h2; len = len }))
                      (λ u3 w3 (c3, f3). (
                        (rw (append_assoc xs ys r.1, sym all) at c3),
                        Frame-trans w u.buf w2 u1.buf w3 u3.buf
                            (Frame-trans w u.buf w1 u1.buf w2 u1.buf f1 f2) f3,
                      ))
                      (λ no fits. no (omega arith)) (λ x. x)))
