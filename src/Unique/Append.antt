-- ===== src/Unique/Append.antt =====
-- Operations that add bytes at the end.
use rkyv_utils.Prelude.{
  ℕ, ◌+◌, ◌*◌, ◌≤◌, ◌<◌, ◌≡◌, refl, ap, sym, List, [], ◌∷◌, ◌++◌, arith, length, length-append, max,
  usize_mod, Bool-cases, inl, inr, ◌==◌, lt→ltb,
}
use rkyv_utils.Memory.{Target, World, Run, done, pure, ptr_add, write_bytes, add_usize, ◌>>=◌, ◌>>◌}
use rkyv_utils.Memory.Ends
use rkyv_utils.Memory.Ends.{Ends, ends}
use rkyv_utils.BufferLayout.Fits.{IsTarget, Fits}
use rkyv_utils.Alloc.{BufferAllocator}
use rkyv_utils.Alloc.Contract.{IsAllocator}
use rkyv_utils.Raw.{min_non_zero_cap}
use rkyv_utils.Raw.Holds.{Frame, Frame-trans, Holds-capacity}
use rkyv_utils.Raw.Capacity.{reserve-Reserved}
use rkyv_utils.Unique.{Unique, as_ptr, capacity, reserve, push, append_elements, append}
use rkyv_utils.Unique.Contents.{Contains, write_bytes-Holds, capacity-Contains}

-- The most that growing for `need` bytes asks for.
abbrev pub doubled : ℕ → ℕ
doubled need = max min_non_zero_cap (need * 2)

-- The buffer has become one with the bytes `xs`, and the rest of the memory is as it was.
abbrev pub Becomes :
    {S : Type 0} (t : Target) (w : World S) (u : Unique) (xs : List ℕ) → Unique → World S → Type 0
Becomes t w u xs u' w' = Contains t w' u' xs × Frame w u.buf w' u'.buf

module _ {S : Type 0} {t : Target} (v : IsTarget t) (a : BufferAllocator S) where
  pub add_usize-plain :
      (n m : ℕ) (w : World S) → n + m < usize_mod → add_usize t n m w ≡ done (n + m) w
  add_usize-plain n m w h =
      rw (Ends.debug_assert-true t w (lt→ltb _ _ h)) (ap (λ (k : ℕ). done k w) (omega arith))

  -- A write behind the contents, and the length that goes with it.
  pub append_here :
      (w : World S) (u : Unique) (xs ys : List ℕ) (c : Contains t w u xs)
      → length xs + length ys ≤ c.cap
      → Ends (Becomes t w u (xs ++ ys)) ⊥ ⊥ (
          (do
            write_bytes t (ptr_add (as_ptr u) u.len) ys
            len ← add_usize t u.len (length ys)
            pure (record u { len = len }))
            w)
  unfolding as_ptr
  append_here w u xs ys c room =
      let bounds = capacity-Contains v w u xs c in
      rw c.len (
        Ends.chain (write_bytes-Holds v w u.buf c.cap xs ys c.holds room) λ _ w' (holds, frame).
          rw (add_usize-plain (length xs) (length ys) w' (omega arith))
            (ends (record { cap = c.cap; holds = holds; len = sym (length-append xs ys) }, frame)))

  module _ {X : Type 0} (law : IsAllocator t a.allocator X) (w : World S) where
    -- `reserve` makes room and keeps the bytes. It panics only where twice the bytes needed fit no
    -- layout, and aborts only where memory is exhausted.
    pub reserve-Becomes :
        (u : Unique) (xs : List ℕ) (additional : ℕ)
        → Contains t w u xs
        → let need = length xs + additional in
          Ends
            (λ u' w'. Becomes t w u xs u' w' × (need ≤ capacity u'))
            (¬ Fits t (doubled need))
            X
            (reserve t a u additional w)
    unfolding reserve capacity
    reserve-Becomes u xs additional c = rw c.len (
        Ends.chain
          (Ends.weaken (reserve-Reserved v a law w u.buf c.cap xs additional c.holds) (λ b' w' r. r)
            (λ (short, refused) fits. refused (omega arith)) (λ x. x))
          λ b' w' (cap', enough, holds, frame). ends (
            (record { cap = cap'; holds = holds; len = refl }, frame),
            omega (arith, (Holds-capacity v holds).0),
          ))

    -- The two steps of an operation, each beside the rest of the memory.
    pub then_Becomes :
        (u : Unique) (w' : World S) (u' : Unique) (xs : List ℕ) {r : Run S Unique}
        → Frame w u.buf w' u'.buf
        → Ends (Becomes t w' u' xs) ⊥ ⊥ r
        → Ends (Becomes t w u xs) ⊥ ⊥ r
    then_Becomes u w' u' xs frame e =
        Ends.weaken e
          (λ u'' w'' (c, frame'). (c, Frame-trans w u.buf w' u'.buf w'' u''.buf frame frame'))
          (λ x. x) (λ x. x)

    -- `append` adds the bytes behind the contents and leaves every other block as it was. It
    -- panics only where twice the bytes needed fit no layout, and aborts only where memory is
    -- exhausted.
    pub append-Becomes :
        (u : Unique) (xs ys : List ℕ)
        → Contains t w u xs
        → Ends
            (Becomes t w u (xs ++ ys))
            (¬ Fits t (doubled (length xs + length ys)))
            X
            (append t a u ys w)
    unfolding append append_elements
    append-Becomes u xs ys c =
        Ends.chain (reserve-Becomes u xs (length ys) c) λ u' w' ((c', frame), enough).
          let bounds = capacity-Contains v w' u' xs c' in
          Ends.weaken
            (then_Becomes u w' u' (xs ++ ys) frame (append_here w' u' xs ys c' (omega arith)))
            (λ r w'' b. b) absurd absurd

    -- `push` adds one byte behind the contents, full or not, and leaves every other block as it
    -- was. It panics only where twice the bytes needed fit no layout, and aborts only where memory
    -- is exhausted.
    pub push-Becomes :
        (u : Unique) (xs : List ℕ) (x : ℕ)
        → Contains t w u xs
        → Ends
            (Becomes t w u (xs ++ x ∷ []))
            (¬ Fits t (doubled (length xs + 1)))
            X
            (push t a u x w)
    unfolding push reserve
    push-Becomes u xs x c =
        let bounds = capacity-Contains v w u xs c in
        elim (Bool-cases (u.len == capacity u)) [
          | inl full ↦
              rw (full, push)
                (Ends.chain (reserve-Becomes u xs 1 c) λ u' w' ((c', frame), enough).
                  let bounds' = capacity-Contains v w' u' xs c' in
                  Ends.weaken
                    (then_Becomes u w' u' (xs ++ x ∷ []) frame
                      (append_here w' u' xs (x ∷ []) c' (omega arith)))
                    (λ r w'' b. b) absurd absurd)
          | inr room ↦
              rw (room, push)
                (Ends.weaken (append_here w u xs (x ∷ []) c (ground (arith, c.len, bounds.0)))
                  (λ r w'' b. b) absurd absurd)
        ]
