-- ===== src/Shared/Threads/Whole.antt =====
-- The steps of a call run one after the other, and the call as raw.rs writes it.
use rkyv_utils.Prelude.{
  ℕ, zero, suc, ◌+◌, ◌-◌, ◌%◌, ◌<◌, ◌≡◌, refl, ap, sym, subst, ◌∙◌, List, [], ◌∷◌, isize_max,
  usize_mod, wrapping_sub, false, lt→ltb, ge→ltb, ◌==◌, arith,
}
use native.Mathlib.Decide.{dec_lt, ℕ_discrete}
use rkyv_utils.Memory.{
  Target, Block, World, Cmd, Run, and_then, pure, done, panic, abort, undefined, ◌>>=◌,
}
use rkyv_utils.BufferLayout.Fits.{IsTarget}
use rkyv_utils.Alloc.{BufferAllocator}
use rkyv_utils.Raw.{max_refcount}
use rkyv_utils.Shared
use rkyv_utils.Shared.{Shared}
use rkyv_utils.Shared.Handles.{Shares}
use rkyv_utils.Shared.Counting.{
  counting, recount, recount-Shares, clone-few, clone-many, drop-more, drop-one,
}
use rkyv_utils.Shared.Threads
use rkyv_utils.Shared.Threads.{
  Pending, cloned, subtracted, acquired, stored, alone, Call, Left, begin, next,
}
use rkyv_utils.Shared.Threads.Steps.{fetch_update-Shares}
use rkyv_utils.Shared.Threads.Values.{load-Shares, last-dealloc}

module _ {S : Type 0} (t : Target) (a : BufferAllocator S) (s : Shared) where
  -- The first of the calls to its end, in at most so many steps.
  unfoldable pub to_end : ℕ → List Pending → Cmd S (Unit {0})
  to_end zero calls = pure tt
  to_end (suc n) [] = pure tt
  to_end (suc n) (call ∷ calls) = do left ← next t a s call; to_end n left.calls

  -- No call takes more than four steps.
  unfoldable pub whole : Call → Cmd S (Unit {0})
  unfolding to_end
  whole call = do left ← begin t a s call; to_end 3 left.calls

module _ {S : Type 0} {t : Target} (v : IsTarget t) (a : BufferAllocator S) (s : Shared) (cap : ℕ)
    (xs : List ℕ) where
  ignored :
      {A : Type 0} (r : Run S (Unit {0})) (x : A)
      → and_then (and_then r (λ _. pure x)) (λ y. pure tt) ≡ r
  ignored (done u w) x = refl
  ignored panic x = refl
  ignored abort x = refl
  ignored undefined x = refl

  whole-clone :
      (w : World S) (blk : Block) (n : ℕ)
      → Shares t w s cap blk xs n
      → n + 1 < usize_mod
      → whole t a s Threads.clone w ≡ and_then (Shared.clone t a s w) (λ _. pure tt)
  unfolding whole to_end begin next
  whole-clone w blk n h machine =
      let up : (n + 1) % usize_mod ≡ n + 1 = omega arith in
      let e = fetch_update-Shares v a s cap xs (λ m. (m + 1) % usize_mod) w blk n h in
      elim (dec_lt isize_max n) [
        | yes many ↦ rw (e, clone-many v a w s cap blk xs n h many, lt→ltb _ _ many) refl
        | no few ↦
            rw
              (
                e,
                clone-few v a w s cap blk xs n h (omega arith),
                ge→ltb max_refcount n (omega arith),
                up,
              )
              refl
      ]

  whole-drop-more :
      (w : World S) (blk : Block) (n : ℕ)
      → Shares t w s cap blk xs n
      → 1 < n
      → n < usize_mod
      → whole t a s Threads.drop w ≡ Shared.drop t a s w
  unfolding whole to_end begin next
  whole-drop-more w blk n h more machine =
      let less : wrapping_sub n 1 ≡ n - 1 = omega arith in
      let e = fetch_update-Shares v a s cap xs (λ m. wrapping_sub m 1) w blk n h in
      let others : (n == 1) ≡ false = ground arith in
      rw (e, drop-more v a w s cap blk xs n h more machine, others, less) refl

  whole-drop-one :
      (w : World S) (blk : Block)
      → Shares t w s cap blk xs 1
      → whole t a s Threads.drop w ≡ Shared.drop t a s w
  unfolding whole to_end begin next
  whole-drop-one w blk h =
      let w1 = recount w s blk 0 in
      let blk1 = counting blk 0 in
      let h1 = recount-Shares v a w s cap blk xs 1 0 h in
      let w2 = recount w1 s blk1 1 in
      let h2 = recount-Shares v a w1 s cap blk1 xs 0 1 h1 in
      let less : wrapping_sub 1 1 ≡ 0 = refl in
      rw (fetch_update-Shares v a s cap xs (λ m. wrapping_sub m 1) w blk 1 h) (
        rw (load-Shares v a s cap xs w1 blk1 0 h1) (
          rw (fetch_update-Shares v a s cap xs (λ m. 1) w1 blk1 0 h1) (
            ap (λ (r : Run S Left). and_then r (λ _. pure tt)) (last-dealloc v a s cap xs w2 _ 1 h2)
            ∙ ignored _ _
            ∙ sym (drop-one v a w s cap blk xs h))))

  -- The steps that a clone and a drop of a handle are cut into, run one after the other with
  -- nothing between them, are clone and drop as the code has them, for a buffer with an allocation
  -- and a count below usize::MAX.
  pub whole_calls :
      (w : World S) (blk : Block) (n : ℕ)
      → Shares t w s cap blk xs n
      → 0 < n
      → n + 1 < usize_mod
      → (whole t a s Threads.clone w ≡ (Shared.clone t a s >>= λ _. pure tt) w)
        × (whole t a s Threads.drop w ≡ Shared.drop t a s w)
  whole_calls w blk n h some machine = (
    whole-clone w blk n h machine,
    elim (ℕ_discrete n 1) [
      | yes one ↦ whole-drop-one w blk (subst (λ (m : ℕ). Shares t w s cap blk xs m) one h)
      | no more ↦ whole-drop-more w blk n h (omega arith) (omega arith)
    ],
  )
