-- ===== src/Serializer/Aligned.antt =====
-- The alignment of what the scratch allocator hands out.
use native.Mathlib.Nat.{
  dvd_trans, le_of_dvd, dvd-add, dvd-sub, dvd_of_mod-eq-zero, mod-eq-zero_of_dvd, mod-eq_of_lt,
  mod-add-mod,
}
use Prim.Native.Nat.{◌∣◌}
use rkyv_utils.Prelude.{
  ℕ, zero, suc, ◌+◌, ◌-◌, ◌%◌, ◌≤◌, ◌<◌, ◌≡◌, refl, ap, sym, ◌∙◌, List, [], ◌++◌, length,
  length-append, length-replicate, replicate, arith, usize_mod, wrapping_sub, subst,
}
use rkyv_utils.Layout.{Layout, IsLayout}
use rkyv_utils.Memory.{Target, World, address}
use rkyv_utils.Memory.Ends
use rkyv_utils.Memory.Ends.{Ends}
use rkyv_utils.BufferLayout.Fits.{IsTarget, Fits}
use rkyv_utils.Alloc.{BufferAllocator}
use rkyv_utils.Alloc.Contract.{IsAllocator}
use rkyv_utils.Raw
use rkyv_utils.Raw.{Raw}
use rkyv_utils.Raw.Aligned.{power-∣, Owns-aligned}
use rkyv_utils.Raw.Holds.{Holds, unallocated, allocated, Holds-capacity}
use rkyv_utils.Unique
use rkyv_utils.Unique.{Unique, as_ptr}
use rkyv_utils.Unique.Contents.{Contains}
use rkyv_utils.Unique.Append.{doubled}
use rkyv_utils.Serializer.{push_alloc}
use rkyv_utils.Serializer.Push.{padding, padding-lt, push_alloc-Pushed}

align-∣-usize : (l : Layout) → IsLayout l → l.align ∣ usize_mod
align-∣-usize l h = rw h.power (power-∣ h.exponent 64 (omega (arith, h.small)))

wrapping_sub-dvd : (d n : ℕ) → d ∣ usize_mod → n < usize_mod → d ∣ n + wrapping_sub 0 n
wrapping_sub-dvd d zero h small =
    let e : 0 + wrapping_sub 0 0 ≡ 0 = omega arith in
    subst (λ (x : ℕ). d ∣ x) (sym e) (dvd_of_mod-eq-zero d (omega arith))
wrapping_sub-dvd d (suc n) h small =
    let e : suc n + wrapping_sub 0 (suc n) ≡ usize_mod = omega arith in
    subst (λ (x : ℕ). d ∣ x) (sym e) h

-- The padding takes an address to the next multiple of the alignment.
padding-aligned :
    (offset : ℕ) (l : Layout)
    → IsLayout l
    → offset < usize_mod
    → l.align ∣ offset + padding offset l
padding-aligned offset l h small =
    let zero_rest =
      mod-eq-zero_of_dvd l.align (wrapping_sub-dvd l.align offset (align-∣-usize l h) small) in
    let moved = mod-add-mod (wrapping_sub 0 offset) l.align offset in
    dvd_of_mod-eq-zero l.align (
      ap (λ (k : ℕ). k % l.align) (omega arith)
      ∙ moved
      ∙ ap (λ (k : ℕ). k % l.align) (omega arith)
      ∙ zero_rest)

-- Where the padding was computed from another address of the same alignment.
moved-aligned : (d a b n : ℕ) → d ∣ a → d ∣ b → d ∣ a + n → d ∣ b + n
moved-aligned d a b n da db h =
    let e : a + n - a ≡ n = omega arith in
    dvd-add d db (subst (λ (x : ℕ). d ∣ x) e (dvd-sub d h da))

module _ {S : Type 0} {t : Target} (v : IsTarget t) (a : BufferAllocator S) {X : Type 0}
    (law : IsAllocator t a.allocator X) where
  Holds-aligned :
      (w : World S) (b : Raw) (cap : ℕ) (xs : List ℕ)
      → Holds t w b cap xs
      → 0 < cap
      → t.alignment ∣ address b.buf
  Holds-aligned w b cap xs (unallocated e z n) some_room = absurd (omega arith)
  Holds-aligned w b cap xs (allocated blk o enough bytes) some_room =
      dvd_of_mod-eq-zero t.alignment (Owns-aligned v w b cap blk o)

  -- Where the scratch has an allocation, `push_alloc` hands out a slice of the size of the layout
  -- at an address that is aligned for it, even where the scratch moves; for an alignment that
  -- divides ALIGNMENT, a positive size, and addresses below 2^64. It panics only where twice the
  -- bytes needed fit no layout, and aborts only where memory is exhausted.
  pub push_alloc-aligned :
      (w : World S) (u : Unique) (xs : List ℕ) (l : Layout) (c : Contains t w u xs)
      → 0 < c.cap
      → IsLayout l
      → l.align ∣ t.alignment
      → 0 < l.size
      → address u.buf.buf + length xs < usize_mod
      → Ends
          (λ (u', s) w'. (address s.start % l.align ≡ 0) × (s.len ≡ l.size))
          (¬ Fits t (doubled (length xs + (padding (address u.buf.buf + length xs) l + l.size))))
          X
          (push_alloc t a u l w)
  unfolding as_ptr
  push_alloc-aligned w u xs l c some_room h divides some_size below =
      let offset : ℕ = address u.buf.buf + length xs in
      let pad : ℕ = padding offset l in
      let before = dvd_trans l.align divides (Holds-aligned w u.buf c.cap xs c.holds some_room) in
      let target = padding-aligned offset l h below in
      Ends.weaken (push_alloc-Pushed v a law w u xs l c h below)
        (λ (u', s) w' ((c', frame), e).
          let ys : List ℕ = replicate (pad + l.size) 0 in
          let total = length-append xs ys in
          let zeroes : length ys ≡ pad + l.size = length-replicate (pad + l.size) 0 in
          let bounds = Holds-capacity v c'.holds in
          let after : l.align ∣ address u'.buf.buf = dvd_trans l.align divides (
            Holds-aligned w' u'.buf c'.cap (xs ++ ys) c'.holds
              (omega (arith, bounds.2, total, zeroes, some_size))) in
          let start : address u'.buf.buf + (length xs + pad) ≡ address s.start =
            rw e (omega arith) in
          let asked : l.align ∣ address u.buf.buf + (length xs + pad) =
            subst (λ (x : ℕ). l.align ∣ x) (omega arith) target in
          (
            mod-eq-zero_of_dvd l.align (
                subst (λ (x : ℕ). l.align ∣ x) start
                  (moved-aligned l.align (address u.buf.buf) (address u'.buf.buf) (length xs + pad)
                    before after asked)),
            rw e refl,
          ))
        (λ x. x) (λ x. x)

  -- The first slice that a scratch without allocation hands out stands at one less than a multiple
  -- of its alignment, for an alignment that divides ALIGNMENT and a positive size. It panics only
  -- where twice the bytes needed fit no layout, and aborts only where memory is exhausted.
  pub push_alloc-first :
      (w : World S) (l : Layout)
      → IsLayout l
      → l.align ∣ t.alignment
      → 0 < l.size
      → Ends
          (λ (u', s) w'. address s.start % l.align ≡ l.align - 1)
          (¬ Fits t (doubled (0 + (padding 1 l + l.size))))
          X
          (push_alloc t a Unique.new_in l w)
  unfolding as_ptr Unique.new_in Raw.new_in
  push_alloc-first w l h divides some_size =
      let pad : ℕ = padding 1 l in
      let small : pad < l.align = padding-lt 1 l h in
      let whole : l.align ≤ 1 + pad =
        le_of_dvd (omega arith) (padding-aligned 1 l h (omega arith)) in
      Ends.weaken
        (push_alloc-Pushed v a law w Unique.new_in [] l
          (record { cap = 0; holds = unallocated refl refl refl; len = refl }) h (omega arith))
        (λ (u', s) w' ((c', frame), e).
          let ys : List ℕ = replicate (pad + l.size) 0 in
          let zeroes : length ys ≡ pad + l.size = length-replicate (pad + l.size) 0 in
          let bounds = Holds-capacity v c'.holds in
          let base = address u'.buf.buf in
          let after : l.align ∣ base = dvd_trans l.align divides (
            Holds-aligned w' u'.buf c'.cap ys c'.holds
              (omega (arith, bounds.2, zeroes, some_size))) in
          let start : address s.start ≡ base + pad = rw e (omega arith) in
          let moved = mod-add-mod base l.align pad in
          let whole_base = mod-eq-zero_of_dvd l.align after in
          let kept : pad % l.align ≡ pad = mod-eq_of_lt small in
          rw start (
            sym moved
            ∙ rw whole_base (ap (λ (k : ℕ). k % l.align) (omega arith) ∙ kept ∙ omega arith)))
        (λ x. x) (λ x. x)
