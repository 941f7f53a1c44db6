-- ===== src/Raw/Aligned.antt =====
-- The alignment of the buffer.
use native.Mathlib.Nat.{
  dvd_trans, dvd-add, dvd-mul_left, dvd_of_mod-eq-zero, mod-eq-zero_of_dvd, dvd_refl,
  pow-le-pow_right,
}
use Prim.Native.Nat.{◌∣◌}
use native.Mathlib.Decide.{dec_le}
use rkyv_utils.Prelude.{ℕ, ◌-◌, ◌%◌, ◌^◌, ◌≤◌, ◌≡◌, sym, max, arith, pow_split, subst}
use rkyv_utils.Layout.{Layout, IsLayout}
use rkyv_utils.Memory.{Target, Block, World, address}
use rkyv_utils.BufferLayout.{buffer_offset}
use rkyv_utils.BufferLayout.Fits.{IsTarget, buffer_offset-round_up, empty_buffer-IsLayout}
use rkyv_utils.Raw.{Raw}
use rkyv_utils.Raw.Holds.{Owns}

pub power-∣ : (k n : ℕ) → k ≤ n → 2 ^ k ∣ 2 ^ n
power-∣ k n h =
    subst (λ (x : ℕ). 2 ^ k ∣ x) (sym (pow_split n k h)) (dvd-mul_left (2 ^ k) (2 ^ (n - k)))

-- Of two alignments the smaller divides the larger, so each divides the larger.
align-∣-max : (l m : Layout) → IsLayout l → IsLayout m → m.align ∣ max l.align m.align
align-∣-max l m hl hm = elim (dec_le l.align m.align) [
  | yes small ↦
      let e : max l.align m.align ≡ m.align = omega arith in
      subst (λ (x : ℕ). m.align ∣ x) (sym e) (dvd_refl m.align)
  | no large ↦
      let e : max l.align m.align ≡ l.align = omega arith in
      subst (λ (x : ℕ). m.align ∣ x) (sym e)
        (rw (hl.power, hm.power) (power-∣ hm.exponent hl.exponent (below large)))
]
  where
    below : ¬ (l.align ≤ m.align) → hm.exponent ≤ hl.exponent
    below large = elim (dec_le hm.exponent hl.exponent) [
      | yes h ↦ h
      | no more ↦
          let grown =
            pow-le-pow_right {n = 2} (omega arith) {i = hl.exponent} {j = hm.exponent}
              (omega arith) in
          absurd (omega (arith, hl.power, hm.power))
    ]

module _ {t : Target} (v : IsTarget t) where
  pub alignment-∣-base : (base : ℕ) → base % max t.header.align t.alignment ≡ 0 → t.alignment ∣ base
  alignment-∣-base base h =
      dvd_trans t.alignment (align-∣-max t.header _ v.header (empty_buffer-IsLayout v))
        (dvd_of_mod-eq-zero _ h)

  pub alignment-∣-buffer_offset : t.alignment ∣ buffer_offset t
  alignment-∣-buffer_offset = rw (buffer_offset-round_up v) (dvd-mul_left t.alignment _)

  -- The address of a buffer with an allocation is a multiple of ALIGNMENT.
  pub Owns-aligned :
      {S : Type 0} (w : World S) (b : Raw) (cap : ℕ) (blk : Block)
      → Owns t w b cap blk
      → address b.buf % t.alignment ≡ 0
  Owns-aligned {S} w b cap blk o = mod-eq-zero_of_dvd t.alignment (
      rw o.offset
        (dvd-add t.alignment (alignment-∣-base b.buf.base o.aligned) alignment-∣-buffer_offset))
