-- ===== src/BufferLayout/Fits.antt =====
-- The sizes for which there is a layout.
use native.Mathlib.Decide.{dec_le}
use rkyv_utils.Prelude.{
  ℕ, ◌+◌, ◌≤◌, ◌≡◌, refl, some, ok, err, max, arith, isize_max, true, is_power_of_two,
}
use rkyv_utils.Layout.{Layout, IsLayout, from_size_align, from_size_alignment, std_extend, round_up}
use rkyv_utils.Layout.Extend.{from_size_align-IsLayout, extend-std_extend, IsLayout-bounds}
use rkyv_utils.Layout.Padding.{round_up_fits}
use rkyv_utils.Memory.{Target, World, done}
use rkyv_utils.BufferLayout.{offset_const, buffer_offset, layout, alloc_guard, capacity_overflow}

-- The build compiles: the header has a valid layout, and the constant `BUFFER_OFFSET` a value.
pub record IsTarget (t : Target) : Type 0 where
  pub header : IsLayout t.header
  pub compiles : offset_const t ≡ some (buffer_offset t)

-- Size and alignment of the allocation for `size` bytes of buffer.
abbrev pub full_layout : Target → ℕ → Layout
full_layout t size = record {
  size = buffer_offset t + size;
  align = max t.header.align t.alignment;
}

-- The sizes that `Layout` admits.
abbrev pub Fits : Target → ℕ → Type 0
Fits t size = (full_layout t size).size + (full_layout t size).align ≤ isize_max + 1

pub dec_Fits : (t : Target) (size : ℕ) → Dec (Fits t size)
dec_Fits t size = dec_le _ _

abbrev empty_buffer : Target → Layout
empty_buffer t = record { size = 0; align = t.alignment }

module _ {t : Target} (v : IsTarget t) where
  empty_buffer-accepted : from_size_align 0 t.alignment ≡ some (empty_buffer t)
  unfolding offset_const from_size_alignment from_size_align
  empty_buffer-accepted = ground (arith, v.compiles)

  pub empty_buffer-IsLayout : IsLayout (empty_buffer t)
  empty_buffer-IsLayout = from_size_align-IsLayout 0 t.alignment empty_buffer-accepted

  extended : std_extend t.header (empty_buffer t) ≡ some (full_layout t 0, buffer_offset t)
  unfolding offset_const from_size_alignment std_extend from_size_align
  extended = ground (
    arith,
    v.compiles,
    empty_buffer-accepted,
    extend-std_extend t.header (empty_buffer t) v.header empty_buffer-IsLayout,
  )

  pub buffer_offset-round_up : buffer_offset t ≡ round_up t.header.size t.alignment
  unfolding std_extend from_size_align
  buffer_offset-round_up = ground (arith, extended)

  align-power : is_power_of_two (max t.header.align t.alignment) ≡ true
  unfolding std_extend from_size_align
  align-power = ground (arith, extended)

  pub layout-Fits :
      {S : Type 0} (size : ℕ) (w : World S)
      → Fits t size
      → layout t size w ≡ done (ok (full_layout t size)) w
  unfolding layout std_extend from_size_align
  layout-Fits size w h = ground (arith, buffer_offset-round_up, align-power)

  pub layout-not_Fits :
      {S : Type 0} (size : ℕ) (w : World S)
      → ¬ Fits t size
      → layout t size w ≡ done (err capacity_overflow) w
  unfolding layout std_extend from_size_align
  layout-not_Fits size w h = ground (arith, buffer_offset-round_up, align-power)

  -- `layout` never panics: for the sizes that a `Layout` admits it is the header and the buffer,
  -- and for all others the error of capacity overflow.
  pub layout_lem :
      {S : Type 0} (size : ℕ) (w : World S)
      → layout t size w
        ≡ done
            (elim (dec_Fits t size) [
              | yes _ ↦ ok (full_layout t size)
              | no _ ↦ err capacity_overflow
            ])
            w
  layout_lem size w =
      elim (dec_Fits t size)
        as (λ d.
          layout t size w
          ≡ done (elim d [ yes _ ↦ ok (full_layout t size) | no _ ↦ err capacity_overflow ]) w) [
            | yes h ↦ layout-Fits size w h
            | no h ↦ layout-not_Fits size w h
          ]

  pub full_layout-IsLayout : (size : ℕ) → Fits t size → IsLayout (full_layout t size)
  unfolding from_size_align
  full_layout-IsLayout size h =
      from_size_align-IsLayout (buffer_offset t + size) (max t.header.align t.alignment)
        (ground (arith, align-power))

  -- The header lies in front of the buffer.
  pub header-le-buffer_offset : t.header.size ≤ buffer_offset t
  header-le-buffer_offset =
      let room = IsLayout-bounds t.header v.header in
      let e = empty_buffer-IsLayout in
      rw (buffer_offset-round_up, e.power) (round_up_fits t.header.size e.exponent room.2 e.small).0

  -- The empty buffer fits, since the constant offset was computed from it.
  pub Fits-zero : Fits t 0
  unfolding std_extend from_size_align
  Fits-zero = ground (arith, extended, buffer_offset-round_up)

  pub align-pos : 1 ≤ (full_layout t 0).align
  align-pos = let room = IsLayout-bounds t.header v.header in omega arith

-- On a 64-bit target the guard lets every size pass.
pub alloc_guard-passes :
    {S : Type 0} (t : Target) (size : ℕ) (w : World S) → alloc_guard t size w ≡ done (ok tt) w
unfolding alloc_guard
alloc_guard-passes t size w = refl
