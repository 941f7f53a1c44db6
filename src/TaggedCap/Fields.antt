-- ===== src/TaggedCap/Fields.antt =====
-- The two fields of a tagged capacity.
use rkyv_utils.Prelude.{
  ℕ, ◌+◌, ◌*◌, ◌%◌, ◌^◌, ◌≤◌, ◌<◌, ◌≡◌, refl, ap, Bool, true, false, none, some, ◌⊎◌, inl, inr,
  arith, bit_and, and_mask, and_high_split, or_fields, bit_or_comm, bit_or-zero, ◌/◌,
}
use native.Mathlib.Decide.{dec_lt}
use rkyv_utils.TaggedCap.{
  TaggedCap, as_usize, tag, value, is_allocated, with_value, with_allocated, new, max_value,
  zero_cap,
}

-- The capacity `v` with the tag `b`, as arithmetic.
abbrev pub tagged : Bool → ℕ → TaggedCap
tagged b v = record { word = as_usize b * 2 ^ 63 + v }

pub value-tagged : (b : Bool) (v : ℕ) → v ≤ max_value → value (tagged b v) ≡ v
unfolding value
value-tagged b v h = omega (arith, and_mask 63 (as_usize b * 2 ^ 63 + v))

tag-tagged :
    (b : Bool) (v : ℕ) → v ≤ max_value → bit_and (tagged b v).word tag ≡ as_usize b * 2 ^ 63
tag-tagged false v h = and_high_split 63 0 v 1 (omega arith)
tag-tagged true v h = and_high_split 63 1 v 1 (omega arith)

pub is_allocated-tagged : (b : Bool) (v : ℕ) → v ≤ max_value → is_allocated (tagged b v) ≡ b
unfolding is_allocated
is_allocated-tagged false v h = rw (tag-tagged false v h) refl
is_allocated-tagged true v h = rw (tag-tagged true v h) refl

-- `with_value` sets the value and leaves the tag, in debug and release builds.
pub with_value-tagged :
    (d b : Bool) (u v : ℕ)
    → u ≤ max_value
    → v ≤ max_value
    → with_value d (tagged b u) v ≡ some (tagged b v)
unfolding with_value
with_value-tagged d b u v h k =
    ground (arith, tag-tagged b u h, and_mask 63 v, or_fields 63 (as_usize b) v)

with_allocated-tagged :
    (b : Bool) (v : ℕ) → v ≤ max_value → with_allocated (tagged false v) b ≡ tagged b v
unfolding with_allocated value
with_allocated-tagged false v h = rw (value-tagged false v h) (ground (arith, bit_or-zero v))
with_allocated-tagged true v h =
    rw (value-tagged false v h) (ground (arith, or_fields 63 1 v, bit_or_comm v (2 ^ 63)))

-- `new` makes a word with the value and the tag, in debug and release builds.
pub new-tagged : (d b : Bool) (v : ℕ) → v ≤ max_value → new d v b ≡ some (tagged b v)
unfolding new
new-tagged d b v h =
    rw (with_value-tagged d false 0 v (omega arith) h) (ap some (with_allocated-tagged b v h))

with_value-masked : (v : ℕ) → with_value false zero_cap v ≡ some (tagged false (v % 2 ^ 63))
unfolding with_value
with_value-masked v = ground (
  arith,
  tag-tagged false 0 (omega arith),
  and_mask 63 v,
  bit_or_comm 0 (v % 2 ^ 63),
  bit_or-zero (v % 2 ^ 63),
)

new-masked : (b : Bool) (v : ℕ) → new false v b ≡ some (tagged b (v % 2 ^ 63))
unfolding new
new-masked b v =
    rw (with_value-masked v) (ap some (with_allocated-tagged b (v % 2 ^ 63) (omega arith)))

new-too_large : (b : Bool) (v : ℕ) → max_value < v → new true v b ≡ none
unfolding new with_value
new-too_large b v h = ground arith

word-lt : (b : Bool) (v : ℕ) → v ≤ max_value → (tagged b v).word < 2 ^ 64
word-lt false v h = omega arith
word-lt true v h = omega arith

-- Up to MAX_VALUE `new` packs a value and a tag into a 64-bit word that `value` and `is_allocated`
-- read them from, with the value in the low 63 bits and the tag in the highest. A larger value
-- panics in a debug build; in a release build the bits from 63 on are cut off, and the tag is
-- still right.
pub new_lem :
    (debug b : Bool) (v : ℕ)
    → ((v ≤ max_value)
        × (c : TaggedCap) × (new debug v b ≡ some c)
        × (c.word ≡ as_usize b * 2 ^ 63 + v)
        × (c.word < 2 ^ 64)
        × (value c ≡ v)
        × (is_allocated c ≡ b))
      ⊎ ((max_value < v)
          × (new true v b ≡ none)
          × (new false v b ≡ some (tagged b (v % 2 ^ 63)))
          × (is_allocated (tagged b (v % 2 ^ 63)) ≡ b))
new_lem debug b v = elim (dec_lt max_value v) [
  | yes large ↦ inr (
    large,
    new-too_large b v large,
    new-masked b v,
    is_allocated-tagged b (v % 2 ^ 63) (omega arith),
  )
  | no low ↦
      let small : v ≤ max_value = omega arith in
      inl (
        small,
        tagged b v,
        new-tagged debug b v small,
        refl,
        word-lt b v small,
        value-tagged b v small,
        is_allocated-tagged b v small,
      )
]

-- Every 64-bit word is a tag and a 63-bit value, and this is how `value` and `is_allocated` read
-- it.
pub split_fields : (c : TaggedCap) → c.word < 2 ^ 64 → c ≡ tagged (is_allocated c) (value c)
unfolding is_allocated value
split_fields c h = ground (
  arith,
  and_mask 63 c.word,
  and_mask 1 (c.word / 2 ^ 63),
  and_high_split 63 (c.word / 2 ^ 63) (c.word % 2 ^ 63) 1,
)
