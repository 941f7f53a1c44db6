-- ===== src/Raw/Parts.antt =====
-- crates/aligned-buffer/src/raw.rs: a raw buffer taken apart and put together, and the words that
-- are read off it.
use rkyv_utils.Prelude.{ℕ, ◌≡◌, List}
use rkyv_utils.TaggedCap.{TaggedCap, value}
use rkyv_utils.Memory.{Target, World, Ptr}
use rkyv_utils.BufferLayout.Fits.{IsTarget}
use rkyv_utils.Raw.{Raw}
use rkyv_utils.Raw.Holds.{Holds, Holds-capacity}

-- The allocator stays a parameter, and `Cap` is the word that it wraps.
unfoldable pub into_raw_parts_with_alloc : Raw → Ptr × TaggedCap
into_raw_parts_with_alloc b = (b.buf, b.cap_or_len)

unfoldable pub into_raw_parts : Raw → Ptr × TaggedCap
into_raw_parts b = (b.buf, b.cap_or_len)

unfoldable pub from_raw_parts_in : Ptr → TaggedCap → Raw
from_raw_parts_in ptr cap = record { buf = ptr; cap_or_len = cap }

unfoldable pub from_raw_parts : Ptr → TaggedCap → Raw
unfolding from_raw_parts_in
from_raw_parts ptr cap = from_raw_parts_in ptr cap

unfoldable pub ptr : Raw → Ptr
ptr b = b.buf

unfoldable pub cap_or_len : Raw → ℕ
cap_or_len b = value b.cap_or_len

-- The parts of a buffer that has capacity `cap` are this capacity and the buffer itself.
pub parts-Holds :
    {S : Type 0} {t : Target} (v : IsTarget t) (w : World S) (b : Raw) (cap : ℕ) (xs : List ℕ)
    → Holds t w b cap xs
    → (cap_or_len b ≡ cap) × Holds t w (let (p, c) = into_raw_parts b in from_raw_parts p c) cap xs
unfolding cap_or_len into_raw_parts from_raw_parts
parts-Holds v w b cap xs h = ((Holds-capacity v h).0, h)
