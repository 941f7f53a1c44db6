-- ===== src/Raw/Holds.antt =====
-- The invariant of a unique raw buffer, and how an operation that grows it may end.
use rkyv_utils.Prelude.{
  ℕ, ◌+◌, ◌%◌, ◌≤◌, ◌<◌, ◌≡◌, ◌≢◌, true, false, some, ok, err, List, [], max, isize_max, length,
  arith,
}
use rkyv_utils.TaggedCap.{value, is_allocated}
use rkyv_utils.TaggedCap.Fields.{tagged, value-tagged, is_allocated-tagged}
use rkyv_utils.Memory.{Target, Block, World, dangling, load_list}
use rkyv_utils.BufferLayout.{buffer_offset, capacity_overflow, alloc_error}
use rkyv_utils.BufferLayout.Fits.{IsTarget, Fits, Fits-zero, align-pos}
use rkyv_utils.Memory.Ends.{Ends}
use rkyv_utils.Alloc.{BufferAllocator}
use rkyv_utils.Alloc.Contract.{IsAllocator}
use rkyv_utils.Raw.{Raw, Outcome, new_in}

-- The only handle on an allocation with room for `cap` bytes behind the header.
pub record Owns {S : Type 0} (t : Target) (w : World S) (b : Raw) (cap : ℕ) (blk : Block)
    : Type 0 where
  pub allocated : b.cap_or_len ≡ tagged true cap
  pub offset : b.buf.offset ≡ buffer_offset t
  pub aligned : b.buf.base % max t.header.align t.alignment ≡ 0
  pub there : w.blocks b.buf.base ≡ some blk
  pub size : blk.length ≡ buffer_offset t + cap
  pub align : blk.align ≡ max t.header.align t.alignment
  pub recorded : blk.header.alloc_buffer_size ≡ cap
  pub single : blk.header.ref_count ≡ 1
  pub positive : 0 < cap
  pub fits : Fits t cap

-- `b` has capacity `cap`, and its first bytes are `xs`.
pub data Holds {S : Type 0} (t : Target) (w : World S) (b : Raw) (cap : ℕ) (xs : List ℕ)
    : Type 0 where
  unallocated : b ≡ new_in → cap ≡ 0 → xs ≡ [] → Holds t w b cap xs
  allocated :
      (blk : Block)
      → Owns t w b cap blk
      → length xs ≤ cap
      → load_list blk.bytes (buffer_offset t) (length xs) ≡ xs
      → Holds t w b cap xs

-- Every block but the buffer's own is still there, as it was.
abbrev pub Spares : {S : Type 0} → World S → Raw → World S → Type 0
Spares w b w' = (p : ℕ) (c : Block) → p ≢ b.buf.base → w.blocks p ≡ some c → w'.blocks p ≡ some c

-- `b'` takes the place of `b`: every other block is still there, as it was, and is not the block of
-- `b'`. No block stands at the dangling address.
abbrev pub Frame : {S : Type 0} → World S → Raw → World S → Raw → Type 0
Frame w b w' b' =
    (p : ℕ) (c : Block)
    → p ≢ dangling.base
    → p ≢ b.buf.base
    → w.blocks p ≡ some c
    → (w'.blocks p ≡ some c) × (p ≢ b'.buf.base)

pub Frame-refl : {S : Type 0} (w : World S) (b : Raw) → Frame w b w b
Frame-refl w b p c real other there = (there, other)

pub Frame-trans :
    {S : Type 0} (w : World S) (b : Raw) (w' : World S) (b' : Raw) (w'' : World S) (b'' : Raw)
    → Frame w b w' b'
    → Frame w' b' w'' b''
    → Frame w b w'' b''
Frame-trans w b w' b' w'' b'' f g p c real other there =
    let first = f p c real other there in g p c real first.1 first.0

-- A request for `asked` bytes is met with room for `need` at least, the bytes `xs` kept; or it is
-- refused, with everything as it was, for a size that no layout admits or by an exhausted allocator.
abbrev pub Grows :
    {S : Type 0} (t : Target) (Exhausted : Type 0) (w : World S) (b : Raw) (xs : List ℕ)
    (need asked : ℕ)
    → Raw × Outcome
    → World S
    → Type 0
Grows t Exhausted w b xs need asked (b', ok _) w' =
    (cap' : ℕ) × (need ≤ cap') × Holds t w' b' cap' xs × Frame w b w' b'
Grows t Exhausted w b xs need asked (b', err capacity_overflow) w' =
    (¬ Fits t asked) × (b' ≡ b) × (w'.blocks ≡ w.blocks)
Grows t Exhausted w b xs need asked (b', err (alloc_error l)) w' =
    Exhausted × (b' ≡ b) × (w'.blocks ≡ w.blocks)

-- The same where the errors have become a panic or an abort.
abbrev pub Reserved :
    {S : Type 0} (t : Target) (w : World S) (b : Raw) (xs : List ℕ) (need : ℕ)
    → Raw
    → World S
    → Type 0
Reserved t w b xs need b' w' = (cap' : ℕ) × (need ≤ cap') × Holds t w' b' cap' xs × Frame w b w' b'

-- What a buffer needs of its allocator: the contract of the trait, and that a buffer that is given
-- back touches no other block.
pub record IsBufferAllocator {S : Type 0} (t : Target) (a : BufferAllocator S) (Exhausted : Type 0)
    : Type 0 where
  pub lawful : IsAllocator t a.allocator Exhausted
  pub gives_back :
      (b : Raw) (cap : ℕ) (blk : Block) (w : World S)
      → Owns t w b cap blk
      → Ends
          (λ _ w'. Spares w b w')
          ⊥
          ⊥
          (a.deallocate_buffer (record { buf = b.buf; cap = b.cap_or_len }) w)

module _ {S : Type 0} {t : Target} (v : IsTarget t) where
  pub Owns-bounds :
      {w : World S} {b : Raw} {cap : ℕ} {blk : Block}
      → Owns t w b cap blk
      → (buffer_offset t + cap ≤ isize_max)
        × (value b.cap_or_len ≡ cap)
        × (is_allocated b.cap_or_len ≡ true)
  Owns-bounds {cap} o =
      let some_align = align-pos v in
      let fits = o.fits in
      rw o.allocated (
        omega arith,
        value-tagged true cap (omega arith),
        is_allocated-tagged true cap (omega arith),
      )

  -- The capacity that is read off a unique buffer, with what follows from the invariant.
  pub Holds-capacity :
      {w : World S} {b : Raw} {cap : ℕ} {xs : List ℕ}
      → Holds t w b cap xs
      → (value b.cap_or_len ≡ cap) × (cap ≤ isize_max) × (length xs ≤ cap)
  unfolding new_in
  Holds-capacity (unallocated e z n) =
      rw (e, z, n) (value-tagged false 0 (omega arith), omega arith, omega arith)
  Holds-capacity (allocated blk o room bytes) =
      let bounds = Owns-bounds o in (bounds.1, omega arith, room)

  pub Holds-Fits : {w : World S} {b : Raw} {cap : ℕ} {xs : List ℕ} → Holds t w b cap xs → Fits t cap
  Holds-Fits (unallocated e z n) = let least = Fits-zero v in omega arith
  Holds-Fits (allocated blk o room bytes) = o.fits
