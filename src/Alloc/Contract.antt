-- ===== src/Alloc/Contract.antt =====
-- What the documentation of the `Allocator` trait promises: a new block fits the layout and was
-- free before, a block keeps its header and bytes when it grows or shrinks, no other block is
-- touched, and a call that fails changes no block. `Exhausted` stands for the reason to fail.
use rkyv_utils.Prelude.{ℕ, ◌+◌, ◌%◌, ◌≤◌, ◌<◌, ◌≡◌, Option, none, some, isize_max}
use rkyv_utils.Layout.{Layout, IsLayout}
use rkyv_utils.Memory.{Target, Block, Blocks, World, zero_header, put, Ptr, ptr, Cmd}
use rkyv_utils.Memory.Ends.{Ends}
use rkyv_utils.Alloc.{Slice, Allocator}

pub record IsNewBlock (m : Blocks) (l : Layout) (s : Slice) (b : Block) : Type 0 where
  pub at_start : s.start.offset ≡ 0
  pub fresh : m s.start.base ≡ none
  pub enough : l.size ≤ s.len
  pub small : s.len + l.align ≤ isize_max + 1
  pub length : b.length ≡ s.len
  pub align : b.align ≡ l.align
  pub aligned : s.start.base % l.align ≡ 0

-- A layout fits a block by the size that the allocator last returned for it.
pub record FitsBlock (l : Layout) (b : Block) : Type 0 where
  pub size : l.size ≡ b.length
  pub align : l.align ≡ b.align

-- The first `n` bytes are kept, the header among them.
pub record Keeps (n : ℕ) (old b : Block) : Type 0 where
  pub header : b.header ≡ old.header
  pub bytes : (i : ℕ) → i < n → b.bytes i ≡ old.bytes i

-- The header and the bytes of a new block are zero.
pub record IsZeroed (b : Block) : Type 0 where
  pub header : b.header ≡ zero_header
  pub bytes : (i : ℕ) → i < b.length → b.bytes i ≡ 0

-- The first `n` bytes are kept, and those behind them are zero.
pub record Extends (n : ℕ) (old b : Block) : Type 0 where
  pub kept : Keeps n old b
  pub zero : (i : ℕ) → n ≤ i → i < b.length → b.bytes i ≡ 0

-- After a call for `l`: `before` is what a failure leaves, `rest` what a new block comes beside.
abbrev pub Answer :
    {S : Type 0} (Exhausted : Type 0) (before rest : Blocks) (l : Layout) (P : Block → Type 0)
    → Option Slice
    → World S
    → Type 0
Answer Exhausted before rest l P none w = Exhausted × (w.blocks ≡ before)
Answer Exhausted before rest l P (some s) w =
    (b : Block) × IsNewBlock rest l s b × P b × (w.blocks ≡ put rest s.start.base (some b))

pub Answer-map :
    {S : Type 0} (Exhausted : Type 0) (before rest : Blocks) (l : Layout) (P Q : Block → Type 0)
    (r : Option Slice) (w : World S)
    → ((b : Block) → P b → Q b)
    → Answer Exhausted before rest l P r w
    → Answer Exhausted before rest l Q r w
Answer-map X m rest l P Q none w f a = a
Answer-map X m rest l P Q (some s) w f (b, new, p, same) = (b, new, f b p, same)

abbrev pub Allocates :
    {S : Type 0} (Exhausted : Type 0) (allocate : Layout → Cmd S (Option Slice)) → Type 0
Allocates {S} Exhausted allocate =
    (l : Layout) (w : World S)
    → IsLayout l
    → 0 < l.size
    → Ends (Answer Exhausted w.blocks w.blocks l (λ _. Unit {0})) ⊥ ⊥ (allocate l w)

abbrev pub Deallocates : {S : Type 0} (deallocate : Ptr → Layout → Cmd S (Unit {0})) → Type 0
Deallocates {S} deallocate =
    (base : ℕ) (b : Block) (l : Layout) (w : World S)
    → w.blocks base ≡ some b
    → FitsBlock l b
    → 0 < l.size
    → Ends (λ _ w'. w'.blocks ≡ put w.blocks base none) ⊥ ⊥ (deallocate (ptr base 0) l w)

-- This is the part of the contract that raw buffers rely on, and nothing is said of other layouts:
-- the sizes are positive, a block that is copied or cleared has room for a header, and the old
-- layout is the whole block. The alignment may change.
pub record IsAllocator {S : Type 0} (t : Target) (a : Allocator S) (Exhausted : Type 0)
    : Type 0 where
  pub allocate : Allocates Exhausted a.allocate
  pub allocate_zeroed :
      (l : Layout) (w : World S)
      → IsLayout l
      → 0 < l.size
      → t.header.size ≤ l.size
      → Ends (Answer Exhausted w.blocks w.blocks l IsZeroed) ⊥ ⊥ (a.allocate_zeroed l w)
  pub deallocate : Deallocates a.deallocate
  pub grow :
      (base : ℕ) (b : Block) (old new : Layout) (w : World S)
      → w.blocks base ≡ some b
      → FitsBlock old b
      → IsLayout new
      → 0 < old.size
      → t.header.size ≤ old.size
      → old.size ≤ new.size
      → Ends
          (Answer Exhausted w.blocks (put w.blocks base none) new (Keeps old.size b))
          ⊥
          ⊥
          (a.grow (ptr base 0) old new w)
  pub grow_zeroed :
      (base : ℕ) (b : Block) (old new : Layout) (w : World S)
      → w.blocks base ≡ some b
      → FitsBlock old b
      → IsLayout new
      → 0 < old.size
      → t.header.size ≤ old.size
      → old.size ≤ new.size
      → Ends
          (Answer Exhausted w.blocks (put w.blocks base none) new (Extends old.size b))
          ⊥
          ⊥
          (a.grow_zeroed (ptr base 0) old new w)
  pub shrink :
      (base : ℕ) (b : Block) (old new : Layout) (w : World S)
      → w.blocks base ≡ some b
      → FitsBlock old b
      → IsLayout new
      → 0 < new.size
      → t.header.size ≤ new.size
      → new.size ≤ old.size
      → Ends
          (Answer Exhausted w.blocks (put w.blocks base none) new (Keeps new.size b))
          ⊥
          ⊥
          (a.shrink (ptr base 0) old new w)
