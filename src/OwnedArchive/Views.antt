-- ===== src/OwnedArchive/Views.antt =====
-- crates/rkyv-owned-archive/src/lib.rs: `deref`, `as_ref` and the buffer of an archive. rkyv's
-- `access_pos_unchecked` is a parameter: what the bytes at a position stand for.
use rkyv_utils.Prelude.{ℕ, ◌≡◌, refl, List}
use rkyv_utils.Memory.{Target, Block, World, Cmd, done, pure, ◌>>=◌}
use rkyv_utils.BufferLayout.Fits.{IsTarget}
use rkyv_utils.Alloc.{BufferAllocator}
use rkyv_utils.Shared.{as_slice}
use rkyv_utils.Shared.Handles.{Shares, as_slice-Shares}
use rkyv_utils.OwnedArchive.{OwnedArchive}

module _ {S V : Type 0} (t : Target) (a : BufferAllocator S)
    (access_pos_unchecked : List ℕ → (pos : ℕ) → V) where
  unfoldable pub deref : OwnedArchive → Cmd S V
  deref o = do bytes ← as_slice t a o.buffer; pure (access_pos_unchecked bytes o.pos)

  unfoldable pub as_ref : OwnedArchive → Cmd S V
  unfolding deref
  as_ref o = deref o

-- The archived value is what the bytes of the shared buffer stand for at its position.
pub deref-Shares :
    {S V : Type 0} {t : Target} (v : IsTarget t) (a : BufferAllocator S)
    (access_pos_unchecked : List ℕ → (pos : ℕ) → V) (w : World S) (o : OwnedArchive) (cap : ℕ)
    (blk : Block) (xs : List ℕ) (n : ℕ)
    → Shares t w o.buffer cap blk xs n
    → as_ref t a access_pos_unchecked o w ≡ done (access_pos_unchecked xs o.pos) w
unfolding as_ref deref
deref-Shares v a access_pos_unchecked w o cap blk xs n h =
    rw (as_slice-Shares v a w o.buffer cap blk xs n h) refl
