-- ===== src/Alloc/Default.antt =====
-- crates/aligned-buffer/src/alloc.rs: the methods that the trait `Allocator` provides, from those
-- that it requires.
pub mod Lawful
use rkyv_utils.Prelude.{ℕ, Option, none, some, leb}
use rkyv_utils.Layout.{Layout}
use rkyv_utils.Memory.{
  Target, Ptr, World, Cmd, pure, ◌>>=◌, ◌>>◌, debug_assert, copy_nonoverlapping, write_zeroes,
}
use rkyv_utils.Alloc.{Slice, Allocator}

module _ {S : Type 0} (t : Target) (deallocate : Ptr → Layout → Cmd S (Unit {0})) where
  -- What follows a new allocation: `?`, the copy, and the end of the old one.
  unfoldable pub relocate : Ptr → Layout → ℕ → Option Slice → Cmd S (Option Slice)
  relocate p old_layout n none = pure none
  relocate p old_layout n (some s) = do
    copy_nonoverlapping t p s.start n
    deallocate p old_layout
    pure (some s)

module _ {S : Type 0} (t : Target) (allocate : Layout → Cmd S (Option Slice)) where
  unfoldable pub fill_zero : Option Slice → Cmd S (Option Slice)
  fill_zero none = pure none
  fill_zero (some s) = do write_zeroes t s.start s.len; pure (some s)

  unfoldable pub default_allocate_zeroed : Layout → Cmd S (Option Slice)
  unfolding fill_zero
  default_allocate_zeroed l = allocate l >>= fill_zero

  module _ (deallocate : Ptr → Layout → Cmd S (Unit {0})) where
    unfoldable pub default_grow : Ptr → (old_layout new_layout : Layout) → Cmd S (Option Slice)
    default_grow p old_layout new_layout = do
      debug_assert t (leb old_layout.size new_layout.size)
      new_ptr ← allocate new_layout
      relocate t deallocate p old_layout old_layout.size new_ptr

    unfoldable pub default_shrink : Ptr → (old_layout new_layout : Layout) → Cmd S (Option Slice)
    default_shrink p old_layout new_layout = do
      debug_assert t (leb new_layout.size old_layout.size)
      new_ptr ← allocate new_layout
      relocate t deallocate p old_layout new_layout.size new_ptr

module _ {S : Type 0} (t : Target) where
  unfoldable pub default_grow_zeroed :
      (allocate_zeroed : Layout → Cmd S (Option Slice))
      → (deallocate : Ptr → Layout → Cmd S (Unit {0})) → Ptr
      → (old_layout new_layout : Layout) → Cmd S (Option Slice)
  default_grow_zeroed allocate_zeroed deallocate p old_layout new_layout = do
    debug_assert t (leb old_layout.size new_layout.size)
    new_ptr ← allocate_zeroed new_layout
    relocate t deallocate p old_layout old_layout.size new_ptr

  -- An implementation of the trait that keeps every method that the trait provides.
  abbrev pub with_defaults :
      (allocate : Layout → Cmd S (Option Slice)) (deallocate : Ptr → Layout → Cmd S (Unit {0}))
      → Allocator S
  with_defaults allocate deallocate = record {
    allocate = allocate;
    allocate_zeroed = default_allocate_zeroed t allocate;
    deallocate = deallocate;
    grow = default_grow t allocate deallocate;
    grow_zeroed = default_grow_zeroed (default_allocate_zeroed t allocate) deallocate;
    shrink = default_shrink t allocate deallocate;
  }
