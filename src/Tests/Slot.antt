-- ===== src/Tests/Slot.antt =====
-- A build for x86-64 with debug assertions, and a system allocator with one place for each
-- alignment, under `Global`.
use native.Mathlib.Nat.{mod_self}
use rkyv_utils.Prelude.{
  ℕ, ◌%◌, ◌<◌, ◌≡◌, min, refl, sym, fun_ext, true, Bool-cases, Option-cases, inl, inr, Option, none,
  some, ◌==◌, if◌then◌else◌, arith, is_power_of_two,
}
use rkyv_utils.Layout.{
  Layout, IsLayout, extend, from_size_align, from_size_alignment, padding_needed_for,
}
use rkyv_utils.Memory.{Target, Block, World, Ptr, ptr, put, Cmd, done, undefined}
use rkyv_utils.Memory.Ends
use rkyv_utils.Memory.Ends.{Ends, ends}
use rkyv_utils.BufferLayout.{offset_const, buffer_offset}
use rkyv_utils.BufferLayout.Fits.{IsTarget}
use rkyv_utils.Alloc.{Allocator, BufferAllocator}
use rkyv_utils.Alloc.Global.{System, slice_of, global, global_buffers}
use rkyv_utils.Alloc.Global.Lawful.{IsSystem, global-IsAllocator}
use rkyv_utils.Alloc.Contract.{IsAllocator, Keeps, IsZeroed, FitsBlock, Answer, Answer-map}
use rkyv_utils.Raw.Holds.{IsBufferAllocator}
use rkyv_utils.Raw.Release.{default-IsBufferAllocator}

abbrev pub target : Target
target = record { debug = true; header = record { size = 256; align = 128 }; alignment = 64 }

pub buffer_offset_lem : buffer_offset target ≡ 256
unfolding offset_const buffer_offset extend from_size_align from_size_alignment padding_needed_for
    is_power_of_two
buffer_offset_lem = refl

pub target-IsTarget : IsTarget target
unfolding offset_const buffer_offset extend from_size_align from_size_alignment padding_needed_for
    is_power_of_two
target-IsTarget = record {
  header = record { exponent = 7; power = refl; small = omega arith; fits = omega arith };
  compiles = refl;
}

abbrev answer : World (Unit {0}) → Layout → ℕ → Block → World (Unit {0})
answer w l base b = record w { blocks = put w.blocks base (some b) }

abbrev fresh_block : Layout → Block
fresh_block l = record {
  length = l.size;
  align = l.align;
  header = record { ref_count = 0; alloc_buffer_size = 0 };
  bytes = λ _. 0;
}

-- The place for an alignment is the address that is the alignment.
abbrev alloc : Layout → Cmd (Unit {0}) (Option Ptr)
alloc l w = elim (w.blocks l.align) [
  | some _ ↦ done none w
  | none ↦ done (some (ptr l.align 0)) (answer w l l.align (fresh_block l))
]

-- A block grows and shrinks in place, where its place is aligned.
abbrev realloc : Ptr → Layout → ℕ → Cmd (Unit {0}) (Option Ptr)
realloc p l new_size w = elim (w.blocks p.base) [
  | none ↦ undefined
  | some b ↦
      if p.base % l.align == 0
      then done (some (ptr p.base 0)) (answer w l p.base (record b { length = new_size }))
      else done none w
]

abbrev pub slot_system : System (Unit {0})
slot_system = record {
  alloc = alloc;
  alloc_zeroed = alloc;
  dealloc = λ p l w. done tt (record w { blocks = put w.blocks p.base none });
  realloc = realloc;
}

alloc-Zeroed :
    (l : Layout) (w : World (Unit {0}))
    → IsLayout l
    → 0 < l.size
    → Ends (λ r. Answer (Unit {0}) w.blocks w.blocks l IsZeroed (slice_of l.size r)) ⊥ ⊥ (alloc l w)
alloc-Zeroed l w h pos = elim (Option-cases (w.blocks l.align)) [
  | inl e ↦
      rw (e, alloc)
        (ends (
          fresh_block l,
          record {
            at_start = refl;
            fresh = e;
            enough = omega arith;
            small = h.fits;
            length = refl;
            align = refl;
            aligned = mod_self l.align;
          },
          record { header = refl; bytes = λ i small. refl },
          refl,
        ))
  | inr (b, e) ↦ rw (e, alloc) (ends (tt, refl))
]

alloc-Answer :
    (l : Layout) (w : World (Unit {0}))
    → IsLayout l
    → 0 < l.size
    → Ends
        (λ r. Answer (Unit {0}) w.blocks w.blocks l (λ _. Unit {0}) (slice_of l.size r))
        ⊥
        ⊥
        (alloc l w)
alloc-Answer l w h pos =
    Ends.weaken (alloc-Zeroed l w h pos)
      (λ r w'. Answer-map _ _ _ _ IsZeroed _ (slice_of l.size r) w' (λ b z. tt)) (λ x. x) (λ x. x)

realloc-Answer :
    (base : ℕ) (b : Block) (l : Layout) (n : ℕ) (w : World (Unit {0}))
    → w.blocks base ≡ some b
    → FitsBlock l b
    → 0 < n
    → IsLayout (record l { size = n })
    → Ends
        (λ r.
          Answer
            (Unit {0})
            w.blocks
            (put w.blocks base none)
            (record l { size = n })
            (Keeps (min l.size n) b)
            (slice_of n r))
        ⊥
        ⊥
        (realloc (ptr base 0) l n w)
realloc-Answer base b l n w there fits pos h = elim (Bool-cases (base % l.align == 0)) [
  | inl aligned ↦
      rw (there, aligned, realloc)
        (ends (
          record b { length = n },
          record {
            at_start = refl;
            fresh = ground arith;
            enough = omega arith;
            small = h.fits;
            length = refl;
            align = sym fits.align;
            aligned = ground (arith, aligned);
          },
          record { header = refl; bytes = λ i small. refl },
          fun_ext λ p. ground arith,
        ))
  | inr crooked ↦ rw (there, crooked, realloc) (ends (tt, refl))
]

pub slot_system-IsSystem : IsSystem slot_system (Unit {0})
slot_system-IsSystem = record {
  alloc = alloc-Answer;
  alloc_zeroed = alloc-Zeroed;
  dealloc = λ base b l w there fits pos. ends refl;
  realloc = realloc-Answer;
}

abbrev pub slot : Allocator (Unit {0})
slot = global target slot_system

pub slot-IsAllocator : IsAllocator target slot (Unit {0})
slot-IsAllocator = global-IsAllocator target slot_system slot_system-IsSystem

abbrev pub slots : BufferAllocator (Unit {0})
slots = global_buffers target slot_system

pub slots-IsBufferAllocator : IsBufferAllocator target slots (Unit {0})
slots-IsBufferAllocator = default-IsBufferAllocator target-IsTarget slot slot-IsAllocator
