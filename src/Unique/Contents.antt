-- ===== src/Unique/Contents.antt =====
-- The contents of a unique buffer, and what a write behind them does.
use rkyv_utils.Prelude.{
  ℕ, zero, suc, take, drop, ◌+◌, ◌≤◌, ◌≡◌, refl, ap, ◌∙◌, some, List, [], ◌∷◌, ◌++◌, append-nil,
  arith, length, length-append, isize_max,
}
use rkyv_utils.Memory.{
  Target, Block, World, put, ptr_add, read_bytes, write_bytes, load_list, store_list, done,
}
use rkyv_utils.Memory.Bytes.{
  load_list-part, load_list-cong, load_list-add, load_list-store_list, store_list-below,
}
use rkyv_utils.Memory.Ends
use rkyv_utils.Memory.Ends.{Ends, ends}
use rkyv_utils.BufferLayout.{buffer_offset}
use rkyv_utils.BufferLayout.Fits.{IsTarget, header-le-buffer_offset}
use rkyv_utils.Alloc.{BufferAllocator}
use rkyv_utils.Raw.{Raw}
use rkyv_utils.Raw.Holds.{Owns, Holds, unallocated, allocated, Frame, Frame-refl, Holds-capacity}
use rkyv_utils.Unique.{Unique, as_slice, as_ptr, capacity}

-- The buffer `u` is well formed, and its bytes are `xs`.
pub record Contains {S : Type 0} (t : Target) (w : World S) (u : Unique) (xs : List ℕ)
    : Type 0 where
  pub cap : ℕ
  pub holds : Holds t w u.buf cap xs
  pub len : u.len ≡ length xs

abbrev pub written : Target → Block → List ℕ → List ℕ → Block
written t blk xs ys = record blk { bytes = store_list blk.bytes (buffer_offset t + length xs) ys }

load-written :
    (f : ℕ → ℕ) (o : ℕ) (xs ys : List ℕ)
    → load_list f o (length xs) ≡ xs
    → load_list (store_list f (o + length xs) ys) o (length (xs ++ ys)) ≡ xs ++ ys
load-written f o xs ys e =
    rw
      (
        length-append xs ys,
        load_list-add (store_list f (o + length xs) ys) o (length xs) (length ys),
        load_list-store_list f (o + length xs) ys,
      )
      (ap (λ (zs : List ℕ). zs ++ ys)
        (load_list-cong (store_list f (o + length xs) ys) f o (length xs)
            (λ j low high. store_list-below f (o + length xs) ys j high)
          ∙ e))

module _ {S : Type 0} {t : Target} (v : IsTarget t) where
  pub write_bytes-written :
      (w : World S) (b : Raw) (cap : ℕ) (blk : Block) (xs : List ℕ) (y : ℕ) (ys : List ℕ)
      → Owns t w b cap blk
      → length xs + suc (length ys) ≤ cap
      → write_bytes t (ptr_add b.buf (length xs)) (y ∷ ys) w
        ≡ done tt (record w { blocks = put w.blocks b.buf.base (some (written t blk xs (y ∷ ys))) })
  unfolding write_bytes
  write_bytes-written w b cap blk xs y ys o room = ground (arith, header-le-buffer_offset v)

  pub written-Owns :
      (w : World S) (b : Raw) (cap : ℕ) (blk : Block) (xs ys : List ℕ)
      → Owns t w b cap blk
      → Owns t
          (record w { blocks = put w.blocks b.buf.base (some (written t blk xs ys)) })
          b
          cap
          (written t blk xs ys)
  written-Owns w b cap blk xs ys o = record {
    allocated = o.allocated;
    offset = o.offset;
    aligned = o.aligned;
    there = ground arith;
    size = o.size;
    align = o.align;
    recorded = o.recorded;
    single = o.single;
    positive = o.positive;
    fits = o.fits;
  }

  -- A write of `ys` behind the contents `xs`, where there is room, is defined and appends them.
  pub write_bytes-Holds :
      (w : World S) (b : Raw) (cap : ℕ) (xs ys : List ℕ)
      → Holds t w b cap xs
      → length xs + length ys ≤ cap
      → Ends
          (λ _ w'. Holds t w' b cap (xs ++ ys) × Frame w b w' b)
          ⊥
          ⊥
          (write_bytes t (ptr_add b.buf (length xs)) ys w)
  unfolding write_bytes
  write_bytes-Holds w b cap xs [] h room = rw (append-nil xs) (ends (h, Frame-refl w b))
  write_bytes-Holds w b cap xs (y ∷ ys) (unallocated e z n) room = absurd (omega arith)
  write_bytes-Holds w b cap xs (y ∷ ys) (allocated blk o enough bytes) room =
      Ends.ends_of_eq (write_bytes-written w b cap blk xs y ys o room) (
        allocated (written t blk xs (y ∷ ys)) (written-Owns w b cap blk xs (y ∷ ys) o)
            (omega (arith, length-append xs (y ∷ ys)))
            (load-written blk.bytes (buffer_offset t) xs (y ∷ ys) bytes),
        λ p c real other there. (ground arith, other),
      )

  read :
      (w : World S) (b : Raw) (cap : ℕ) (xs : List ℕ)
      → Holds t w b cap xs
      → read_bytes t b.buf (length xs) w ≡ done xs w
  unfolding read_bytes
  read w b cap [] h = refl
  read w b cap (x ∷ xs) (unallocated e z n) = cc
  read w b cap (x ∷ xs) (allocated blk o enough bytes) = ground (arith, header-le-buffer_offset v)

  -- A part of the contents is read as it is.
  pub read_bytes-part :
      (w : World S) (b : Raw) (cap i k : ℕ) (xs : List ℕ)
      → Holds t w b cap xs
      → i + k ≤ length xs
      → read_bytes t (ptr_add b.buf i) k w ≡ done (take k (drop i xs)) w
  unfolding read_bytes
  read_bytes-part w b cap i zero xs h room = refl
  read_bytes-part w b cap i (suc k) xs (unallocated e z n) room =
      absurd (omega (arith, ap length n))
  read_bytes-part w b cap i (suc k) xs (allocated blk o enough bytes) room =
      let part = load_list-part blk.bytes (buffer_offset t) i (suc k) xs room bytes in
      ground (arith, header-le-buffer_offset v, part)

  -- `as_slice` reads the contents and changes nothing.
  pub as_slice-Contains :
      (a : BufferAllocator S) (w : World S) (u : Unique) (xs : List ℕ)
      → Contains t w u xs
      → as_slice t a u w ≡ done xs w
  unfolding as_slice as_ptr
  as_slice-Contains a w u xs c = rw c.len (read w u.buf c.cap xs c.holds)

  -- What `capacity` reads is the capacity of the invariant.
  pub capacity-Contains :
      (w : World S) (u : Unique) (xs : List ℕ) (c : Contains t w u xs)
      → (capacity u ≡ c.cap) × (c.cap ≤ isize_max) × (length xs ≤ c.cap)
  unfolding capacity
  capacity-Contains w u xs c = Holds-capacity v c.holds
