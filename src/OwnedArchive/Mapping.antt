-- ===== src/OwnedArchive/Mapping.antt =====
-- The maps of an archive and their bounds checks.
use rkyv_utils.Prelude.{
  ℕ, ◌+◌, ◌-◌, ◌≤◌, ◌<◌, ◌≡◌, refl, Bool-cases, inl, inr, ◌&&◌, Result, ok, err, List, length,
  arith, leb, usize_mod,
}
use rkyv_utils.Memory.{Target, World, address, Block, done, sub_usize}
use rkyv_utils.Memory.Ends
use rkyv_utils.Memory.Ends.{Ends, ends, panics}
use rkyv_utils.BufferLayout.Fits.{IsTarget}
use rkyv_utils.Alloc.{BufferAllocator}
use rkyv_utils.Shared.{Shared, as_ptr, len}
use rkyv_utils.Unique.Append.{add_usize-plain}
use rkyv_utils.Shared.Handles.{Shares, Shares-bounds, as_slice-Shares}
use rkyv_utils.OwnedArchive.{
  new_unchecked_with_pos, OwnedArchive, within, try_within, map_with_buffer, try_map_with_buffer,
}

-- The value of `size` bytes at an address lies in the first `n` bytes of a buffer.
abbrev pub Inside : Shared → (n size start : ℕ) → Type 0
Inside s n size start = (address (as_ptr s) ≤ start) × (start + size ≤ address (as_ptr s) + n)

-- The archive of the value at `start`.
abbrev pub Mapped : OwnedArchive → (n size start : ℕ) → OwnedArchive → Type 0
Mapped o n size start o' =
    (o'.buffer ≡ o.buffer) × (address (as_ptr o'.buffer) + o'.pos ≡ start) × (o'.pos + size ≤ n)

module _ {S : Type 0} {t : Target} (v : IsTarget t) (a : BufferAllocator S) where
  within-Mapped :
      (w : World S) (o : OwnedArchive) (n size start : ℕ)
      → len o.buffer ≡ n
      → address (as_ptr o.buffer) + n < usize_mod
      → start + size < usize_mod
      → Ends
          (λ o' w'. Mapped o n size start o' × (w' ≡ w))
          (¬ Inside o.buffer n size start)
          ⊥
          (within t a o size start w)
  unfolding within new_unchecked_with_pos
  within-Mapped w o n size start e bound bound' =
      let base = address (as_ptr o.buffer) in
      let end = base + n in
      rw (e, add_usize-plain v a start size w bound', add_usize-plain v a base n w bound)
        (elim (Bool-cases (leb base start && leb start end)) [
          | inr out ↦ rw out (panics (λ h. ground (arith, out, h.0, h.1)))
          | inl first ↦
              rw first (elim (Bool-cases (leb base (start + size) && leb (start + size) end)) [
                | inr out ↦ rw out (panics (λ h. ground (arith, out, h.0, h.1)))
                | inl second ↦
                    let low : base ≤ start = ground (arith, first) in
                    let high : start + size ≤ end = ground (arith, second) in
                    let step : sub_usize t start base w ≡ done (start - base) w =
                      ground (arith, low, bound') in
                    rw (second, step) (ends ((refl, omega arith, omega arith), refl))
              ])
        ])

  module _ (w : World S) (o : OwnedArchive) (cap : ℕ) (blk : Block) (xs : List ℕ) (n size : ℕ)
      (h : Shares t w o.buffer cap blk xs n)
      (bound : address (as_ptr o.buffer) + length xs < usize_mod) where
    length-Shares : len o.buffer ≡ length xs
    unfolding len
    length-Shares = (Shares-bounds v h).1

    -- For an archive in a buffer with an allocation: a mapped archive keeps the buffer, stands at
    -- the address that the function returned, and lies within the bytes of the buffer. The map
    -- panics only where the value that the function returned does not lie in the buffer. The
    -- addresses are below 2^64.
    pub map_with_buffer-Mapped :
        (f : ℕ → List ℕ → ℕ) (start : ℕ)
        → f (address (as_ptr o.buffer) + o.pos) xs ≡ start
        → start + size < usize_mod
        → Ends
            (λ o' w'. Mapped o (length xs) size start o' × (w' ≡ w))
            (¬ Inside o.buffer (length xs) size start)
            ⊥
            (map_with_buffer t a o size f w)
    unfolding map_with_buffer
    map_with_buffer-Mapped f start returned below =
        rw (as_slice-Shares v a w o.buffer cap blk xs n h, returned)
          (within-Mapped w o (length xs) size start length-Shares bound below)

    -- What `try_map_with_buffer` leaves, for what the function returned.
    abbrev pub Tried : {E : Type 0} → Result ℕ E → Result OwnedArchive E → Type 0
    Tried (ok start) (ok o') = Mapped o (length xs) size start o'
    Tried (err e) (err e') = e' ≡ e
    Tried _ _ = ⊥

    abbrev pub Outside : {E : Type 0} → Result ℕ E → Type 0
    Outside (ok start) = ¬ Inside o.buffer (length xs) size start
    Outside (err e) = ⊥

    tried :
        {E : Type 0} (r : Result ℕ E)
        → ((start : ℕ) → r ≡ ok start → start + size < usize_mod)
        → Ends (λ r' w'. Tried r r' × (w' ≡ w)) (Outside r) ⊥ (try_within t a o size r w)
    unfolding try_within
    tried (err e) below = ends (refl, refl)
    tried (ok start) below =
        Ends.chain (within-Mapped w o (length xs) size start length-Shares bound (below start refl))
          λ o' w' m. ends m

    pub try_map_with_buffer-Tried :
        {E : Type 0} (f : ℕ → List ℕ → Result ℕ E)
        → let r = f (address (as_ptr o.buffer) + o.pos) xs in
          ((start : ℕ) → r ≡ ok start → start + size < usize_mod)
          → Ends (λ r' w'. Tried r r' × (w' ≡ w)) (Outside r) ⊥ (try_map_with_buffer t a o size f w)
    unfolding try_map_with_buffer
    try_map_with_buffer-Tried f below =
        rw (as_slice-Shares v a w o.buffer cap blk xs n h) (tried _ below)
