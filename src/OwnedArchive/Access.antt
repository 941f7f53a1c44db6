-- ===== src/OwnedArchive/Access.antt =====
-- The constructors that check the archive, with a new validator and with one of a pool.
use rkyv_utils.Prelude.{
  ℕ, ◌+◌, ◌-◌, ◌≤◌, ◌≡◌, refl, sym, subst, ap, true, Result, ok, err, List, length, arith,
}
use rkyv_utils.Memory.{Target, World, Block}
use rkyv_utils.Memory.Ends.{Ends, ends}
use rkyv_utils.BufferLayout.Fits.{IsTarget}
use rkyv_utils.Alloc.{BufferAllocator}
use rkyv_utils.Shared.{Shared, len}
use rkyv_utils.Shared.Handles.{Shares, Shares-bounds, as_slice-Shares}
use rkyv_utils.Queue.{ArrayQueue, IsArrayQueue}
use rkyv_utils.Queue.Every.{Every}
use rkyv_utils.Validator.{SharedValidator, empty}
use rkyv_utils.Validator.Recycle.{IsEmpty, validator-Every, drop-Every}
use rkyv_utils.OwnedArchive.{
  OwnedArchive, new_unchecked_with_pos, made, root_pos, new, new_with_pos,
  new_with_pooled_validator, new_with_pos_and_pooled_validator,
}

-- What rkyv documents of an access: it succeeds only for a value that lies in the bytes.
abbrev pub ChecksBounds :
    {C E : Type 0} → (size : ℕ) → (List ℕ → ℕ → C → C × Result (Unit {0}) E) → Type 0
ChecksBounds {C} size access =
    (bytes : List ℕ) (pos : ℕ) (context : C)
    → (access bytes pos context).1 ≡ ok tt
    → pos + size ≤ length bytes

-- What a constructor makes of the check: the archive of the root, which ends with the bytes, or the
-- error of the check.
abbrev pub Made :
    {E : Type 0} (buffer : Shared) (xs : List ℕ) (size : ℕ)
    → Result (Unit {0}) E
    → Result OwnedArchive E
    → Type 0
Made buffer xs size (ok _) (ok o) = (o.buffer ≡ buffer) × (o.pos + size ≡ length xs)
Made buffer xs size (err e) (err e') = e' ≡ e
Made buffer xs size _ _ = ⊥

module _ {S : Type 0} {t : Target} (v : IsTarget t) (a : BufferAllocator S) (w : World S)
    (buffer : Shared) (cap : ℕ) (blk : Block) (xs : List ℕ) (n : ℕ)
    (h : Shares t w buffer cap blk xs n) (size : ℕ) where
  root : root_pos size buffer ≡ length xs - size
  unfolding root_pos len
  root = ap (λ (k : ℕ). k - size) (Shares-bounds v h).1

  made-Made :
      {E : Type 0} (r : Result (Unit {0}) E)
      → (r ≡ ok tt → length xs - size + size ≤ length xs)
      → Made buffer xs size r (made buffer (length xs - size) r)
  unfolding made new_unchecked_with_pos
  made-Made (err e) fits = refl
  made-Made (ok tt) fits = let bound = fits refl in (refl, omega arith)

  -- `new` gives the archive of the root exactly where the check passes.
  pub new-Made :
      {C E : Type 0} (access : List ℕ → ℕ → C → C × Result (Unit {0}) E) (make : List ℕ → C)
      → ChecksBounds size access
      → Ends
          (λ r w'. Made buffer xs size (access xs (length xs - size) (make xs)).1 r × (w' ≡ w))
          ⊥
          ⊥
          (new t a access make size buffer w)
  unfolding new new_with_pos
  new-Made access make checks =
      rw (as_slice-Shares v a w buffer cap blk xs n h, root)
        (ends (made-Made _ (checks xs (length xs - size) (make xs)), refl))

  -- For a buffer with an allocation: with a validator of a pool whose validators are empty, the
  -- result is that of the check with a new validator: the archive of the root, which ends with the
  -- bytes, or the error. The validators of the pool are empty again. A check is one that accepts
  -- only values within the bytes.
  pub new_with_pooled_validator-Made :
      {T Q E : Type 0} (queue : ArrayQueue (SharedValidator T) Q) (laws : IsArrayQueue queue)
      (access : List ℕ → ℕ → SharedValidator T → SharedValidator T × Result (Unit {0}) E) (pool : Q)
      → ChecksBounds size access
      → Every IsEmpty (queue.items pool)
      → Ends
          (λ (pool', r) w'.
            Made buffer xs size (access xs (length xs - size) empty).1 r
            × Every IsEmpty (queue.items pool')
            × (w' ≡ w))
          ⊥
          ⊥
          (new_with_pooled_validator t a queue access size buffer pool w)
  unfolding new_with_pooled_validator new_with_pos_and_pooled_validator
  new_with_pooled_validator-Made queue laws access pool checks empty_ones =
      let rented = validator-Every queue laws pool empty_ones in
      rw (as_slice-Shares v a w buffer cap blk xs n h, root)
        (ends (
          subst
              (λ c.
                Made buffer xs size (access xs (length xs - size) empty).1
                  (made buffer (length xs - size) (access xs (length xs - size) c).1))
              (sym rented.1) (made-Made _ (checks xs (length xs - size) empty)),
          drop-Every queue laws true _ _ rented.0,
          refl,
        ))
