-- ===== src/Serializer/Sharing.antt =====
-- The map of shared objects.
use rkyv_utils.Prelude.{ℕ, ◌-◌, ◌<◌, ◌≡◌, ◌≢◌, none, some, ok, err, arith, usize_max, xor_ones}
use rkyv_utils.Serializer.{
  Unify, insert, start_sharing, finish_sharing, started, pending, finished, already_finished,
}

-- An object at a new address is started, then pending, then finished at the position it was given,
-- for a position below usize::MAX; it cannot be finished again, and other addresses do not change.
pub start_sharing-finish_sharing :
    (map : Unify) (address pos again other : ℕ)
    → map address ≡ none
    → pos < usize_max
    → other ≢ address
    → let begun = insert map address none in
      let map' = insert begun address (some (usize_max - pos)) in
      (start_sharing map address ≡ (begun, started))
      × (start_sharing begun address ≡ (begun, pending))
      × (finish_sharing begun address pos ≡ some (map', ok tt))
      × (start_sharing map' address ≡ (map', finished pos))
      × (finish_sharing map' address again ≡ some (map', err already_finished))
      × (map' other ≡ map other)
unfolding start_sharing finish_sharing
start_sharing-finish_sharing map address pos again other new small apart =
    let complement = xor_ones 64 pos (omega arith) in
    let back = xor_ones 64 (usize_max - pos) (omega arith) in
    (
      ground (arith, new),
      ground arith,
      ground (arith, complement),
      ground (arith, back),
      ground arith,
      ground (arith, apart),
    )
