-- ===== src/Validator/Claims.antt =====
-- How an object that is shared is validated.
use rkyv_utils.Prelude.{
  ℕ, ◌≡◌, ◌≢◌, refl, Option, Bool, Bool-cases, inl, inr, true, false, none, some, ok, err, arith,
  ◌==◌, ◌||◌,
}
use rkyv_utils.Validator.{
  SharedValidator, claim, start_shared, finish_shared, started, pending, finished, type_mismatch,
  not_started, already_finished,
}

module _ {T : Type 0} (same : (x y : T) → Dec (x ≡ y)) where
  -- An object at a new address cannot be finished; it is started, then pending, then finished, and
  -- cannot be finished again. Another type is refused at its address, and other addresses do not
  -- change.
  pub start_shared-finish_shared :
      (v : SharedValidator T) (address other : ℕ) (ty wrong : T)
      → v address ≡ none
      → other ≢ address
      → wrong ≢ ty
      → let begun = claim v address (ty, false) in
        let ended = claim begun address (ty, true) in
        (finish_shared same v address ty ≡ (v, err not_started))
        × (start_shared same v address ty ≡ (begun, ok started))
        × (start_shared same begun address ty ≡ (begun, ok pending))
        × (start_shared same begun address wrong ≡ (begun, err (type_mismatch ty wrong)))
        × (finish_shared same begun address wrong ≡ (begun, err (type_mismatch ty wrong)))
        × (finish_shared same begun address ty ≡ (ended, ok tt))
        × (start_shared same ended address ty ≡ (ended, ok finished))
        × (finish_shared same ended address ty ≡ (ended, err already_finished))
        × (ended other ≡ v other)
  unfolding start_shared finish_shared
  start_shared-finish_shared v address other ty wrong new apart unlike = (
    ground (arith, new),
    ground (arith, new),
    ground arith,
    ground (arith, unlike),
    ground (arith, unlike),
    ground arith,
    ground arith,
    ground arith,
    ground (arith, apart),
  )

  started_stays :
      (v : SharedValidator T) (a b : ℕ) (ty other : T) (f : Bool) (o : Option (T × Bool))
      → v b ≡ o
      → v a ≡ some (ty, f)
      → (start_shared same v b other).0 a ≡ some (ty, f)
  unfolding start_shared
  started_stays v a b ty other f none e claimed = ground (arith, e, claimed)
  started_stays v a b ty other f (some (previous, done)) e claimed = ground (arith, e, claimed)

  -- Neither operation, at whatever address and for whatever type, changes the type that an address
  -- was claimed as, or makes a finished one unfinished.
  pub claimed_stays :
      (v : SharedValidator T) (a b : ℕ) (ty other : T) (f : Bool)
      → v a ≡ some (ty, f)
      → ((start_shared same v b other).0 a ≡ some (ty, f))
        × ((g : Bool) × ((finish_shared same v b other).0 a ≡ some (ty, f || g)))
  unfolding start_shared finish_shared
  claimed_stays v a b ty other f claimed = (
    started_stays v a b ty other f (v b) refl claimed,
    elim (Bool-cases (a == b)) [
      | inl e ↦ elim (same ty other) [
        | yes e' ↦ (true, ground (arith, claimed, e, e'))
        | no apart ↦ (false, ground (arith, claimed, e, apart))
      ]
      | inr apart ↦ (false, ground (arith, claimed, apart))
    ],
  )
