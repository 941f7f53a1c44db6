-- ===== src/Validator.antt =====
-- crates/aligned-buffer-pool/src/validator_pool.rs and validator_pool/shared.rs: the pool of
-- validators, and the map by which a validator checks a shared object once.
pub mod Claims
pub mod Recycle
pub mod Access
use rkyv_utils.Prelude.{
  ℕ, ◌≡◌, Bool, true, false, Option, none, some, Result, ok, err, List, [], ◌∷◌, ◌++◌, ◌==◌,
  if◌then◌else◌,
}
use rkyv_utils.Queue.{ArrayQueue}
use rkyv_utils.Queue.Every.{or_default}

-- rkyv's `ValidationState`
pub data ValidationState : Type 0 where
  started pending finished : ValidationState

pub data SharedError (T : Type 0) : Type 0 where
  type_mismatch : (previous current : T) → SharedError T
  not_started already_finished : SharedError T

-- For an address that was started, the type it was claimed as, and whether it is finished.
abbrev pub SharedValidator : Type 0 → Type 0
SharedValidator T = ℕ → Option (T × Bool)

abbrev pub empty : {T : Type 0} → SharedValidator T
empty address = none

abbrev pub clear : {T : Type 0} → SharedValidator T → SharedValidator T
clear v = empty

abbrev pub claim : {T : Type 0} → SharedValidator T → ℕ → T × Bool → SharedValidator T
claim v address entry k = if k == address then some entry else v k

-- `TypeId` of std is `T`, whose `==` is decided by `same`.
module _ {T : Type 0} (same : (x y : T) → Dec (x ≡ y)) where
  start_occupied :
      SharedValidator T → T → T × Bool → SharedValidator T × Result ValidationState (SharedError T)
  start_occupied v type_id (previous, done) = elim (same previous type_id) [
    | no _ ↦ (v, err (type_mismatch previous type_id))
    | yes _ ↦ (v, ok (if done then finished else pending))
  ]

  unfoldable pub start_shared :
      SharedValidator T
      → (address : ℕ) → T
      → SharedValidator T × Result ValidationState (SharedError T)
  unfolding start_occupied
  start_shared v address type_id = elim (v address) [
    | none ↦ (claim v address (type_id, false), ok started)
    | some entry ↦ start_occupied v type_id entry
  ]

  finish_occupied :
      SharedValidator T → ℕ → T → T × Bool → SharedValidator T × Result (Unit {0}) (SharedError T)
  finish_occupied v address type_id (previous, done) = elim (same previous type_id) [
    | no _ ↦ (v, err (type_mismatch previous type_id))
    | yes _ ↦ if done then (v, err already_finished) else (claim v address (previous, true), ok tt)
  ]

  unfoldable pub finish_shared :
      SharedValidator T → (address : ℕ) → T → SharedValidator T × Result (Unit {0}) (SharedError T)
  unfolding finish_occupied
  finish_shared v address type_id = elim (v address) [
    | none ↦ (v, err not_started)
    | some entry ↦ finish_occupied v address type_id entry
  ]

module _ {T Q : Type 0} (queue : ArrayQueue (SharedValidator T) Q) where
  -- `none` is the panic of the queue for a capacity of zero.
  unfoldable pub new : (capacity : ℕ) → Option Q
  new capacity = queue.new capacity

  -- The queue of the pool, and the shared validator of a `PooledValidator`.
  unfoldable pub validator : Q → Q × SharedValidator T
  validator q = let (q', v) = queue.pop q in (q', or_default empty v)

  -- `alive` is whether the weak reference to the pool upgrades.
  unfoldable pub drop : (alive : Bool) → Q → SharedValidator T → Q
  drop alive q v = if alive then (queue.push q (clear v)).0 else q
