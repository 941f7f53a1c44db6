-- ===== src/Validator/Access.antt =====
-- crates/aligned-buffer-pool/src/validator_pool.rs: `access` and `access_pos` of a pool. rkyv's
-- `access_with_context` and `access_pos_with_context` are parameters: they are given the bytes and
-- the shared validator, and end with it and the reference or the error.
use rkyv_utils.Prelude.{ℕ, ◌≡◌, refl, subst, true, Result, List}
use rkyv_utils.Queue.{ArrayQueue, IsArrayQueue}
use rkyv_utils.Queue.Every.{Every}
use rkyv_utils.Validator.{SharedValidator, empty, validator, drop}
use rkyv_utils.Validator.Recycle.{IsEmpty, validator-Every, drop-Every}

-- The validator is dropped at the end of the call, and the caller has a reference to the pool.
module _ {T Q A E : Type 0} (queue : ArrayQueue (SharedValidator T) Q) where
  unfoldable pub access :
      (List ℕ → SharedValidator T → SharedValidator T × Result A E) → Q → List ℕ → Q × Result A E
  access access_with_context pool bytes =
      let (pool', shared) = validator queue pool in
      let (shared', result) = access_with_context bytes shared in
      (drop queue true pool' shared', result)

  unfoldable pub access_pos :
      (List ℕ → (pos : ℕ) → SharedValidator T → SharedValidator T × Result A E)
      → Q
      → List ℕ
      → (pos : ℕ) → Q × Result A E
  access_pos access_pos_with_context pool bytes pos =
      let (pool', shared) = validator queue pool in
      let (shared', result) = access_pos_with_context bytes pos shared in
      (drop queue true pool' shared', result)

  -- With a pool whose validators are all empty, access gives the result of a check with an empty
  -- validator, and leaves a pool whose validators are all empty, whatever the check claimed.
  pub access-Every :
      (laws : IsArrayQueue queue)
      (access_with_context : List ℕ → SharedValidator T → SharedValidator T × Result A E) (pool : Q)
      (bytes : List ℕ)
      → Every IsEmpty (queue.items pool)
      → ((access access_with_context pool bytes).1 ≡ (access_with_context bytes empty).1)
        × Every IsEmpty (queue.items (access access_with_context pool bytes).0)
  unfolding access
  access-Every laws access_with_context pool bytes h =
      let rented = validator-Every queue laws pool h in
      (
        subst
            (λ (v : SharedValidator T).
              (access_with_context bytes (validator queue pool).1).1
              ≡ (access_with_context bytes v).1)
            rented.1 refl,
        drop-Every queue laws true (validator queue pool).0
            (access_with_context bytes (validator queue pool).1).0 rented.0,
      )
