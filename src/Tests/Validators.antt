-- ===== src/Tests/Validators.antt =====
-- The validators and their pool at concrete inputs.
use rkyv_utils.Prelude.{ℕ, ◌≡◌, refl, true, false, Bool, some, Result, ok, List, [], ◌∷◌, length}
use native.Mathlib.Decide.{ℕ_discrete}
use rkyv_utils.Validator
use rkyv_utils.Validator.{
  SharedValidator, claim, empty, started, pending, finished, type_mismatch, not_started,
  already_finished, start_shared, finish_shared, validator,
}
use rkyv_utils.Validator.Claims.{claimed_stays}
use rkyv_utils.Queue.Every.{Every}
use rkyv_utils.Validator.Access.{access, access-Every}
use rkyv_utils.Validator.Recycle.{
  IsEmpty, System, Reach, rent, start, give_back, opened, later, Reach-fresh,
}
use rkyv_utils.Tests.Queues.{Ring, ring, ring_laws}

-- Type identifiers are numbers.
claimed_stays_example :
    ((start_shared ℕ_discrete (claim empty 4096 (3, false)) 4096 5).0 4096 ≡ some (3, false))
    × ((g : Bool) × ((finish_shared ℕ_discrete (claim empty 4096 (3, false)) 4096 5).0 4096
          ≡ some (3, g)))
claimed_stays_example =
    claimed_stays ℕ_discrete (claim empty 4096 (3, false)) 4096 4096 3 5 false refl

abbrev begun : SharedValidator ℕ
begun = claim empty 4096 (3, false)

abbrev ended : SharedValidator ℕ
ended = claim begun 4096 (3, true)

-- A validator that claimed an object is given back.
abbrev one_pool : Ring (SharedValidator ℕ)
one_pool = record { capacity = 1; items = [] }

abbrev claimed : SharedValidator ℕ
claimed = (start_shared ℕ_discrete empty 4096 3).0

abbrev after : System ℕ (Ring (SharedValidator ℕ))
after = record { alive = true; shared = Validator.drop ring true one_pool claimed; rented = [] }

three_steps : Reach ℕ_discrete ring 1 after
unfolding validator Validator.drop Validator.new
three_steps =
    later (later (later (opened {q = one_pool} refl) (rent refl)) (start [] [] empty 4096 3 refl))
      (give_back [] [] claimed refl)

Reach-fresh_example : (validator ring after.shared).1 ≡ empty
Reach-fresh_example = Reach-fresh ℕ_discrete ring ring_laws three_steps

-- A check that claims an object and succeeds.
abbrev claims_one : List ℕ → SharedValidator ℕ → SharedValidator ℕ × Result ℕ (Unit {0})
claims_one bytes shared = (claim shared 4096 (3, true), ok (length bytes))

access-Every_example :
    ((access ring claims_one one_pool (1 ∷ 2 ∷ [])).1 ≡ ok 2)
    × Every IsEmpty (access ring claims_one one_pool (1 ∷ 2 ∷ [])).0.items
access-Every_example = access-Every ring ring_laws claims_one one_pool (1 ∷ 2 ∷ []) tt
