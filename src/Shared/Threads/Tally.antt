-- ===== src/Shared/Threads/Tally.antt =====
-- Sums over the calls in flight.
use rkyv_utils.Prelude.{
  ℕ, ◌+◌, ◌≤◌, ◌≡◌, List, [], ◌∷◌, ◌++◌, length, ltb, ◌==◌, if◌then◌else◌, arith,
}
use rkyv_utils.Raw.{max_refcount}
use rkyv_utils.Shared.Threads.{Pending, cloned, subtracted, acquired, stored, alone}

abbrev pub tally : (Pending → ℕ) → List Pending → ℕ
tally f [] = 0
tally f (call ∷ calls) = f call + tally f calls

-- The handles that the calls will give, those for which a clone will abort, the last drops, and
-- those that have stored the count.
abbrev pub giving : Pending → ℕ
giving (cloned old) = if ltb max_refcount old then 0 else 1
giving alone = 1
giving call = 0

abbrev pub aborting : Pending → ℕ
aborting (cloned old) = if ltb max_refcount old then 1 else 0
aborting call = 0

abbrev pub ending : Pending → ℕ
ending (subtracted old) = if old == 1 then 1 else 0
ending acquired = 1
ending stored = 1
ending call = 0

abbrev pub storing : Pending → ℕ
storing stored = 1
storing call = 0

abbrev pub lonely : Pending → ℕ
lonely alone = 1
lonely call = 0

pub tally-append :
    (f : Pending → ℕ) (front back : List Pending)
    → tally f (front ++ back) ≡ tally f front + tally f back
tally-append f [] back = omega arith
tally-append f (call ∷ front) back = omega (arith, tally-append f front back)

aborting_one : (call : Pending) → aborting call ≤ 1
aborting_one (cloned old) = ground arith
aborting_one (subtracted old) = omega arith
aborting_one acquired = omega arith
aborting_one stored = omega arith
aborting_one alone = omega arith

pub tally-aborting : (calls : List Pending) → tally aborting calls ≤ length calls
tally-aborting [] = omega arith
tally-aborting (call ∷ calls) = omega (arith, aborting_one call, tally-aborting calls)

storing_one : (call : Pending) → storing call ≤ ending call
storing_one (cloned old) = omega arith
storing_one (subtracted old) = omega arith
storing_one acquired = omega arith
storing_one stored = omega arith
storing_one alone = omega arith

pub tally-storing : (calls : List Pending) → tally storing calls ≤ tally ending calls
tally-storing [] = omega arith
tally-storing (call ∷ calls) = omega (arith, storing_one call, tally-storing calls)

lonely_one : (call : Pending) → lonely call ≤ giving call
lonely_one (cloned old) = omega arith
lonely_one (subtracted old) = omega arith
lonely_one acquired = omega arith
lonely_one stored = omega arith
lonely_one alone = omega arith

pub tally-lonely : (calls : List Pending) → tally lonely calls ≤ tally giving calls
tally-lonely [] = omega arith
tally-lonely (call ∷ calls) = omega (arith, lonely_one call, tally-lonely calls)

-- A tally does not depend on the order.
pub tally-moved :
    (f : Pending → ℕ) (front middle back : List Pending)
    → tally f (front ++ (middle ++ back)) ≡ tally f (middle ++ (front ++ back))
tally-moved f front middle back = omega (
  arith,
  tally-append f front (middle ++ back),
  tally-append f middle (front ++ back),
  tally-append f middle back,
  tally-append f front back,
)
