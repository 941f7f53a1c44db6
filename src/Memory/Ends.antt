-- ===== src/Memory/Ends.antt =====
-- How a run ends: with a result that meets `P`, with a panic only where `X` holds, with an abort
-- only where `Y` holds, and never in undefined behaviour.
use rkyv_utils.Prelude.{ℕ, ap, subst, ◌≡◌, refl, Bool, true, arith}
use rkyv_utils.Memory.{
  World, Run, done, panic, abort, undefined, Cmd, and_then, debug_assert, Target, Blocks,
}

pub data Ends {S A : Type 0} (P : A → World S → Type 0) (X Y : Type 0) : Run S A → Type 0 where
  ends : {a : A} {w : World S} → P a w → Ends P X Y (done a w)
  panics : X → Ends P X Y panic
  aborts : Y → Ends P X Y abort

module _ {S A : Type 0} {P : A → World S → Type 0} {X Y : Type 0} where
  pub chain :
      {B : Type 0} {Q : B → World S → Type 0} {r : Run S A} {k : A → Cmd S B}
      → Ends P X Y r
      → ((a : A) (w : World S) → P a w → Ends Q X Y (k a w))
      → Ends Q X Y (and_then r k)
  chain (ends p) next = next _ _ p
  chain (panics x) next = panics x
  chain (aborts y) next = aborts y

  pub weaken :
      {Q : A → World S → Type 0} {X' Y' : Type 0} {r : Run S A}
      → Ends P X Y r
      → ((a : A) (w : World S) → P a w → Q a w)
      → (X → X')
      → (Y → Y')
      → Ends Q X' Y' r
  weaken (ends p) f g h = ends (f _ _ p)
  weaken (panics x) f g h = panics (g x)
  weaken (aborts y) f g h = aborts (h y)

  pub ends_of_eq : {r : Run S A} {a : A} {w : World S} → r ≡ done a w → P a w → Ends P X Y r
  ends_of_eq e p = rw e (ends p)

  -- A result is the one that the run has.
  pub traced : {r : Run S A} → Ends P X Y r → Ends (λ a w. P a w × (r ≡ done a w)) X Y r
  traced (ends p) = ends (p, refl)
  traced (panics x) = panics x
  traced (aborts y) = aborts y

  -- Where neither can happen the run has a result.
  pub result_of :
      {r : Run S A} → Ends P X Y r → ¬ X → ¬ Y → (a : A) × (w : World S) × (r ≡ done a w) × P a w
  result_of (ends p) nx ny = (_, _, refl, p)
  result_of (panics x) nx ny = absurd (nx x)
  result_of (aborts y) nx ny = absurd (ny y)

-- Two commands behind a run, one after the other.
pub after :
    {S A B C : Type 0} {P : C → World S → Type 0} {X Y : Type 0} (r : Run S A) (f : A → Cmd S B)
    (g : B → Cmd S C)
    → Ends P X Y (and_then (and_then r f) g)
    → Ends P X Y (and_then r (λ a w. and_then (f a w) g))
after (done a w) f g e = e
after panic f g e = e
after abort f g e = e
after undefined f g e = e

module _ {S : Type 0} (t : Target) where
  pub debug_assert-true : {c : Bool} (w : World S) → c ≡ true → debug_assert t c w ≡ done tt w
  debug_assert-true w h = ground arith

-- Two stores that are the same hold the same at each base.
pub at_base : {m m' : Blocks} → m ≡ m' → (p : ℕ) → m p ≡ m' p
at_base e p = ap (λ (m : Blocks). m p) e

-- What is known of a run that has a result.
abbrev Given : {S A : Type 0} → (A → World S → Type 0) → Run S A → Type 0
Given P (done a w) = P a w
Given P _ = Unit {0}

known :
    {S A : Type 0} {P : A → World S → Type 0} {X Y : Type 0} {r : Run S A}
    → Ends P X Y r
    → Given P r
known (ends p) = p
known (panics x) = tt
known (aborts y) = tt

pub given :
    {S A : Type 0} {P : A → World S → Type 0} {X Y : Type 0} {r : Run S A} {a : A} {w : World S}
    → Ends P X Y r
    → r ≡ done a w
    → P a w
given {P = P} e same = subst (Given P) same (known e)
