-- ===== src/Queue/Every.antt =====
-- Predicates that hold of every element of a queue.
use rkyv_utils.Prelude.{
  ◌≡◌, sym, subst, refl, Option, none, some, List, [], ◌∷◌, ◌++◌, length, arith,
}
use native.Mathlib.Decide.{dec_lt}
use rkyv_utils.Queue.{ArrayQueue, IsArrayQueue}

abbrev pub Every : {A : Type 0} (P : A → Type 0) → List A → Type 0
Every P [] = Unit {0}
Every P (x ∷ xs) = P x × Every P xs

pub Every-append :
    {A : Type 0} (P : A → Type 0) (xs : List A) (x : A) → Every P xs → P x → Every P (xs ++ x ∷ [])
Every-append P [] x h p = (p, tt)
Every-append P (y ∷ ys) x h p = (h.0, Every-append P ys x h.1 p)

-- `pop().unwrap_or_default()`
abbrev pub or_default : {A : Type 0} → A → Option A → A
or_default x none = x
or_default x (some y) = y

module _ {A Q : Type 0} (queue : ArrayQueue A Q) (laws : IsArrayQueue queue) (P : A → Type 0) where
  pub push-Every :
      (q : Q) (x : A) → Every P (queue.items q) → P x → Every P (queue.items (queue.push q x).0)
  push-Every q x h p = elim (dec_lt (length (queue.items q)) (laws.capacity q)) [
    | yes room ↦
        subst (Every P) (sym (laws.push_room q x room).1) (Every-append P (queue.items q) x h p)
    | no full ↦ subst (Every P) (sym (laws.push_full q x (omega arith)).1) h
  ]

  popped :
      (q : Q) (d : A) (xs : List A)
      → queue.items q ≡ xs
      → Every P xs
      → P d
      → Every P (queue.items (queue.pop q).0) × P (or_default d (queue.pop q).1)
  popped q d [] e h p =
      let facts = laws.pop_empty q e in
      (subst (Every P) (sym facts.1) tt, subst (λ o. P (or_default d o)) (sym facts.0) p)
  popped q d (x ∷ xs) e h p =
      let facts = laws.pop_first q x xs e in
      (subst (Every P) (sym facts.1) h.1, subst (λ o. P (or_default d o)) (sym facts.0) h.0)

  pub pop-Every :
      (q : Q) (d : A)
      → Every P (queue.items q)
      → P d
      → Every P (queue.items (queue.pop q).0) × P (or_default d (queue.pop q).1)
  pop-Every q d h p = popped q d (queue.items q) refl h p
