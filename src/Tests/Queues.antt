-- ===== src/Tests/Queues.antt =====
-- A bounded queue in memory, to try the pools on.
use rkyv_utils.Prelude.{
  ℕ, ◌≡◌, refl, Bool-cases, inl, inr, Option, none, some, Result, ok, err, List, [], ◌∷◌, ◌++◌,
  length, ltb, lt→ltb, ge→ltb, ◌==◌, if◌then◌else◌, arith,
}
use rkyv_utils.Queue.{ArrayQueue, IsArrayQueue}

pub record Ring (A : Type 0) : Type 0 where
  pub capacity : ℕ
  pub items : List A

module _ {A : Type 0} where
  abbrev ring_push : Ring A → A → Ring A × Result (Unit {0}) A
  ring_push q x =
      if ltb (length q.items) q.capacity
      then (record q { items = q.items ++ x ∷ [] }, ok tt)
      else (q, err x)

  abbrev ring_pop : Ring A → Ring A × Option A
  ring_pop q = elim q.items [ [] ↦ (q, none) | x ∷ xs ↦ (record q { items = xs }, some x) ]

  abbrev pub ring : ArrayQueue A (Ring A)
  ring = record {
    new = λ n. if n == 0 then none else some (record { capacity = n; items = [] });
    push = ring_push;
    pop = ring_pop;
    items = λ q. q.items;
  }

  pub ring_new : (n : ℕ) (s : Ring A) → ring.new n ≡ some s → (s.items ≡ []) × (s.capacity ≡ n)
  ring_new n s e = elim (Bool-cases (n == 0)) [
    | inl zero_room ↦ absurd (ground (arith, zero_room, e))
    | inr room ↦ (ground (arith, room, e), ground (arith, room, e))
  ]

  abbrev pub ring_laws : IsArrayQueue ring
  ring_laws = record {
    capacity = λ q. q.capacity;
    new_lem = ring_new;
    push_room = λ s x room. (rw (lt→ltb _ _ room) (refl, refl, refl));
    push_full = λ s x full. (rw (ge→ltb _ _ full) (refl, refl, refl));
    pop_empty = λ s e. rw e (refl, refl, refl);
    pop_first = λ s x xs e. rw e (refl, refl, refl);
  }
