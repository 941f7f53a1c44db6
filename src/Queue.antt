-- ===== src/Queue.antt =====
-- `ArrayQueue` of the crate crossbeam-queue: a bounded first-in first-out queue. It is a parameter;
-- its documentation is stated as laws.
pub mod Every
use rkyv_utils.Prelude.{
  ℕ, ◌≤◌, ◌<◌, ◌≡◌, Option, none, some, Result, ok, err, List, [], ◌∷◌, ◌++◌, length,
}

-- `items` are the elements that are dropped with the queue, first the next one to pop. `new` panics
-- (`none`) for a capacity of zero.
pub record ArrayQueue (A Q : Type 0) : Type 0 where
  pub new : ℕ → Option Q
  pub push : Q → A → Q × Result (Unit {0}) A
  pub pop : Q → Q × Option A
  pub items : Q → List A

pub record IsArrayQueue {A Q : Type 0} (q : ArrayQueue A Q) : Type 0 where
  pub capacity : Q → ℕ
  pub new_lem : (n : ℕ) (s : Q) → q.new n ≡ some s → (q.items s ≡ []) × (capacity s ≡ n)
  pub push_room :
      (s : Q) (x : A)
      → length (q.items s) < capacity s
      → ((q.push s x).1 ≡ ok tt)
        × (q.items (q.push s x).0 ≡ q.items s ++ x ∷ [])
        × (capacity (q.push s x).0 ≡ capacity s)
  pub push_full :
      (s : Q) (x : A)
      → capacity s ≤ length (q.items s)
      → ((q.push s x).1 ≡ err x)
        × (q.items (q.push s x).0 ≡ q.items s)
        × (capacity (q.push s x).0 ≡ capacity s)
  pub pop_empty :
      (s : Q)
      → q.items s ≡ []
      → ((q.pop s).1 ≡ none) × (q.items (q.pop s).0 ≡ []) × (capacity (q.pop s).0 ≡ capacity s)
  pub pop_first :
      (s : Q) (x : A) (xs : List A)
      → q.items s ≡ x ∷ xs
      → ((q.pop s).1 ≡ some x) × (q.items (q.pop s).0 ≡ xs) × (capacity (q.pop s).0 ≡ capacity s)
