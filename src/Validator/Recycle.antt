-- ===== src/Validator/Recycle.antt =====
-- The pool with the validators that are rented from it, as steps in any order.
use rkyv_utils.Prelude.{ℕ, ◌≡◌, refl, sym, subst, Bool, true, false, some, List, [], ◌∷◌, ◌++◌}
use rkyv_utils.Queue.{ArrayQueue, IsArrayQueue}
use rkyv_utils.Queue.Every.{Every, push-Every, pop-Every}
use rkyv_utils.Validator
use rkyv_utils.Validator.{
  SharedValidator, empty, clear, start_shared, finish_shared, validator, drop,
}

abbrev pub IsEmpty : {T : Type 0} → SharedValidator T → Type 0
IsEmpty v = v ≡ empty

module _ {T Q : Type 0} (queue : ArrayQueue (SharedValidator T) Q) (laws : IsArrayQueue queue) where
  pub validator-Every :
      (q : Q)
      → Every IsEmpty (queue.items q)
      → Every IsEmpty (queue.items (validator queue q).0) × IsEmpty (validator queue q).1
  unfolding validator
  validator-Every q h = pop-Every queue laws IsEmpty q empty h refl

  pub drop-Every :
      (alive : Bool) (q : Q) (v : SharedValidator T)
      → Every IsEmpty (queue.items q)
      → Every IsEmpty (queue.items (drop queue alive q v))
  unfolding drop
  drop-Every true q v h = push-Every queue laws IsEmpty q (clear v) h refl
  drop-Every false q v h = h

-- The pool, whether it is still referred to, and the validators in use.
pub record System (T Q : Type 0) : Type 0 where
  pub alive : Bool
  pub shared : Q
  pub rented : List (SharedValidator T)

module _ {T Q : Type 0} (same : (x y : T) → Dec (x ≡ y))
    (queue : ArrayQueue (SharedValidator T) Q) where
  -- `fail` of an operation leaves the map as it was, so the map is what each step keeps of it.
  pub data Step (s : System T Q) : System T Q → Type 0 where
    rent :
        s.alive ≡ true
        → Step s (record s {
          shared = (validator queue s.shared).0;
          rented = (validator queue s.shared).1 ∷ s.rented;
        })
    start :
        (before after : List (SharedValidator T)) (v : SharedValidator T) (address : ℕ) (ty : T)
        → s.rented ≡ before ++ v ∷ after
        → Step s (record s { rented = before ++ (start_shared same v address ty).0 ∷ after })
    finish :
        (before after : List (SharedValidator T)) (v : SharedValidator T) (address : ℕ) (ty : T)
        → s.rented ≡ before ++ v ∷ after
        → Step s (record s { rented = before ++ (finish_shared same v address ty).0 ∷ after })
    give_back :
        (before after : List (SharedValidator T)) (v : SharedValidator T)
        → s.rented ≡ before ++ v ∷ after
        → Step s (record s { shared = drop queue s.alive s.shared v; rented = before ++ after })
    close : Step s (record s { alive = false })

  -- `ValidatorPool::new`, then any steps.
  pub data Reach (capacity : ℕ) : System T Q → Type 0 where
    opened :
        {q : Q}
        → Validator.new queue capacity ≡ some q
        → Reach capacity (record { alive = true; shared = q; rented = [] })
    later : {s s' : System T Q} → Reach capacity s → Step s s' → Reach capacity s'

  module _ (laws : IsArrayQueue queue) where
    kept :
        (s : System T Q) (s' : System T Q)
        → Step s s'
        → Every IsEmpty (queue.items s.shared)
        → Every IsEmpty (queue.items s'.shared)
    kept s _ (rent _) h = (validator-Every queue laws s.shared h).0
    kept s _ (start _ _ _ _ _ _) h = h
    kept s _ (finish _ _ _ _ _ _) h = h
    kept s _ (give_back _ _ v _) h = drop-Every queue laws s.alive s.shared v h
    kept s _ close h = h

    reached :
        {capacity : ℕ} {s : System T Q} → Reach capacity s → Every IsEmpty (queue.items s.shared)
    unfolding Validator.new
    reached (opened {q} e) = subst (Every IsEmpty) (sym (laws.new_lem _ q e).0) tt
    reached (later {s} {s'} r step) = kept s s' step (reached r)

    -- In whatever order validators are rented, used and given back, one that is rented from the
    -- pool is empty.
    pub Reach-fresh :
        {capacity : ℕ} {s : System T Q} → Reach capacity s → (validator queue s.shared).1 ≡ empty
    Reach-fresh {s = s} r = (validator-Every queue laws s.shared (reached r)).1
