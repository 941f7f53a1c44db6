-- ===== src/SerializerPool/Pipeline/Begin.antt =====
-- What `get` hands out.
use rkyv_utils.Prelude.{ℕ, ◌≡◌, refl, sym, subst, Bool, List, [], ◌∷◌, ◌++◌, append-nil}
use rkyv_utils.Memory.{Target, World}
use rkyv_utils.Memory.Ends.{Ends, ends}
use rkyv_utils.Alloc.{Allocator}
use rkyv_utils.Raw
use rkyv_utils.Raw.{Raw}
use rkyv_utils.Raw.Holds.{unallocated}
use rkyv_utils.Unique
use rkyv_utils.Unique.{Unique}
use rkyv_utils.Unique.Contents.{Contains}
use rkyv_utils.Queue.{ArrayQueue, IsArrayQueue}
use rkyv_utils.Pool
use rkyv_utils.Pool.{or_new}
use rkyv_utils.Pool.Rented.{Rented}
use rkyv_utils.Pool.Rented.Separate.{Apart, ApartAll, Separate, ApartAll-new_in}
use rkyv_utils.Pool.Rented.Steps.{as_rented}
use rkyv_utils.Serializer.{Unify}
use rkyv_utils.SerializerPool.{Inner, get, pop_unify}
use rkyv_utils.SerializerPool.Focus.{Contains-same}
use rkyv_utils.SerializerPool.Pipeline.{Ready, Idle}

abbrev first_or_new : List Unique → Unique
first_or_new [] = Unique.new_in
first_or_new (u ∷ us) = u

new_in-Contains : {S : Type 0} (t : Target) (w : World S) → Contains t w Unique.new_in []
unfolding Unique.new_in
new_in-Contains t w = record { cap = 0; holds = unallocated refl refl refl; len = refl }

ApartAll-behind : (b : Raw) (front back : Rented) → ApartAll b (front ++ back) → ApartAll b back
ApartAll-behind b [] back h = h
ApartAll-behind b (r ∷ front) back h = ApartAll-behind b front back h.1

Separate-behind :
    {S : Type 0} (t : Target) (w : World S) (front back : Rented)
    → Separate t w (front ++ back)
    → Separate t w back
Separate-behind t w [] back h = h
Separate-behind t w (r ∷ front) back h = Separate-behind t w front back h.2

first-Contains :
    {S : Type 0} (t : Target) (w : World S) (us : List Unique) (l : Rented)
    → Separate t w (as_rented us ++ l)
    → Contains t w (first_or_new us) [] × ApartAll (first_or_new us).buf l
unfolding Unique.new_in
first-Contains t w [] l h = (new_in-Contains t w, ApartAll-new_in l)
first-Contains t w (u ∷ us) l h = (h.0, ApartAll-behind u.buf (as_rented us) l h.1)

first-Apart :
    (b : Raw) (us : List Unique) → ApartAll b (as_rented us) → Apart b (first_or_new us).buf
unfolding Unique.new_in Raw.new_in
first-Apart b [] h = λ e. e
first-Apart b (u ∷ us) h = h.0

module _ {Q R : Type 0} (buffers : ArrayQueue Unique Q) (laws : IsArrayQueue buffers)
    (should_retain : ℕ → Bool) (t : Target) (a : Allocator R) where
  popped :
      (q : Q) (us : List Unique)
      → buffers.items q ≡ us
      → or_new t buffers should_retain a (buffers.pop q).1 ≡ first_or_new us
  unfolding or_new
  popped q [] e = rw (laws.pop_empty q e).0 refl
  popped q (u ∷ us) e = rw (laws.pop_first q u us e).0 refl

  -- A serializer from a pool with empty buffers, each with a block of its own, has an empty writer in
  -- a block of its own.
  pub get-Ready :
      {U : Type 0} (maps : ArrayQueue Unify U) (w : World (Inner Q U R))
      → Idle t buffers w
      → Ends (λ s w'. Ready t w' s []) ⊥ ⊥ (get t buffers maps should_retain a w)
  unfolding get pop_unify Pool.get
  get-Ready maps w h =
      let writers = buffers.items w.state.writers in
      let scratches = buffers.items w.state.scratch in
      let one = first-Contains t w writers (as_rented scratches) h in
      let behind = Separate-behind t w (as_rented writers) (as_rented scratches) h in
      let two =
        first-Contains t w scratches []
          (subst (Separate t w) (sym (append-nil (as_rented scratches))) behind) in
      rw (popped w.state.writers writers refl, popped w.state.scratch scratches refl)
        (ends (record {
          writer = Contains-same w _ (first_or_new writers) [] refl one.0;
          rest = [];
          scratch = Contains-same w _ (first_or_new scratches) [] refl two.0;
          apart = first-Apart (first_or_new writers).buf scratches one.1;
        }))
