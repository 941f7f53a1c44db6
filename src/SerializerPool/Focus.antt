-- ===== src/SerializerPool/Focus.antt =====
-- Facts of a pool of buffers, for the pool of serializers.
use rkyv_utils.Prelude.{ℕ, List, ◌≡◌, ◌∙◌}
use rkyv_utils.Memory.{Target, World, Run}
use rkyv_utils.Memory.Ends.{Ends, ends, panics, aborts, at_base}
use rkyv_utils.Unique.{Unique}
use rkyv_utils.Unique.Contents.{Contains}
use rkyv_utils.Raw.Holds.{Holds, unallocated, allocated}
use rkyv_utils.Pool.Idle.{Owns-moved}
use rkyv_utils.Pool.{PoolState}
use rkyv_utils.SerializerPool.{Inner, focus}

module _ {Q U R : Type 0} where
  pub focus-Ends :
      {A : Type 0} {P : A → World (PoolState Q R) → Type 0} {P' : A → World (Inner Q U R) → Type 0}
      {X Y : Type 0} (whole : World (PoolState Q R) → World (Inner Q U R))
      {r : Run (PoolState Q R) A}
      → Ends P X Y r
      → ((x : A) (w' : World (PoolState Q R)) → P x w' → P' x (whole w'))
      → Ends P' X Y (focus whole r)
  focus-Ends whole (ends p) f = ends (f _ _ p)
  focus-Ends whole (panics x) f = panics x
  focus-Ends whole (aborts y) f = aborts y

-- A buffer is as it was where the memory is.
pub Contains-same :
    {S S' : Type 0} {t : Target} (w : World S) (w' : World S') (u : Unique) (xs : List ℕ)
    → w'.blocks ≡ w.blocks
    → Contains t w u xs
    → Contains t w' u xs
Contains-same {S} {S'} {t} w w' u xs same c = record {
  cap = c.cap;
  holds = moved c.holds;
  len = c.len;
}
  where
    moved : Holds t w u.buf c.cap xs → Holds t w' u.buf c.cap xs
    moved (unallocated e z n) = unallocated e z n
    moved (allocated blk o enough bytes) =
        allocated blk (Owns-moved (at_base same u.buf.buf.base ∙ o.there) o) enough bytes
