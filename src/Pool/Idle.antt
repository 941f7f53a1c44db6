-- ===== src/Pool/Idle.antt =====
-- The invariant of a pool: its buffers are empty, each with a block of its own.
use rkyv_utils.Prelude.{ℕ, ◌≡◌, ◌≢◌, refl, sym, ◌∙◌, List, [], ◌∷◌, ◌++◌, arith, some}
use rkyv_utils.Memory.{Target, World, Block, dangling, load_list}
use rkyv_utils.Memory.Ends.{at_base}
use rkyv_utils.Raw.{Raw}
use rkyv_utils.Raw.Holds.{Owns, allocated, Frame, Spares}
use rkyv_utils.Unique.{Unique}
use rkyv_utils.Unique.Contents.{Contains}

-- An empty buffer that has an allocation.
pub record IsIdle {S : Type 0} (t : Target) (w : World S) (u : Unique) : Type 0 where
  pub cap : ℕ
  pub blk : Block
  pub owns : Owns t w u.buf cap blk
  pub empty : u.len ≡ 0
  pub real : u.buf.buf.base ≢ dangling.base

-- None of the buffers lies in the block at `base`.
abbrev pub Avoids : ℕ → List Unique → Type 0
Avoids base [] = Unit {0}
Avoids base (u ∷ us) = (base ≢ u.buf.buf.base) × Avoids base us

abbrev pub Pooled : {S : Type 0} → Target → World S → List Unique → Type 0
Pooled t w [] = Unit {0}
Pooled t w (u ∷ us) = IsIdle t w u × Avoids u.buf.buf.base us × Pooled t w us

pub Avoids-append :
    (base : ℕ) (us : List Unique) (u : Unique)
    → Avoids base us
    → base ≢ u.buf.buf.base
    → Avoids base (us ++ u ∷ [])
Avoids-append base [] u away other = (other, tt)
Avoids-append base (x ∷ us) u away other = (away.0, Avoids-append base us u away.1 other)

module _ {S : Type 0} where
  pub IsIdle-Contains : {t : Target} {w : World S} {u : Unique} → IsIdle t w u → Contains t w u []
  unfolding load_list
  IsIdle-Contains i = record {
    cap = i.cap;
    holds = allocated i.blk i.owns (omega arith) refl;
    len = i.empty;
  }

  -- A buffer is only read where its block lies.
  pub Owns-moved :
      {S' : Type 0} {t : Target} {w : World S} {w' : World S'} {b : Raw} {cap : ℕ} {blk : Block}
      → w'.blocks b.buf.base ≡ some blk
      → Owns t w b cap blk
      → Owns t w' b cap blk
  Owns-moved there o = record {
    allocated = o.allocated;
    offset = o.offset;
    aligned = o.aligned;
    there = there;
    size = o.size;
    align = o.align;
    recorded = o.recorded;
    single = o.single;
    positive = o.positive;
    fits = o.fits;
  }

  pub IsIdle-moved :
      {t : Target} {w w' : World S} {u : Unique} (i : IsIdle t w u)
      → w'.blocks u.buf.buf.base ≡ some i.blk
      → IsIdle t w' u
  IsIdle-moved i there = record {
    cap = i.cap;
    blk = i.blk;
    owns = Owns-moved there i.owns;
    empty = i.empty;
    real = i.real;
  }

  -- Work on other blocks leaves the pooled buffers idle.
  pub Spares-Pooled :
      (t : Target) (w w' : World S) (b : Raw) (us : List Unique)
      → Spares w b w'
      → Avoids b.buf.base us
      → Pooled t w us
      → Pooled t w' us
  Spares-Pooled t w w' b [] spares away p = tt
  Spares-Pooled t w w' b (u ∷ us) spares away p = (
    IsIdle-moved p.0 (spares u.buf.buf.base p.0.blk (λ e. away.0 (sym e)) p.0.owns.there),
    p.1,
    Spares-Pooled t w w' b us spares away.1 p.2,
  )

  pub Pooled-same :
      (t : Target) (w w' : World S) (us : List Unique)
      → w'.blocks ≡ w.blocks
      → Pooled t w us
      → Pooled t w' us
  Pooled-same t w w' [] same p = tt
  Pooled-same t w w' (u ∷ us) same p = (
    IsIdle-moved p.0 (at_base same u.buf.buf.base ∙ p.0.owns.there),
    p.1,
    Pooled-same t w w' us same p.2,
  )

  -- So does an operation on a buffer that is in use, and it stays apart from them.
  pub Frame-Pooled :
      (t : Target) (w w' : World S) (b b' : Raw) (us : List Unique)
      → Frame w b w' b'
      → Avoids b.buf.base us
      → Pooled t w us
      → Pooled t w' us × Avoids b'.buf.base us
  Frame-Pooled t w w' b b' [] frame away p = (tt, tt)
  Frame-Pooled t w w' b b' (u ∷ us) frame away p =
      let kept = frame u.buf.buf.base p.0.blk p.0.real (λ e. away.0 (sym e)) p.0.owns.there in
      let rest = Frame-Pooled t w w' b b' us frame away.1 p.2 in
      ((IsIdle-moved p.0 kept.0, p.1, rest.0), ((λ e. kept.1 (sym e)), rest.1))

  pub Pooled-append :
      (t : Target) (w : World S) (us : List Unique) (u : Unique)
      → Pooled t w us
      → IsIdle t w u
      → Avoids u.buf.buf.base us
      → Pooled t w (us ++ u ∷ [])
  Pooled-append t w [] u p i away = (i, tt, tt)
  Pooled-append t w (x ∷ us) u p i away = (
    p.0,
    Avoids-append x.buf.buf.base us u p.1 (λ e. away.0 (sym e)),
    Pooled-append t w us u p.2 i away.1,
  )
