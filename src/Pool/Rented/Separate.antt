-- ===== src/Pool/Rented/Separate.antt =====
-- Buffers side by side: each with its bytes, and none in the block of another.
use native.Mathlib.Nat.{mod-eq_of_lt}
use rkyv_utils.Prelude.{
  ℕ, ◌%◌, ◌<◌, ◌≡◌, ◌≢◌, refl, sym, ap, ◌∙◌, subst, max, List, [], ◌∷◌, ◌++◌, arith,
}
use rkyv_utils.Memory.{Target, World, Block, dangling}
use rkyv_utils.Memory.Ends.{at_base}
use rkyv_utils.Raw
use rkyv_utils.Raw.{Raw}
use rkyv_utils.Raw.Holds.{Owns, Holds, unallocated, allocated, Frame, Spares}
use rkyv_utils.Unique.{Unique}
use rkyv_utils.Unique.Contents.{Contains}
use rkyv_utils.Pool.Idle.{Owns-moved}
use rkyv_utils.Pool.Rented.{Rented}

-- Two buffers with the same base have no block, since no block is at the dangling address.
abbrev pub Apart : Raw → Raw → Type 0
Apart b b' = b.buf.base ≡ b'.buf.base → b.buf.base ≡ dangling.base

abbrev pub ApartAll : Raw → Rented → Type 0
ApartAll b [] = Unit {0}
ApartAll b (r ∷ l) = Apart b r.0.buf × ApartAll b l

abbrev pub Separate : {S : Type 0} → Target → World S → Rented → Type 0
Separate t w [] = Unit {0}
Separate t w (r ∷ l) = Contains t w r.0 r.1 × ApartAll r.0.buf l × Separate t w l

pub Apart-sym : (b b' : Raw) → Apart b b' → Apart b' b
Apart-sym b b' apart e = e ∙ apart (sym e)

pub ApartAll-pick :
    (b : Raw) (front back : Rented) (r : Unique × List ℕ)
    → ApartAll b (front ++ r ∷ back)
    → Apart b r.0.buf × ApartAll b (front ++ back)
ApartAll-pick b [] back r h = h
ApartAll-pick b (x ∷ front) back r h =
    let rest = ApartAll-pick b front back r h.1 in (rest.0, (h.0, rest.1))

pub ApartAll-put :
    (b : Raw) (front back : Rented) (r : Unique × List ℕ)
    → Apart b r.0.buf
    → ApartAll b (front ++ back)
    → ApartAll b (front ++ r ∷ back)
ApartAll-put b [] back r apart h = (apart, h)
ApartAll-put b (x ∷ front) back r apart h = (h.0, ApartAll-put b front back r apart h.1)

pub ApartAll-new_in : (l : Rented) → ApartAll Raw.new_in l
unfolding Raw.new_in
ApartAll-new_in [] = tt
ApartAll-new_in (r ∷ l) = ((λ e. refl), ApartAll-new_in l)

module _ {S : Type 0} (t : Target) where
  pub Separate-pick :
      (w : World S) (front back : Rented) (r : Unique × List ℕ)
      → Separate t w (front ++ r ∷ back)
      → Separate t w (r ∷ (front ++ back))
  Separate-pick w [] back r h = h
  Separate-pick w (x ∷ front) back r h =
      let rest = Separate-pick w front back r h.2 in
      let others = ApartAll-pick x.0.buf front back r h.1 in
      (rest.0, (Apart-sym x.0.buf r.0.buf others.0, rest.1), (h.0, others.1, rest.2))

  pub Separate-put :
      (w : World S) (front back : Rented) (r : Unique × List ℕ)
      → Separate t w (r ∷ (front ++ back))
      → Separate t w (front ++ r ∷ back)
  Separate-put w [] back r h = h
  Separate-put w (x ∷ front) back r h = (
    h.2.0,
    ApartAll-put x.0.buf front back r (Apart-sym r.0.buf x.0.buf h.1.0) h.2.1,
    Separate-put w front back r (h.0, h.1.1, h.2.2),
  )

  module _ (wide : 1 < max t.header.align t.alignment) where
    -- No block of a buffer is at the dangling address.
    pub Owns-real :
        (w : World S) (b : Raw) (cap : ℕ) (blk : Block)
        → Owns t w b cap blk
        → b.buf.base ≢ dangling.base
    Owns-real w b cap blk o e =
        let one : 1 % max t.header.align t.alignment ≡ 1 = mod-eq_of_lt wide in
        let none : 1 % max t.header.align t.alignment ≡ 0 =
          subst (λ (p : ℕ). p % max t.header.align t.alignment ≡ 0) e o.aligned in
        absurd (omega (arith, one, none))

    -- A buffer beside one that an operation changes.
    pub beside :
        (w w' : World S) (b b' : Raw) (u : Unique) (xs : List ℕ)
        → Frame w b w' b'
        → Contains t w u xs
        → Apart b u.buf
        → Contains t w' u xs × Apart b' u.buf
    unfolding Raw.new_in
    beside w w' b b' u xs frame c apart = held c.holds
      where
        held : Holds t w u.buf c.cap xs → Contains t w' u xs × Apart b' u.buf
        held (unallocated e z n) = (
          record { cap = c.cap; holds = unallocated e z n; len = c.len },
          λ same. same ∙ ap (λ (r : Raw). r.buf.base) e,
        )
        held (allocated blk o room bytes) =
            let real = Owns-real w u.buf c.cap blk o in
            let kept = frame u.buf.buf.base blk real (λ e. real (e ∙ apart (sym e))) o.there in
            (
              record {
                cap = c.cap;
                holds = allocated blk (Owns-moved kept.0 o) room bytes;
                len = c.len;
              },
              λ same. absurd (kept.1 (sym same)),
            )

    pub Frame-Separate :
        (w w' : World S) (b b' : Raw) (l : Rented)
        → Frame w b w' b'
        → ApartAll b l
        → Separate t w l
        → Separate t w' l × ApartAll b' l
    Frame-Separate w w' b b' [] frame apart h = (tt, tt)
    Frame-Separate w w' b b' (r ∷ l) frame apart h =
        let first = beside w w' b b' r.0 r.1 frame h.0 apart.0 in
        let rest = Frame-Separate w w' b b' l frame apart.1 h.2 in
        ((first.0, h.1, rest.0), (first.1, rest.1))

    pub Spares-Separate :
        (w w' : World S) (b : Raw) (l : Rented)
        → Spares w b w'
        → ApartAll b l
        → Separate t w l
        → Separate t w' l
    unfolding Raw.new_in
    Spares-Separate w w' b l spares apart h =
        (Frame-Separate w w' b Raw.new_in l (λ p c real other there. (spares p c other there, real))
          apart h).0

    pub Separate-same :
        (w w' : World S) (l : Rented) → w'.blocks ≡ w.blocks → Separate t w l → Separate t w' l
    Separate-same w w' l same h =
        Spares-Separate w w' Raw.new_in l (λ p c other there. at_base same p ∙ there)
          (ApartAll-new_in l) h
