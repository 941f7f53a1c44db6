-- ===== src/Shared/Lifetime.antt =====
-- The life of a shared buffer: handles are cloned and dropped in any order, between other work.
use native.Mathlib.Decide.{dec_lt}
use rkyv_utils.Prelude.{
  ℕ, ◌+◌, ◌-◌, ◌≤◌, ◌<◌, ◌≡◌, sym, ◌∙◌, subst, true, ok, err, List, length, Bool-cases, inl, inr,
  ◌==◌, if◌then◌else◌, isize_max, usize_mod, arith,
}
use rkyv_utils.TaggedCap.Fields.{tagged}
use rkyv_utils.Memory.{Target, Block, World, done, abort}
use rkyv_utils.Memory.Ends.{given}
use rkyv_utils.BufferLayout.Fits.{IsTarget}
use rkyv_utils.Alloc.{BufferAllocator}
use rkyv_utils.Unique.{Unique}
use rkyv_utils.Shared.{Shared, as_slice, try_unique, ref_count, clone, drop}
use rkyv_utils.Shared.Handles.{Shares, Shares-moved, as_slice-Shares}
use rkyv_utils.Shared.Sharing.{ref_count-Shares, try_unique-Shares, try_unique-alone}
use rkyv_utils.Shared.Counting.{counting, clone-many, clone-Ends, drop-Shares}

went_on : {S A : Type 0} {x : A} {w : World S} → ¬ (abort ≡ done x w)
went_on e = cc

module _ {S : Type 0} (t : Target) (a : BufferAllocator S) (s : Shared) where
  -- A step of the program, with the number of handles: a handle is cloned, one of several is
  -- dropped, or the program works elsewhere.
  pub data Step (w : World S) (n : ℕ) : World S → ℕ → Type 0 where
    cloned : {s' : Shared} {w' : World S} → clone t a s w ≡ done s' w' → Step w n w' (n + 1)
    dropped : {w' : World S} → 1 < n → drop t a s w ≡ done tt w' → Step w n w' (n - 1)
    elsewhere : {w' : World S} → w'.blocks s.buf.buf.base ≡ w.blocks s.buf.buf.base → Step w n w' n

  -- From the one handle that sharing gives.
  pub data Reach (w0 : World S) : World S → ℕ → Type 0 where
    here : Reach w0 w0 1
    later : {w w' : World S} {n n' : ℕ} → Reach w0 w n → Step w n w' n' → Reach w0 w' n'

  module _ (v : IsTarget t) (w0 : World S) (cap : ℕ) (blk : Block) (xs : List ℕ)
      (h : Shares t w0 s cap blk xs 1) where
    record Alive (w : World S) (n : ℕ) : Type 0 where
      now : Block
      shares : Shares t w s cap now xs n
      some_handle : 0 < n
      counted : n ≤ isize_max + 1

    stepped : (w w' : World S) (n n' : ℕ) → Step w n w' n' → Alive w n → Alive w' n'
    stepped w w' n _ (cloned e) l = elim (dec_lt isize_max n) [
      | yes many ↦ absurd (went_on (sym (clone-many v a w s cap l.now xs n l.shares many) ∙ e))
      | no few ↦
          let after = given (clone-Ends v a w s cap l.now xs n l.shares) e in
          record {
            now = counting l.now (n + 1);
            shares = after.1;
            some_handle = omega arith;
            counted = omega arith;
          }
    ]
    stepped w w' n _ (dropped more e) l =
        let below : n < usize_mod = omega (arith, l.counted) in
        let after = given (drop-Shares v a w s cap l.now xs n l.shares more below) e in
        record {
          now = counting l.now (n - 1);
          shares = after.0;
          some_handle = omega arith;
          counted = omega (arith, l.counted);
        }
    stepped w w' n _ (elsewhere same) l = record {
      now = l.now;
      shares = Shares-moved (same ∙ l.shares.there) l.shares;
      some_handle = l.some_handle;
      counted = l.counted;
    }

    alive : {w : World S} {n : ℕ} → Reach w0 w n → Alive w n
    alive here = record { now = blk; shares = h; some_handle = omega arith; counted = omega arith }
    alive (later {w} {w'} {n} {n'} r step) = stepped w w' n n' step (alive r)

    -- The buffer as a unique one.
    abbrev pub whole : Unique
    whole = record {
      buf = record { buf = s.buf.buf; cap_or_len = tagged true cap };
      len = length xs;
    }

    -- While handles of a shared buffer are cloned and dropped in whatever order, between work on
    -- other blocks, every handle reads the bytes of the buffer, the reference count is the number
    -- of handles, and `try_unique` gives the buffer with its whole capacity to the only handle and
    -- the handle back to one of several. The last handle is not dropped.
    pub Reach-Shares :
        {w : World S} {n : ℕ}
        → Reach w0 w n
        → (as_slice t a s w ≡ done xs w)
          × (ref_count t a s w ≡ done n w)
          × (try_unique t a s w ≡ (if n == 1 then done (ok whole) w else done (err s) w))
    unfolding ref_count
    Reach-Shares {w} {n} r =
        let l = alive r in
        (
          as_slice-Shares v a w s cap l.now xs n l.shares,
          ref_count-Shares v a w s cap l.now xs n l.shares,
          elim (Bool-cases (n == 1)) [
            | inl one ↦ rw one (
                try_unique-alone v a w s cap l.now xs
                  (subst (λ (k : ℕ). Shares t w s cap l.now xs k) (ground (arith, one)) l.shares))
            | inr more ↦
                rw more (try_unique-Shares v a w s cap l.now xs n l.shares (ground (arith, more)))
          ],
        )
