-- ===== src/Memory.antt =====
-- What the crates assume of the machine: allocations with a header and bytes, pointers into them,
-- and commands that change them and can panic, abort or be undefined behaviour. A pointer is the
-- base of its allocation and the distance from there; `state` is what the allocator keeps.
pub mod Bytes
pub mod Ends
use rkyv_utils.Prelude.{
  ℕ, zero, suc, ◌+◌, ◌-◌, ◌*◌, ◌%◌, ◌≤◌, ◌<◌, ◌≡◌, Bool, true, false, not, ◌&&◌, ◌||◌, Option, none,
  some, List, [], ◌∷◌, usize_mod, wrapping_add, wrapping_sub, ltb, leb, ◌==◌, if◌then◌else◌, length,
}
use rkyv_utils.Layout.{Layout}

-- What the build fixes: debug assertions, the layout of `Header`, and `ALIGNMENT`.
pub record Target : Type 0 where
  pub debug : Bool
  pub header : Layout
  pub alignment : ℕ

-- `raw::Header`, at the start of each allocation.
pub record Header : Type 0 where
  pub ref_count : ℕ
  pub alloc_buffer_size : ℕ

pub record Block : Type 0 where
  pub length : ℕ
  pub align : ℕ
  pub header : Header
  pub bytes : ℕ → ℕ

abbrev pub Blocks : Type 0
Blocks = ℕ → Option Block

pub record World (S : Type 0) : Type 0 where
  pub blocks : Blocks
  pub state : S

abbrev pub put : Blocks → ℕ → Option Block → Blocks
put m base c p = if p == base then c else m p

pub record Ptr : Type 0 where
  pub base : ℕ
  pub offset : ℕ

abbrev pub ptr : ℕ → ℕ → Ptr
ptr base offset = record { base = base; offset = offset }

-- `NonNull::dangling()` of a byte pointer.
abbrev pub dangling : Ptr
dangling = ptr 1 0

abbrev pub address : Ptr → ℕ
address p = p.base + p.offset

-- `ptr.add(n)`
abbrev pub ptr_add : Ptr → ℕ → Ptr
ptr_add p n = record p { offset = p.offset + n }

pub data Run (S A : Type 0) : Type 0 where
  done : A → World S → Run S A
  panic : Run S A
  abort : Run S A
  undefined : Run S A

abbrev pub Cmd : Type 0 → Type 0 → Type 0
Cmd S A = World S → Run S A

module _ {S : Type 0} where
  abbrev pub pure : {A : Type 0} → A → Cmd S A
  pure = done

  abbrev pub and_then : {A B : Type 0} → Run S A → (A → Cmd S B) → Run S B
  and_then (done a w) k = k a w
  and_then panic k = panic
  and_then abort k = abort
  and_then undefined k = undefined

  infixl 5 ◌>>=◌ ◌>>◌
  abbrev pub ◌>>=◌ : {A B : Type 0} → Cmd S A → (A → Cmd S B) → Cmd S B
  m >>= k = λ w. and_then (m w) k

  abbrev pub ◌>>◌ : {B : Type 0} → Cmd S (Unit {0}) → Cmd S B → Cmd S B
  m >> k = m >>= λ _. k

  -- A constant function whose `none` is a panic.
  abbrev pub or_panic : {A : Type 0} → Option A → Cmd S A
  or_panic none w = panic
  or_panic (some a) w = done a w

  -- `assert!` and `debug_assert!`
  abbrev pub assert : Bool → Cmd S (Unit {0})
  assert true w = done tt w
  assert false w = panic

  abbrev pub debug_assert : Target → Bool → Cmd S (Unit {0})
  debug_assert t c = assert (not t.debug || c)

  -- `+`, `-` and `*` on `usize`: a panic with debug assertions, wrapping without.
  abbrev pub add_usize : Target → ℕ → ℕ → Cmd S ℕ
  add_usize t a b = do debug_assert t (ltb (a + b) usize_mod); pure ((a + b) % usize_mod)

  abbrev pub sub_usize : Target → ℕ → ℕ → Cmd S ℕ
  sub_usize t a b = do debug_assert t (leb b a); pure (wrapping_sub a b)

  abbrev pub mul_usize : Target → ℕ → ℕ → Cmd S ℕ
  mul_usize t a b = do debug_assert t (ltb (a * b) usize_mod); pure ((a * b) % usize_mod)

  -- `ptr.sub(n)`, which may not leave the allocation.
  unfoldable pub ptr_sub : Ptr → ℕ → Cmd S Ptr
  ptr_sub p n w = if leb n p.offset then done (record p { offset = p.offset - n }) w else undefined

  -- A read of the header is defined only at the start of an allocation.
  unfoldable pub load_header : Ptr → Cmd S Header
  load_header p w =
      if p.offset == 0
      then (elim (w.blocks p.base) [ none ↦ undefined | some b ↦ done b.header w ])
      else undefined

  unfoldable pub store_header : Ptr → Header → Cmd S (Unit {0})
  store_header p h w =
      if p.offset == 0
      then (elim (w.blocks p.base) [
        | none ↦ undefined
        | some b ↦
            done tt (record w { blocks = put w.blocks p.base (some (record b { header = h })) })
      ])
      else undefined

-- A run of bytes from index `i` on, read and written one by one.
unfoldable pub load_list : (ℕ → ℕ) → ℕ → ℕ → List ℕ
load_list f i zero = []
load_list f i (suc n) = f i ∷ load_list f (suc i) n

abbrev pub set_byte : (ℕ → ℕ) → ℕ → ℕ → ℕ → ℕ
set_byte f i x j = if j == i then x else f j

unfoldable pub store_list : (ℕ → ℕ) → ℕ → List ℕ → ℕ → ℕ
store_list f i [] = f
store_list f i (x ∷ xs) = store_list (set_byte f i x) (suc i) xs

-- The bytes from `i` up to `i + n` lie in the block and behind its header.
abbrev pub in_bounds : Target → Block → ℕ → ℕ → Bool
in_bounds t b i n = leb t.header.size i && leb (i + n) b.length

abbrev pub copied : (source target : ℕ → ℕ) → ℕ → ℕ → ℕ
copied f g n i = if ltb i n then f i else g i

abbrev pub zeroed : (ℕ → ℕ) → (start n : ℕ) → ℕ → ℕ
zeroed f i n j = if leb i j && ltb j (i + n) then 0 else f j

abbrev pub zero_header : Header
zero_header = record { ref_count = 0; alloc_buffer_size = 0 }

abbrev copies : Target → (p q : Ptr) (b c : Block) → ℕ → Bool
copies t p q b c n =
    p.offset == 0
    && q.offset == 0
    && not (p.base == q.base)
    && leb t.header.size n
    && leb n b.length
    && leb n c.length

abbrev zeroes : Target → Ptr → Block → ℕ → Bool
zeroes t p b n =
    leb (p.offset + n) b.length
    && (leb t.header.size p.offset || (p.offset == 0 && leb t.header.size n))

module _ {S : Type 0} (t : Target) where
  -- `slice::from_raw_parts(p, n)`: an empty slice needs no allocation.
  unfoldable pub read_bytes : Ptr → ℕ → Cmd S (List ℕ)
  unfolding load_list
  read_bytes p zero w = done [] w
  read_bytes p (suc n) w = elim (w.blocks p.base) [
    | none ↦ undefined
    | some b ↦
        if in_bounds t b p.offset (suc n)
        then done (load_list b.bytes p.offset (suc n)) w
        else undefined
  ]

  -- `ptr::write`, `ptr::write_bytes` and `ptr::copy_nonoverlapping` to `p`.
  unfoldable pub write_bytes : Ptr → List ℕ → Cmd S (Unit {0})
  unfolding store_list
  write_bytes p [] w = done tt w
  write_bytes p (x ∷ xs) w = elim (w.blocks p.base) [
    | none ↦ undefined
    | some b ↦
        if in_bounds t b p.offset (length (x ∷ xs))
        then done tt (record w {
          blocks =
              put w.blocks p.base
                (some (record b { bytes = store_list b.bytes p.offset (x ∷ xs) }));
        })
        else undefined
  ]

  -- `ptr::copy_nonoverlapping` from the start of one allocation to that of another, where the
  -- header is among the bytes; any other use counts as undefined here.
  unfoldable pub copy_nonoverlapping : (source target : Ptr) → ℕ → Cmd S (Unit {0})
  copy_nonoverlapping p q n w = elim (w.blocks p.base) [
    | none ↦ undefined
    | some b ↦ elim (w.blocks q.base) [
      | none ↦ undefined
      | some c ↦
          if copies t p q b c n
          then done tt (record w {
            blocks =
                put w.blocks q.base
                  (some (record c { header = b.header; bytes = copied b.bytes c.bytes n }));
          })
          else undefined
    ]
  ]

  -- `p.write_bytes(0, n)` over the header and what follows, or behind the header.
  unfoldable pub write_zeroes : Ptr → ℕ → Cmd S (Unit {0})
  write_zeroes p n w = elim (w.blocks p.base) [
    | none ↦ undefined
    | some b ↦
        if zeroes t p b n
        then done tt (record w {
          blocks = put w.blocks p.base (
              some (record b {
                header = if p.offset == 0 then zero_header else b.header;
                bytes = zeroed b.bytes p.offset n;
              }));
        })
        else undefined
  ]
