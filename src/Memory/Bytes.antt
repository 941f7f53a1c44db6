-- ===== src/Memory/Bytes.antt =====
-- Reads and writes of runs of bytes.
use rkyv_utils.Prelude.{
  ℕ, zero, suc, ◌+◌, ◌≤◌, ◌<◌, ◌≡◌, refl, ap, ap₂, ◌∙◌, subst, List, [], ◌∷◌, ◌++◌, arith, length,
  length-take, take, drop, set, length-set,
}
use rkyv_utils.Memory.{load_list, store_list, set_byte}

pub load_list-cong :
    (f g : ℕ → ℕ) (i n : ℕ)
    → ((j : ℕ) → i ≤ j → j < i + n → f j ≡ g j)
    → load_list f i n ≡ load_list g i n
unfolding load_list
load_list-cong f g i zero h = refl
load_list-cong f g i (suc n) h = ground (
  arith,
  h i (omega arith) (omega arith),
  load_list-cong f g (suc i) n (λ j p q. h j (omega arith) (omega arith)),
)

pub load_list-add :
    (f : ℕ → ℕ) (i n m : ℕ) → load_list f i (n + m) ≡ load_list f i n ++ load_list f (i + n) m
unfolding load_list
load_list-add f i zero m = ground arith
load_list-add f i (suc n) m =
    let e : suc n + m ≡ suc (n + m) = omega arith in
    let e' : i + suc n ≡ suc i + n = omega arith in
    rw (e, e') (ap (◌∷◌ (f i)) (load_list-add f (suc i) n m))

pub store_list-below : (f : ℕ → ℕ) (i : ℕ) (xs : List ℕ) (j : ℕ) → j < i → store_list f i xs j ≡ f j
unfolding store_list
store_list-below f i [] j h = refl
store_list-below f i (x ∷ xs) j h =
    ground (arith, store_list-below (set_byte f i x) (suc i) xs j (omega arith))

pub store_list-above :
    (f : ℕ → ℕ) (i : ℕ) (xs : List ℕ) (j : ℕ) → i + length xs ≤ j → store_list f i xs j ≡ f j
unfolding store_list
store_list-above f i [] j h = refl
store_list-above f i (x ∷ xs) j h =
    ground (arith, store_list-above (set_byte f i x) (suc i) xs j (omega arith))

pub load_list-store_list :
    (f : ℕ → ℕ) (i : ℕ) (xs : List ℕ) → load_list (store_list f i xs) i (length xs) ≡ xs
unfolding load_list store_list
load_list-store_list f i [] = refl
load_list-store_list f i (x ∷ xs) = ground (
  arith,
  store_list-below (set_byte f i x) (suc i) xs i (omega arith),
  load_list-store_list (set_byte f i x) (suc i) xs,
)

tail : List ℕ → List ℕ
tail [] = []
tail (x ∷ xs) = xs

head : List ℕ → ℕ
head [] = 0
head (x ∷ xs) = x

pub load_list-take :
    (f : ℕ → ℕ) (o n : ℕ) (xs : List ℕ)
    → load_list f o (length xs) ≡ xs
    → load_list f o (length (take n xs)) ≡ take n xs
unfolding load_list tail head
load_list-take f o zero xs e = refl
load_list-take f o (suc n) [] e = refl
load_list-take f o (suc n) (x ∷ xs) e =
    rw (ap head e, load_list-take f (suc o) n xs (ap tail e)) refl

-- A part of a run.
pub load_list-part :
    (f : ℕ → ℕ) (o i k : ℕ) (xs : List ℕ)
    → i + k ≤ length xs
    → load_list f o (length xs) ≡ xs
    → load_list f (o + i) k ≡ take k (drop i xs)
unfolding load_list tail
load_list-part f o zero k xs room e =
    let start : o + 0 ≡ o = omega arith in
    let size : length (take k xs) ≡ k = omega (arith, length-take k xs) in
    rw start (subst (λ (n : ℕ). load_list f o n ≡ take k xs) size (load_list-take f o k xs e))
load_list-part f o (suc i) k [] room e = absurd (omega arith)
load_list-part f o (suc i) k (x ∷ xs) room e =
    let next : o + suc i ≡ suc o + i = omega arith in
    rw next (load_list-part f (suc o) i k xs (omega arith) (ap tail e))

load_list-set_byte :
    (f : ℕ → ℕ) (o i x : ℕ) (xs : List ℕ)
    → load_list f o (length xs) ≡ xs
    → i < length xs
    → load_list (set_byte f (o + i) x) o (length xs) ≡ set xs i x
unfolding load_list head tail
load_list-set_byte f o i x [] e room = absurd (omega arith)
load_list-set_byte f o zero x (y ∷ ys) e room =
    let here : set_byte f (o + 0) x o ≡ x = ground arith in
    let behind : load_list (set_byte f (o + 0) x) (suc o) (length ys) ≡ ys =
      load_list-cong (set_byte f (o + 0) x) f (suc o) (length ys) (λ j low high. ground arith)
      ∙ ap tail e in
    ap₂ (λ (z : ℕ) (zs : List ℕ). z ∷ zs) here behind
load_list-set_byte f o (suc i) x (y ∷ ys) e room =
    let next : suc o + i ≡ o + suc i = omega arith in
    let here : set_byte f (suc o + i) x o ≡ y = ground (arith, ap head e) in
    subst (λ (k : ℕ). load_list (set_byte f k x) o (length (y ∷ ys)) ≡ set (y ∷ ys) (suc i) x) next
      (ap₂ (λ (z : ℕ) (zs : List ℕ). z ∷ zs) here
        (load_list-set_byte f (suc o) i x ys (ap tail e) (omega arith)))

-- One byte within a run is written.
pub load_list-set :
    (f : ℕ → ℕ) (o i x : ℕ) (xs : List ℕ)
    → load_list f o (length xs) ≡ xs
    → i < length xs
    → load_list (store_list f (o + i) (x ∷ [])) o (length (set xs i x)) ≡ set xs i x
unfolding store_list
load_list-set f o i x xs e room = rw (length-set xs i x) (load_list-set_byte f o i x xs e room)
