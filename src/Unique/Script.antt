-- ===== src/Unique/Script.antt =====
-- crates/aligned-buffer/src/unique.rs: any sequence of the methods that change a buffer, and the
-- same sequence on a list of bytes.
pub mod Single
pub mod Refinement
use rkyv_utils.Prelude.{
  ℕ, ◌-◌, ◌+◌, ◌*◌, ◌≤◌, ◌<◌, ◌⊎◌, List, [], ◌∷◌, ◌++◌, max, length, take, replicate, set,
  usize_mod,
}
use rkyv_utils.Memory.{Target, Cmd, pure, ◌>>=◌, ◌>>◌}
use rkyv_utils.BufferLayout.Fits.{Fits}
use rkyv_utils.Alloc.{BufferAllocator}
use rkyv_utils.Unique
use rkyv_utils.Unique.{Unique}
use rkyv_utils.Unique.Append.{doubled}
use rkyv_utils.Unique.Index

-- The methods on `&mut self`, with their arguments.
pub data Op : Type 0 where
  push : (value : ℕ) → Op
  append : (other : List ℕ) → Op
  extend : (lower : ℕ) (iter : List ℕ) → Op
  resize : (new_len value : ℕ) → Op
  truncate : (len : ℕ) → Op
  clear : Op
  index_mut : (i value : ℕ) → Op
  reserve : (additional : ℕ) → Op
  reserve_exact : (additional : ℕ) → Op
  shrink_to : (min_capacity : ℕ) → Op
  shrink_to_fit : Op

module _ {S : Type 0} (t : Target) (a : BufferAllocator S) where
  unfoldable pub call : Op → Unique → Cmd S Unique
  call (push value) u = Unique.push t a u value
  call (append other) u = Unique.append t a u other
  call (extend lower iter) u = Unique.extend t a u lower iter
  call (resize new_len value) u = Unique.resize t a u new_len value
  call (truncate len) u = pure (Unique.truncate u len)
  call clear u = pure (Unique.clear u)
  call (index_mut i value) u = do Index.index_mut t a u i value; pure u
  call (reserve additional) u = Unique.reserve t a u additional
  call (reserve_exact additional) u = Unique.reserve_exact t a u additional
  call (shrink_to min_capacity) u = Unique.shrink_to t a u min_capacity
  call shrink_to_fit u = Unique.shrink_to_fit t a u

  unfoldable pub calls : List Op → Unique → Cmd S Unique
  unfolding call
  calls [] u = pure u
  calls (op ∷ ops) u = do u' ← call op u; calls ops u'

-- What a method does to the bytes, with memory and capacity forgotten.
unfoldable pub bytes_after : Op → List ℕ → List ℕ
bytes_after (push value) xs = xs ++ value ∷ []
bytes_after (append other) xs = xs ++ other
bytes_after (extend lower iter) xs = xs ++ iter
bytes_after (resize new_len value) xs = take new_len xs ++ replicate (new_len - length xs) value
bytes_after (truncate len) xs = take len xs
bytes_after clear xs = []
bytes_after (index_mut i value) xs = set xs i value
bytes_after (reserve additional) xs = xs
bytes_after (reserve_exact additional) xs = xs
bytes_after (shrink_to min_capacity) xs = xs
bytes_after shrink_to_fit xs = xs

unfoldable pub all_after : List Op → List ℕ → List ℕ
unfolding bytes_after
all_after [] xs = xs
all_after (op ∷ ops) xs = all_after ops (bytes_after op xs)

-- The only reasons to panic: a size that no layout admits, an index out of bounds.
unfoldable pub Panics : Target → Op → List ℕ → Type 0
Panics t (push value) xs = ¬ Fits t (doubled (length xs + 1))
Panics t (append other) xs = ¬ Fits t (doubled (length xs + length other))
Panics t (extend lower iter) xs = ¬ Fits t (doubled (length xs + max lower (length iter)))
Panics t (resize new_len value) xs = ¬ Fits t (doubled new_len)
Panics t (truncate len) xs = ⊥
Panics t clear xs = ⊥
Panics t (index_mut i value) xs = length xs ≤ i
Panics t (reserve additional) xs = ¬ Fits t (doubled (length xs + additional))
Panics t (reserve_exact additional) xs = ¬ Fits t (length xs + additional)
Panics t (shrink_to min_capacity) xs = ⊥
Panics t shrink_to_fit xs = ⊥

-- One of the methods has a reason to panic when its turn comes.
unfoldable pub SomePanics : Target → List Op → List ℕ → Type 0
unfolding Panics bytes_after
SomePanics t [] xs = ⊥
SomePanics t (op ∷ ops) xs = Panics t op xs ⊎ SomePanics t ops (bytes_after op xs)

-- The new length that `resize` is given is a `usize`.
unfoldable pub IsCall : Op → Type 0
IsCall (resize new_len value) = new_len < usize_mod
IsCall op = Unit {0}

unfoldable pub AreCalls : List Op → Type 0
unfolding IsCall
AreCalls [] = Unit {0}
AreCalls (op ∷ ops) = IsCall op × AreCalls ops
