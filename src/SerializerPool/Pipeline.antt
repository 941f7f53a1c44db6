-- ===== src/SerializerPool/Pipeline.antt =====
-- crates/aligned-buffer-pool/src/serializer_pool.rs: `SerializerPool::serialize` from its beginning to
-- its end.
pub mod Begin
pub mod End
pub mod Write
use rkyv_utils.Prelude.{ℕ, ◌≡◌, Result, ok, err, List, [], ◌++◌}
use rkyv_utils.Memory.{Target, World, Cmd}
use rkyv_utils.Memory.Ends.{Ends}
use rkyv_utils.Unique.{Unique}
use rkyv_utils.Unique.Contents.{Contains}
use rkyv_utils.Queue.{ArrayQueue}
use rkyv_utils.Pool.Rented.Separate.{Apart, Separate}
use rkyv_utils.Pool.Rented.Steps.{as_rented}
use rkyv_utils.SerializerPool.{Inner, Serializer}

-- A serializer whose writer has the bytes `xs`, in a block of its own.
pub record Ready {S : Type 0} (t : Target) (w : World S) (s : Serializer) (xs : List ℕ)
    : Type 0 where
  pub writer : Contains t w s.writer xs
  pub rest : List ℕ
  pub scratch : Contains t w s.scratch rest
  pub apart : Apart s.writer.buf s.scratch.buf

-- The buffers of the pool are empty, each with a block of its own.
abbrev pub Idle : {Q U R : Type 0} → Target → ArrayQueue Unique Q → World (Inner Q U R) → Type 0
Idle t buffers w =
    Separate t w
      (as_rented (buffers.items w.state.writers) ++ as_rented (buffers.items w.state.scratch))

-- What rkyv leaves: a writer with the bytes of the value, or an error and any bytes.
abbrev pub Left : {S E : Type 0} → Target → List ℕ → Serializer × Result ℕ E → World S → Type 0
Left t xs (s, ok pos) w = Ready t w s xs
Left t xs (s, err e) w = (ys : List ℕ) × Ready t w s ys

-- `serialize_using` of rkyv works on the serializer that it is given: from an empty writer it ends
-- with the bytes `xs` of the value in it, or with an error. `P` and `X` are its reasons to panic and
-- to abort.
abbrev pub Serializes :
    {Q U R V E : Type 0}
    → Target
    → (V → Serializer → Cmd (Inner Q U R) (Serializer × Result ℕ E))
    → V
    → (xs : List ℕ) (P X : Type 0) → Type 0
Serializes {Q} {U} {R} t serialize_using value xs P X =
    (w : World (Inner Q U R)) (s : Serializer)
    → Ready t w s []
    → Ends (Left t xs) P X (serialize_using value s w)
