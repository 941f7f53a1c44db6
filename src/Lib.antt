-- ===== src/Lib.antt =====
-- rkyv-utils: aligned byte buffers for rkyv archives (crates/aligned-buffer), pools of buffers,
-- serializers and validators (crates/aligned-buffer-pool), and archives that own their buffer
-- (crates/rkyv-owned-archive).
--
-- A buffer is one allocation: a header with a reference count and the capacity, padding, and the
-- bytes at a multiple of ALIGNMENT. A unique buffer keeps its capacity in a tagged word, a shared
-- one its length in the same word, and the header remembers the capacity. Allocation, growth and
-- release go through an allocator trait.
--
-- - Memory: what is assumed of the machine. Not a model of the crates but of what they stand on:
--   blocks with a header and bytes, pointers as the base of a block and a distance, and commands
--   that end with a result, a panic, an abort or in undefined behaviour. An access outside of a
--   block, or to a freed one, is undefined behaviour. Memory.Ends says how a run may end, and no
--   run that it accepts is undefined.
-- - TaggedCap: crates/aligned-buffer/src/raw/cap.rs.
-- - Layout: crates/aligned-buffer/src/raw/layout.rs, beside std's `Layout::extend` written down
--   from its documentation.
-- - BufferLayout, Raw: crates/aligned-buffer/src/raw.rs. BufferLayout has BUFFER_OFFSET, `layout`
--   and `alloc_guard`; Raw has `RawAlignedBuffer`. Raw.Holds is the invariant of a unique buffer,
--   and the other modules under Raw are named for what they prove.
-- - Alloc: crates/aligned-buffer/src/alloc.rs. The allocator is a parameter, and Alloc.Contract
--   is what the documentation of the `Allocator` trait promises for the layouts that raw buffers
--   use: not for sizes of zero, for sizes below a header's in a copy, or for an old layout that is
--   smaller than its block, as the trait would allow too. `Exhausted` is the reason that an
--   allocator has to fail; where it is empty, the abort of `handle_alloc_error` is excluded.
--   Alloc.Default has the methods that the trait provides, and Alloc.Global is `Global` over
--   std::alloc, which is a parameter (`System`) with its documentation as laws.
-- - Unique: crates/aligned-buffer/src/unique.rs. A method on `&mut self` returns the new buffer.
--   Unique.Script has sequences of methods beside the same sequences on lists, and Unique.Index and
--   Unique.Parts the views, the indexing and the parts.
-- - Shared: crates/aligned-buffer/src/shared.rs, and `into_shared`. Shared.Handles is the
--   invariant of one of n handles, and Shared.Lifetime has clones and drops of handles as steps.
--   Shared.Threads cuts `ref_clone` and `drop` of crates/aligned-buffer/src/raw.rs, and
--   `try_unique`, at their atomic operations, and runs the steps of many calls in any order: its
--   state is the memory, the number of handles, the calls in flight, and how often the buffer was
--   given back. A thread whose `try_unique` succeeds shares the buffer again, unchanged, in its last
--   step, so that the others go on with it. Shared.Threads.Phases is the invariant, and
--   Shared.Threads.Whole runs the steps of one call in a row.
-- - BufMut: crates/aligned-buffer/src/bytes.rs. `Buf` of the crate bytes is a parameter. The loop
--   of `put` runs on fuel, and as many steps as there are bytes are enough.
-- - Rkyv: crates/aligned-buffer/src/rkyv.rs. The writer of rkyv is a parameter.
-- - Queue: `ArrayQueue` of crossbeam-queue, a parameter with its documentation as laws.
-- - Pool: crates/aligned-buffer-pool/src/buffer_pool.rs. The queue of the pool, and whether a weak
--   reference to it upgrades, are part of the state of the allocator, since the drop of a buffer
--   finds the pool by itself. Pool.Idle is the invariant of the buffers in the queue, and
--   Pool.Rented has the buffers in use, taken, changed and dropped as steps in any order.
-- - Serializer: crates/aligned-buffer-pool/src/serializer_pool.rs, the scratch allocator and the
--   map of shared objects. SerializerPool, from the same file, has the pool of serializers: its
--   state has two queues of buffers and one of maps, and each pool of buffers works on a part.
--   SerializerPool.Pipeline has `serialize` from `get` to `into_buffer`; SerializerPool.Finish says
--   what becomes of the scratch and of the map.
-- - Validator: crates/aligned-buffer-pool/src/validator_pool.rs and validator_pool/shared.rs.
--   Validator.Recycle has the pool and the rented validators as steps in any order.
-- - OwnedArchive: crates/rkyv-owned-archive/src/lib.rs and pool.rs. Types have a size, references
--   are addresses, and the access of rkyv is a parameter.
-- - Prelude: Boolean tests, lists, `usize` and bit operations as arithmetic.
-- - Tests: an x86-64 build, a small allocator that meets the contract, and each property on it.
--
-- `usize` has 64 bits, and the wrap-around is written out. Debug assertions and overflow checks are
-- a field of the build (`Target.debug`): with them a failure is a panic, without them it is the
-- wrapped result. The layout of `Header` and ALIGNMENT are fields too, and `IsTarget` says that the
-- crate compiles with them. The other loops run on the list or the count that they consume. In Raw
-- and Shared a call is one step; Shared.Threads has its atomic operations as steps of their own.
-- Memory is sequentially consistent there: the orderings Relaxed, Release and Acquire are not told
-- apart.
--
-- Not modelled: formatting (`Debug`, `Display`), the error types that only wrap another, an index
-- that is a range, the weak references beyond whether they upgrade, the archive validator and the
-- traversal of values, which are rkyv's, and `resolve`, which only calls rkyv. `SetLenOnDrop` is the
-- length that its loop carries. Pool.Rented leaves out the call by which a buffer shrinks to
-- nothing, since it hands the buffer to the pool. Of the pools of serializers and validators,
-- concurrent use is one order of whole operations.
pub mod Prelude
pub mod TaggedCap
pub mod Layout
pub mod Memory
pub mod BufferLayout
pub mod Alloc
pub mod Raw
pub mod Unique
pub mod Queue
pub mod Pool
pub mod Shared
pub mod BufMut
pub mod Rkyv
pub mod Serializer
pub mod SerializerPool
pub mod Validator
pub mod OwnedArchive
pub mod Tests
