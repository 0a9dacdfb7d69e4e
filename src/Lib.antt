-- ===== src/Lib.antt =====
-- crossbank: typed lockers of key-value records over one ordered store.
--
-- A bank opens a backend: three ordered tables, `records`, `chunks` and `meta`, that take commits of
-- mutations and give pages of a range (src/backend/api.rs). Each locker of the bank owns the records
-- whose stored key begins with its id (src/key.rs), and seals values in an envelope with a chain of
-- filters (src/codec). A large value is cut into pieces in `chunks`, numbered under a value id of the
-- bank, and the record is a pointer to them (src/locker/chunk.rs). Lockers share the reading and
-- writing of values and the walk over their records (src/locker/inner.rs), the streaming writer and
-- reader (src/locker/io.rs) and the accounting of a bounded cache (src/locker/lru.rs). What a commit
-- did is told to the watchers of the process (src/watch.rs) and to other processes
-- (src/coherence/api.rs). A lazy locker holds its keys (src/locker/lazy.rs), an eager one its values
-- (src/locker/eager.rs); both keep a batch of staged writes, what they know of their keys, and the
-- budget in one shared state (src/locker/resident.rs), and commit write-sets (src/locker/transaction.rs).
--
-- Prelude, Bytes, Tree: numbers, lists and options; byte strings, their order and their numbers; a
--   BTreeMap as a list in key order, with the bounds on which its `range` panics.
-- Error: src/error.rs, and results that may also be a panic.
-- Backend.Api: src/backend/api.rs. Table, KeyRange, Op, ScanRequest and ScanPage keep their names;
--   Api.Ranges is about `KeyRange::prefix` and `contains`.
-- Backend.Memory: src/backend/memory.rs. MemoryBackend is the state behind the mutex; commit, get,
--   get_many, scan, close and usage are its methods. Memory.Refines compares them with three maps.
-- Key: src/key.rs, on bytes.
-- Codec.Filters, Codec.Chain: src/codec/filters.rs, src/codec/api.rs and src/codec/mod.rs. `unseal`
--   is `FilterChain::open`. A filter is a record of its methods.
-- Locker.Chunk: src/locker/chunk.rs. ChunkPointer, ValueIds, and `allocate`, which is two halves with
--   an await between them; Chunk.Ids has every order of the halves as a relation, Run.
-- Locker.Inner: the parts of src/locker/inner.rs on values. Inner is what they read of
--   `LockerInner`. Inner.Read loads, Inner.Write gives the mutations of put, delete and clear, and
--   Inner.Walk visits the records of a range; Walk.Pages is about one page and the range after it.
-- Locker.Io: src/locker/io.rs. A call takes the backend and the writer and returns both; Published is
--   what `finish` leaves and tells. Io.Reader has the reader; `drained` is a caller that asks it for
--   pieces until there is none.
-- Locker.Lru: src/locker/lru.rs. Lru.Entries has the stored rows and Lru.Clearing what their clear takes,
--   Lru.Clock the clock of the bank, Lru.State the accounting of a locker and its load, Lru.Planning a
--   plan and its application; Planning.Evicts is about which entries a plan sheds.
-- Locker.Policy: src/locker/policy.rs. LockerConfig, its builders and its equality.
-- Locker.Inner.Value: src/codec/value.rs and the decoding of src/locker/inner.rs, over Postcard, the
--   serialization of the postcard crate at a type of values. Locker.Epochs: `Epochs` of inner.rs.
-- Locker.Transaction: src/locker/transaction.rs. Pending and Staged are its two kinds of entries,
--   `ops_for_items` collapses a list of them; Transaction.Lands and WriteSet are about what it leaves.
-- Locker.Resident: src/locker/resident.rs and the commit of inner.rs. Resident is the state of a locker
--   with the backend and the counters that it reaches; an Act takes it and returns a result and the
--   state. Resident.Budget has the budget and eviction, Resident.Flush the commit of a batch,
--   Resident.Deletions a batch that deletes a key twice.
-- Locker.Lazy: src/locker/lazy.rs. Lazy.Values has the typed reads and puts, Lazy.Transact `transact`;
--   Lazy.Index has the invariant of the key index, and the relations Step and Reach over the calls.
-- Locker.Eager: src/locker/eager.rs. Eager.Opening, Eager.Puts (with transactions) and Eager.Sink (the
--   news of another tab) are its other parts; Eager.Mirror relates the values held to storage.
-- Watch: src/watch.rs. A subscriber holds the queue that stands for its channel.
-- Coherence: the announcement of src/coherence/api.rs.
-- Examples: runs on concrete inputs, and the theorems at them.
--
-- A method on shared state takes the state and returns it; a `Result` keeps its error as a value, and
-- `panic` is a result of its own. Calls that await and so interleave are relations on their steps.
-- u32 and u64 arithmetic wraps where the source's does and fails where it is checked. The checksum of
-- crc32fast, the compression of lz4_flex and the `try_send` of the futures channel are parameters,
-- with what their documentation says as hypotheses.
--
-- Loops: a walk has a page for each record and one more, as a page that does not end the walk has a
-- record; the groups of a read are at most its pieces, and a payload has at most as many pieces as
-- bytes; loading the accounting has a page for each row and one more; `write_chunk` has a round for
-- each byte and one more, as a round takes a chunk off the buffer. Running out is the result `panic`.
--
-- A call of a locker runs from its start to its end under the locker's lock, and locks are never
-- poisoned; the closure of a transaction is a function from the state to what it stages. The backend is
-- the in-memory one, whose flush does nothing, and no news is posted, as in a native build.
--
-- Not modelled: the redb and IndexedDB backends, the transports of coherence and the handles, which
-- are calls of other systems; the text of messages; `type_tag` of src/codec/value.rs. Of the lazy locker
-- the ranges and the sink, and of the eager one the ranges; the `&str` wrappers of both, which turn
-- keys into bytes and back. Of src/bank.rs, all: its registry, and its open and close.
pub mod Backend
pub mod Bytes
pub mod Codec
pub mod Coherence
pub mod Error
pub mod Examples
pub mod Key
pub mod Locker
pub mod Prelude
pub mod Tree
pub mod Watch
