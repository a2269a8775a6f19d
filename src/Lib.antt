-- ===== src/Lib.antt =====
-- A model of the shuffle server of this repository, an implementation of the Apache Uniffle shuffle
-- server, and its proofs. Clients require memory, send blocks of shuffle data under the ticket that
-- they got, and read them back; the server keeps blocks in memory, spills them to disks, and answers
-- over gRPC or its own binary protocol.
--
-- The parts that are modelled, with the files of this directory and of the repository:
--   Error: the errors of src/error.rs, and the outcome of a call: a value, an error or a panic.
--   Budget: src/store/mem/budget.rs and capacity.rs. A method holds the lock and is one step.
--   Ticket: src/store/mem/ticket.rs. The clock is an argument; a round of the timeout check is a
--     function of the store and of a state that the callback changes.
--   Store: src/store/mod.rs and src/composed_bytes.rs: blocks, segments, chains of bytes, and the
--     data and index that are written to a file (Format, read back in Index). The byte order of
--     integers is that of the bytes crate, an interface (Format.Codec) which BigEndian implements.
--   Buffer: src/store/mem/buffer.rs, the buffer of a partition: appends, spills, clears and the two
--     reads. The outer loop of a read runs on fuel of two rounds, which Read shows to be enough: a
--     second round begins with the start found. Paging has a client that reads page after page, on
--     more fuel than there are blocks left.
--   Memory: src/store/memory.rs, which holds a map of buffers, a budget and the tickets, with the
--     budget that the eviction callback frees; Spilling is the choice of what is spilled, and Balance
--     relates the budget to the tickets over histories of calls.
--   Config: the storage types of src/config.rs.
--   App: src/app.rs: an application with the sizes of its partitions, the marks of huge ones (Marking,
--     Sizes), the locked steps of the test for them in any order (Racing), the map of applications of
--     the manager, the calls into the hybrid store, purge events and the heartbeat check (Calls), and
--     what a purge means for queued spill events (Purging).
--   Persistent: the traits of the warm and cold store, an interface over the state of a store, which
--     LocalFile.Interface and Hdfs.Interface fill and the hybrid store uses.
--   Hybrid: src/store/hybrid.rs, the store over the memory store and the persistent ones: where a spill
--     goes and its write (Choosing), inserts and the spills they start (Inserting), and the calls that
--     are passed on (Answering). It holds the queues of the spill events.
--   Spill: src/store/spill and src/event_bus.rs: the messages, the handlers (Handlers), the buses and
--     their hooks as steps that handle any queued event (Bus). Counting relates the counters to the
--     queues; Draining is about how the buses end. Its loop runs on fuel, ten for each queued event: an
--     event is dispatched and flushed four times at most.
--   LocalFile: src/store/localfile.rs over an interface of a disk (src/store/local/mod.rs): the paths
--     (Paths), the choice of a disk, reads and purges, and inserts (Inserting). Delegator is the disk of
--     src/store/local/delegator.rs with the rounds of its check, over an interface of the file I/O.
--   Hdfs: src/store/hdfs.rs over an interface of the clients (src/store/hadoop/mod.rs): the paths
--     (Paths), registration and purges, inserts with their permits and retries (Inserting), what
--     inserts leave in the files (Files, Written, Retrying, and for other indices Apart), the permits
--     (Permits), and the store as one of the hybrid store (Interface).
--   Stores: the box in which the hybrid store keeps a store of local files or an HDFS store.
--   Service: the other handlers of src/grpc/service.rs and the commands of src/urpc/command.rs that
--     read: reads (Reading, Commands), registration and buffer requests (Requiring), and the block ids
--     that clients report, over an interface of the bitmaps (Reporting).
--   Sending: the handlers of sent data in src/grpc/service.rs and src/urpc/command.rs, and what they
--     leave of the memory that a ticket held (Settling).
--   Urpc: src/urpc: the frames and commands, the readers on a cursor (Cursor), `Frame::check` and
--     `parse` (Frame), `Frame::write` (Writing), and the loop of `read_frame` over the reads of a socket
--     (Reading).
--   Reject: src/reject/mod.rs: the policies that refuse requests.
--   Util: src/util.rs: the checksum of bytes, over an interface of the hasher, and worker names.
--   SemaphoreWithIndex: src/semaphore_with_index.rs, with acquires and drops as steps that tasks
--     interleave.
-- Base holds what these share: comparisons, lists, integers, machine words and maps.
--
-- Numbers: an i64 or i32 is the integer it stands for and wraps where the release build does; a u64
-- or usize is a number. Strings and bytes are lists of numbers. A hash map is an association list,
-- whose order stands for the unspecified order of iteration. Memory that runs out, the texts of
-- errors that pass through anyhow or are built for a stream, logs and metrics are not modelled.
--
-- A handler of an event is one step; the single precision arithmetic of the watermarks, the hash of a
-- partition and what a disk does are parameters. The stable sort of blocks is an insertion sort, and an
-- i32 is printed with ten digits of fuel and a usize with twenty, as many as they can have (Base.Decimal).
--
-- Not modelled: file I/O and sockets, which are interfaces or left out, the clients of HDFS, the
-- bitmaps of another library, which are an interface, the parsing of the configuration, the middleware
-- and generated code of gRPC, runtimes and observability.
pub mod Base
pub mod Config
pub mod App
pub mod Persistent
pub mod Spill
pub mod Hybrid
pub mod LocalFile
pub mod Sending
pub mod Service
pub mod Stores
pub mod Reject
pub mod Util
pub mod Error
pub mod Budget
pub mod Ticket
pub mod Store
pub mod Buffer
pub mod Memory
pub mod Urpc
pub mod Hdfs
pub mod SemaphoreWithIndex
