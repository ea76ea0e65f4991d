-- ===== src/Lib.antt =====
-- shm_comm: messages between processes over shared memory, in three patterns.
--
-- The program. A segment of shared memory is a header of sixteen int64 words and a ring of slots, each
-- a uint32 size and a payload. `shm_comm/core.py` creates, attaches and closes segments and owns the
-- header; `shm_comm/buffer.py` writes and reads the ring; `shm_comm/sync.py` is a lock between
-- processes; `shm_comm/serialize.py` turns objects into bytes; `shm_comm/utils.py` has the segment
-- names and the polling loop; `shm_comm/exceptions.py` the exceptions. `shm_comm/patterns/pubsub.py`,
-- `pipeline.py` and `reqrep.py` put these together: publish/subscribe overwrites the ring and each
-- subscriber keeps a private cursor; push/pull respects the tail in the header, which the pullers move
-- under the lock; request/reply uses two segments, one for each direction.
--
-- How code is modelled. A method is an action: it takes the state and returns an outcome (a value, an
-- exception, or `running`) with the state, so that what was written before an exception stays written
-- (Exec). A segment's memory is its size and its bytes (Memory). The operating system is the table of
-- names, the memory objects, the holders of the locks and the open lock files (Core/Segments, `System`);
-- an object lives on when its name is taken away or given to another. Methods of an object act on the
-- object and the system.
--
-- The files:
--   Prelude, Prelude/*   library names, Boolean tests, lists over native numbers, remainders
--   Exec, Exec/*         exceptions (exceptions.py), actions, the waiting loops and when they end
--   Memory, Memory/*     bytes, and little-endian numbers
--   Names                the segment names of utils.py
--   Core/Header          core.py: the constants, get_header, _init_header, _validate_header
--   Core/Segments        core.py: create_segment, attach_segment, close_segment
--   Ring, Ring/*         arithmetic of cursors on a ring
--   Fifo, Feed, Mailbox  what push/pull, publish/subscribe and request/reply come to, abstractly
--   Buffer, Buffer/*     buffer.py, and its refinement of those three
--   Race, Race/*         buffer.py's write_message and pipeline.py's _try_claim_bytes, turn by turn;
--                        Race/Broadcast: write_message and read_message_spsc, turn by turn
--   Lifecycle/*          the theorems on core.py, and a new segment as the start of each pattern
--   Serialize, Utils, Sync (with their children)   serialize.py, the rest of utils.py, sync.py
--   Patterns, PubSub/*, Pipeline/*, ReqRep/*       the classes of the patterns, a method each
--   Examples/*           examples/numpy_sharing.py, command_executor.py, benchmark.py, reqrep_example.py
--   Tests, Tests/*       a small instance of everything, and each theorem applied to it
--
-- Bounds and fuel. `while True` loops are `spin`: rounds on fuel, with the time of each round and what
-- the other processes do after it as a parameter (`World`); out of fuel is `running`. Theorems that a
-- call returns give the fuel that is enough: one round for a call that does not wait, and k + 1 rounds
-- if the clock has passed the deadline by round k. Header words are read as the number of their 64 bits;
-- what the code assigns lies below 2 ^ 63, and the counters wrap round 2 ^ 64. Times are whole numbers of
-- an unspecified unit.
--
-- Parameters. pickle, msgpack and Python's objects (`Library`), of which nothing is assumed; Python's
-- strings and dictionaries among them (`Strings`, `Dicts`); numpy's arrays (`Numpy`), with its documented
-- behaviour on float32 and float64 arrays of at most 32 dimensions as a hypothesis (`Documented`); the
-- names and sizes that the operating system accepts for a new segment (`granted`), which on Linux are
-- none with a slash in the name; the clock and the other processes (`World`).
--
-- Not modelled: log messages and the texts of exceptions, atexit and __repr__, the Windows branches,
-- errors of unlinking a segment that could be opened, and negative numbers in the header. Outside
-- Race, Buffer/Torn and Buffer/Overtake, whole calls alternate. In Race, a turn is one access to the
-- head, the tail, the size or the bytes of a slot, or the lock: one writer, as buffer.py requires,
-- with any number of pullers, or with any number of readers that have private cursors
-- (Race/Broadcast); torn words and reordered stores are not modelled. The temporary directory of a
-- lock file is left out of its name. Of the examples, command_sender.py and simple_pubsub.py are left
-- out, and of the others what they print and the times that they measure; in command_executor.py a
-- turn is a whole round of one of its two loops.
pub mod Prelude
pub mod Exec
pub mod Memory
pub mod Names
pub mod Core
pub mod Ring
pub mod Fifo
pub mod Feed
pub mod Mailbox
pub mod Buffer
pub mod Race
pub mod Lifecycle
pub mod Serialize
pub mod Utils
pub mod Sync
pub mod Patterns
pub mod PubSub
pub mod ReqRep
pub mod Pipeline
pub mod Examples
pub mod Tests
