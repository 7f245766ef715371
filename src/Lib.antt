-- ===== src/Lib.antt =====
-- Verification of the parts of donkeyji that keep its timers, buffers, connections, rankings,
-- memory pool, byte formats and calls between processes.
--
-- donkeyji is a collection of server programs and libraries. The development covers these parts:
--
-- Module MyTimer: the timer library mytimer/. timer.c keeps a heap of waiting timers and a list of
-- expired ones. A round of its loop reads the clock around a wait, takes the passed time off every
-- waiting timer, moves the expired ones from the heap to the list, and calls their callbacks,
-- which may add timers again.
-- - MyTimer/TimeVal: struct timeval, evutil_timercmp of mytimer/min_heap.c, and mytimer/util.h.
-- - MyTimer/MinHeap: mytimer/min_heap.c. Order has the heap's invariant and the heap with a hole;
--   Up and Down the two ways to fill the hole; Push and Remove the operations.
-- - MyTimer/ActiveList: mytimer/list.c, the lists linked through the timers.
-- - MyTimer/Timer: mytimer/timer.c. Update, Expire and Fire are the stages of a round, which Round
--   puts together through the theorems of the heap and of the list.
--
-- Module MultiProgress: the server in multi_progress/, with its connections and their buffers.
-- - MultiProgress/Buffer: multi_progress/buffer.c, a growing buffer of bytes.
-- - MultiProgress/Chunk: multi_progress/chunk.c, queues of chunks, each with a buffer.
-- - MultiProgress/Conn: multi_progress/conn.c, connections with two queues each and the manager
--   that has them. Manager states what a well-formed manager is; Add and Delete are its
--   operations, Queues what a reset does to a connection's queues, Handlers the handlers of
--   events, and Response what they come to for a connection that has something to write.
-- - MultiProgress/Server: the handler of the listening socket in multi_progress/server.c.
-- - MultiProgress/Process: multi_progress/process.c, the master and its workers, as a step
--   relation.
--
-- Module Mydb: the byte formats of the database server in mydb/.
-- - Mydb/DataFormat: mydb/data_format.c. Bytes has numbers as bytes and what a format promises;
--   Number and String have the formats of numbers and strings, and Array those of Lua values,
--   arrays included.
-- - Mydb/DataFormat/Table: the table formats of mydb/data_format.c. Layout is the abstract view of
--   a format; Compile relates it to the opcodes, and Read and Pack to what the opcodes do.
-- - Mydb/Protocol: mydb/protocol.c, calls of functions between processes. Protocol has a message,
--   Names and Load what a protocol is made of, Manager the protocols of a process and Dispatch
--   what comes in. Message, RoundTrip and Far follow a message to its handler, Safe is about any
--   bytes, Registry and Register about the protocols, Callers and Dangling about the functions
--   that scripts call, Multicast about destinations, and Path about names.
-- - Mydb/Buf: mydb/buf.c, a buffer with the data between two offsets; Queue shows it to be a queue
--   of bytes.
--
-- Module Cpp: the C++ helpers in cpp/.
-- - Cpp/KvParser: cpp/kv_parser.cpp, texts of keys and values. Words has its loops over a text and
--   Entries its map; Parse and Print are the two directions.
--
-- Module Rank: the ranking of users in rank/.
-- - Rank/Core: rank/core.c. Buckets, Place and Insert are about the lists of score nodes, Linked,
--   Unlink and Users about the lists of a score's users, and Ranking about the lookups.
--
-- Module MemPool: the memory pool mempool/memorypool.cpp. Head is about its first block, and Front
-- and Blocks about the order of the blocks.
--
-- Module Xy3: the game server cs/my_xy3/.
-- - Xy3/DataBuf: cs/my_xy3/databuf.cpp, the bytes of a connection. Expand is about the room for
--   them, Queue shows them to be a queue, and Packets and Delivery are about packets in it.
--
-- Prelude has what the parts share: lists over the native numbers, integers, function update,
-- chains of linked nodes, and Exec, the ways a piece of C code ends: with a value, with an access
-- outside the memory that it owns (fault), or, in the model only, out of fuel.
--
-- An address is a number and 0 is NULL; the fields of all nodes of a kind are functions on
-- addresses. An allocation takes as an argument whether it succeeds, and what it returns. Numbers
-- of fixed width are natural numbers or integers with the wrap-around written out where the code
-- can reach it; each file says which. Lua values, the clock, the wait and the callbacks are
-- arguments.
--
-- Loops run on fuel. Where a definition sets the fuel itself, it is a bound on the rounds: the
-- index of the hole going up, the size of the heap going down, the length of a list; the theorems
-- show that it is enough. A loop over linked nodes whose number the code does not keep takes its
-- fuel as an argument, and any fuel above the number of nodes is enough, unless the loop of the
-- code does not end either.
--
-- Not modelled: what is printed or logged; memory after it is freed, beyond the record of what was
-- freed; the select and Lua bindings of mytimer; the set-up of the sockets and signals of
-- multi_progress; and the parts of the repository that this header does not name.
pub mod Prelude
pub mod MyTimer
pub mod MultiProgress
pub mod Mydb
pub mod Cpp
pub mod Rank
pub mod MemPool
pub mod Xy3
