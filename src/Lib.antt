-- ===== src/Lib.antt =====
-- Gibson: an in-memory cache server that keeps its items in a prefix tree.
--
-- The event loop (src/net.c) accepts connections and calls the handlers of src/server.c. The reading
-- handler collects a request, its size before it, and gives it to gbProcessQuery (src/query.c): an
-- operation code and the bytes behind it. The handler of the code cuts the bytes into words, works on
-- the server's tree and statistics, and enqueues a reply, which the writing handler sends as a frame.
-- A cron sweeps expired items and, where memory is short, items that nobody asks for. Items live in
-- an object pool; the tree maps keys to them.
--
-- Which file models what (paths from the repository's root):
-- - Trie.antt: src/trie.h and src/trie.c. A node is a data type with its byte, its data (`none` for
--   NULL), the byte `n_nodes` and its children; a pointer to a node is the key that leads to it.
--   `descend` and `store` are the loop of tr_insert and the write at its end. Trie/Next, Shape,
--   Step, Find, Weigh and Every hold the lemmas; Trie/Recurse models the traversal and the searches,
--   Trie/Entries lists a tree's content, Trie/Search and Ready compare the two; Trie/Visit is the order in which a
--   traversal comes to the nodes; Trie/SearchNodes and Free model tr_search_nodes and tr_free.
-- - Pool.antt: src/obpool.c. A block is its number, an object its block and its place there. Pool/Fresh
--   is about which objects are given out, Bounds about the memory of their blocks, Destroyed about the
--   release.
-- - LinkedList.antt: src/llist.h and src/llist.c. A list is its cells and the number of a free one.
-- - Number.antt: gbQueryParseLong. Item.antt: gbItem of src/net.h, its lock and its expiry.
-- - Server.antt: gbServer of src/net.h, gbCreateItem, gbDestroyItem and the validity tests of
--   src/query.c. Request.antt: gbParseKeyValue and its kin. Reply.antt: the enqueue functions of
--   src/net.c.
-- - Query.antt: gbSingleSet and the volatile items; Query/Single, Multi and Listing: the handlers of
--   src/query.c; Query/Process: gbProcessQuery. A handler takes the server and comes to the new
--   server and the reply. The other files below Query hold the proofs: Tallied is the invariant of
--   the items, Invariant and Cases are the steps that handlers share, Keeps, KeepsMulti, KeepsFound
--   and Kept go through the handlers for the invariant, Untouched, UntouchedMulti and UntouchedAll
--   for what they leave alone, Lifetime, Locking and Effects are about single items over time, Gathered about
--   MGET, Decimal about numbers as text.
-- - Client.antt: gbClient, gbReadQueryHandler and gbWriteReplyHandler of src/server.c and
--   gbClientEnqueueData of src/net.c, as functions of what read and write answer. Client/Reading is
--   about requests that come in pieces, Writing about replies that go out in pieces, Frame about the
--   frame, Exchange about both together, Dropped about connections that end.
-- - Cron.antt: gbServerCronHandler and its sweeps. Cron/Sweep, Tick and Due are about one sweep, one run
--   and many runs.
-- - Connections.antt: the server with its list of clients, gbAcceptHandler and gbClientDestroy, and the
--   events that change them; Connections/Reached goes through all states.
-- - EventLoop.antt: the file events and time events of src/net.c; EventLoop/Process: processTimeEvents,
--   gbProcessEvents and gbEventLoopMain, over callbacks that are parameters. EventLoop/Files and Maximum
--   are about the highest descriptor, Timers about the nearest timer, Rescheduled about the timer of a
--   callback, Called and Ends about the end of processTimeEvents.
-- - Mux.antt: the interface of the polling back ends in src/mux, with the laws that the event loop
--   counts on, and the loop's registrations with a back end behind them; Mux/Select and Mux/Epoll are
--   two back ends with their laws. Mux/Watched is about all sequences of registrations, Mux/Hangup about
--   what a closed connection calls.
-- - Sockets.antt: the socket functions of src/net.c, as functions of what the system calls answer, with the
--   descriptors that are open. Sockets/Opened is about opening them, Streams about writing all.
-- - Config.antt: src/config.c; Config/Lines is about files, Units about sizes and times, Merged about the
--   command line. Log.antt: src/log.c, with Flushed, Ended and Dumped. Zmem.antt: the accounting of src/zmem.c.
--   Uptime.antt: gbServerFormatUptime. ByteOrder.antt: src/endianness.c.
-- - Startup.antt: main of src/gibson.c; Startup/Begun is about the server that it enters the loop with.
--   Shutdown.antt: gbSignalHandler and gbServerDestroy of src/server.c; Shutdown/Released is about what
--   is left.
-- - Base.antt: shared names and lemmas. Tests.antt: requests run by evaluation, and the theorems at
--   concrete inputs.
--
-- State is passed explicitly. A pointer to an item that a node holds is the node's key, and a write
-- through it is a `store` in the tree. Machine words wrap as in C: counters modulo 2^32 or 2^64,
-- size_t subtraction in Request, `short` for the ttl. Signed overflow, which C leaves undefined,
-- wraps as well. Division by zero is total in the model: cron_every with a cronperiod of 0, and
-- create_item where nitems has wrapped to 0; gbLog with a rate of 0 is none. Release builds have no
-- assertions, so the model has none; a key of no bytes, which the code asserts not to get from a
-- search, is the root, where tr_insert of a release build would write through NULL. Fuel:
-- `digits_of` has 20 digits, enough for 64 bits; `run_timers` has one unit for each callback, and
-- EventLoop/Ends shows that one more than the number of timers is enough; `event_loop_rounds` counts
-- the rounds of a loop that is meant to go on. Every other loop is structural.
--
-- Parameters: `External` in Server.antt, the readings of zmem_used, the LZF library (lzf_c.c and
-- lzf_d.c are a copy of it), and texts and floating-point values that only STATS shows; what the
-- system calls and malloc answer; the texts that main logs; strtol in Config; the answers of
-- getopt_long; the kernel's table behind epoll_ctl, with what epoll_ctl(2) says of it. Connections
-- works on the handlers alone, with the answer of gbCreateFileEvent as an argument.
--
-- Not modelled: the back ends kqueue and evport, which are for other systems; the reading of peer
-- addresses; time stamps and formats of the log; the help menu and the registration of signals; the
-- size of the buffer that holds a key during a search; the memory of the server's buffers and lists
-- when it ends. The replies are those of a little-endian machine. Startup joins the configuration,
-- the log, the sockets, the pool and the event loop to the server; from there on, the loop's rounds,
-- the polling back ends and the allocator's accounting stand apart from Connections. A query's
-- search results are lists of the model, and LinkedList shows that the reused cells hold the same.
pub mod Base
pub mod Trie
pub mod Number
pub mod Item
pub mod Pool
pub mod LinkedList
pub mod Server
pub mod Request
pub mod Reply
pub mod Query
pub mod Client
pub mod EventLoop
pub mod Config
pub mod Zmem
pub mod Connections
pub mod Uptime
pub mod Cron
pub mod Tests
pub mod Sockets
pub mod Log
pub mod Startup
pub mod Shutdown
pub mod Mux
pub mod ByteOrder
