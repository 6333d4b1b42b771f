-- ===== src/Lib.antt =====
-- libmc, the memcached client of this repository: a model of the parts that hold its own logic, and
-- theorems about them.
--
-- A request is a list of pieces in a BufferWriter, which a Connection sends with sendmsg. Responses
-- arrive in a BufferReader, a list of DataBlocks: the connection asks it for room
-- (prepareWriteBlock), receives into it and commits the bytes; the parser reads tokens, numbers and
-- separators from it. A token is a list of slices of blocks; each byte received counts as one
-- reference to its block, which a skip releases at once and a token releases when its result is
-- freed. A ConnectionPool chooses a connection for each key with one of the hashes. A Client is such
-- a pool with the commands: each dispatches its requests, waits for the responses and collects the
-- results. A ClientPool has a client for each worker of a LockPool, from which threads take them.
--
-- Prelude: names that all modules share, lists over the native numbers, calls that may fault.
-- Types: the enumerations of include/Export.h, include/Common.h and include/Parser.h.
-- DataBlock: src/DataBlock.cpp and include/DataBlock.h. `data_` is the written part of `m_data`.
-- Blocks: the loops of src/BufferReader.cpp over the blocks from the read cursor on, and what each
--   of them leaves (Blocks/Content has the relation; the other children follow one loop each).
-- BufferReader: src/BufferReader.cpp and include/BufferReader.h. One function per method
--   (`read_until` for `readUntil`), from the state to the result and the new state. The children
--   hold the invariant (Valid) and the behaviour of the reads (Counted, Until, Unsigned) and of the
--   writes (Place, Prepare, Commit, Write, Early) and of `reset` (Reset), and RoundTrip
--   joins reads and writes.
-- Tokens: `freeTokenData`, `parseTokenData` and `copyTokenData` of src/BufferReader.cpp; Text has the
--   bytes of a token and Ledger the counts of the blocks.
-- Result: include/Result.h and src/Result.cpp; Lifetime has copies and destructors, Views `inner`.
-- Parser: src/Parser.cpp and include/Parser.h. State, Monad, Start and Process hold the definitions:
--   the parser's fields, the pieces of code that may return early, `start_state`, and the states of
--   `process_packets`. Calls has the reader's calls when the bytes are there, Retrieve the states of
--   an item's line and Value the one of its data block, Steps runs of the loop, Items one item,
--   Response a whole response, Received what a client sees of it, and Spins responses on which the
--   loop never ends.
-- BufferWriter: src/BufferWriter.cpp and include/BufferWriter.h; Stream has it as a stream of bytes,
--   and History what sends and rewinds make of a message.
-- Hashkit: Fnv is src/HashkitFnv.cpp; Crc is src/HashkitCrc.cpp, with the table bit by bit in its
--   Laws; Ketama is src/HashkitKetama.cpp, with what `addServers` builds
--   (Build, and Points for each server's points), the order of the points (Circle), the failover's
--   loop (Failover), `getServerIt` without its check (Choice), and `getServer` with it (Alive).
--   Keeps says that `getConn` returns and changes connections by `tryReconnect` only.
-- Connection: src/Connection.cpp and include/Connection.h, with the system's calls as a record of
--   functions on its state; Reconnect says what a reconnection leaves alone. Sockets has how
--   a socket is opened, over finer calls (`with_sockets` fills the record), and Opened which
--   descriptors stay open.
-- Keywords: the words of include/Keywords.h.
-- Pool: src/ConnectionPool.cpp and include/ConnectionPool.h. State has the choice of a connection and
--   the loops that the dispatches share, Requests what is written for one key, Dispatch the
--   dispatches, Poll and Wait `waitPoll`, Collect the results and `reset`, Setup the servers and
--   `broadcastCommand`. Extends has what a request adds to a connection, Kept what the choice
--   leaves, Alive which connection it gives, Routes and Wire where one item goes, Shares the loops,
--   and Commands, KeyCommands, Retrievals and Changes whole commands.
-- Client: src/Client.cpp and include/Client.h; Commands has a function for each command, Refused
--   commands whose keys are all refused.
-- LockPool: include/LockPool.h. Threads has the threads as a step relation, in which a step is what
--   one thread does while it holds `m_fifo_access`; Invariant the states between two steps, Safety
--   who has which worker, and Progress who is served.
-- ClientPool: src/ClientPool.cpp and include/ClientPool.h; Settings has what the saved options do to
--   a new client, Clients how many clients there are, Options the values of options, Ready and
--   Adjust what `config`, `updateServers`, `init` and `autoGrow` keep of a pool, Steps what threads do
--   with the pool, and Threads what holds then, with the pool seen as a LockPool.
-- Utility: `isValidKey` of src/Utility.cpp.
-- Common: `isUnixSocket`, `splitServerString` and `errCodeToString` of src/Common.cpp; Split has a
--   server's string with a host, a port and an alias.
-- Tests: concrete states, and the theorems at them.
--
-- A byte is a number, a list iterator is a position, and `end()` is the length. An assertion that
-- fails, or a read at `end()` or past a block's written part, is `none`. `size_t` sums of sizes,
-- and the counts of connections and of invalid keys when they go up, are taken not to overflow; the
-- 64 bits of a number that is read and the 32 bits of a hash wrap around as written. The loops recur
-- on the blocks, on the bytes left or on the pieces left; only three have fuel: `write_loop`, the
-- number of bytes to write, of which each round takes one at least; `process_loop` of the parser,
-- whose rounds are seven for an item and one for its end; and `wait_loop`, whose rounds depend on
-- what the system's `poll` answers. With less fuel `process_loop` gives `none`, which is also what
-- it gives for every fuel when it never ends.
-- `debug` says whether the code is built with assertions.
--
-- Not modelled: logging; the calls of the system, which are arguments; the bindings and the C
-- interface, which forward each call; the copies of RapidJSON and LLVM code, of which the number
-- printer is an argument (`int64_to_char_array`, or `print`, of the 64 bits of a number); the
-- mutexes of a ClientPool other than LockPool's, so that each of its functions runs as one step,
-- also an `updateServers` while a client is held, where the code waits for the client;
-- and MD5, a copy of PolarSSL's code that is an argument (`hash_md5`) like `std::sort` and the
-- formats of `snprintf`. The selector takes any `tryReconnect`, and a pool gives it its
-- connections' (`try_at`). What one client of a pool sees of
-- the system is a state of its own.
pub mod Prelude
pub mod Types
pub mod DataBlock
pub mod Blocks
pub mod BufferReader
pub mod Tokens
pub mod Parser
pub mod Connection
pub mod Keywords
pub mod LockPool
pub mod Client
pub mod ClientPool
pub mod Pool
pub mod Result
pub mod BufferWriter
pub mod Hashkit
pub mod Utility
pub mod Common
pub mod Tests
