-- ===== src/Lib.antt =====
-- RedisGO: a Redis server in Go. A connection's bytes go to a parsing goroutine (resp/parser.go),
-- which sends data of the protocol on a channel; the server takes an array of them as a command and
-- runs it on the database (memdb/db.go). The database maps keys to values in a sharded map
-- (memdb/concurrentmap.go), keeps the second at which a key expires in another one, and starts a
-- timer for each such key.
--
-- Which file models which part:
--   Resp/Structure            resp/structure.go: the kinds of data, ToBytes, ByteData, ToCommand.
--   Resp/State, Resp/Reader   resp/parser.go: the goroutine's state; readLine, whose reader may fail.
--   Resp/Parser               resp/parser.go: the headers, the lines, the loop of parse, ParseStream.
--   Util, Util/Pattern        util/util.go: HashKey, and PattenMatch with its loops.
--   GoMap                     Go's built-in map, as a list of entries with no key twice.
--   ConcurrentMap             memdb/concurrentmap.go: the table of shards, the count, the methods.
--   SetStruct                 memdb/sets_struct.go: the set of strings and its algebra.
--   HashStruct                memdb/hash_struct.go: the hash of one key.
--   ListStruct, /Walks, /Edits
--                             memdb/list_struct.go: the doubly linked list, on a heap of nodes; its loops
--                             that look, and those that change it. ListStruct/Rep says which sequence
--                             a list stands for.
--   Btree                     memdb/btree.go and sorted_set_struct.go: the tree of a sorted set.
--   StreamStruct              memdb/stream_struct.go: identifiers and the entries of a stream.
--   Locks                     memdb/dblock.go: the positions of keys, and goroutines that lock them.
--   PubSub                    memdb/pubsub_struct.go and pubsub.go: channels with their subscribers, PUBLISH
--                             and SUBSCRIBE.
--   MemDb, MemDb/Reply        memdb/db.go: the database, CheckTTL, SetTTL, DelTTL and the timers.
--   MemDb/Keys, MemDb/KeyInfo memdb/keys.go: DEL, EXISTS, KEYS, EXPIRE; PERSIST, TTL, TYPE, RENAME, PING.
--   MemDb/Strings, /Counters, /SetString
--                             memdb/string.go: GET, SETRANGE, MGET, MSET, SETEX, SETNX, STRLEN, APPEND;
--                             INCR, DECR, INCRBY, DECRBY; SET with its options.
--   MemDb/Objects             the heap of the objects that the database points to, of any one kind: the
--                             type assertions, a new object under a key, a method's write.
--   MemDb/Hashes, /Reads, /Writes
--                             memdb/hash.go: the heap of hashes, HGET and the other readers, HSET, HSETNX,
--                             HINCRBY and HDEL.
--   MemDb/Sets, /Writes, /Stores
--                             memdb/sets.go: the heap of sets, SISMEMBER and the other readers; SADD, SREM,
--                             SPOP, SMOVE; SDIFFSTORE, SINTERSTORE, SUNIONSTORE.
--   MemDb/Streams             memdb/stream.go: XADD and XRANGE, on a heap of streams.
--   MemDb/Command             memdb/command.go and ExecCommand of memdb/db.go: the table of commands, which
--                             ExecCommand has as an argument, and the commands registered in it.
--   Prelude, Strconv          the names of the library, 64-bit integers, strconv's decimal integers.
--
-- State is passed explicitly: a method that changes its receiver returns the new one beside its result.
-- A command gets the clock's second as an argument, reads it once, and runs alone between the locks
-- that it takes. A Go call that may panic has a result of type Outcome: a value, a panic, or `stuck`,
-- which is the model's own sign that fuel ran out. Pointers that the database holds are addresses.
--
-- Bounds and fuel: int and int64 are integers whose operations wrap around at 64 bits. The parser's
-- loop has as fuel one more than the number of bytes and of the reader's errors that are left, since every
-- round that goes on takes one of these; a stream has finitely many errors, so a connection whose reads
-- fail for ever is not one, and what is sent to the channel is received;
-- the matcher has one more than the pattern's length, since every round and call takes a byte of it;
-- the loop of XADD over its words, which may not end, has its fuel as an argument, and one more than
-- the words is enough where none of them is `~`; a loop over a list has the number of addresses
-- allocated, more than the nodes that it can meet. A score of a sorted set is a rank among the floats that
-- are not NaN. A range over a Go map meets the entries in one order, the model's.
-- Slices up to 2^48 bytes can be made, and `make` panics above, as on a 64-bit machine.
--
-- Send of PubSub takes no lock; in the model a call of it is one step, and what other goroutines do to the
-- channel while it runs is not modelled.
--
-- Not modelled: the texts of protocol errors, logging, sockets and configuration; the commands on lists
-- and AddSubscribe of a list; the commands on sorted sets, and the table of names, Pop and Pull of the
-- tree; SRANDMEMBER and Random of a set, which choose at random; the pump of channels; INCRBYFLOAT,
-- GETRANGE, HINCRBYFLOAT and HRANDFIELD; readers of the locks; the raft node and the vendored etcd
-- library.
pub mod Prelude
pub mod Strconv
pub mod Resp
pub mod Util
pub mod GoMap
pub mod ConcurrentMap
pub mod SetStruct
pub mod HashStruct
pub mod Locks
pub mod ListStruct
pub mod Btree
pub mod StreamStruct
pub mod PubSub
pub mod MemDb
mod Tests
