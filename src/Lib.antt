-- ===== src/Lib.antt =====
-- A model of medusa, an in-memory data grid: a map that is split into 271 partitions, which the
-- members of a cluster own and back up, with entry processors, aggregations, distributed locks and
-- distributed queues.
--
-- A key is hashed to a partition (partition/hash.go). The member that owns the partition keeps the
-- partition's entries in a shard of its store (imap/store.go). A request reaches the owner's service
-- (imap/service.go), which runs it on the store under the shard's lock: a put or a remove, an entry
-- processor on one entry (imap/processor.go; the locks and the compare-and-swap are processors), or
-- a queue operation on the several entries of one queue (imap/queue.go). An aggregation runs on the
-- values of every member and combines the partial results (imap/aggregate.go).
--
-- The files:
--   Base, Base/Bools, Base/Lists  the shared names, Boolean tests and lists over the native numbers
--   Bytes      the calls of encoding/binary on big-endian words; an int64 is its 64-bit pattern
--   GoMap      a Go map with string keys, as an association list
--   Partition  `For` of partition/hash.go; Partition/Table is partition/table.go, Partition/Order its
--              sorts (an insertion sort; the comparisons are strict and total, so that every sort
--              returns the same list), Partition/Owner is about the layout of the table, and Partition/Rank
--              says who holds which copy
--   Shard      `value` and one shard of imap/store.go, with what each change of an entry leaves
--   Txn        the critical section of `updateMulti`: the shard and the mutations so far
--   Store      `store` of imap/store.go: get, lookup, put, cacheLoaded, remove, update, updateMulti
--   Scan       the walks over a shard: snapshotPartition, partitionDigest, dropMigrated,
--              pruneToKeyset, sweepExpired; Scan/Distinct is the invariant that no key stands twice,
--              Found says what a walk leaves and returns, Migration and Cleanup prove
--   Owned      the walks over all partitions: snapshotAll, sweepExpired, entryCount, countMap,
--              collectOwnedValues, countOwned, sampleOwned, clearMap; Owned/Counts and Sample prove
--   Invariant  the operations of the store as steps, and what every step keeps
--   Reads      what a read returns after each operation
--   Processor  imap/processor.go; Processor/Counter, Cas, Lock, Fence and Exclusive prove
--   Aggregate  imap/aggregate.go; Aggregate/MapReduce and Extremum prove, and
--              Aggregate/Least says what a minimum and a maximum are
--   Queue      imap/queue.go; Queue/Packed and Keys are about the encodings, Chain states what it is
--              for a shard to hold a queue, Writes, Offer, Taking and Poll prove the operations, Fifo and
--              Runs refine an ideal queue, Isolation is about the other entries, Closed about what
--              the accessors of a critical section keep
--   Legacy     loadAll of imap/store.go, convertLegacyQueue and orderQueueMetaLast of imap/queue.go
--   Frame      transport/frame.go; Frame/RoundTrip proves
--   Membership cluster/membership.go: the view of the cluster, gossip, eviction and joining, with the
--              failure detector's histories as a type parameter; Membership/Coherent and Views
--              prove; Detection is the pings, the failure detector, Join and the messages, and Answered
--              proves
--   Wal        imap/wal.go: the log as the bytes of its file, with a disk whose writes may fail and the
--              marshalling as a parameter; Wal/Records is about one record, Replay about a log, Torn
--              about writes that were cut off, and Tagged is a codec for examples
--   Service    imap/service.go: the node, `logged` and what a call sends, emits and writes through, as a
--              list of effects. Service/Requests has the writes, Queries the reads, the eviction and a
--              member's share of a query, Restart the snapshots, OpenWAL and Checkpoint,
--              Handle the dispatch of a peer's messages, and Sync the loops of Migrate and SyncBackups;
--              Reconcile is about a prune that a peer asks for. Change is what
--              a request does to the store and logs, Logged relates the requests to it, Agree says when
--              two stores read the same, Replayed, Followed and Recovery prove that replay follows the requests, Home
--              that an entry stands in its key's partition, Loading and Snapshot are about restoring,
--              Crash about a checkpoint with what follows it, Overlap about a crash before the log is truncated,
--              Expiry about lifetimes, Lapsing about a processor on an entry that is about to expire, Placed about what a put
--              leaves as it was, and Delivered about what the pushes of Migrate report. Loaders is the
--              registration of imap/loader.go
--   Wire       the send functions of imap/service.go and Handle on the bytes of a request; Wire/Answers is
--              about the types of replies, Sending about what a caller is told, and Remote composes them with
--              the transports
--   Client     imap/map.go: a client's calls on the owner or, when it gives no answer, on a backup;
--              Client/Gather has Get and the calls that ask every member, Queues the handle of
--              imap/queue.go, and Available proves
--   Listeners  imap/listener.go: the registry and the dispatcher as turns of goroutines; Delivery accounts
--              for every event and Drain proves that the dispatcher empties the queue
--   Transport  one request over transport/tcp.go, poseidon.go and inmem.go; Agreement compares the three,
--              Pool is the pools of connections of tcp.go and Conserved accounts for the connections
--   Decimal    the decimal texts of package strconv
--   Metrics    metrics/metrics.go
--   Http       httpapi/httpapi.go: the routes, the responses and the token; Http/Serve has the handlers,
--              Gate is about who is served, and Owner about a value that is put and read
--   Grid       medusa.go: the configuration and the start of a node; Grid/Round is a round of its
--              maintenance loop as the composition of its parts, Dispatch the dispatch and the shutdown,
--              Joins is about an isolated node, SnapshotFile is the writing of the snapshot over a file system
--              that may fail at any call, and SnapshotFile/Atomic is about a crash
--   Tests, StoreTests, WalTests, ServiceTests, ClusterTests, NodeTests, FileTests  the theorems at concrete inputs
--
-- A byte string is a list of numbers; what depends on the bytes being below 256 says so. A nil slice
-- reads as the empty one. An operation that runs under a shard's lock is one function on the shard,
-- so that a run of operations in any interleaving is a list of calls. The clock is an argument, a
-- time for each operation, and no order of the times is assumed where a theorem does not name one. Copies that the code makes so that
-- a value does not alias the store have no counterpart, since the lists are values.
-- To the service and its clients the transport is a parameter, a function that threads
-- the state of the peers behind it, and Wire composes the calls with the transports; the disk is a
-- parameter too, an answer for each append, and so is the file system of the snapshot.
-- Go's unspecified order of a map is the order of the association list.
--
-- Bounds: an unsigned word is a number with the wrap-around written out. The count of a queue and
-- its segment ids are uint64, and the theorems on queues ask for fewer than 2 ^ 64 operations and
-- items below 2 ^ 32 bytes, since an item's length is a uint32. A loop on fuel is that of
-- `queueCount`: it takes at least four bytes a round, so the number of bytes is enough. The loop of
-- `convertLegacyQueue` is the same walk, with the number of bytes and one as its fuel, and so is the loop
-- of a connection, each of whose rounds reads the five bytes of a header. A decimal text has
-- fuel for the 20 digits of a uint64. A frame carries at most 64 MiB; an HTTP/2 body that is longer than the
-- stream window of 16 MiB is never read to its end, so that the call ends with its context.
--
-- Not modelled: sockets, TLS, deadlines and the HTTP/2 library (of transport/tcp.go and poseidon.go the
-- exchange and the pools are), the switch's registry of transport/inmem.go, the timer, the log lines and
-- the reading of the snapshot file in medusa.go, the node binary (cmd/medusa-node), discovery and the
-- buffers of codec, the failure detector's statistics on floating-point numbers (cluster/phi.go, an
-- interface here), the generated protobuf code, and the vendored packages. The matching of routes and
-- the texts of errors in httpapi/httpapi.go are the standard library's, by its documentation.
pub mod Aggregate
pub mod Base
pub mod Bytes
pub mod Client
pub mod ClusterTests
pub mod Decimal
pub mod FileTests
pub mod Frame
pub mod GoMap
pub mod Grid
pub mod Http
pub mod Invariant
pub mod Legacy
pub mod Listeners
pub mod Membership
pub mod Metrics
pub mod NodeTests
pub mod Owned
pub mod Partition
pub mod Processor
pub mod Queue
pub mod Reads
pub mod Scan
pub mod Service
pub mod ServiceTests
pub mod Shard
pub mod Store
pub mod StoreTests
pub mod Tests
pub mod Transport
pub mod Txn
pub mod Wal
pub mod WalTests
pub mod Wire
