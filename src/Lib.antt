-- ===== src/Lib.antt =====
-- locache, a distributed cache that runs inside the processes that use it, checked part by part.
--
-- The program. A key has one owner, chosen by a consistent-hash ring over the members
-- (consistenthash/); the owner keeps the value in a local cache (cache.go) over a store (store/).
-- Misses of one key are joined by singleflight/. Group (group.go) puts these together with the peers
-- (peers.go), reached by gRPC (client.go, server.go); membership comes from etcd (registry/).
--
-- The files, and the code that each models:
--   Base and its children: the shared names, 64-bit words, byte strings, Go maps.
--   Store/Options: store/store.go, `Options` and `NewOptions`.
--   Store/Lru: store/lru.go, one function for each method of `lruCache`, under the method's name in
--     lower case; its children prove the invariant (Invariant), the methods against a sequence of
--     entries (Spec, Reads, Evict, Writes), histories (Runs), what a caller reads (Promises), and the
--     eviction callback (Callbacks).
--   Store/Sharded: store/sharded_lru.go; its children hold the loops that settle the number of
--     shards (Count, Rounding), the budget (Budget), the routing of calls (Routing), and the bytes
--     stored (Capacity). Store/Fnv is the hash of hash/fnv that picks a shard.
--   Store/Choice: store/store.go, `Store` and `NewStore`; Backing, the LRU that serves a key.
--   ConsistentHash: consistenthash/, one function for each method of `Map`. Order and Search hold the
--     order of the points, the sorts and the binary search; Sorting, Invariant, Membership, Lookup,
--     Owners and Initial hold the proofs.
--   Cache: cache.go and byteview.go; Reads, what a caller gets back; Deletes, what a Delete leaves.
--   SingleFlight: singleflight/, a step relation over any number of callers; Invariant and Wakeup.
--   Registry: registry/register.go, the names of nodes; Registry/Registration, the lease of a node.
--   Peers: peers.go, ClientPicker; Changes holds what changes its members, Watch what etcd sends and
--     the constructor; Members, Dialled, Invariant, Replace, Picks and the children of Watch hold the
--     proofs, and Sample two pickers for the tests.
--   Group/State: group.go, its types and errors, and a monad over the state of a group for its
--     methods. Group/Local: the owner's paths, from `getLocal` to `releaseKeyState`, with a load that a
--     write overtakes (Races), and what a call leaves of the owner (Owner). Group/Remote: `Get`, `Set`
--     and `Delete` with their attempts, those of a group without peers (Lone), with a steady picker
--     (Steady, and its near cache in Near and Dropped), and with a peer whose calls panic (Panics).
--     What a group calls outside (PeerPicker, Peer, Getter, the clock) is the parameter `Env`, each call
--     of which may change the state of the group in any way: this stands for the other goroutines. A
--     call leads its flight.
--   Group/Table: the life of groups in group.go: options, the table of groups, Close, Stats; Laws and
--     Ends hold the proofs.
--   Rpc: what client.go and server.go use of gRPC; Client and Server hold the requests and their
--     handlers, Codes and Requests the proofs; Serving, a server from NewServer to Stop, and its Lease;
--     Sample, a gRPC for the tests.
--   Node: one process, its group over a ClientPicker with its clients, and the net of nodes that they
--     reach: the parameters of Group and Rpc filled by Peers and Rpc. Cluster is the owner's node, Spread
--     the requests of `Invalidate`, Calls and Requests the node that asks; Reach, ReadWrite, Deletes and
--     Panics hold proofs.
--
-- Conventions. A Go string is the list of its bytes. An int, an int64 and a time.Duration is its
-- 64-bit pattern, and sums and differences wrap. An instant is a number of nanoseconds that does not
-- wrap. A value is of any type, with its `Len` as a parameter. A Go map is an association list in its
-- order of iteration. A method holds its mutex throughout, so it is one function on the state; what
-- time.Now returns is an argument, one for each call. The callback `onEvicted` is recorded by the
-- list of its calls; that it does not call back into the store is assumed, since the store would
-- deadlock. A pointer to a list element is a number; the eviction loop runs on fuel, the number of
-- elements, and each round removes one, so it suffices; the two loops that settle the number of
-- shards run on 64 rounds, enough for every count up to 2^62. The binary search runs on fuel, one
-- more than the number of points. The attempts of a group's call are counted down from four. The
-- sort of package sort is written as one by insertion.
--
-- What etcd, gRPC and package net answer to a picker or a registration are parameters. The rounds of a
-- watch are a list, and the waits between them take no time.
--
-- In Node the goroutines of `Invalidate` run one after the other, each request is served at once, and a
-- net does not lose any; the picker of a node stands still meanwhile.
--
-- A server's gRPC, etcd client and listener are parameters as well. Each group of a table has its own
-- view of what lies outside it.
--
-- Not modelled: the goroutines that wait for the cleanup timers (a tick is a call) or drain the answers
-- of a lease; logging and printing; the health service and the reading of certificates, which are
-- calls of libraries; the generated code of pb/; and the example, which wires and prints.
pub mod Base
pub mod Store
pub mod ConsistentHash
pub mod Cache
pub mod SingleFlight
pub mod Registry
pub mod Peers
pub mod Group
pub mod Rpc
pub mod Node
