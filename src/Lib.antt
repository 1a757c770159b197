-- ===== src/Lib.antt =====
-- Verification of the distributed key-value store under kv-store/: a Raft cluster whose nodes apply
-- committed commands to a store that is backed by a write-ahead log.
--
-- Parts and files (paths are from the repository's root)
--
--   Raft/Log          kv-store/internal/raft/log.go. `RaftLog` is a list of entries; `append`,
--                     `last_index`, `get`, `entries_from` and `truncate_from` are its methods.
--   Raft/Node         kv-store/internal/raft/node.go: the record of a node, events, the timer,
--                     becomeCandidate and becomeLeader.
--   Raft/Vote         kv-store/internal/raft/vote.go: RequestVote.
--   Raft/AppendEntries  append_entries.go beside it: AppendEntries, with applyCommitted of node.go.
--   Raft/Election     startElection, the goroutine for one peer's vote, the election timeout.
--   Raft/Heartbeat    sendHeartbeats, the goroutine for one peer's reply, updateCommitIndex.
--   Raft/Lifecycle    Start, Stop, Restart, the setters and the status.
--   Raft/Run          one node under its handlers in any order.
--   Raft/Cluster      all nodes and the vote calls between them: the goroutines of startElection,
--                     and the transport, which may lose a request or a reply.
--   Raft/Network      the same with the entry calls of sendHeartbeats, which may be lost, late or
--                     repeated, and share the log's array until their goroutines marshal them.
--   Raft/KvNode       kv-store/internal/raft/kv_node.go: a node whose state machine is a store.
--   Events            the event types of kv-store/internal/events/events.go, and in Events/Bus its
--                     bus; Publish is the part under the lock, and the sends after it.
--   Wal/Codec         Encode and decodeRecord of kv-store/internal/wal/wal.go.
--   Wal/Replay        Replay of the same file, over the contents of the log file.
--   Wal/Commit        Open, Append, Close, BatchStats and the commit goroutine of that file, as steps
--                     of the log and its disk.
--   Store             kv-store/internal/store/store.go: New over a replay, the reads and writes, and
--                     applyOrdered. `apply_ordered` is the loop that applies what is waiting.
--                     Store/Agreement joins it with Wal/Commit.
--   HttpApi           kv-store/internal/httpapi/handler.go: requests, answers and the handlers of keys;
--                     Control has /cluster and /nodes/, Stream the filter of /events, Routes the mux,
--                     and Text what the handlers use of Go's strings and strconv.
--   Raft/Rpc          http_transport.go, http_handler.go and mock_transport.go in
--                     kv-store/internal/raft: the two transports and the handlers of the calls.
--   Server            kv-store/cmd/server/main.go: the start of the nodes, the handler, the shutdown.
--   Prelude           shared names: lists over the native numbers, Go's integers, maps, byte strings.
--
-- How the code is modelled
--
-- A handler runs under its node's mutex from start to end, so it is a function from the node (and
-- the call's arguments) to the node and the reply. A goroutine that sends a call and handles the
-- reply is two parts: the list of calls that the handler starts, and a function of the reply. The
-- local variable `votes` that such goroutines share is in the record `Campaign`.
-- A `uint64` is a number, with its wrap-around written out where the code counts up; an `int` is an
-- integer; the conversions between them keep the bit pattern, as Go's do. A string is the list of
-- its bytes. A map is an association list, whose order stands for the order of a `range`. The
-- callback `applyFunc` is a function on the type `S` of state machines, and `machine` is its state.
-- The events of a node are kept in the order in which it publishes them; a text that Sprintf makes
-- is a constructor with the values that go into it. The clock and the random draw are given by the
-- field `env`. `crc32.ChecksumIEEE` is a parameter, of which only its range is assumed.
--
-- Loops are recursion on their list, or on the number of rounds that are left: applyCommitted makes
-- a round for each index between lastApplied and commitIndex, applyOrdered one for each record that
-- waits. updateCommitIndex tests its condition once for each index between commitIndex and the last
-- one, and once more; that is enough where the last index is below 2^64-1, and with that index the
-- code's loop never ends. Replay takes fuel, one more than the bytes of the file, and each round takes
-- at least four bytes.
--
-- A write to the store is two functions, before and after `wal.Append`, since other writes may come
-- in between; the result of `Append` is an argument of the second. applyOrdered holds `applyMu` from
-- start to end, so its calls come one after the other.
--
-- The log with its goroutine is a step relation. Append is cut at its send, for which it keeps the
-- mutex, and the goroutine at each receive, at the mutex, at each write to the file, at the sync and
-- at each answer; what the disk does with a write or a sync is given to the step. `synced` is what is
-- known to be on the disk. The numbers of a run stay below 2^64.
--
-- An HTTP handler is a function from the request and the nodes to the nodes and the answer, with
-- nothing in between. encoding/json is a pair of functions, or the function that decodes a body,
-- and ServeMux's own answers are functions of the request. The JSON text of an answer is left out:
-- `Body` has what goes into it. A request over the network is lost, answered in vain, or delivered.
--
-- A cluster is a function from node numbers to nodes, and its steps interleave in any order. The
-- transport's look-up of an address, and its refusal of a stopped node, are losses of a call. A node
-- can become leader between the timer's look at its state and the start of the campaign, which is a
-- step of its own. A write takes place only where the log and the term leave room in their types.
-- The entries of a call are a slice of the log's array until its goroutine marshals it, so a step can
-- put the entry that stands in the log into a call that was started; a run says whether it has such
-- steps.
--
-- Not modelled: the headers of HTTP, the errors of writing an answer, the wait loops of goroutines
-- (the timer and the ticker only decide when a handler runs), the sockets and signals of the server,
-- and the browser frontend, which is in another language.
pub mod Prelude
pub mod Events
pub mod Raft
pub mod Wal
pub mod Store
pub mod HttpApi
pub mod Server
