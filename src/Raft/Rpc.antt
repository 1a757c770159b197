-- ===== src/Raft/Rpc.antt =====
-- How a call goes from node to node: kv-store/internal/raft/mock_transport.go, http_transport.go and
-- http_handler.go. `Codec` stands for encoding/json on one type, and `Delivery` for what the network
-- does with a request; a result `none` is an error. A map of addresses is an association list.
pub mod Equivalence
mod Examples
use distributed_fault_tolera.Prelude.{
  ℕ, Bytes, List, Bool, true, false, not, Option, none, some, eq_bytes, ◌==◌, if◌then◌else◌,
}
use distributed_fault_tolera.Prelude.Assoc.{lookup, insert}
use distributed_fault_tolera.HttpApi.Text.{codes}
use distributed_fault_tolera.Raft.Node.{RaftNode}
use distributed_fault_tolera.Raft.Vote.{RequestVoteArgs, RequestVoteReply, request_vote}
use distributed_fault_tolera.Raft.AppendEntries.{
  AppendEntriesArgs, AppendEntriesReply, append_entries,
}

pub record Codec (A : Type 0) : Type 0 where
  pub marshal : A → Option Bytes
  pub decode : Bytes → Option A

pub record RpcRequest : Type 0 where
  pub method : Bytes
  pub body : Bytes

pub record RpcResponse : Type 0 where
  pub code : ℕ
  pub body : Bytes

abbrev pub or_nothing : Option Bytes → Bytes
or_nothing none = List.[]
or_nothing (some b) = b

module _ {S A B : Type 0} (args_codec : Codec A) (reply_codec : Codec B)
    (call : A → RaftNode S → RaftNode S × B) (problem : Bytes) where
  pub answer_call : Option A → RaftNode S → RaftNode S × RpcResponse
  answer_call none r = (r, record { code = 400; body = problem })
  answer_call (some args) r =
      let (r', reply) = call args r in
      (r', record { code = 200; body = or_nothing (reply_codec.marshal reply) })

  -- The handler that is registered for a call. `problem` is the text of any error.
  unfoldable pub rpc_handler : RpcRequest → RaftNode S → RaftNode S × RpcResponse
  unfolding answer_call
  rpc_handler req r =
      if not (eq_bytes req.method (codes "POST"))
      then (r, record { code = 405; body = problem })
      else if r.stopped
      then (r, record { code = 503; body = problem })
      else answer_call (args_codec.decode req.body) r

-- A request that is posted is lost, or its response is lost, or neither.
pub data Delivery : Type 0 where
  request_lost response_lost delivered : Delivery

module _ {S A B : Type 0} (args_codec : Codec A) (reply_codec : Codec B)
    (handler : RpcRequest → RaftNode S → RaftNode S × RpcResponse) where
  unfoldable pub read_response : RpcResponse → Option B
  read_response resp = if not (resp.code == 200) then none else reply_codec.decode resp.body

  pub post : Delivery → Bytes → RaftNode S → RaftNode S × Option B
  post request_lost body r = (r, none)
  post response_lost body r = ((handler (record { method = codes "POST"; body = body }) r).0, none)
  post delivered body r =
      let (r', resp) = handler (record { method = codes "POST"; body = body }) r in
      (r', read_response resp)

  pub post_marshalled : Delivery → Option Bytes → RaftNode S → RaftNode S × Option B
  post_marshalled d none r = (r, none)
  post_marshalled d (some body) r = post d body r

  -- A call of the transport over HTTP, with the node that it goes to.
  unfoldable pub http_call : Delivery → A → RaftNode S → RaftNode S × Option B
  unfolding post_marshalled post read_response
  http_call d args r = post_marshalled d (args_codec.marshal args) r

module _ {S : Type 0} (problem : Bytes) where
  unfoldable pub request_vote_handler :
      Codec RequestVoteArgs
      → Codec RequestVoteReply
      → RpcRequest
      → RaftNode S
      → RaftNode S × RpcResponse
  request_vote_handler ac rc = rpc_handler ac rc request_vote problem

  unfoldable pub append_entries_handler :
      Codec AppendEntriesArgs
      → Codec AppendEntriesReply
      → RpcRequest
      → RaftNode S
      → RaftNode S × RpcResponse
  append_entries_handler ac rc = rpc_handler ac rc append_entries problem

  unfoldable pub http_request_vote :
      Codec RequestVoteArgs
      → Codec RequestVoteReply
      → Delivery
      → RequestVoteArgs
      → RaftNode S
      → RaftNode S × Option RequestVoteReply
  unfolding request_vote_handler
  http_request_vote ac rc = http_call ac rc (request_vote_handler ac rc)

  unfoldable pub http_append_entries :
      Codec AppendEntriesArgs
      → Codec AppendEntriesReply
      → Delivery
      → AppendEntriesArgs
      → RaftNode S
      → RaftNode S × Option AppendEntriesReply
  unfolding append_entries_handler
  http_append_entries ac rc = http_call ac rc (append_entries_handler ac rc)

module _ {S A B : Type 0} (call : A → RaftNode S → RaftNode S × B) where
  -- A call through the map of nodes in memory.
  pub local_at :
      Bytes
      → A
      → Option (RaftNode S)
      → List (Bytes × RaftNode S)
      → List (Bytes × RaftNode S) × Option B
  local_at address args none nodes = (nodes, none)
  local_at address args (some r) nodes =
      if r.stopped
      then (nodes, none)
      else let (r', reply) = call args r in (insert eq_bytes address r' nodes, some reply)

module _ {S : Type 0} where
  unfoldable pub local_request_vote :
      Bytes
      → RequestVoteArgs
      → List (Bytes × RaftNode S)
      → List (Bytes × RaftNode S) × Option RequestVoteReply
  unfolding local_at
  local_request_vote address args nodes =
      local_at request_vote address args (lookup eq_bytes address nodes) nodes

  unfoldable pub local_append_entries :
      Bytes
      → AppendEntriesArgs
      → List (Bytes × RaftNode S)
      → List (Bytes × RaftNode S) × Option AppendEntriesReply
  unfolding local_at
  local_append_entries address args nodes =
      local_at append_entries address args (lookup eq_bytes address nodes) nodes
