-- ===== src/Raft/Rpc/Equivalence.antt =====
-- The transport over HTTP does what the transport in memory does.
use distributed_fault_tolera.Prelude.{
  Bytes, List, Option, none, some, ◌≡◌, refl, ap, sym, ◌∙◌, eq_bytes, eq_bytes_iff, if◌then◌else◌,
  if_true, if_false, Bool-cases, inl, inr, subst,
}
use distributed_fault_tolera.Prelude.Assoc.{lookup, insert, lookup-insert}
use distributed_fault_tolera.Raft.Node.{RaftNode}
use distributed_fault_tolera.Raft.Vote.{RequestVoteArgs, RequestVoteReply, request_vote}
use distributed_fault_tolera.Raft.AppendEntries.{
  AppendEntriesArgs, AppendEntriesReply, append_entries,
}
use distributed_fault_tolera.Raft.Rpc.{
  Codec, RpcResponse, or_nothing, answer_call, rpc_handler, delivered, read_response, post,
  post_marshalled, http_call, request_vote_handler, append_entries_handler, http_request_vote,
  http_append_entries, local_at, local_request_vote, local_append_entries,
}

-- The JSON text of `a` is there, and gives `a` back.
abbrev pub Carries : {A : Type 0} → Codec A → A → Type 0
Carries codec a = (text : Bytes) × (codec.marshal a ≡ some text) × (codec.decode text ≡ some a)

-- The node that has the call made on it, and the reply, unless it is stopped.
abbrev pub direct :
    {S A B : Type 0} → (A → RaftNode S → RaftNode S × B) → A → RaftNode S → RaftNode S × Option B
direct call args r = if r.stopped then (r, none) else ((call args r).0, some (call args r).1)

http_call-direct :
    {S A B : Type 0} (ac : Codec A) (rc : Codec B) (call : A → RaftNode S → RaftNode S × B)
    (problem : Bytes) (args : A) (r : RaftNode S)
    → Carries ac args
    → Carries rc (call args r).1
    → http_call ac rc (rpc_handler ac rc call problem) delivered args r ≡ direct call args r
unfolding http_call post_marshalled post read_response rpc_handler answer_call eq_bytes
http_call-direct {S} {A} {B} ac rc call problem args r (text, written, read)
      (back, answered, understood) =
    ap (λ o. post_marshalled ac rc (rpc_handler ac rc call problem) delivered o r) written
    ∙ elim (Bool-cases r.stopped) [
      | inl halted ↦
          ap received (if_true (answer_call ac rc call problem (ac.decode text) r) halted)
          ∙ sym (if_true ((call args r).0, some (call args r).1) halted)
      | inr running ↦
          ap received (
            if_false (r, record { code = 503; body = problem }) running
            ∙ ap (λ o. answer_call ac rc call problem o r) read)
          ∙ ap (λ m. ((call args r).0, rc.decode (or_nothing m))) answered
          ∙ ap (λ o. ((call args r).0, o)) understood
          ∙ sym (if_false (r, none) running)
    ]
  where
    received : RaftNode S × RpcResponse → RaftNode S × Option B
    received out = (out.0, read_response ac rc (rpc_handler ac rc call problem) out.1)

local_at-direct :
    {S A B : Type 0} (call : A → RaftNode S → RaftNode S × B) (address : Bytes) (args : A)
    (nodes : List (Bytes × RaftNode S)) (r : RaftNode S)
    → lookup eq_bytes address nodes ≡ some r
    → let out = local_at call address args (lookup eq_bytes address nodes) nodes in
      (lookup eq_bytes address out.0 ≡ some (direct call args r).0)
      × (out.1 ≡ (direct call args r).1)
unfolding local_at
local_at-direct {S} {A} {B} call address args nodes r here =
    subst
      (λ (o : Option (RaftNode S)).
        (lookup eq_bytes address (local_at call address args o nodes).0
          ≡ some (direct call args r).0)
        × ((local_at call address args o nodes).1 ≡ (direct call args r).1))
      (sym here) found
  where
    Found : (List (Bytes × RaftNode S) × Option B) → RaftNode S × Option B → Type 0
    Found out d = (lookup eq_bytes address out.0 ≡ some d.0) × (out.1 ≡ d.1)

    done : List (Bytes × RaftNode S) × Option B
    done = (insert eq_bytes address (call args r).0 nodes, some (call args r).1)

    found : Found (local_at call address args (some r) nodes) (direct call args r)
    found = elim (Bool-cases r.stopped) [
      | inl halted ↦
          subst (Found (local_at call address args (some r) nodes))
            (sym (if_true ((call args r).0, some (call args r).1) halted))
            (subst (λ o. Found o (r, none)) (sym (if_true done halted)) (here, refl))
      | inr running ↦
          subst (Found (local_at call address args (some r) nodes))
            (sym (if_false (r, none) running))
            (subst (λ o. Found o ((call args r).0, some (call args r).1))
              (sym (if_false (nodes, none) running))
              (
                lookup-insert eq_bytes eq_bytes_iff address address (call args r).0 nodes
                    ∙ if_true (lookup eq_bytes address nodes)
                        ((eq_bytes_iff address address).1 refl),
                refl,
              ))
    ]

-- A node is in the map of the transport in memory, and the JSON texts of the arguments and of its
-- reply can be read back. Then a call that the network delivers over HTTP has the same result as the
-- call through the map, an error for a stopped node included, and leaves the node in the same state.
pub http_call-local :
    {S : Type 0} (vc : Codec RequestVoteArgs) (vr : Codec RequestVoteReply)
    (ec : Codec AppendEntriesArgs) (er : Codec AppendEntriesReply) (problem address : Bytes)
    (nodes : List (Bytes × RaftNode S)) (r : RaftNode S) (votes : RequestVoteArgs)
    (entries : AppendEntriesArgs)
    → lookup eq_bytes address nodes ≡ some r
    → Carries vc votes × Carries vr (request_vote votes r).1
    → Carries ec entries × Carries er (append_entries entries r).1
    → let vote = http_request_vote problem vc vr delivered votes r in
      let local_vote = local_request_vote address votes nodes in
      let entry = http_append_entries problem ec er delivered entries r in
      let local_entry = local_append_entries address entries nodes in
      (lookup eq_bytes address local_vote.0 ≡ some vote.0)
      × (local_vote.1 ≡ vote.1)
      × (lookup eq_bytes address local_entry.0 ≡ some entry.0)
      × (local_entry.1 ≡ entry.1)
unfolding http_request_vote http_append_entries request_vote_handler append_entries_handler
    local_request_vote local_append_entries
http_call-local vc vr ec er problem address nodes r votes entries here (va, vb) (ea, eb) =
    let v = http_call-direct vc vr request_vote problem votes r va vb in
    let e = http_call-direct ec er append_entries problem entries r ea eb in
    let lv = local_at-direct request_vote address votes nodes r here in
    let le = local_at-direct append_entries address entries nodes r here in
    (
      lv.0 ∙ ap (λ (o : _ × _). some o.0) (sym v),
      lv.1 ∙ ap (λ (o : _ × _). o.1) (sym v),
      le.0 ∙ ap (λ (o : _ × _). some o.0) (sym e),
      le.1 ∙ ap (λ (o : _ × _). o.1) (sym e),
    )
