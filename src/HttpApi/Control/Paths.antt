-- ===== src/HttpApi/Control/Paths.antt =====
-- Which node a path below /nodes/ names.
use mathlib.Core.List.{append-nil}
use distributed_fault_tolera.Prelude.{
  if_false, ℕ, ◌<◌, ◌^◌, Bytes, List, [], ◌∷◌, ◌++◌, false, some, ◌≡◌, ap, ◌∙◌, arith, pos, All,
  get_elem?, eq_bytes,
}
use distributed_fault_tolera.Raft.Node.{RaftNode}
use distributed_fault_tolera.Raft.Lifecycle.{status}
use distributed_fault_tolera.Raft.KvNode.{Machine}
use distributed_fault_tolera.HttpApi.Text.{codes, trim_prefix, split_slash, show_int}
use distributed_fault_tolera.HttpApi.Text.Numbers.{
  IsDigit, digits-All, atoi-show_int, show_int-cons,
}
use distributed_fault_tolera.HttpApi.Text.Paths.{
  NoSlash, trim_prefix-append, split_slash-append, split_slash_one,
}
use distributed_fault_tolera.HttpApi.{node, Nodes}
use distributed_fault_tolera.HttpApi.Control.{
  kill_node, restart_node, node_action, node_of, at_node, at_parts, nodes_handler,
}

digits-NoSlash : (s : Bytes) → All IsDigit s → NoSlash s
digits-NoSlash [] h = tt
digits-NoSlash (c ∷ s) (d, h) = (λ e. omega (arith, d, e), digits-NoSlash s h)

id-NoSlash : (i : ℕ) → NoSlash (show_int (pos i))
unfolding show_int
id-NoSlash i = digits-NoSlash _ (digits-All 20 i [] tt)

at_parts-id :
    (method : Bytes) (parts : List Bytes) (i : ℕ) (r : RaftNode Machine) (rs : Nodes)
    → i < 2 ^ 63
    → get_elem? rs i ≡ some r
    → at_parts method (show_int (pos i) ∷ parts) rs ≡ node_action method parts i r rs
unfolding at_parts at_node node_of eq_bytes
at_parts-id method parts i r rs small here =
    let (c, s, e, _) = show_int-cons (pos i) in
    let named : eq_bytes (show_int (pos i)) [] ≡ false = ap (λ b. eq_bytes b []) e in
    let found : node_of (some (pos i)) rs ≡ some (i, r) = ground (arith, here) in
    if_false _ named
    ∙ ap (λ o. at_node method parts (node_of o rs) rs) (atoi-show_int (pos i) small)
    ∙ ap (λ o. at_node method parts o rs) found

-- An action behind the id.
with_action :
    (i : ℕ) (a : Bytes)
    → NoSlash a
    → split_slash
        (trim_prefix (codes "/nodes/") (codes "/nodes/" ++ (show_int (pos i) ++ (b'/' ∷ a))))
      ≡ show_int (pos i) ∷ a ∷ []
with_action i a h =
    ap split_slash (trim_prefix-append (codes "/nodes/") (show_int (pos i) ++ (b'/' ∷ a)))
    ∙ split_slash-append (show_int (pos i)) a (id-NoSlash i)
    ∙ ap (λ parts. show_int (pos i) ∷ parts) (split_slash_one a h)

id_only :
    (i : ℕ)
    → split_slash (trim_prefix (codes "/nodes/") (codes "/nodes/" ++ (show_int (pos i) ++ [])))
      ≡ show_int (pos i) ∷ []
id_only i =
    ap split_slash (trim_prefix-append (codes "/nodes/") (show_int (pos i) ++ []))
    ∙ ap split_slash (append-nil (show_int (pos i)))
    ∙ split_slash_one (show_int (pos i)) (id-NoSlash i)

-- The id of a node and an action, in a path.
abbrev pub path_of : ℕ → Bytes → Bytes
path_of i rest = codes "/nodes/" ++ (show_int (pos i) ++ rest)

-- The path with the decimal id of a node that is there leads to that node: GET returns its status, a
-- POST with /kill or /restart behind the id is the kill or the restart of that node.
pub nodes_handler-path_of :
    (i : ℕ) (r : RaftNode Machine) (rs : Nodes) (body : Bytes)
    → i < 2 ^ 63
    → get_elem? rs i ≡ some r
    → (nodes_handler (record { method = codes "GET"; path = path_of i []; body = body }) rs
        ≡ (rs, record { code = 200; body = node (status r) }))
      × (nodes_handler
            (record { method = codes "POST"; path = path_of i (codes "/kill"); body = body })
            rs
          ≡ kill_node i r rs)
      × (nodes_handler
            (record { method = codes "POST"; path = path_of i (codes "/restart"); body = body })
            rs
          ≡ restart_node i r rs)
unfolding nodes_handler node_action eq_bytes
nodes_handler-path_of i r rs body small here = (
  ap (λ parts. at_parts (codes "GET") parts rs) (id_only i)
      ∙ at_parts-id (codes "GET") [] i r rs small here,
  ap (λ parts. at_parts (codes "POST") parts rs) (with_action i (codes "kill") (ground arith))
      ∙ at_parts-id (codes "POST") (codes "kill" ∷ []) i r rs small here,
  ap (λ parts. at_parts (codes "POST") parts rs) (with_action i (codes "restart") (ground arith))
      ∙ at_parts-id (codes "POST") (codes "restart" ∷ []) i r rs small here,
)
