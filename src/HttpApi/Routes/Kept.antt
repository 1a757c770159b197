-- ===== src/HttpApi/Routes/Kept.antt =====
-- Requests that fail leave every node as it was.
use distributed_fault_tolera.Prelude.{
  ℕ, zero, suc, Bytes, List, [], ◌∷◌, Bool, true, false, not, ◌&&◌, Option, none, some, ◌≡◌, ◌≢◌,
  ◌⊎◌, inl, inr, refl, ap, sym, arith, ℤ, eq_bytes, get_elem?, if_elim, Bool-cases, subst,
}
use distributed_fault_tolera.Raft.Node.{RaftNode}
use distributed_fault_tolera.Raft.Node.{leader}
use distributed_fault_tolera.Raft.Election.{eq_state}
use distributed_fault_tolera.Raft.KvNode.Clients.{answer-accepted, answer-refused}
use distributed_fault_tolera.Raft.KvNode.{
  Machine, answer, kv_set, kv_delete, set_command, delete_command,
}
use distributed_fault_tolera.HttpApi.Text.{codes, trim_prefix, split_slash, atoi}
use distributed_fault_tolera.HttpApi.{
  Request, Response, Nodes, is_running_leader, is_running, next_place, find_node, set_node,
  find_leader_kv_node, find_any_alive_kv_node, put_value, put_answer, handle_put, delete_answer,
  handle_delete, kv_method, kv_at, entry_node, kv_handler,
}
use distributed_fault_tolera.HttpApi.Control.{
  kill_node, restart_node, node_action, node_of, at_node, at_parts, nodes_handler,
}
use distributed_fault_tolera.HttpApi.Routes.{served, has_prefix, routes, new_handler}

-- What the result of a search says.
abbrev pub Found : (RaftNode Machine → Bool) → Nodes → Option (ℕ × RaftNode Machine) → Type 0
Found test rs none = (i : ℕ) (r : RaftNode Machine) → get_elem? rs i ≡ some r → test r ≡ false
Found test rs (some (i, r)) = (get_elem? rs i ≡ some r) × (test r ≡ true)

first_or_later :
    (test : RaftNode Machine → Bool) (x : RaftNode Machine) (rs : Nodes)
    → test x ≡ false
    → Found test rs none
    → (i : ℕ) (r : RaftNode Machine) → get_elem? (x ∷ rs) i ≡ some r
    → test r ≡ false
first_or_later test x rs fails found zero r e =
    let same : x ≡ r = cc in ground (arith, fails, ap test same)
first_or_later test x rs fails found (suc i) r e = found i r e

next_place-Found :
    (test : RaftNode Machine → Bool) (x : RaftNode Machine) (rs : Nodes)
    (o : Option (ℕ × RaftNode Machine))
    → test x ≡ false
    → Found test rs o
    → Found test (x ∷ rs) (next_place o)
unfolding next_place
next_place-Found test x rs none fails found = first_or_later test x rs fails found
next_place-Found test x rs (some (i, r)) fails found = found

pub find_node-Found :
    (test : RaftNode Machine → Bool) (rs : Nodes) → Found test rs (find_node test rs)
unfolding find_node
find_node-Found test [] = λ i r e. ground (arith, e)
find_node-Found test (x ∷ rs) =
    if_elim (Found test (x ∷ rs)) (test x) (λ passes. (refl, passes))
      (λ fails. next_place-Found test x rs (find_node test rs) fails (find_node-Found test rs))

-- A node that writes go to runs, and is a leader if there is a leader that runs.
abbrev pub Entry : Nodes → Option (ℕ × RaftNode Machine) → Type 0
Entry rs none =
    (i : ℕ) (r : RaftNode Machine) → get_elem? rs i ≡ some r → is_running_leader r ≡ false
Entry rs (some (i, r)) =
    (get_elem? rs i ≡ some r)
    × (is_running r ≡ true)
    × ((is_running_leader r ≡ true)
        ⊎ ((j : ℕ) (x : RaftNode Machine) → get_elem? rs j ≡ some x → is_running_leader x ≡ false))

pub entry_node-Entry : (rs : Nodes) → Entry rs (entry_node rs)
unfolding entry_node find_leader_kv_node find_any_alive_kv_node
entry_node-Entry rs =
    go (find_node is_running_leader rs) (find_node is_running rs)
      (find_node-Found is_running_leader rs) (find_node-Found is_running rs)
  where
    go :
        (a b : Option (ℕ × RaftNode Machine))
        → Found is_running_leader rs a
        → Found is_running rs b
        → Entry rs (elim a [ none ↦ b | some entry ↦ some entry ])
    go (some (i, r)) b (here, leads) other = (here, ground (arith, leads), inl leads)
    go none none no_leader no_node = no_leader
    go none (some (i, r)) no_leader (here, runs) = (here, runs, inr no_leader)

pub set_node_same :
    (i : ℕ) (r : RaftNode Machine) (rs : Nodes) → get_elem? rs i ≡ some r → set_node i r rs ≡ rs
unfolding set_node
set_node_same i r [] e = refl
set_node_same zero r (x ∷ rs) e = cc
set_node_same (suc i) r (x ∷ rs) e = ap (λ ys. x ∷ ys) (set_node_same i r rs e)

-- A request that is answered with another status than 200 has changed nothing.
abbrev pub Keeps : Nodes → Nodes × Response → Type 0
Keeps rs out = out.1.code ≢ 200 → out.0 ≡ rs

put_value-Keeps :
    (key value : Bytes) (r : RaftNode Machine) (i : ℕ) (rs : Nodes)
    → get_elem? rs i ≡ some r
    → Keeps rs (put_value key (some value) (i, r) rs)
unfolding put_value put_answer kv_set
put_value-Keeps key value r i rs e =
    let P : RaftNode Machine × Bool × ℤ × ℕ → Type 0 =
      λ out. Keeps rs (set_node i out.0 rs, put_answer key value (out.1, out.2, out.3)) in
    elim (Bool-cases (eq_state r.state leader)) [
      | inl leads ↦
          subst P (sym (answer-accepted (set_command key value) r.leader_id r leads))
            (λ other. absurd (other refl))
      | inr follows ↦
          subst P (sym (answer-refused (set_command key value) r.leader_id r follows))
            (λ other. set_node_same i r rs e)
    ]

handle_delete-Keeps :
    (key : Bytes) (r : RaftNode Machine) (i : ℕ) (rs : Nodes)
    → get_elem? rs i ≡ some r
    → Keeps rs (handle_delete key (i, r) rs)
unfolding handle_delete delete_answer kv_delete
handle_delete-Keeps key r i rs e =
    let P : RaftNode Machine × Bool × ℤ × ℕ → Type 0 =
      λ out. Keeps rs (set_node i out.0 rs, delete_answer key (out.1, out.2, out.3)) in
    elim (Bool-cases (eq_state r.state leader)) [
      | inl leads ↦
          subst P (sym (answer-accepted (delete_command key) r.leader_id r leads))
            (λ other. absurd (other refl))
      | inr follows ↦
          subst P (sym (answer-refused (delete_command key) r.leader_id r follows))
            (λ other. set_node_same i r rs e)
    ]

handle_put-Keeps :
    (decode : Bytes → Option Bytes) (key body : Bytes) (r : RaftNode Machine) (i : ℕ) (rs : Nodes)
    → get_elem? rs i ≡ some r
    → Keeps rs (handle_put decode key body (i, r) rs)
unfolding handle_put put_value
handle_put-Keeps decode key body r i rs e = go (decode body)
  where
    go : (value : Option Bytes) → Keeps rs (put_value key value (i, r) rs)
    go none = λ _. refl
    go (some value) = put_value-Keeps key value r i rs e

kv_at-Keeps :
    (decode : Bytes → Option Bytes) (key : Bytes) (req : Request)
    (o : Option (ℕ × RaftNode Machine)) (rs : Nodes)
    → Entry rs o
    → Keeps rs (kv_at decode key req o rs)
unfolding kv_at kv_method
kv_at-Keeps decode key req none rs none_leads = λ _. refl
kv_at-Keeps decode key req (some (i, r)) rs (here, _, _) =
    if_elim (Keeps rs) (eq_bytes req.method (codes "GET")) (λ _ _. refl)
      (λ _.
        if_elim (Keeps rs) (eq_bytes req.method (codes "PUT"))
          (λ _. handle_put-Keeps decode key req.body r i rs here)
          (λ _.
            if_elim (Keeps rs) (eq_bytes req.method (codes "DELETE"))
              (λ _. handle_delete-Keeps key r i rs here) (λ _ _. refl)))

kv_handler-Keeps :
    (decode : Bytes → Option Bytes) (req : Request) (rs : Nodes)
    → Keeps rs (kv_handler decode req rs)
unfolding kv_handler
kv_handler-Keeps decode req rs =
    let key = trim_prefix (codes "/kv/") req.path in
    if_elim (Keeps rs) (eq_bytes key []) (λ _ _. refl)
      (λ _. kv_at-Keeps decode key req (entry_node rs) rs (entry_node-Entry rs))

node_action-Keeps :
    (method : Bytes) (parts : List Bytes) (i : ℕ) (r : RaftNode Machine) (rs : Nodes)
    → Keeps rs (node_action method parts i r rs)
unfolding node_action kill_node restart_node
node_action-Keeps method [] i r rs = λ _. ground arith
node_action-Keeps method (a ∷ []) i r rs =
    if_elim (Keeps rs) (eq_bytes a (codes "kill") && eq_bytes method (codes "POST"))
      (λ _. if_elim (Keeps rs) r.stopped (λ _ _. refl) (λ _ other. absurd (other refl)))
      (λ _.
        if_elim (Keeps rs) (eq_bytes a (codes "restart") && eq_bytes method (codes "POST"))
          (λ _. if_elim (Keeps rs) (not r.stopped) (λ _ _. refl) (λ _ other. absurd (other refl)))
          (λ _ _. refl))
node_action-Keeps method (a ∷ b ∷ parts) i r rs = λ _. refl

nodes_handler-Keeps : (req : Request) (rs : Nodes) → Keeps rs (nodes_handler req rs)
unfolding nodes_handler at_parts at_node
nodes_handler-Keeps req rs = go (split_slash (trim_prefix (codes "/nodes/") req.path))
  where
    found :
        (parts : List Bytes) (o : Option (ℕ × RaftNode Machine))
        → Keeps rs (at_node req.method parts o rs)
    found parts none = λ _. refl
    found parts (some (i, r)) = node_action-Keeps req.method parts i r rs

    go : (parts : List Bytes) → Keeps rs (at_parts req.method parts rs)
    go [] = λ _. refl
    go (part ∷ parts) =
        if_elim (Keeps rs) (eq_bytes part []) (λ _ _. refl)
          (λ _. found parts (node_of (atoi part) rs))

module _ (decode : Bytes → Option Bytes) (redirect : Request → Option Response)
    (mux_answer stream : Request → Response) where
  served-Keeps :
      (o : Option Response) (req : Request) (rs : Nodes)
      → Keeps rs (served decode redirect mux_answer stream o req rs)
  unfolding served
  served-Keeps (some answer) req rs = λ _. refl
  served-Keeps none req rs =
      if_elim (Keeps rs) (has_prefix (codes "/kv/") req.path) (λ _. kv_handler-Keeps decode req rs)
        (λ _.
          if_elim (Keeps rs) (eq_bytes req.path (codes "/cluster")) (λ _ _. refl)
            (λ _.
              if_elim (Keeps rs) (has_prefix (codes "/nodes/") req.path)
                (λ _. nodes_handler-Keeps req rs)
                (λ _.
                  if_elim (Keeps rs) (eq_bytes req.path (codes "/events")) (λ _ _. refl)
                    (λ _ _. refl))))

  -- Whatever the request, an answer with another status than 200 leaves every node as it was.
  pub new_handler-Keeps :
      (req : Request) (rs : Nodes)
      → (new_handler decode redirect mux_answer stream req rs).1.code ≢ 200
      → (new_handler decode redirect mux_answer stream req rs).0 ≡ rs
  unfolding new_handler routes
  new_handler-Keeps req rs =
      if_elim (Keeps rs) (eq_bytes req.method (codes "OPTIONS")) (λ _ _. refl)
        (λ _. served-Keeps (redirect req) req rs)
