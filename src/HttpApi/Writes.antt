-- ===== src/HttpApi/Writes.antt =====
-- What a PUT to /kv/ does.
use distributed_fault_tolera.Prelude.{
  ℕ, Bytes, [], ◌∷◌, ◌++◌, Bool, true, false, Option, none, some, ◌≡◌, ◌≢◌, ◌⊎◌, ◌↔◌, inl, inr,
  refl, sym, arith, ℤ, eq_bytes, eq_bytes_iff, get_elem?, inc, if_elim, Bool-cases, subst,
}
use distributed_fault_tolera.Raft.Log.{last_index, Command}
use distributed_fault_tolera.Raft.Node.{RaftNode, leader}
use distributed_fault_tolera.Raft.Election.{eq_state}
use distributed_fault_tolera.Raft.Election.Quorum.{eq_state_iff}
use distributed_fault_tolera.Raft.Lifecycle.{start}
use distributed_fault_tolera.Raft.KvNode.{Machine, kv_set, set_command}
use distributed_fault_tolera.Raft.KvNode.Clients.{answer-accepted, answer-refused, start-log}
use distributed_fault_tolera.HttpApi.Text.{codes, trim_prefix}
use distributed_fault_tolera.HttpApi.{
  Request, accepted, Response, Nodes, is_running_leader, set_node, put_value, put_answer,
  handle_put, kv_method, kv_at, entry_node, kv_handler,
}
use distributed_fault_tolera.HttpApi.Routes.Kept.{Entry, entry_node-Entry}

-- A node that runs and is a leader, with its place.
abbrev pub Leads : Nodes → ℕ → RaftNode Machine → Type 0
Leads rs i r = (get_elem? rs i ≡ some r) × (r.stopped ≡ false) × (r.state ≡ leader)

is_running_leader_iff :
    (r : RaftNode Machine)
    → (is_running_leader r ≡ true) ↔ ((r.stopped ≡ false) × (r.state ≡ leader))
is_running_leader_iff r = ground (arith, eq_state_iff r.state leader)

-- What is committed and applied on the node stays as it is.
pub record Waits (r r' : RaftNode Machine) : Type 0 where
  pub committed : r'.commit_index ≡ r.commit_index
  pub applied : r'.last_applied ≡ r.last_applied
  pub store : r'.machine ≡ r.machine

start-Waits : (command : Command) (r : RaftNode Machine) → Waits r (start command r).0
unfolding start
start-Waits command r = ground arith

-- The outcome of a write of `value` under `key`: a leader that runs takes it into its log, and no
-- other node changes; where none runs, the answer is not 200.
abbrev pub Outcome : Bytes → Bytes → Nodes → Nodes × Response → Type 0
Outcome key value rs out =
    ((i : ℕ) × (r : RaftNode Machine) × Leads rs i r
      × (out.1
          ≡ record { code = 200; body = accepted key value r.leader_id (inc (last_index r.log)) })
      × (out.0 ≡ set_node i (start (set_command key value) r).0 rs)
      × ((start (set_command key value) r).0.log.entries
          ≡ r.log.entries
            ++ (record {
              index = inc (last_index r.log);
              term = r.current_term;
              command = set_command key value;
            }
                ∷ []))
      × Waits r (start (set_command key value) r).0)
    ⊎ (((i : ℕ) (r : RaftNode Machine) → ¬ Leads rs i r) × (out.1.code ≢ 200))

put_value-Outcome :
    (key value : Bytes) (r : RaftNode Machine) (i : ℕ) (rs : Nodes)
    → Entry rs (some (i, r))
    → Outcome key value rs (put_value key (some value) (i, r) rs)
unfolding put_value put_answer kv_set
put_value-Outcome key value r i rs (here, runs, which) =
    let P : RaftNode Machine × Bool × ℤ × ℕ → Type 0 = λ out.
      Outcome key value rs (set_node i out.0 rs, put_answer key value (out.1, out.2, out.3)) in
    let running : r.stopped ≡ false = ground (arith, runs) in
    elim (Bool-cases (eq_state r.state leader)) [
      | inl leads ↦ subst P (sym (answer-accepted (set_command key value) r.leader_id r leads)) (
          inl (
            i,
            r,
            (here, running, (eq_state_iff r.state leader).0 leads),
            refl,
            refl,
            start-log (set_command key value) r.leader_id r leads,
            start-Waits (set_command key value) r,
          ))
      | inr follows ↦ subst P (sym (answer-refused (set_command key value) r.leader_id r follows)) (
          inr (
            λ j x (there, up, at_top). elim which [
              | inl leads ↦ ground (arith, leads, follows)
              | inr nobody ↦
                  ground (arith, nobody j x there, (is_running_leader_iff x).1 (up, at_top))
            ],
            λ e. ground (arith, e),
          ))
    ]

kv_at-Outcome :
    (decode : Bytes → Option Bytes) (key value : Bytes) (req : Request)
    (o : Option (ℕ × RaftNode Machine)) (rs : Nodes)
    → Entry rs o
    → req.method ≡ codes "PUT"
    → decode req.body ≡ some value
    → Outcome key value rs (kv_at decode key req o rs)
unfolding kv_at kv_method handle_put eq_bytes
kv_at-Outcome decode key value req none rs nobody put body = inr (
  λ j x (there, up, at_top).
      ground (arith, nobody j x there, (is_running_leader_iff x).1 (up, at_top)),
  λ e. ground (arith, e),
)
kv_at-Outcome decode key value req (some (i, r)) rs entry put body =
    subst (λ m. Outcome key value rs (kv_method decode key (record req { method = m }) (i, r) rs))
      (sym put)
      (subst (λ v. Outcome key value rs (put_value key v (i, r) rs)) (sym body)
        (put_value-Outcome key value r i rs entry))

-- A PUT of a key and a value: where a node runs and is a leader, one such node puts the command at
-- the end of its log, commits and applies nothing, the answer is 200 with the entry's index, and no
-- other node changes. Where there is none, the answer is not 200.
pub kv_handler-Outcome :
    (decode : Bytes → Option Bytes) (req : Request) (rs : Nodes) (value : Bytes)
    → req.method ≡ codes "PUT"
    → trim_prefix (codes "/kv/") req.path ≢ []
    → decode req.body ≡ some value
    → Outcome (trim_prefix (codes "/kv/") req.path) value rs (kv_handler decode req rs)
unfolding kv_handler
kv_handler-Outcome decode req rs value put key body =
    let name = trim_prefix (codes "/kv/") req.path in
    if_elim (Outcome name value rs) (eq_bytes name [])
      (λ e. absurd (key ((eq_bytes_iff name []).0 e)))
      (λ _. kv_at-Outcome decode name value req (entry_node rs) rs (entry_node-Entry rs) put body)
