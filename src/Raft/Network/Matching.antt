-- ===== src/Raft/Network/Matching.antt =====
-- Log matching: logs that have an entry of one term at one index are the same up to it.
use distributed_fault_tolera.Prelude.{
  Bool, false, ℕ, ◌+◌, ◌-◌, [], refl, sym, subst, Bytes, List, none, some, ◌≡◌, ap, arith, ℤ,
  get_elem?, length, take,
}
use distributed_fault_tolera.Raft.Log.{LogEntry, RaftLog, get}
use distributed_fault_tolera.Raft.Node.{RaftNode, Env, new_raft_node}
use distributed_fault_tolera.Raft.Lifecycle.{set_peers}
use distributed_fault_tolera.Raft.Run.{get_append_reply, get_entries, heartbeat, client_start}
use distributed_fault_tolera.Raft.Cluster.{other}
use distributed_fault_tolera.Raft.Cluster.Steps.{Inv, IsNew, Step-Inv, system_of-Inv, init-IsNew}
use distributed_fault_tolera.Raft.Network.{
  network_of, Network, Move, elect, replicate, overwrite, marshal, deliver, reply, write, network,
  Moves, here, next,
}
use distributed_fault_tolera.Raft.Network.Lineage.{Traces-same}
use distributed_fault_tolera.Raft.Network.Copies.{Sane}
use distributed_fault_tolera.Raft.Network.Calls.{
  HasHistory, elect-History, replicate-History, marshal-History, deliver-History, reply-History,
  answers-History,
}
use distributed_fault_tolera.Raft.Network.Writes.{write-History}

get-get_elem? :
    (l : RaftLog) (index : ℕ) {e : LogEntry}
    → get (index + 1) l ≡ some e
    → get_elem? l.entries index ≡ some e
unfolding get
get-get_elem? l index {e} there =
    let k : index + 1 - 1 ≡ index = omega arith in ground (arith, there, ap (get_elem? l.entries) k)

module _ {S : Type 0} (n : ℕ) where
  Move-Inv :
      {shared : Bool} {s s' : Network S} → Move shared n s s' → Inv n s.system → Inv n s'.system
  Move-Inv (elect step k) inv = Step-Inv n step inv
  Move-Inv (replicate i) inv = Step-Inv n (other i heartbeat tt) inv
  Move-Inv (overwrite i q k _ _ _ _ _) inv = inv
  Move-Inv (marshal q there) inv = inv
  Move-Inv (deliver j q {h} there _) inv = Step-Inv n (other j (get_entries h.args) tt) inv
  Move-Inv (reply i q {h} {answer} there _) inv =
      Step-Inv n (other i (get_append_reply h.peer h.args (some answer)) tt) inv
  Move-Inv (write i command below room small) inv =
      Step-Inv n (other i (client_start command) tt) inv

  Move-History :
      {s s' : Network S} → Move false n s s' → Inv n s.system → HasHistory n s → HasHistory n s'
  Move-History (elect step k) inv h = elect-History n step k inv h
  Move-History (replicate i) inv h = replicate-History n i h
  Move-History (overwrite i q k shared _ _ _ _) inv h = cc
  Move-History (marshal q there) inv h = marshal-History n q there h
  Move-History (deliver j q there _) inv h = answers-History n _ (deliver-History n j q there h)
  Move-History (reply i q {h} {answer} there _) inv history = reply-History n i h answer history
  Move-History (write i command below room small) inv h =
      write-History n i command below room small
        (Step-Inv n (other i (client_start command) tt) inv) h

  pub Moves-Inv :
      {shared : Bool} {start s : Network S}
      → Inv n start.system
      → Moves shared n start s
      → Inv n s.system
  Moves-Inv inv here = inv
  Moves-Inv inv (next moves move) = Move-Inv move (Moves-Inv inv moves)

  network_of-History :
      (nodes : ℕ → RaftNode S)
      → ((i : ℕ) → IsNew n i (nodes i))
      → ((i : ℕ) → (nodes i).log.entries ≡ [])
      → HasHistory n (network_of nodes)
  network_of-History nodes new no_log = (
    λ t. none,
    record {
      elected = λ t i xs e. cc;
      nodes = λ i.
          let sane : Sane (λ t. none) (record { entries = [] }) = record {
            wf = record { numbered = tt; fits = omega arith };
            terms = λ e k there. cc;
            traces = record { at = λ k e there. cc };
          } in
          record {
            stands = λ e xs led. cc;
            leads = λ below e. ground (arith, e, (new i).state);
            log =
                subst (Sane (λ t. none)) (ap (λ es. record { entries = es }) (sym (no_log i))) sane;
          };
      started = tt;
      sent = tt;
    },
  )

  Moves-History :
      {start s : Network S}
      → Inv n start.system
      → HasHistory n start
      → Moves false n start s
      → Inv n s.system × HasHistory n s
  Moves-History inv h here = (inv, h)
  Moves-History inv h (next moves move) =
      let (inv', h') = Moves-History inv h moves in (Move-Inv move inv', Move-History move inv' h')

  -- In every state that a cluster of `n` nodes reaches from its start without a restart, and without a
  -- log that overwrites the entries of a call before the call is marshalled, whatever the order of
  -- its steps and whatever calls are lost, late or repeated: if the logs of two nodes have entries of
  -- one term at one index, then they are the same up to and with it.
  pub log_matching :
      (peers : List (ℤ × Bytes)) (env : Env) (m : S) {s : Network S} (i j index : ℕ)
      (x y : LogEntry)
      → length peers ≡ n
      → Moves false n (network peers env m) s
      → get (index + 1) (s.system.nodes i).log ≡ some x
      → get (index + 1) (s.system.nodes j).log ≡ some y
      → x.term ≡ y.term
      → take (index + 1) (s.system.nodes i).log.entries
        ≡ take (index + 1) (s.system.nodes j).log.entries
  unfolding set_peers new_raft_node
  log_matching peers env m {s} i j index x y size moves at_i at_j same =
      let new = init-IsNew n peers env m size in
      let (_, (lines, h)) =
        Moves-History (system_of-Inv n _ new) (network_of-History _ new (λ k. refl)) moves in
      Traces-same index x y (h.nodes i).log.traces (h.nodes j).log.traces
        (get-get_elem? (s.system.nodes i).log index at_i)
        (get-get_elem? (s.system.nodes j).log index at_j) same
