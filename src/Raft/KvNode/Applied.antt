-- ===== src/Raft/KvNode/Applied.antt =====
-- What the store of a node holds after committed entries are applied.
use distributed_fault_tolera.Prelude.{
  ℕ, ◌+◌, ◌-◌, ◌≤◌, ◌<◌, ◌^◌, Bytes, List, [], ◌∷◌, some, ◌≡◌, ◌∙◌, ap, arith, inc, foldl, take,
  drop, length, length-take_le, length-drop, eq_bytes, ◌==◌, if◌then◌else◌, if_elim_both,
}
use distributed_fault_tolera.Prelude.Assoc.{lookup, insert, delete}
use distributed_fault_tolera.Raft.Log.{LogEntry, command_set, command_delete}
use distributed_fault_tolera.Raft.Node.{RaftNode}
use distributed_fault_tolera.Raft.AppendEntries.{apply_committed}
use distributed_fault_tolera.Raft.AppendEntries.Apply.{run_entries, apply_committed_lem}
use distributed_fault_tolera.Raft.KvNode.{Machine, apply_command, kv_get}
use distributed_fault_tolera.Wal.Codec.{Record}
use distributed_fault_tolera.Store.{
  Data, Store, seq, put_of, delete_of, apply_record, apply_put, apply_delete, apply_ordered,
  get_value,
}
use distributed_fault_tolera.Store.Order.{empty_queue}
use distributed_fault_tolera.Store.Writes.{apply_ordered-next}

-- What a command does to the data.
abbrev pub commanded : Data → LogEntry → Data
commanded values e =
    if e.command.kind == command_set
    then insert eq_bytes e.command.key e.command.value values
    else if e.command.kind == command_delete
    then delete eq_bytes e.command.key values
    else values

-- No write waits, and `wal.Append` will return the numbers that the store expects.
pub record Follows (n : ℕ) (values : Data) (m : Machine) : Type 0 where
  pub store : m.store ≡ empty_queue n values
  pub results : (k : ℕ) → m.results (m.appends + k) ≡ seq (n + k)

appended-Follows :
    (n : ℕ) (values values' : Data) (m : Machine) (store : Store)
    → Follows n values m
    → store ≡ empty_queue (n + 1) values'
    → Follows (n + 1) values' (record m { store = store; appends = m.appends + 1 })
appended-Follows n values values' m store f e = record {
  store = e;
  results = λ k.
      let there : m.appends + 1 + k ≡ m.appends + (1 + k) = omega arith in
      let number : n + (1 + k) ≡ n + 1 + k = omega arith in
      ap m.results there ∙ f.results (1 + k) ∙ ap seq number;
}

next-result :
    (n : ℕ) (values : Data) (m : Machine) → Follows n values m → m.results m.appends ≡ seq n
next-result n values m f =
    let now : m.appends ≡ m.appends + 0 = omega arith in
    let number : n + 0 ≡ n = omega arith in ap m.results now ∙ f.results 0 ∙ ap seq number

apply_ordered-empty_queue :
    (n : ℕ) (values : Data) (r : Record)
    → n + 1 < 2 ^ 64
    → apply_ordered n r (empty_queue n values) ≡ empty_queue (n + 1) (apply_record values r)
apply_ordered-empty_queue n values r small =
    let up : inc n ≡ n + 1 = omega (arith, small) in
    apply_ordered-next n r values ∙ ap (λ k. empty_queue k (apply_record values r)) up

-- One command takes no number or the next one.
abbrev Goes : ℕ → Machine → Data → Type 0
Goes n m values = (n' : ℕ) × (n' ≤ n + 1) × Follows n' values m

apply_command-Goes :
    (n : ℕ) (values : Data) (m : Machine) (e : LogEntry)
    → n + 1 < 2 ^ 64
    → Follows n values m
    → Goes n (apply_command e.command m) (commanded values e)
unfolding apply_command apply_put apply_delete apply_record
apply_command-Goes n values m e small f =
    let key = e.command.key in
    let value = e.command.value in
    let result = next-result n values m f in
    let number : n + 1 ≤ n + 1 = omega arith in
    if_elim_both (Goes n) (e.command.kind == command_set)
      (λ _. (
        n + 1,
        number,
        appended-Follows n values _ m _ f (
            ap (λ a. (apply_put key value a m.store).0) result
            ∙ ap (λ s. (apply_put key value (seq n) s).0) f.store
            ∙ apply_ordered-empty_queue n values (put_of key value) small),
      ))
      (λ _.
        if_elim_both (Goes n) (e.command.kind == command_delete)
          (λ _. (
            n + 1,
            number,
            appended-Follows n values _ m _ f (
                ap (λ a. (apply_delete key a m.store).0) result
                ∙ ap (λ s. (apply_delete key (seq n) s).0) f.store
                ∙ apply_ordered-empty_queue n values (delete_of key) small),
          ))
          (λ _. (n, omega arith, f)))

run_entries-Follows :
    (n : ℕ) (values : Data) (m : Machine) (es : List LogEntry)
    → n + length es < 2 ^ 64
    → Follows n values m
    → (n' : ℕ) × Follows n' (foldl commanded values es) (run_entries apply_command m es)
unfolding run_entries
run_entries-Follows n values m [] small f = (n, f)
run_entries-Follows n values m (e ∷ es) small f =
    let (n', near, f') = apply_command-Goes n values m e (omega (arith, small)) f in
    run_entries-Follows n' (commanded values e) (apply_command e.command m) es
      (omega (arith, near, small)) f'

-- No write to the store waits, and the write-ahead log takes every record and gives it the number
-- that the store expects. When the node has applied what is committed, each key holds what the
-- commands of the entries that were committed and not applied, in the order of the log, make of it.
pub apply_committed-kv_get :
    (n : ℕ) (values : Data) (r : RaftNode Machine) (key : Bytes)
    → Follows n values r.machine
    → r.apply_func ≡ some apply_command
    → r.last_applied ≤ r.commit_index
    → r.commit_index ≤ length r.log.entries
    → length r.log.entries < 2 ^ 63
    → n < 2 ^ 63
    → kv_get key (apply_committed r)
      ≡ lookup eq_bytes key (
          foldl commanded values
            (take (r.commit_index - r.last_applied) (drop r.last_applied r.log.entries)))
unfolding kv_get get_value
apply_committed-kv_get n values r key f called order inside fits small =
    let es = take (r.commit_index - r.last_applied) (drop r.last_applied r.log.entries) in
    let few : n + length es < 2 ^ 64 = omega (
      arith,
      length-take_le (r.commit_index - r.last_applied) (drop r.last_applied r.log.entries),
      length-drop r.last_applied r.log.entries,
      fits,
      small,
    ) in
    let (n', after) = run_entries-Follows n values r.machine es few f in
    ap (λ (m : Machine). lookup eq_bytes key m.store.values)
      (apply_committed_lem apply_command r called order inside fits).1
    ∙ ap (λ (s : Store). lookup eq_bytes key s.values) after.store
