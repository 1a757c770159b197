-- ===== src/Raft/Cluster/Invariant.antt =====
-- What holds of every node and every campaign of a cluster, whatever has happened.
use distributed_fault_tolera.Prelude.{
  ℕ, ◌+◌, ◌/◌, ◌≤◌, ◌<◌, Bool, true, false, ◌==◌, ◌||◌, Option, none, some, ◌≡◌, sym, ap, ◌∙◌,
  subst, arith, length, pos, Bool-cases, ==_iff, inl, inr,
}
use distributed_fault_tolera.Raft.Node.{RaftNode, candidate, leader}
use distributed_fault_tolera.Raft.Vote.{RequestVoteReply}
use distributed_fault_tolera.Raft.Run.OneVote.{KeepsVote}
use distributed_fault_tolera.Raft.Election.{Campaign}
use distributed_fault_tolera.Raft.Cluster.{Call, idle, answered, finished}
use distributed_fault_tolera.Raft.Cluster.Counting.{count_if, count_if_mono, count_if_disjoint}
use distributed_fault_tolera.Raft.Cluster.Quiet.{Quiet}

abbrev pub is_for : ℕ → Option ℕ → Bool
is_for i none = false
is_for i (some c) = i == c

abbrev pub is_counted : Call → Bool
is_counted (finished b) = b
is_counted _ = false

-- Who has voted for node `i` in term `t`.
abbrev pub votes_for : ℕ → ℕ → (ℕ → ℕ → Option ℕ) → ℕ → Bool
votes_for i t ballot j = is_for i (ballot j t)

-- The votes that node `i` has counted: its own, and those of the goroutines.
abbrev pub counted_by : ℕ → (ℕ → Call) → ℕ → Bool
counted_by i calls j = (i == j) || is_counted (calls j)

abbrev pub Grows : (ℕ → ℕ → Option ℕ) → (ℕ → ℕ → Option ℕ) → Type 0
Grows ballot ballot' = (j t c : ℕ) → ballot j t ≡ some c → ballot' j t ≡ some c

-- Node `j` has voted in no later term than its own, and remembers the vote of that term.
abbrev pub Remembers : {S : Type 0} → (ℕ → Option ℕ) → RaftNode S → Type 0
Remembers votes r =
    (t c : ℕ) → votes t ≡ some c → (t ≤ r.current_term) × (t ≡ r.current_term → r.voted_for ≡ pos c)

-- Node `i` among `n` nodes.
pub record Honest {S : Type 0} (n i : ℕ) (ballot : ℕ → ℕ → Option ℕ) (r : RaftNode S) : Type 0 where
  pub id : r.id ≡ pos i
  pub size : length r.peers ≡ n
  pub past : Remembers (ballot i) r
  pub stands : r.state ≡ candidate → ballot i r.current_term ≡ some i
  pub leads : i < n → r.state ≡ leader → n / 2 + 1 ≤ count_if n (votes_for i r.current_term ballot)

-- The campaign of node `i` in term `t`.
pub record Fair (n i t : ℕ) (ballot : ℕ → ℕ → Option ℕ) (c : Campaign) (calls : ℕ → Call)
    : Type 0 where
  pub self : calls i ≡ idle
  pub term : c.args.term ≡ t
  pub candidate_id : c.args.candidate_id ≡ pos i
  pub answers :
      (j : ℕ) (reply : RequestVoteReply)
      → calls j ≡ answered (some reply)
      → reply.vote_granted ≡ true
      → ballot j t ≡ some i
  pub counts : (j : ℕ) → calls j ≡ finished true → ballot j t ≡ some i
  pub votes : i < n → c.votes ≡ count_if n (counted_by i calls)

pub is_for-some : (i : ℕ) {o : Option ℕ} → is_for i o ≡ true → o ≡ some i
is_for-some i {o = none} h = ground arith
is_for-some i {o = some c} h = ground arith

-- Two nodes with a majority of the votes of one term are the same.
pub majority-same :
    (n t i k : ℕ) (ballot : ℕ → ℕ → Option ℕ)
    → n / 2 + 1 ≤ count_if n (votes_for i t ballot)
    → n / 2 + 1 ≤ count_if n (votes_for k t ballot)
    → i ≡ k
majority-same n t i k ballot for_i for_k = elim (Bool-cases (i == k)) [
  | inl equal ↦ (==_iff i k).0 equal
  | inr differ ↦
      let apart =
        count_if_disjoint n (votes_for i t ballot) (votes_for k t ballot)
          (λ j e. let h : ballot j t ≡ some i = is_for-some i e in ground (arith, h, differ)) in
      absurd (omega (arith, for_i, for_k, apart))
]

pub votes_for-Grows :
    (n i t : ℕ) {ballot ballot' : ℕ → ℕ → Option ℕ}
    → Grows ballot ballot'
    → count_if n (votes_for i t ballot) ≤ count_if n (votes_for i t ballot')
votes_for-Grows n i t {ballot} {ballot'} grows =
    count_if_mono n _ _
      (λ j h. let e : ballot' j t ≡ some i = grows j t i (is_for-some i h) in ground (arith, e))

pub Fair-Grows :
    {n i t : ℕ} {ballot ballot' : ℕ → ℕ → Option ℕ} {c : Campaign} {calls : ℕ → Call}
    → Grows ballot ballot'
    → Fair n i t ballot c calls
    → Fair n i t ballot' c calls
Fair-Grows {i = i} {t = t} grows f = record {
  self = f.self;
  term = f.term;
  candidate_id = f.candidate_id;
  answers = λ j reply h granted. grows j t i (f.answers j reply h granted);
  counts = λ j h. grows j t i (f.counts j h);
  votes = f.votes;
}

module _ {S : Type 0} where
  pub KeepsVote-Remembers :
      {votes : ℕ → Option ℕ} {r r' : RaftNode S}
      → KeepsVote r r'
      → Remembers votes r
      → Remembers votes r'
  KeepsVote-Remembers {votes} {r} {r'} k past t c h =
      let (low, kept) = past t c h in
      (
        omega (arith, k.term, low),
        λ e.
            let level : t ≡ r.current_term = omega (arith, k.term, low, e) in
            let given = kept level in
            k.vote (omega (arith, e, level)) (λ free. ground (arith, given, free)) ∙ given,
      )

  -- A quiet step of the node, or none, while other votes are given.
  pub Quiet-Honest :
      {n i : ℕ} {ballot ballot' : ℕ → ℕ → Option ℕ} {r r' : RaftNode S}
      → Quiet r r'
      → Grows ballot ballot'
      → Remembers (ballot' i) r'
      → Honest n i ballot r
      → Honest n i ballot' r'
  Quiet-Honest {n = n} {i = i} {ballot} {ballot'} {r} {r'} q grows past h = record {
    id = q.id ∙ h.id;
    size = ap length q.peers ∙ h.size;
    past = past;
    stands = λ e.
        let (was, same) = q.stands e in
        grows i _ i (subst (λ t. ballot i t ≡ some i) (sym same) (h.stands was));
    leads = λ below e.
        let (was, same) = q.leads e in
        subst (λ t. n / 2 + 1 ≤ count_if n (votes_for i t ballot')) (sym same)
          (omega (arith, h.leads below was, votes_for-Grows n i r.current_term grows));
  }
