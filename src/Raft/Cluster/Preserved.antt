-- ===== src/Raft/Cluster/Preserved.antt =====
-- What one vote, one answer and one count do to the invariants of nodes and campaigns.
use distributed_fault_tolera.Prelude.{
  ltb, ℕ, ◌+◌, ◌≤◌, ◌<◌, true, false, ◌==◌, ==_iff, ◌||◌, Option, some, ◌≡◌, ◌≢◌, refl, sym, ap,
  ◌∙◌, subst, arith, pos, if_elim, if_elim_both, if◌then◌else◌, Bool-cases, inl, inr,
}
use distributed_fault_tolera.Raft.Node.{RaftNode}
use distributed_fault_tolera.Raft.Vote.{RequestVoteReply}
use distributed_fault_tolera.Raft.Election.{Campaign}
use distributed_fault_tolera.Raft.Cluster.Tally.{Tally}
use distributed_fault_tolera.Raft.Cluster.{Call, idle, asked, answered, finished, set_at}
use distributed_fault_tolera.Raft.Cluster.Counting.{count_if, count_if_ext, count_if_one_more}
use distributed_fault_tolera.Raft.Cluster.Invariant.{Grows, Remembers, Fair, is_counted, counted_by}

-- What holds of `a` at `i`, and of `f` elsewhere, holds of `set_at i a f`.
pub set_at_all {ℓ ℓ'} :
    {A : Type ℓ} (P : ℕ → A → Type ℓ') (i : ℕ) (a : A) (f : ℕ → A)
    → P i a
    → ((j : ℕ) → (i == j) ≡ false → P j (f j))
    → (j : ℕ) → P j (set_at i a f j)
set_at_all P i a f here away j =
    if_elim (P j) (i == j) (λ e. subst (λ k. P k a) ((==_iff i j).0 e) here) (away j)

-- The same of two functions at once.
pub set_at_both {ℓ ℓ' ℓ''} :
    {A : Type ℓ} {B : Type ℓ'} (P : ℕ → A → B → Type ℓ'') (i : ℕ) (a : A) (b : B) (f : ℕ → A)
    (g : ℕ → B)
    → P i a b
    → ((j : ℕ) → (i == j) ≡ false → P j (f j) (g j))
    → (j : ℕ) → P j (set_at i a f j) (set_at i b g j)
set_at_both P i a b f g here away j =
    if_elim_both (P j) (i == j) (λ e. subst (λ k. P k a b) ((==_iff i j).0 e) here) (away j)

-- The ballot of node `j` in term `t` for `c`.
abbrev pub give : ℕ → ℕ → ℕ → (ℕ → ℕ → Option ℕ) → ℕ → ℕ → Option ℕ
give j t c ballot = set_at j (set_at t (some c) (ballot j)) ballot

pub give-Grows :
    (j t c : ℕ) (ballot : ℕ → ℕ → Option ℕ)
    → ((c' : ℕ) → ballot j t ≡ some c' → c ≡ c')
    → Grows ballot (give j t c ballot)
give-Grows j t c ballot free =
    set_at_all (λ k f. (u c' : ℕ) → ballot k u ≡ some c' → f u ≡ some c') j _ ballot
      (set_at_all (λ u o. (c' : ℕ) → ballot j u ≡ some c' → o ≡ some c') t (some c) (ballot j)
        (λ c' h. ap some (free c' h)) (λ u away c' h. h))
      (λ k away u c' h. h)

pub give-given : (j t c : ℕ) (ballot : ℕ → ℕ → Option ℕ) → give j t c ballot j t ≡ some c
give-given j t c ballot = ground (arith, (==_iff j j).1 refl, (==_iff t t).1 refl)

pub set_at_here {ℓ} : {A : Type ℓ} (i : ℕ) (a : A) (f : ℕ → A) → set_at i a f i ≡ a
set_at_here i a f = ap (λ b. if b then a else f i) ((==_iff i i).1 refl)

-- A node that has voted for `c` in its term remembers the new ballot too.
pub give-Remembers :
    {S : Type 0} (j t c : ℕ) (ballot : ℕ → ℕ → Option ℕ) (r : RaftNode S)
    → r.current_term ≡ t
    → r.voted_for ≡ pos c
    → Remembers (ballot j) r
    → Remembers (give j t c ballot j) r
give-Remembers j t c ballot r now voted past =
    let new : Remembers (set_at t (some c) (ballot j)) r =
      set_at_all
        (λ u o.
          (c' : ℕ)
          → o ≡ some c'
          → (u ≤ r.current_term) × (u ≡ r.current_term → r.voted_for ≡ pos c'))
        t (some c) (ballot j) (λ c' h. (omega (arith, now), λ e. ground (arith, voted, h)))
        (λ u away. past u) in
    subst (λ votes. Remembers votes r) (sym (set_at_here j _ ballot)) new

counted_by-same :
    (n i j : ℕ) (call : Call) (calls : ℕ → Call)
    → is_counted call ≡ is_counted (calls j)
    → count_if n (counted_by i (set_at j call calls)) ≡ count_if n (counted_by i calls)
counted_by-same n i j call calls e = count_if_ext n _ _ (
    set_at_all (λ k x. ((i == k) || is_counted x) ≡ ((i == k) || is_counted (calls k))) j call calls
      (ap (λ b. (i == j) || b) e) (λ k away. refl))

counted_by-more :
    (n i j : ℕ) (calls : ℕ → Call)
    → (i == j) ≡ false
    → is_counted (calls j) ≡ false
    → j < n
    → count_if n (counted_by i (set_at j (finished true) calls))
      ≡ count_if n (counted_by i calls) + 1
counted_by-more n i j calls other new below =
    count_if_one_more n j _ _ (λ k away. ground (arith, away)) (ground (arith, other, new))
      (ground (arith, (==_iff j j).1 refl)) below

other_call :
    {n i t : ℕ} {ballot : ℕ → ℕ → Option ℕ} {c : Campaign} {calls : ℕ → Call}
    → Fair n i t ballot c calls
    → (j : ℕ) → calls j ≢ idle
    → (i == j) ≡ false
other_call {i = i} {calls = calls} f j busy = elim (Bool-cases (i == j)) [
  | inl same ↦ absurd (busy (subst (λ k. calls k ≡ idle) ((==_iff i j).0 same) f.self))
  | inr other ↦ other
]

-- The goroutine for the peer `j` goes on to `call`, and the campaign to `c'`.
Fair-moved :
    {n i t : ℕ} {ballot : ℕ → ℕ → Option ℕ} {c : Campaign} {calls : ℕ → Call} (j : ℕ) (call : Call)
    (c' : Campaign)
    → Fair n i t ballot c calls
    → (i == j) ≡ false
    → c'.args ≡ c.args
    → ((reply : RequestVoteReply)
        → call ≡ answered (some reply)
        → reply.vote_granted ≡ true
        → ballot j t ≡ some i)
    → (call ≡ finished true → ballot j t ≡ some i)
    → (i < n → c'.votes ≡ count_if n (counted_by i (set_at j call calls)))
    → Fair n i t ballot c' (set_at j call calls)
Fair-moved {n} {i} {t} {ballot} {c} {calls} j call c' f other same given counted votes = record {
  self =
      set_at_all (λ k x. (i == k) ≡ true → x ≡ idle) j call calls (λ e. ground (arith, e, other))
        (λ k away e. subst (λ k. calls k ≡ idle) ((==_iff i k).0 e) f.self) i ((==_iff i i).1 refl);
  term = ap (λ a. a.term) same ∙ f.term;
  candidate_id = ap (λ a. a.candidate_id) same ∙ f.candidate_id;
  answers =
      set_at_all
        (λ k x.
          (reply : RequestVoteReply)
          → x ≡ answered (some reply)
          → reply.vote_granted ≡ true
          → ballot k t ≡ some i)
        j call calls given (λ k away. f.answers k);
  counts =
      set_at_all (λ k x. x ≡ finished true → ballot k t ≡ some i) j call calls counted
        (λ k away. f.counts k);
  votes = votes;
}

-- The goroutine has its answer, and no vote is counted yet.
pub Fair-answered :
    {n i t : ℕ} {ballot : ℕ → ℕ → Option ℕ} {c : Campaign} {calls : ℕ → Call} (j : ℕ)
    (answer : Option RequestVoteReply)
    → Fair n i t ballot c calls
    → calls j ≡ asked
    → ((reply : RequestVoteReply)
        → answer ≡ some reply
        → reply.vote_granted ≡ true
        → ballot j t ≡ some i)
    → Fair n i t ballot c (set_at j (answered answer) calls)
Fair-answered {n} {i} {t} {ballot} {c} {calls} j answer f before given =
    Fair-moved j (answered answer) c f (other_call f j (λ e. ground (arith, e, before))) refl
      (λ reply e. given reply (ground (arith, e))) (λ e. ground (arith, e))
      (λ below.
        f.votes below
        ∙ sym (counted_by-same n i j (answered answer) calls (ap is_counted (sym before))))

-- The goroutine handles its answer.
pub Fair-count :
    {S : Type 0} {n i t : ℕ} {ballot : ℕ → ℕ → Option ℕ} {c c' : Campaign} {calls : ℕ → Call}
    {reply : Option RequestVoteReply} {r r' : RaftNode S} (j : ℕ)
    → Tally reply c c' r r'
    → Fair n i t ballot c calls
    → calls j ≡ answered reply
    → j < n
    → Fair n i t ballot c' (set_at j (finished (ltb c.votes c'.votes)) calls)
Fair-count {n = n} {i} {t} {ballot} {c} {c'} {calls} {reply} j tally f before below =
    let other = other_call f j (λ e. ground (arith, e, before)) in
    elim tally.counted [
      | inl none_more ↦
          let b : ltb c.votes c'.votes ≡ false = ground (arith, none_more) in
          subst (λ b. Fair n i t ballot c' (set_at j (finished b) calls)) (sym b)
            (Fair-moved j (finished false) c' f other tally.args (λ reply e. ground (arith, e))
              (λ e. ground (arith, e))
              (λ here.
                none_more
                ∙ f.votes here
                ∙ sym (counted_by-same n i j (finished false) calls (ap is_counted (sym before)))))
      | inr (x, is_some, granted, more) ↦
          let b : ltb c.votes c'.votes ≡ true = ground (arith, more) in
          subst (λ b. Fair n i t ballot c' (set_at j (finished b) calls)) (sym b)
            (Fair-moved j (finished true) c' f other tally.args (λ reply e. ground (arith, e))
              (λ e. f.answers j x (before ∙ ap answered is_some) granted)
              (λ here.
                more
                ∙ ap (λ v. v + 1) (f.votes here)
                ∙ sym (counted_by-more n i j calls other (ap is_counted before) below)))
    ]
