-- ===== src/Raft/Vote/Rules.antt =====
-- When RequestVote grants a vote, and what it does to the node.
use distributed_fault_tolera.Prelude.{
  ℕ, zero, suc, dec_lt, subst, ◌+◌, ◌-◌, ◌≤◌, ◌<◌, List, [], ◌∷◌, true, ◌≡◌, ◌≢◌, refl, ap, sym,
  arith, length, minus_one, eq_ℤ_iff, ◌⊎◌, ◌↔◌, get_elem?,
}
use distributed_fault_tolera.Raft.Log.{LogEntry, RaftLog, get, entry_or_zero}
use distributed_fault_tolera.Raft.Log.Numbered.{
  IsWellFormed, last_index-eq-length, get-eq-get_elem?,
}
use distributed_fault_tolera.Raft.Node.{RaftNode}
use distributed_fault_tolera.Raft.Vote.{
  RequestVoteArgs, last_log_term, is_candidate_log_up_to_date, request_vote, adopt_term,
}

-- The term of the last entry of a list, 0 if there is none.
unfoldable pub last_term : List LogEntry → ℕ
last_term [] = 0
last_term (e ∷ []) = e.term
last_term (e ∷ x ∷ es) = last_term (x ∷ es)

-- A candidate's log, given by its last term and its length, is at least as up to date.
abbrev pub IsUpToDate : RequestVoteArgs → RaftLog → Type 0
IsUpToDate args l =
    (last_term l.entries < args.last_log_term)
    ⊎ ((last_term l.entries ≡ args.last_log_term) × (length l.entries ≤ args.last_log_index))

last_term-eq :
    (es : List LogEntry) (n : ℕ)
    → suc n ≡ length es
    → (entry_or_zero (get_elem? es n)).term ≡ last_term es
unfolding last_term
last_term-eq [] n h = absurd (omega arith)
last_term-eq (e ∷ []) zero h = refl
last_term-eq (e ∷ []) (suc n) h = absurd (omega arith)
last_term-eq (e ∷ x ∷ es) zero h = absurd (omega arith)
last_term-eq (e ∷ x ∷ es) (suc n) h = last_term-eq (x ∷ es) n (omega arith)

last_term-nil : (es : List LogEntry) → length es ≡ 0 → last_term es ≡ 0
unfolding last_term
last_term-nil [] h = refl
last_term-nil (e ∷ es) h = absurd (omega arith)

module _ {S : Type 0} where
  last_log_term-eq :
      (r : RaftNode S) → IsWellFormed r.log → last_log_term r ≡ last_term r.log.entries
  unfolding last_log_term
  last_log_term-eq r w = elim (dec_lt 0 (length r.log.entries)) [
    | yes filled ↦
        let e : length r.log.entries - 1 + 1 ≡ length r.log.entries = omega arith in
        ground (
          arith,
          last_index-eq-length r.log w.numbered,
          get-eq-get_elem? r.log (length r.log.entries - 1) (omega arith),
          ap (λ i. get i r.log) e,
          last_term-eq r.log.entries (length r.log.entries - 1) (omega arith),
        )
    | no empty ↦
        ground
          (arith, last_index-eq-length r.log w.numbered, last_term-nil r.log.entries (omega arith))
  ]

  is_candidate_log_up_to_date_iff :
      (args : RequestVoteArgs) (r : RaftNode S)
      → IsWellFormed r.log
      → (is_candidate_log_up_to_date args.last_log_index args.last_log_term r ≡ true)
        ↔ IsUpToDate args r.log
  unfolding is_candidate_log_up_to_date
  is_candidate_log_up_to_date_iff args r w =
      ground (arith, last_log_term-eq r w, last_index-eq-length r.log w.numbered)

  adopt_term-log : (t : ℕ) (r : RaftNode S) → (adopt_term t r).log ≡ r.log
  unfolding adopt_term
  adopt_term-log t r = ground arith

  -- The node's free vote: a newer term frees it, and it may be given again to the same candidate.
  abbrev pub MayVote : RequestVoteArgs → RaftNode S → Type 0
  MayVote args r =
      (r.current_term < args.term) ⊎ (r.voted_for ≡ minus_one) ⊎ (r.voted_for ≡ args.candidate_id)

  -- A vote is granted exactly when the candidate's term is not older, the node has not voted for
  -- another candidate in that term, and the candidate's log is at least as up to date.
  pub request_vote-granted_iff :
      (args : RequestVoteArgs) (r : RaftNode S)
      → IsWellFormed r.log
      → ((request_vote args r).1.vote_granted ≡ true)
        ↔ ((r.current_term ≤ args.term) × MayVote args r × IsUpToDate args r.log)
  unfolding request_vote
  request_vote-granted_iff args r w =
      let r₁ = adopt_term args.term r in
      let w₁ : IsWellFormed r₁.log = subst IsWellFormed (sym (adopt_term-log args.term r)) w in
      ground (
        arith,
        is_candidate_log_up_to_date_iff args r₁ w₁,
        adopt_term-log args.term r,
        ap (λ l. length l.entries) (adopt_term-log args.term r),
        ap (λ l. last_term l.entries) (adopt_term-log args.term r),
        eq_ℤ_iff r₁.voted_for minus_one,
        eq_ℤ_iff r₁.voted_for args.candidate_id,
      )

  -- What a granted vote says of the node before and after.
  pub request_vote-granted :
      (args : RequestVoteArgs) (r : RaftNode S)
      → (request_vote args r).1.vote_granted ≡ true
      → ((request_vote args r).0.current_term ≡ args.term)
        × ((request_vote args r).0.voted_for ≡ args.candidate_id)
        × ((request_vote args r).1.term ≡ args.term)
        × (r.current_term ≤ args.term)
        × (r.current_term ≡ args.term → r.voted_for ≢ minus_one → r.voted_for ≡ args.candidate_id)
  unfolding request_vote
  request_vote-granted args r h =
      ground (arith, eq_ℤ_iff r.voted_for minus_one, eq_ℤ_iff r.voted_for args.candidate_id)
