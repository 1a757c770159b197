-- ===== src/Raft/Heartbeat/Commit.antt =====
-- updateCommitIndex finds the last index that a majority holds.
use distributed_fault_tolera.Prelude.{
  ℕ, zero, suc, ◌+◌, ◌-◌, ◌≤◌, ◌<◌, ◌^◌, Bytes, List, [], ◌∷◌, true, false, ◌≡◌, refl, ap, ◌∙◌, sym,
  arith, if◌then◌else◌, ℤ, ◌⊎◌, inl, dec_lt, leb, inc, if_elim,
}
use distributed_fault_tolera.Raft.Log.{last_index}
use distributed_fault_tolera.Raft.Node.{RaftNode}
use distributed_fault_tolera.Raft.Heartbeat.{
  count_matches, is_replicated, advance_commit, commit_loop, update_commit_index,
}

count_matches_anti :
    (i j : ℕ) (me : ℤ) (matches : List (ℤ × ℕ)) (peers : List (ℤ × Bytes))
    → i ≤ j
    → count_matches j me matches peers ≤ count_matches i me matches peers
unfolding count_matches
count_matches_anti i j me matches [] h = omega arith
count_matches_anti i j me matches ((p, address) ∷ peers) h =
    ground (arith, count_matches_anti i j me matches peers h)

module _ {S : Type 0} where
  -- What a majority holds at an index, it holds at every earlier one.
  pub is_replicated_anti :
      (i j : ℕ) (r : RaftNode S) → i ≤ j → is_replicated j r ≡ true → is_replicated i r ≡ true
  unfolding is_replicated
  is_replicated_anti i j r h full =
      ground (arith, count_matches_anti i j r.id r.match_index r.peers h)

  is_replicated-advance :
      (i j : ℕ) (r : RaftNode S) → is_replicated i (advance_commit j r) ≡ is_replicated i r
  unfolding advance_commit is_replicated
  is_replicated-advance i j r = ground arith

  commit_index-advance :
      (i : ℕ) (r : RaftNode S)
      → (advance_commit i r).commit_index ≡ (if is_replicated i r then i else r.commit_index)
  unfolding advance_commit
  commit_index-advance i r = ground arith

  -- `c` is the result of the rounds from `i` up to, and without, `stop`.
  record IsLast (r : RaftNode S) (i stop c : ℕ) : Type 0 where
    found : (c ≡ r.commit_index) ⊎ ((i ≤ c) × (c < stop) × (is_replicated c r ≡ true))
    none_beyond : (j : ℕ) → i ≤ j → c < j → j < stop → is_replicated j r ≡ false

  log-advance : (i : ℕ) (r : RaftNode S) → (advance_commit i r).log ≡ r.log
  unfolding advance_commit
  log-advance i r = ground arith

  -- The rounds from `i` on, with fuel for all indices before `stop`, which is behind the log.
  commit_loop_lem :
      (n i stop : ℕ) (r : RaftNode S)
      → stop ≡ last_index r.log + 1
      → stop < 2 ^ 64
      → stop ≤ i + n
      → r.commit_index < i
      → IsLast r i stop (commit_loop n i r).commit_index
  unfolding commit_loop
  commit_loop_lem zero i stop r log small sum below = record {
    found = inl refl;
    none_beyond = λ j h k m. absurd (omega arith);
  }
  commit_loop_lem (suc n) i stop r log small sum below =
      if_elim (λ (r' : RaftNode S). IsLast r i stop r'.commit_index) (leb i (last_index r.log))
        (λ inside.
          let r₁ = advance_commit i r in
          let c = (commit_loop n (inc i) r₁).commit_index in
          let up : inc i ≡ i + 1 = ground (arith, inside, log, small) in
          let ih =
            commit_loop_lem n (inc i) stop r₁
              (log ∙ ap (λ l. last_index l + 1) (sym (log-advance i r))) small
              (omega (arith, sum, up)) (ground (arith, commit_index-advance i r, up, below)) in
          record {
            found = ground (
              arith,
              up,
              commit_index-advance i r,
              ih.found,
              is_replicated-advance c i r,
              is_replicated-advance i i r,
              inside,
              log,
            );
            none_beyond = λ j h k m. elim (dec_lt i j) [
              | yes later ↦
                  sym (is_replicated-advance j i r) ∙ ih.none_beyond j (omega (arith, up)) k m
              | no this ↦
                  let e : j ≡ i = omega arith in
                  ground
                    (arith, up, commit_index-advance i r, ih.found, ap (λ x. is_replicated x r) e)
            ];
          })
        (λ outside. record {
          found = inl refl;
          none_beyond = λ j h k m. absurd (ground (arith, outside, log, h, m));
        })

  commit_loop-outside : (n i : ℕ) (r : RaftNode S) → last_index r.log < i → commit_loop n i r ≡ r
  unfolding commit_loop
  commit_loop-outside zero i r h = refl
  commit_loop-outside (suc n) i r h = ground (arith, h)

  -- The fuel for all indices of the log is enough.
  commit_loop-more :
      (n more i : ℕ) (r : RaftNode S)
      → last_index r.log + 1 < 2 ^ 64
      → last_index r.log < i + n
      → commit_loop (n + more) i r ≡ commit_loop n i r
  unfolding commit_loop
  commit_loop-more zero more i r small enough =
      ap (λ m. commit_loop m i r) (omega arith) ∙ commit_loop-outside more i r (omega arith)
  commit_loop-more (suc n) more i r small enough =
      let whole : suc n + more ≡ suc (n + more) = omega arith in
      ap (λ m. commit_loop m i r) whole ∙ elim (dec_lt (last_index r.log) i) [
        | yes out ↦
            commit_loop-outside (suc (n + more)) i r out ∙ sym (commit_loop-outside (suc n) i r out)
        | no inside ↦
            let up : inc i ≡ i + 1 = omega arith in
            let same = ap last_index (log-advance i r) in
            ap (λ later. if leb i (last_index r.log) then later else r)
              (commit_loop-more n more (inc i) (advance_commit i r) (omega (arith, same))
                (omega (arith, same, up)))
      ]

  -- updateCommitIndex of a leader whose commit index lies within its log, and whose log leaves room
  -- for one more index in its type: the index does not fall and stays within the log; if it moves, a
  -- majority holds the entry at the new index and at every earlier one; no later index of the log
  -- has a majority; and the loop has ended by itself, since more rounds change nothing.
  pub update_commit_index_lem :
      (r : RaftNode S)
      → r.commit_index ≤ last_index r.log
      → last_index r.log + 1 < 2 ^ 64
      → (r.commit_index ≤ (update_commit_index r).commit_index)
        × ((update_commit_index r).commit_index ≤ last_index r.log)
        × ((i : ℕ)
            → r.commit_index < (update_commit_index r).commit_index
            → i ≤ (update_commit_index r).commit_index
            → is_replicated i r ≡ true)
        × ((i : ℕ)
            → (update_commit_index r).commit_index < i
            → i ≤ last_index r.log
            → is_replicated i r ≡ false)
        × ((more : ℕ)
            → commit_loop (last_index r.log - r.commit_index + 1 + more) (inc r.commit_index) r
              ≡ update_commit_index r)
  unfolding update_commit_index
  update_commit_index_lem r h small =
      let n = last_index r.log - r.commit_index + 1 in
      let first : inc r.commit_index ≡ r.commit_index + 1 = omega arith in
      let c = (commit_loop n (inc r.commit_index) r).commit_index in
      let last =
        commit_loop_lem n (inc r.commit_index) (last_index r.log + 1) r refl small
          (omega (arith, first)) (omega (arith, first)) in
      let up : r.commit_index ≤ c = ground (arith, last.found, first) in
      (
        up,
        ground (arith, last.found, first),
        λ i moved within. is_replicated_anti i c r within (ground (arith, last.found)),
        λ i after within. last.none_beyond i (omega (arith, up, first)) after (omega arith),
        λ more. commit_loop-more n more (inc r.commit_index) r small (omega (arith, first)),
      )
