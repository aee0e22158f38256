-- ===== src/Raft/Replicate/Quorum.antt =====
-- raft.cpp: what the leader commits is what a quorum of the voters matches.
use kvd.Base.{
  ℕ, ◌-◌, ◌*◌, ◌^◌, ◌≤◌, ◌<◌, ◌≡◌, Bool, ◌&&◌, if◌then◌else◌, ◌≢◌, ◌⊎◌, ◌∙◌, refl, true, false, inl,
  inr, List, [], ◌∷◌, length, get_elem?, get_or, get_elem?-eq-get_or, map, ltb, ◌==◌, arith, sub64,
  sub64-eq, u64_mod, Returns, Returns-value, Bool-cases, some,
}
use kvd.Progress.{Progress}
use kvd.RaftLog
use kvd.RaftLog.View.{IsValid, term_at}
use kvd.RaftLog.Commit.{maybe_commit-IsValid}
use kvd.Raft.State.{Raft, quorum}
use kvd.Raft.Replicate.{sort, matches, maybe_commit}
use kvd.Raft.Replicate.Sorting.{
  count_from, sort-Sorted, count-sort, length-sort, count-from_elem, count-past_elem, count_mono,
}

-- The largest index that a quorum of the voters matches.
pub record Agreed (r : Raft) (m : ℕ) : Type 0 where
  pub reached : quorum r ≤ count_from m (matches r)
  pub largest : (k : ℕ) → quorum r ≤ count_from k (matches r) → k ≤ m

-- The index that maybe_commit reads from the sorted buffer.
abbrev agreed : Raft → ℕ
agreed r = get_or (sort (matches r)) (length r.prs - quorum r) 0

length-match : (prs : List (ℕ × Progress)) → length (map (λ kv. kv.1.match_index) prs) ≡ length prs
length-match [] = refl
length-match (kv ∷ prs) = omega (arith, length-match prs)

module _ (r : Raft) (some_peer : 0 < length r.prs) (few : length r.prs < 2 ^ 31) where
  quorum-bounds : (0 < quorum r) × (quorum r ≤ length r.prs) × (length r.prs < 2 * quorum r)
  unfolding quorum
  quorum-bounds = omega arith

  sorted_length : length (sort (matches r)) ≡ length r.prs
  unfolding matches
  sorted_length = length-sort (matches r) ∙ length-match r.prs

  agreed-Agreed : Agreed r (agreed r)
  agreed-Agreed = record {
    reached = omega (
      arith,
      quorum-bounds,
      sorted_length,
      count-sort (agreed r) (matches r),
      count-from_elem (sort (matches r)) (length r.prs - quorum r) (sort-Sorted (matches r))
          (omega (arith, quorum-bounds, sorted_length)),
    );
    largest = λ k h. elim (Bool-cases (ltb (agreed r) k)) [
      | inr e ↦ ground arith
      | inl e ↦ absurd (
          omega (
            arith,
            h,
            quorum-bounds,
            sorted_length,
            count-sort k (matches r),
            count-past_elem (sort (matches r)) (length r.prs - quorum r) k (sort-Sorted (matches r))
                (omega (arith, quorum-bounds, sorted_length)) (ground arith),
          ))
    ];
  }

  reads_agreed :
      get_elem? (sort (matches r)) (length (sort (matches r)) - quorum r) ≡ some (agreed r)
  reads_agreed = rw sorted_length (
      get_elem?-eq-get_or (sort (matches r)) (length r.prs - quorum r) 0
        (omega (arith, quorum-bounds, sorted_length)))

-- What the log's maybe_commit leaves, by what it returns.
commit_cases :
    (r : Raft) (m : ℕ) (committed : Bool) (l : RaftLog.RaftLog)
    → committed ≡ (ltb r.raft_log.committed m && (term_at r.raft_log m == r.term))
    → l ≡ record r.raft_log { committed = if committed then m else r.raft_log.committed }
    → ((committed ≡ true)
        × (r.raft_log.committed < m)
        × (term_at r.raft_log m ≡ r.term)
        × (record r { raft_log = l } ≡ record r { raft_log = record r.raft_log { committed = m } }))
      ⊎ ((committed ≡ false)
          × ((m ≤ r.raft_log.committed) ⊎ (term_at r.raft_log m ≢ r.term))
          × (record r { raft_log = l } ≡ r))
commit_cases r m true l e same = inl (refl, ground (arith, e), ground (arith, e), rw same refl)
commit_cases r m false l e same = inr (
  refl,
  elim (Bool-cases (ltb r.raft_log.committed m)) [
    | inl later ↦ inr (λ t. ground (arith, e, later, t))
    | inr early ↦ inl (ground arith)
  ],
  rw same refl,
)

-- maybe_commit of a leader with at most 2 ^ 31 voters and a term past 0, whose log is valid, never
-- fails. With `m` the largest index that a quorum of the voters matches, it commits `m` exactly if
-- `m` is past the commit index and the log has an entry of the node's own term there; otherwise it
-- changes nothing. It never changes more than the commit index.
pub maybe_commit-Agreed :
    (r : Raft)
    → IsValid r.raft_log
    → 0 < r.term
    → 0 < length r.prs
    → length r.prs < 2 ^ 31
    → count_from u64_mod (matches r) ≡ 0
    → Returns (maybe_commit r) λ p.
      (m : ℕ) × Agreed r m
      × IsValid p.1.raft_log
      × (((p.0 ≡ true)
            × (r.raft_log.committed < m)
            × (term_at r.raft_log m ≡ r.term)
            × (p.1 ≡ record r { raft_log = record r.raft_log { committed = m } }))
          ⊎ ((p.0 ≡ false)
              × ((m ≤ r.raft_log.committed) ⊎ (term_at r.raft_log m ≢ r.term))
              × (p.1 ≡ r)))
unfolding maybe_commit
maybe_commit-Agreed r v t n few words =
    let ag = agreed-Agreed r n few in
    let small : agreed r < u64_mod = elim (Bool-cases (ltb (agreed r) u64_mod)) [
      | inl e ↦ ground arith
      | inr e ↦ absurd (
          omega (
            arith,
            words,
            ag.reached,
            quorum-bounds r n few,
            count_mono u64_mod (agreed r) (matches r) (ground arith),
          ))
    ] in
    let at : sub64 (length (sort (matches r))) (quorum r) ≡ length (sort (matches r)) - quorum r =
      sub64-eq _ _ (omega (arith, quorum-bounds r n few, sorted_length r n few))
        (omega (arith, few, sorted_length r n few)) in
    let (w, e, q) =
      Returns-value _ (RaftLog.maybe_commit r.raft_log (agreed r) r.term)
        (maybe_commit-IsValid r.raft_log (agreed r) r.term v small t) in
    rw (at, reads_agreed r n few, e) (agreed r, ag, q.0, commit_cases r (agreed r) w.0 w.1 q.1 q.2)
