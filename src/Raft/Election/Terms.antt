-- ===== src/Raft/Election/Terms.antt =====
-- raft.cpp: what the term of a message does to the node's term and vote.
use kvd.Base.{
  ℕ, ◌<◌, ◌≡◌, ◌⊎◌, inl, inr, refl, false, [], ◌∷◌, ◌++◌, ◌==◌, ltb, if◌then◌else◌, arith, Returns,
  Returns-ok, Returns-value, Bool-cases, not-==_zero, lt→ltb, not-ltb,
}
use kvd.Proto.{Message}
use kvd.RaftLog.View.{IsValid}
use kvd.Raft.State.{Raft, send, is_campaign_msg, is_forwarded_msg}
use kvd.Raft.Roles.{become_follower}
use kvd.Raft.Roles.Reset.{TimerFits, after_call}
use kvd.Raft.Roles.Changes.{become_follower-Resets}
use kvd.Raft.Election.{
  check_term, answer_behind, from_old_leader, is_pre_vote, in_lease, keeps_term, is_leader_msg,
}

-- The node as it is, or with one more message, in its own term to the given node.
abbrev pub Silent : Raft → ℕ → Raft → Type 0
Silent r to w =
    (w ≡ r)
    ⊎ ((m : Message) × (w ≡ record r { msgs = r.msgs ++ (m ∷ []) })
        × (m.to ≡ to)
        × (m.from ≡ r.id)
        × (m.term ≡ r.term))

answer_behind-Silent :
    (r : Raft) (msg : Message)
    → 0 < r.term
    → Returns (answer_behind msg r) (λ p. Silent r msg.from p.1)
unfolding answer_behind send is_campaign_msg is_forwarded_msg
answer_behind-Silent r msg pos = elim (Bool-cases (from_old_leader r msg)) [
  | inl old ↦ rw old (inr (_, refl, refl, refl, refl))
  | inr other ↦ elim (Bool-cases (is_pre_vote msg.type)) [
    | inl asked ↦ rw (other, asked, not-==_zero r.term pos) (inr (_, refl, refl, refl, refl))
    | inr ignored ↦ rw (other, ignored) (inl refl)
  ]
]

-- A message of an earlier term never fails and is not handled further. It changes nothing but that at
-- most one message goes to its sender, in the node's own term.
pub check_term-behind :
    (r : Raft) (msg : Message)
    → 0 < msg.term
    → msg.term < r.term
    → Returns (check_term msg r) λ p. (p.0 ≡ false) × Silent r msg.from p.1
unfolding check_term
check_term-behind r msg pos h =
    let (a, e, q) =
      Returns-value _ (answer_behind msg r) (answer_behind-Silent r msg (omega arith)) in
    rw (not-==_zero msg.term pos, not-ltb r.term msg.term (omega arith), lt→ltb msg.term r.term h)
      (Returns-ok _ (after_call (answer_behind msg) _ e) (refl, q))

-- The term of a node after a message: the same with the same vote, or the later one of the message with
-- no vote.
abbrev pub Later : Raft → ℕ → Raft → Type 0
Later r term w =
    ((w.term ≡ r.term) × (w.vote ≡ r.vote)) ⊎ ((r.term < term) × (w.term ≡ term) × (w.vote ≡ 0))

ahead-Later :
    (r : Raft) (msg : Message)
    → IsValid r.raft_log
    → TimerFits r
    → 0 < msg.term
    → r.term < msg.term
    → Returns (check_term msg r) (λ p. Later r msg.term p.1 × (p.1.raft_log ≡ r.raft_log))
unfolding check_term
ahead-Later r msg v t pos h = elim (Bool-cases (in_lease r msg)) [
  | inl leased ↦
      rw (not-==_zero msg.term pos, lt→ltb r.term msg.term h, leased) (inl (refl, refl), refl)
  | inr free ↦ elim (Bool-cases (keeps_term msg.type msg.reject)) [
    | inl kept ↦
        rw (not-==_zero msg.term pos, lt→ltb r.term msg.term h, free, kept) (inl (refl, refl), refl)
    | inr moved ↦
        let lead : ℕ = if is_leader_msg msg.type then msg.from else 0 in
        let (a, e, q) =
          Returns-value _ (become_follower msg.term lead r)
            (become_follower-Resets r msg.term lead v t) in
        rw (not-==_zero msg.term pos, lt→ltb r.term msg.term h, free, moved)
          (Returns-ok _ (after_call (become_follower msg.term lead) _ e)
            (inr (h, q.0, ground (arith, q.1)), q.7))
  ]
]

-- The check of the term that step starts with never fails on a valid log. The node's term never goes
-- back; while it stays, so does the vote, and it only changes to a later term of the message, where no
-- vote is given yet. The log does not change.
pub check_term-Later :
    (r : Raft) (msg : Message)
    → IsValid r.raft_log
    → TimerFits r
    → Returns (check_term msg r) (λ p. Later r msg.term p.1 × (p.1.raft_log ≡ r.raft_log))
unfolding check_term
check_term-Later r msg v t = elim (Bool-cases (msg.term == 0)) [
  | inl local ↦ rw local (inl (refl, refl), refl)
  | inr remote ↦ elim (Bool-cases (ltb r.term msg.term)) [
    | inl ahead ↦ ahead-Later r msg v t (ground arith) (ground arith)
    | inr late ↦ elim (Bool-cases (ltb msg.term r.term)) [
      | inr same ↦ rw (remote, late, same) (inl (refl, refl), refl)
      | inl behind ↦
          let (a, e, q) =
            Returns-value _ (check_term msg r)
              (check_term-behind r msg (ground arith) (ground arith)) in
          Returns-ok _ e (silent a.1 q.1)
    ]
  ]
]
  where
    silent : (w : Raft) → Silent r msg.from w → Later r msg.term w × (w.raft_log ≡ r.raft_log)
    silent w (inl same) = rw same (inl (refl, refl), refl)
    silent w (inr (m, same, _, _, _)) = rw same (inl (refl, refl), refl)
