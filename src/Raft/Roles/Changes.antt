-- ===== src/Raft/Roles/Changes.antt =====
-- raft.cpp: become_follower, become_candidate and poll.
use kvd.Base.{
  ℕ, ◌≡◌, refl, inl, inr, Bool, true, false, List, [], ◌∷◌, map, ◌==◌, if◌then◌else◌, arith, add64,
  Returns, Returns-ok, Bool-cases, lookup, insert, is_some,
}
use kvd.RaftLog.View.{IsValid}
use kvd.Raft.State.{
  Raft, ◌>>=◌, tick_election, step_follower, step_candidate, follower, candidate, is_leader,
}
use kvd.Raft.Roles.{reset, become_follower, become_candidate, poll, record_vote}
use kvd.Raft.Roles.Reset.{TimerFits, reset-Resets, after_call, fresh}

-- become_follower never fails on a valid log. It takes the term and the leader given, gives up the
-- vote exactly when the term changes, forgets the votes received and starts the progress of each peer
-- anew; the log and the messages to send stay.
pub become_follower-Resets :
    (r : Raft) (term lead : ℕ)
    → IsValid r.raft_log
    → TimerFits r
    → Returns (become_follower term lead r) λ p.
      (p.1.term ≡ term)
      × (p.1.vote ≡ (if r.term == term then r.vote else 0))
      × (p.1.lead ≡ lead)
      × (p.1.state ≡ follower)
      × (p.1.step ≡ step_follower)
      × (p.1.tick ≡ tick_election)
      × (p.1.votes ≡ [])
      × (p.1.raft_log ≡ r.raft_log)
      × (p.1.msgs ≡ r.msgs)
      × (p.1.prs ≡ map (fresh r) r.prs)
unfolding become_follower
become_follower-Resets r term lead v t =
    let (w, e, q) =
      reset-Resets (record r { step = step_follower }) term v
        (record { timeout_small = t.timeout_small; draw_in = t.draw_in }) in
    Returns-ok _ (after_call (reset term) _ e) (
      q.new_term, q.new_vote, refl, refl, q.same_step, refl, q.no_votes, q.same_log, q.same_msgs,
      q.peers,
    )

-- become_candidate of a node that is no leader never fails on a valid log. It goes to the next term
-- and votes for itself there, with no other vote received yet.
pub become_candidate-Resets :
    (r : Raft)
    → IsValid r.raft_log
    → TimerFits r
    → is_leader r.state ≡ false
    → Returns (become_candidate r) λ p.
      (p.1.term ≡ add64 r.term 1)
      × (p.1.vote ≡ r.id)
      × (p.1.state ≡ candidate)
      × (p.1.lead ≡ 0)
      × (p.1.votes ≡ [])
      × (p.1.raft_log ≡ r.raft_log)
unfolding become_candidate
become_candidate-Resets r v t h =
    let (w, e, q) =
      reset-Resets (record r { step = step_candidate }) (add64 r.term 1) v
        (record { timeout_small = t.timeout_small; draw_in = t.draw_in }) in
    rw h (
      Returns-ok _ (after_call (reset (add64 r.term 1)) _ e)
        (q.new_term, q.same_id, refl, q.no_lead, q.no_votes, q.same_log))

is_some-insert :
    (id : ℕ) (v : Bool) (votes : List (ℕ × Bool)) → is_some (lookup id (insert id v votes)) ≡ true
unfolding lookup insert
is_some-insert id v [] = ground arith
is_some-insert id v ((j, w) ∷ votes) = ground (arith, is_some-insert id v votes)

record_vote-again :
    (id : ℕ) (v w : Bool) (votes : List (ℕ × Bool))
    → record_vote id w (record_vote id v votes) ≡ record_vote id v votes
unfolding record_vote
record_vote-again id v w votes = elim (Bool-cases (is_some (lookup id votes))) [
  | inl voted ↦ rw (voted, voted) refl
  | inr first ↦ rw (first, is_some-insert id v votes) refl
]

-- Only the first answer of a peer counts: a second one changes neither the state nor the count.
pub poll-again : (r : Raft) (id : ℕ) (v w : Bool) → (poll id v >>= λ n. poll id w) r ≡ poll id v r
unfolding poll
poll-again r id v w = rw (record_vote-again id v w r.votes) refl
