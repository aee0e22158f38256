-- ===== src/Raft/Election/Votes.antt =====
-- raft.cpp: who gets a node's vote.
use kvd.Base.{
  ℕ, ◌-◌, ◌≤◌, ◌<◌, ◌≡◌, ◌⊎◌, inl, inr, refl, sym, subst, Bool, true, false, [], ◌∷◌, ◌++◌,
  if◌then◌else◌, arith, ok, Returns, Returns-ok, Bool-cases, not-==_zero,
}
use kvd.Proto.{Message, empty_message, vote, vote_resp}
use kvd.RaftLog.View.{IsValid, end_of, term_at}
use kvd.RaftLog.Terms.{is_up_to_date_lem}
use kvd.Raft.State.{Raft, done, send, is_campaign_msg}
use kvd.Raft.Roles.Reset.{after_call}
use kvd.Raft.Election.{handle_vote, answer_vote, can_vote, is_vote, is_pre_vote, vote_resp_msg_type}

-- The log that ends at `index` with the term `t` is no older than the node's.
abbrev pub UpToDate : Raft → ℕ → ℕ → Type 0
UpToDate r index t =
    (term_at r.raft_log (end_of r.raft_log - 1) < t)
    ⊎ ((t ≡ term_at r.raft_log (end_of r.raft_log - 1)) × (end_of r.raft_log - 1 ≤ index))

-- The answer to a vote.
abbrev pub vote_answer : Raft → Message → Bool → Message
vote_answer r msg reject = record empty_message {
  to = msg.from;
  from = r.id;
  type = vote_resp;
  term = r.term;
  reject = reject;
}

may_vote :
    (r : Raft) (msg : Message)
    → msg.type ≡ vote
    → can_vote r msg ≡ true
    → (r.vote ≡ msg.from) ⊎ ((r.vote ≡ 0) × (r.lead ≡ 0))
unfolding can_vote is_pre_vote
may_vote r msg iv h = ground (arith, iv)

send-vote_resp :
    (r : Raft) (m : Message)
    → m.type ≡ vote_resp
    → 0 < m.term
    → send m r ≡ ok (tt, record r { msgs = r.msgs ++ (record m { from = r.id } ∷ []) })
unfolding send is_campaign_msg
send-vote_resp r m ty pos = rw (ty, not-==_zero m.term pos) refl

-- What a node does with a request for a vote: it grants the vote, or rejects it.
abbrev Answered : Raft → Message → Raft → Type 0
Answered r msg w =
    ((UpToDate r msg.index msg.log_term)
      × ((r.vote ≡ msg.from) ⊎ ((r.vote ≡ 0) × (r.lead ≡ 0)))
      × (w ≡ record r {
        election_elapsed = 0;
        vote = msg.from;
        msgs = r.msgs ++ (vote_answer r msg false ∷ []);
      }))
    ⊎ (w ≡ record r { msgs = r.msgs ++ (vote_answer r msg true ∷ []) })

answer_vote-Answered :
    (r : Raft) (msg : Message)
    → IsValid r.raft_log
    → msg.type ≡ vote
    → msg.term ≡ r.term
    → 0 < r.term
    → Returns (answer_vote msg r) (λ p. Answered r msg p.1)
unfolding answer_vote is_vote vote_resp_msg_type
answer_vote-Answered r msg v iv te pos =
    let (up, e, meaning) = is_up_to_date_lem r.raft_log msg.index msg.log_term v in
    elim (Bool-cases (can_vote r msg)) [
      | inr refused ↦ rw (refused, iv) (Returns-ok _ (send-vote_resp r _ refl pos) (inr refl))
      | inl may ↦ elim (Bool-cases up) [
        | inl newer ↦
            rw (may, e, newer, iv, te)
              (Returns-ok _ (after_call (send _) _ (send-vote_resp r _ refl pos))
                (inl (meaning.0 newer, may_vote r msg iv may, refl)))
        | inr older ↦ rw (may, e, older, iv) (Returns-ok _ (send-vote_resp r _ refl pos) (inr refl))
      ]
    ]

-- A node that is no learner answers each request for a vote in its own term with one message, and
-- never fails. It grants the vote only to a node with a log that is no older than its own, and only
-- if it has voted for that node already, or for none and knows no leader; it then has voted for it.
-- Otherwise it rejects, and nothing else changes.
pub handle_vote-answers :
    (r : Raft) (msg : Message)
    → IsValid r.raft_log
    → r.is_learner ≡ false
    → msg.type ≡ vote
    → msg.term ≡ r.term
    → 0 < r.term
    → Returns (handle_vote msg r) λ p.
      ((UpToDate r msg.index msg.log_term)
        × ((r.vote ≡ msg.from) ⊎ ((r.vote ≡ 0) × (r.lead ≡ 0)))
        × (p.1 ≡ record r {
          election_elapsed = 0;
          vote = msg.from;
          msgs = r.msgs ++ (vote_answer r msg false ∷ []);
        }))
      ⊎ (p.1 ≡ record r { msgs = r.msgs ++ (vote_answer r msg true ∷ []) })
unfolding handle_vote
handle_vote-answers r msg v nl iv te pos =
    subst (λ b. Returns ((if b then done else answer_vote msg) r) (λ p. Answered r msg p.1))
      (sym nl) (answer_vote-Answered r msg v iv te pos)
