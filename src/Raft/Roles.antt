-- ===== src/Raft/Roles.antt =====
-- raft.cpp: the changes of role, and the election that a node starts.
pub mod Reset
pub mod Changes
use kvd.Base.{
  ℕ, ◌+◌, ◌*◌, ◌%◌, Bool, true, false, not, List, [], ◌∷◌, ◌==◌, leb, if◌then◌else◌, add32, add64,
  u32_mod, lookup, insert, is_some, map, Result, ok, err, fatal, assertion,
}
use kvd.Proto.{Entry, empty_entry, Message, MessageType, empty_message, vote, pre_vote}
use kvd.Progress
use kvd.Progress.{Progress}
use kvd.RaftLog
use kvd.Raft.State.{
  Raft, M, ◌>>=◌, ◌>>◌, pure, done, get, modify, fail, lift, when, send, quorum, promotable,
  put_progress, the_progress, is_follower, is_leader, follower, candidate, leader, pre_candidate,
  tick_election, tick_heartbeat, step_follower, step_candidate, step_leader,
}
use kvd.Raft.Peers.{reset_progresses}
use kvd.Raft.Replicate.{append_entry, reduce_uncommitted_size}

-- The assert compares numbers of 32 bits.
unfoldable pub reset_randomized_election_timeout : M (Unit {0})
reset_randomized_election_timeout = do
  r ← get
  let drawn : ℕ = r.random_device.draws r.random_device.drawn
  let timeout : ℕ = add32 r.election_timeout drawn
  modify (λ s. record s {
    randomized_election_timeout = timeout;
    random_device = record s.random_device { drawn = s.random_device.drawn + 1 };
  })
  when (not (leb timeout ((2 * r.election_timeout) % u32_mod))) (fail assertion)

-- The first lines of reset.
unfoldable pub reset_term : ℕ → Raft → Raft
reset_term term r = if r.term == term then r else record r { term = term; vote = 0 }

-- The last lines of reset.
unfoldable pub reset_peers : M (Unit {0})
reset_peers = do
  r ← get
  prs ← lift (reset_progresses r r.prs)
  learner_prs ← lift (reset_progresses r r.learner_prs)
  modify (λ s. record s {
    prs = prs;
    learner_prs = learner_prs;
    pending_conf_index = 0;
    uncommitted_size = 0;
    read_only = record s.read_only { pending_read_index = []; read_index_queue = [] };
  })

-- reset after its first lines, in the order of the code.
unfoldable pub finish : M (Unit {0})
finish = do
  modify (λ s. record s { lead = 0; election_elapsed = 0; heartbeat_elapsed = 0 })
  reset_randomized_election_timeout
  modify (λ s. record s { lead_transferee = 0; votes = [] })
  reset_peers

unfoldable pub reset : ℕ → M (Unit {0})
reset term = do modify (reset_term term); finish

unfoldable pub become_follower : ℕ → ℕ → M (Unit {0})
become_follower term lead = do
  modify (λ s. record s { step = step_follower })
  reset term
  modify (λ s. record s { tick = tick_election; lead = lead; state = follower })

unfoldable pub become_candidate : M (Unit {0})
become_candidate = do
  r ← get
  when (is_leader r.state) (fail fatal)
  modify (λ s. record s { step = step_candidate })
  reset (add64 r.term 1)
  modify (λ s. record s { tick = tick_election; vote = s.id; state = candidate })

unfoldable pub become_pre_candidate : M (Unit {0})
become_pre_candidate = do
  r ← get
  when (is_leader r.state) (fail fatal)
  modify (λ s. record s {
    step = step_candidate;
    votes = [];
    tick = tick_election;
    lead = 0;
    state = pre_candidate;
  })

unfoldable pub become_leader : M (Unit {0})
become_leader = do
  r ← get
  when (is_follower r.state) (fail fatal)
  modify (λ s. record s { step = step_leader })
  reset r.term
  modify (λ s. record s { tick = tick_heartbeat; lead = s.id; state = leader })
  s ← get
  when (not (promotable s)) (fail assertion)
  pr ← the_progress s.id
  modify (put_progress s.id (Progress.become_replicate pr))
  last ← lift (RaftLog.last_index s.raft_log)
  modify (λ t. record t { pending_conf_index = last })
  appended ← append_entry (empty_entry ∷ [])
  when (not appended) (fail fatal)
  reduce_uncommitted_size (empty_entry ∷ [])

-- The number of the votes that are granted, a uint32_t.
unfoldable pub granted : List (ℕ × Bool) → ℕ
granted [] = 0
granted ((id, v) ∷ votes) = if v then add32 (granted votes) 1 else granted votes

-- A peer's first vote stays.
unfoldable pub record_vote : ℕ → Bool → List (ℕ × Bool) → List (ℕ × Bool)
record_vote id v votes = if is_some (lookup id votes) then votes else insert id v votes

unfoldable pub poll : ℕ → Bool → M ℕ
poll id v = do
  modify (λ s. record s { votes = record_vote id v s.votes })
  s ← get
  pure (granted s.votes)

pub data CampaignType : Type 0 where
  pre_election election transfer : CampaignType

-- The bytes of kCampaignTransfer.
abbrev pub campaign_transfer : List ℕ
campaign_transfer =
    67 ∷ 97 ∷ 109 ∷ 112 ∷ 97 ∷ 105 ∷ 103 ∷ 110 ∷ 84 ∷ 114 ∷ 97 ∷ 110 ∷ 115 ∷ 102 ∷ 101 ∷ 114 ∷ []

campaign_context : CampaignType → List ℕ
campaign_context transfer = campaign_transfer
campaign_context _ = []

-- The loop over the voters.
unfoldable pub request_votes : MessageType → ℕ → List ℕ → List ℕ → M (Unit {0})
request_votes type term ctx [] = done
request_votes type term ctx (id ∷ ids) = do
  r ← get
  when (not (id == r.id)) (do
    last ← lift (RaftLog.last_index r.raft_log)
    last_term ← lift (RaftLog.last_term r.raft_log)
    send (record empty_message {
      term = term;
      to = id;
      type = type;
      index = last;
      log_term = last_term;
      context = ctx;
    }))
  request_votes type term ctx ids

-- campaign of the types CampaignElection and CampaignTransfer.
unfoldable pub campaign_election : CampaignType → M (Unit {0})
unfolding campaign_context
campaign_election type = do
  become_candidate
  r ← get
  won ← poll r.id true
  if quorum r == won
      then become_leader
      else (do s ← get; request_votes vote r.term (campaign_context type) (map (λ kv. kv.0) s.prs))

-- A node that wins the pre-election with its own vote goes on to the election.
unfoldable pub campaign : CampaignType → M (Unit {0})
campaign pre_election = do
  become_pre_candidate
  r ← get
  won ← poll r.id true
  if quorum r == won
      then campaign_election election
      else (do s ← get; request_votes pre_vote (add64 r.term 1) [] (map (λ kv. kv.0) s.prs))
campaign type = campaign_election type
