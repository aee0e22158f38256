-- ===== src/Raft/Start.antt =====
-- raft.cpp: the constructor of Raft.
use kvd.Base.{
  ℕ, Bool, true, false, not, ◌||◌, List, [], ◌∷◌, if◌then◌else◌, Result, ok, err, fatal, deref,
  check, ◌>>=◌,
}
use kvd.Proto.{ConfState, is_ok}
use kvd.Storage
use kvd.Storage.{MemoryStorage}
use kvd.Config.{Config}
use kvd.RaftLog
use kvd.ReadOnly
use kvd.Raft.State.{Raft, M, follower, TickFunction, StepFunction}
use kvd.Raft.Members.{start}

no_ids : List ℕ → Bool
no_ids [] = true
no_ids (n ∷ ns) = false

-- The nodes of the configuration, from the arguments or from the storage but not from both.
unfoldable pub initial_members : Config → ConfState → Result (List ℕ × List ℕ)
unfolding no_ids
initial_members c cs =
    if not (no_ids cs.nodes) || not (no_ids cs.learners)
    then (if not (no_ids c.peers) || not (no_ids c.learners)
        then err fatal
        else ok (cs.nodes, cs.learners))
    else ok (c.peers, c.learners)

-- The node after the initializers. `tick_` and `step_` are not set; they stand here with the values
-- that become_follower gives them, before which nothing reads them.
unfoldable pub initial : Config → RaftLog.RaftLog → (ℕ → ℕ) → Raft
initial c l draws = record {
  id = c.id;
  term = 0;
  vote = 0;
  read_states = [];
  raft_log = l;
  max_msg_size = c.max_size_per_msg;
  max_uncommitted_size = c.max_uncommitted_entries_size;
  max_inflight = c.max_inflight_msgs;
  prs = [];
  learner_prs = [];
  state = follower;
  is_learner = false;
  votes = [];
  msgs = [];
  lead = 0;
  lead_transferee = 0;
  pending_conf_index = 0;
  uncommitted_size = 0;
  read_only = ReadOnly.new c.read_only_option;
  election_elapsed = 0;
  heartbeat_elapsed = 0;
  check_quorum = c.check_quorum;
  pre_vote = c.pre_vote;
  heartbeat_timeout = c.heartbeat_tick;
  election_timeout = c.election_tick;
  randomized_election_timeout = 0;
  disable_proposal_forwarding = c.disable_proposal_forwarding;
  tick = TickFunction.tick_election;
  step = StepFunction.step_follower;
  random_device = record { draws = draws; drawn = 0 };
}

-- What a call leaves of the node.
run : M (Unit {0}) → Raft → Result Raft
run m r = m r >>= λ p. ok p.1

unfoldable pub new : Config → (ℕ → ℕ) → Result Raft
unfolding run
new c draws = deref c.storage >>= λ st. RaftLog.new st c.max_committed_size_per_ready >>= λ l.
    let (status, hs, cs) = Storage.initial_state st in
    check (is_ok status) fatal >>= λ nothing.
    initial_members c cs >>= λ members. run (start c hs members.0 members.1) (initial c l draws)
