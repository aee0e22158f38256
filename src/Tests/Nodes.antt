-- ===== src/Tests/Nodes.antt =====
-- Runs on a node of three, with the sample log.
use kvd.Base.{
  ◌≡◌, ◌⊎◌, inr, refl, true, false, [], ◌∷◌, map, ok, err, undefined, arith, max, Returns,
}
use kvd.Proto.{Message, empty_message, app, heartbeat, vote, heartbeat_resp}
use kvd.Progress
use kvd.ReadOnly
use kvd.ReadOnly.{safe}
use kvd.RaftLog.MaybeAppend.{Accepted}
use kvd.Raft.State.{Raft, follower, tick_election, step_follower}
use kvd.Raft.Roles.{become_follower}
use kvd.Raft.Roles.Reset.{TimerFits, fresh}
use kvd.Raft.Roles.Changes.{become_follower-Resets}
use kvd.Raft.Follower.{handle_append_entries, handle_heartbeat, restore_node}
use kvd.Raft.Follower.Answers.{
  answer, handle_heartbeat-answers, handle_append_entries-Accepted, restore_node-other_first,
}
use kvd.Raft.Election.{check_term, handle_vote}
use kvd.Raft.Election.Terms.{Later, check_term-Later}
use kvd.Raft.Election.Votes.{UpToDate, vote_answer, handle_vote-answers}
use kvd.Tests.Samples.{entry, log, log-IsValid}
use kvd.Tests.Logs.{log_terms}

abbrev pub node : Raft
node = record {
  id = 2;
  term = 3;
  vote = 0;
  read_states = [];
  raft_log = log;
  max_msg_size = 1000;
  max_uncommitted_size = 1000;
  max_inflight = 4;
  prs = (1, Progress.new 4) ∷ (2, Progress.new 4) ∷ (3, Progress.new 4) ∷ [];
  learner_prs = [];
  state = follower;
  is_learner = false;
  votes = [];
  msgs = [];
  lead = 0;
  lead_transferee = 0;
  pending_conf_index = 0;
  uncommitted_size = 0;
  read_only = ReadOnly.new safe;
  election_elapsed = 2;
  heartbeat_elapsed = 0;
  check_quorum = true;
  pre_vote = false;
  heartbeat_timeout = 1;
  election_timeout = 10;
  randomized_election_timeout = 12;
  disable_proposal_forwarding = false;
  tick = tick_election;
  step = step_follower;
  random_device = record { draws = λ n. 3; drawn = 0 };
}

node-TimerFits : TimerFits node
node-TimerFits = record { timeout_small = omega arith; draw_in = omega arith }

become_follower_example : Returns (become_follower 5 1 node) λ p.
    (p.1.term ≡ 5)
    × (p.1.vote ≡ 0)
    × (p.1.lead ≡ 1)
    × (p.1.state ≡ follower)
    × (p.1.step ≡ step_follower)
    × (p.1.tick ≡ tick_election)
    × (p.1.votes ≡ [])
    × (p.1.raft_log ≡ log)
    × (p.1.msgs ≡ [])
    × (p.1.prs ≡ map (fresh node) node.prs)
become_follower_example = become_follower-Resets node 5 1 log-IsValid node-TimerFits

abbrev beat : Message
beat = record empty_message {
  type = heartbeat;
  from = 1;
  to = 2;
  term = 3;
  commit = 6;
  context = 9 ∷ [];
}

handle_heartbeat_example :
    handle_heartbeat beat node
    ≡ ok (
      tt,
      record node {
        raft_log = record log { committed = max 4 6 };
        msgs = record (answer node beat) { type = heartbeat_resp; context = [] } ∷ [];
      },
    )
handle_heartbeat_example = handle_heartbeat-answers node beat log-IsValid (omega arith)

abbrev stale : Message
stale = record empty_message { type = app; from = 1; to = 2; term = 3; index = 3; log_term = 1 }

abbrev append : Message
append = record stale { index = 5; log_term = 2; commit = 6; entries = entry 6 3 ∷ [] }

handle_append_entries_example : Returns (handle_append_entries append node) λ p.
    Accepted log 5 6 (entry 6 3 ∷ []) p.1.raft_log
    × (p.1.msgs ≡ record (answer node append) { index = 6 } ∷ [])
    × (p.1.term ≡ 3)
    × (p.1.vote ≡ 0)
handle_append_entries_example =
    handle_append_entries-Accepted node append 6 log-IsValid (omega arith) (ground arith)
      (omega arith) (ground arith) (omega arith) (omega (arith, log_terms))
      (inr (λ e. omega (arith, log_terms, e), refl)) (inr (omega arith))

restore_node_example : restore_node (1 ∷ 2 ∷ []) false (record node { prs = [] }) ≡ err undefined
restore_node_example =
    restore_node-other_first (record node { prs = [] }) 1 (2 ∷ []) log-IsValid refl refl
      (λ e. omega (arith, e))

abbrev request : Message
request = record empty_message { type = vote; from = 3; to = 2; term = 3; index = 9; log_term = 3 }

handle_vote_example : Returns (handle_vote request node) λ p.
    ((UpToDate node 9 3)
      × ((0 ≡ request.from) ⊎ ((0 ≡ node.vote) × (0 ≡ node.lead)))
      × (p.1 ≡ record node {
        election_elapsed = 0;
        vote = 3;
        msgs = vote_answer node request false ∷ [];
      }))
    ⊎ (p.1 ≡ record node { msgs = vote_answer node request true ∷ [] })
handle_vote_example = handle_vote-answers node request log-IsValid refl refl refl (omega arith)

check_term_example :
    Returns
      (check_term (record request { term = 5 }) node)
      (λ p. Later node 5 p.1 × (p.1.raft_log ≡ log))
check_term_example = check_term-Later node (record request { term = 5 }) log-IsValid node-TimerFits
