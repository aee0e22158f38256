-- ===== src/Raft/Members.antt =====
-- raft.cpp: the members of the cluster, and the states that a node shows and loads.
use kvd.Base.{
  Bool, true, false, not, ◌&&◌, ◌||◌, List, [], ◌∷◌, map, none, some, ◌==◌, ltb, if◌then◌else◌,
  add64, insert, erase, fatal, ℕ, lookup, is_some,
}
use kvd.Config.{Config}
use kvd.Proto.{HardState, is_empty_state}
use kvd.Progress
use kvd.Progress.{Progress}
use kvd.RaftLog
use kvd.Raft.State.{
  Raft, RaftState, M, ◌>>=◌, ◌>>◌, done, get, modify, fail, lift, when, get_progress, put_progress,
  the_progress, is_leader,
}
use kvd.Raft.Replicate.{maybe_commit, bcast_append, sort}
use kvd.Raft.Roles.{become_follower}
use kvd.Raft.Follower.{set_progress}
use kvd.Raft.Leader.{abort_leader_transfer}

-- The end of add_node_or_learner.
unfoldable pub mark_active : ℕ → Bool → M (Unit {0})
mark_active id is_learner = do
  r ← get
  when (r.id == id) (modify (λ s. record s { is_learner = is_learner }))
  pr ← the_progress id
  modify (put_progress id (record pr { recent_active = true }))

-- A learner that becomes a voter keeps its progress.
unfoldable pub make_voter : ℕ → Progress → Raft → Raft
make_voter id pr r = record r {
  learner_prs = erase id r.learner_prs;
  prs = insert id (record pr { is_learner = false }) r.prs;
}

unfoldable pub add_node_or_learner : ℕ → Bool → M (Unit {0})
add_node_or_learner id is_learner = do
  r ← get
  elim (get_progress r id) [
    | none ↦ lift (RaftLog.last_index r.raft_log) >>= λ last.
        set_progress id 0 (add64 last 1) is_learner >> mark_active id is_learner
    | some pr ↦
        if is_learner && not pr.is_learner
        then done
        else if (if is_learner then pr.is_learner else not pr.is_learner)
        then done
        else modify (make_voter id pr) >> mark_active id is_learner
  ]

unfoldable pub del_progress : ℕ → Raft → Raft
del_progress id r = record r { prs = erase id r.prs; learner_prs = erase id r.learner_prs }

no_peers : List (ℕ × Progress) → Bool
no_peers [] = true
no_peers (kv ∷ prs) = false

unfoldable pub remove_node : ℕ → M (Unit {0})
unfolding no_peers
remove_node id = do
  modify (del_progress id)
  r ← get
  if no_peers r.prs && no_peers r.learner_prs then done else (do
    committed ← maybe_commit
    when committed bcast_append
    s ← get
    when (is_leader s.state && s.lead_transferee == id) (modify abort_leader_transfer))

unfoldable pub nodes : Raft → List ℕ
nodes r = sort (map (λ kv. kv.0) r.prs)

-- The loop ends at the end of the other map, which is taken to be equal to the end of this one.
unfoldable pub learner_nodes : Raft → List ℕ
learner_nodes r = sort (map (λ kv. kv.0) r.learner_prs)

pub record SoftState : Type 0 where
  pub lead : ℕ
  pub state : RaftState

unfoldable pub soft_state : Raft → SoftState
soft_state r = record { lead = r.lead; state = r.state }

unfoldable pub hard_state : Raft → HardState
hard_state r = record { term = r.term; vote = r.vote; commit = r.raft_log.committed }

unfoldable pub load_state : HardState → M (Unit {0})
load_state hs = do
  r ← get
  last ← lift (RaftLog.last_index r.raft_log)
  when (ltb hs.commit r.raft_log.committed || ltb last hs.commit) (fail fatal)
  modify (λ s. record s {
    raft_log = record s.raft_log { committed = hs.commit };
    term = hs.term;
    vote = hs.vote;
  })

first_progress : ℕ → Bool → Progress
first_progress max_inflight is_learner = record (Progress.new max_inflight) {
  next = 1;
  is_learner = is_learner;
}

-- The loop over the peers.
unfoldable pub add_peers : List ℕ → Raft → Raft
unfolding first_progress
add_peers [] r = r
add_peers (peer ∷ peers) r =
    add_peers peers (record r { prs = insert peer (first_progress r.max_inflight false) r.prs })

-- The loop over the learners.
unfoldable pub add_learners : List ℕ → M (Unit {0})
unfolding first_progress
add_learners [] = done
add_learners (id ∷ ids) = do
  r ← get
  when (is_some (lookup id r.prs)) (fail fatal)
  modify (λ s. record s {
    learner_prs = insert id (first_progress s.max_inflight true) s.learner_prs;
    is_learner = s.is_learner || s.id == id;
  })
  add_learners ids

-- The body of the constructor. The log line at its end reads the last index and its term.
unfoldable pub start : Config → HardState → List ℕ → List ℕ → M (Unit {0})
start c hs peers learners = do
  modify (add_peers peers)
  add_learners learners
  when (not (is_empty_state hs)) (load_state hs)
  when (ltb 0 c.applied)
      (modify (λ s. record s { raft_log = RaftLog.applied_to s.raft_log c.applied }))
  r ← get
  become_follower r.term 0
  s ← get
  last ← lift (RaftLog.last_index s.raft_log)
  last_term ← lift (RaftLog.last_term s.raft_log)
  done
