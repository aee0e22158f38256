-- ===== src/Raft/Follower.antt =====
-- raft.cpp: how a follower or a candidate answers its leader.
pub mod Answers
use kvd.Base.{
  ℕ, Bool, true, false, not, ◌&&◌, ◌||◌, List, [], ◌∷◌, ◌++◌, Option, none, some, ◌==◌, ltb, leb,
  if◌then◌else◌, length, get_elem?, add64, sub64, lookup, insert, erase, is_some, Result, ok, err,
  fatal, undefined, assertion, deref,
}
use kvd.Proto.{
  Message, MessageType, empty_message, app, app_resp, heartbeat, heartbeat_resp, Snapshot, Status,
  okay, invalid_argument, prop, snap, transfer_leader, timeout_now, read_index, read_index_resp,
  vote_resp, pre_vote_resp,
}
use kvd.Progress
use kvd.Progress.{Progress}
use kvd.RaftLog
use kvd.ReadOnly.{ReadState}
use kvd.Raft.State.{
  Raft, M, ◌>>=◌, ◌>>◌, pure, done, get, modify, fail, lift, when, send, quorum, promotable,
  the_progress, is_pre_candidate, RaftState, candidate,
}
use kvd.Raft.Replicate.{bcast_append}
use kvd.Raft.Roles.{
  become_follower, become_leader, campaign, campaign_election, election, transfer, poll,
}

-- A follower that has committed past the message tells how far.
unfoldable pub handle_append_entries : Message → M (Unit {0})
handle_append_entries msg = do
  r ← get
  let answer : Message = record empty_message { to = msg.from; type = app_resp }
  if ltb msg.index r.raft_log.committed
      then send (record answer { index = r.raft_log.committed })
      else (do
        (accepted, l) ←
            lift (RaftLog.maybe_append r.raft_log msg.index msg.log_term msg.commit msg.entries)
        modify (λ s. record s { raft_log = l })
        elim accepted [
          | some last ↦ send (record answer { index = last })
          | none ↦ lift (RaftLog.term l msg.index) >>= λ found.
              lift (RaftLog.last_index l) >>= λ last.
              send (record answer { index = msg.index; reject = true; reject_hint = last })
        ])

-- The context of the message is moved to itself, and the answer has none.
unfoldable pub handle_heartbeat : Message → M (Unit {0})
handle_heartbeat msg = do
  r ← get
  l ← lift (RaftLog.commit_to r.raft_log msg.commit)
  modify (λ s. record s { raft_log = l })
  send (record empty_message { to = msg.from; type = heartbeat_resp })

unfoldable pub set_progress : ℕ → ℕ → ℕ → Bool → M (Unit {0})
set_progress id match_index next is_learner r =
    let p : Progress = record (Progress.new r.max_inflight) {
      next = next;
      match_index = match_index;
    } in
    if not is_learner
    then ok (tt, record r { learner_prs = erase id r.learner_prs; prs = insert id p r.prs })
    else if is_some (lookup id r.prs)
    then err fatal
    else ok
        (tt, record r { learner_prs = insert id (record p { is_learner = true }) r.learner_prs })

-- The log line of the loop reads through the pointer to the node's own progress.
unfoldable pub restore_node : List ℕ → Bool → M (Unit {0})
restore_node [] is_learner = done
restore_node (node ∷ nodes) is_learner = do
  r ← get
  last ← lift (RaftLog.last_index r.raft_log)
  let next : ℕ = add64 last 1
  when (node == r.id) (modify (λ s. record s { is_learner = is_learner }))
  set_progress node (if node == r.id then sub64 next 1 else 0) next is_learner
  own ← the_progress r.id
  restore_node nodes is_learner

unfoldable pub contains : ℕ → List ℕ → Bool
contains id [] = false
contains id (n ∷ ns) = n == id || contains id ns

unfoldable pub restore : Snapshot → M Bool
restore s = do
  r ← get
  if leb s.metadata.index r.raft_log.committed then pure false else (do
    matched ← lift (RaftLog.match_term r.raft_log s.metadata.index s.metadata.term)
    if matched
        then (do
          l ← lift (RaftLog.commit_to r.raft_log s.metadata.index)
          modify (λ t. record t { raft_log = l })
          pure false)
        else if not r.is_learner && contains r.id s.metadata.conf_state.learners
        then pure false
        else (do
          modify (λ t. record t {
            raft_log = RaftLog.restore t.raft_log s;
            prs = [];
            learner_prs = [];
          })
          restore_node s.metadata.conf_state.nodes false
          restore_node s.metadata.conf_state.learners true
          pure true))

-- The index is set on the message received, and not on the answer.
unfoldable pub handle_snapshot : Message → M (Unit {0})
handle_snapshot msg = do
  restored ← restore msg.snapshot
  r ← get
  when restored (lift (RaftLog.last_index r.raft_log) >>= λ last. done)
  send (record empty_message { to = msg.from; type = app_resp })

abbrev pub proposal_dropped : Status
proposal_dropped = invalid_argument "raft proposal dropped"

-- A message of the leader sets back the election clock.
unfoldable pub hear_leader : ℕ → M (Unit {0})
hear_leader from = modify (λ s. record s { election_elapsed = 0; lead = from })

-- A message that a follower hands on, if it knows a leader.
unfoldable pub forward : Message → M Status
forward msg = do r ← get; when (not (r.lead == 0)) (send (record msg { to = r.lead })); pure okay

unfoldable pub step_follower : Message → M Status
step_follower msg = elim msg.type [
  | prop ↦ get >>= λ r.
      if r.lead == 0 || r.disable_proposal_forwarding then pure proposal_dropped else forward msg
  | app ↦ hear_leader msg.from >> handle_append_entries msg >> pure okay
  | heartbeat ↦ hear_leader msg.from >> handle_heartbeat msg >> pure okay
  | snap ↦ hear_leader msg.from >> handle_snapshot msg >> pure okay
  | transfer_leader ↦ forward msg
  | timeout_now ↦ get >>= λ r. when (promotable r) (campaign transfer) >> pure okay
  | read_index ↦ forward msg
  | read_index_resp ↦
      if not (length msg.entries == 1)
      then pure okay
      else lift (deref (get_elem? msg.entries 0)) >>= λ e.
          modify (λ s. record s {
            read_states =
                s.read_states ++ (record { index = msg.index; request_ctx = e.payload } ∷ []);
          })
          >> pure okay
  | _ ↦ pure okay
]

is_candidate : RaftState → Bool
is_candidate candidate = true
is_candidate _ = false

-- The branch of step_candidate for an answer to a request for votes.
unfoldable pub count_vote : Message → M Status
unfolding is_candidate
count_vote msg = do
  gr ← poll msg.from (not msg.reject)
  r ← get
  if quorum r == gr
      then (if is_pre_candidate r.state
          then campaign election >> pure okay
          else when (not (is_candidate r.state)) (fail assertion)
            >> become_leader
            >> bcast_append
            >> pure okay)
      else if quorum r == sub64 (length r.votes) gr
      then become_follower r.term 0 >> pure okay
      else pure okay

unfoldable pub step_candidate : Message → M Status
step_candidate msg = elim msg.type [
  | prop ↦ pure proposal_dropped
  | app ↦ become_follower msg.term msg.from >> handle_append_entries msg >> pure okay
  | heartbeat ↦ become_follower msg.term msg.from >> handle_heartbeat msg >> pure okay
  | snap ↦ become_follower msg.term msg.from >> handle_snapshot msg >> pure okay
  | vote_resp ↦ count_vote msg
  | pre_vote_resp ↦ count_vote msg
  | _ ↦ pure okay
]
