-- ===== src/Raft/Election.antt =====
-- raft.cpp: how step treats the term of a message, and a request for a vote.
pub mod Terms
pub mod Votes
use kvd.Base.{ℕ, Bool, true, false, not, ◌&&◌, ◌||◌, ◌==◌, ltb, if◌then◌else◌}
use kvd.Proto.{
  Message, MessageType, empty_message, app, app_resp, heartbeat, snap, vote, vote_resp, pre_vote,
  pre_vote_resp,
}
use kvd.RaftLog
use kvd.ReadOnly.{bytes_eq}
use kvd.Raft.State.{Raft, M, ◌>>=◌, ◌>>◌, pure, done, get, modify, lift, when, send}
use kvd.Raft.Roles.{become_follower, campaign_transfer}

unfoldable pub is_vote_request : MessageType → Bool
is_vote_request vote = true
is_vote_request pre_vote = true
is_vote_request _ = false

unfoldable pub is_pre_vote : MessageType → Bool
is_pre_vote pre_vote = true
is_pre_vote _ = false

unfoldable pub is_vote : MessageType → Bool
is_vote vote = true
is_vote _ = false

unfoldable pub is_leader_msg : MessageType → Bool
is_leader_msg app = true
is_leader_msg heartbeat = true
is_leader_msg snap = true
is_leader_msg _ = false

-- A vote that is asked for in the lease of a leader is ignored, unless the leader handed over.
unfoldable pub in_lease : Raft → Message → Bool
in_lease r msg =
    is_vote_request msg.type
    && not (bytes_eq msg.context campaign_transfer)
    && (r.check_quorum && not (r.lead == 0) && ltb r.election_elapsed r.election_timeout)

-- The messages of a later term that do not change the node's term.
unfoldable pub keeps_term : MessageType → Bool → Bool
keeps_term pre_vote reject = true
keeps_term pre_vote_resp reject = not reject
keeps_term _ reject = false

-- A message of an old leader, which is to hear of the later term.
unfoldable pub from_old_leader : Raft → Message → Bool
from_old_leader r msg =
    (r.check_quorum || r.pre_vote) && elim msg.type [ heartbeat ↦ true | app ↦ true | _ ↦ false ]

-- The answer to a message of an earlier term, if there is one.
unfoldable pub answer_behind : Message → M (Unit {0})
answer_behind msg = do
  r ← get
  if from_old_leader r msg
      then send (record empty_message { to = msg.from; type = app_resp })
      else when (is_pre_vote msg.type) (
          send (record empty_message {
            to = msg.from;
            type = pre_vote_resp;
            reject = true;
            term = r.term;
          }))

-- The start of step; the result tells whether step goes on.
unfoldable pub check_term : Message → M Bool
check_term msg = do
  r ← get
  if msg.term == 0
      then pure true
      else if ltb r.term msg.term
      then (if in_lease r msg
          then pure false
          else if keeps_term msg.type msg.reject
          then pure true
          else (become_follower msg.term (if is_leader_msg msg.type then msg.from else 0)
              >> pure true))
      else if ltb msg.term r.term
      then answer_behind msg >> pure false
      else pure true

-- vote_resp_msg_type of util.cpp, which handle_vote calls for the two requests of a vote only; the default,
-- LOG_FATAL for another type, is not reached and has no clause of its own.
unfoldable pub vote_resp_msg_type : MessageType → MessageType
vote_resp_msg_type pre_vote = pre_vote_resp
vote_resp_msg_type _ = vote_resp

-- Whether the node may vote for the sender.
unfoldable pub can_vote : Raft → Message → Bool
can_vote r msg =
    r.vote == msg.from
    || (r.vote == 0 && r.lead == 0)
    || (is_pre_vote msg.type && ltb r.term msg.term)

-- The answer to a request. The log is only asked where the node may vote.
unfoldable pub answer_vote : Message → M (Unit {0})
answer_vote msg = do
  r ← get
  up ←
      if can_vote r msg
      then lift (RaftLog.is_up_to_date r.raft_log msg.index msg.log_term)
      else pure false
  let answer : Message = record empty_message { to = msg.from; type = vote_resp_msg_type msg.type }
  if up
      then (send (record answer { term = msg.term })
          >> when (is_vote msg.type)
              (modify (λ s. record s { election_elapsed = 0; vote = msg.from })))
      else send (record answer { term = r.term; reject = true })

-- The cases MsgVote and MsgPreVote of step.
unfoldable pub handle_vote : Message → M (Unit {0})
handle_vote msg = do r ← get; if r.is_learner then done else answer_vote msg
