-- ===== src/Raft/Reads.antt =====
-- raft.cpp: the reads that the leader answers (MsgReadIndex, and the end of MsgHeartbeatResp).
use kvd.Base.{
  ℕ, Bool, true, false, not, ◌||◌, List, [], ◌∷◌, ◌++◌, Option, none, some, ◌==◌, ltb,
  if◌then◌else◌, get_elem?, deref,
}
use kvd.Proto.{Message, empty_message, okay, Status, read_index_resp}
use kvd.RaftLog
use kvd.ReadOnly
use kvd.ReadOnly.{ReadIndexStatus, safe, lease_based}
use kvd.Raft.State.{M, ◌>>=◌, ◌>>◌, pure, done, get, modify, lift, send, quorum}
use kvd.Raft.Replicate.{bcast_heartbeat_with_ctx}

-- `entries[0].data`
the_context : Message → M (List ℕ)
the_context msg = lift (deref (get_elem? msg.entries 0)) >>= λ e. pure e.payload

unfoldable pub add_read_state : ℕ → List ℕ → M (Unit {0})
add_read_state index ctx = modify (λ s. record s {
  read_states = s.read_states ++ (record { index = index; request_ctx = ctx } ∷ []);
})

-- A read that may be answered: of this node, or of the follower that asked.
unfoldable pub answer_read : Message → ℕ → M (Unit {0})
unfolding the_context
answer_read req index = do
  r ← get
  if req.from == 0 || req.from == r.id
      then (the_context req >>= λ ctx. add_read_state index ctx)
      else send (record empty_message {
        to = req.from;
        type = read_index_resp;
        index = index;
        entries = req.entries;
      })

term_or_zero : Option ℕ → ℕ
term_or_zero none = 0
term_or_zero (some t) = t

unfoldable pub read_index_request : Message → M Status
unfolding the_context term_or_zero
read_index_request msg = do
  r ← get
  let committed : ℕ = r.raft_log.committed
  if not (ltb 1 (quorum r))
      then (the_context msg >>= λ ctx. add_read_state committed ctx >> pure okay)
      else (do
        (status, term) ← lift (RaftLog.term r.raft_log committed)
        if not (term_or_zero term == r.term)
            then pure okay
            else (elim r.read_only.option [
              | safe ↦ lift (ReadOnly.add_request r.read_only committed msg) >>= λ ro.
                  modify (λ s. record s { read_only = ro }) >> the_context msg >>= λ ctx.
                  bcast_heartbeat_with_ctx ctx
              | lease_based ↦ answer_read msg committed
            ])
              >> pure okay)

unfoldable pub answer_reads : List ReadIndexStatus → M (Unit {0})
answer_reads [] = done
answer_reads (rs ∷ rss) = do answer_read rs.req rs.index; answer_reads rss

unfoldable pub is_safe : ReadOnly.ReadOnlyOption → Bool
is_safe safe = true
is_safe lease_based = false

is_empty_context : List ℕ → Bool
is_empty_context [] = true
is_empty_context (b ∷ bs) = false

-- The end of the case MsgHeartbeatResp: the reads that a quorum has confirmed.
unfoldable pub confirm_reads : Message → M Status
unfolding is_empty_context
confirm_reads msg = do
  r ← get
  if not (is_safe r.read_only.option) || is_empty_context msg.context then pure okay else (do
    let (ack_count, acked) : ℕ × ReadOnly.ReadOnly = ReadOnly.recv_ack r.read_only msg
    modify (λ s. record s { read_only = acked })
    if ltb ack_count (quorum r) then pure okay else (do
      (rss, ro) ← lift (ReadOnly.advance acked msg)
      modify (λ s. record s { read_only = ro })
      answer_reads rss
      pure okay))
