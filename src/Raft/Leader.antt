-- ===== src/Raft/Leader.antt =====
-- raft.cpp: what the leader does with a message (step_leader).
pub mod Window
pub mod Sends
pub mod SendLoop
use kvd.Base.{
  ℕ, zero, suc, ◌+◌, Bool, true, false, not, ◌&&◌, ◌||◌, List, [], ◌∷◌, ◌++◌, none, some, ◌==◌, ltb,
  leb, if◌then◌else◌, add64, lookup, fatal, is_some,
}
use kvd.Proto.{
  Entry, Message, okay, Status, beat, check_quorum, prop, read_index, app_resp, heartbeat_resp,
  snap_status, unreachable, transfer_leader, entry_normal, entry_conf_change,
}
use kvd.Progress
use kvd.Progress.{Progress, is_probe, is_replicate, is_snapshot}
use kvd.Progress.InFlights
use kvd.RaftLog
use kvd.Raft.State.{
  Raft, M, ◌>>=◌, ◌>>◌, pure, done, get, modify, fail, lift, when, quorum, get_progress,
  put_progress, the_progress,
}
use kvd.Raft.Replicate.{
  maybe_commit, append_entry, maybe_send_append, send_append, bcast_append, bcast_heartbeat,
  send_timeout_now,
}
use kvd.Raft.Roles.{become_follower}
use kvd.Raft.Follower.{proposal_dropped}
use kvd.Raft.Reads.{read_index_request, confirm_reads}

-- The peers that check_quorum_active counts, itself included.
unfoldable pub count_active : ℕ → List (ℕ × Progress) → ℕ
count_active self [] = 0
count_active self ((id, p) ∷ prs) =
    if id == self || (p.recent_active && not p.is_learner)
    then suc (count_active self prs)
    else count_active self prs

unfoldable pub check_quorum_active : Raft → Bool
check_quorum_active r = leb (quorum r) (count_active r.id (r.prs ++ r.learner_prs))

unfoldable pub abort_leader_transfer : Raft → Raft
abort_leader_transfer r = record r { lead_transferee = 0 }

-- The loop of MsgProp over the entries, the first of them the `i`th. A change of the configuration is
-- blanked where one is pending.
unfoldable pub admit : ℕ → ℕ → List Entry → ℕ → ℕ → List Entry × ℕ
admit last applied [] i pending = ([], pending)
admit last applied (e ∷ es) i pending =
    if e.type == entry_conf_change
    then (if ltb applied pending
        then (let rest = admit last applied es (suc i) pending in
            (record { type = entry_normal; term = 0; index = 0; payload = [] } ∷ rest.0, rest.1))
        else (let rest = admit last applied es (suc i) (add64 (add64 last i) 1) in
            (e ∷ rest.0, rest.1)))
    else (let rest = admit last applied es (suc i) pending in (e ∷ rest.0, rest.1))

has_none : List Entry → Bool
has_none [] = true
has_none (e ∷ es) = false

unfoldable pub propose : Message → M Status
unfolding has_none
propose msg = do
  when (has_none msg.entries) (fail fatal)
  r ← get
  if not (is_some (lookup r.id r.prs))
      then pure proposal_dropped
      else if not (r.lead_transferee == 0)
      then pure proposal_dropped
      else (do
        last ← lift (RaftLog.last_index r.raft_log)
        let admitted : List Entry × ℕ =
            admit last r.raft_log.applied msg.entries 0 r.pending_conf_index
        modify (λ s. record s { pending_conf_index = admitted.1 })
        appended ← append_entry admitted.0
        if not appended then pure proposal_dropped else bcast_append >> pure okay)

-- A rejected append: the leader goes back to an earlier entry and tries again.
unfoldable pub handle_rejected : Message → Progress → M (Unit {0})
handle_rejected msg pr =
    let (decreased, p) : Bool × Progress =
      Progress.maybe_decreases_to pr msg.index msg.reject_hint in
    if decreased
    then modify
        (put_progress msg.from (if is_replicate p.state then Progress.become_probe p else p))
      >> send_append msg.from
    else done

-- What an accepted append makes of the state of a peer.
unfoldable pub advance_state : Message → Progress → M Progress
advance_state msg p =
    if is_probe p.state
    then pure (Progress.become_replicate p)
    else if is_snapshot p.state && Progress.need_snapshot_abort p
    then pure (Progress.become_probe p)
    else if is_replicate p.state
    then (lift (InFlights.free_to p.inflights msg.index) >>= λ f. pure (record p { inflights = f }))
    else pure p

-- `while (maybe_send_append(to, false))` for at most `fuel` rounds; the result tells whether the loop
-- came to its end.
unfoldable pub send_all : ℕ → ℕ → M Bool
send_all zero to = pure false
send_all (suc fuel) to =
    let rest = send_all fuel to in
    maybe_send_append to false >>= λ sent. if sent then rest else pure true

-- The rounds that are enough: the room of the window, and one that sends nothing.
unfoldable pub rounds : Progress → ℕ
rounds p = p.inflights.size + 2

unfoldable pub handle_accepted : Message → Progress → M (Unit {0})
handle_accepted msg pr =
    let (updated, p) : Bool × Progress = Progress.maybe_update pr msg.index in
    if not updated then modify (put_progress msg.from p) else (do
      p' ← advance_state msg p
      modify (put_progress msg.from p')
      committed ← maybe_commit
      if committed then bcast_append else when (Progress.is_paused pr) (send_append msg.from)
      finished ← send_all (rounds pr) msg.from
      r ← get
      when (msg.from == r.lead_transferee) (do
        now ← the_progress msg.from
        last ← lift (RaftLog.last_index r.raft_log)
        when (now.match_index == last) (send_timeout_now msg.from)))

unfoldable pub handle_app_resp : Message → M Status
handle_app_resp msg = do
  found ← the_progress msg.from
  let pr : Progress = record found { recent_active = true }
  modify (put_progress msg.from pr)
  if msg.reject then handle_rejected msg pr else handle_accepted msg pr
  pure okay

-- A slot of a full window is freed, so that the peer is not stuck.
unfoldable pub make_room : Progress → M Progress
make_room p =
    if is_replicate p.state && InFlights.is_full p.inflights
    then (lift (InFlights.free_first_one p.inflights) >>= λ f. pure (record p { inflights = f }))
    else pure p

unfoldable pub handle_heartbeat_resp : Message → M Status
handle_heartbeat_resp msg = do
  found ← the_progress msg.from
  pr ← make_room (Progress.resume (record found { recent_active = true }))
  modify (put_progress msg.from pr)
  r ← get
  last ← lift (RaftLog.last_index r.raft_log)
  when (ltb pr.match_index last) (send_append msg.from)
  confirm_reads msg

unfoldable pub handle_snap_status : Message → Progress → M Status
handle_snap_status msg pr = if not (is_snapshot pr.state) then pure okay else (do
  let p : Progress = Progress.become_probe (if msg.reject then Progress.snapshot_failure pr else pr)
  modify (put_progress msg.from (Progress.set_pause p))
  pure okay)

unfoldable pub handle_unreachable : Message → Progress → M Status
handle_unreachable msg pr =
    when (is_replicate pr.state) (modify (put_progress msg.from (Progress.become_probe pr)))
    >> pure okay

-- The end of the case MsgTransferLeader: the transfer to another node starts.
unfoldable pub start_transfer : ℕ → M Status
start_transfer to = do
  r ← get
  if to == r.id then pure okay else (do
    modify (λ s. record s { election_elapsed = 0; lead_transferee = to })
    pr ← the_progress to
    last ← lift (RaftLog.last_index r.raft_log)
    if pr.match_index == last then send_timeout_now to else send_append to
    pure okay)

unfoldable pub handle_transfer_leader : Message → Progress → M Status
handle_transfer_leader msg pr = do
  r ← get
  if pr.is_learner
      then pure okay
      else if not (r.lead_transferee == 0)
      then (if r.lead_transferee == msg.from
          then pure okay
          else modify abort_leader_transfer >> start_transfer msg.from)
      else start_transfer msg.from

-- The messages that need the progress of the sender.
unfoldable pub step_peer : Message → M Status
step_peer msg = do
  r ← get
  elim (get_progress r msg.from) [
    | none ↦ pure okay
    | some pr ↦ elim msg.type [
      | app_resp ↦ handle_app_resp msg
      | heartbeat_resp ↦ handle_heartbeat_resp msg
      | snap_status ↦ handle_snap_status msg pr
      | unreachable ↦ handle_unreachable msg pr
      | transfer_leader ↦ handle_transfer_leader msg pr
      | _ ↦ pure okay
    ]
  ]

unfoldable pub step_leader : Message → M Status
step_leader msg = elim msg.type [
  | beat ↦ bcast_heartbeat >> pure okay
  | check_quorum ↦
      get >>= λ r. when (not (check_quorum_active r)) (become_follower r.term 0) >> pure okay
  | prop ↦ propose msg
  | read_index ↦ read_index_request msg
  | _ ↦ step_peer msg
]
