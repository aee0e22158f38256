-- ===== src/Raft/Step.antt =====
-- raft.cpp: step as a whole, and the ticks of the clock.
use kvd.Base.{ℕ, Bool, not, ◌&&◌, List, [], ◌∷◌, ◌==◌, ltb, leb, if◌then◌else◌, add32, add64, fatal}
use kvd.Proto.{
  Entry, Message, MessageType, empty_message, okay, Status, is_ok, hup, beat, entry_conf_change,
}
use kvd.RaftLog
use kvd.Raft.State.{
  Raft, M, ◌>>=◌, ◌>>◌, pure, done, get, modify, fail, lift, when, promotable, is_leader,
  StepFunction, TickFunction,
}
use kvd.Raft.Roles.{campaign, pre_election, election}
use kvd.Raft.Follower.{step_follower, step_candidate}
use kvd.Raft.Election.{check_term, handle_vote}
use kvd.Raft.Leader.{step_leader, abort_leader_transfer}

-- The changes of the configuration among the entries, a uint32_t.
unfoldable pub num_of_pending_conf : List Entry → ℕ
num_of_pending_conf [] = 0
num_of_pending_conf (e ∷ es) =
    if e.type == entry_conf_change then add32 (num_of_pending_conf es) 1 else num_of_pending_conf es

-- The case MsgHup of step.
unfoldable pub handle_hup : M (Unit {0})
handle_hup = do
  r ← get
  if is_leader r.state then done else (do
    let l : RaftLog.RaftLog = r.raft_log
    (status, es) ←
        lift (RaftLog.slice l (add64 l.applied 1) (add64 l.committed 1) RaftLog.unlimited [])
    when (not (is_ok status)) (fail fatal)
    if ltb 0 (num_of_pending_conf es) && ltb l.applied l.committed
        then done
        else campaign (if r.pre_vote then pre_election else election))

-- `step_(msg)`
unfoldable pub call_step : StepFunction → Message → M Status
call_step StepFunction.step_follower = step_follower
call_step StepFunction.step_candidate = step_candidate
call_step StepFunction.step_leader = step_leader

-- The switch of step.
unfoldable pub dispatch : Message → M Status
dispatch msg = elim msg.type [
  | hup ↦ handle_hup >> pure okay
  | MessageType.vote ↦ handle_vote msg >> pure okay
  | MessageType.pre_vote ↦ handle_vote msg >> pure okay
  | _ ↦ get >>= λ r. call_step r.step msg
]

unfoldable pub step : Message → M Status
step msg = do goes_on ← check_term msg; if goes_on then dispatch msg else pure okay

unfoldable pub past_election_timeout : Raft → Bool
past_election_timeout r = leb r.randomized_election_timeout r.election_elapsed

-- A message that the node sends to itself; its answer is dropped.
unfoldable pub step_self : MessageType → M (Unit {0})
step_self type = do r ← get; status ← step (record empty_message { from = r.id; type = type }); done

unfoldable pub tick_election : M (Unit {0})
tick_election = do
  modify (λ s. record s { election_elapsed = add32 s.election_elapsed 1 })
  r ← get
  when (promotable r && past_election_timeout r)
      (do modify (λ s. record s { election_elapsed = 0 }); step_self hup)

-- The part of tick_heartbeat that is done once in an election timeout.
unfoldable pub check_leadership : M (Unit {0})
check_leadership = do
  modify (λ s. record s { election_elapsed = 0 })
  r ← get
  when r.check_quorum (step_self MessageType.check_quorum)
  s ← get
  when (is_leader s.state && not (s.lead_transferee == 0)) (modify abort_leader_transfer)

unfoldable pub tick_heartbeat : M (Unit {0})
tick_heartbeat = do
  modify (λ s. record s {
    heartbeat_elapsed = add32 s.heartbeat_elapsed 1;
    election_elapsed = add32 s.election_elapsed 1;
  })
  r ← get
  when (leb r.election_timeout r.election_elapsed) check_leadership
  s ← get
  when (is_leader s.state && leb s.heartbeat_timeout s.heartbeat_elapsed)
      (do modify (λ t. record t { heartbeat_elapsed = 0 }); step_self beat)

call_tick : TickFunction → M (Unit {0})
call_tick TickFunction.tick_election = tick_election
call_tick TickFunction.tick_heartbeat = tick_heartbeat

unfoldable pub tick : M (Unit {0})
unfolding call_tick
tick = do r ← get; call_tick r.tick
