-- ===== src/Node.antt =====
-- raft-kv/raft/node.h and node.cpp: RawNode, the interface of a node to its application.
-- The msgpack bytes of a change of the configuration are a parameter.
pub mod Boot
pub mod Cycle
use kvd.Base.{
  ℕ, suc, Bool, true, false, not, ◌&&◌, ◌||◌, List, [], ◌∷◌, ◌++◌, Option, none, some, ◌==◌, ltb,
  if◌then◌else◌, length, is_some, add64, Result, ok, err, fatal, ◌>>=◌, ◌>>◌, deref, map,
}
use kvd.Proto.{
  Entry, Message, MessageType, empty_message, Status, okay, invalid_argument, HardState, ConfState,
  empty_hard_state, is_empty_state, is_empty, entry_normal, entry_conf_change, is_local_msg,
  is_response_msg, hup, prop, transfer_leader, read_index, unreachable, snap_status,
}
use kvd.Storage
use kvd.Config.{Config}
use kvd.RaftLog
use kvd.RaftLog.{RaftLog}
use kvd.Raft.State.{Raft, M, get_progress}
use kvd.Raft.Replicate.{reduce_uncommitted_size}
use kvd.Raft.Roles.{become_follower}
use kvd.Raft.Step
use kvd.Raft.Members.{
  SoftState, soft_state, hard_state, nodes, learner_nodes, add_node_or_learner, remove_node,
}
use kvd.Raft.Start
use kvd.Ready
use kvd.Ready.{Ready, soft_equal, hard_equal, is_nil, last_entry, applied_cursor}

pub record PeerContext : Type 0 where
  pub id : ℕ
  pub context : List ℕ

-- ConfChangeAddNode and the values after it, in the order of the code; any other byte is `other`.
pub data ConfChangeType : Type 0 where
  add_node remove update_node add_learner_node : ConfChangeType
  other : ℕ → ConfChangeType

pub record ConfChange : Type 0 where
  pub id : ℕ
  pub conf_change_type : ConfChangeType
  pub node_id : ℕ
  pub context : List ℕ

pub record RawNode : Type 0 where
  pub raft : Raft
  pub prev_soft_state : SoftState
  pub prev_hard_state : HardState

-- A call on the node.
unfoldable pub on_raft : {A : Type 0} → M A → RawNode → Result (A × RawNode)
on_raft m n = m n.raft >>= λ p. ok (p.0, record n { raft = p.1 })

-- The end of both constructors.
unfoldable pub first_states : ℕ → Raft → RawNode
first_states last r = record {
  raft = r;
  prev_soft_state = soft_state r;
  prev_hard_state = if last == 0 then empty_hard_state else hard_state r;
}

-- restart_node
unfoldable pub restart : Config → (ℕ → ℕ) → Result RawNode
restart conf draws = deref conf.storage >>= λ st.
    Storage.last_index st >>= λ last. Start.new conf draws >>= λ r. ok (first_states last r)

unfoldable pub tick : RawNode → Result (Unit {0} × RawNode)
tick = on_raft Step.tick

unfoldable pub campaign : RawNode → Result (Status × RawNode)
campaign = on_raft (Step.step (record empty_message { type = hup }))

unfoldable pub propose : List ℕ → RawNode → Result (Status × RawNode)
propose payload n =
    on_raft
      (Step.step (record empty_message {
        type = prop;
        from = n.raft.id;
        entries = record { type = entry_normal; term = 0; index = 0; payload = payload } ∷ [];
      }))
      n

unfoldable pub step : Message → RawNode → Result (Status × RawNode)
step msg n =
    if is_local_msg msg.type
    then ok (invalid_argument "raft: cannot step raft local message", n)
    else if is_some (get_progress n.raft msg.from) || not (is_response_msg msg.type)
    then on_raft (Step.step msg) n
    else ok (invalid_argument "raft: cannot step as peer not found", n)

unfoldable pub ready : RawNode → Result (Ready × RawNode)
ready n = Ready.new n.raft n.prev_soft_state n.prev_hard_state >>= λ p.
    reduce_uncommitted_size p.0.committed_entries (record p.1 { msgs = [] }) >>= λ q.
    ok (p.0, record n { raft = q.1 })

-- A snapshot of the unstable log that is there and not empty.
has_snapshot : Raft → Bool
has_snapshot r = elim r.raft_log.unstable.snapshot [ none ↦ false | some s ↦ not (is_empty s) ]

unfoldable pub has_ready : RawNode → Result Bool
unfolding has_snapshot
has_ready n =
    let r : Raft = n.raft in
    if not (soft_equal (soft_state r) n.prev_soft_state)
    then ok true
    else if not (is_empty_state (hard_state r)) && not (hard_equal (hard_state r) n.prev_hard_state)
    then ok true
    else if has_snapshot r
    then ok true
    else if not (is_nil r.msgs) || not (is_nil r.raft_log.unstable.entries)
    then ok true
    else (RaftLog.has_next_entries r.raft_log >>= λ next.
        if next then ok true else ok (not (is_nil r.read_states)))

soft_or : Option SoftState → SoftState → SoftState
soft_or none prev = prev
soft_or (some s) prev = s

-- What advance does to the log.
unfoldable pub advance_log : Ready → RaftLog → Result RaftLog
advance_log rd l =
    let index : ℕ = applied_cursor rd in
    let applied : RaftLog = if ltb 0 index then RaftLog.applied_to l index else l in
    elim (last_entry rd.entries) [
      | none ↦ ok applied
      | some e ↦ RaftLog.stable_to applied e.index e.term
    ]
    >>= λ stable. ok (
        if not (is_empty rd.snapshot)
        then RaftLog.stable_snap_to stable rd.snapshot.metadata.index
        else stable)

unfoldable pub advance : Ready → RawNode → Result RawNode
unfolding soft_or
advance rd n = advance_log rd n.raft.raft_log >>= λ l. ok (record {
  raft = record n.raft {
    raft_log = l;
    read_states = if is_nil rd.read_states then n.raft.read_states else [];
  };
  prev_soft_state = soft_or rd.soft_state n.prev_soft_state;
  prev_hard_state = if is_empty_state rd.hard_state then n.prev_hard_state else rd.hard_state;
})

conf_state : Raft → ConfState
conf_state r = record { nodes = nodes r; learners = learner_nodes r }

change_members : ConfChange → RawNode → Result (Unit {0} × RawNode)
change_members cc n = elim cc.conf_change_type [
  | add_node ↦ on_raft (add_node_or_learner cc.node_id false) n
  | add_learner_node ↦ on_raft (add_node_or_learner cc.node_id true) n
  | remove ↦ on_raft (remove_node cc.node_id) n
  | update_node ↦ ok (tt, n)
  | other t ↦ err fatal
]

unfoldable pub apply_conf_change : ConfChange → RawNode → Result (ConfState × RawNode)
unfolding conf_state change_members
apply_conf_change cc n =
    if cc.node_id == 0
    then ok (conf_state n.raft, n)
    else (change_members cc n >>= λ p. ok (conf_state p.1.raft, p.1))

-- The status of the step is only logged.
dropped : M Status → RawNode → Result (Unit {0} × RawNode)
dropped m n = on_raft m n >>= λ p. ok (tt, p.1)

unfoldable pub transfer_leadership : ℕ → ℕ → RawNode → Result (Unit {0} × RawNode)
unfolding dropped
transfer_leadership lead transferee =
    dropped
      (Step.step (record empty_message { type = transfer_leader; from = transferee; to = lead }))

-- The type of the entry is the number of MsgReadIndex.
unfoldable pub read_index_of : List ℕ → RawNode → Result (Status × RawNode)
read_index_of rctx = on_raft (
    Step.step (record empty_message {
      type = read_index;
      entries = record { type = 15; term = 0; index = 0; payload = rctx } ∷ [];
    }))

unfoldable pub report_unreachable : ℕ → RawNode → Result (Unit {0} × RawNode)
unfolding dropped
report_unreachable id = dropped (Step.step (record empty_message { type = unreachable; from = id }))

-- SnapshotFailure
abbrev snapshot_failure : ℕ
snapshot_failure = 2

unfoldable pub report_snapshot : ℕ → ℕ → RawNode → Result (Unit {0} × RawNode)
unfolding dropped
report_snapshot id status = dropped (
    Step.step
      (record empty_message { type = snap_status; from = id; reject = status == snapshot_failure }))
