-- ===== src/Driver.antt =====
-- raft-kv/server/raft_node.h and raft_node.cpp: RaftNode, which saves what its node hands out, sends its
-- messages and applies its committed entries to the store. The storage of the driver is the one that
-- the node's log holds. The handlers that the store's thread runs in order are run at once; the calls
-- of the transport are listed. msgpack and the file of a snapshot are parameters.
pub mod Applying
pub mod Trimming
pub mod Starting
pub mod Restart
pub mod Durable
use kvd.Base.{
  ℕ, ◌-◌, Bool, true, false, not, List, [], ◌∷◌, ◌++◌, Option, none, some, ltb, leb, ◌==◌,
  if◌then◌else◌, length, drop, erase_front, add64, sub64, Result, ok, err, fatal, ◌>>=◌, ◌>>◌,
  check,
}
use kvd.Proto.{
  Entry, Message, Snapshot, ConfState, HardState, Status, is_ok, is_empty, entry_normal,
  entry_conf_change, empty_snapshot,
}
use kvd.Storage
use kvd.Storage.{MemoryStorage}
use kvd.Ready.{Ready, contains_updates, is_nil, last_entry}
use kvd.Node
use kvd.Node.{
  RawNode, ConfChange, ConfChangeType, add_node, remove, update_node, add_learner_node, other,
}
use kvd.Wal
use kvd.Wal.{Codec, Wal, WalSnapshot}
use kvd.Wal.Saving
use kvd.Store
use kvd.Store.{RedisStore, RaftCommit, read_commit}

-- What is asked of the transport.
pub data PeerCall : Type 0 where
  add_peer : ℕ → List ℕ → PeerCall
  remove_peer : ℕ → PeerCall

-- msgpack, and what the file system answers to the file of a snapshot.
pub record Outside : Type 0 where
  pub codec : Codec
  pub unpack_commit : List ℕ → Option RaftCommit
  pub unpack_change : List ℕ → Option ConfChange
  pub pack_map : List (List ℕ × List ℕ) → List ℕ
  pub unpack_map : List ℕ → Result (Option (List (List ℕ × List ℕ)))
  pub save_file : Snapshot → Status

-- `saved` are the snapshots that the server wrote to disk, the first one first.
pub record RaftNode : Type 0 where
  pub id : ℕ
  pub last_index : ℕ
  pub conf_state : ConfState
  pub snapshot_index : ℕ
  pub applied_index : ℕ
  pub node : RawNode
  pub redis_server : RedisStore
  pub wal : Wal
  pub saved : List Snapshot
  pub peer_calls : List PeerCall
  pub sent : List Message

abbrev pub default_snap_count : ℕ
default_snap_count = 100000

abbrev pub snapshot_catch_up_entries : ℕ
snapshot_catch_up_entries = 100000

unfoldable pub storage : RaftNode → MemoryStorage
storage d = d.node.raft.raft_log.storage

unfoldable pub set_storage : MemoryStorage → RaftNode → RaftNode
set_storage st d = record d {
  node = record d.node {
    raft = record d.node.raft { raft_log = record d.node.raft.raft_log { storage = st } };
  };
}

-- The output vector of the call is empty.
unfoldable pub entries_to_apply : RaftNode → List Entry → Result (List Entry)
unfolding erase_front
entries_to_apply d [] = ok []
entries_to_apply d (e ∷ es) =
    let from : ℕ = add64 (sub64 d.applied_index e.index) 1 in
    check (leb e.index (add64 d.applied_index 1)) fatal
    >> (if ltb from (length (e ∷ es)) then erase_front from (e ∷ es) else ok [])

-- What the transport is asked for, unless the node itself is removed.
unfoldable pub tell_peers : ConfChange → RaftNode → Option RaftNode
tell_peers cc d = elim cc.conf_change_type [
  | add_node ↦ some (
      if is_nil cc.context
      then d
      else record d { peer_calls = d.peer_calls ++ (add_peer cc.node_id cc.context ∷ []) })
  | remove ↦
      if cc.node_id == d.id
      then none
      else some (record d { peer_calls = d.peer_calls ++ (remove_peer cc.node_id ∷ []) })
  | update_node ↦ some d
  | add_learner_node ↦ some d
  | other t ↦ some d
]

module _ (o : Outside) where
  unfoldable pub save_snap : Snapshot → RaftNode → Result (Status × RaftNode)
  save_snap snap d =
      let wal_snapshot : WalSnapshot = record {
        index = snap.metadata.index;
        term = snap.metadata.term;
      } in
      let status : Status = o.save_file snap in
      let logged : RaftNode = record d { wal = Saving.save_snapshot o.codec wal_snapshot d.wal } in
      if is_ok status
      then ok (status, record logged { saved = d.saved ++ (snap ∷ []) })
      else err fatal

  unfoldable pub publish_snapshot : Snapshot → RaftNode → Result RaftNode
  publish_snapshot snap d =
      if is_empty snap
      then ok d
      else (check (not (leb snap.metadata.index d.applied_index)) fatal
          >> (Store.recover_from_snapshot o.unpack_map snap.payload d.redis_server >>= λ p.
              if is_ok p.0
              then ok (record d {
                conf_state = snap.metadata.conf_state;
                snapshot_index = snap.metadata.index;
                applied_index = snap.metadata.index;
                redis_server = p.1;
              })
              else err fatal))

  -- One change of the configuration. The Boolean tells whether the loop of publish_entries goes on; a
  -- change that cannot be unpacked leaves the applied index behind.
  unfoldable pub publish_change : Entry → RaftNode → Result (Bool × RaftNode)
  publish_change e d = elim (o.unpack_change e.payload) [
    | none ↦ ok (true, d)
    | some cc ↦ Node.apply_conf_change cc d.node >>= λ p.
        let changed : RaftNode = record d { conf_state = p.0; node = p.1 } in
        elim (tell_peers cc changed) [
          | none ↦ ok (false, changed)
          | some told ↦ ok (true, record told { applied_index = e.index })
        ]
  ]

  -- One round of the loop of publish_entries.
  unfoldable pub publish_entry : Entry → RaftNode → Result (Bool × RaftNode)
  publish_entry e d =
      if e.type == entry_normal
      then (if is_nil e.payload
          then ok (true, record d { applied_index = e.index })
          else (read_commit o.unpack_commit e d.redis_server >>= λ s.
              ok (true, record d { redis_server = s; applied_index = e.index })))
      else if e.type == entry_conf_change
      then publish_change e d
      else err fatal

  unfoldable pub publish_entries : List Entry → RaftNode → Result (Bool × RaftNode)
  publish_entries [] d = ok (true, d)
  publish_entries (e ∷ es) d = publish_entry e d >>= λ p.
      let rest = publish_entries es p.1 in if p.0 then rest else ok (false, p.1)

  unfoldable pub maybe_trigger_snapshot : RaftNode → Result RaftNode
  maybe_trigger_snapshot d =
      if leb (sub64 d.applied_index d.snapshot_index) default_snap_count then ok d else (do
        let payload : List ℕ = Store.get_snapshot o.pack_map d.redis_server
        created ← Storage.create_snapshot (storage d) d.applied_index (some d.conf_state) payload
        check (is_ok created.0) fatal
        stored ← save_snap created.1 (set_storage created.2 d)
        check (is_ok stored.0) fatal
        let compact_index : ℕ =
            if ltb snapshot_catch_up_entries d.applied_index
            then sub64 d.applied_index snapshot_catch_up_entries
            else 1
        compacted ← Storage.compact (storage stored.1) compact_index
        check (is_ok compacted.0) fatal
        ok (record (set_storage compacted.1 stored.1) { snapshot_index = d.applied_index }))

  -- A snapshot that came with a Ready. The status of the storage is not looked at.
  unfoldable pub receive_snapshot : Snapshot → RaftNode → Result RaftNode
  receive_snapshot snap d =
      if is_empty snap
      then ok d
      else (save_snap snap d >>= λ p.
          publish_snapshot snap (set_storage (Storage.apply_snapshot (storage p.1) snap).1 p.1))

  -- The status of the storage is not looked at.
  unfoldable pub store_entries : List Entry → RaftNode → Result RaftNode
  store_entries es d =
      if is_nil es then ok d else (Storage.append (storage d) es >>= λ p. ok (set_storage p.1 d))

  -- Whether the loop came to its end is not looked at.
  unfoldable pub apply_committed : List Entry → RaftNode → Result RaftNode
  apply_committed es d = entries_to_apply d es >>= λ ents. publish_entries ents d >>= λ p. ok p.1

  -- What is done with one Ready.
  unfoldable pub handle_ready : Ready → RaftNode → Result RaftNode
  handle_ready rd d = do
    let logged : RaftNode = record d { wal = Saving.save o.codec rd.hard_state rd.entries d.wal }
    received ← receive_snapshot rd.snapshot logged
    stored ← store_entries rd.entries received
    let delivered : RaftNode = record stored { sent = stored.sent ++ rd.messages }
    applied ← apply_committed rd.committed_entries delivered
    trimmed ← maybe_trigger_snapshot applied
    after ← Node.advance rd trimmed.node
    ok (record trimmed { node = after })

  -- One round of the loop of pull_ready_events. The Boolean tells whether there may be another one.
  unfoldable pub pull_ready_event : RaftNode → Result (Bool × RaftNode)
  pull_ready_event d = do
    more ← Node.has_ready d.node
    if more
        then (Node.ready d.node >>= λ p.
            let taken : RaftNode = record d { node = p.1 } in
            if contains_updates p.0
            then (handle_ready p.0 taken >>= λ done. ok (true, done))
            else ok (false, taken))
        else ok (false, d)

-- schedule: the store starts from the snapshot of the storage.
unfoldable pub schedule : RaftNode → RaftNode
schedule d =
    let snap : Snapshot = (Storage.snapshot (storage d)).1 in
    record d {
      conf_state = snap.metadata.conf_state;
      snapshot_index = snap.metadata.index;
      applied_index = snap.metadata.index;
    }
