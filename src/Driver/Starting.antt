-- ===== src/Driver/Starting.antt =====
-- raft_node.cpp: how the server starts: the constructor of RaftNode with replay_WAL, and schedule up to
-- the timer.
use kvd.Base.{
  ℕ, suc, ◌*◌, true, false, List, [], ◌∷◌, Option, none, some, Result, ok, err, fatal, undefined,
  ◌>>=◌, ◌>>◌, check,
}
use kvd.Proto.{Entry, Snapshot, HardState, Status, okay, not_found, is_ok, empty_hard_state}
use kvd.Storage
use kvd.Storage.{MemoryStorage}
use kvd.Config
use kvd.Config.{Config}
use kvd.ReadOnly.{safe}
use kvd.Ready.{last_entry}
use kvd.Node
use kvd.Node.{RawNode, PeerContext, ConfChange}
use kvd.Node.Boot
use kvd.Wal.{Wal, WalSnapshot}
use kvd.Wal.Saving
use kvd.Wal.Reading.{read_all}
use kvd.Wal.Opening.{NameReader, Directory, open_log}
use kvd.Snapshots
use kvd.Snapshots.{SnapshotCodec, SnapFile}
use kvd.Store
use kvd.Store.{RedisStore}
use kvd.Driver.{Outside, RaftNode, schedule}

-- The two directories of a server; that of the log may not be there.
pub record Disk : Type 0 where
  pub snaps : List SnapFile
  pub wals : Option Directory

-- What replay_WAL leaves behind.
pub record Replayed : Type 0 where
  pub storage : MemoryStorage
  pub wal : Wal
  pub snaps : List SnapFile
  pub last_index : ℕ
  pub snap_data : List ℕ

-- The entries behind the pointers that were read. A null pointer, which the code keeps until it is used, is
-- an error at once.
unfoldable pub all_entries : List (Option Entry) → Result (List Entry)
all_entries [] = ok []
all_entries (none ∷ ents) = err undefined
all_entries (some e ∷ ents) = all_entries ents >>= λ es. ok (e ∷ es)

-- A snapshot that was not found is the empty one.
unfoldable pub load_snapshot :
    Status × Snapshot × List SnapFile
    → MemoryStorage
    → Result (Snapshot × List SnapFile × MemoryStorage)
load_snapshot (okay, snap, snaps) st = ok (snap, snaps, (Storage.apply_snapshot st snap).1)
load_snapshot (not_found message, snap, snaps) st = ok (snap, snaps, st)
load_snapshot (_, snap, snaps) st = err fatal

-- The end of replay_WAL: the data of the snapshot is kept if the log has no entries.
unfoldable pub kept : Snapshot → List SnapFile → Wal → MemoryStorage → Option Entry → Replayed
kept snap snaps wal st (some e) = record {
  storage = st;
  wal = wal;
  snaps = snaps;
  last_index = e.index;
  snap_data = [];
}
kept snap snaps wal st none = record {
  storage = st;
  wal = wal;
  snaps = snaps;
  last_index = 0;
  snap_data = snap.payload;
}

-- What replay_WAL has read goes to the storage, the statuses of which are not looked at.
unfoldable pub store_log :
    Snapshot × List SnapFile × MemoryStorage
    → HardState × List (Option Entry) × Wal
    → Result Replayed
store_log (snap, snaps, st) (hs, ents, wal) = all_entries ents >>= λ es.
    Storage.append (Storage.set_hard_state st hs) es >>= λ stored.
    ok (kept snap snaps wal stored.1 (last_entry es))

-- msgpack for snapshots and changes of the configuration, the names of files, and the name that printf makes
-- of two zeros.
module _ (o : Outside) (sc : SnapshotCodec) (pack_change : ConfChange → List ℕ) (r : NameReader)
    (first_name : List ℕ) where
  unfoldable pub open_wal : Option Directory → Snapshot → Result Wal
  open_wal wals snap =
      let start : WalSnapshot = record { index = snap.metadata.index; term = snap.metadata.term } in
      elim wals [
        | none ↦ open_log r ((first_name, Saving.create o.codec) ∷ []) start
        | some files ↦ open_log r files start
      ]

  unfoldable pub read_log :
      Option Directory → Snapshot × List SnapFile × MemoryStorage → Result Replayed
  read_log wals loaded = open_wal wals loaded.0 >>= λ opened.
      read_all o.codec opened empty_hard_state [] >>= store_log loaded

  unfoldable pub replay_wal : Disk → MemoryStorage → Result Replayed
  replay_wal disk st = load_snapshot (Snapshots.load sc disk.snaps) st >>= read_log disk.wals

  -- The configuration that the constructor fills in.
  unfoldable pub server_config : ℕ → MemoryStorage → Config
  server_config id st = record {
    id = id;
    peers = [];
    learners = [];
    election_tick = 10;
    heartbeat_tick = 1;
    storage = some st;
    applied = 0;
    max_size_per_msg = 1024 * 1024;
    max_committed_size_per_ready = 0;
    max_uncommitted_entries_size = 1073741824;
    max_inflight_msgs = 256;
    check_quorum = true;
    pre_vote = true;
    read_only_option = safe;
    disable_proposal_forwarding = false;
  }

  -- The peers have the numbers from `id` on.
  unfoldable pub peer_contexts : ℕ → List (List ℕ) → List PeerContext
  peer_contexts id [] = []
  peer_contexts id (host ∷ hosts) = record { id = id; context = [] } ∷ peer_contexts (suc id) hosts

  -- The end of the constructor.
  unfoldable pub make_node : Option Directory → Config → List (List ℕ) → (ℕ → ℕ) → Result RawNode
  make_node wals c hosts draws =
      let (status, valid) = Config.validate c in
      check (is_ok status) fatal >> elim wals [
        | some files ↦ Node.restart valid draws
        | none ↦ Boot.start pack_change valid (peer_contexts 1 hosts) draws
      ]

  -- The constructor and schedule, up to the start of the timer.
  unfoldable pub start_server : ℕ → List (List ℕ) → Disk → (ℕ → ℕ) → Result RaftNode
  start_server id hosts disk draws = do
    replayed ← replay_wal disk Storage.new
    node ← make_node disk.wals (server_config id replayed.storage) hosts draws
    redis_server ← Store.new o.unpack_map id replayed.snap_data
    ok (
        schedule (record {
          id = id;
          last_index = replayed.last_index;
          conf_state = record { nodes = []; learners = [] };
          snapshot_index = 0;
          applied_index = 0;
          node = node;
          redis_server = redis_server;
          wal = replayed.wal;
          saved = [];
          peer_calls = [];
          sent = [];
        }))
