-- ===== src/Proto.antt =====
-- raft-kv/raft/proto.h and proto.cpp: the data that nodes exchange and store, and Status of
-- raft-kv/common/status.h. A payload is its list of bytes.
pub mod Size
use kvd.Base.{ℕ, Bool, true, false, List, [], ◌==◌, ◌&&◌, ◌||◌}
use Prim.Native.String.{String}

-- `EntryType` is a uint8_t with these values.
abbrev pub entry_normal : ℕ
entry_normal = 0

abbrev pub entry_conf_change : ℕ
entry_conf_change = 1

pub record Entry : Type 0 where
  pub type : ℕ
  pub term : ℕ
  pub index : ℕ
  pub payload : List ℕ

-- The default constructor.
abbrev pub empty_entry : Entry
empty_entry = record { type = entry_normal; term = 0; index = 0; payload = [] }

pub record ConfState : Type 0 where
  pub nodes : List ℕ
  pub learners : List ℕ

pub record SnapshotMetadata : Type 0 where
  pub conf_state : ConfState
  pub index : ℕ
  pub term : ℕ

pub record Snapshot : Type 0 where
  pub payload : List ℕ
  pub metadata : SnapshotMetadata

abbrev pub empty_snapshot : Snapshot
empty_snapshot = record {
  payload = [];
  metadata = record { conf_state = record { nodes = []; learners = [] }; index = 0; term = 0 };
}

unfoldable pub is_empty : Snapshot → Bool
is_empty s = s.metadata.index == 0

pub record HardState : Type 0 where
  pub term : ℕ
  pub vote : ℕ
  pub commit : ℕ

abbrev pub empty_hard_state : HardState
empty_hard_state = record { term = 0; vote = 0; commit = 0 }

unfoldable pub is_empty_state : HardState → Bool
is_empty_state hs = hs.term == 0 && hs.vote == 0 && hs.commit == 0

-- The message types 0 to 18; a byte outside them is `other`.
pub data MessageType : Type 0 where
  hup beat prop app app_resp vote vote_resp snap heartbeat heartbeat_resp : MessageType
  unreachable snap_status check_quorum transfer_leader timeout_now : MessageType
  read_index read_index_resp pre_vote pre_vote_resp : MessageType
  other : ℕ → MessageType

pub record Message : Type 0 where
  pub type : MessageType
  pub to : ℕ
  pub from : ℕ
  pub term : ℕ
  pub log_term : ℕ
  pub index : ℕ
  pub entries : List Entry
  pub commit : ℕ
  pub snapshot : Snapshot
  pub reject : Bool
  pub reject_hint : ℕ
  pub context : List ℕ

-- The default constructor.
abbrev pub empty_message : Message
empty_message = record {
  type = hup;
  to = 0;
  from = 0;
  term = 0;
  log_term = 0;
  index = 0;
  entries = [];
  commit = 0;
  snapshot = empty_snapshot;
  reject = false;
  reject_hint = 0;
  context = [];
}

unfoldable pub is_local_msg : MessageType → Bool
is_local_msg hup = true
is_local_msg beat = true
is_local_msg unreachable = true
is_local_msg snap_status = true
is_local_msg check_quorum = true
is_local_msg _ = false

unfoldable pub is_response_msg : MessageType → Bool
is_response_msg app_resp = true
is_response_msg vote_resp = true
is_response_msg heartbeat_resp = true
is_response_msg unreachable = true
is_response_msg pre_vote_resp = true
is_response_msg _ = false

-- `kv::Status`: the codes, with their messages.
pub data Status : Type 0 where
  okay : Status
  not_found not_supported invalid_argument io_error : String → Status

unfoldable pub is_ok : Status → Bool
is_ok okay = true
is_ok _ = false
