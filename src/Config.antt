-- ===== src/Config.antt =====
-- raft-kv/raft/config.h and config.cpp: the parameters of a node.
pub mod Validity
use kvd.Base.{
  ℕ, Bool, true, false, not, ◌&&◌, List, Option, none, some, ◌==◌, leb, if◌then◌else◌, is_some,
  u64_max,
}
use kvd.Proto.{Status, okay, invalid_argument}
use kvd.Storage.{MemoryStorage}
use kvd.ReadOnly.{ReadOnlyOption, safe, lease_based}

-- A null `storage` is `none`.
pub record Config : Type 0 where
  pub id : ℕ
  pub peers : List ℕ
  pub learners : List ℕ
  pub election_tick : ℕ
  pub heartbeat_tick : ℕ
  pub storage : Option MemoryStorage
  pub applied : ℕ
  pub max_size_per_msg : ℕ
  pub max_committed_size_per_ready : ℕ
  pub max_uncommitted_entries_size : ℕ
  pub max_inflight_msgs : ℕ
  pub check_quorum : Bool
  pub pre_vote : Bool
  pub read_only_option : ReadOnlyOption
  pub disable_proposal_forwarding : Bool

unfoldable pub is_lease_based : ReadOnlyOption → Bool
is_lease_based lease_based = true
is_lease_based safe = false

-- The defaults that validate fills in.
unfoldable pub with_defaults : Config → Config
with_defaults c = record c {
  max_uncommitted_entries_size =
      if c.max_uncommitted_entries_size == 0 then u64_max else c.max_uncommitted_entries_size;
  max_committed_size_per_ready =
      if c.max_committed_size_per_ready == 0
      then c.max_size_per_msg
      else c.max_committed_size_per_ready;
}

-- The configuration after the call may have its defaults though the status is an error.
unfoldable pub validate : Config → Status × Config
validate c =
    if c.id == 0
    then (invalid_argument "cannot use none as id", c)
    else if c.heartbeat_tick == 0
    then (invalid_argument "heartbeat tick must be greater than 0", c)
    else if leb c.election_tick c.heartbeat_tick
    then (invalid_argument "election tick must be greater than heartbeat tick", c)
    else if not (is_some c.storage)
    then (invalid_argument "storage cannot be nil", c)
    else if c.max_inflight_msgs == 0
    then (invalid_argument "max inflight messages must be greater than 0", with_defaults c)
    else if is_lease_based c.read_only_option && not c.check_quorum
    then (
      invalid_argument "check_quorum must be enabled when read_only_option is ReadOnlyLeaseBased",
      with_defaults c,
    )
    else (okay, with_defaults c)
