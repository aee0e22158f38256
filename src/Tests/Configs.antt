-- ===== src/Tests/Configs.antt =====
-- A configuration that is accepted.
use kvd.Base.{◌≡◌, ◌↔◌, false, [], some}
use kvd.Proto.{okay}
use kvd.ReadOnly.{safe}
use kvd.Config.{Config, validate}
use kvd.Config.Validity.{IsValid, validate-IsValid}
use kvd.Tests.Samples.{storage}

abbrev pub config : Config
config = record {
  id = 1;
  peers = [];
  learners = [];
  election_tick = 10;
  heartbeat_tick = 1;
  storage = some storage;
  applied = 0;
  max_size_per_msg = 1000;
  max_committed_size_per_ready = 0;
  max_uncommitted_entries_size = 0;
  max_inflight_msgs = 4;
  check_quorum = false;
  pre_vote = false;
  read_only_option = safe;
  disable_proposal_forwarding = false;
}

validate_example : ((validate config).0 ≡ okay) ↔ IsValid config
validate_example = validate-IsValid config
