-- ===== src/Config/Validity.antt =====
-- config.cpp: the configurations that validate accepts.
use kvd.Base.{◌<◌, ◌≡◌, ◌↔◌, true, false, not, ◌&&◌, arith, is_some}
use kvd.Proto.{okay}
use kvd.Config.{Config, validate, is_lease_based}

-- What a configuration must satisfy.
pub record IsValid (c : Config) : Type 0 where
  pub has_id : 0 < c.id
  pub ticks : 0 < c.heartbeat_tick
  pub order : c.heartbeat_tick < c.election_tick
  pub has_storage : is_some c.storage ≡ true
  pub inflight : 0 < c.max_inflight_msgs
  pub lease : (is_lease_based c.read_only_option && not c.check_quorum) ≡ false

-- validate accepts a configuration exactly if its id is not 0, an election takes more ticks than a
-- heartbeat, which takes some, it has a storage and room for messages in flight, and reads on a lease
-- come with the check of the quorum.
pub validate-IsValid : (c : Config) → ((validate c).0 ≡ okay) ↔ IsValid c
unfolding validate
validate-IsValid c = (
  λ e. record {
    has_id = ground (arith, e);
    ticks = ground (arith, e);
    order = ground (arith, e);
    has_storage = ground (arith, e);
    inflight = ground (arith, e);
    lease = ground (arith, e);
  },
  λ v. ground (arith, v),
)
