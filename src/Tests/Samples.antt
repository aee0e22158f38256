-- ===== src/Tests/Samples.antt =====
-- A storage compacted up to 2 that holds 3 to 5, a log that continues it with the unstable entries 6
-- and 7, and their parts.
use kvd.Base.{ℕ, [], ◌∷◌, none, inl, arith}
use kvd.Proto.{Entry, entry_normal, Snapshot, empty_snapshot, empty_hard_state}
use kvd.Storage
use kvd.Storage.{MemoryStorage}
use kvd.Unstable
use kvd.Unstable.{Unstable}
use kvd.RaftLog.{RaftLog}
use kvd.RaftLog

abbrev pub entry : ℕ → ℕ → Entry
entry index term = record { type = entry_normal; term = term; index = index; payload = 1 ∷ 2 ∷ [] }

abbrev pub storage : MemoryStorage
storage = record {
  hard_state = empty_hard_state;
  snapshot = empty_snapshot;
  entries = entry 2 1 ∷ entry 3 1 ∷ entry 4 2 ∷ entry 5 2 ∷ [];
}

abbrev pub unstable : Unstable
unstable = record { snapshot = none; entries = entry 6 2 ∷ entry 7 3 ∷ []; offset = 6 }

abbrev pub log : RaftLog
log = record {
  storage = storage;
  unstable = unstable;
  committed = 4;
  applied = 3;
  max_next_ents_size = 1000;
}

abbrev pub snapshot_at_nine : Snapshot
snapshot_at_nine = record empty_snapshot {
  metadata = record {
    conf_state = record { nodes = 1 ∷ 2 ∷ []; learners = [] };
    index = 9;
    term = 4;
  };
}

pub storage-IsValid : Storage.View.IsValid storage
storage-IsValid = record {
  nonempty = omega arith;
  contiguous = ground arith;
  bounded = omega arith;
}

pub unstable-IsValid : Unstable.View.IsValid unstable
unstable-IsValid = record { contiguous = ground arith; bounded = omega arith; snapshot_before = tt }

pub log-IsValid : RaftLog.View.IsValid log
log-IsValid = record {
  storage = storage-IsValid;
  unstable = unstable-IsValid;
  joined = (omega arith, omega arith, inl (omega arith));
  committed_from = omega arith;
  committed_to = omega arith;
}
