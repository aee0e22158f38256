-- ===== src/Driver/Durable.antt =====
-- raft_node.cpp: what a save left on disk is in the storage after the server starts again.
use kvd.Base.{◌≡◌, false, List, [], ◌∷◌, none}
use kvd.Proto.{Entry, empty_hard_state}
use kvd.Storage
use kvd.Storage.{MemoryStorage}
use kvd.Storage.View
use kvd.Storage.Append.{Writes}
use kvd.Wal.{Wal, WalFile, WalSnapshot, Progress}

-- A log of one file, as it is opened.
abbrev opened : WalSnapshot → WalFile → Wal
opened start file = record {
  state = empty_hard_state;
  start = start;
  enti = 0;
  earlier = [];
  last = file;
}

-- Where read_all starts.
abbrev nothing_read : Progress
nothing_read = record {
  hs = empty_hard_state;
  ents = [];
  enti = 0;
  matchsnap = false;
  cut = none;
  ended = false;
}

-- The storage behind the snapshot holds the entries.
abbrev pub Restored : MemoryStorage → List Entry → MemoryStorage → Type 0
Restored st [] u = u.entries ≡ st.entries
Restored st (e ∷ es) u = Writes st e.index (e ∷ es) u
