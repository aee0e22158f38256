-- ===== src/Tests/Drivers.antt =====
-- Runs of the driver: committed entries, one of which is applied already, and a log that is long enough
-- for a snapshot.
use kvd.Base.{ℕ, zero, suc, ◌≡◌, refl, List, [], ◌∷◌, some, none, ok, arith, length, Returns}
use kvd.Proto.{Entry, empty_hard_state, empty_snapshot, okay, is_ok}
use kvd.Storage.{MemoryStorage}
use kvd.Unstable.Entries.{Contiguous}
use kvd.Raft.State.{follower}
use kvd.Store.{RedisStore, RaftCommit, read_commit, apply_commit, set_key, k_commit_set}
use kvd.Ready.{is_nil}
use kvd.Driver.{Outside, RaftNode, storage, apply_committed, maybe_trigger_snapshot}
use kvd.Driver.Applying.{newer, Normal, replayed, apply_committed-once}
use kvd.Driver.Trimming.{Trims, maybe_trigger_snapshot-Trims}
use kvd.Driver.Trimming
use kvd.Tests.Samples.{entry, log}
use kvd.Tests.Nodes.{node}
use kvd.Wal.{Codec, Wal}

abbrev store : List (List ℕ × List ℕ) → RedisStore
store key_values = record {
  node_id = 1;
  key_values = key_values;
  next_request_id = 0;
  pending_requests = [];
  proposals = [];
  answers = [];
}

-- Every entry is a commit of another node that sets the key 5.
abbrev commit : RaftCommit
commit = record {
  node_id = 2;
  commit_id = 0;
  redis_data = record { type = k_commit_set; strs = (5 ∷ []) ∷ (7 ∷ []) ∷ [] };
}

-- Only the bytes of a snapshot's place are packed here.
abbrev codec : Codec
codec = record {
  pack_entry = λ e. [];
  pack_state = λ hs. [];
  pack_snapshot = λ s. s.index ∷ s.term ∷ [];
  unpack_entry = λ bytes. none;
  unpack_state = λ bytes. none;
  unpack_snapshot = λ bytes. none;
  compute_crc32 = λ bytes. 7;
}

abbrev wal : Wal
wal = record {
  state = empty_hard_state;
  start = record { index = 0; term = 0 };
  enti = 0;
  earlier = [];
  last = record { content = []; data_buffer = []; file_size = 0 };
}

abbrev outside : Outside
outside = record {
  codec = codec;
  unpack_commit = λ bytes. some commit;
  unpack_change = λ bytes. none;
  pack_map = λ m. [];
  unpack_map = λ bytes. ok none;
  save_file = λ snap. okay;
}

-- A driver whose log holds a given storage.
abbrev driver : MemoryStorage → ℕ → RaftNode
driver st applied = record {
  id = 1;
  last_index = 0;
  conf_state = record { nodes = 1 ∷ []; learners = [] };
  snapshot_index = 0;
  applied_index = applied;
  node = record {
    raft = record node { raft_log = record log { storage = st } };
    prev_soft_state = record { lead = 0; state = follower };
    prev_hard_state = empty_hard_state;
  };
  redis_server = store [];
  wal = wal;
  saved = [];
  peer_calls = [];
  sent = [];
}

abbrev at_four : RaftNode
at_four = driver log.storage 4

replayed_once :
    replayed outside.unpack_commit (newer 4 (entry 4 2 ∷ entry 5 2 ∷ [])) (store [])
    ≡ ok (store ((5 ∷ [], 7 ∷ []) ∷ []))
unfolding newer replayed read_commit apply_commit set_key is_nil
replayed_once = refl

-- The types of the entries.
both-Normal : Normal (entry 4 2 ∷ entry 5 2 ∷ [])
unfolding Normal
both-Normal = (refl, (refl, tt))

apply_committed-once_example :
    apply_committed outside (entry 4 2 ∷ entry 5 2 ∷ []) at_four
    ≡ ok (record at_four { redis_server = store ((5 ∷ [], 7 ∷ []) ∷ []); applied_index = 5 })
apply_committed-once_example =
    apply_committed-once outside at_four (entry 4 2) (entry 5 2 ∷ [])
      (store ((5 ∷ [], 7 ∷ []) ∷ [])) (refl, (refl, tt)) both-Normal (omega arith) (omega arith)
      replayed_once

-- Entries of the term 1 from a position on.
run : ℕ → ℕ → List Entry
run n zero = []
run n (suc k) = entry n 1 ∷ run (suc n) k

run-Contiguous : (n k : ℕ) → Contiguous n (run n k)
unfolding run
run-Contiguous n zero = tt
run-Contiguous n (suc k) = (refl, run-Contiguous (suc n) k)

length-run : (n k : ℕ) → length (run n k) ≡ k
unfolding run
length-run n zero = refl
length-run n (suc k) = omega (arith, length-run (suc n) k)

-- A log of more entries than a snapshot is taken after, all of them applied.
abbrev long : RaftNode
long =
    driver
      (record {
        hard_state = empty_hard_state;
        snapshot = empty_snapshot;
        entries = entry 0 0 ∷ run 1 100005;
      })
      100004

long-IsValid : Trimming.IsValid long
unfolding storage
long-IsValid = record {
  stored = record {
    nonempty = omega arith;
    contiguous = (refl, run-Contiguous 1 100005);
    bounded = omega (arith, length-run 1 100005);
  };
  snapshot = refl;
  snapshot_from = omega arith;
  applied_from = omega arith;
  applied_within = omega (arith, length-run 1 100005);
}

maybe_trigger_snapshot-Trims_example : Returns (maybe_trigger_snapshot outside long) (Trims long)
unfolding is_ok
maybe_trigger_snapshot-Trims_example =
    maybe_trigger_snapshot-Trims outside long (λ snap. refl) long-IsValid
