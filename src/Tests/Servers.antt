-- ===== src/Tests/Servers.antt =====
-- Runs of the byte buffer, the store, and the cycle of a node.
use kvd.Base.{
  ℕ, ◌≡◌, refl, true, List, [], ◌∷◌, some, none, arith, ltb, if◌then◌else◌, Returns, ◌≤◌, length,
}
use kvd.Proto.{empty_entry, empty_hard_state, empty_snapshot, okay, is_empty}
use kvd.Storage
use kvd.RaftLog.View.{IsValid, end_of, entry_at}
use kvd.Ready.{Ready, applied_cursor}
use kvd.Node.{advance_log}
use kvd.Node.Cycle.{advance_log-Same}
use kvd.ByteBuffer.{ByteBuffer, put}
use kvd.ByteBuffer.Queue
use kvd.ByteBuffer.Queue.{contents, put-contents, read_bytes-contents}
use kvd.ReadOnly.{bytes_eq}
use kvd.Store.{RedisStore, RaftCommit, k_commit_set, get, read_commit}
use kvd.Store.View.{setting, read_commit-updated}
use kvd.Tests.Samples.{entry, log, log-IsValid, storage}

-- Two of the four bytes are left to read, and there is no room for more.
abbrev buffer : ByteBuffer
buffer = record { reader = 2; writer = 4; buff = 7 ∷ 7 ∷ 8 ∷ 9 ∷ [] }

buffer-IsValid : Queue.IsValid buffer
buffer-IsValid = record { ordered = omega arith; within = omega arith; small = omega arith }

put-contents_example :
    Returns
      (put (1 ∷ 2 ∷ 3 ∷ []) buffer)
      λ c. Queue.IsValid c × (contents c ≡ 8 ∷ 9 ∷ 1 ∷ 2 ∷ 3 ∷ []) × (length c.buff ≤ 11)
put-contents_example = put-contents buffer (1 ∷ 2 ∷ 3 ∷ []) buffer-IsValid (omega arith)

abbrev store : RedisStore
store = record {
  node_id = 1;
  key_values = (5 ∷ [], 6 ∷ []) ∷ [];
  next_request_id = 0;
  pending_requests = [];
  proposals = [];
  answers = [];
}

abbrev commit : RaftCommit
commit = record {
  node_id = 2;
  commit_id = 0;
  redis_data = record { type = k_commit_set; strs = (5 ∷ []) ∷ (7 ∷ []) ∷ [] };
}

read_commit-updated_example :
    Returns
      (read_commit (λ bytes. some commit) empty_entry store)
      λ t. (j : List ℕ) → get j t ≡ (if bytes_eq (5 ∷ []) j then some (7 ∷ []) else get j store)
read_commit-updated_example =
    read_commit-updated (λ bytes. some commit) empty_entry store commit (setting (5 ∷ []) (7 ∷ []))
      refl

-- What is handed out of the sample log.
abbrev batch : Ready
batch = record {
  soft_state = none;
  hard_state = empty_hard_state;
  read_states = [];
  entries = entry 6 2 ∷ entry 7 3 ∷ [];
  snapshot = empty_snapshot;
  committed_entries = entry 4 2 ∷ [];
  messages = [];
  must_sync = true;
}

advance_log_example : Returns (Storage.append storage (entry 6 2 ∷ entry 7 3 ∷ [])) λ p.
    (p.0 ≡ okay)
    × Returns (advance_log batch (record log { storage = p.1 })) λ w.
      IsValid w
      × (w.unstable.entries ≡ [])
      × (end_of w ≡ 8)
      × (w.committed ≡ 4)
      × (w.applied ≡ (if ltb 0 (applied_cursor batch) then applied_cursor batch else 3))
      × ((i : ℕ) → entry_at w i ≡ entry_at log i)
unfolding is_empty
advance_log_example =
    advance_log-Same log batch (entry 6 2) (entry 7 3 ∷ []) log-IsValid refl refl refl refl
