-- ===== src/Raft/Peers.antt =====
-- raft.cpp: the loop of reset over the progress of the peers.
use kvd.Base.{ℕ, List, [], ◌∷◌, ◌==◌, if◌then◌else◌, add64, Result, ok, ◌>>=◌}
use kvd.Progress
use kvd.Progress.{Progress}
use kvd.RaftLog
use kvd.Raft.State.{Raft}

-- What reset leaves of the progress of each peer.
unfoldable pub reset_progresses : Raft → List (ℕ × Progress) → Result (List (ℕ × Progress))
reset_progresses r [] = ok []
reset_progresses r (kv ∷ prs) = do
  last ← RaftLog.last_index r.raft_log
  others ← reset_progresses r prs
  let fresh : Progress = record (Progress.new r.max_inflight) {
    next = add64 last 1;
    is_learner = kv.1.is_learner;
    match_index = if kv.0 == r.id then last else 0;
  }
  ok ((kv.0, fresh) ∷ others)
