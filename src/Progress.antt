-- ===== src/Progress.antt =====
-- raft-kv/raft/progress.h and progress.cpp: what the leader knows of a follower.
pub mod InFlights
pub mod Flow
use kvd.Base.{
  ℕ, Bool, true, false, min, max, ltb, leb, ◌==◌, if◌then◌else◌, not, ◌&&◌, add64, sub64, ◌%◌,
  u32_mod, Result, ok, err, ◌>>=◌,
}

pub data ProgressState : Type 0 where
  probe replicate snapshot : ProgressState

-- `inflights` is a pointer that no two Progress objects share.
pub record Progress : Type 0 where
  pub match_index : ℕ
  pub next : ℕ
  pub state : ProgressState
  pub paused : Bool
  pub pending_snapshot : ℕ
  pub recent_active : Bool
  pub inflights : InFlights.InFlights
  pub is_learner : Bool

unfoldable pub is_probe : ProgressState → Bool
is_probe probe = true
is_probe _ = false

unfoldable pub is_replicate : ProgressState → Bool
is_replicate replicate = true
is_replicate _ = false

unfoldable pub is_snapshot : ProgressState → Bool
is_snapshot snapshot = true
is_snapshot _ = false

-- The constructor.
unfoldable pub new : ℕ → Progress
new max_inflight = record {
  match_index = 0;
  next = 0;
  state = probe;
  paused = false;
  pending_snapshot = 0;
  recent_active = false;
  inflights = InFlights.new max_inflight;
  is_learner = false;
}

unfoldable pub reset_state : Progress → ProgressState → Progress
reset_state p st = record p {
  paused = false;
  pending_snapshot = 0;
  state = st;
  inflights = InFlights.reset p.inflights;
}

unfoldable pub become_replicate : Progress → Progress
unfolding reset_state
become_replicate p = record (reset_state p replicate) { next = add64 p.match_index 1 }

unfoldable pub become_probe : Progress → Progress
unfolding reset_state is_snapshot
become_probe p =
    if is_snapshot p.state
    then record (reset_state p probe) {
      next = max (add64 p.match_index 1) (add64 p.pending_snapshot 1);
    }
    else record (reset_state p probe) { next = add64 p.match_index 1 }

unfoldable pub become_snapshot : Progress → ℕ → Progress
unfolding reset_state
become_snapshot p snapshoti = record (reset_state p snapshot) { pending_snapshot = snapshoti }

unfoldable pub paused_in : ProgressState → Bool → InFlights.InFlights → Bool
paused_in probe paused inflights = paused
paused_in replicate paused inflights = InFlights.is_full inflights
paused_in snapshot paused inflights = true

unfoldable pub is_paused : Progress → Bool
unfolding paused_in
is_paused p = paused_in p.state p.paused p.inflights

unfoldable pub set_pause : Progress → Progress
set_pause p = record p { paused = true }

unfoldable pub resume : Progress → Progress
resume p = record p { paused = false }

-- The result's first part is what the call returns.
unfoldable pub maybe_update : Progress → ℕ → Bool × Progress
maybe_update p n = (
  ltb p.match_index n,
  record p {
    match_index = if ltb p.match_index n then n else p.match_index;
    paused = if ltb p.match_index n then false else p.paused;
    next = if ltb p.next (add64 n 1) then add64 n 1 else p.next;
  },
)

unfoldable pub optimistic_update : Progress → ℕ → Progress
optimistic_update p n = record p { next = add64 n 1 }

unfoldable pub maybe_decreases_to : Progress → ℕ → ℕ → Bool × Progress
unfolding is_replicate
maybe_decreases_to p rejected last =
    if is_replicate p.state
    then (if leb rejected p.match_index
        then (false, p)
        else (true, record p { next = add64 p.match_index 1 }))
    else if not (sub64 p.next 1 == rejected)
    then (false, p)
    else (
      true,
      record p {
        next = let next : ℕ = min rejected (add64 last 1) in if ltb next 1 then 1 else next;
        paused = false;
      },
    )

unfoldable pub need_snapshot_abort : Progress → Bool
unfolding is_snapshot
need_snapshot_abort p = is_snapshot p.state && leb p.pending_snapshot p.match_index

unfoldable pub snapshot_failure : Progress → Progress
snapshot_failure p = record p { pending_snapshot = 0 }
