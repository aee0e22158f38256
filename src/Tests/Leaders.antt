-- ===== src/Tests/Leaders.antt =====
-- Runs of the leader's calls on a node of three.
use kvd.Base.{lookup, ◌≡◌, ◌≢◌, ◌⊎◌, ◌<◌, ◌≤◌, refl, true, false, [], ◌∷◌, arith, Returns}
use kvd.Progress
use kvd.Progress.{Progress, replicate}
use kvd.Progress.InFlights
use kvd.RaftLog.View.{IsValid, term_at}
use kvd.Raft.State.{Raft, leader, step_leader, tick_heartbeat, get_progress}
use kvd.Raft.Replicate.{maybe_commit, matches}
use kvd.Raft.Replicate.Quorum.{Agreed, maybe_commit-Agreed}
use kvd.Raft.Leader.{send_all, rounds}
use kvd.Raft.Leader.SendLoop.{Ends, send_all-finishes}
use kvd.Tests.Samples.{log, log-IsValid}
use kvd.Tests.Nodes.{node}

abbrev peer : Progress
peer = record (Progress.new 4) { state = replicate; match_index = 7; next = 6 }

abbrev leading : Raft
leading = record node {
  state = leader;
  step = step_leader;
  tick = tick_heartbeat;
  prs = (1, peer) ∷ (2, peer) ∷ (3, Progress.new 4) ∷ [];
}

maybe_commit-Agreed_example : Returns (maybe_commit leading) λ p.
    (m : _) × Agreed leading m
    × IsValid p.1.raft_log
    × (((p.0 ≡ true)
          × (4 < m)
          × (term_at log m ≡ 3)
          × (p.1 ≡ record leading { raft_log = record log { committed = m } }))
        ⊎ ((p.0 ≡ false) × ((m ≤ 4) ⊎ (term_at log m ≢ 3)) × (p.1 ≡ leading)))
unfolding matches Progress.new
maybe_commit-Agreed_example =
    maybe_commit-Agreed leading log-IsValid (omega arith) (omega arith) (omega arith) refl

send_all_example : Ends (send_all (rounds peer) 1 leading)
unfolding get_progress lookup Progress.new InFlights.new
send_all_example =
    send_all-finishes 1 leading peer refl (record { within = omega arith; small = omega arith })
