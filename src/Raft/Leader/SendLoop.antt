-- ===== src/Raft/Leader/SendLoop.antt =====
-- raft.cpp: the loop of step_leader that sends what the window has room for comes to its end.
use kvd.Base.{
  ℕ, zero, suc, ◌<◌, ◌≡◌, refl, inl, inr, Bool, true, false, not, ◌||◌, ◌&&◌, sub64, List, [], ◌∷◌,
  Option, some, arith, Bool-cases, Result, ok, err, if◌then◌else◌, subst, sym,
}
use kvd.Proto.{Entry, Status, is_ok}
use kvd.RaftLog
use kvd.Progress
use kvd.Progress.{Progress, ProgressState, probe, replicate, snapshot}
use kvd.Raft.State.{Raft, M, ◌>>=◌, lift, pure, get_progress, the_progress}
use kvd.Raft.Replicate.{maybe_send_append, send_snapshot, send_entries, is_nil, or_zero}
use kvd.Raft.Roles.Reset.{after_call}
use kvd.Raft.Leader.{send_all, rounds}
use kvd.Raft.Leader.Window.{Windowed, room, room-open, enough}
use kvd.Raft.Leader.Sends.{Less, Sent, Sent-lift, send_snapshot-Less, send_entries-Less}

found :
    (to : ℕ) (r : Raft) (pr : Progress)
    → get_progress r to ≡ some pr
    → the_progress to r ≡ ok (pr, r)
found to r pr e = rw (the_progress, e) refl

-- The end of maybe_send_append.
sends :
    (to : ℕ) (r : Raft) (pr : Progress)
    → Windowed pr.inflights
    → 0 < room pr
    → (term : ℕ) (behind : Bool) (es : List Entry)
    → Sent (Less to (room pr)) (
        (if is_nil es && not false
            then pure false
            else if behind
            then send_snapshot to pr
            else send_entries to pr term es)
          r)
unfolding is_nil
sends to r pr w h term behind [] = tt
sends to r pr w h term true (x ∷ es) = send_snapshot-Less to r pr w h
sends to r pr w h term false (x ∷ es) = send_entries-Less to term x es r pr w h

-- The end of maybe_send_append, with the term and the entries that the log gave.
abbrev goes_on : ℕ → Progress → Status × Option ℕ → Status × List Entry → M Bool
goes_on to pr t es =
    if is_nil es.1 && not false
    then pure false
    else if not (is_ok t.0) || not (is_ok es.0)
    then send_snapshot to pr
    else send_entries to pr (or_zero t.1) es.1

-- maybe_send_append once the peer is found not to be paused.
send_open :
    (to : ℕ) (r : Raft) (pr : Progress)
    → Windowed pr.inflights
    → 0 < room pr
    → Sent (Less to (room pr)) (
        (lift (RaftLog.term r.raft_log (sub64 pr.next 1)) >>= λ t.
        lift (RaftLog.entries r.raft_log pr.next r.max_msg_size []) >>= λ es. goes_on to pr t es)
          r)
send_open to r pr w h =
    Sent-lift {A = Status × Option ℕ} (Less to (room pr))
      (RaftLog.term r.raft_log (sub64 pr.next 1))
      (λ t.
        lift (RaftLog.entries r.raft_log pr.next r.max_msg_size []) >>= λ es. goes_on to pr t es)
      r
      λ t same.
        Sent-lift {A = Status × List Entry} (Less to (room pr))
          (RaftLog.entries r.raft_log pr.next r.max_msg_size []) (λ es. goes_on to pr t es) r
          λ es same'. sends to r pr w h (or_zero t.1) (not (is_ok t.0) || not (is_ok es.0)) es.1

-- A message that is sent leaves less room.
maybe_send_append-Less :
    (to : ℕ) (r : Raft) (pr : Progress)
    → get_progress r to ≡ some pr
    → Windowed pr.inflights
    → Sent (Less to (room pr)) (maybe_send_append to false r)
unfolding maybe_send_append Progress.is_paused
maybe_send_append-Less to r pr e w =
    subst (Sent (Less to (room pr))) (sym (after_call (the_progress to) _ (found to r pr e)))
      (elim (Bool-cases (Progress.is_paused pr)) [
        | inl paused ↦ rw paused tt
        | inr running ↦
            rw running (send_open to r pr w (room-open pr.state pr.paused pr.inflights w running))
      ])

-- The loop ended, or a call in it failed.
abbrev pub Ends : Result (Bool × Raft) → Type 0
Ends (err e) = Unit
Ends (ok (b, s)) = b ≡ true

loop-Ends :
    (to n : ℕ) (x : Result (Bool × Raft)) (rest : M Bool)
    → Sent (Less to n) x
    → ((s : Raft) → Less to n s → Ends (rest s))
    → Ends (elim x [ err e ↦ err e | ok (sent, s) ↦ (if sent then rest else pure true) s ])
loop-Ends to n (err e) rest h k = tt
loop-Ends to n (ok (true, s)) rest h k = k s h
loop-Ends to n (ok (false, s)) rest h k = refl

send_all-Ends :
    (fuel to : ℕ) (r : Raft) (pr : Progress)
    → get_progress r to ≡ some pr
    → Windowed pr.inflights
    → room pr < fuel
    → Ends (send_all fuel to r)
unfolding send_all
send_all-Ends zero to r pr e w h = absurd (omega (arith, h))
send_all-Ends (suc n) to r pr e w h =
    loop-Ends to (room pr) (maybe_send_append to false r) (send_all n to)
      (maybe_send_append-Less to r pr e w)
      λ s l. send_all-Ends n to s l.now l.found l.windowed (omega (arith, l.less, h))

-- The loop that sends to a peer what its window has room for comes to its end within `rounds` rounds,
-- whatever the log holds, or a call in it fails: it never runs on. The window of the peer must not
-- hold more than its size, which is below 2 ^ 32.
pub send_all-finishes :
    (to : ℕ) (r : Raft) (pr : Progress)
    → get_progress r to ≡ some pr
    → Windowed pr.inflights
    → Ends (send_all (rounds pr) to r)
unfolding rounds
send_all-finishes to r pr e w =
    send_all-Ends (rounds pr) to r pr e w (enough pr.state pr.paused pr.inflights)
