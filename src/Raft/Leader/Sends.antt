-- ===== src/Raft/Leader/Sends.antt =====
-- raft.cpp: a message to a peer leaves less room in its window.
use kvd.Base.{
  ℕ, ◌<◌, ◌≡◌, refl, inl, inr, Bool, true, false, not, ◌||◌, List, ◌∷◌, some, arith, Bool-cases,
  Result, ok, err, ap,
}
use kvd.Proto.{Entry, Message, is_ok, is_empty}
use kvd.RaftLog
use kvd.Progress
use kvd.Progress.{Progress, ProgressState, probe, replicate, snapshot}
use kvd.Progress.InFlights
use kvd.Progress.InFlights.{InFlights}
use kvd.Raft.State.{
  Raft, M, ◌>>=◌, lift, modify, get_progress, put_progress, send, is_campaign_msg, is_forwarded_msg,
}
use kvd.Raft.State.Access.{get_progress-put}
use kvd.Raft.Replicate.{send_snapshot, send_entries, sent_entries, is_nil, last_index_of}
use kvd.Raft.Leader.Window.{Windowed, room, Provided, Provided-value, Added, add-Windowed}

-- After a message there is less room.
pub record Less (to n : ℕ) (s : Raft) : Type 0 where
  pub now : Progress
  pub found : get_progress s to ≡ some now
  pub windowed : Windowed now.inflights
  pub less : room now < n

-- `P` holds where a message was sent.
abbrev pub Sent : (Raft → Type 0) → Result (Bool × Raft) → Type 0
Sent P (err e) = Unit
Sent P (ok (false, s)) = Unit
Sent P (ok (true, s)) = P s

Provided-lift :
    {A B : Type 0} (P : B × Raft → Type 0) (m : Result A) (f : A → M B) (r : Raft)
    → ((a : A) → m ≡ ok a → Provided P (f a r))
    → Provided P ((lift m >>= f) r)
Provided-lift P (err e) f r h = tt
Provided-lift P (ok a) f r h = h a refl

pub Sent-lift :
    {A : Type 0} (P : Raft → Type 0) (m : Result A) (f : A → M Bool) (r : Raft)
    → ((a : A) → m ≡ ok a → Sent P (f a r))
    → Sent P ((lift m >>= f) r)
Sent-lift P (err e) f r h = tt
Sent-lift P (ok a) f r h = h a refl

Sent-bind :
    {A : Type 0} (Q : A × Raft → Type 0) (P : Raft → Type 0) (m : M A) (f : A → M Bool) (r : Raft)
    → Provided Q (m r)
    → ((a : A) (s : Raft) → Q (a, s) → Sent P (f a s))
    → Sent P ((m >>= f) r)
Sent-bind {A = A} Q P m f r h k = go (m r) h
  where
    go :
        (x : Result (A × Raft))
        → Provided Q x
        → Sent P (elim x [ err e ↦ err e | ok (a, s) ↦ f a s ])
    go (err e) q = tt
    go (ok (a, s)) q = k a s q

Less-put :
    (to n : ℕ) (r : Raft) (p : Progress) (ms : List Message)
    → Windowed p.inflights
    → room p < n
    → Less to n (record (put_progress to p r) { msgs = ms })
unfolding get_progress
Less-put to n r p ms w h = record {
  now = p;
  found = get_progress-put to p r;
  windowed = w;
  less = h;
}

pub send_snapshot-Less :
    (to : ℕ) (r : Raft) (pr : Progress)
    → Windowed pr.inflights
    → 0 < room pr
    → Sent (Less to (room pr)) (send_snapshot to pr r)
unfolding send_snapshot send is_campaign_msg is_forwarded_msg Progress.become_snapshot
    Progress.reset_state InFlights.reset
send_snapshot-Less to r pr w h = elim (Bool-cases pr.recent_active) [
  | inr silent ↦ rw silent tt
  | inl active ↦
      elim (Bool-cases
        (not (is_ok (RaftLog.snapshot r.raft_log).0) || is_empty (RaftLog.snapshot r.raft_log).1)) [
          | inl bad ↦ rw (active, bad) tt
          | inr good ↦
              rw (active, good)
                (Less-put to (room pr) r _ _ (record { within = omega arith; small = w.small }) h)
        ]
]

sent_entries-Less :
    (pr : Progress) (st : ProgressState) (last : ℕ) (r : Raft)
    → pr.state ≡ st
    → Windowed pr.inflights
    → 0 < room pr
    → Provided {A = Progress × Raft}
        (λ q. (q.1 ≡ r) × Windowed q.0.inflights × (room q.0 < room pr))
        (sent_entries st pr last r)
unfolding sent_entries Progress.set_pause Progress.optimistic_update
sent_entries-Less pr probe last r e w h = (refl, w, ground (arith, e, h))
sent_entries-Less pr replicate last r e w h =
    Provided-lift _ (InFlights.add pr.inflights last) _ r λ f same.
      let (v, open_before, size, count) =
        Provided-value (Added pr.inflights) (add-Windowed pr.inflights last w) same in
      (refl, v, ground (arith, e, v, open_before, size, count))
sent_entries-Less pr snapshot last r e w h = tt

-- The progress of the peer after the message.
record Stored (to : ℕ) (r : Raft) (pr : Progress) (s : Raft) : Type 0 where
  now : Progress
  state : s ≡ put_progress to now r
  windowed : Windowed now.inflights
  less : room now < room pr

put_sent :
    (to : ℕ) (pr : Progress) (m : M Progress) (r : Raft)
    → Provided {A = Progress × Raft}
        (λ q. (q.1 ≡ r) × Windowed q.0.inflights × (room q.0 < room pr))
        (m r)
    → Provided {A = Unit {0} × Raft}
        (λ q. Stored to r pr q.1)
        ((m >>= λ p. modify (put_progress to p)) r)
put_sent to pr m r h = go (m r) h
  where
    go :
        (x : Result (Progress × Raft))
        → Provided {A = Progress × Raft}
            (λ q. (q.1 ≡ r) × Windowed q.0.inflights × (room q.0 < room pr))
            x
        → Provided {A = Unit {0} × Raft}
            (λ q. Stored to r pr q.1)
            (elim x [ err e ↦ err e | ok (p, s) ↦ ok (tt, put_progress to p s) ])
    go (err e) q = tt
    go (ok (p, s)) q = record {
      now = p;
      state = ap (put_progress to p) q.0;
      windowed = q.1;
      less = q.2;
    }

pub send_entries-Less :
    (to term : ℕ) (x : Entry) (es : List Entry) (r : Raft) (pr : Progress)
    → Windowed pr.inflights
    → 0 < room pr
    → Sent (Less to (room pr)) (send_entries to pr term (x ∷ es) r)
unfolding send_entries send is_campaign_msg is_forwarded_msg is_nil
send_entries-Less to term x es r pr w h =
    Sent-bind (λ q. Stored to r pr q.1) (Less to (room pr))
      (sent_entries pr.state pr (last_index_of (x ∷ es)) >>= λ p. modify (put_progress to p)) _ r
      (put_sent to pr (sent_entries pr.state pr (last_index_of (x ∷ es))) r
        (sent_entries-Less pr pr.state (last_index_of (x ∷ es)) r refl w h))
      (λ nothing s q. rw q.state (Less-put to (room pr) r q.now _ q.windowed q.less))
