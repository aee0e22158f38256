-- ===== src/Progress/Flow.antt =====
-- progress.cpp: what the updates of a Progress keep.
use kvd.Base.{
  ℕ, ◌+◌, ◌≤◌, ◌<◌, ◌≡◌, ◌⊎◌, min, max, true, false, arith, ltb, if◌then◌else◌, u64_mod, add64-eq,
  sub64-eq,
}
use kvd.Progress.{
  Progress, probe, is_replicate, is_snapshot, maybe_update, maybe_decreases_to, become_probe,
  is_paused,
}
use kvd.Progress.InFlights

-- What is sent next lies past what matches.
pub record IsValid (p : Progress) : Type 0 where
  pub ahead : p.match_index < p.next
  pub next_in : p.next < u64_mod
  pub pending_in : p.pending_snapshot + 1 < u64_mod

-- maybe_update reports exactly an index past the match, never moves the match or the next index
-- back, takes the match to the larger of the two, and keeps the order of the two.
pub maybe_update-IsValid :
    (p : Progress) (n : ℕ)
    → IsValid p
    → n + 1 < u64_mod
    → let (updated, q) = maybe_update p n in
      IsValid q
      × (updated ≡ ltb p.match_index n)
      × (q.match_index ≡ max p.match_index n)
      × (q.next ≡ max p.next (n + 1))
      × (q.state ≡ p.state)
      × ((updated ≡ true) ⊎ (q.paused ≡ p.paused))
unfolding maybe_update
maybe_update-IsValid p n v b = ground (arith, add64-eq n 1)

-- maybe_decreases_to takes a stale rejection for what it is: it changes nothing then. Otherwise the
-- next index goes down to just past the match in the replicate state, and in the others to the
-- smaller of the rejected index and the one past the follower's last, but not below 1; it never
-- goes up, and the match stays.
pub maybe_decreases_to-bounds :
    (p : Progress) (rejected last : ℕ)
    → IsValid p
    → last + 1 < u64_mod
    → let (decreased, q) = maybe_decreases_to p rejected last in
      (q.match_index ≡ p.match_index)
      × (q.next ≤ p.next)
      × (1 ≤ q.next)
      × (((decreased ≡ false) × (q ≡ p))
          ⊎ ((decreased ≡ true)
              × (((is_replicate p.state ≡ true)
                    × (p.match_index < rejected)
                    × (q.next ≡ p.match_index + 1))
                  ⊎ ((is_replicate p.state ≡ false)
                      × (rejected + 1 ≡ p.next)
                      × (q.paused ≡ false)
                      × (q.next ≡ max 1 (min rejected (last + 1)))))))
unfolding maybe_decreases_to
maybe_decreases_to-bounds p rejected last v b =
    ground (arith, v.ahead, v.next_in, add64-eq last 1, add64-eq p.match_index 1, sub64-eq p.next 1)

-- A progress that turns to probing after a snapshot goes on past it; one that turns to replicating
-- goes on right past the match. Both leave no message in flight, and are not paused.
pub become_probe-next :
    (p : Progress)
    → IsValid p
    → let q = become_probe p in
      IsValid q
      × (q.state ≡ probe)
      × (is_paused q ≡ false)
      × (q.inflights.count ≡ 0)
      × (q.next ≡ (
          if is_snapshot p.state
          then max (p.match_index + 1) (p.pending_snapshot + 1)
          else p.match_index + 1))
unfolding become_probe is_paused InFlights.reset
become_probe-next p v = ground (
  arith,
  v.ahead,
  v.next_in,
  v.pending_in,
  add64-eq p.match_index 1,
  add64-eq p.pending_snapshot 1,
)
