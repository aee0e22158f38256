-- ===== src/Tests/Peers.antt =====
-- Runs on windows of messages in flight, and on a progress.
use kvd.Base.{◌≡◌, inr, refl, true, false, [], ◌∷◌, ◌++◌, arith, Returns}
use kvd.Progress.InFlights.{InFlights, add, free_to}
use kvd.Progress.InFlights.Ring.{IsValid, contents, add-contents}
use kvd.Progress.InFlights.Free.{drop_through, free_to-contents}
use kvd.Progress.{Progress, probe, snapshot}

-- A window of size 4 that holds 5, 6 and 8, round the end of its buffer.
abbrev window : InFlights
window = record { start = 2; count = 3; size = 4; buffer = 8 ∷ 0 ∷ 5 ∷ 6 ∷ [] }

window-IsValid : IsValid window
window-IsValid = record {
  small = omega arith;
  start_in = omega arith;
  count_in = omega arith;
  buffer_in = omega arith;
  covered = inr refl;
}

add_example :
    Returns
      (add window 9)
      λ g. IsValid g × (contents g ≡ contents window ++ (9 ∷ [])) × (g.size ≡ 4) × (g.count ≡ 4)
add_example = add-contents window 9 window-IsValid (omega arith)

free_to_example :
    Returns
      (free_to window 7)
      λ g. IsValid g × (contents g ≡ drop_through 7 (contents window)) × (g.size ≡ 4)
free_to_example = free_to-contents window 7 window-IsValid

-- A peer that waits for the snapshot at 9, and one that is probed.
abbrev waiting : Progress
waiting = record {
  match_index = 3;
  next = 4;
  state = snapshot;
  paused = false;
  pending_snapshot = 9;
  recent_active = true;
  inflights = window;
  is_learner = false;
}

abbrev probed : Progress
probed = record waiting { state = probe; pending_snapshot = 0; next = 8 }
