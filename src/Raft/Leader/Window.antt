-- ===== src/Raft/Leader/Window.antt =====
-- progress.h: the window of a peer, and what it has room for.
use kvd.Base.{
  ℕ, zero, suc, ◌+◌, ◌-◌, ◌≤◌, ◌<◌, ◌≡◌, ◌≢◌, refl, inl, inr, Bool, true, false, not, ◌||◌, ◌&&◌,
  sub64, List, [], ◌∷◌, Option, some, arith, Bool-cases, Result, ok, err, Error, if◌then◌else◌,
  ◌==◌, u32_mod, add32, add32-eq, subst, sym, ap, ◌++◌,
}
use kvd.Base
use kvd.Progress
use kvd.Progress.{Progress, ProgressState, probe, replicate, snapshot}
use kvd.Progress.InFlights
use kvd.Progress.InFlights.{InFlights}
use kvd.Progress.InFlights.Ring.{grown_buffer}

-- The window of the peer holds no more than its size, a number of 32 bits.
pub record Windowed (f : InFlights) : Type 0 where
  pub within : f.count ≤ f.size
  pub small : f.size < u32_mod

-- The messages that may be sent to a peer before it pauses.
abbrev pub room_in : ProgressState → Bool → InFlights → ℕ
room_in probe paused f = if paused then 0 else 1
room_in replicate paused f = f.size - f.count
room_in snapshot paused f = 0

abbrev pub room : Progress → ℕ
room p = room_in p.state p.paused p.inflights

-- `P` holds of what the call returns, if it returns.
abbrev pub Provided : {A : Type 0} → (A → Type 0) → Result A → Type 0
Provided P (err e) = Unit
Provided P (ok a) = P a

pub Provided-value :
    {A : Type 0} (P : A → Type 0) {r : Result A} {a : A} → Provided P r → r ≡ ok a → P a
Provided-value P h e = subst (Provided P) e h

Provided-bind :
    {A B : Type 0} (P : B → Type 0) (m : Result A) (f : A → Result B)
    → ((a : A) → Provided P (f a))
    → Provided P (Base.◌>>=◌ m f)
Provided-bind P (err e) f h = tt
Provided-bind P (ok a) f h = h a

-- What add makes of a window that has room.
abbrev pub Added : InFlights → InFlights → Type 0
Added f g = Windowed g × (f.count < f.size) × (g.size ≡ f.size) × (g.count ≡ f.count + 1)

Added-record :
    (f : InFlights) (buffer : List ℕ)
    → Windowed f
    → f.count < f.size
    → Added f (record f { buffer = buffer; count = add32 f.count 1 })
Added-record f buffer w less =
    let one : add32 f.count 1 ≡ f.count + 1 = add32-eq f.count 1 (omega (arith, w.small, less)) in
    (record { within = omega (arith, one, less); small = w.small }, less, refl, one)

pub add-Windowed :
    (f : InFlights) (last : ℕ) → Windowed f → Provided (Added f) (InFlights.add f last)
unfolding InFlights.add InFlights.is_full
add-Windowed f last w = elim (Bool-cases (f.size == f.count)) [
  | inl full ↦ rw full tt
  | inr some_room ↦ rw some_room (
      Provided-bind (Added f) (InFlights.assign (grown_buffer f) (InFlights.next_slot f) last)
        (λ buffer. ok (record f { buffer = buffer; count = add32 f.count 1 }))
        λ buffer. Added-record f buffer w (ground (arith, w.within, some_room)))
]

pub room-open :
    (st : ProgressState) (paused : Bool) (f : InFlights)
    → Windowed f
    → Progress.paused_in st paused f ≡ false
    → 0 < room_in st paused f
unfolding Progress.paused_in InFlights.is_full
room-open probe paused f w e = ground (arith, e)
room-open replicate paused f w e = ground (arith, e, w.within)
room-open snapshot paused f w e = cc

pub enough : (st : ProgressState) (paused : Bool) (f : InFlights) → room_in st paused f < f.size + 2
enough probe paused f = ground arith
enough replicate paused f = omega arith
enough snapshot paused f = omega arith
