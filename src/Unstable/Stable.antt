-- ===== src/Unstable/Stable.antt =====
-- unstable.cpp: what reaches storage leaves the unstable part.
use kvd.Base.{
  ℕ, ◌+◌, ◌-◌, ◌≤◌, ◌<◌, ◌≡◌, refl, ap, ◌≢◌, Option, some, none, arith, length, get_elem?, drop,
  leb, ◌==◌, if◌then◌else◌, add64, sub64, u64_mod, ok, get_elem?-drop, Returns, get_elem?-none,
  length-drop,
}
use kvd.Proto.{Snapshot}
use kvd.Unstable.{Unstable, stable_to, stable_snap_to, restore}
use kvd.Unstable.Entries.{Contiguous-drop}
use kvd.Unstable.View.{IsValid, SnapshotBefore, entry_at, term_of, maybe_term_lem}

SnapshotBefore-mono :
    (s : Option Snapshot) (m n : ℕ) → m ≤ n → SnapshotBefore s m → SnapshotBefore s n
SnapshotBefore-mono none m n h p = tt
SnapshotBefore-mono (some s) m n h p = omega arith

-- The unstable part without its entries up to position `n`.
abbrev pub Drops : Unstable → ℕ → Unstable → Type 0
Drops u n w =
    IsValid w
    × (w.snapshot ≡ u.snapshot)
    × ((i : ℕ) → entry_at w i ≡ (if leb i n then none else entry_at u i))

drop_lem :
    (u : Unstable) (n : ℕ)
    → IsValid u
    → u.offset ≤ n
    → n < u.offset + length u.entries
    → Drops u n (record u { entries = drop (n + 1 - u.offset) u.entries; offset = n + 1 })
unfolding entry_at
drop_lem u n v h k = (
  record {
    contiguous = Contiguous-drop u.offset (n + 1) _ u.entries (omega arith) v.contiguous;
    bounded = omega (arith, length-drop (n + 1 - u.offset) u.entries, v.bounded);
    snapshot_before =
        SnapshotBefore-mono u.snapshot u.offset (n + 1) (omega arith) v.snapshot_before;
  },
  refl,
  λ i. ground (
    arith,
    get_elem?-drop (n + 1 - u.offset) (i - (n + 1)) u.entries,
    λ (p : n + 1 ≤ i). ap (get_elem? u.entries) (reindex i p),
  ),
)
  where
    reindex : (i : ℕ) → n + 1 ≤ i → n + 1 - u.offset + (i - (n + 1)) ≡ i - u.offset
    reindex i p = omega arith

entry_at-lt :
    (u : Unstable) (i term : ℕ)
    → term_of (entry_at u i) ≡ some term
    → (u.offset ≤ i) × (i < u.offset + length u.entries)
unfolding entry_at
entry_at-lt u i term e = ground (arith, get_elem?-none u.entries (i - u.offset))

pub stable_to-hit :
    (u : Unstable) (index term : ℕ)
    → IsValid u
    → term_of (entry_at u index) ≡ some term
    → stable_to u index term
      ≡ ok (record u { entries = drop (index + 1 - u.offset) u.entries; offset = index + 1 })
unfolding stable_to add64 sub64
stable_to-hit u index term v e =
    let (from, to) = entry_at-lt u index term e in
    let fits : index + 1 < u64_mod = omega (arith, v.bounded) in
    let count : sub64 (add64 index 1) u.offset ≡ index + 1 - u.offset = omega arith in
    let next : add64 index 1 ≡ index + 1 = omega arith in
    rw (maybe_term_lem u index v) (ground (arith, ap (λ n. drop n u.entries) count))

-- stable_to changes nothing when the position holds no unstable entry, or one of another term.
pub stable_to-miss :
    (u : Unstable) (index term : ℕ)
    → IsValid u
    → term_of (entry_at u index) ≢ some term
    → stable_to u index term ≡ ok u
unfolding stable_to
stable_to-miss u index term v ne = rw (maybe_term_lem u index v) (ground arith)

-- restore makes a valid part that holds the snapshot alone, and stable_snap_to drops exactly the
-- snapshot of the given position.
pub restore-IsValid :
    (s : Snapshot)
    → s.metadata.index + 1 < u64_mod
    → let u = restore s in
      IsValid u
      × (u.snapshot ≡ some s)
      × ((i : ℕ) → entry_at u i ≡ none)
      × ((i : ℕ) → (stable_snap_to u i).snapshot ≡ (if i == s.metadata.index then none else some s))
unfolding restore add64 entry_at stable_snap_to
restore-IsValid s h = (
  record { contiguous = tt; bounded = omega arith; snapshot_before = omega arith },
  refl,
  λ i. ground arith,
  λ i. ground arith,
)

-- stable_to of a position that holds an unstable entry of the given term never fails. It drops the
-- entries up to that position and no other, and keeps the part valid.
pub stable_to-Drops :
    (u : Unstable) (index term : ℕ)
    → IsValid u
    → term_of (entry_at u index) ≡ some term
    → Returns (stable_to u index term) (Drops u index)
stable_to-Drops u index term v e =
    let (from, to) = entry_at-lt u index term e in
    rw (stable_to-hit u index term v e) (drop_lem u index v from to)
