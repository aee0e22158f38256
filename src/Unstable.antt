-- ===== src/Unstable.antt =====
-- raft-kv/raft/unstable.h and unstable.cpp: the entries and the snapshot that are not yet in
-- storage. `entries[i]` has the log position `i + offset`.
pub mod Entries
pub mod View
pub mod Append
pub mod Stable
use kvd.Base.{
  ℕ, ◌-◌, Bool, List, [], ◌∷◌, ◌++◌, Option, none, some, ltb, leb, ◌==◌, if◌then◌else◌, not, ◌&&◌,
  ◌||◌, length, get_elem?, take, drop, add64, sub64, Result, ok, err, fatal, assertion, undefined,
  ◌>>=◌, ◌>>◌, check, deref, erase_front,
}
use kvd.Proto.{Entry, Snapshot}

pub record Unstable : Type 0 where
  pub snapshot : Option Snapshot
  pub entries : List Entry
  pub offset : ℕ

-- The constructor.
unfoldable pub new : ℕ → Unstable
new offset = record { snapshot = none; entries = []; offset = offset }

-- `some` is `ok = true` with the index; `none` is `ok = false` (the index is then 0).
unfoldable pub maybe_first_index : Unstable → Option ℕ
maybe_first_index u = elim u.snapshot [ none ↦ none | some s ↦ some (add64 s.metadata.index 1) ]

snapshot_index : Option Snapshot → Option ℕ
snapshot_index none = none
snapshot_index (some s) = some s.metadata.index

unfoldable pub maybe_last_index : Unstable → Option ℕ
unfolding snapshot_index
maybe_last_index u = elim u.entries [
  | [] ↦ snapshot_index u.snapshot
  | e ∷ es ↦ some (sub64 (add64 u.offset (length u.entries)) 1)
]

-- The branch of maybe_term below the offset.
unfoldable pub snapshot_term : Option Snapshot → ℕ → Option ℕ
snapshot_term none index = none
snapshot_term (some s) index = if s.metadata.index == index then some s.metadata.term else none

unfoldable pub maybe_term : Unstable → ℕ → Result (Option ℕ)
unfolding snapshot_term maybe_last_index
maybe_term u index =
    if ltb index u.offset then ok (snapshot_term u.snapshot index) else elim (maybe_last_index u) [
      | none ↦ ok none
      | some last ↦
          if ltb last index
          then ok none
          else (deref (get_elem? u.entries (sub64 index u.offset)) >>= λ e. ok (some e.term))
    ]

unfoldable pub stable_to : Unstable → ℕ → ℕ → Result Unstable
unfolding erase_front
stable_to u index term = do
  found ← maybe_term u index
  elim found [
    | none ↦ ok u
    | some gt ↦
        if gt == term && leb u.offset index
        then (do
          es ← erase_front (sub64 (add64 index 1) u.offset) u.entries
          ok (record u { entries = es; offset = add64 index 1 }))
        else ok u
  ]

unfoldable pub stable_snap_to : Unstable → ℕ → Unstable
stable_snap_to u index = elim u.snapshot [
  | none ↦ u
  | some s ↦ if s.metadata.index == index then record u { snapshot = none } else u
]

unfoldable pub restore : Snapshot → Unstable
restore s = record { snapshot = some s; entries = []; offset = add64 s.metadata.index 1 }

-- What the call inserts at the end of its output vector.
unfoldable pub slice : Unstable → ℕ → ℕ → Result (List Entry)
slice u low high = do
  check (ltb low high) assertion
  check (not (ltb low u.offset || ltb (add64 u.offset (length u.entries)) high)) fatal
  ok (take (high - low) (drop (low - u.offset) u.entries))

unfoldable pub truncate_and_append : Unstable → List Entry → Result Unstable
unfolding slice
truncate_and_append u [] = ok u
truncate_and_append u (e ∷ es) =
    let after : ℕ = e.index in
    if after == add64 u.offset (length u.entries)
    then ok (record u { entries = u.entries ++ (e ∷ es) })
    else if leb after u.offset
    then ok (record u { entries = e ∷ es; offset = after })
    else do kept ← slice u u.offset after; ok (record u { entries = kept ++ (e ∷ es) })
