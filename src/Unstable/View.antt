-- ===== src/Unstable/View.antt =====
-- The unstable part as a partial map from log positions to entries, and what the reading calls of
-- unstable.cpp return of it.
use kvd.Base.{
  ℕ, ◌+◌, ◌-◌, ◌≤◌, ◌<◌, ◌≡◌, ◌∙◌, List, [], ◌∷◌, Option, some, none, arith, length, get_elem?,
  take, drop, ltb, if◌then◌else◌, add64, sub64, u64_mod, ok, get_elem?-take, get_elem?-drop,
  get_elem?-none, get_elem?-some, length-take, length-drop,
}
use kvd.Proto.{Entry, Snapshot}
use kvd.Unstable.{Unstable, maybe_term, snapshot_term, slice}
use kvd.Unstable.Entries.{Contiguous, Contiguous-take, Contiguous-drop}

-- A pending snapshot covers positions before the offset.
abbrev pub SnapshotBefore : Option Snapshot → ℕ → Type 0
SnapshotBefore none n = Unit {0}
SnapshotBefore (some s) n = s.metadata.index < n

pub record IsValid (u : Unstable) : Type 0 where
  pub contiguous : Contiguous u.offset u.entries
  pub bounded : u.offset + length u.entries < u64_mod
  pub snapshot_before : SnapshotBefore u.snapshot u.offset

-- The unstable entry at a log position.
unfoldable pub entry_at : Unstable → ℕ → Option Entry
entry_at u i = if ltb i u.offset then none else get_elem? u.entries (i - u.offset)

abbrev pub term_of : Option Entry → Option ℕ
term_of none = none
term_of (some e) = some e.term

-- maybe_term never reads out of bounds. Below the offset it answers from the pending snapshot, and
-- from the offset on with the term of the unstable entry at the position, if there is one.
pub maybe_term_lem :
    (u : Unstable) (i : ℕ)
    → IsValid u
    → maybe_term u i
      ≡ ok (if ltb i u.offset then snapshot_term u.snapshot i else term_of (entry_at u i))
unfolding maybe_term entry_at sub64 add64
maybe_term_lem u i v = in_parts u.snapshot u.entries v.bounded v.snapshot_before
  where
    in_parts :
        (s : Option Snapshot) (es : List Entry)
        → u.offset + length es < u64_mod
        → SnapshotBefore s u.offset
        → maybe_term (record { snapshot = s; entries = es; offset = u.offset }) i
          ≡ ok (
              if ltb i u.offset
              then snapshot_term s i
              else term_of (entry_at (record { snapshot = s; entries = es; offset = u.offset }) i))
    in_parts none [] b p = ground arith
    in_parts (some s) [] b p = ground arith
    in_parts s (e ∷ es) b p =
        ground
          (arith, get_elem?-some (e ∷ es) (i - u.offset), get_elem?-none (e ∷ es) (i - u.offset))

pub slice_lem :
    (u : Unstable) (low high : ℕ)
    → IsValid u
    → u.offset ≤ low
    → low < high
    → high ≤ u.offset + length u.entries
    → (es : List Entry) × (slice u low high ≡ ok es)
      × (length es ≡ high - low)
      × Contiguous low es
      × ((i : ℕ) → i < high - low → get_elem? es i ≡ entry_at u (low + i))
unfolding slice entry_at add64
slice_lem u low high v h k l = (
  take (high - low) (drop (low - u.offset) u.entries),
  ground arith,
  omega (
    arith,
    length-take (high - low) (drop (low - u.offset) u.entries),
    length-drop (low - u.offset) u.entries,
  ),
  Contiguous-take low (high - low) _
      (Contiguous-drop u.offset low (low - u.offset) u.entries (omega arith) v.contiguous),
  λ i p.
      get_elem?-take (high - low) i (drop (low - u.offset) u.entries) p
      ∙ get_elem?-drop (low - u.offset) i u.entries
      ∙ ground arith,
)
