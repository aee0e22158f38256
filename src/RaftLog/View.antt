-- ===== src/RaftLog/View.antt =====
-- The log of a node as one partial map from positions to entries and terms: what its storage holds
-- before the unstable offset, then the unstable entries. A pending snapshot hides the storage.
use kvd.Base.{
  ℕ, ◌⊎◌, ◌+◌, ◌-◌, ◌≤◌, ◌<◌, ◌≡◌, ◌∙◌, ap, List, [], ◌∷◌, Option, some, none, arith, length,
  get_elem?-none, ltb, if◌then◌else◌, ok, add64-eq, sub64-add64_one,
}
use kvd.Proto.{Entry, Snapshot}
use kvd.Storage
use kvd.Storage.{MemoryStorage}
use kvd.Unstable
use kvd.Unstable.{Unstable, snapshot_term}
use kvd.Unstable.View.{term_of}
use kvd.RaftLog.{RaftLog, first_index, last_index}

-- One past the last entry of the storage.
abbrev pub storage_end : MemoryStorage → ℕ
storage_end st = Storage.View.offset st + length st.entries

-- One past the last entry of the log.
abbrev pub end_of : RaftLog → ℕ
end_of l = l.unstable.offset + length l.unstable.entries

abbrev pub first_from : Option Snapshot → MemoryStorage → ℕ
first_from none st = Storage.View.offset st + 1
first_from (some s) st = s.metadata.index + 1

-- The first position of the log that may hold an entry.
abbrev pub first_of : RaftLog → ℕ
first_of l = first_from l.unstable.snapshot l.storage

-- Without a pending snapshot the unstable entries continue the storage or overwrite its end, and
-- the storage ends where they start if there are none. With one they start right after it.
abbrev pub Joined : Option Snapshot → MemoryStorage → ℕ → ℕ → Type 0
Joined none st offset count =
    (Storage.View.offset st < offset)
    × (offset ≤ storage_end st)
    × ((0 < count) ⊎ (offset ≡ storage_end st))
Joined (some s) st offset count = offset ≡ s.metadata.index + 1

pub record IsValid (l : RaftLog) : Type 0 where
  pub storage : Storage.View.IsValid l.storage
  pub unstable : Unstable.View.IsValid l.unstable
  pub joined : Joined l.unstable.snapshot l.storage l.unstable.offset (length l.unstable.entries)
  pub committed_from : first_of l ≤ l.committed + 1
  pub committed_to : l.committed < end_of l

-- The entry below the unstable offset.
unfoldable pub stored_entry : Option Snapshot → MemoryStorage → ℕ → Option Entry
stored_entry none st i = if ltb i (first_from none st) then none else Storage.View.entry_at st i
stored_entry (some s) st i = none

unfoldable pub entry_at : RaftLog → ℕ → Option Entry
unfolding stored_entry
entry_at l i =
    if ltb i l.unstable.offset
    then stored_entry l.unstable.snapshot l.storage i
    else Unstable.View.entry_at l.unstable i

-- The term below the unstable offset; the last compacted position still has one.
unfoldable pub stored_term : Option Snapshot → MemoryStorage → ℕ → Option ℕ
stored_term none st i = term_of (Storage.View.entry_at st i)
stored_term (some s) st i = snapshot_term (some s) i

abbrev pub or_zero : Option ℕ → ℕ
or_zero none = 0
or_zero (some t) = t

-- The term at a position; 0 out of the log.
unfoldable pub term_at : RaftLog → ℕ → ℕ
unfolding stored_term
term_at l i = or_zero (
    if ltb i l.unstable.offset
    then stored_term l.unstable.snapshot l.storage i
    else term_of (Unstable.View.entry_at l.unstable i))

-- A position with a term lies before the end of the log, and one past the end has the term 0.
pub term_at-lt : (l : RaftLog) (i : ℕ) → 0 < term_at l i → (i < l.unstable.offset) ⊎ (i < end_of l)
unfolding term_at Unstable.View.entry_at
term_at-lt l i h = ground (arith, get_elem?-none l.unstable.entries (i - l.unstable.offset))

pub term_at-past : (l : RaftLog) (i : ℕ) → end_of l ≤ i → term_at l i ≡ 0
unfolding term_at Unstable.View.entry_at
term_at-past l i h = ground (arith, get_elem?-none l.unstable.entries (i - l.unstable.offset))

-- `l` with the given parts.
abbrev pub with_parts : RaftLog → Option Snapshot → List Entry → RaftLog
with_parts l s es = record l { unstable = record l.unstable { snapshot = s; entries = es } }

-- In a valid log the first and the last index are computed without a fault.
pub first_index_lem : (l : RaftLog) → IsValid l → first_index l ≡ ok (first_of l)
unfolding first_index Unstable.maybe_first_index
first_index_lem l v = in_parts l.unstable.snapshot v
  where
    in_parts :
        (s : Option Snapshot)
        → IsValid (with_parts l s l.unstable.entries)
        → first_index (with_parts l s l.unstable.entries) ≡ ok (first_from s l.storage)
    in_parts none w = (Storage.View.indices_lem l.storage w.storage).0
    in_parts (some s) w = ap ok (
        add64-eq s.metadata.index 1 (omega (arith, w.unstable.bounded, w.unstable.snapshot_before)))

pub last_index_lem : (l : RaftLog) → IsValid l → last_index l ≡ ok (end_of l - 1)
unfolding last_index Unstable.maybe_last_index
last_index_lem l v = in_parts l.unstable.snapshot l.unstable.entries v
  where
    in_parts :
        (s : Option Snapshot) (es : List Entry)
        → IsValid (with_parts l s es)
        → last_index (with_parts l s es) ≡ ok (l.unstable.offset + length es - 1)
    in_parts none [] w =
        (Storage.View.indices_lem l.storage w.storage).1 ∙ ap ok (ground (arith, w.joined))
    in_parts (some s) [] w = ap ok (omega (arith, w.joined))
    in_parts s (e ∷ es) w =
        ap ok (sub64-add64_one l.unstable.offset (length (e ∷ es)) (omega arith) w.unstable.bounded)
