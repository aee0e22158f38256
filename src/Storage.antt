-- ===== src/Storage.antt =====
-- raft-kv/raft/storage.h and storage.cpp: MemoryStorage. `entries[0]` is a dummy that holds the
-- index and the term of the last compacted entry, so `entries[i]` has the position `i` past it.
-- Its lock is held for the whole of each call, so a call is one step. A call that assigns no value
-- to its output returns `none` for it.
pub mod View
pub mod Reads
pub mod Append
pub mod Compaction
use kvd.Base.{
  ℕ, ◌-◌, Bool, List, [], ◌∷◌, ◌++◌, Option, none, some, ltb, leb, ◌==◌, if◌then◌else◌, not, length,
  get_elem?, take, drop, add64, sub64, Result, ok, err, fatal, assertion, undefined, ◌>>=◌, ◌>>◌,
  check, deref, erase_front, zero, suc,
}
use kvd.Proto.{
  Entry, Snapshot, SnapshotMetadata, ConfState, HardState, Status, okay, invalid_argument,
  empty_entry, empty_snapshot, empty_hard_state,
}
use kvd.Proto.Size.{entry_limit_size}

pub record MemoryStorage : Type 0 where
  pub hard_state : HardState
  pub snapshot : Snapshot
  pub entries : List Entry

abbrev pub compacted : Status
compacted = invalid_argument "requested index is unavailable due to compaction"

abbrev pub unavailable : Status
unavailable = invalid_argument "requested entry at index is unavailable"

abbrev pub snapshot_out_of_date : Status
snapshot_out_of_date = invalid_argument "requested index is older than the existing snapshot"

-- The constructor.
unfoldable pub new : MemoryStorage
new = record {
  hard_state = empty_hard_state;
  snapshot = empty_snapshot;
  entries = empty_entry ∷ [];
}

unfoldable pub initial_state : MemoryStorage → Status × HardState × ConfState
initial_state st = (okay, st.hard_state, st.snapshot.metadata.conf_state)

unfoldable pub set_hard_state : MemoryStorage → HardState → MemoryStorage
set_hard_state st hs = record st { hard_state = hs }

-- `entries_[0]->index`
unfoldable pub dummy_index : MemoryStorage → Result ℕ
dummy_index st = do d ← deref (get_elem? st.entries 0); ok d.index

unfoldable pub last_index : MemoryStorage → Result ℕ
last_index st = do offset ← dummy_index st; ok (sub64 (add64 offset (length st.entries)) 1)

unfoldable pub first_index : MemoryStorage → Result ℕ
first_index st = do offset ← dummy_index st; ok (add64 offset 1)

-- The loop that copies `count` entries from the index `i` on.
unfoldable pub copy_range : List Entry → ℕ → ℕ → Result (List Entry)
copy_range es zero i = ok []
copy_range es (suc count) i = do
  e ← deref (get_elem? es i)
  rest ← copy_range es count (add64 i 1)
  ok (e ∷ rest)

-- `out` is the caller's vector, which the call extends.
unfoldable pub entries : MemoryStorage → ℕ → ℕ → ℕ → List Entry → Result (Status × List Entry)
entries st low high max_size out = do
  check (ltb low high) assertion
  offset ← dummy_index st
  if leb low offset then ok (compacted, out) else (do
    last ← last_index st
    check (leb high (add64 last 1)) fatal
    if length st.entries == 1 then ok (unavailable, out) else (do
      es ← copy_range st.entries (sub64 high offset - sub64 low offset) (sub64 low offset)
      ok (okay, entry_limit_size max_size (out ++ es))))

unfoldable pub term : MemoryStorage → ℕ → Result (Status × Option ℕ)
term st i = do
  offset ← dummy_index st
  if ltb i offset
      then ok (compacted, none)
      else if leb (length st.entries) (sub64 i offset)
      then ok (unavailable, none)
      else (deref (get_elem? st.entries (sub64 i offset)) >>= λ e. ok (okay, some e.term))

unfoldable pub snapshot : MemoryStorage → Status × Snapshot
snapshot st = (okay, st.snapshot)

-- `entries_[0]` takes the index and the term of `entries_[i]`, and the `i` entries after it go.
unfoldable pub move_dummy : List Entry → ℕ → Entry → Result (List Entry)
unfolding erase_front
move_dummy [] i e = err undefined
move_dummy (d ∷ rest) i e = do
  kept ← erase_front i rest
  ok (record d { index = e.index; term = e.term } ∷ kept)

unfoldable pub compact : MemoryStorage → ℕ → Result (Status × MemoryStorage)
unfolding move_dummy
compact st compact_index = do
  offset ← dummy_index st
  if leb compact_index offset then ok (compacted, st) else (do
    last ← last_index st
    check (leb compact_index last) fatal
    e ← deref (get_elem? st.entries (sub64 compact_index offset))
    es ← move_dummy st.entries (sub64 compact_index offset) e
    ok (okay, record st { entries = es }))

-- The end of append: the entries `es`, of which the first one is at or past first_index.
unfoldable pub append_new : MemoryStorage → List Entry → Result (Status × MemoryStorage)
append_new st es = do
  e ← deref (get_elem? es 0)
  first ← dummy_index st
  let offset : ℕ = sub64 e.index first
  if ltb offset (length st.entries)
      then ok (okay, record st { entries = take offset st.entries ++ es })
      else if length st.entries == offset
      then ok (okay, record st { entries = st.entries ++ es })
      else err fatal

unfoldable pub append : MemoryStorage → List Entry → Result (Status × MemoryStorage)
unfolding erase_front
append st [] = ok (okay, st)
append st (e ∷ es) = do
  first ← first_index st
  if ltb (sub64 (add64 e.index (length (e ∷ es))) 1) first
      then ok (okay, st)
      else if ltb e.index first
      then (erase_front (sub64 first e.index) (e ∷ es) >>= λ kept. append_new st kept)
      else append_new st (e ∷ es)

-- `cs` is `none` for a null pointer. The result's snapshot is the output parameter.
unfoldable pub create_snapshot :
    MemoryStorage → ℕ → Option ConfState → List ℕ → Result (Status × Snapshot × MemoryStorage)
create_snapshot st index cs payload =
    if leb index st.snapshot.metadata.index
    then ok (snapshot_out_of_date, empty_snapshot, st)
    else (do
      offset ← dummy_index st
      last ← last_index st
      check (leb index last) fatal
      e ← deref (get_elem? st.entries (sub64 index offset))
      let conf : ConfState = elim cs [ none ↦ st.snapshot.metadata.conf_state | some c ↦ c ]
      let s : Snapshot = record {
        payload = payload;
        metadata = record { conf_state = conf; index = index; term = e.term };
      }
      ok (okay, s, record st { snapshot = s }))

unfoldable pub apply_snapshot : MemoryStorage → Snapshot → Status × MemoryStorage
apply_snapshot st s =
    if leb s.metadata.index st.snapshot.metadata.index then (snapshot_out_of_date, st) else (
      okay,
      record st {
        snapshot = s;
        entries = record empty_entry { term = s.metadata.term; index = s.metadata.index } ∷ [];
      },
    )
