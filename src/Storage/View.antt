-- ===== src/Storage/View.antt =====
-- MemoryStorage as a partial map from log positions to entries, the dummy's position included.
use kvd.Base.{
  ℕ, ◌+◌, ◌-◌, ◌<◌, ◌≡◌, List, [], ◌∷◌, Option, none, arith, length, get_elem?, ltb, if◌then◌else◌,
  u64_mod, List-cases, ok, add64-eq, sub64-eq,
}
use kvd.Proto.{Entry}
use kvd.Storage.{MemoryStorage, dummy_index, last_index, first_index, new}
use kvd.Unstable.Entries.{Contiguous}

-- The position of the dummy.
abbrev pub offset_of : List Entry → ℕ
offset_of [] = 0
offset_of (e ∷ es) = e.index

abbrev pub offset : MemoryStorage → ℕ
offset st = offset_of st.entries

pub record IsValid (st : MemoryStorage) : Type 0 where
  pub nonempty : 0 < length st.entries
  pub contiguous : Contiguous (offset st) st.entries
  pub bounded : offset st + length st.entries < u64_mod

unfoldable pub entry_at : MemoryStorage → ℕ → Option Entry
entry_at st i = if ltb i (offset st) then none else get_elem? st.entries (i - offset st)

pub new-IsValid : IsValid new
unfolding new
new-IsValid = omega arith

pub dummy_index-ok : (st : MemoryStorage) → IsValid st → dummy_index st ≡ ok (offset st)
unfolding dummy_index
dummy_index-ok st v = ground (arith, List-cases st.entries)

-- In a valid storage the first index is one past the dummy, and the last one is the last entry's.
pub indices_lem :
    (st : MemoryStorage)
    → IsValid st
    → (first_index st ≡ ok (offset st + 1))
      × (last_index st ≡ ok (offset st + length st.entries - 1))
unfolding first_index last_index
indices_lem st v = (
  rw (dummy_index-ok st v) (ground (arith, add64-eq (offset st) 1)),
  rw (dummy_index-ok st v) (
      ground (
        arith,
        add64-eq (offset st) (length st.entries),
        sub64-eq (offset st + length st.entries) 1,
      )),
)
