-- ===== src/Storage/Reads.antt =====
-- storage.cpp: term and entries read the view, and never out of bounds.
use kvd.Base.{
  ℕ, zero, suc, ◌+◌, ◌-◌, ◌≤◌, ◌<◌, ◌≡◌, refl, ◌∙◌, ap, List, [], Option, some, none, arith, length,
  get_elem?, take, drop, ltb, if◌then◌else◌, u64_mod, ok, err, fatal, assertion, add64, add64-eq,
  sub64-eq, get_elem?-some, get_elem?-none, drop-get_elem?, get_elem?-take, get_elem?-drop,
  length-drop-take,
}
use kvd.Proto.{Entry, Status, okay}
use kvd.Proto.Size.{entry_limit_size}
use kvd.Storage.{MemoryStorage, term, entries, copy_range, compacted, unavailable}
use kvd.Storage.View.{IsValid, offset, entry_at, dummy_index-ok, indices_lem}
use kvd.Unstable.Entries.{Contiguous, Contiguous-take, Contiguous-drop}

copy_range-eq :
    (es : List Entry) (count i : ℕ)
    → i + count ≤ length es
    → length es < u64_mod
    → copy_range es count i ≡ ok (take count (drop i es))
unfolding copy_range
copy_range-eq es zero i h b = refl
copy_range-eq es (suc count) i h b =
    let (a, e) = get_elem?-some es i (omega arith) in
    let next : add64 i 1 ≡ suc i = omega (arith, add64-eq i 1) in
    rw (e, next, copy_range-eq es count (suc i) (omega arith) b, drop-get_elem? es i a e)

abbrev pub term_output : Option Entry → Status × Option ℕ
term_output none = (unavailable, none)
term_output (some e) = (okay, some e.term)

-- term answers at every position: `compacted` before the dummy, the term of the entry from the
-- dummy on, and `unavailable` past the last entry.
pub term_lem :
    (st : MemoryStorage) (i : ℕ)
    → IsValid st
    → i < u64_mod
    → term st i ≡ ok (if ltb i (offset st) then (compacted, none) else term_output (entry_at st i))
unfolding term entry_at
term_lem st i v b = rw (dummy_index-ok st v) (
    ground (
      arith,
      sub64-eq i (offset st),
      get_elem?-some st.entries (i - offset st),
      get_elem?-none st.entries (i - offset st),
    ))

-- entries returns the part of the log in [low, high), cut to the size limit, when the range
-- lies past the dummy and before the end.
pub entries_lem :
    (st : MemoryStorage) (low high max_size : ℕ)
    → IsValid st
    → offset st < low
    → low < high
    → high ≤ offset st + length st.entries
    → (es : List Entry) × (entries st low high max_size []
        ≡ ok (okay, entry_limit_size max_size es))
      × (length es ≡ high - low)
      × Contiguous low es
      × ((i : ℕ) → i < high - low → get_elem? es i ≡ entry_at st (low + i))
unfolding entries entry_at
entries_lem st low high max_size v h k l = (
  take (high - low) (drop (low - offset st) st.entries),
  rw (dummy_index-ok st v, (indices_lem st v).1)
      (ground (
        arith,
        add64-eq (offset st + length st.entries - 1) 1,
        sub64-eq high (offset st),
        sub64-eq low (offset st),
        rounds,
        copy_range-eq st.entries (high - low) (low - offset st),
      )),
  length-drop-take (low - offset st) (high - low) st.entries (omega arith),
  Contiguous-take low (high - low) _
      (Contiguous-drop (offset st) low (low - offset st) st.entries (omega arith) v.contiguous),
  λ i p.
      get_elem?-take (high - low) i (drop (low - offset st) st.entries) p
      ∙ get_elem?-drop (low - offset st) i st.entries
      ∙ ground (arith, ap (get_elem? st.entries) (reindex i)),
)
  where
    rounds : high - offset st - (low - offset st) ≡ high - low
    rounds = omega arith

    reindex : (i : ℕ) → low - offset st + i ≡ low + i - offset st
    reindex i = omega arith

-- The other answers of entries: an empty range fails the assert, a range that starts before the
-- log is refused as compacted, and one that goes past its end is the fatal error.
pub entries-errors :
    (st : MemoryStorage) (low high max_size : ℕ) (out : List Entry)
    → IsValid st
    → (high ≤ low → entries st low high max_size out ≡ err assertion)
      × (low < high → low ≤ offset st → entries st low high max_size out ≡ ok (compacted, out))
      × (low < high
          → offset st < low
          → offset st + length st.entries < high
          → entries st low high max_size out ≡ err fatal)
unfolding entries
entries-errors st low high max_size out v = (
  λ h. ground arith,
  λ h k. rw (dummy_index-ok st v) (ground arith),
  λ h k l.
      rw (dummy_index-ok st v, (indices_lem st v).1)
        (ground (arith, add64-eq (offset st + length st.entries - 1) 1)),
)
