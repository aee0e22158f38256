-- ===== src/Storage/Compaction.antt =====
-- storage.cpp: compact, create_snapshot and apply_snapshot.
use kvd.Base.{
  ℕ, suc, ◌+◌, ◌-◌, ◌≤◌, ◌<◌, ◌≡◌, refl, ◌∙◌, ap, List, [], ◌∷◌, Option, some, none, arith, length,
  get_elem?, drop, u64_mod, ok, err, fatal, undefined, sub64, sub64-eq, Returns, le→leb, not-leb,
  not-ltb, get_elem?-some, get_elem?-none, length-drop, get_elem?-drop,
}
use kvd.Proto.{Entry, Snapshot, ConfState, okay, empty_snapshot}
use kvd.Storage.{
  MemoryStorage, compact, compacted, create_snapshot, apply_snapshot, snapshot_out_of_date,
}
use kvd.Storage.View.{IsValid, offset, offset_of, entry_at, dummy_index-ok, indices_lem}
use kvd.Unstable.Entries.{Contiguous-index, Contiguous-drop}
use kvd.Unstable.View.{term_of}

-- The storage with its log up to position `n` compacted: the term at `n` is all that stays of it.
abbrev pub Compacts : MemoryStorage → ℕ → MemoryStorage → Type 0
Compacts st n w =
    IsValid w
    × (offset w ≡ n)
    × (offset w + length w.entries ≡ offset st + length st.entries)
    × (w.snapshot ≡ st.snapshot)
    × (term_of (entry_at w n) ≡ term_of (entry_at st n))
    × ((i : ℕ) → n < i → entry_at w i ≡ entry_at st i)

module _ (base : MemoryStorage) (d : Entry) (rest : List Entry) (n j : ℕ) (e : Entry)
    (at_n : n ≡ d.index + suc j) (at_j : get_elem? rest j ≡ some e)
    (v : IsValid (record base { entries = d ∷ rest })) where
  moved : List Entry
  moved = record d { index = e.index; term = e.term } ∷ drop (suc j) rest

  e-index : e.index ≡ n
  e-index = omega (arith, Contiguous-index (suc d.index) j rest e v.contiguous.1 at_j)

  moved-term :
      term_of (entry_at (record base { entries = moved }) n)
      ≡ term_of (entry_at (record base { entries = d ∷ rest }) n)
  unfolding entry_at moved
  moved-term =
      let now : n - e.index ≡ 0 = omega (arith, e-index) in
      let before : n - d.index ≡ suc j = omega arith in
      ground (arith, e-index, at_j, ap (get_elem? moved) now, ap (get_elem? (d ∷ rest)) before)

  moved-rest :
      (i : ℕ)
      → n < i
      → entry_at (record base { entries = moved }) i
        ≡ entry_at (record base { entries = d ∷ rest }) i
  unfolding entry_at moved
  moved-rest i h =
      let now : i - e.index ≡ suc (i - n - 1) = omega (arith, e-index) in
      let before : i - d.index ≡ suc (suc j + (i - n - 1)) = omega arith in
      ground (
        arith,
        e-index,
        ap (get_elem? moved) now,
        ap (get_elem? (d ∷ rest)) before,
        get_elem?-drop (suc j) (i - n - 1) rest,
      )

  moved-Compacts :
      j < length rest
      → Compacts (record base { entries = d ∷ rest }) n (record base { entries = moved })
  unfolding moved
  moved-Compacts h = (
    record {
      nonempty = omega arith;
      contiguous = (
        refl,
        Contiguous-drop (suc d.index) (suc e.index) (suc j) rest (omega (arith, e-index))
            v.contiguous.1,
      );
      bounded = omega (arith, e-index, length-drop (suc j) rest, v.bounded);
    },
    e-index,
    omega (arith, e-index, length-drop (suc j) rest),
    refl,
    moved-term,
    moved-rest,
  )

-- compact on a storage whose dummy is `d`.
compact_in_parts :
    (base : MemoryStorage) (d : Entry) (rest : List Entry) (n j : ℕ)
    → n ≡ d.index + suc j
    → j < length rest
    → IsValid (record base { entries = d ∷ rest })
    → Returns
        (compact (record base { entries = d ∷ rest }) n)
        (λ r. (r.0 ≡ okay) × Compacts (record base { entries = d ∷ rest }) n r.1)
unfolding compact moved
compact_in_parts base d rest n j at_n h v =
    let st : MemoryStorage = record base { entries = d ∷ rest } in
    let (e, at_j) = get_elem?-some rest j h in
    let i : sub64 n d.index ≡ suc j =
      sub64-eq n d.index (omega arith) (omega (arith, v.bounded)) ∙ omega arith in
    rw
      (
        dummy_index-ok st v,
        (indices_lem st v).1,
        not-leb n d.index (omega arith),
        le→leb n (d.index + length st.entries - 1) (omega arith),
        i,
        at_j,
      )
      (rw (not-ltb (length rest) (suc j) (omega arith))
        (refl, moved-Compacts base d rest n j e at_n at_j v h))

-- compact at every position.
compact_cases :
    (st : MemoryStorage) (n : ℕ)
    → IsValid st
    → (n ≤ offset st → compact st n ≡ ok (compacted, st))
      × (offset st < n
          → n < offset st + length st.entries
          → Returns (compact st n) (λ r. (r.0 ≡ okay) × Compacts st n r.1))
      × (offset st + length st.entries ≤ n → compact st n ≡ err fatal)
unfolding compact
compact_cases st n v = (
  λ h. rw (dummy_index-ok st v) (ground arith),
  λ h k. in_parts st.entries v h k,
  λ h. rw (dummy_index-ok st v, (indices_lem st v).1) (ground arith),
)
  where
    in_parts :
        (es : List Entry)
        → IsValid (record st { entries = es })
        → offset_of es < n
        → n < offset_of es + length es
        → Returns
            (compact (record st { entries = es }) n)
            (λ r. (r.0 ≡ okay) × Compacts (record st { entries = es }) n r.1)
    in_parts [] w h k = absurd (omega (arith, w.nonempty))
    in_parts (d ∷ rest) w h k =
        compact_in_parts st d rest n (n - d.index - 1) (omega arith) (omega arith) w

-- compact at a position of the log past the dummy never fails: it keeps the storage valid, the entries
-- past the position, the term at it and the last index, and moves the dummy to it.
pub compact-Compacts :
    (st : MemoryStorage) (n : ℕ)
    → IsValid st
    → offset st < n
    → n < offset st + length st.entries
    → Returns (compact st n) (λ r. (r.0 ≡ okay) × Compacts st n r.1)
compact-Compacts st n v h k = (compact_cases st n v).1 h k

-- compact refuses a position that is compacted already, and changes nothing then.
pub compact-compacted :
    (st : MemoryStorage) (n : ℕ) → IsValid st → n ≤ offset st → compact st n ≡ ok (compacted, st)
compact-compacted st n v h = (compact_cases st n v).0 h

-- compact past the last entry is the fatal error.
pub compact-past_end :
    (st : MemoryStorage) (n : ℕ)
    → IsValid st
    → offset st + length st.entries ≤ n
    → compact st n ≡ err fatal
compact-past_end st n v h = (compact_cases st n v).2 h

-- The subtraction wraps round, past the end of any vector that fits.
before_offset : (n k len : ℕ) → n < k → k + len < u64_mod → len ≤ sub64 n k
unfolding sub64
before_offset n k len h b = omega arith

-- create_snapshot at every position.
create_snapshot_cases :
    (st : MemoryStorage) (n : ℕ) (cs : Option ConfState) (bytes : List ℕ)
    → IsValid st
    → (n ≤ st.snapshot.metadata.index
        → (s : Snapshot) × (create_snapshot st n cs bytes ≡ ok (snapshot_out_of_date, s, st)))
      × (st.snapshot.metadata.index < n
          → offset st ≤ n
          → n < offset st + length st.entries
          → Returns (create_snapshot st n cs bytes) λ r.
            (r.0 ≡ okay)
            × (r.1.metadata.index ≡ n)
            × (some r.1.metadata.term ≡ term_of (entry_at st n))
            × (r.1.payload ≡ bytes)
            × (r.1.metadata.conf_state
                ≡ elim cs [ none ↦ st.snapshot.metadata.conf_state | some c ↦ c ])
            × (r.2 ≡ record st { snapshot = r.1 }))
      × (st.snapshot.metadata.index < n
          → offset st + length st.entries ≤ n
          → create_snapshot st n cs bytes ≡ err fatal)
      × (st.snapshot.metadata.index < n
          → n < offset st
          → create_snapshot st n cs bytes ≡ err undefined)
unfolding create_snapshot entry_at
create_snapshot_cases st n cs bytes v = (
  λ h. (empty_snapshot, ground arith),
  λ h k l.
      let (e, at_n) = get_elem?-some st.entries (n - offset st) (omega arith) in
      let i : sub64 n (offset st) ≡ n - offset st =
        sub64-eq n (offset st) k (omega (arith, v.bounded)) in
      rw
        (
          not-leb n st.snapshot.metadata.index h,
          dummy_index-ok st v,
          (indices_lem st v).1,
          le→leb n (offset st + length st.entries - 1) (omega arith),
          i,
          at_n,
          not-ltb n (offset st) k,
        )
        (refl, refl, refl, refl, refl, refl),
  λ h k.
      rw
        (
          not-leb n st.snapshot.metadata.index h,
          dummy_index-ok st v,
          (indices_lem st v).1,
          not-leb n (offset st + length st.entries - 1) (omega (arith, v.nonempty)),
        )
        refl,
  λ h k.
      let far : length st.entries ≤ sub64 n (offset st) =
        before_offset n (offset st) (length st.entries) k v.bounded in
      rw
        (
          not-leb n st.snapshot.metadata.index h,
          dummy_index-ok st v,
          (indices_lem st v).1,
          le→leb n (offset st + length st.entries - 1) (omega arith),
          get_elem?-none st.entries (sub64 n (offset st)) far,
        )
        refl,
)

-- create_snapshot at a position of the log past the snapshot held records the position, the term of
-- the log there, the data, and the configuration (the one given, or the previous one). It changes
-- nothing else.
pub create_snapshot-records :
    (st : MemoryStorage) (n : ℕ) (cs : Option ConfState) (bytes : List ℕ)
    → IsValid st
    → st.snapshot.metadata.index < n
    → offset st ≤ n
    → n < offset st + length st.entries
    → Returns (create_snapshot st n cs bytes) λ r.
      (r.0 ≡ okay)
      × (r.1.metadata.index ≡ n)
      × (some r.1.metadata.term ≡ term_of (entry_at st n))
      × (r.1.payload ≡ bytes)
      × (r.1.metadata.conf_state ≡ elim cs [ none ↦ st.snapshot.metadata.conf_state | some c ↦ c ])
      × (r.2 ≡ record st { snapshot = r.1 })
create_snapshot-records st n cs bytes v h k l = (create_snapshot_cases st n cs bytes v).1 h k l

-- create_snapshot past the snapshot held but before the dummy reads out of bounds: the subtraction
-- of the index wraps round.
pub create_snapshot-before_log :
    (st : MemoryStorage) (n : ℕ) (cs : Option ConfState) (bytes : List ℕ)
    → IsValid st
    → st.snapshot.metadata.index < n
    → n < offset st
    → create_snapshot st n cs bytes ≡ err undefined
create_snapshot-before_log st n cs bytes v h k = (create_snapshot_cases st n cs bytes v).3 h k

-- apply_snapshot of a later snapshot leaves a valid storage that starts right after it.
pub apply_snapshot_lem :
    (st : MemoryStorage) (s : Snapshot)
    → st.snapshot.metadata.index < s.metadata.index
    → s.metadata.index + 1 < u64_mod
    → let r = apply_snapshot st s in
      (r.0 ≡ okay)
      × IsValid r.1
      × (r.1.snapshot ≡ s)
      × (offset r.1 ≡ s.metadata.index)
      × (term_of (entry_at r.1 s.metadata.index) ≡ some s.metadata.term)
      × ((i : ℕ) → s.metadata.index < i → entry_at r.1 i ≡ none)
unfolding apply_snapshot entry_at
apply_snapshot_lem st s h b = (
  ground arith,
  record { nonempty = ground arith; contiguous = ground arith; bounded = ground arith },
  ground arith,
  ground arith,
  ground arith,
  λ i p. ground arith,
)
