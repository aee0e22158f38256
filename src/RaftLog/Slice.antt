-- ===== src/RaftLog/Slice.antt =====
-- raft_log.cpp: slice and next_entries read the view.
use kvd.Base.{
  ℕ, min, max, ◌+◌, ◌-◌, ◌≤◌, ◌<◌, ◌≡◌, refl, sym, ◌∙◌, ap, subst, List, [], ◌++◌, Option, some,
  none, arith, length, get_elem?, ltb, if◌then◌else◌, u64_mod, inl, inr, Bool-cases, ok, add64,
  sub64, add64-eq, sub64-eq, get_elem?-append_left, get_elem?-append_right, length-append, lt→ltb,
  le→leb, not-ltb, ==-lt,
}
use kvd.Proto.{Entry, Snapshot, okay, is_ok}
use kvd.Proto.Size.{entry_limit_size}
use kvd.Proto.Size.Limit.{entry_limit_size-append, length-entry_limit_size}
use kvd.Storage
use kvd.Storage.{compacted}
use kvd.Storage.Reads.{entries_lem}
use kvd.Unstable
use kvd.Unstable.View.{slice_lem}
use kvd.RaftLog.{
  RaftLog, slice, slice_unstable, must_check_out_of_bounds, next_entries, has_next_entries,
}
use kvd.RaftLog.View.{
  IsValid, Joined, first_of, end_of, first_from, entry_at, stored_entry, first_index_lem,
  last_index_lem,
}

-- The entries of the log at the positions in [low, high).
pub record Range (l : RaftLog) (low high : ℕ) (es : List Entry) : Type 0 where
  pub size : length es ≡ high - low
  pub entries : (i : ℕ) → i < high - low → get_elem? es i ≡ entry_at l (low + i)

-- The bounds that the code checks.
must_check-okay :
    (l : RaftLog) (low high : ℕ)
    → IsValid l
    → first_of l ≤ low
    → low ≤ high
    → high ≤ end_of l
    → must_check_out_of_bounds l low high ≡ ok okay
unfolding must_check_out_of_bounds sub64
must_check-okay l low high v h k e =
    rw
      (le→leb low high k, first_index_lem l v, not-ltb low (first_of l) h, last_index_lem l v, size)
      (ground (arith, add64-eq (first_of l) (end_of l - first_of l)))
  where
    size : sub64 (add64 (end_of l - 1) 1) (first_of l) ≡ end_of l - first_of l
    size = omega (
      arith,
      v.unstable.bounded,
      v.committed_to,
      v.committed_from,
      add64-eq (end_of l - 1) 1,
      sub64-eq (end_of l) (first_of l),
    )

-- The unstable end of a range, after what `out` holds.
slice_unstable-okay :
    (l : RaftLog) (low high mid max_size : ℕ) (out : List Entry)
    → IsValid l
    → mid ≡ max low l.unstable.offset
    → mid < high
    → high ≤ end_of l
    → (es : List Entry) × (slice_unstable l low high max_size out
        ≡ ok (okay, entry_limit_size max_size (out ++ es)))
      × Range l mid high es
unfolding slice_unstable entry_at
slice_unstable-okay l low high mid max_size out v m h k =
    let (es, read, size, _, at) = slice_lem l.unstable mid high v.unstable (omega arith) h k in
    (
      es,
      rw (lt→ltb l.unstable.offset high (omega arith), ← m, read) refl,
      record { size = size; entries = λ i p. at i p ∙ ground arith },
    )

-- The stored entries of a range, where the log has no pending snapshot or the range ends before it.
stored-okay :
    (l : RaftLog) (low high max_size : ℕ)
    → IsValid l
    → first_of l ≤ low
    → low < l.unstable.offset
    → low < high
    → high ≤ l.unstable.offset
    → (es : List Entry) × (Storage.entries l.storage low high max_size []
        ≡ ok (okay, entry_limit_size max_size es))
      × Range l low high es
unfolding entry_at stored_entry
stored-okay l low high max_size v f h k e =
    let (es, read, size, at) = in_parts l.unstable.snapshot v.joined f in
    (es, read, record { size = size; entries = at })
  where
    in_parts :
        (s : Option Snapshot)
        → Joined s l.storage l.unstable.offset (length l.unstable.entries)
        → first_from s l.storage ≤ low
        → (es : List Entry) × (Storage.entries l.storage low high max_size []
            ≡ ok (okay, entry_limit_size max_size es))
          × (length es ≡ high - low)
          × ((i : ℕ)
              → i < high - low
              → get_elem? es i ≡ (
                  if ltb (low + i) l.unstable.offset
                  then stored_entry s l.storage (low + i)
                  else Unstable.View.entry_at l.unstable (low + i)))
    in_parts none j f =
        let (es, read, size, _, at) =
          entries_lem l.storage low high max_size v.storage (omega arith) k (omega arith) in
        (es, read, size, λ i p. at i p ∙ ground arith)
    in_parts (some s) j f = absurd (omega arith)

Range-append :
    (l : RaftLog) (low mid high : ℕ) (xs ys : List Entry)
    → low ≤ mid
    → mid ≤ high
    → Range l low mid xs
    → Range l mid high ys
    → Range l low high (xs ++ ys)
Range-append l low mid high xs ys h k p q = record {
  size = omega (arith, p.size, q.size, length-append xs ys);
  entries = λ i r. elim (Bool-cases (ltb i (mid - low))) [
    | inl left ↦ get_elem?-append_left xs ys i (ground (arith, p.size)) ∙ p.entries i (ground arith)
    | inr right ↦
        let position : mid + (i - length xs) ≡ low + i = ground (arith, p.size) in
        get_elem?-append_right xs ys i (ground (arith, p.size))
        ∙ q.entries (i - length xs) (ground (arith, p.size))
        ∙ ap (entry_at l) position
  ];
}

module _ (l : RaftLog) (low high max_size : ℕ) (v : IsValid l) (h : first_of l ≤ low)
    (k : low < high) (e : high ≤ end_of l) where
  -- A range that starts in the storage.
  from_storage :
      low < l.unstable.offset
      → (es : List Entry) × (slice l low high max_size [] ≡ ok (okay, entry_limit_size max_size es))
        × Range l low high es
  unfolding slice is_ok slice_unstable
  from_storage below =
      let mid : ℕ = min high l.unstable.offset in
      let (xs, read, range) =
        stored-okay l low mid max_size v h below (omega arith) (omega arith) in
      let wanted : sub64 mid low ≡ length xs =
        sub64-eq mid low (omega arith) (omega (arith, v.unstable.bounded)) ∙ sym range.size in
      elim (length-entry_limit_size max_size xs) [
        | inr cut ↦ elim (Bool-cases (ltb l.unstable.offset high)) [
          | inr within ↦
              let to_high : mid ≡ high = ground arith in
              (
                xs,
                rw
                    (
                      must_check-okay l low high v h (omega arith) e,
                      ==-lt low high k,
                      lt→ltb low l.unstable.offset below,
                      read,
                      wanted,
                      lt→ltb _ _ cut,
                    )
                    refl,
                subst (λ m. Range l low m xs) to_high range,
              )
          | inl across ↦
              let (ys, _, rest) =
                slice_unstable-okay l low high mid max_size xs v (ground arith) (ground arith) e in
              (
                xs ++ ys,
                rw
                    (
                      must_check-okay l low high v h (omega arith) e,
                      ==-lt low high k,
                      lt→ltb low l.unstable.offset below,
                      read,
                      wanted,
                      lt→ltb _ _ cut,
                    )
                    (ap (λ zs. ok (okay, zs)) (sym (cut_append xs ys cut))),
                Range-append l low mid high xs ys (omega arith) (omega arith) range rest,
              )
        ]
        | inl whole ↦ elim (Bool-cases (ltb l.unstable.offset high)) [
          | inr within ↦
              let to_high : mid ≡ high = ground arith in
              (
                xs,
                rw
                    (
                      must_check-okay l low high v h (omega arith) e,
                      ==-lt low high k,
                      lt→ltb low l.unstable.offset below,
                      read,
                      wanted,
                      whole,
                      not-ltb (length xs) (length xs) (omega arith),
                      slice_unstable,
                      within,
                      whole,
                    )
                    refl,
                subst (λ m. Range l low m xs) to_high range,
              )
          | inl across ↦
              let (ys, tail, rest) =
                slice_unstable-okay l low high mid max_size xs v (ground arith) (ground arith) e in
              (
                xs ++ ys,
                rw
                    (
                      must_check-okay l low high v h (omega arith) e,
                      ==-lt low high k,
                      lt→ltb low l.unstable.offset below,
                      read,
                      wanted,
                      whole,
                      not-ltb (length xs) (length xs) (omega arith),
                    )
                    tail,
                Range-append l low mid high xs ys (omega arith) (omega arith) range rest,
              )
        ]
      ]
    where
      cut_append :
          (xs ys : List Entry)
          → length (entry_limit_size max_size xs) < length xs
          → entry_limit_size max_size (xs ++ ys) ≡ entry_limit_size max_size xs
      cut_append xs ys cut = elim (entry_limit_size-append max_size xs ys) [
        | inl whole ↦ absurd (omega (arith, ap length whole))
        | inr same ↦ same
      ]

  -- slice of a range inside the log returns the entries of the range, cut to the size limit, both
  -- across the border of the storage and on either side of it.
  pub slice-Range :
      (es : List Entry) × (slice l low high max_size [] ≡ ok (okay, entry_limit_size max_size es))
      × Range l low high es
  unfolding slice is_ok
  slice-Range = elim (Bool-cases (ltb low l.unstable.offset)) [
    | inl below ↦ from_storage (ground arith)
    | inr above ↦
        let (es, read, range) =
          slice_unstable-okay l low high low max_size [] v (ground arith) k e in
        (
          es,
          rw (must_check-okay l low high v h (omega arith) e, ==-lt low high k, above) read,
          range,
        )
  ]

-- The position after the applied ones, or the first one of the log.
abbrev pub next_from : RaftLog → ℕ
next_from l = max (l.applied + 1) (first_of l)

no_entries : (l : RaftLog) (low high : ℕ) → high ≤ low → Range l low high []
no_entries l low high h = record { size = omega arith; entries = λ i p. absurd (omega arith) }

-- next_entries never fails, and returns the committed entries that are not applied, cut to the size
-- limit; has_next_entries tells whether there are any.
pub next_entries-Range :
    (l : RaftLog)
    → IsValid l
    → l.applied + 1 < u64_mod
    → (es : List Entry) × (next_entries l [] ≡ ok (entry_limit_size l.max_next_ents_size es))
      × Range l (next_from l) (l.committed + 1) es
      × (has_next_entries l ≡ ok (ltb 0 (length es)))
unfolding next_entries has_next_entries is_ok entry_limit_size
next_entries-Range l v b = elim (Bool-cases (ltb (next_from l) (l.committed + 1))) [
  | inl some_new ↦
      let (es, read, range) =
        slice-Range l (next_from l) (l.committed + 1) l.max_next_ents_size v (omega arith)
          (ground arith) (omega (arith, v.committed_to)) in
      (
        es,
        rw (first_index_lem l v, plus, commit, some_new, read) refl,
        range,
        rw (first_index_lem l v, plus, commit, some_new)
            (ap ok (sym (lt→ltb 0 (length es) (ground (arith, range.size))))),
      )
  | inr none_new ↦ (
    [],
    rw (first_index_lem l v, plus, commit, none_new) refl,
    no_entries l (next_from l) (l.committed + 1) (ground arith),
    rw (first_index_lem l v, plus, commit, none_new) refl,
  )
]
  where
    plus : add64 l.applied 1 ≡ l.applied + 1
    plus = add64-eq l.applied 1 b

    commit : add64 l.committed 1 ≡ l.committed + 1
    commit = add64-eq l.committed 1 (omega (arith, v.committed_to, v.unstable.bounded))
