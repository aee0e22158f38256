-- ===== src/RaftLog/Commit.antt =====
-- raft_log.cpp: the constructor, commit_to and maybe_commit.
use kvd.Base.{
  ℕ, max, ◌⊎◌, ◌+◌, ◌-◌, ◌≤◌, ◌<◌, ◌≡◌, ◌≢◌, refl, true, false, ◌&&◌, arith, ltb, ◌==◌,
  if◌then◌else◌, u64_mod, inl, inr, Bool-cases, ok, err, fatal, add64-eq, sub64-eq, Returns,
  get_elem?-none, ==_iff, lt→ltb, le→leb, not-leb,
}
use kvd.Proto.{Snapshot}
use kvd.Storage
use kvd.Storage.{MemoryStorage}
use kvd.Unstable
use kvd.RaftLog.{RaftLog, new, commit_to, maybe_commit, restore}
use kvd.RaftLog.View.{
  IsValid, first_of, end_of, storage_end, term_at, entry_at, stored_entry, last_index_lem,
  term_at-lt, term_at-past,
}
use kvd.RaftLog.Terms.{term_lem}

-- A log made on a valid storage is valid, holds exactly the storage's entries, and counts what the
-- storage has compacted as committed and applied.
pub new-IsValid :
    (st : MemoryStorage) (max_size : ℕ)
    → Storage.View.IsValid st
    → Returns (new st max_size) λ l.
      IsValid l
      × (l.committed ≡ Storage.View.offset st)
      × (l.applied ≡ Storage.View.offset st)
      × (end_of l ≡ storage_end st)
      × ((i : ℕ) → Storage.View.offset st < i → entry_at l i ≡ Storage.View.entry_at st i)
unfolding new Unstable.new entry_at stored_entry Storage.View.entry_at Unstable.View.entry_at
new-IsValid st max_size v =
    rw
      (
        (Storage.View.indices_lem st v).0,
        (Storage.View.indices_lem st v).1,
        add64-eq (storage_end st - 1) 1 (omega (arith, v.bounded, v.nonempty)),
        sub64-eq (Storage.View.offset st + 1) 1 (omega arith)
            (omega (arith, v.bounded, v.nonempty)),
      )
      (
        record {
          storage = v;
          unstable = record {
            contiguous = tt;
            bounded = omega (arith, v.bounded, v.nonempty);
            snapshot_before = tt;
          };
          joined = (
            omega (arith, v.nonempty),
            omega (arith, v.nonempty),
            inr (omega (arith, v.nonempty)),
          );
          committed_from = omega arith;
          committed_to = omega (arith, v.nonempty);
        },
        omega arith,
        omega arith,
        omega (arith, v.nonempty),
        λ i h. ground (arith, v.nonempty, get_elem?-none st.entries (i - Storage.View.offset st)),
      )

-- commit_to at every position.
pub commit_to_cases :
    (l : RaftLog) (to_commit : ℕ)
    → IsValid l
    → (to_commit ≤ l.committed → commit_to l to_commit ≡ ok l)
      × (l.committed < to_commit
          → to_commit < end_of l
          → (commit_to l to_commit ≡ ok (record l { committed = to_commit }))
            × IsValid (record l { committed = to_commit }))
      × (l.committed < to_commit → end_of l ≤ to_commit → commit_to l to_commit ≡ err fatal)
unfolding commit_to
commit_to_cases l c v = (
  λ h. ground arith,
  λ h k. (
    rw (lt→ltb l.committed c h, last_index_lem l v, le→leb c (end_of l - 1) (omega arith)) refl,
    record {
      storage = v.storage;
      unstable = v.unstable;
      joined = v.joined;
      committed_from = omega (arith, v.committed_from);
      committed_to = k;
    },
  ),
  λ h k.
      rw
        (
          lt→ltb l.committed c h,
          last_index_lem l v,
          not-leb c (end_of l - 1) (omega (arith, v.committed_to)),
        )
        refl,
)

-- commit_to a position of the log never fails: it keeps the log valid, takes the commit index to the
-- larger of the two, so never back, and changes nothing else.
pub commit_to-IsValid :
    (l : RaftLog) (to_commit : ℕ)
    → IsValid l
    → to_commit < end_of l
    → Returns
        (commit_to l to_commit)
        λ w. IsValid w × (w ≡ record l { committed = max l.committed to_commit })
commit_to-IsValid l c v k = elim (Bool-cases (ltb l.committed c)) [
  | inl later ↦
      let (moved, w) = (commit_to_cases l c v).1 (ground arith) k in
      let same : max l.committed c ≡ c = ground arith in rw moved (w, rw same refl)
  | inr early ↦
      let same : max l.committed c ≡ l.committed = ground arith in
      rw ((commit_to_cases l c v).0 (ground arith)) (v, rw same refl)
]

-- maybe_commit at every position.
maybe_commit_cases :
    (l : RaftLog) (max_index t : ℕ)
    → IsValid l
    → max_index < u64_mod
    → (l.committed < max_index
        → max_index < end_of l
        → term_at l max_index ≡ t
        → (maybe_commit l max_index t ≡ ok (true, record l { committed = max_index }))
          × IsValid (record l { committed = max_index }))
      × ((max_index ≤ l.committed) ⊎ (term_at l max_index ≢ t)
          → maybe_commit l max_index t ≡ ok (false, l))
      × (l.committed < max_index
          → end_of l ≤ max_index
          → term_at l max_index ≡ t
          → maybe_commit l max_index t ≡ err fatal)
unfolding maybe_commit
maybe_commit_cases l m t v b = (
  λ h k e.
      let (moved, w) = (commit_to_cases l m v).1 h k in
      (rw (lt→ltb l.committed m h, term_lem l m v b, (==_iff (term_at l m) t).1 e, moved) refl, w),
  λ h. rw (term_lem l m v b) (ground arith),
  λ h k e.
      rw
        (
          lt→ltb l.committed m h,
          term_lem l m v b,
          (==_iff (term_at l m) t).1 e,
          (commit_to_cases l m v).2 h k,
        )
        refl,
)

-- maybe_commit with a term past 0 never fails and keeps the log valid. It commits, and reports it,
-- exactly when the position is past the commit index and the log holds that term there; nothing
-- else of the log changes.
pub maybe_commit-IsValid :
    (l : RaftLog) (max_index t : ℕ)
    → IsValid l
    → max_index < u64_mod
    → 0 < t
    → Returns (maybe_commit l max_index t) λ r.
      IsValid r.1
      × (r.0 ≡ (ltb l.committed max_index && (term_at l max_index == t)))
      × (r.1 ≡ record l { committed = if r.0 then max_index else l.committed })
maybe_commit-IsValid l m t v b p = elim (Bool-cases (ltb l.committed m)) [
  | inr early ↦ rw ((maybe_commit_cases l m t v b).1 (inl (ground arith))) (v, rw early refl, refl)
  | inl later ↦ elim (Bool-cases (term_at l m == t)) [
    | inr other ↦
        rw ((maybe_commit_cases l m t v b).1 (inr (ground arith))) (v, rw (later, other) refl, refl)
    | inl same ↦
        let (moved, w) =
          (maybe_commit_cases l m t v b).0 (ground arith) (ground (arith, term_at-lt l m))
            (ground arith) in
        rw moved (w, rw (later, same) refl, refl)
  ]
]

-- A term of 0 matches past the end of the log, and maybe_commit is the fatal error of commit_to there.
pub maybe_commit-past_end :
    (l : RaftLog) (max_index : ℕ)
    → IsValid l
    → max_index < u64_mod
    → end_of l ≤ max_index
    → maybe_commit l max_index 0 ≡ err fatal
maybe_commit-past_end l m v b h =
    (maybe_commit_cases l m 0 v b).2 (omega (arith, v.committed_to)) h (term_at-past l m h)

-- restore of a snapshot leaves a valid log that starts, ends and is committed at it.
pub restore-IsValid :
    (l : RaftLog) (s : Snapshot)
    → IsValid l
    → s.metadata.index + 1 < u64_mod
    → let w = restore l s in
      IsValid w
      × (w.committed ≡ s.metadata.index)
      × (first_of w ≡ s.metadata.index + 1)
      × (end_of w ≡ s.metadata.index + 1)
      × ((i : ℕ) → term_at w i ≡ (if i == s.metadata.index then s.metadata.term else 0))
unfolding restore Unstable.restore term_at Unstable.View.entry_at Unstable.snapshot_term
restore-IsValid l s v b = rw (add64-eq s.metadata.index 1 b) (
  record {
    storage = v.storage;
    unstable = record { contiguous = tt; bounded = omega arith; snapshot_before = omega arith };
    joined = refl;
    committed_from = omega arith;
    committed_to = omega arith;
  },
  refl,
  refl,
  omega arith,
  λ i. ground arith,
)
