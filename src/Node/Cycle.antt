-- ===== src/Node/Cycle.antt =====
-- node.cpp and ready.cpp: what a Ready hands out is saved in the storage, and advance drops it from the
-- unstable part of the log, which stays the same log.
use kvd.Base.{
  ℕ, zero, suc, ◌+◌, ◌-◌, ◌≤◌, ◌<◌, ◌≡◌, refl, ap, ap₂, not-ltb, ◌∙◌, inl, inr, true, false, List,
  [], ◌∷◌, length, Option, some, none, get_elem?, get_elem?-none, get_elem?-eq-get_or, get_or,
  drop-all, arith, ltb, ◌==◌, if◌then◌else◌, ok, Returns, Returns-mono, Returns-ok, Bool-cases,
  subst,
}
use kvd.Proto.{Snapshot, Entry, is_empty, okay}
use kvd.Storage
use kvd.Storage.{MemoryStorage}
use kvd.Storage.Append.{append-Writes, Writes}
use kvd.Unstable
use kvd.Unstable.{Unstable}
use kvd.Unstable.View.{term_of}
use kvd.Unstable.Entries.{Contiguous}
use kvd.Unstable.Stable.{stable_to-hit}
use kvd.RaftLog
use kvd.RaftLog.{RaftLog}
use kvd.RaftLog.View.{IsValid, end_of, entry_at, stored_entry, Joined, storage_end, first_from}
use kvd.Ready.{Ready, last_entry, applied_cursor}
use kvd.Node.{advance_log}

-- The last of some entries at consecutive positions.
last_entry_lem :
    (n : ℕ) (e : Entry) (es : List Entry)
    → Contiguous n (e ∷ es)
    → (x : Entry) × (last_entry (e ∷ es) ≡ some x)
      × (x.index ≡ n + length es)
      × (get_elem? (e ∷ es) (length es) ≡ some x)
unfolding last_entry
last_entry_lem n e [] c = (e, refl, omega (arith, c.0), refl)
last_entry_lem n e (f ∷ es) c =
    let (x, last, index, found) = last_entry_lem (suc n) f es c.1 in
    (x, last, omega (arith, index), found)

-- A log after all its unstable entries reached the storage.
abbrev drained : RaftLog → MemoryStorage → ℕ → RaftLog
drained l st applied = record l {
  storage = st;
  unstable = record l.unstable { entries = []; offset = end_of l };
  applied = applied;
}

past : (xs : List Entry) (i : ℕ) → get_elem? xs i ≡ none → length xs ≤ i
past [] i h = omega arith
past (x ∷ xs) zero h = cc
past (x ∷ xs) (suc i) h = omega (arith, past xs i h)

inside : (xs : List Entry) (i : ℕ) (x : Entry) → get_elem? xs i ≡ some x → i < length xs
inside [] i x h = cc
inside (y ∷ xs) zero x h = omega arith
inside (y ∷ xs) (suc i) x h = omega (arith, inside xs i x h)

module _ (l : RaftLog) (v : IsValid l) (no_snapshot : l.unstable.snapshot ≡ none) (e : Entry)
    (es : List Entry) (new_entries : l.unstable.entries ≡ e ∷ es) where
  stable_to-drained :
      (x : Entry)
      → x.index ≡ l.unstable.offset + length es
      → get_elem? (e ∷ es) (length es) ≡ some x
      → Unstable.stable_to l.unstable x.index x.term
        ≡ ok (record l.unstable { entries = []; offset = end_of l })
  unfolding Unstable.View.entry_at
  stable_to-drained x index found =
      stable_to-hit l.unstable x.index x.term v.unstable here
      ∙ ap₂ (λ xs n. ok (record l.unstable { entries = xs; offset = n }))
          (drop-all (x.index + 1 - l.unstable.offset) l.unstable.entries
            (omega (arith, index, ap length new_entries)))
          (omega (arith, index, ap length new_entries))
    where
      at : x.index - l.unstable.offset ≡ length es
      at = omega (arith, index)

      here : term_of (Unstable.View.entry_at l.unstable x.index) ≡ some x.term
      here =
          rw (not-ltb x.index l.unstable.offset (omega (arith, index)), at, new_entries, found) refl

  from : l.unstable.offset ≡ e.index
  from = omega (arith, (subst (Contiguous l.unstable.offset) new_entries v.unstable.contiguous).0)

  before :
      (Storage.View.offset l.storage < l.unstable.offset)
      × (l.unstable.offset ≤ storage_end l.storage)
  before = let j = joined l.unstable.snapshot no_snapshot v.joined in (j.0, j.1)
    where
      joined :
          (s : Option Snapshot)
          → s ≡ none
          → Joined s l.storage l.unstable.offset (length l.unstable.entries)
          → Joined none l.storage l.unstable.offset (length l.unstable.entries)
      joined s q j =
          subst (λ t. Joined t l.storage l.unstable.offset (length l.unstable.entries)) q j

  from_first : Storage.View.offset l.storage ≤ l.committed
  from_first =
      omega
        (arith, subst (λ s. first_from s l.storage ≤ l.committed + 1) no_snapshot v.committed_from)

  module _ (st : MemoryStorage) (w : Writes l.storage e.index (e ∷ es) st) where
    at_end : get_elem? st.entries (end_of l - Storage.View.offset st) ≡ none
    unfolding Storage.View.entry_at
    at_end = ground (
      arith,
      before,
      from,
      w.1,
      ap length new_entries,
      w.2 (end_of l) (omega (arith, before)),
      get_elem?-none (e ∷ es) (end_of l - e.index),
    )

    at_last :
        get_elem? st.entries (end_of l - 1 - Storage.View.offset st)
        ≡ some (get_or (e ∷ es) (end_of l - 1 - e.index) e)
    unfolding Storage.View.entry_at
    at_last = ground (
      arith,
      before,
      from,
      w.1,
      ap length new_entries,
      w.2 (end_of l - 1) (omega (arith, before, ap length new_entries)),
      get_elem?-eq-get_or (e ∷ es) (end_of l - 1 - e.index) e,
    )

    -- The storage ends where the log does.
    st_end : storage_end st ≡ end_of l
    st_end = omega (
      arith,
      before,
      from,
      w.1,
      ap length new_entries,
      past st.entries (end_of l - Storage.View.offset st) at_end,
      inside st.entries (end_of l - 1 - Storage.View.offset st) _ at_last,
    )

  -- The log after the cycle.
  drained-Same :
      (st : MemoryStorage) (applied : ℕ)
      → Writes l.storage e.index (e ∷ es) st
      → IsValid (drained l st applied)
        × ((i : ℕ) → entry_at (drained l st applied) i ≡ entry_at l i)
  unfolding entry_at stored_entry Unstable.View.entry_at
  drained-Same st applied (w, same, written) = (
    record {
      storage = w;
      unstable = record {
        contiguous = tt;
        bounded = omega (arith, v.unstable.bounded);
        snapshot_before = rw no_snapshot tt;
      };
      joined = rw no_snapshot (omega (arith, before, same, st_end st (w, same, written)));
      committed_from = rw no_snapshot (omega (arith, same, from_first));
      committed_to = omega (arith, v.committed_to);
    },
    λ i.
        rw (no_snapshot, new_entries)
          (ground (
            arith,
            from,
            before,
            same,
            ap length new_entries,
            written i,
            get_elem?-none (e ∷ es) (i - l.unstable.offset),
          )),
  )

  advance_log-drained :
      (rd : Ready) (st : MemoryStorage)
      → rd.entries ≡ e ∷ es
      → is_empty rd.snapshot ≡ true
      → advance_log rd (record l { storage = st })
        ≡ ok (drained l st (if ltb 0 (applied_cursor rd) then applied_cursor rd else l.applied))
  unfolding advance_log RaftLog.stable_to RaftLog.applied_to
  advance_log-drained rd st handed no_snap =
      let (x, last, index, found) =
        last_entry_lem l.unstable.offset e es
          (subst (Contiguous l.unstable.offset) new_entries v.unstable.contiguous) in
      elim (Bool-cases (ltb 0 (applied_cursor rd))) [
        | inl some_applied ↦
            let positive : (applied_cursor rd == 0) ≡ false = ground arith in
            rw
              (
                ap last_entry handed ∙ last,
                some_applied,
                positive,
                stable_to-drained x index found,
                no_snap,
              )
              refl
        | inr none_applied ↦
            rw (ap last_entry handed ∙ last, none_applied, stable_to-drained x index found, no_snap)
              refl
      ]

-- After the unstable entries of a log were handed out and appended to the storage, advance drops them
-- from the unstable part and keeps the log: it is valid, ends where it ended, has the same entry at
-- every position and the same commit index. What was handed out as committed counts as applied.
-- Neither call fails. No snapshot is pending.
pub advance_log-Same :
    (l : RaftLog) (rd : Ready) (e : Entry) (es : List Entry)
    → IsValid l
    → l.unstable.snapshot ≡ none
    → l.unstable.entries ≡ e ∷ es
    → rd.entries ≡ e ∷ es
    → is_empty rd.snapshot ≡ true
    → Returns (Storage.append l.storage (e ∷ es)) λ p.
      (p.0 ≡ okay)
      × Returns (advance_log rd (record l { storage = p.1 })) λ w.
        IsValid w
        × (w.unstable.entries ≡ [])
        × (end_of w ≡ end_of l)
        × (w.committed ≡ l.committed)
        × (w.applied ≡ (if ltb 0 (applied_cursor rd) then applied_cursor rd else l.applied))
        × ((i : ℕ) → entry_at w i ≡ entry_at l i)
advance_log-Same l rd e es v no_snapshot new_entries handed no_snap =
    Returns-mono _ _ (Storage.append l.storage (e ∷ es))
      (append-Writes l.storage e es v.storage contiguous
        (omega (arith, v.unstable.bounded, start, ap length new_entries))
        (omega (arith, start, (before l v no_snapshot e es new_entries).1))
        (omega (arith, start, (before l v no_snapshot e es new_entries).0)))
      λ p q. (
        q.0,
        Returns-ok _ (advance_log-drained l v no_snapshot e es new_entries rd p.1 handed no_snap) (
            let (valid, same) =
              drained-Same l v no_snapshot e es new_entries p.1
                (if ltb 0 (applied_cursor rd) then applied_cursor rd else l.applied) q.1 in
            (valid, refl, omega arith, refl, refl, same)),
      )
  where
    start : l.unstable.offset ≡ e.index
    start = from l v no_snapshot e es new_entries

    contiguous : Contiguous e.index (e ∷ es)
    contiguous =
        subst (λ n. Contiguous n (e ∷ es)) start
          (subst (Contiguous l.unstable.offset) new_entries v.unstable.contiguous)
