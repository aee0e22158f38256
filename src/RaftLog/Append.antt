-- ===== src/RaftLog/Append.antt =====
-- raft_log.cpp: append, as a splice of the whole log.
use kvd.Base.{
  ℕ, suc, ◌+◌, ◌-◌, ◌≤◌, ◌<◌, ◌≡◌, refl, sym, subst, List, [], ◌∷◌, Option, some, none, arith,
  length, get_elem?, ltb, if◌then◌else◌, u64_mod, inl, err, fatal, sub64-eq, Returns, Returns-value,
  Returns-mono, le→leb, not-leb,
}
use kvd.Proto.{Entry, Snapshot}
use kvd.Storage.{MemoryStorage}
use kvd.Unstable
use kvd.Unstable.{Unstable}
use kvd.Unstable.Entries.{Contiguous}
use kvd.Unstable.View.{term_of, SnapshotBefore}
use kvd.Unstable.Append.{truncate_and_append-Splices}
use kvd.RaftLog.{RaftLog, append}
use kvd.RaftLog.View.{
  IsValid, Joined, first_of, end_of, first_from, term_at, entry_at, or_zero, last_index_lem,
}

-- The log with its entries from position `n` on replaced by `xs`; the commit index stays.
pub record Splices (l : RaftLog) (n : ℕ) (xs : List Entry) (w : RaftLog) : Type 0 where
  pub valid : IsValid w
  pub committed : w.committed ≡ l.committed
  pub applied : w.applied ≡ l.applied
  pub first : first_of w ≡ first_of l
  pub last : end_of w ≡ n + length xs
  pub entries : (i : ℕ) → entry_at w i ≡ (if ltb i n then entry_at l i else get_elem? xs (i - n))
  pub terms :
      (i : ℕ)
      → term_at w i ≡ (if ltb i n then term_at l i else or_zero (term_of (get_elem? xs (i - n))))

after_snapshot :
    (s : Option Snapshot) (st : MemoryStorage) (committed n : ℕ)
    → first_from s st ≤ committed + 1
    → committed < n
    → SnapshotBefore s n
after_snapshot none st committed n p h = tt
after_snapshot (some s) st committed n p h = omega arith

module _ (l : RaftLog) (v : IsValid l) (n : ℕ) (xs : List Entry) (h : l.committed < n)
    (k : n ≤ end_of l) (some_new : 0 < length xs) (u : Unstable)
    (sp : Unstable.Append.Splices l.unstable n xs u) where
  joined_lem :
      (s : Option Snapshot)
      → first_from s l.storage ≤ l.committed + 1
      → Joined s l.storage l.unstable.offset (length l.unstable.entries)
      → Joined s l.storage u.offset (length u.entries)
  joined_lem none p j = (omega (arith, sp.2), omega (arith, sp.2), inl (omega (arith, sp.2, sp.3)))
  joined_lem (some s) p j = omega (arith, sp.2)

  spliced : RaftLog
  spliced = record l { unstable = u }

  spliced-IsValid : IsValid spliced
  unfolding spliced
  spliced-IsValid = record {
    storage = v.storage;
    unstable = sp.0;
    joined = rw sp.1 (joined_lem l.unstable.snapshot v.committed_from v.joined);
    committed_from = rw sp.1 v.committed_from;
    committed_to = omega (arith, sp.3);
  }

  spliced-Splices : Splices l n xs spliced
  unfolding spliced entry_at term_at
  spliced-Splices = record {
    valid = spliced-IsValid;
    committed = refl;
    applied = refl;
    first = rw sp.1 refl;
    last = sp.3;
    entries = λ i. rw sp.1 (ground (arith, sp.2, sp.4 i));
    terms = λ i. rw sp.1 (ground (arith, sp.2, sp.4 i));
  }

-- append of entries past the commit index that leave no gap never fails, and returns the last index.
-- The log then holds them from the first of them on and nothing after them; before it nothing
-- changes, and neither do the commit and the applied index.
pub append-Splices :
    (l : RaftLog) (e : Entry) (es : List Entry)
    → IsValid l
    → Contiguous e.index (e ∷ es)
    → e.index + length (e ∷ es) < u64_mod
    → l.committed < e.index
    → e.index ≤ end_of l
    → Returns (append l (e ∷ es)) λ r. (r.0 ≡ e.index + length es) × Splices l e.index (e ∷ es) r.1
unfolding append spliced
append-Splices l e es v c b h k =
    let (u, returned, sp) =
      Returns-value (Unstable.Append.Splices l.unstable e.index (e ∷ es))
        (Unstable.truncate_and_append l.unstable (e ∷ es))
        (truncate_and_append-Splices l.unstable e es v.unstable c b
          (after_snapshot l.unstable.snapshot l.storage l.committed e.index v.committed_from h)
          k) in
    let w : RaftLog = record l { unstable = u } in
    rw
      (
        sub64-eq e.index 1 (omega arith) (omega arith),
        le→leb l.committed (e.index - 1) (omega arith),
        returned,
        last_index_lem w (spliced-IsValid l v e.index (e ∷ es) h k (omega arith) u sp),
      )
      (omega (arith, sp.3), spliced-Splices l v e.index (e ∷ es) h k (omega arith) u sp)

-- An entry at or before the commit index is the fatal error.
pub append-committed :
    (l : RaftLog) (e : Entry) (es : List Entry)
    → 0 < e.index
    → e.index < u64_mod
    → e.index ≤ l.committed
    → append l (e ∷ es) ≡ err fatal
unfolding append
append-committed l e es p b h =
    rw (sub64-eq e.index 1 p b, not-leb l.committed (e.index - 1) (omega arith)) refl

-- The same for a list that starts at the position `n`.
pub append_at :
    (l : RaftLog) (n : ℕ) (xs : List Entry)
    → IsValid l
    → Contiguous n xs
    → 0 < length xs
    → n + length xs < u64_mod
    → l.committed < n
    → n ≤ end_of l
    → Returns (append l xs) (λ r. Splices l n xs r.1)
append_at l n [] v c some_new b h k = absurd (omega arith)
append_at l n (e ∷ es) v c some_new b h k =
    subst (λ m. Returns (append l (e ∷ es)) (λ r. Splices l m (e ∷ es) r.1)) c.0
      (Returns-mono _ _ (append l (e ∷ es))
        (append-Splices l e es v (refl, subst (λ m. Contiguous (suc m) es) (sym c.0) c.1)
          (omega (arith, c.0)) (omega (arith, c.0)) (omega (arith, c.0)))
        λ r p. p.1)
