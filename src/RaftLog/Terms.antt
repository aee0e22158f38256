-- ===== src/RaftLog/Terms.antt =====
-- raft_log.cpp: term, match_term, last_term, is_up_to_date and find_conflict against the view.
use kvd.Base.{
  ℕ, ◌⊎◌, ◌↔◌, suc, ◌+◌, ◌-◌, ◌≤◌, ◌<◌, ◌≡◌, ◌≢◌, refl, sym, ◌∙◌, ap, Bool, true, ◌&&◌, ◌||◌, List,
  [], ◌∷◌, Option, some, none, arith, length, ltb, leb, ◌==◌, u64_mod, inl, inr, Bool-cases, ok,
  sub64-eq, Returns, Returns-mono, Returns-value, get_elem?-some, get_elem?-none,
}
use kvd.Proto.{Entry, Snapshot, okay, is_ok}
use kvd.Storage
use kvd.Storage.Reads
use kvd.Unstable
use kvd.Unstable.{snapshot_term}
use kvd.Unstable.View.{term_of, maybe_term_lem}
use kvd.Unstable.Entries.{Contiguous}
use kvd.RaftLog.{RaftLog, term, last_term, match_term, is_up_to_date, find_conflict}
use kvd.RaftLog.View.{
  IsValid, first_of, end_of, term_at, with_parts, first_index_lem, last_index_lem,
}

-- term succeeds at every position, with the term of the view: 0 before the last compacted position
-- and after the last entry.
pub term_lem :
    (l : RaftLog) (i : ℕ) → IsValid l → i < u64_mod → term l i ≡ ok (okay, some (term_at l i))
unfolding term term_at Unstable.View.entry_at Storage.View.entry_at snapshot_term
term_lem l i v b = in_parts l.unstable.snapshot v
  where
    in_parts :
        (s : Option Snapshot)
        → IsValid (with_parts l s l.unstable.entries)
        → term (with_parts l s l.unstable.entries) i
          ≡ ok (okay, some (term_at (with_parts l s l.unstable.entries) i))
    in_parts none w =
        let k : RaftLog = with_parts l none l.unstable.entries in
        rw (first_index_lem k w, last_index_lem k w, maybe_term_lem k.unstable i w.unstable)
          (ground (
            arith,
            sub64-eq (first_of k) 1 (omega arith) (omega (arith, w.unstable.bounded, w.joined)),
            w.joined,
            Storage.Reads.term_lem k.storage i w.storage b,
            get_elem?-some k.storage.entries (i - Storage.View.offset k.storage),
            get_elem?-none k.storage.entries (i - Storage.View.offset k.storage),
            get_elem?-some k.unstable.entries (i - k.unstable.offset),
            get_elem?-none k.unstable.entries (i - k.unstable.offset),
          ))
    in_parts (some s) w =
        let k : RaftLog = with_parts l (some s) l.unstable.entries in
        rw (first_index_lem k w, last_index_lem k w, maybe_term_lem k.unstable i w.unstable)
          (ground (
            arith,
            sub64-eq (first_of k) 1 (omega arith) (omega (arith, w.unstable.bounded, w.joined)),
            w.joined,
            get_elem?-some k.unstable.entries (i - k.unstable.offset),
            get_elem?-none k.unstable.entries (i - k.unstable.offset),
          ))

-- So match_term, last_term and is_up_to_date never fault, and compare with the view.
pub match_term_lem :
    (l : RaftLog) (i t : ℕ) → IsValid l → i < u64_mod → match_term l i t ≡ ok (t == term_at l i)
unfolding match_term is_ok
match_term_lem l i t v b = rw (term_lem l i v b) refl

pub last_term_lem : (l : RaftLog) → IsValid l → last_term l ≡ ok (term_at l (end_of l - 1))
unfolding last_term is_ok
last_term_lem l v =
    rw (last_index_lem l v, term_lem l (end_of l - 1) v (omega (arith, v.unstable.bounded))) refl

-- is_up_to_date holds exactly for a log whose last term is later, or is the same with a last index
-- that is not smaller.
pub is_up_to_date_lem :
    (l : RaftLog) (lasti t : ℕ)
    → IsValid l
    → (up : Bool) × (is_up_to_date l lasti t ≡ ok up)
      × ((up ≡ true) ↔ (
          (term_at l (end_of l - 1) < t)
          ⊎ ((t ≡ term_at l (end_of l - 1)) × (end_of l - 1 ≤ lasti))))
unfolding is_up_to_date
is_up_to_date_lem l lasti t v = (
  ltb (term_at l (end_of l - 1)) t || (t == term_at l (end_of l - 1) && leb (end_of l - 1) lasti),
  rw (last_term_lem l v, last_index_lem l v) refl,
  ground arith,
)

-- The entries have the terms of the log at their positions.
abbrev pub Agrees : RaftLog → List Entry → Type 0
Agrees l [] = Unit {0}
Agrees l (e ∷ es) = (e.term ≡ term_at l e.index) × Agrees l es

-- The conflict of entries with a log: 0 when all of them agree with it, and otherwise the index of the
-- first one that does not.
abbrev pub Conflict : RaftLog → List Entry → ℕ → Type 0
Conflict l [] ci = ci ≡ 0
Conflict l (e ∷ es) ci =
    ((e.term ≡ term_at l e.index) × Conflict l es ci)
    ⊎ ((e.term ≢ term_at l e.index) × (ci ≡ e.index))

-- find_conflict on entries at consecutive positions never fails. It returns 0 when all of them have the
-- terms of the log at their positions, and otherwise the index of the first one that does not.
pub find_conflict-Conflict :
    (l : RaftLog) (n : ℕ) (es : List Entry)
    → IsValid l
    → Contiguous n es
    → n + length es < u64_mod
    → Returns (find_conflict l es) (Conflict l es)
unfolding find_conflict
find_conflict-Conflict l n [] v c b = refl
find_conflict-Conflict l n (e ∷ es) v c b =
    rw (match_term_lem l e.index e.term v (omega (arith, c.0)))
      (elim (Bool-cases (e.term == term_at l e.index)) [
        | inl same ↦ rw same (
            Returns-mono _ _ (find_conflict l es)
              (find_conflict-Conflict l (suc n) es v c.1 (omega arith))
              λ ci h. inl (ground arith, h))
        | inr other ↦ rw other (inr (ground arith, refl))
      ])

-- There is one conflict.
Conflict-unique :
    (l : RaftLog) (es : List Entry) (a b : ℕ) → Conflict l es a → Conflict l es b → a ≡ b
Conflict-unique l [] a b p q = p ∙ sym q
Conflict-unique l (e ∷ es) a b (inl p) (inl q) = Conflict-unique l es a b p.1 q.1
Conflict-unique l (e ∷ es) a b (inl p) (inr q) = absurd (q.0 p.0)
Conflict-unique l (e ∷ es) a b (inr p) (inl q) = absurd (p.0 q.0)
Conflict-unique l (e ∷ es) a b (inr p) (inr q) = p.1 ∙ sym q.1

pub find_conflict_value :
    (l : RaftLog) (n : ℕ) (es : List Entry) (ci : ℕ)
    → IsValid l
    → Contiguous n es
    → n + length es < u64_mod
    → Conflict l es ci
    → find_conflict l es ≡ ok ci
find_conflict_value l n es ci v c b p =
    let (found, returned, q) =
      Returns-value (Conflict l es) (find_conflict l es) (find_conflict-Conflict l n es v c b) in
    returned ∙ ap ok (Conflict-unique l es found ci q p)
