-- ===== src/RaftLog.antt =====
-- raft-kv/raft/raft_log.h and raft_log.cpp: the log of a node, its storage followed by its unstable
-- part. `StoragePtr` is MemoryStorage, the one implementation of the interface. Log lines are left
-- out. A call with an output vector takes it as `out` and returns it extended.
pub mod View
pub mod Terms
pub mod Commit
pub mod Append
pub mod MaybeAppend
pub mod Slice
use kvd.Base.{
  ℕ, Bool, true, false, List, [], ◌∷◌, ◌++◌, Option, none, some, min, max, ltb, leb, ◌==◌,
  if◌then◌else◌, not, ◌&&◌, ◌||◌, length, add64, sub64, u64_max, Result, ok, err, fatal, assertion,
  ◌>>=◌, ◌>>◌, check, deref, erase_front,
}
use kvd.Proto.{Entry, Snapshot, Status, okay, is_ok}
use kvd.Proto.Size.{entry_limit_size}
use kvd.Storage
use kvd.Storage.{MemoryStorage, compacted}
use kvd.Unstable
use kvd.Unstable.{Unstable}

pub record RaftLog : Type 0 where
  pub storage : MemoryStorage
  pub unstable : Unstable
  pub committed : ℕ
  pub applied : ℕ
  pub max_next_ents_size : ℕ

-- RaftLog::unlimited
abbrev pub unlimited : ℕ
unlimited = u64_max

-- The constructor.
unfoldable pub new : MemoryStorage → ℕ → Result RaftLog
new storage max_next_ents_size = do
  first ← Storage.first_index storage
  last ← Storage.last_index storage
  ok (record {
    storage = storage;
    unstable = Unstable.new (add64 last 1);
    committed = sub64 first 1;
    applied = sub64 first 1;
    max_next_ents_size = max_next_ents_size;
  })

unfoldable pub first_index : RaftLog → Result ℕ
first_index l = elim (Unstable.maybe_first_index l.unstable) [
  | some index ↦ ok index
  | none ↦ Storage.first_index l.storage
]

unfoldable pub last_index : RaftLog → Result ℕ
last_index l = elim (Unstable.maybe_last_index l.unstable) [
  | some index ↦ ok index
  | none ↦ Storage.last_index l.storage
]

-- The second component is the output `t`, `none` where it is not assigned.
unfoldable pub term : RaftLog → ℕ → Result (Status × Option ℕ)
term l index = do
  first ← first_index l
  last ← last_index l
  if ltb index (sub64 first 1) || ltb last index then ok (okay, some 0) else (do
    found ← Unstable.maybe_term l.unstable index
    elim found [ some t ↦ ok (okay, some t) | none ↦ Storage.term l.storage index ])

unfoldable pub last_term : RaftLog → Result ℕ
last_term l = do
  last ← last_index l
  (status, t) ← term l last
  check (is_ok status) assertion
  deref t

unfoldable pub match_term : RaftLog → ℕ → ℕ → Result Bool
match_term l index t = do
  (status, term_out) ← term l index
  if is_ok status then (deref term_out >>= λ u. ok (t == u)) else ok false

unfoldable pub is_up_to_date : RaftLog → ℕ → ℕ → Result Bool
is_up_to_date l lasti t = do
  lt ← last_term l
  last ← last_index l
  ok (ltb lt t || (t == lt && leb last lasti))

unfoldable pub find_conflict : RaftLog → List Entry → Result ℕ
find_conflict l [] = ok 0
find_conflict l (e ∷ es) =
    let rest = find_conflict l es in
    match_term l e.index e.term >>= λ matched. if matched then rest else ok e.index

unfoldable pub commit_to : RaftLog → ℕ → Result RaftLog
commit_to l to_commit =
    if ltb l.committed to_commit
    then (do
      last ← last_index l
      check (leb to_commit last) fatal
      ok (record l { committed = to_commit }))
    else ok l

unfoldable pub append : RaftLog → List Entry → Result (ℕ × RaftLog)
append l [] = do last ← last_index l; ok (last, l)
append l (e ∷ es) = do
  check (leb l.committed (sub64 e.index 1)) fatal
  u ← Unstable.truncate_and_append l.unstable (e ∷ es)
  let l' : RaftLog = record l { unstable = u }
  last ← last_index l'
  ok (last, l')

-- The part of maybe_append that depends on the conflict `ci`.
unfoldable pub append_from : RaftLog → ℕ → ℕ → List Entry → Result RaftLog
append_from l index ci es =
    if ci == 0
    then ok l
    else if leb ci l.committed
    then err fatal
    else do kept ← erase_front (sub64 ci (add64 index 1)) es; (last, l') ← append l kept; ok l'

-- The result is `some` of the last new index where `ok` is true.
unfoldable pub maybe_append : RaftLog → ℕ → ℕ → ℕ → List Entry → Result (Option ℕ × RaftLog)
maybe_append l index log_term committed es = do
  matched ← match_term l index log_term
  if matched
      then (do
        let lastnewi : ℕ = add64 index (length es)
        ci ← find_conflict l es
        l' ← append_from l index ci es
        l'' ← commit_to l' (min committed lastnewi)
        ok (some lastnewi, l''))
      else ok (none, l)

unfoldable pub maybe_commit : RaftLog → ℕ → ℕ → Result (Bool × RaftLog)
maybe_commit l max_index t =
    if ltb l.committed max_index
    then (do
      (status, found) ← term l max_index
      u ← deref found
      if u == t then (commit_to l max_index >>= λ l'. ok (true, l')) else ok (false, l))
    else ok (false, l)

unfoldable pub restore : RaftLog → Snapshot → RaftLog
restore l s = record l { committed = s.metadata.index; unstable = Unstable.restore s }

unfoldable pub snapshot : RaftLog → Status × Snapshot
snapshot l = elim l.unstable.snapshot [ some s ↦ (okay, s) | none ↦ Storage.snapshot l.storage ]

-- An index out of range is only logged.
unfoldable pub applied_to : RaftLog → ℕ → RaftLog
applied_to l index = if index == 0 then l else record l { applied = index }

unfoldable pub stable_to : RaftLog → ℕ → ℕ → Result RaftLog
stable_to l index t = do u ← Unstable.stable_to l.unstable index t; ok (record l { unstable = u })

unfoldable pub stable_snap_to : RaftLog → ℕ → RaftLog
stable_snap_to l index = record l { unstable = Unstable.stable_snap_to l.unstable index }

unfoldable pub must_check_out_of_bounds : RaftLog → ℕ → ℕ → Result Status
must_check_out_of_bounds l low high = do
  check (leb low high) assertion
  first ← first_index l
  if ltb low first then ok compacted else (do
    last ← last_index l
    let length : ℕ = sub64 (add64 last 1) first
    check (not (ltb low first || ltb (add64 first length) high)) fatal
    ok okay)

-- The end of slice: the unstable entries, and the cut by size.
unfoldable pub slice_unstable : RaftLog → ℕ → ℕ → ℕ → List Entry → Result (Status × List Entry)
slice_unstable l low high max_size out =
    if ltb l.unstable.offset high
    then (do
      es ← Unstable.slice l.unstable (max low l.unstable.offset) high
      ok (okay, entry_limit_size max_size (out ++ es)))
    else ok (okay, entry_limit_size max_size out)

unfoldable pub slice : RaftLog → ℕ → ℕ → ℕ → List Entry → Result (Status × List Entry)
slice l low high max_size out = do
  status ← must_check_out_of_bounds l low high
  if not (is_ok status)
      then ok (status, out)
      else if low == high
      then ok (okay, out)
      else if ltb low l.unstable.offset
      then (do
        (stored, out') ← Storage.entries l.storage low (min high l.unstable.offset) max_size out
        if not (is_ok stored)
            then ok (stored, out')
            else if ltb (length out') (sub64 (min high l.unstable.offset) low)
            then ok (okay, out')
            else slice_unstable l low high max_size out')
      else slice_unstable l low high max_size out

unfoldable pub entries : RaftLog → ℕ → ℕ → List Entry → Result (Status × List Entry)
entries l index max_size out = do
  last ← last_index l
  if ltb last index then ok (okay, out) else slice l index (add64 last 1) max_size out

unfoldable pub next_entries : RaftLog → List Entry → Result (List Entry)
next_entries l out = do
  first ← first_index l
  let off : ℕ = max (add64 l.applied 1) first
  if ltb off (add64 l.committed 1)
      then (do
        (status, out') ← slice l off (add64 l.committed 1) l.max_next_ents_size out
        check (is_ok status) fatal
        ok out')
      else ok out

unfoldable pub has_next_entries : RaftLog → Result Bool
has_next_entries l = do
  first ← first_index l
  ok (ltb (max (add64 l.applied 1) first) (add64 l.committed 1))
