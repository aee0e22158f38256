-- ===== src/Tests/Logs.antt =====
-- Runs on the sample log.
use kvd.Base.{
  ◌≡◌, inr, refl, List, [], ◌∷◌, some, arith, length, ok, err, fatal, ltb, ◌==◌, ◌&&◌,
  if◌then◌else◌, Returns, u64_max,
}
use kvd.Proto.{Entry, okay}
use kvd.Proto.Size.{entry_limit_size}
use kvd.Storage
use kvd.Unstable
use kvd.RaftLog.{append, maybe_append, maybe_commit, slice, next_entries, has_next_entries}
use kvd.RaftLog.View.{IsValid, term_at, stored_term}
use kvd.RaftLog.Commit.{maybe_commit-IsValid}
use kvd.RaftLog.Append.{Splices, append-Splices}
use kvd.RaftLog.MaybeAppend.{Accepted, maybe_append-Accepted, maybe_append-fatal}
use kvd.RaftLog.Slice.{Range, slice-Range, next_entries-Range}
use kvd.Tests.Samples.{entry, log, log-IsValid}

maybe_commit_example : Returns (maybe_commit log 6 2) λ r.
    IsValid r.1
    × (r.0 ≡ (ltb 4 6 && (term_at log 6 == 2)))
    × (r.1 ≡ record log { committed = if r.0 then 6 else 4 })
maybe_commit_example = maybe_commit-IsValid log 6 2 log-IsValid (omega arith) (omega arith)

append_example_log :
    Returns
      (append log (entry 7 4 ∷ entry 8 4 ∷ []))
      λ r. (r.0 ≡ 8) × Splices log 7 (entry 7 4 ∷ entry 8 4 ∷ []) r.1
append_example_log =
    append-Splices log (entry 7 4) (entry 8 4 ∷ []) log-IsValid (ground arith) (omega arith)
      (omega arith) (omega arith)

-- What the log holds at the positions that the runs use.
pub log_terms :
    (term_at log 5 ≡ 2) × (term_at log 6 ≡ 2) × (term_at log 3 ≡ 1) × (term_at log 4 ≡ 2)
unfolding term_at stored_term Storage.View.entry_at Unstable.View.entry_at
log_terms = (refl, refl, refl, refl)

maybe_append_example :
    Returns
      (maybe_append log 5 (term_at log 5) 6 (entry 6 4 ∷ []))
      λ r. (r.0 ≡ some 6) × Accepted log 5 6 (entry 6 4 ∷ []) r.1
maybe_append_example =
    maybe_append-Accepted log 5 6 (entry 6 4 ∷ []) 6 log-IsValid (ground arith) (omega arith)
      (ground arith) (omega arith) (inr (λ e. omega (arith, log_terms, e), refl))
      (inr (omega arith))

maybe_append-fatal_example : maybe_append log 3 (term_at log 3) 6 (entry 4 4 ∷ []) ≡ err fatal
maybe_append-fatal_example =
    maybe_append-fatal log 3 6 (entry 4 4 ∷ []) 4 log-IsValid (ground arith) (omega arith)
      (inr (λ e. omega (arith, log_terms, e), refl)) (omega arith) (omega arith)

slice_example :
    (es : List Entry) × (slice log 4 8 u64_max [] ≡ ok (okay, entry_limit_size u64_max es))
    × Range log 4 8 es
slice_example = slice-Range log 4 8 u64_max log-IsValid (omega arith) (omega arith) (omega arith)

next_entries_example :
    (es : List Entry) × (next_entries log [] ≡ ok (entry_limit_size 1000 es))
    × Range log 4 5 es
    × (has_next_entries log ≡ ok (ltb 0 (length es)))
next_entries_example = next_entries-Range log log-IsValid (omega arith)
