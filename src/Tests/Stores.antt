-- ===== src/Tests/Stores.antt =====
-- Runs on the sample storage and the sample unstable part.
use kvd.Base.{ℕ, ◌≡◌, [], ◌∷◌, some, arith, take, ok, Returns}
use kvd.Proto.{okay}
use kvd.Proto.Size.{serialize_size, entry_limit_size}
use kvd.Proto.Size.Limit.{Limited, entry_limit_size-Limited}
use kvd.Storage.{append, compact}
use kvd.Storage.Append.{Writes, append-Writes}
use kvd.Storage.Compaction.{Compacts, compact-Compacts}
use kvd.Unstable
use kvd.Unstable.{truncate_and_append, stable_to, maybe_term, snapshot_term}
use kvd.Unstable.View.{term_of, maybe_term_lem}
use kvd.Tests.Samples.{entry, storage, unstable, storage-IsValid, unstable-IsValid}

maybe_term_example : maybe_term unstable 7 ≡ ok (some 3)
unfolding Unstable.View.entry_at
maybe_term_example = maybe_term_lem unstable 7 unstable-IsValid

append_example :
    Returns
      (append storage (entry 2 1 ∷ entry 3 1 ∷ entry 4 5 ∷ []))
      (λ r. (r.0 ≡ okay) × Writes storage 2 (entry 2 1 ∷ entry 3 1 ∷ entry 4 5 ∷ []) r.1)
append_example =
    append-Writes storage (entry 2 1) (entry 3 1 ∷ entry 4 5 ∷ []) storage-IsValid (ground arith)
      (omega arith) (omega arith) (omega arith)

compact_example : Returns (compact storage 4) (λ r. (r.0 ≡ okay) × Compacts storage 4 r.1)
compact_example = compact-Compacts storage 4 storage-IsValid (omega arith) (omega arith)

entry_limit_size_example :
    (n : ℕ) × (entry_limit_size 20 (entry 3 1 ∷ entry 4 1 ∷ entry 5 1 ∷ [])
      ≡ take n (entry 3 1 ∷ entry 4 1 ∷ entry 5 1 ∷ []))
    × Limited 20 (entry 3 1 ∷ entry 4 1 ∷ entry 5 1 ∷ []) n
unfolding serialize_size
entry_limit_size_example =
    entry_limit_size-Limited 20 (entry 3 1) (entry 4 1 ∷ entry 5 1 ∷ []) (ground arith)
