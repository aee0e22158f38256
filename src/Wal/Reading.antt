-- ===== src/Wal/Reading.antt =====
-- wal.cpp: WAL::read_all.
pub mod Records
pub mod Replay
pub mod Torn
pub mod Partial
use kvd.Base.{
  ℕ, zero, suc, ◌+◌, Bool, true, false, not, ◌&&◌, List, [], ◌∷◌, Option, none, some, ltb, ◌==◌,
  if◌then◌else◌, length, take, drop, Result, ok, err, fatal, ◌>>=◌,
}
use kvd.Proto.{Entry, HardState}
use kvd.Wal.{
  Codec, WalRecord, WalSnapshot, WalFile, Wal, Progress, read_header, record_len, handle_record,
  truncate, invalid_type, snapshot_type,
}

-- The loop ends, and the file is cut at the given offset.
unfoldable pub cut_at : ℕ → Progress → Progress
cut_at offset p = record p { cut = some offset; ended = true }

unfoldable pub finish : Progress → Progress
finish p = record p { ended = true }

-- A record of the type of snapshots counts, whatever handle_record makes of it.
unfoldable pub mark_snapshot : ℕ → Progress → Progress
mark_snapshot type p = if type == snapshot_type then record p { matchsnap = true } else p

module _ (c : Codec) (start : WalSnapshot) where
  -- The loop of read_all over what is left of a file from `offset` on, for at most `fuel` records.
  unfoldable pub read_records : ℕ → ℕ → List ℕ → Progress → Result Progress
  read_records zero offset left p = ok p
  read_records (suc fuel) offset [] p = ok (finish p)
  read_records (suc fuel) offset (b ∷ bytes) p = elim (read_header (b ∷ bytes)) [
    | none ↦ ok (cut_at offset p)
    | some (r, left) ↦
        let len : ℕ = record_len r in
        let crc : ℕ = c.compute_crc32 (take len left) in
        let rest = read_records fuel (offset + 8 + len) (drop len left) in
        if r.type == invalid_type
        then ok (finish p)
        else if ltb (length left) len
        then ok (cut_at offset p)
        else if not (r.crc == 0) && not (crc == r.crc)
        then ok (cut_at offset p)
        else (handle_record c start r.type (take len left) p >>= λ q. rest (mark_snapshot r.type q))
  ]

  -- One file: the bytes that are there bound the number of its records.
  unfoldable pub read_file : WalFile → Progress → Result (Progress × WalFile)
  read_file f p =
      read_records (suc (length f.content)) 0 f.content
        (record p { matchsnap = false; cut = none; ended = false })
      >>= λ q.
          if q.matchsnap
          then ok (q, elim q.cut [ none ↦ f | some offset ↦ truncate offset f ])
          else err fatal

  unfoldable pub read_files : List WalFile → Progress → Result (Progress × List WalFile)
  read_files [] p = ok (p, [])
  read_files (f ∷ fs) p = read_file f p >>= λ q. read_files fs q.0 >>= λ qs. ok (qs.0, q.1 ∷ qs.1)

-- The outputs of the call start as `hs` and `ents`.
unfoldable pub read_all :
    Codec → Wal → HardState → List (Option Entry) → Result (HardState × List (Option Entry) × Wal)
read_all c w hs ents =
    read_files c w.start w.earlier
      (record { hs = hs; ents = ents; enti = w.enti; matchsnap = false; cut = none; ended = false })
    >>= λ p. read_file c w.start w.last p.0 >>= λ q.
        ok (q.0.hs, q.0.ents, record w { enti = q.0.enti; earlier = p.1; last = q.1 })
