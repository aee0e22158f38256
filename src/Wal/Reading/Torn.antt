-- ===== src/Wal/Reading/Torn.antt =====
-- wal.cpp: what read_all makes of a file, whole or with a last record that was written in part.
use kvd.Base.{
  ℕ, zero, suc, ◌+◌, ◌-◌, ◌≤◌, ◌<◌, ◌≡◌, refl, sym, subst, ap, ap₂, ◌∙◌, inl, inr, true, false, not,
  ◌&&◌, List, [], ◌∷◌, ◌++◌, append-nil, Option, none, some, ltb, ◌==◌, if◌then◌else◌, length,
  length-append, arith, take, drop, Result, ok, err, fatal, ◌>>=◌, Bool-cases, lt→ltb, ltb→lt,
  length-take,
}
use kvd.Base
use kvd.Wal.{
  Codec, WalSnapshot, WalFile, Progress, read_header, record_len, header_bytes, make_record,
  set_record_len, truncate, invalid_type, WalRecord, max_wal_record_len,
}
use kvd.Wal.Reading.{read_records, cut_at, finish, read_file}
use kvd.Wal.Reading.Records.{
  Rec, entry, state, snapshot, type_of, IsLawful, packed, bytes_of, encode, Fits, record_len-make,
  read_header-make, type-valid, length-bytes_of, length-encode,
}
use kvd.Wal.Reading.Replay.{replay, read_records-encode}

-- Where the reading of a file starts.
abbrev pub before : Progress → Progress
before p = record p { matchsnap = false; cut = none; ended = false }

abbrev Keeps : Result Progress → Type 0
Keeps (err e) = Unit
Keeps (ok q) = q.cut ≡ none

replay-Keeps :
    (start : WalSnapshot) (recs : List Rec) (p : Progress)
    → p.cut ≡ none
    → Keeps (replay start recs p)
replay-Keeps start [] p h = h
replay-Keeps start (entry e ∷ recs) p h = replay-Keeps start recs _ h
replay-Keeps start (state hs ∷ recs) p h = replay-Keeps start recs _ h
replay-Keeps start (snapshot s ∷ recs) p h =
    elim (Bool-cases (s.index == start.index && not (s.term == start.term))) [
      | inl bad ↦ rw bad tt
      | inr good ↦ rw good (replay-Keeps start recs (record p { matchsnap = true }) h)
    ]

-- The end of read_file.
abbrev after : WalFile → Progress → Result (Progress × WalFile)
after f q =
    if q.matchsnap
    then ok (q, elim q.cut [ none ↦ f | some offset ↦ truncate offset f ])
    else err fatal

-- A file must hold a record of the type of snapshots.
abbrev pub accept : WalFile → Progress → Result (Progress × WalFile)
accept f q = if q.matchsnap then ok (q, f) else err fatal

read_header-short : (bytes : List ℕ) → length bytes < 8 → read_header bytes ≡ none
unfolding read_header
read_header-short [] h = refl
read_header-short (a ∷ []) h = refl
read_header-short (a ∷ b ∷ []) h = refl
read_header-short (a ∷ b ∷ d ∷ []) h = refl
read_header-short (a ∷ b ∷ d ∷ e ∷ []) h = refl
read_header-short (a ∷ b ∷ d ∷ e ∷ f ∷ []) h = refl
read_header-short (a ∷ b ∷ d ∷ e ∷ f ∷ g ∷ []) h = refl
read_header-short (a ∷ b ∷ d ∷ e ∷ f ∷ g ∷ i ∷ []) h = refl
read_header-short (a ∷ b ∷ d ∷ e ∷ f ∷ g ∷ i ∷ j ∷ bytes) h = absurd (omega (arith, h))

module _ (c : Codec) (lawful : IsLawful c) (start : WalSnapshot) where
  -- The loop over a file of records and what stands after them.
  read_file-split :
      (recs : List Rec) (rest : List ℕ) (f : WalFile) (p : Progress)
      → Fits c recs
      → f.content ≡ encode c recs ++ rest
      → read_file c start f p ≡ (
          (replay start recs (before p) >>= λ q.
          read_records c start
            (suc (length f.content - length recs))
            (length (encode c recs))
            rest
            q)
          >>= after f)
  unfolding read_file
  read_file-split recs rest f p h e =
      ap (λ x. Base.◌>>=◌ x (after f))
        (ap₂ (λ n bytes. read_records c start n 0 bytes (before p)) fuels e
          ∙ read_records-encode c lawful start recs rest (suc (length f.content - length recs)) 0
              (before p) h
          ∙ ap
              (λ o.
                Base.◌>>=◌ (replay start recs (before p))
                  (read_records c start (suc (length f.content - length recs)) o rest))
              (omega arith))
    where
      fuels : suc (length f.content) ≡ length recs + suc (length f.content - length recs)
      fuels = omega (arith, ap length e, length-append (encode c recs) rest, length-encode c recs)

  whole :
      (x : Result Progress) (f : WalFile) (fuel offset : ℕ)
      → Keeps x
      → ((x >>= λ q. read_records c start (suc fuel) offset [] q) >>= after f)
        ≡ (x >>= λ q. accept f (finish q))
  unfolding read_records finish
  whole (err e) f fuel offset k = refl
  whole (ok q) f fuel offset k = rw k refl

  -- read_all of a file that holds whole records gives what these records say, one after the other,
  -- and leaves the file as it is; it is the fatal error if no record of them is a snapshot.
  pub read_file-encode :
      (recs : List Rec) (f : WalFile) (p : Progress)
      → Fits c recs
      → f.content ≡ encode c recs
      → read_file c start f p ≡ (replay start recs (before p) >>= λ q. accept f (finish q))
  read_file-encode recs f p h e =
      read_file-split recs [] f p h (e ∙ sym (append-nil (encode c recs)))
      ∙ whole (replay start recs (before p)) f _ _ (replay-Keeps start recs (before p) refl)

  no_header :
      (b : ℕ) (bytes : List ℕ) (fuel offset : ℕ) (p : Progress)
      → read_header (b ∷ bytes) ≡ none
      → read_records c start (suc fuel) offset (b ∷ bytes) p ≡ ok (cut_at offset p)
  unfolding read_records
  no_header b bytes fuel offset p e = rw (read_records, e) refl

  short_data :
      (r : WalRecord) (b : ℕ) (bytes left : List ℕ) (fuel offset : ℕ) (p : Progress)
      → read_header (b ∷ bytes) ≡ some (r, left)
      → (r.type == invalid_type) ≡ false
      → length left < record_len r
      → read_records c start (suc fuel) offset (b ∷ bytes) p ≡ ok (cut_at offset p)
  unfolding read_records
  short_data r b bytes left fuel offset p e t h =
      rw (read_records, e, t, lt→ltb (length left) (record_len r) h) refl

  header_read : (n : ℕ) → ltb n 7 ≡ false → suc (suc (suc (suc (suc (suc (suc (n - 7))))))) ≡ n
  header_read n h = ground (arith, h)

  -- The header and the first `k` bytes of a record.
  short_record :
      (rec : Rec) (k fuel offset : ℕ) (p : Progress)
      → length (packed c rec) ≤ max_wal_record_len
      → k < length (packed c rec)
      → read_records c start
          (suc fuel)
          offset
          (take (suc (suc (suc (suc (suc (suc (suc (suc k)))))))) (bytes_of c rec))
          p
        ≡ ok (cut_at offset p)
  unfolding header_bytes make_record set_record_len
  short_record rec k fuel offset p h less =
      short_data (make_record c (type_of rec) (packed c rec)) _ _ (take k (packed c rec)) fuel
        offset p
        (read_header-make c (type_of rec) (packed c rec) (take k (packed c rec))
          (lawful.crc_small (packed c rec)))
        (type-valid rec)
        (omega (
          arith,
          record_len-make c (type_of rec) (packed c rec) h,
          length-take k (packed c rec),
          less,
        ))

  -- The bytes of a record without the last ones of them.
  torn-cut :
      (rec : Rec) (n fuel offset : ℕ) (p : Progress)
      → length (packed c rec) ≤ max_wal_record_len
      → 0 < n
      → n < length (bytes_of c rec)
      → read_records c start (suc fuel) offset (take n (bytes_of c rec)) p ≡ ok (cut_at offset p)
  unfolding header_bytes
  torn-cut rec zero fuel offset p h from to = absurd (omega (arith, from))
  torn-cut rec (suc n) fuel offset p h from to = elim (Bool-cases (ltb n 7)) [
    | inl less ↦ no_header _ _ fuel offset p (
        read_header-short (take (suc n) (bytes_of c rec))
          (omega (arith, length-take (suc n) (bytes_of c rec), ltb→lt n 7 less)))
    | inr more ↦
        subst
          (λ m.
            read_records c start (suc fuel) offset (take (suc m) (bytes_of c rec)) p
            ≡ ok (cut_at offset p))
          (header_read n more)
          (short_record rec (n - 7) fuel offset p h
            (omega (arith, to, length-bytes_of c rec, header_read n more)))
  ]

  -- read_all of a file whose last record was written in part, as a crash leaves it, gives what the
  -- records before it say, and cuts the file back to them.
  pub read_file-torn :
      (recs : List Rec) (rec : Rec) (n : ℕ) (f : WalFile) (p : Progress)
      → Fits c (rec ∷ recs)
      → 0 < n
      → n < length (bytes_of c rec)
      → f.content ≡ encode c recs ++ take n (bytes_of c rec)
      → read_file c start f p ≡ (
          replay start recs (before p) >>= λ q.
          accept (truncate (length (encode c recs)) f) (cut_at (length (encode c recs)) q))
  unfolding truncate cut_at
  read_file-torn recs rec n f p h from to e =
      read_file-split recs (take n (bytes_of c rec)) f p h.1 e
      ∙ cut_back (replay start recs (before p))
    where
      cut_back :
          (x : Result Progress)
          → ((x >>= λ q.
                read_records c start
                  (suc (length f.content - length recs))
                  (length (encode c recs))
                  (take n (bytes_of c rec))
                  q)
              >>= after f)
            ≡ (x >>= λ q.
                accept (truncate (length (encode c recs)) f) (cut_at (length (encode c recs)) q))
      cut_back (err x) = refl
      cut_back (ok q) =
          ap (λ y. Base.◌>>=◌ y (after f)) (torn-cut rec n _ (length (encode c recs)) q h.0 from to)
