-- ===== src/Wal/Reading/Replay.antt =====
-- wal.cpp: read_all reads back the records that were appended.
use kvd.Base.{
  ℕ, suc, ◌+◌, ◌-◌, ◌*◌, ◌^◌, ◌≤◌, ◌<◌, ◌≡◌, refl, ap, ap₂, ◌∙◌, Bool, true, false, not, ◌&&◌, List,
  [], ◌∷◌, ◌++◌, Option, none, some, ltb, ◌==◌, if◌then◌else◌, length, length-append, arith, take,
  drop, Result, ok, err, fatal, ◌>>=◌, sub64, zero, append_assoc, not-ltb, ==_iff, Bool-cases, inl,
  inr, Returns, Returns-ok,
}
use kvd.Base
use kvd.Proto.{Entry, HardState}
use kvd.Wal.{
  Codec, WalRecord, WalSnapshot, Progress, read_header, record_len, set_record_len, header_bytes,
  make_record, max_wal_record_len, resize, handle_record, invalid_type, handle_entry, handle_state,
  handle_snapshot,
}
use kvd.Wal.Reading.{read_records, mark_snapshot}
use kvd.Wal.Reading.Records.{
  Rec, entry, state, snapshot, type_of, IsLawful, packed, bytes_of, encode, Fits, record_len-make,
  read_header-make, type-valid, length-bytes_of,
}

-- What a record that was packed does to what has been read.
abbrev pub apply : WalSnapshot → Rec → Progress → Result Progress
apply start (entry e) p = ok (record p {
  ents =
      if ltb start.index e.index
      then resize (sub64 (sub64 e.index start.index) 1) p.ents ++ (some e ∷ [])
      else p.ents;
  enti = e.index;
})
apply start (state hs) p = ok (record p { hs = hs })
apply start (snapshot s) p =
    if s.index == start.index && not (s.term == start.term)
    then err fatal
    else ok (record p { matchsnap = true })

abbrev pub replay : WalSnapshot → List Rec → Progress → Result Progress
replay start [] p = ok p
replay start (rec ∷ recs) p = apply start rec p >>= λ q. replay start recs q

take-length : {A : Type 0} (xs ys : List A) → take (length xs) (xs ++ ys) ≡ xs
take-length [] ys = refl
take-length (x ∷ xs) ys = ap (◌∷◌ x) (take-length xs ys)

drop-length : {A : Type 0} (xs ys : List A) → drop (length xs) (xs ++ ys) ≡ ys
drop-length [] ys = refl
drop-length (x ∷ xs) ys = drop-length xs ys

bind-then :
    {A B D : Type 0} (x : Result A) (f : A → Result B) (g : B → Result D) (k : A → Result D)
    → ((a : A) → k a ≡ (f a >>= g))
    → (x >>= k) ≡ ((x >>= f) >>= g)
bind-then (ok a) f g k h = h a
bind-then (err e) f g k h = refl

module _ (c : Codec) (lawful : IsLawful c) (start : WalSnapshot) where
  handle_entry-apply :
      (e : Entry) (p : Progress) → handle_entry c start (c.pack_entry e) p ≡ apply start (entry e) p
  unfolding handle_entry
  handle_entry-apply e p = rw (handle_entry, lawful.entries e) refl

  handle_state-apply :
      (hs : HardState) (p : Progress)
      → handle_state c (c.pack_state hs) p ≡ apply start (state hs) p
  unfolding handle_state
  handle_state-apply hs p = rw (handle_state, lawful.states hs) refl

  handle_snapshot-apply :
      (s : WalSnapshot) (p : Progress)
      → (handle_snapshot c start (c.pack_snapshot s) p >>= λ q. ok (record q { matchsnap = true }))
        ≡ apply start (snapshot s) p
  unfolding handle_snapshot
  handle_snapshot-apply s p =
      rw (handle_snapshot, lawful.snapshots s)
        (cases (s.index == start.index) (s.term == start.term))
    where
      cases :
          (i t : Bool)
          → Base.◌>>=◌
              (if i then (if t then ok (record p { matchsnap = true }) else err fatal) else ok p)
              (λ q. ok (record q { matchsnap = true }))
            ≡ (if i && not t then err fatal else ok (record p { matchsnap = true }))
      cases true true = refl
      cases true false = refl
      cases false t = refl

  handle-apply :
      (rec : Rec) (p : Progress) (rest : Progress → Result Progress)
      → (handle_record c start (type_of rec) (packed c rec) p >>= λ q.
          rest (mark_snapshot (type_of rec) q))
        ≡ (apply start rec p >>= rest)
  unfolding handle_record mark_snapshot
  handle-apply (entry e) p rest = ap (λ x. Base.◌>>=◌ x rest) (handle_entry-apply e p)
  handle-apply (state hs) p rest = ap (λ x. Base.◌>>=◌ x rest) (handle_state-apply hs p)
  handle-apply (snapshot s) p rest =
      marked (handle_snapshot c start (c.pack_snapshot s) p)
      ∙ ap (λ x. Base.◌>>=◌ x rest) (handle_snapshot-apply s p)
    where
      marked :
          (x : Result Progress)
          → (x >>= λ q. rest (record q { matchsnap = true }))
            ≡ ((x >>= λ q. ok (record q { matchsnap = true })) >>= rest)
      marked (ok q) = refl
      marked (err e) = refl

  -- A record whose header was read, and whose bytes are all there.
  found-step :
      (r : WalRecord) (b : ℕ) (bytes bytes_in rest : List ℕ) (fuel offset : ℕ) (p : Progress)
      → read_header (b ∷ bytes) ≡ some (r, bytes_in ++ rest)
      → record_len r ≡ length bytes_in
      → r.crc ≡ c.compute_crc32 bytes_in
      → (r.type == invalid_type) ≡ false
      → read_records c start (suc fuel) offset (b ∷ bytes) p ≡ (
          handle_record c start r.type bytes_in p >>= λ q.
          read_records c start fuel (offset + 8 + length bytes_in) rest (mark_snapshot r.type q))
  unfolding read_records
  found-step r b bytes bytes_in rest fuel offset p e len crc type =
      rw
        (
          read_records,
          e,
          len,
          type,
          not-ltb (length (bytes_in ++ rest)) (length bytes_in)
              (omega (arith, length-append bytes_in rest)),
          take-length bytes_in rest,
          drop-length bytes_in rest,
          crc,
          (==_iff (c.compute_crc32 bytes_in) (c.compute_crc32 bytes_in)).1 refl,
        )
        (elim (Bool-cases (c.compute_crc32 bytes_in == 0)) [
          | inl z ↦ rw z refl
          | inr z ↦ rw z refl
        ])

  read_records-step :
      (rec : Rec) (rest : List ℕ) (fuel offset : ℕ) (p : Progress)
      → length (packed c rec) ≤ max_wal_record_len
      → read_records c start (suc fuel) offset (bytes_of c rec ++ rest) p ≡ (
          apply start rec p >>= λ q.
          read_records c start fuel (offset + 8 + length (packed c rec)) rest q)
  unfolding make_record set_record_len header_bytes
  read_records-step rec rest fuel offset p h =
      found-step (make_record c (type_of rec) (packed c rec)) _ _ (packed c rec) rest fuel offset p
        (read_header-make c (type_of rec) (packed c rec) (packed c rec ++ rest)
          (lawful.crc_small _))
        (record_len-make c (type_of rec) (packed c rec) h) refl (type-valid rec)
      ∙ handle-apply rec p (read_records c start fuel (offset + 8 + length (packed c rec)) rest)

  -- The loop over the records that were appended, and over what stands after them.
  pub read_records-encode :
      (recs : List Rec) (rest : List ℕ) (fuel offset : ℕ) (p : Progress)
      → Fits c recs
      → read_records c start (length recs + fuel) offset (encode c recs ++ rest) p ≡ (
          replay start recs p >>= λ q.
          read_records c start fuel (offset + length (encode c recs)) rest q)
  read_records-encode [] rest fuel offset p h =
      ap₂ (λ n o. read_records c start n o rest p) (omega arith) (omega arith)
  read_records-encode (rec ∷ recs) rest fuel offset p h =
      ap₂ (λ n bytes. read_records c start n offset bytes p) fuels
        (append_assoc (bytes_of c rec) (encode c recs) rest)
      ∙ read_records-step rec (encode c recs ++ rest) (length recs + fuel) offset p h.0
      ∙ bind-then (apply start rec p) _ _ _ λ q.
        read_records-encode recs rest fuel (offset + 8 + length (packed c rec)) q h.1
        ∙ ap (λ o. Base.◌>>=◌ (replay start recs q) (read_records c start fuel o rest)) offsets
    where
      fuels : length (rec ∷ recs) + fuel ≡ suc (length recs + fuel)
      fuels = omega arith

      offsets :
          offset + 8 + length (packed c rec) + length (encode c recs)
          ≡ offset + length (encode c (rec ∷ recs))
      offsets = omega (arith, length-append (bytes_of c rec) (encode c recs), length-bytes_of c rec)
