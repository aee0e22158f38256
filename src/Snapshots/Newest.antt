-- ===== src/Snapshots/Newest.antt =====
-- snapshotter.cpp: what load finds after save_snap.
use kvd.Base.{
  ℕ, ◌+◌, ◌/◌, ◌%◌, ◌^◌, ◌≤◌, ◌<◌, ◌≡◌, ◌≢◌, ◌⊎◌, ◌||◌, zero, suc, Bool-cases, refl, inl, inr, true,
  false, List, [], ◌∷◌, none, some, arith, length, take, take-all, length-take, ltb, ◌==◌, not-ltb,
}
use kvd.Proto.{Snapshot, okay}
use kvd.Snapshots.{
  SnapshotCodec, SnapFile, is_after, put_file, word_bytes, word, record_bytes, save_snap, load_data,
  load_content, load,
}

-- msgpack reads back what it packed of a snapshot, and the length and the checksum of that fit the header
-- of a file and are not 0, which load_snap takes for a broken one.
pub record Codes (c : SnapshotCodec) (s : Snapshot) : Type 0 where
  pub unpacked : c.unpack (c.pack s) ≡ some s
  pub nonempty : 0 < length (c.pack s)
  pub length_small : length (c.pack s) < 2 ^ 32
  pub crc_small : c.compute_crc32 (c.pack s) < 2 ^ 32
  pub crc_set : 0 < c.compute_crc32 (c.pack s)

-- The snapshot is later than every file of the directory.
abbrev pub Newest : Snapshot → List SnapFile → Type 0
Newest s [] = Unit {0}
Newest s (f ∷ fs) =
    (is_after (record { term = s.metadata.term; index = s.metadata.index; content = [] }) f ≡ true)
    × Newest s fs

put_file-Newest :
    (s : Snapshot) (bytes : List ℕ) (fs : List SnapFile)
    → Newest s fs
    → put_file (record { term = s.metadata.term; index = s.metadata.index; content = bytes }) fs
      ≡ record { term = s.metadata.term; index = s.metadata.index; content = bytes } ∷ fs
unfolding put_file is_after
put_file-Newest s bytes [] n = refl
put_file-Newest s bytes (f ∷ fs) n = rw (n.0) refl

word-bytes :
    (n : ℕ) → n < 2 ^ 32 → word (n % 256) (n / 256 % 256) (n / 65536 % 256) (n / 16777216 % 256) ≡ n
unfolding word
word-bytes n h = omega (arith, h)

module _ (c : SnapshotCodec) (s : Snapshot) (k : Codes c s) where
  -- A whole record is read back.
  load_data-whole : load_data c (length (c.pack s)) (c.compute_crc32 (c.pack s)) (c.pack s) ≡ some s
  unfolding load_data
  load_data-whole =
      let some_data : (length (c.pack s) == 0) ≡ false = ground (arith, k.nonempty) in
      let some_crc : (c.compute_crc32 (c.pack s) == 0) ≡ false = ground (arith, k.crc_set) in
      let same : (c.compute_crc32 (c.pack s) == c.compute_crc32 (c.pack s)) ≡ true = ground arith in
      rw
        (
          some_data,
          some_crc,
          not-ltb (length (c.pack s)) (length (c.pack s)) (omega arith),
          take-all (length (c.pack s)) (c.pack s) (omega arith),
          same,
        )
        k.unpacked

  load_content-whole : load_content c (record_bytes c s) ≡ some s
  unfolding load_content record_bytes word_bytes
  load_content-whole =
      rw
        (
          word-bytes (length (c.pack s)) k.length_small,
          word-bytes (c.compute_crc32 (c.pack s)) k.crc_small,
        )
        load_data-whole

  -- Data that were written in part.
  load_data-torn :
      (room : ℕ)
      → room < length (c.pack s)
      → load_data c (length (c.pack s)) (c.compute_crc32 (c.pack s)) (take room (c.pack s)) ≡ none
  unfolding load_data
  load_data-torn room h =
      let short : ltb (length (take room (c.pack s))) (length (c.pack s)) ≡ true =
        ground (arith, length-take room (c.pack s)) in
      elim (Bool-cases (length (c.pack s) == 0 || c.compute_crc32 (c.pack s) == 0)) [
        | inl empty ↦ rw (empty) refl
        | inr full ↦ rw (full, short) refl
      ]

  load_content-torn :
      (room : ℕ)
      → room < 8 + length (c.pack s)
      → load_content c (take room (record_bytes c s)) ≡ none
  unfolding load_content record_bytes word_bytes
  load_content-torn zero h = refl
  load_content-torn (suc zero) h = refl
  load_content-torn (suc (suc zero)) h = refl
  load_content-torn (suc (suc (suc zero))) h = refl
  load_content-torn (suc (suc (suc (suc zero)))) h = refl
  load_content-torn (suc (suc (suc (suc (suc zero))))) h = refl
  load_content-torn (suc (suc (suc (suc (suc (suc zero)))))) h = refl
  load_content-torn (suc (suc (suc (suc (suc (suc (suc zero))))))) h = refl
  load_content-torn (suc (suc (suc (suc (suc (suc (suc (suc room)))))))) h =
      rw
        (
          word-bytes (length (c.pack s)) k.length_small,
          word-bytes (c.compute_crc32 (c.pack s)) k.crc_small,
        )
        (load_data-torn room (omega arith))

length-record_bytes :
    (c : SnapshotCodec) (s : Snapshot) → length (record_bytes c s) ≡ 8 + length (c.pack s)
unfolding record_bytes word_bytes
length-record_bytes c s = omega arith

load_broken :
    (c : SnapshotCodec) (f : SnapFile) (fs : List SnapFile)
    → load_content c f.content ≡ none
    → load c (f ∷ fs) ≡ load c fs
unfolding load
load_broken c f fs e = rw (load, e) refl

load_sound :
    (c : SnapshotCodec) (f : SnapFile) (fs : List SnapFile) (s : Snapshot)
    → load_content c f.content ≡ some s
    → load c (f ∷ fs) ≡ (okay, s, f ∷ fs)
unfolding load
load_sound c f fs s e = rw (load, e) refl

-- A file that holds a part of the record is passed over.
load-part :
    (c : SnapshotCodec) (s : Snapshot) (files : List SnapFile) (taken room : ℕ)
    → Codes c s
    → Newest s files
    → room < 8 + length (c.pack s)
    → load c (save_snap c (some (taken, room)) s files).1 ≡ load c files
unfolding save_snap
load-part c s files taken room k newest part =
    rw (put_file-Newest s (take room (record_bytes c s)) files newest) (
      load_broken c
        (record {
          term = s.metadata.term;
          index = s.metadata.index;
          content = take room (record_bytes c s);
        })
        files (load_content-torn c s k room part))

load-whole :
    (c : SnapshotCodec) (s : Snapshot) (files : List SnapFile) (taken room : ℕ)
    → Codes c s
    → Newest s files
    → 8 + length (c.pack s) ≤ room
    → ((load c (save_snap c (some (taken, room)) s files).1).0 ≡ okay)
      × ((load c (save_snap c (some (taken, room)) s files).1).1 ≡ s)
unfolding save_snap
load-whole c s files taken room k newest whole =
    rw
      (
        take-all room (record_bytes c s) (omega (arith, length-record_bytes c s)),
        put_file-Newest s (record_bytes c s) files newest,
        load_sound c
            (record {
              term = s.metadata.term;
              index = s.metadata.index;
              content = record_bytes c s;
            })
            files s (load_content-whole c s k),
      )
      (refl, refl)

-- What save_snap says is what fwrite took.
save_snap-whole :
    (c : SnapshotCodec) (s : Snapshot) (files : List SnapFile) (taken room : ℕ)
    → 8 + length (c.pack s) ≤ taken
    → (save_snap c (some (taken, room)) s files).0 ≡ okay
unfolding save_snap
save_snap-whole c s files taken room h =
    rw (not-ltb taken (length (record_bytes c s)) (omega (arith, length-record_bytes c s))) refl

save_snap-part :
    (c : SnapshotCodec) (s : Snapshot) (files : List SnapFile) (taken room : ℕ)
    → taken < 8 + length (c.pack s)
    → (save_snap c (some (taken, room)) s files).0 ≢ okay
unfolding save_snap
save_snap-part c s files taken room h =
    let part : ltb taken (length (record_bytes c s)) ≡ true =
      ground (arith, length-record_bytes c s) in
    rw part (λ q. cc)

-- A snapshot later than those in the directory is saved, and the newest one is loaded. The file holds at
-- most what fwrite took. If it holds the whole record, save_snap returns ok and load finds the snapshot.
-- If fwrite took the whole record but the file holds only a part of it after fclose, save_snap returns
-- ok all the same, and load finds what it found before. If fwrite took only a part, save_snap does not
-- return ok and load finds what it found before.
pub load-save_snap :
    (c : SnapshotCodec) (s : Snapshot) (files : List SnapFile) (taken room : ℕ)
    → Codes c s
    → Newest s files
    → room ≤ taken
    → let p = save_snap c (some (taken, room)) s files in
      let size = 8 + length (c.pack s) in
      ((size ≤ room) × (p.0 ≡ okay) × ((load c p.1).0 ≡ okay) × ((load c p.1).1 ≡ s))
      ⊎ (((size ≤ taken) × (room < size) × (p.0 ≡ okay) × (load c p.1 ≡ load c files))
          ⊎ ((taken < size) × (p.0 ≢ okay) × (load c p.1 ≡ load c files)))
load-save_snap c s files taken room k newest within =
    elim (Bool-cases (ltb taken (8 + length (c.pack s)))) [
      | inl part ↦
          let short : taken < 8 + length (c.pack s) = ground (arith, part) in
          inr (
            inr (
              short,
              save_snap-part c s files taken room short,
              load-part c s files taken room k newest (omega arith),
            ))
      | inr took ↦
          let enough : 8 + length (c.pack s) ≤ taken = ground (arith, took) in
          let fine = save_snap-whole c s files taken room enough in
          elim (Bool-cases (ltb room (8 + length (c.pack s)))) [
            | inl part ↦
                let short : room < 8 + length (c.pack s) = ground (arith, part) in
                inr (inl (enough, short, fine, load-part c s files taken room k newest short))
            | inr all ↦
                let whole : 8 + length (c.pack s) ≤ room = ground (arith, all) in
                let (loads, found) = load-whole c s files taken room k newest whole in
                inl (whole, fine, loads, found)
          ]
    ]
