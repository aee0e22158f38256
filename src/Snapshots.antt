-- ===== src/Snapshots.antt =====
-- raft-kv/snap/snapshotter.h and snapshotter.cpp: the files of snapshots. The packed bytes of msgpack and
-- the checksum of boost are given; the bytes of a number lie in little-endian order. The name of a file
-- is the term and the index of its snapshot, of 16 digits each, so that names are ordered as pairs.
pub mod Newest
use kvd.Base.{
  ℕ, ◌+◌, ◌*◌, ◌/◌, ◌%◌, ◌^◌, Bool, true, false, ◌&&◌, ◌||◌, List, [], ◌∷◌, ◌++◌, Option, none,
  some, ltb, ◌==◌, if◌then◌else◌, length, take, drop,
}
use kvd.Proto.{Snapshot, empty_snapshot, Status, okay, io_error, not_found}

-- What cannot be unpacked is `none`.
pub record SnapshotCodec : Type 0 where
  pub pack : Snapshot → List ℕ
  pub unpack : List ℕ → Option Snapshot
  pub compute_crc32 : List ℕ → ℕ

-- snap_name and the content of the file.
pub record SnapFile : Type 0 where
  pub term : ℕ
  pub index : ℕ
  pub content : List ℕ

-- The order of the names.
unfoldable pub is_after : SnapFile → SnapFile → Bool
is_after f g = ltb g.term f.term || (f.term == g.term && ltb g.index f.index)

-- A file written into the directory, of which the files are listed from the last name to the first.
unfoldable pub put_file : SnapFile → List SnapFile → List SnapFile
put_file f [] = f ∷ []
put_file f (g ∷ gs) =
    if is_after f g then f ∷ g ∷ gs else if is_after g f then g ∷ put_file f gs else f ∷ gs

-- The bytes of a uint32_t.
unfoldable pub word_bytes : ℕ → List ℕ
word_bytes n = n % 256 ∷ n / 256 % 256 ∷ n / 65536 % 256 ∷ n / 16777216 % 256 ∷ []

unfoldable pub word : ℕ → ℕ → ℕ → ℕ → ℕ
word a b c d = a + b * 256 + c * 65536 + d * 16777216

module _ (c : SnapshotCodec) where
  -- The SnapshotRecord of a snapshot with the data behind it.
  unfoldable pub record_bytes : Snapshot → List ℕ
  record_bytes s =
      let packed : List ℕ = c.pack s in
      word_bytes (length packed) ++ (word_bytes (c.compute_crc32 packed) ++ packed)

  -- `taken` is what fwrite returns, the bytes it takes into the buffer of the stream, and `room` is how
  -- many of them the file holds after fclose, of which the result is not looked at; `none` is that the
  -- file cannot be opened.
  unfoldable pub save_snap : Option (ℕ × ℕ) → Snapshot → List SnapFile → Status × List SnapFile
  save_snap none s files = (io_error "cannot open", files)
  save_snap (some (taken, room)) s files = (
    if ltb taken (length (record_bytes s)) then io_error "cannot write" else okay,
    put_file
        (record {
          term = s.metadata.term;
          index = s.metadata.index;
          content = take room (record_bytes s);
        })
        files,
  )

  -- What load_snap reads behind the two words of the header.
  unfoldable pub load_data : ℕ → ℕ → List ℕ → Option Snapshot
  load_data data_len crc32 left =
      if data_len == 0 || crc32 == 0
      then none
      else if ltb (length left) data_len
      then none
      else if c.compute_crc32 (take data_len left) == crc32
      then c.unpack (take data_len left)
      else none

  -- What load_snap reads from a file.
  unfoldable pub load_content : List ℕ → Option Snapshot
  load_content (a0 ∷ a1 ∷ a2 ∷ a3 ∷ b0 ∷ b1 ∷ b2 ∷ b3 ∷ left) =
      load_data (word a0 a1 a2 a3) (word b0 b1 b2 b3) left
  load_content _ = none

  -- The loop of load. A broken file gets another name, so that it is no file of a snapshot any more.
  unfoldable pub load : List SnapFile → Status × Snapshot × List SnapFile
  load [] = (not_found "snap not found", empty_snapshot, [])
  load (f ∷ fs) =
      let rest = load fs in
      elim (load_content f.content) [ none ↦ rest | some s ↦ (okay, s, f ∷ fs) ]
