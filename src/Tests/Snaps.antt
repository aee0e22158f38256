-- ===== src/Tests/Snaps.antt =====
-- Runs of the files of snapshots.
use kvd.Base.{◌≤◌, ◌<◌, ◌≡◌, ◌≢◌, ◌⊎◌, refl, List, [], ◌∷◌, some, arith}
use kvd.Proto.{okay}
use kvd.Snapshots.{SnapshotCodec, SnapFile, is_after, save_snap, load}
use kvd.Snapshots.Newest.{Codes, Newest, load-save_snap}
use kvd.Tests.Samples.{snapshot_at_nine}

-- What is packed is the place of the snapshot; there is one snapshot at each place.
abbrev codec : SnapshotCodec
codec = record {
  pack = λ s. s.metadata.index ∷ s.metadata.term ∷ [];
  unpack = λ bytes. some snapshot_at_nine;
  compute_crc32 = λ bytes. 7;
}

codec-Codes : Codes codec snapshot_at_nine
codec-Codes = record {
  unpacked = refl;
  nonempty = omega arith;
  length_small = omega arith;
  crc_small = omega arith;
  crc_set = omega arith;
}

-- The directory has an earlier file, which is broken.
abbrev files : List SnapFile
files = record { term = 3; index = 11; content = 1 ∷ [] } ∷ []

files-Newest : Newest snapshot_at_nine files
unfolding is_after
files-Newest = (refl, tt)

-- fwrite takes the ten bytes, and the file holds nine of them after fclose.
load-save_snap_example :
    let p = save_snap codec (some (10, 9)) snapshot_at_nine files in
    ((10 ≤ 9)
      × (p.0 ≡ okay)
      × ((load codec p.1).0 ≡ okay)
      × ((load codec p.1).1 ≡ snapshot_at_nine))
    ⊎ (((10 ≤ 10) × (9 < 10) × (p.0 ≡ okay) × (load codec p.1 ≡ load codec files))
        ⊎ ((10 < 10) × (p.0 ≢ okay) × (load codec p.1 ≡ load codec files)))
load-save_snap_example =
    load-save_snap codec snapshot_at_nine files 10 9 codec-Codes files-Newest (omega arith)
