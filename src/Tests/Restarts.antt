-- ===== src/Tests/Restarts.antt =====
-- A server that starts again with a snapshot and one entry behind it.
use kvd.Base.{
  ℕ, ◌-◌, ◌≡◌, refl, List, [], ◌∷◌, some, none, arith, ok, drop, length, Returns, sub64, add64,
}
use kvd.Proto.{Snapshot, okay, empty_entry, empty_hard_state}
use kvd.ReadOnly.{bytes_eq}
use kvd.Ready.{last_entry}
use kvd.Storage
use kvd.Wal.{
  Codec, WalFile, read_header, record_len, handle_record, handle_entry, handle_snapshot, resize,
}
use kvd.Wal.Reading
use kvd.Wal.Opening.{
  NameReader, wal_extension, split_dash, parse_wal_name, follows_seq, is_valid_seq, search_below,
  search_index, wal_files, open_files, open_from, open_log, names_of, files_of, with_files,
}
use kvd.Snapshots
use kvd.Snapshots.{SnapshotCodec, SnapFile}
use kvd.Store
use kvd.Driver.{Outside}
use kvd.Driver.Starting.{
  Disk, Replayed, all_entries, kept, store_log, read_log, load_snapshot, open_wal, replay_wal,
}
use kvd.Driver.Restart.{replay_wal-forgets}
use kvd.Tests.Samples.{entry, snapshot_at_nine}

-- The snapshot holds a map.
abbrev snap : Snapshot
snap = record snapshot_at_nine { payload = 1 ∷ [] }

-- The records of the log are a snapshot at 9 and an entry at 10.
abbrev codec : Codec
codec = record {
  pack_entry = λ e. 6 ∷ [];
  pack_state = λ hs. [];
  pack_snapshot = λ s. 5 ∷ [];
  unpack_entry = λ bytes. some (entry 10 4);
  unpack_state = λ bytes. none;
  unpack_snapshot = λ bytes. some (record { index = 9; term = 4 });
  compute_crc32 = λ bytes. 7;
}

abbrev outside : Outside
outside = record {
  codec = codec;
  unpack_commit = λ bytes. none;
  unpack_change = λ bytes. none;
  pack_map = λ m. 1 ∷ [];
  unpack_map = λ bytes. ok (some ((1 ∷ [], 2 ∷ []) ∷ []));
  save_file = λ s. okay;
}

abbrev snapshots : SnapshotCodec
snapshots = record { pack = λ s. 1 ∷ []; unpack = λ bytes. some snap; compute_crc32 = λ bytes. 7 }

-- Names with one digit for each number.
abbrev digit : List ℕ → ℕ
digit [] = 0
digit (c ∷ text) = c - b'0'

abbrev name_reader : NameReader
name_reader = record { extension = λ name. drop (length name - 4) name; read_hex = digit }

abbrev name : List ℕ
name = b'0' ∷ b'-' ∷ b'0' ∷ wal_extension

abbrev file : WalFile
file = record {
  content = 4 ∷ 1 ∷ 0 ∷ 0 ∷ 7 ∷ 0 ∷ 0 ∷ 0 ∷ 5 ∷ 1 ∷ 1 ∷ 0 ∷ 0 ∷ 7 ∷ 0 ∷ 0 ∷ 0 ∷ 6 ∷ [];
  data_buffer = [];
  file_size = 18;
}

abbrev disk : Disk
disk = record {
  snaps = record { term = 4; index = 9; content = 1 ∷ 0 ∷ 0 ∷ 0 ∷ 7 ∷ 0 ∷ 0 ∷ 0 ∷ 1 ∷ [] } ∷ [];
  wals = some ((name, file) ∷ []);
}

abbrev after : Replayed
after = record {
  storage = record {
    hard_state = empty_hard_state;
    snapshot = snap;
    entries = record empty_entry { term = 4; index = 9 } ∷ entry 10 4 ∷ [];
  };
  wal = record {
    state = empty_hard_state;
    start = record { index = 9; term = 4 };
    enti = 10;
    earlier = [];
    last = file;
  };
  snaps = disk.snaps;
  last_index = 10;
  snap_data = [];
}

replaying : replay_wal outside snapshots (λ cc. []) name_reader name disk Storage.new ≡ ok after
unfolding replay_wal read_log store_log kept load_snapshot all_entries open_wal open_log open_files
    open_from wal_files names_of files_of with_files search_index search_below is_valid_seq
    follows_seq parse_wal_name split_dash bytes_eq Snapshots.load Snapshots.load_content
    Snapshots.load_data Snapshots.word Reading.read_all Reading.read_files Reading.read_file
    Reading.read_records read_header record_len handle_record handle_entry handle_snapshot resize
    Reading.mark_snapshot Reading.finish Storage.new Storage.append Storage.append_new
    Storage.first_index Storage.dummy_index Storage.apply_snapshot Storage.set_hard_state last_entry
    sub64 add64
replaying = refl

replay_wal-forgets_example :
    Returns (Store.new outside.unpack_map 1 after.snap_data) (λ s. s.key_values ≡ [])
replay_wal-forgets_example =
    replay_wal-forgets outside snapshots (λ cc. []) name_reader name disk Storage.new after 1
      replaying (omega arith)
