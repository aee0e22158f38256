-- ===== src/Tests/Wals.antt =====
-- Runs of the write-ahead log, with a codec that keeps the fields as numbers.
use kvd.Base.{
  ℕ, ◌-◌, ◌≡◌, refl, List, [], ◌∷◌, ◌++◌, Option, some, none, arith, take, drop, length, Returns,
  ok, false, ◌>>=◌,
}
use kvd.Proto.{Entry, HardState, okay, empty_hard_state, is_empty_state}
use kvd.Storage
use kvd.Storage.View
use kvd.Snapshots.{SnapshotCodec}
use kvd.Driver.{Outside}
use kvd.Wal.Opening.{NameReader, wal_extension, split_dash, parse_wal_name, search_index}
use kvd.Wal.Opening.Search.{AreNames, Found, search_index-Found}
use kvd.Wal.{Codec, WalSnapshot, WalFile, Wal, Progress, truncate, header_bytes}
use kvd.Wal.Saving.{save}
use kvd.Wal.Saving.Durable.{save-read_file, recovered}
use kvd.Wal.Reading.{read_file, cut_at}
use kvd.Wal.Reading.Records.{snapshot, state, IsLawful, encode, bytes_of}
use kvd.Wal.Reading.Replay.{replay}
use kvd.Wal.Reading.Torn.{read_file-torn, before, accept}
use kvd.ReadOnly.{bytes_eq}
use kvd.Tests.Samples

unpack_entry : List ℕ → Option Entry
unpack_entry (t ∷ m ∷ i ∷ payload) =
    some (record { type = t; term = m; index = i; payload = payload })
unpack_entry _ = none

unpack_state : List ℕ → Option HardState
unpack_state (t ∷ v ∷ c ∷ []) = some (record { term = t; vote = v; commit = c })
unpack_state _ = none

unpack_snapshot : List ℕ → Option WalSnapshot
unpack_snapshot (i ∷ t ∷ []) = some (record { index = i; term = t })
unpack_snapshot _ = none

unfoldable codec : Codec
unfolding unpack_entry unpack_state unpack_snapshot
codec = record {
  pack_entry = λ e. e.type ∷ e.term ∷ e.index ∷ e.payload;
  pack_state = λ hs. hs.term ∷ hs.vote ∷ hs.commit ∷ [];
  pack_snapshot = λ s. s.index ∷ s.term ∷ [];
  unpack_entry = unpack_entry;
  unpack_state = unpack_state;
  unpack_snapshot = unpack_snapshot;
  compute_crc32 = λ bytes. 7;
}

codec-IsLawful : IsLawful codec
unfolding codec
codec-IsLawful = record {
  entries = λ e. refl;
  states = λ hs. refl;
  snapshots = λ s. refl;
  crc_small = λ bytes. omega arith;
}

abbrev origin : WalSnapshot
origin = record { index = 0; term = 0 }

abbrev first_file : WalFile
first_file = record {
  content = encode codec (snapshot origin ∷ []);
  data_buffer = [];
  file_size = 0;
}

abbrev wal : Wal
wal = record { state = empty_hard_state; start = origin; enti = 0; earlier = []; last = first_file }

abbrev voted : HardState
voted = record { term = 1; vote = 2; commit = 1 }

abbrev nothing_read : Progress
nothing_read = record {
  hs = empty_hard_state;
  ents = [];
  enti = 0;
  matchsnap = false;
  cut = none;
  ended = false;
}

save-read_file_example :
    read_file codec origin
      (save codec voted (Samples.entry 1 1 ∷ Samples.entry 2 1 ∷ []) wal).last
      nothing_read
    ≡ ok (
      recovered voted (Samples.entry 1 1 ∷ Samples.entry 2 1 ∷ []) nothing_read,
      (save codec voted (Samples.entry 1 1 ∷ Samples.entry 2 1 ∷ []) wal).last,
    )
unfolding codec is_empty_state
save-read_file_example =
    save-read_file codec voted (Samples.entry 1 1) (Samples.entry 2 1 ∷ []) wal nothing_read
      codec-IsLawful refl refl (omega arith) (omega arith) (omega arith) refl

-- A file whose second record was written in part.
abbrev torn_file : WalFile
torn_file = record {
  content = encode codec (snapshot origin ∷ []) ++ take 5 (bytes_of codec (state voted));
  data_buffer = [];
  file_size = 0;
}

read_file-torn_example : read_file codec origin torn_file nothing_read ≡ (
    replay origin (snapshot origin ∷ []) (before nothing_read) >>= λ q.
    accept (truncate 10 torn_file) (cut_at 10 q))
unfolding codec header_bytes
read_file-torn_example =
    read_file-torn codec codec-IsLawful origin (snapshot origin ∷ []) (state voted) 5 torn_file
      nothing_read (omega arith) (omega arith) (omega arith) refl

-- Names with one digit for each number.
abbrev first_digit : List ℕ → ℕ
first_digit [] = 0
first_digit (c ∷ text) = c - b'0'

abbrev name_reader : NameReader
name_reader = record { extension = λ name. drop (length name - 4) name; read_hex = first_digit }

abbrev first_name : List ℕ
first_name = b'0' ∷ b'-' ∷ b'0' ∷ wal_extension

abbrev second_name : List ℕ
second_name = b'1' ∷ b'-' ∷ b'5' ∷ wal_extension

search_index-Found_example :
    Returns
      (search_index name_reader (first_name ∷ second_name ∷ []) 7)
      (Found name_reader (first_name ∷ second_name ∷ []) 7 2)
unfolding AreNames parse_wal_name split_dash bytes_eq
search_index-Found_example =
    search_index-Found name_reader first_name (second_name ∷ []) 7
      ((0, 0, refl), ((1, 5, refl), tt))

-- Nothing but the log is read here.
abbrev outside : Outside
outside = record {
  codec = codec;
  unpack_commit = λ bytes. none;
  unpack_change = λ bytes. none;
  pack_map = λ m. [];
  unpack_map = λ bytes. ok none;
  save_file = λ s. okay;
}

abbrev snapshot_codec : SnapshotCodec
snapshot_codec = record { pack = λ s. []; unpack = λ bytes. none; compute_crc32 = λ bytes. 0 }

-- Of the two entries and the hard state, the first entry and a part of the second one are on disk.
abbrev crashed : WalFile
crashed = record {
  content =
      take 30 (save codec voted (Samples.entry 1 1 ∷ Samples.entry 2 1 ∷ []) wal).last.content;
  data_buffer = [];
  file_size = 0;
}
