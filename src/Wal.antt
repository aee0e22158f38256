-- ===== src/Wal.antt =====
-- raft-kv/wal/wal.h and wal.cpp: the write-ahead log, its records and its files. The packed bytes of
-- msgpack and the checksum of boost are given; the bytes of a number lie in little-endian order.
pub mod Reading
pub mod Saving
pub mod Opening
use kvd.Base.{
  ℕ, zero, suc, ◌+◌, ◌-◌, ◌*◌, ◌/◌, ◌%◌, ◌^◌, Bool, true, false, not, ◌&&◌, ◌||◌, List, [], ◌∷◌,
  ◌++◌, map, Option, none, some, ltb, leb, ◌==◌, min, if◌then◌else◌, length, get_elem?, take, drop,
  replicate, sub64, Result, ok, err, fatal, ◌>>=◌, ◌>>◌, deref,
}
use kvd.Proto.{Entry, HardState, is_empty_state}
use kvd.Ready.{is_must_sync, is_nil}

pub record WalSnapshot : Type 0 where
  pub index : ℕ
  pub term : ℕ

abbrev pub invalid_type : ℕ
invalid_type = 0

abbrev pub entry_type : ℕ
entry_type = 1

abbrev pub state_type : ℕ
state_type = 2

abbrev pub crc_type : ℕ
crc_type = 3

abbrev pub snapshot_type : ℕ
snapshot_type = 4

abbrev pub segment_size_bytes : ℕ
segment_size_bytes = 64000000

abbrev pub max_wal_record_len : ℕ
max_wal_record_len = 16777215

-- The calls of msgpack and of boost. What cannot be unpacked is `none`.
pub record Codec : Type 0 where
  pub pack_entry : Entry → List ℕ
  pub pack_state : HardState → List ℕ
  pub pack_snapshot : WalSnapshot → List ℕ
  pub unpack_entry : List ℕ → Option Entry
  pub unpack_state : List ℕ → Option HardState
  pub unpack_snapshot : List ℕ → Option WalSnapshot
  pub compute_crc32 : List ℕ → ℕ

-- The header of a record.
pub record WalRecord : Type 0 where
  pub type : ℕ
  pub len0 : ℕ
  pub len1 : ℕ
  pub len2 : ℕ
  pub crc : ℕ

-- WAL_Record_len
unfoldable pub record_len : WalRecord → ℕ
record_len r = r.len2 * 65536 + r.len1 * 256 + r.len0

-- set_WAL_Record_len of a length of 32 bits.
unfoldable pub set_record_len : WalRecord → ℕ → WalRecord
set_record_len r len =
    let l : ℕ = min len max_wal_record_len in
    record r { len2 = l / 65536 % 256; len1 = l / 256 % 256; len0 = l % 256 }

-- The bytes of the packed struct.
unfoldable pub header_bytes : WalRecord → List ℕ
header_bytes r =
    r.type
    ∷ r.len0
    ∷ r.len1
    ∷ r.len2
    ∷ r.crc % 256
    ∷ r.crc / 256 % 256
    ∷ r.crc / 65536 % 256
    ∷ r.crc / 16777216 % 256
    ∷ []

-- `memcpy` of the struct, if there are bytes enough; and the bytes after it.
unfoldable pub read_header : List ℕ → Option (WalRecord × List ℕ)
read_header (t ∷ a ∷ b ∷ c ∷ d ∷ e ∷ f ∷ g ∷ rest) = some (
  record { type = t; len0 = a; len1 = b; len2 = c; crc = d + e * 256 + f * 65536 + g * 16777216 },
  rest,
)
read_header _ = none

-- `content` is what the stream of the file was given: the disk has all of it once the stream is closed, as
-- `~WAL_File` does, and until then the C library may hold a part of it back.
pub record WalFile : Type 0 where
  pub content : List ℕ
  pub data_buffer : List ℕ
  pub file_size : ℕ

unfoldable pub truncate : ℕ → WalFile → WalFile
truncate offset f = record f {
  content = take offset f.content;
  file_size = offset;
  data_buffer = [];
}

-- fwrite gives the stream the bytes, and nothing flushes it; that fwrite takes them is taken for granted,
-- since the server ends at once where it does not.
unfoldable pub sync : WalFile → WalFile
sync f = if is_nil f.data_buffer then f else record {
  content = f.content ++ f.data_buffer;
  file_size = f.file_size + length f.data_buffer;
  data_buffer = [];
}

-- What the loop of read_all has read. `cut` is where the file is truncated, and `ended` tells whether
-- the loop came to its end.
pub record Progress : Type 0 where
  pub hs : HardState
  pub ents : List (Option Entry)
  pub enti : ℕ
  pub matchsnap : Bool
  pub cut : Option ℕ
  pub ended : Bool

-- `v.resize(n)` of a vector of pointers.
unfoldable pub resize : {A : Type 0} → ℕ → List (Option A) → List (Option A)
resize n xs = take n xs ++ replicate (n - length xs) none

-- The files are the last one, which is appended to; `earlier` are those before it.
pub record Wal : Type 0 where
  pub state : HardState
  pub start : WalSnapshot
  pub enti : ℕ
  pub earlier : List WalFile
  pub last : WalFile

module _ (c : Codec) where
  -- The record that WAL_File::append makes.
  unfoldable pub make_record : ℕ → List ℕ → WalRecord
  make_record type data_bytes =
      set_record_len
        (record { type = type; len0 = 0; len1 = 0; len2 = 0; crc = c.compute_crc32 data_bytes })
        (length data_bytes)

  unfoldable pub append : ℕ → List ℕ → WalFile → WalFile
  append type data_bytes f = record f {
    data_buffer = f.data_buffer ++ (header_bytes (make_record type data_bytes) ++ data_bytes);
  }

  unfoldable pub handle_entry : WalSnapshot → List ℕ → Progress → Result Progress
  handle_entry start data_bytes p = elim (c.unpack_entry data_bytes) [
    | none ↦ err fatal
    | some e ↦ ok (record p {
      ents =
          if ltb start.index e.index
          then resize (sub64 (sub64 e.index start.index) 1) p.ents ++ (some e ∷ [])
          else p.ents;
      enti = e.index;
    })
  ]

  unfoldable pub handle_state : List ℕ → Progress → Result Progress
  handle_state data_bytes p = elim (c.unpack_state data_bytes) [
    | none ↦ err fatal
    | some hs ↦ ok (record p { hs = hs })
  ]

  unfoldable pub handle_snapshot : WalSnapshot → List ℕ → Progress → Result Progress
  handle_snapshot start data_bytes p = elim (c.unpack_snapshot data_bytes) [
    | none ↦ err fatal
    | some s ↦
        if s.index == start.index
        then (if s.term == start.term then ok (record p { matchsnap = true }) else err fatal)
        else ok p
  ]

  -- handle_record_wal_record. An exception of msgpack ends the call as LOG_FATAL does.
  unfoldable pub handle_record : WalSnapshot → ℕ → List ℕ → Progress → Result Progress
  handle_record start type data_bytes p =
      if type == entry_type
      then handle_entry start data_bytes p
      else if type == state_type
      then handle_state data_bytes p
      else if type == snapshot_type
      then handle_snapshot start data_bytes p
      else err fatal
