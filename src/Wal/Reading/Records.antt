-- ===== src/Wal/Reading/Records.antt =====
-- The records of a write-ahead log, as what was packed and as bytes.
use kvd.Base.{
  ℕ, ◌+◌, ◌*◌, ◌/◌, ◌%◌, ◌^◌, ◌≤◌, ◌<◌, ◌≡◌, refl, false, List, [], ◌∷◌, ◌++◌, some, ◌==◌, length,
  length-append, arith,
}
use kvd.Proto.{Entry, HardState}
use kvd.Wal.{
  Codec, WalSnapshot, read_header, record_len, set_record_len, header_bytes, make_record,
  entry_type, state_type, snapshot_type, invalid_type, max_wal_record_len,
}

pub data Rec : Type 0 where
  entry : Entry → Rec
  state : HardState → Rec
  snapshot : WalSnapshot → Rec

abbrev pub type_of : Rec → ℕ
type_of (entry e) = entry_type
type_of (state hs) = state_type
type_of (snapshot s) = snapshot_type

pub type-valid : (rec : Rec) → (type_of rec == invalid_type) ≡ false
type-valid (entry e) = refl
type-valid (state hs) = refl
type-valid (snapshot s) = refl

-- What msgpack and boost promise.
pub record IsLawful (c : Codec) : Type 0 where
  pub entries : (e : Entry) → c.unpack_entry (c.pack_entry e) ≡ some e
  pub states : (hs : HardState) → c.unpack_state (c.pack_state hs) ≡ some hs
  pub snapshots : (s : WalSnapshot) → c.unpack_snapshot (c.pack_snapshot s) ≡ some s
  pub crc_small : (bytes : List ℕ) → c.compute_crc32 bytes < 2 ^ 32

module _ (c : Codec) where
  abbrev pub packed : Rec → List ℕ
  packed (entry e) = c.pack_entry e
  packed (state hs) = c.pack_state hs
  packed (snapshot s) = c.pack_snapshot s

  -- The bytes that WAL_File::append adds for a record.
  abbrev pub bytes_of : Rec → List ℕ
  bytes_of rec = header_bytes (make_record c (type_of rec) (packed rec)) ++ packed rec

  abbrev pub encode : List Rec → List ℕ
  encode [] = []
  encode (rec ∷ recs) = bytes_of rec ++ encode recs

  -- The length of each record fits the three bytes of its header.
  abbrev pub Fits : List Rec → Type 0
  Fits [] = Unit
  Fits (rec ∷ recs) = (length (packed rec) ≤ max_wal_record_len) × Fits recs

  pub record_len-make :
      (type : ℕ) (bytes : List ℕ)
      → length bytes ≤ max_wal_record_len
      → record_len (make_record c type bytes) ≡ length bytes
  unfolding record_len make_record set_record_len
  record_len-make type bytes h = omega (arith, h)

  pub read_header-make :
      (type : ℕ) (bytes rest : List ℕ)
      → c.compute_crc32 bytes < 2 ^ 32
      → read_header (header_bytes (make_record c type bytes) ++ rest)
        ≡ some (make_record c type bytes, rest)
  unfolding read_header header_bytes make_record set_record_len
  read_header-make type bytes rest h = rw word refl
    where
      word :
          c.compute_crc32 bytes % 256
            + c.compute_crc32 bytes / 256 % 256 * 256
            + c.compute_crc32 bytes / 65536 % 256 * 65536
            + c.compute_crc32 bytes / 16777216 % 256 * 16777216
          ≡ c.compute_crc32 bytes
      word = omega (arith, h)

  pub length-bytes_of : (rec : Rec) → length (bytes_of rec) ≡ 8 + length (packed rec)
  unfolding header_bytes
  length-bytes_of rec = omega arith

  pub length-encode : (recs : List Rec) → length recs ≤ length (encode recs)
  unfolding header_bytes
  length-encode [] = omega arith
  length-encode (rec ∷ recs) =
      omega (arith, length-append (bytes_of rec) (encode recs), length-encode recs)
