-- ===== src/Wal/Opening.antt =====
-- wal.cpp: WAL::open_log, which chooses the files by their names. What boost.filesystem and the standard library
-- make of a name is given: its extension, and the number that a text spells in base 16.
pub mod Search
use kvd.Base.{
  ℕ, zero, suc, ◌-◌, Bool, true, false, not, ◌&&◌, List, [], ◌∷◌, ◌++◌, Option, none, some, leb,
  ◌==◌, if◌then◌else◌, length, get_elem?, take, drop, sub64, Result, ok, err, fatal, undefined,
  ◌>>=◌,
}
use kvd.Proto.{empty_hard_state}
use kvd.ReadOnly.{bytes_eq}
use kvd.Wal.{Wal, WalFile, WalSnapshot}

pub record NameReader : Type 0 where
  pub extension : List ℕ → List ℕ
  pub read_hex : List ℕ → ℕ

abbrev pub wal_extension : List ℕ
wal_extension = b'.' ∷ b'w' ∷ b'a' ∷ b'l' ∷ []

-- What stands before and behind the first `-`.
unfoldable pub split_dash : List ℕ → Option (List ℕ × List ℕ)
split_dash [] = none
split_dash (c ∷ text) =
    let rest = split_dash text in
    if c == b'-'
    then some ([], text)
    else elim rest [ none ↦ none | some (front, back) ↦ some (c ∷ front, back) ]

-- The files of a directory as they are opened, in the order of their names.
abbrev pub Directory : Type 0
Directory = List (List ℕ × WalFile)

unfoldable pub names_of : Directory → List (List ℕ)
names_of [] = []
names_of ((name, file) ∷ files) = name ∷ names_of files

unfoldable pub files_of : Directory → List WalFile
files_of [] = []
files_of ((name, file) ∷ files) = file ∷ files_of files

-- The files of a log, of which there is one at least; the last one is appended to.
unfoldable pub with_files : WalSnapshot → List WalFile → List WalFile → Result Wal
with_files start earlier [] = err undefined
with_files start earlier (file ∷ []) =
    ok
      (record { state = empty_hard_state; start = start; enti = 0; earlier = earlier; last = file })
with_files start earlier (file ∷ next ∷ files) =
    with_files start (earlier ++ (file ∷ [])) (next ∷ files)

module _ (r : NameReader) where
  -- The number of the file and the index of its first entry.
  unfoldable pub parse_wal_name : List ℕ → Option (ℕ × ℕ)
  parse_wal_name name =
      if bytes_eq (r.extension name) wal_extension
      then (elim (split_dash (take (length name - 4) name)) [
        | none ↦ none
        | some (front, []) ↦ none
        | some (front, c ∷ back) ↦ some (r.read_hex front, r.read_hex (c ∷ back))
      ])
      else none

  -- is_valid_seq behind a file of the number `last_seq`.
  unfoldable pub follows_seq : ℕ → List (List ℕ) → Result Bool
  follows_seq last_seq [] = ok true
  follows_seq last_seq (name ∷ names) = elim (parse_wal_name name) [
    | none ↦ err fatal
    | some (seq, index) ↦
        let rest = follows_seq seq names in
        if not (last_seq == 0) && not (last_seq == sub64 seq 1) then ok false else rest
  ]

  unfoldable pub is_valid_seq : List (List ℕ) → Result Bool
  is_valid_seq = follows_seq 0

  -- The loop of search_index, from the name before the position `n` down to the first one.
  unfoldable pub search_below : List (List ℕ) → ℕ → ℕ → Result (Option ℕ)
  search_below names index zero = ok none
  search_below names index (suc i) = elim (get_elem? names i) [
    | none ↦ err undefined
    | some name ↦ elim (parse_wal_name name) [
      | none ↦ err fatal
      | some (seq, cur_index) ↦
          let rest = search_below names index i in if leb cur_index index then ok (some i) else rest
    ]
  ]

  -- Of no names at all the one before the first is read.
  unfoldable pub search_index : List (List ℕ) → ℕ → Result (Option ℕ)
  search_index [] index = err undefined
  search_index (name ∷ names) index = search_below (name ∷ names) index (length (name ∷ names))

  unfoldable pub open_from : Directory → WalSnapshot → Result Wal
  open_from files start = is_valid_seq (names_of files) >>= λ valid.
      if valid then with_files start [] (files_of files) else err fatal

  -- get_wal_names; the directory is listed in the order of its names.
  unfoldable pub wal_files : Directory → Directory
  wal_files [] = []
  wal_files ((name, file) ∷ files) =
      let rest = wal_files files in
      if bytes_eq (r.extension name) wal_extension then (name, file) ∷ rest else rest

  unfoldable pub open_files : Directory → WalSnapshot → Result Wal
  open_files [] start = err fatal
  open_files (file ∷ files) start = search_index (names_of (file ∷ files)) start.index >>= λ found.
      elim found [ none ↦ err fatal | some at ↦ open_from (drop at (file ∷ files)) start ]

  unfoldable pub open_log : Directory → WalSnapshot → Result Wal
  open_log directory = open_files (wal_files directory)
