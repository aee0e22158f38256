-- ===== src/Wal/Saving.antt =====
-- wal.cpp: what is saved in the write-ahead log.
pub mod Durable
pub mod Partial
use kvd.Base.{ℕ, Bool, not, ◌&&◌, List, [], ◌∷◌, ltb, if◌then◌else◌, length}
use kvd.Proto.{Entry, HardState, is_empty_state, empty_hard_state}
use kvd.Ready.{is_must_sync, is_nil}
use kvd.Wal.{
  Codec, WalSnapshot, WalFile, Wal, append, sync, entry_type, state_type, snapshot_type,
  segment_size_bytes,
}

module _ (c : Codec) where
  unfoldable pub save_entry : Entry → Wal → Wal
  save_entry e w = record w { last = append c entry_type (c.pack_entry e) w.last; enti = e.index }

  unfoldable pub save_entries : List Entry → Wal → Wal
  save_entries [] w = w
  save_entries (e ∷ es) w = save_entries es (save_entry e w)

  unfoldable pub save_hard_state : HardState → Wal → Wal
  save_hard_state hs w =
      if is_empty_state hs
      then w
      else record w { state = hs; last = append c state_type (c.pack_state hs) w.last }

  unfoldable pub cut : Wal → Wal
  cut w = record w { last = sync w.last }

  -- The calls return only the status ok.
  unfoldable pub save : HardState → List Entry → Wal → Wal
  save hs es w =
      if is_empty_state hs && is_nil es
      then w
      else (let must_sync : Bool = is_must_sync hs w.state (length es) in
          let saved : Wal = save_hard_state hs (save_entries es w) in
          if ltb saved.last.file_size segment_size_bytes
          then (if must_sync then record saved { last = sync saved.last } else saved)
          else cut saved)

  unfoldable pub save_snapshot : WalSnapshot → Wal → Wal
  save_snapshot s w = record w {
    last = sync (append c snapshot_type (c.pack_snapshot s) w.last);
    enti = if ltb w.enti s.index then s.index else w.enti;
  }

  -- The file that create leaves in a directory.
  unfoldable pub create : WalFile
  create = sync (
      append c snapshot_type (c.pack_snapshot (record { index = 0; term = 0 }))
        (record { content = []; data_buffer = []; file_size = 0 }))
