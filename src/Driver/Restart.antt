-- ===== src/Driver/Restart.antt =====
-- raft_node.cpp: the store of a server that starts again with a snapshot and a log behind it.
use kvd.Base.{
  ℕ, ◌<◌, ◌≡◌, refl, subst, List, [], Option, none, some, arith, Result, ok, err, ◌>>=◌, Returns,
}
use kvd.Proto.{Entry, Snapshot, HardState, empty_hard_state}
use kvd.Storage
use kvd.Storage.{MemoryStorage}
use kvd.Ready.{last_entry, is_nil}
use kvd.Node.{ConfChange}
use kvd.Wal.{Wal}
use kvd.Wal.Reading.{read_all}
use kvd.Wal.Opening.{NameReader}
use kvd.Snapshots
use kvd.Snapshots.{SnapshotCodec, SnapFile}
use kvd.Store
use kvd.Driver.{Outside}
use kvd.Driver.Starting.{
  Disk, Replayed, load_snapshot, kept, store_log, read_log, open_wal, replay_wal, all_entries,
}

ok-bind :
    {A B : Type 0} (r : Result A) (f : A → Result B) (b : B)
    → (r >>= f) ≡ ok b
    → (a : A) × (f a ≡ ok b)
ok-bind (ok a) f b e = (a, e)
ok-bind (err x) f b e = cc

kept-data :
    (snap : Snapshot) (snaps : List SnapFile) (wal : Wal) (st : MemoryStorage) (last : Option Entry)
    → 0 < (kept snap snaps wal st last).last_index
    → (kept snap snaps wal st last).snap_data ≡ []
unfolding kept
kept-data snap snaps wal st (some e) h = refl
kept-data snap snaps wal st none h = absurd (omega arith)

store_log-data :
    (loaded : Snapshot × List SnapFile × MemoryStorage)
    (read : HardState × List (Option Entry) × Wal) (p : Replayed)
    → store_log loaded read ≡ ok p
    → 0 < p.last_index
    → p.snap_data ≡ []
unfolding store_log
store_log-data (snap, snaps, st) (hs, ents, wal) p e some_index =
    let (es, e1) =
      ok-bind (all_entries ents)
        (λ es. Storage.append (Storage.set_hard_state st hs) es >>= λ stored.
          ok (kept snap snaps wal stored.1 (last_entry es)))
        p e in
    let (stored, e2) =
      ok-bind (Storage.append (Storage.set_hard_state st hs) es)
        (λ stored. ok (kept snap snaps wal stored.1 (last_entry es))) p e1 in
    let same : kept snap snaps wal stored.1 (last_entry es) ≡ p = cc in
    subst (λ q. 0 < q.last_index → q.snap_data ≡ []) same
      (kept-data snap snaps wal stored.1 (last_entry es)) some_index

module _ (o : Outside) (sc : SnapshotCodec) (pack_change : ConfChange → List ℕ) (r : NameReader)
    (first_name : List ℕ) where
  replayed_data :
      (disk : Disk) (st : MemoryStorage) (p : Replayed)
      → replay_wal o sc pack_change r first_name disk st ≡ ok p
      → 0 < p.last_index
      → p.snap_data ≡ []
  unfolding replay_wal read_log
  replayed_data disk st p e some_index =
      let (loaded, e1) =
        ok-bind (load_snapshot (Snapshots.load sc disk.snaps) st)
          (read_log o sc pack_change r first_name disk.wals) p e in
      let (opened, e2) =
        ok-bind (open_wal o sc pack_change r first_name disk.wals loaded.0)
          (λ opened. read_all o.codec opened empty_hard_state [] >>= store_log loaded) p e1 in
      let (read, e3) =
        ok-bind (read_all o.codec opened empty_hard_state []) (store_log loaded) p e2 in
      store_log-data loaded read p e3 some_index

  -- When replay_WAL has read an entry of a positive index from the log, the store of the server starts
  -- without any key, whatever snapshot was loaded.
  pub replay_wal-forgets :
      (disk : Disk) (st : MemoryStorage) (p : Replayed) (id : ℕ)
      → replay_wal o sc pack_change r first_name disk st ≡ ok p
      → 0 < p.last_index
      → Returns (Store.new o.unpack_map id p.snap_data) (λ s. s.key_values ≡ [])
  unfolding Store.new is_nil
  replay_wal-forgets disk st p id e some_index = rw (replayed_data disk st p e some_index) refl
