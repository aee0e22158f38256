-- ===== src/Driver/Trimming.antt =====
-- raft_node.cpp: maybe_trigger_snapshot, which replaces the start of the log by a snapshot.
use kvd.Base.{
  ℕ, ◌+◌, ◌-◌, ◌≤◌, ◌<◌, ◌≡◌, refl, ap, ◌∙◌, ◌⊎◌, inl, inr, true, false, Bool-cases, List, length,
  arith, ltb, leb, u64_mod, sub64, sub64-eq, some, ok, Returns, Returns-value,
}
use kvd.Proto.{Status, Snapshot, okay, is_ok}
use kvd.Storage
use kvd.Storage.{MemoryStorage}
use kvd.Storage.View
use kvd.Storage.View.{offset, entry_at}
use kvd.Storage.Compaction.{Compacts, compact-Compacts, create_snapshot-records}
use kvd.Store
use kvd.Driver.{
  Outside, RaftNode, storage, set_storage, save_snap, maybe_trigger_snapshot, default_snap_count,
  snapshot_catch_up_entries,
}

-- The applied index lies in the log that the storage holds, and its snapshot is the driver's last one.
pub record IsValid (d : RaftNode) : Type 0 where
  pub stored : Storage.View.IsValid (storage d)
  pub snapshot : (storage d).snapshot.metadata.index ≡ d.snapshot_index
  pub snapshot_from : offset (storage d) ≤ d.snapshot_index
  pub applied_from : d.snapshot_index ≤ d.applied_index
  pub applied_within : d.applied_index < offset (storage d) + length (storage d).entries

-- What is left of the log: the place to start at, which moves exactly when a snapshot is due, and the
-- entries past it.
abbrev pub Trims : RaftNode → RaftNode → Type 0
Trims d w =
    IsValid w
    × (w.applied_index ≡ d.applied_index)
    × (w.applied_index ≤ w.snapshot_index + default_snap_count)
    × (offset (storage w) + length (storage w).entries
        ≡ offset (storage d) + length (storage d).entries)
    × (((d.applied_index ≤ d.snapshot_index + default_snap_count)
          × (w.snapshot_index ≡ d.snapshot_index)
          × (offset (storage w) ≡ offset (storage d)))
        ⊎ ((d.snapshot_index + default_snap_count < d.applied_index)
            × (w.snapshot_index ≡ d.applied_index)
            × (offset (storage w) + snapshot_catch_up_entries ≡ d.applied_index)))
    × ((i : ℕ) → offset (storage w) < i → entry_at (storage w) i ≡ entry_at (storage d) i)

-- A snapshot of the applied index, and a compaction to the place that is to be the start.
module _ (o : Outside) (d : RaftNode) (saves : (snap : Snapshot) → is_ok (o.save_file snap) ≡ true)
    (v : IsValid d) (many : default_snap_count < d.applied_index - d.snapshot_index) where
  start : ℕ
  start = d.applied_index - snapshot_catch_up_entries

  payload : List ℕ
  payload = Store.get_snapshot o.pack_map d.redis_server

  snapped : Snapshot → MemoryStorage
  snapped snap = record (storage d) { snapshot = snap }

  small : d.applied_index < u64_mod
  small = omega (arith, v.applied_within, v.stored.bounded)

  compact-snapped :
      (snap : Snapshot)
      → Returns
          (Storage.compact (snapped snap) start)
          (λ r. (r.0 ≡ okay) × Compacts (snapped snap) start r.1)
  unfolding snapped start
  compact-snapped snap =
      compact-Compacts (snapped snap) start
        (record {
          nonempty = v.stored.nonempty;
          contiguous = v.stored.contiguous;
          bounded = v.stored.bounded;
        })
        (omega (arith, v.snapshot_from)) (omega (arith, v.applied_within))

  module _ (r : Status × Snapshot × MemoryStorage)
      (created : Storage.create_snapshot (storage d) d.applied_index (some d.conf_state) payload
        ≡ ok r)
      (fine : r.0 ≡ okay) (at_applied : r.1.metadata.index ≡ d.applied_index)
      (held : r.2 ≡ snapped r.1) where
    compacting :
        (q : Status × MemoryStorage)
        → Storage.compact (snapped r.1) start ≡ ok q
        → q.0 ≡ okay
        → Compacts (snapped r.1) start q.1
        → Returns (maybe_trigger_snapshot o d) (Trims d)
    unfolding maybe_trigger_snapshot save_snap storage set_storage snapped start payload is_ok
        entry_at
    compacting q compacted compacts c =
        let since : leb (sub64 d.applied_index d.snapshot_index) default_snap_count ≡ false =
          ground (arith, sub64-eq d.applied_index d.snapshot_index v.applied_from small) in
        let wrap : sub64 d.applied_index snapshot_catch_up_entries
            ≡ d.applied_index - snapshot_catch_up_entries =
          sub64-eq d.applied_index snapshot_catch_up_entries (omega arith) small in
        let far : ltb snapshot_catch_up_entries d.applied_index ≡ true = ground arith in
        rw (since, created, fine, saves r.1, held, far, wrap, compacted, compacts, saves r.1)
          (
            record {
              stored = c.0;
              snapshot = ap (λ s. s.metadata.index) c.3 ∙ at_applied;
              snapshot_from = omega (arith, c.1);
              applied_from = omega arith;
              applied_within = omega (arith, c.2, v.applied_within);
            },
            refl,
            omega arith,
            c.2,
            inr (omega arith, refl, omega (arith, c.1)),
            λ i past. c.5 i (omega (arith, c.1)),
          )

-- maybe_trigger_snapshot never fails where the files of snapshots can be written. When at most 100000
-- entries were applied since the last snapshot, the snapshot's index and the start of the log stay as
-- they are. When more were applied, the snapshot's index becomes the applied index, and the log starts
-- exactly 100000 entries before it. The driver stays valid, the applied index and the end of the log
-- stay as they are, and so do the entries past the new start of the log.
pub maybe_trigger_snapshot-Trims :
    (o : Outside) (d : RaftNode)
    → ((snap : Snapshot) → is_ok (o.save_file snap) ≡ true)
    → IsValid d
    → Returns (maybe_trigger_snapshot o d) (Trims d)
unfolding maybe_trigger_snapshot payload snapped
maybe_trigger_snapshot-Trims o d saves v =
    elim (Bool-cases (leb (d.applied_index - d.snapshot_index) default_snap_count)) [
      | inl few ↦
          let since : leb (sub64 d.applied_index d.snapshot_index) default_snap_count ≡ true =
            ground (
              arith,
              sub64-eq d.applied_index d.snapshot_index v.applied_from
                  (omega (arith, v.applied_within, v.stored.bounded)),
            ) in
          rw (since)
            (v, refl, ground arith, refl, inl (ground (arith, few), refl, refl), λ i h. refl)
      | inr more ↦
          let many : default_snap_count < d.applied_index - d.snapshot_index = ground arith in
          let (r, created, facts) = Returns-value _ _ (
            create_snapshot-records (storage d) d.applied_index (some d.conf_state)
              (payload o d saves v many) v.stored (omega (arith, v.snapshot))
              (omega (arith, v.snapshot_from, v.applied_from)) v.applied_within) in
          let (q, compacted, done) = Returns-value _ _ (compact-snapped o d saves v many r.1) in
          compacting o d saves v many r created facts.0 facts.1 facts.5 q compacted done.0 done.1
    ]
