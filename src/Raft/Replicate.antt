-- ===== src/Raft/Replicate.antt =====
-- raft.cpp: what the leader sends to its peers, and what it appends and commits.
pub mod Sorting
pub mod Quorum
use kvd.Base.{
  ℕ, ◌%◌, ◌++◌, Bool, true, false, not, ◌||◌, ◌&&◌, List, [], ◌∷◌, map, Option, none, some, ◌==◌,
  ltb, leb, min, if◌then◌else◌, length, get_elem?, add32, add64, sub64, u32_mod, deref, ok, fatal,
}
use kvd.Proto.{
  Entry, empty_message, app, snap, heartbeat, timeout_now, is_ok, is_empty, Status, Snapshot,
}
use kvd.Progress
use kvd.Progress.{Progress, ProgressState, probe, replicate, snapshot}
use kvd.Progress.InFlights
use kvd.RaftLog
use kvd.ReadOnly
use kvd.Raft.State.{
  Raft, M, ◌>>=◌, ◌>>◌, pure, done, get, modify, fail, lift, when, send, quorum, put_progress,
  the_progress,
}

-- Entry::payload_size
unfoldable pub payload_size : Entry → ℕ
payload_size e = length e.payload % u32_mod

-- The sum that the loops over the entries take, from `size` on.
unfoldable pub add_payload_sizes : ℕ → List Entry → ℕ
add_payload_sizes size [] = size
add_payload_sizes size (e ∷ es) = add_payload_sizes (add32 size (payload_size e)) es

unfoldable pub increase_uncommitted_size : List Entry → M Bool
increase_uncommitted_size es r =
    let s : ℕ = add_payload_sizes 0 es in
    if ltb 0 r.uncommitted_size && ltb r.max_uncommitted_size (add64 r.uncommitted_size s)
    then ok (false, r)
    else ok (true, record r { uncommitted_size = add64 r.uncommitted_size s })

unfoldable pub reduce_uncommitted_size : List Entry → M (Unit {0})
reduce_uncommitted_size es r =
    let size : ℕ = add_payload_sizes 0 es in
    if r.uncommitted_size == 0
    then ok (tt, r)
    else if ltb r.uncommitted_size size
    then ok (tt, record r { uncommitted_size = 0 })
    else ok (tt, record r { uncommitted_size = sub64 r.uncommitted_size size })

unfoldable pub insert_sorted : ℕ → List ℕ → List ℕ
insert_sorted x [] = x ∷ []
insert_sorted x (y ∷ ys) = if leb x y then x ∷ y ∷ ys else y ∷ insert_sorted x ys

-- std::sort
unfoldable pub sort : List ℕ → List ℕ
unfolding insert_sorted
sort [] = []
sort (x ∷ xs) = insert_sorted x (sort xs)

-- What the voters match, which maybe_commit sorts.
unfoldable pub matches : Raft → List ℕ
matches r = map (λ kv. kv.1.match_index) r.prs

unfoldable pub maybe_commit : M Bool
maybe_commit = do
  r ← get
  let sorted : List ℕ = sort (matches r)
  mci ← lift (deref (get_elem? sorted (sub64 (length sorted) (quorum r))))
  (committed, l) ← lift (RaftLog.maybe_commit r.raft_log mci r.term)
  modify (λ s. record s { raft_log = l })
  pure committed

-- The entries that append_entry makes, the first of them at `index`.
unfoldable pub number_entries : ℕ → ℕ → List Entry → List Entry
number_entries term index [] = []
number_entries term index (e ∷ es) =
    record e { term = term; index = index } ∷ number_entries term (add64 index 1) es

unfoldable pub append_entry : List Entry → M Bool
append_entry entries = do
  r ← get
  last ← lift (RaftLog.last_index r.raft_log)
  let ents : List Entry = number_entries r.term (add64 last 1) entries
  increased ← increase_uncommitted_size ents
  if not increased then pure false else (do
    s ← get
    (li, l) ← lift (RaftLog.append s.raft_log ents)
    modify (λ s. record s { raft_log = l })
    pr ← the_progress r.id
    modify (put_progress r.id (Progress.maybe_update pr li).1)
    committed ← maybe_commit
    pure true)

unfoldable pub or_zero : Option ℕ → ℕ
or_zero none = 0
or_zero (some t) = t

unfoldable pub is_nil : List Entry → Bool
is_nil [] = true
is_nil (e ∷ es) = false

unfoldable pub last_index_of : List Entry → ℕ
last_index_of [] = 0
last_index_of (e ∷ []) = e.index
last_index_of (e ∷ f ∷ es) = last_index_of (f ∷ es)

-- The branch of maybe_send_append for a peer that is behind the log.
unfoldable pub send_snapshot : ℕ → Progress → M Bool
send_snapshot to pr = if not pr.recent_active then pure false else (do
  r ← get
  let taken : Status × Snapshot = RaftLog.snapshot r.raft_log
  when (not (is_ok taken.0) || is_empty taken.1) (fail fatal)
  modify (put_progress to (Progress.become_snapshot pr taken.1.metadata.index))
  send (record empty_message { to = to; type = snap; snapshot = taken.1 })
  pure true)

-- The progress after a message with the entries up to `last`.
unfoldable pub sent_entries : ProgressState → Progress → ℕ → M Progress
sent_entries replicate pr last = lift (InFlights.add pr.inflights last) >>= λ f.
    pure (record (Progress.optimistic_update pr last) { inflights = f })
sent_entries probe pr last = pure (Progress.set_pause pr)
sent_entries snapshot pr last = fail fatal

unfoldable pub send_entries : ℕ → Progress → ℕ → List Entry → M Bool
unfolding is_nil last_index_of
send_entries to pr term es = do
  r ← get
  when (not (is_nil es))
      (sent_entries pr.state pr (last_index_of es) >>= λ pr'. modify (put_progress to pr'))
  send (record empty_message {
    to = to;
    type = app;
    index = sub64 pr.next 1;
    log_term = term;
    entries = es;
    commit = r.raft_log.committed;
  })
  pure true

unfoldable pub maybe_send_append : ℕ → Bool → M Bool
unfolding is_nil or_zero
maybe_send_append to send_if_empty = do
  pr ← the_progress to
  if Progress.is_paused pr then pure false else (do
    r ← get
    (status_term, term) ← lift (RaftLog.term r.raft_log (sub64 pr.next 1))
    (status_entries, es) ← lift (RaftLog.entries r.raft_log pr.next r.max_msg_size [])
    if is_nil es && not send_if_empty
        then pure false
        else if not (is_ok status_term) || not (is_ok status_entries)
        then send_snapshot to pr
        else send_entries to pr (or_zero term) es)

unfoldable pub send_append : ℕ → M (Unit {0})
send_append to = do sent ← maybe_send_append to true; done

unfoldable pub send_heartbeat : ℕ → List ℕ → M (Unit {0})
send_heartbeat to ctx = do
  pr ← the_progress to
  r ← get
  send (record empty_message {
    to = to;
    type = heartbeat;
    commit = min pr.match_index r.raft_log.committed;
    context = ctx;
  })

-- for_each_progress: the voters, then the learners, in the order of the maps.
unfoldable pub progress_ids : Raft → List ℕ
progress_ids r = map (λ kv. kv.0) r.prs ++ map (λ kv. kv.0) r.learner_prs

-- `call` for each of the peers but the node itself.
unfoldable pub for_peers : ℕ → (ℕ → M (Unit {0})) → List ℕ → M (Unit {0})
for_peers self call [] = done
for_peers self call (id ∷ ids) = do when (not (id == self)) (call id); for_peers self call ids

unfoldable pub bcast_append : M (Unit {0})
bcast_append = do r ← get; for_peers r.id send_append (progress_ids r)

unfoldable pub bcast_heartbeat_with_ctx : List ℕ → M (Unit {0})
bcast_heartbeat_with_ctx ctx = do
  r ← get
  for_peers r.id (λ id. send_heartbeat id ctx) (progress_ids r)

unfoldable pub bcast_heartbeat : M (Unit {0})
bcast_heartbeat = do
  r ← get
  bcast_heartbeat_with_ctx (ReadOnly.last_pending_request_ctx r.read_only)

unfoldable pub send_timeout_now : ℕ → M (Unit {0})
send_timeout_now to = send (record empty_message { to = to; type = timeout_now })
