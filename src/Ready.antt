-- ===== src/Ready.antt =====
-- raft-kv/raft/ready.h and ready.cpp: what a node hands to its application, with is_must_sync of
-- raft-kv/raft/util.cpp.
use kvd.Base.{
  ℕ, Bool, true, false, not, ◌&&◌, ◌||◌, List, [], ◌∷◌, Option, none, some, ◌==◌, ltb,
  if◌then◌else◌, length, is_some, Result, ok, ◌>>=◌,
}
use kvd.Proto.{
  Entry, Message, HardState, empty_hard_state, is_empty_state, Snapshot, empty_snapshot,
}
use kvd.Proto
use kvd.RaftLog
use kvd.ReadOnly.{ReadState}
use kvd.Raft.State.{Raft, RaftState, follower, candidate, leader, pre_candidate}
use kvd.Raft.Members.{SoftState, soft_state, hard_state}

-- A null `soft_state` is `none`.
pub record Ready : Type 0 where
  pub soft_state : Option SoftState
  pub hard_state : HardState
  pub read_states : List ReadState
  pub entries : List Entry
  pub snapshot : Snapshot
  pub committed_entries : List Entry
  pub messages : List Message
  pub must_sync : Bool

unfoldable pub same_state : RaftState → RaftState → Bool
same_state follower follower = true
same_state candidate candidate = true
same_state leader leader = true
same_state pre_candidate pre_candidate = true
same_state _ _ = false

-- SoftState::equal
unfoldable pub soft_equal : SoftState → SoftState → Bool
soft_equal s t = s.lead == t.lead && same_state s.state t.state

-- HardState::equal
unfoldable pub hard_equal : HardState → HardState → Bool
hard_equal s t = s.term == t.term && s.vote == t.vote && s.commit == t.commit

unfoldable pub is_must_sync : HardState → HardState → ℕ → Bool
is_must_sync st prevst entsnum =
    not (entsnum == 0) || not (st.vote == prevst.vote) || not (st.term == prevst.term)

copy_snapshot : Option Snapshot → Snapshot
copy_snapshot none = empty_snapshot
copy_snapshot (some s) = s

-- The constructor, and the node whose messages it takes. The two hard states that must_sync compares
-- are the node's own, and the one that is handed out.
unfoldable pub new : Raft → SoftState → HardState → Result (Ready × Raft)
unfolding copy_snapshot
new r pre_soft_state pre_hard_state = RaftLog.next_entries r.raft_log [] >>= λ committed.
    let es : List Entry = r.raft_log.unstable.entries in
    let changed : HardState =
      if hard_equal (hard_state r) pre_hard_state then empty_hard_state else hard_state r in
    ok (
      record {
        soft_state = if soft_equal (soft_state r) pre_soft_state then none else some (soft_state r);
        hard_state = changed;
        read_states = r.read_states;
        entries = es;
        snapshot = copy_snapshot r.raft_log.unstable.snapshot;
        committed_entries = committed;
        messages = r.msgs;
        must_sync = is_must_sync (hard_state r) changed (length es);
      },
      record r { msgs = [] },
    )

unfoldable pub is_nil {ℓ} : {A : Type ℓ} → List A → Bool
is_nil [] = true
is_nil (a ∷ rest) = false

-- The last test is not negated in the code.
unfoldable pub contains_updates : Ready → Bool
contains_updates rd =
    is_some rd.soft_state
    || not (is_empty_state rd.hard_state)
    || not (Proto.is_empty rd.snapshot)
    || not (is_nil rd.entries)
    || not (is_nil rd.committed_entries)
    || not (is_nil rd.messages)
    || is_nil rd.read_states

unfoldable pub last_entry : List Entry → Option Entry
last_entry [] = none
last_entry (e ∷ []) = some e
last_entry (e ∷ f ∷ es) = last_entry (f ∷ es)

unfoldable pub applied_cursor : Ready → ℕ
applied_cursor rd = elim (last_entry rd.committed_entries) [
  | some e ↦ e.index
  | none ↦ if ltb 0 rd.snapshot.metadata.index then rd.snapshot.metadata.index else 0
]
