-- ===== src/Raft/Follower/Answers.antt =====
-- raft.cpp: what a follower answers to its leader.
use kvd.Base.{
  ℕ, ◌+◌, ◌-◌, ◌≤◌, ◌<◌, ◌≡◌, ◌≢◌, ◌⊎◌, refl, ap, max, true, false, List, [], ◌∷◌, ◌++◌, length,
  u64_mod, ok, err, undefined, Result, Error, Returns, Returns-value, not-ltb, lt→ltb, ==-ne,
  lookup, insert, erase,
}
use kvd.Proto.{Message, empty_message, app_resp, heartbeat_resp}
use kvd.Progress.{Progress}
use kvd.RaftLog
use kvd.RaftLog.View.{IsValid, end_of, term_at, last_index_lem}
use kvd.RaftLog.Terms.{term_lem, Conflict}
use kvd.RaftLog.Commit.{commit_to-IsValid}
use kvd.RaftLog.MaybeAppend.{Accepted, HasTerms, maybe_append-Accepted, maybe_append-refuses}
use kvd.Unstable.Entries.{Contiguous}
use kvd.Raft.State.{
  Raft, send, is_campaign_msg, is_forwarded_msg, get_progress, the_progress, M, ◌>>=◌,
}
use kvd.Raft.Follower.{handle_append_entries, handle_heartbeat, restore_node, set_progress}

-- The answer of the given node to `msg`.
abbrev pub answer : Raft → Message → Message
answer r msg = record empty_message { to = msg.from; from = r.id; term = r.term; type = app_resp }

-- handle_heartbeat of a commit index in the log never fails. It moves the commit index forward only,
-- and sends one answer, whose context is empty whatever the context of the heartbeat is.
pub handle_heartbeat-answers :
    (r : Raft) (msg : Message)
    → IsValid r.raft_log
    → msg.commit < end_of r.raft_log
    → handle_heartbeat msg r
      ≡ ok (
        tt,
        record r {
          raft_log = record r.raft_log { committed = max r.raft_log.committed msg.commit };
          msgs = r.msgs ++ (record (answer r msg) { type = heartbeat_resp; context = [] } ∷ []);
        },
      )
unfolding handle_heartbeat send is_campaign_msg is_forwarded_msg
handle_heartbeat-answers r msg v h =
    let (w, e, q) =
      Returns-value _ (RaftLog.commit_to r.raft_log msg.commit)
        (commit_to-IsValid r.raft_log msg.commit v h) in
    rw (e, q.1) refl

-- A message from before the commit index is answered with the commit index, and changes nothing else.
pub handle_append_entries-stale :
    (r : Raft) (msg : Message)
    → msg.index < r.raft_log.committed
    → handle_append_entries msg r
      ≡ ok (
        tt,
        record r { msgs = r.msgs ++ (record (answer r msg) { index = r.raft_log.committed } ∷ []) },
      )
unfolding handle_append_entries send is_campaign_msg is_forwarded_msg
handle_append_entries-stale r msg h = rw (lt→ltb msg.index r.raft_log.committed h) refl

-- handle_append_entries of entries that follow a position where the log has the message's term, none
-- of them in conflict with a committed one, never fails. The log accepts them, and the one answer
-- names the last of them; the term and the vote stay.
pub handle_append_entries-Accepted :
    (r : Raft) (msg : Message) (ci : ℕ)
    → IsValid r.raft_log
    → r.raft_log.committed ≤ msg.index
    → Contiguous (msg.index + 1) msg.entries
    → msg.index + 1 + length msg.entries < u64_mod
    → HasTerms msg.entries
    → msg.index < end_of r.raft_log
    → msg.log_term ≡ term_at r.raft_log msg.index
    → Conflict r.raft_log msg.entries ci
    → (ci ≡ 0) ⊎ (r.raft_log.committed < ci)
    → Returns (handle_append_entries msg r) λ p.
      Accepted r.raft_log msg.index msg.commit msg.entries p.1.raft_log
      × (p.1.msgs
          ≡ r.msgs ++ (record (answer r msg) { index = msg.index + length msg.entries } ∷ []))
      × (p.1.term ≡ r.term)
      × (p.1.vote ≡ r.vote)
unfolding handle_append_entries send is_campaign_msg is_forwarded_msg
handle_append_entries-Accepted r msg ci v h c b t k same cf safe =
    let (w, e, q) =
      Returns-value _
        (RaftLog.maybe_append r.raft_log msg.index (term_at r.raft_log msg.index) msg.commit
          msg.entries)
        (maybe_append-Accepted r.raft_log msg.index msg.commit msg.entries ci v c b t k cf safe) in
    rw (not-ltb msg.index r.raft_log.committed h, same, e, q.0) (q.1, refl, refl, refl)

-- handle_append_entries of entries that follow a position where the log has another term changes
-- nothing but that it sends one rejection, with the last index of the log as its hint.
pub handle_append_entries-rejects :
    (r : Raft) (msg : Message)
    → IsValid r.raft_log
    → r.raft_log.committed ≤ msg.index
    → msg.index < u64_mod
    → msg.log_term ≢ term_at r.raft_log msg.index
    → handle_append_entries msg r
      ≡ ok (
        tt,
        record r {
          msgs =
              r.msgs
              ++ (record (answer r msg) {
                index = msg.index;
                reject = true;
                reject_hint = end_of r.raft_log - 1;
              }
                  ∷ []);
        },
      )
unfolding handle_append_entries send is_campaign_msg is_forwarded_msg
handle_append_entries-rejects r msg v h b ne =
    rw
      (
        not-ltb msg.index r.raft_log.committed h,
        maybe_append-refuses r.raft_log msg.index msg.log_term msg.commit msg.entries v b ne,
        term_lem r.raft_log msg.index v b,
        last_index_lem r.raft_log v,
      )
      refl

-- A node that only another one's progress is kept of.
absent :
    (r : Raft) (node : ℕ) (p : Progress)
    → node ≢ r.id
    → the_progress r.id (record r { prs = insert node p []; learner_prs = erase node [] })
      ≡ err undefined
unfolding get_progress lookup insert erase
absent r node p ne = rw (the_progress, ==-ne node r.id ne) refl

after_fault :
    {A B : Type 0} (m : M A) (f : A → M B) {r : Raft} {x : Error}
    → m r ≡ err x
    → (m >>= f) r ≡ err x
after_fault {A = A} {B = B} m f e =
    ap (λ (q : Result (A × Raft)). elim q [ err x ↦ err x | ok (a, s) ↦ f a s ]) e

-- restore_node of the voters of a snapshot, of which the first is another node, reads through a null
-- pointer: the log line of its loop asks for the node's own progress, which is not there yet.
pub restore_node-other_first :
    (r : Raft) (node : ℕ) (nodes : List ℕ)
    → IsValid r.raft_log
    → r.prs ≡ []
    → r.learner_prs ≡ []
    → node ≢ r.id
    → restore_node (node ∷ nodes) false r ≡ err undefined
unfolding restore_node set_progress
restore_node-other_first r node nodes v np nl ne =
    rw (last_index_lem r.raft_log v, ==-ne node r.id ne, np, nl)
      (after_fault (the_progress r.id) _ (absent r node _ ne))
