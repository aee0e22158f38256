-- ===== src/Raft/Roles/Reset.antt =====
-- raft.cpp: reset, and the state in which a node changes its role.
use kvd.Base.{
  ℕ, ◌+◌, ◌-◌, ◌*◌, ◌%◌, ◌^◌, ◌≤◌, ◌<◌, ◌≡◌, inl, inr, refl, ◌∙◌, true, List, [], ◌∷◌, map, ◌==◌,
  leb, if◌then◌else◌, arith, add32, add64, add32-eq, add64-eq, u32_mod, ap, Result, ok, err,
  Bool-cases, le→leb,
}
use kvd.Progress
use kvd.Progress.{Progress}
use kvd.RaftLog.View.{IsValid, end_of, last_index_lem}
use kvd.Raft.State.{Raft, M, ◌>>=◌}
use kvd.Raft.Peers.{reset_progresses}
use kvd.Raft.Roles.{reset_randomized_election_timeout, reset_peers, finish, reset_term, reset}

-- The timeout of the node is below 2 ^ 31, and the next number drawn is in the range that the random
-- device is made with.
pub record TimerFits (r : Raft) : Type 0 where
  pub timeout_small : r.election_timeout < 2 ^ 31
  pub draw_in : r.random_device.draws r.random_device.drawn ≤ r.election_timeout

-- What reset leaves of a peer: nothing in flight, and the next index right after the node's log.
abbrev pub fresh : Raft → ℕ × Progress → ℕ × Progress
fresh r kv = (
  kv.0,
  record (Progress.new r.max_inflight) {
    next = end_of r.raft_log;
    is_learner = (kv.1).is_learner;
    match_index = if kv.0 == r.id then end_of r.raft_log - 1 else 0;
  },
)

reset_progresses-fresh :
    (r : Raft) (prs : List (ℕ × Progress))
    → IsValid r.raft_log
    → reset_progresses r prs ≡ ok (map (fresh r) prs)
unfolding reset_progresses
reset_progresses-fresh r [] v = refl
reset_progresses-fresh r (kv ∷ prs) v =
    rw (last_index_lem r.raft_log v, reset_progresses-fresh r prs v, next) refl
  where
    next : add64 (end_of r.raft_log - 1) 1 ≡ end_of r.raft_log
    next = omega (arith, add64-eq (end_of r.raft_log - 1) 1, v.committed_to, v.unstable.bounded)

timeout-eq :
    (r : Raft)
    → TimerFits r
    → add32 r.election_timeout (r.random_device.draws r.random_device.drawn)
      ≡ r.election_timeout + r.random_device.draws r.random_device.drawn
timeout-eq r t = add32-eq _ _ (omega (arith, t.timeout_small, t.draw_in))

timeout-in :
    (r : Raft)
    → TimerFits r
    → leb
        (r.election_timeout + r.random_device.draws r.random_device.drawn)
        ((2 * r.election_timeout) % u32_mod)
      ≡ true
timeout-in r t = le→leb _ _ (omega (arith, t.timeout_small, t.draw_in))

randomized-eq :
    (r : Raft)
    → TimerFits r
    → reset_randomized_election_timeout r
      ≡ ok (
        tt,
        record r {
          randomized_election_timeout =
              r.election_timeout + r.random_device.draws r.random_device.drawn;
          random_device = record r.random_device { drawn = r.random_device.drawn + 1 };
        },
      )
unfolding reset_randomized_election_timeout
randomized-eq r t = rw (timeout-eq r t, timeout-in r t) refl

reset_peers-eq :
    (r : Raft)
    → IsValid r.raft_log
    → reset_peers r
      ≡ ok (
        tt,
        record r {
          prs = map (fresh r) r.prs;
          learner_prs = map (fresh r) r.learner_prs;
          pending_conf_index = 0;
          uncommitted_size = 0;
          read_only = record r.read_only { pending_read_index = []; read_index_queue = [] };
        },
      )
unfolding reset_peers
reset_peers-eq r v =
    rw (reset_progresses-fresh r r.prs v, reset_progresses-fresh r r.learner_prs v) refl

-- A call that returns, and what follows it.
pub after_call :
    {A B : Type 0} (m : M A) (f : A → M B) {r s : Raft} {a : A}
    → m r ≡ ok (a, s)
    → (m >>= f) r ≡ f a s
after_call {A = A} {B = B} m f e =
    ap (λ (q : Result (A × Raft)). elim q [ err x ↦ err x | ok (a, s) ↦ f a s ]) e

-- The state that reset leaves.
pub record Resets (term : ℕ) (r w : Raft) : Type 0 where
  pub new_term : w.term ≡ term
  pub new_vote : w.vote ≡ (if r.term == term then r.vote else 0)
  pub no_votes : w.votes ≡ []
  pub same_log : w.raft_log ≡ r.raft_log
  pub same_msgs : w.msgs ≡ r.msgs
  pub same_step : w.step ≡ r.step
  pub same_id : w.id ≡ r.id
  pub no_lead : w.lead ≡ 0
  pub peers : w.prs ≡ map (fresh r) r.prs
  pub learners : w.learner_prs ≡ map (fresh r) r.learner_prs
  pub timeout : r.election_timeout ≤ w.randomized_election_timeout
  pub timeout_in : w.randomized_election_timeout ≤ 2 * r.election_timeout
  pub no_reads : (w.read_only.read_index_queue ≡ [])

-- What reset makes of a node that has the new term.
abbrev finished : Raft → Raft
finished r = record r {
  lead = 0;
  election_elapsed = 0;
  heartbeat_elapsed = 0;
  randomized_election_timeout = r.election_timeout + r.random_device.draws r.random_device.drawn;
  random_device = record r.random_device { drawn = r.random_device.drawn + 1 };
  lead_transferee = 0;
  votes = [];
  prs = map (fresh r) r.prs;
  learner_prs = map (fresh r) r.learner_prs;
  pending_conf_index = 0;
  uncommitted_size = 0;
  read_only = record r.read_only { pending_read_index = []; read_index_queue = [] };
}

-- The end of reset, after the term is set.
reset_rest : (r : Raft) → IsValid r.raft_log → TimerFits r → finish r ≡ ok (tt, finished r)
unfolding finish
reset_rest r v t =
    after_call reset_randomized_election_timeout _ (
      randomized-eq (record r { lead = 0; election_elapsed = 0; heartbeat_elapsed = 0 })
        (record { timeout_small = t.timeout_small; draw_in = t.draw_in }))
    ∙ reset_peers-eq _ v

pub reset-Resets :
    (r : Raft) (term : ℕ)
    → IsValid r.raft_log
    → TimerFits r
    → (w : Raft) × (reset term r ≡ ok (tt, w)) × Resets term r w
unfolding reset reset_term
reset-Resets r term v t = (
  finished (reset_term term r),
  elim (Bool-cases (r.term == term)) [
    | inl same ↦ rw same (reset_rest r v t)
    | inr other ↦ rw other (
        reset_rest (record r { term = term; vote = 0 }) v
          (record { timeout_small = t.timeout_small; draw_in = t.draw_in }))
  ],
  record {
    new_term = ground arith;
    new_vote = ground arith;
    no_votes = refl;
    same_log = ground arith;
    same_msgs = ground arith;
    same_step = ground arith;
    same_id = ground arith;
    no_lead = refl;
    peers = ground arith;
    learners = ground arith;
    timeout = ground arith;
    timeout_in = ground (arith, t.draw_in);
    no_reads = refl;
  },
)
