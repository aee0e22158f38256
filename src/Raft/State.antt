-- ===== src/Raft/State.antt =====
-- raft.h: the state of a node; raft.cpp: send and the access to the progress of the peers.
-- `match_buf_` is scratch space of maybe_commit and is left out. `tick_` and `step_` are the names of
-- the function that they hold. The random numbers come from a sequence that is given.
pub mod Access
use kvd.Base.{
  ℕ, ◌+◌, ◌/◌, ◌%◌, Bool, true, false, List, [], ◌∷◌, ◌++◌, Option, none, some, ◌==◌, if◌then◌else◌,
  not, length, u32_mod, lookup, insert, is_some, Result, ok, err, Error, fatal, undefined,
}
use kvd.Proto.{Message, MessageType, vote_resp, pre_vote_resp, prop, read_index}
use kvd.Progress.{Progress}
use kvd.RaftLog.{RaftLog}
use kvd.ReadOnly.{ReadOnly, ReadState}

pub data RaftState : Type 0 where
  follower candidate leader pre_candidate : RaftState

pub data TickFunction : Type 0 where
  tick_election tick_heartbeat : TickFunction

pub data StepFunction : Type 0 where
  step_follower step_candidate step_leader : StepFunction

pub record RandomDevice : Type 0 where
  pub draws : ℕ → ℕ
  pub drawn : ℕ

pub record Raft : Type 0 where
  pub id : ℕ
  pub term : ℕ
  pub vote : ℕ
  pub read_states : List ReadState
  pub raft_log : RaftLog
  pub max_msg_size : ℕ
  pub max_uncommitted_size : ℕ
  pub max_inflight : ℕ
  pub prs : List (ℕ × Progress)
  pub learner_prs : List (ℕ × Progress)
  pub state : RaftState
  pub is_learner : Bool
  pub votes : List (ℕ × Bool)
  pub msgs : List Message
  pub lead : ℕ
  pub lead_transferee : ℕ
  pub pending_conf_index : ℕ
  pub uncommitted_size : ℕ
  pub read_only : ReadOnly
  pub election_elapsed : ℕ
  pub heartbeat_elapsed : ℕ
  pub check_quorum : Bool
  pub pre_vote : Bool
  pub heartbeat_timeout : ℕ
  pub election_timeout : ℕ
  pub randomized_election_timeout : ℕ
  pub disable_proposal_forwarding : Bool
  pub tick : TickFunction
  pub step : StepFunction
  pub random_device : RandomDevice

abbrev pub M : Type 0 → Type 0
M A = Raft → Result (A × Raft)

abbrev pub pure : {A : Type 0} → A → M A
pure a r = ok (a, r)

infixl 5 ◌>>=◌ ◌>>◌
abbrev pub ◌>>=◌ : {A B : Type 0} → M A → (A → M B) → M B
◌>>=◌ m f r = elim (m r) [ err e ↦ err e | ok (a, s) ↦ f a s ]

abbrev pub ◌>>◌ : {B : Type 0} → M (Unit {0}) → M B → M B
m >> k = m >>= λ _. k

abbrev pub done : M (Unit {0})
done r = ok (tt, r)

abbrev pub get : M Raft
get r = ok (r, r)

abbrev pub modify : (Raft → Raft) → M (Unit {0})
modify f r = ok (tt, f r)

abbrev pub fail : {A : Type 0} → Error → M A
fail e r = err e

-- A call on a part that does not change the node.
abbrev pub lift : {A : Type 0} → Result A → M A
lift (ok a) r = ok (a, r)
lift (err e) r = err e

abbrev pub when : Bool → M (Unit {0}) → M (Unit {0})
when true m = m
when false m = done

unfoldable pub is_follower : RaftState → Bool
is_follower follower = true
is_follower _ = false

unfoldable pub is_leader : RaftState → Bool
is_leader leader = true
is_leader _ = false

unfoldable pub is_pre_candidate : RaftState → Bool
is_pre_candidate pre_candidate = true
is_pre_candidate _ = false

-- The messages of an election, which carry a term of their own.
unfoldable pub is_campaign_msg : MessageType → Bool
is_campaign_msg MessageType.vote = true
is_campaign_msg vote_resp = true
is_campaign_msg MessageType.pre_vote = true
is_campaign_msg pre_vote_resp = true
is_campaign_msg _ = false

-- MsgProp and MsgReadIndex are forwarded without a term.
unfoldable pub is_forwarded_msg : MessageType → Bool
is_forwarded_msg prop = true
is_forwarded_msg read_index = true
is_forwarded_msg _ = false

unfoldable pub send : Message → M (Unit {0})
send msg r =
    let sent : Message = record msg { from = r.id } in
    if is_campaign_msg msg.type
    then (if msg.term == 0 then err fatal else ok (tt, record r { msgs = r.msgs ++ (sent ∷ []) }))
    else if not (msg.term == 0)
    then err fatal
    else ok (
      tt,
      record r {
        msgs =
            r.msgs
            ++ ((if is_forwarded_msg msg.type then sent else record sent { term = r.term }) ∷ []);
      },
    )

unfoldable pub quorum : Raft → ℕ
quorum r = (length r.prs / 2 + 1) % u32_mod

-- `nullptr` is `none`.
unfoldable pub get_progress : Raft → ℕ → Option Progress
get_progress r id = elim (lookup id r.prs) [ some p ↦ some p | none ↦ lookup id r.learner_prs ]

-- What is assigned through the pointer that get_progress returns.
unfoldable pub put_progress : ℕ → Progress → Raft → Raft
put_progress id p r =
    if is_some (lookup id r.prs)
    then record r { prs = insert id p r.prs }
    else record r { learner_prs = insert id p r.learner_prs }

unfoldable pub promotable : Raft → Bool
promotable r = is_some (lookup r.id r.prs)

-- `*get_progress(id)`
abbrev pub the_progress : ℕ → M Progress
the_progress id r = elim (get_progress r id) [ none ↦ err undefined | some p ↦ ok (p, r) ]
