-- ===== src/ReadOnly.antt =====
-- raft-kv/raft/readonly.h and readonly.cpp: the reads that wait for a quorum to confirm the leader.
-- A context is its list of bytes; a set of acks is a list with no repetition.
use kvd.Base.{
  ℕ, ◌+◌, Bool, true, false, List, [], ◌∷◌, ◌++◌, Option, none, some, ◌==◌, if◌then◌else◌, ◌&&◌,
  length, get_elem?, Result, ok, err, fatal, ◌>>=◌, deref, is_some,
}
use kvd.Proto.{Message, Entry}

pub data ReadOnlyOption : Type 0 where
  safe lease_based : ReadOnlyOption

pub record ReadState : Type 0 where
  pub index : ℕ
  pub request_ctx : List ℕ

pub record ReadIndexStatus : Type 0 where
  pub req : Message
  pub index : ℕ
  pub acks : List ℕ

pub record ReadOnly : Type 0 where
  pub option : ReadOnlyOption
  pub pending_read_index : List (List ℕ × ReadIndexStatus)
  pub read_index_queue : List (List ℕ)

unfoldable pub new : ReadOnlyOption → ReadOnly
new option = record { option = option; pending_read_index = []; read_index_queue = [] }

unfoldable pub bytes_eq : List ℕ → List ℕ → Bool
bytes_eq [] [] = true
bytes_eq [] (y ∷ ys) = false
bytes_eq (x ∷ xs) [] = false
bytes_eq (x ∷ xs) (y ∷ ys) = x == y && bytes_eq xs ys

unfoldable pub find : List ℕ → List (List ℕ × ReadIndexStatus) → Option ReadIndexStatus
find k [] = none
find k ((j, v) ∷ m) = if bytes_eq j k then some v else find k m

put : List ℕ → ReadIndexStatus → List (List ℕ × ReadIndexStatus) → List (List ℕ × ReadIndexStatus)
put k v [] = (k, v) ∷ []
put k v ((j, w) ∷ m) = if bytes_eq j k then (j, v) ∷ m else (j, w) ∷ put k v m

remove : List ℕ → List (List ℕ × ReadIndexStatus) → List (List ℕ × ReadIndexStatus)
remove k [] = []
remove k ((j, w) ∷ m) = if bytes_eq j k then m else (j, w) ∷ remove k m

last_of : List (List ℕ) → List ℕ
last_of [] = []
last_of (x ∷ []) = x
last_of (x ∷ y ∷ ys) = last_of (y ∷ ys)

-- The context that the call leaves in an empty output vector.
unfoldable pub last_pending_request_ctx : ReadOnly → List ℕ
unfolding last_of
last_pending_request_ctx ro = last_of ro.read_index_queue

add_ack : ℕ → List ℕ → List ℕ
add_ack k [] = k ∷ []
add_ack k (j ∷ ks) = if j == k then j ∷ ks else j ∷ add_ack k ks

unfoldable pub recv_ack : ReadOnly → Message → ℕ × ReadOnly
unfolding put add_ack
recv_ack ro msg = elim (find msg.context ro.pending_read_index) [
  | none ↦ (0, ro)
  | some s ↦
      let s' : ReadIndexStatus = record s { acks = add_ack msg.from s.acks } in
      (
        length s'.acks + 1,
        record ro { pending_read_index = put msg.context s' ro.pending_read_index },
      )
]

-- The loop of advance over the queue: the reads up to the one of `ctx`, whether it was found, and
-- what is left of the queue after it.
unfoldable pub collect :
    ReadOnly → List ℕ → List (List ℕ) → Result (List ReadIndexStatus × Bool × List (List ℕ))
collect ro ctx [] = ok ([], false, [])
collect ro ctx (okctx ∷ queue) =
    let rest = collect ro ctx queue in
    elim (find okctx ro.pending_read_index) [
      | none ↦ err fatal
      | some s ↦
          if bytes_eq okctx ctx
          then ok (s ∷ [], true, queue)
          else (rest >>= λ r. ok (s ∷ r.0, r.1, r.2))
    ]

-- The loop of advance that erases the reads that it returns.
unfoldable pub erase_reads :
    List ReadIndexStatus
    → List (List ℕ × ReadIndexStatus)
    → Result (List (List ℕ × ReadIndexStatus))
unfolding remove
erase_reads [] m = ok m
erase_reads (s ∷ rss) m =
    let rest = λ (e : Entry). erase_reads rss (remove e.payload m) in
    deref (get_elem? s.req.entries 0) >>= rest

unfoldable pub advance : ReadOnly → Message → Result (List ReadIndexStatus × ReadOnly)
advance ro msg = collect ro msg.context ro.read_index_queue >>= λ r.
    if r.1
    then (erase_reads r.0 ro.pending_read_index >>= λ m.
        ok (r.0, record ro { pending_read_index = m; read_index_queue = r.2 }))
    else ok (r.0, ro)

unfoldable pub add_request : ReadOnly → ℕ → Message → Result ReadOnly
unfolding put
add_request ro index msg = deref (get_elem? msg.entries 0) >>= λ e.
    if is_some (find e.payload ro.pending_read_index)
    then ok ro
    else ok (record ro {
      pending_read_index =
          put e.payload (record { req = msg; index = index; acks = [] }) ro.pending_read_index;
      read_index_queue = ro.read_index_queue ++ (e.payload ∷ []);
    })
