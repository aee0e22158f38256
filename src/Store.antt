-- ===== src/Store.antt =====
-- raft-kv/server/redis_store.h and redis_store.cpp: the map of keys to values, and the requests that
-- wait for their commit. A string is its list of bytes. The msgpack bytes of a commit are given; the
-- callbacks are named by numbers, and a call of one is an answer.
pub mod View
pub mod Glob
use kvd.Base.{
  ℕ, ◌+◌, Bool, true, false, List, [], ◌∷◌, ◌++◌, Option, none, some, ◌==◌, if◌then◌else◌, length,
  lookup, insert, erase, add32, Result, ok, err, assertion, ◌>>=◌,
}
use kvd.Proto.{Entry, Status, okay, is_ok, io_error}
use kvd.ReadOnly.{bytes_eq}
use kvd.Ready.{is_nil}

abbrev pub k_commit_set : ℕ
k_commit_set = 0

abbrev pub k_commit_del : ℕ
k_commit_del = 1

pub record RedisCommitData : Type 0 where
  pub type : ℕ
  pub strs : List (List ℕ)

pub record RaftCommit : Type 0 where
  pub node_id : ℕ
  pub commit_id : ℕ
  pub redis_data : RedisCommitData

-- `proposals` is what was handed to the server, with the number of its request, and `answers` the
-- callbacks that were called.
pub record RedisStore : Type 0 where
  pub node_id : ℕ
  pub key_values : List (List ℕ × List ℕ)
  pub next_request_id : ℕ
  pub pending_requests : List (ℕ × ℕ)
  pub proposals : List (ℕ × List ℕ)
  pub answers : List (ℕ × Status)

-- `key_values_.find(key)`
unfoldable pub find_key : List ℕ → List (List ℕ × List ℕ) → Option (List ℕ)
find_key k [] = none
find_key k ((j, v) ∷ m) = if bytes_eq j k then some v else find_key k m

-- `key_values_[key] = value`
unfoldable pub set_key : List ℕ → List ℕ → List (List ℕ × List ℕ) → List (List ℕ × List ℕ)
set_key k v [] = (k, v) ∷ []
set_key k v ((j, w) ∷ m) = if bytes_eq j k then (j, v) ∷ m else (j, w) ∷ set_key k v m

-- `key_values_.erase(key)`; a map has a key at most once.
unfoldable pub erase_key : List ℕ → List (List ℕ × List ℕ) → List (List ℕ × List ℕ)
erase_key k [] = []
erase_key k ((j, w) ∷ m) = if bytes_eq j k then erase_key k m else (j, w) ∷ erase_key k m

unfoldable pub erase_keys : List (List ℕ) → List (List ℕ × List ℕ) → List (List ℕ × List ℕ)
erase_keys [] m = m
erase_keys (k ∷ ks) m = erase_keys ks (erase_key k m)

unfoldable pub get : List ℕ → RedisStore → Option (List ℕ)
get key s = find_key key s.key_values

-- A callback that waits is called with the status and forgotten.
unfoldable pub answer : ℕ → Status → RedisStore → RedisStore
answer commit_id status s = elim (lookup commit_id s.pending_requests) [
  | none ↦ s
  | some callback ↦ record s {
    answers = s.answers ++ ((callback, status) ∷ []);
    pending_requests = erase commit_id s.pending_requests;
  }
]

-- The common part of set and del: the commit is proposed, and its callback waits.
unfoldable pub request : (RaftCommit → List ℕ) → RedisCommitData → ℕ → RedisStore → RedisStore
request pack commit_data callback s =
    let commit : RaftCommit = record {
      node_id = s.node_id;
      commit_id = s.next_request_id;
      redis_data = commit_data;
    } in
    record s {
      next_request_id = add32 s.next_request_id 1;
      pending_requests = insert s.next_request_id callback s.pending_requests;
      proposals = s.proposals ++ ((s.next_request_id, pack commit) ∷ []);
    }

unfoldable pub set : (RaftCommit → List ℕ) → List ℕ → List ℕ → ℕ → RedisStore → RedisStore
set pack key value = request pack (record { type = k_commit_set; strs = key ∷ value ∷ [] })

unfoldable pub del : (RaftCommit → List ℕ) → List (List ℕ) → ℕ → RedisStore → RedisStore
del pack keys = request pack (record { type = k_commit_del; strs = keys })

-- What the callback of a proposed set does: an accepted one waits for its commit.
unfoldable pub set_proposed : ℕ → Status → RedisStore → RedisStore
set_proposed commit_id status s = if is_ok status then s else answer commit_id status s

-- What the callback of a proposed del does.
unfoldable pub del_proposed : ℕ → Status → RedisStore → RedisStore
del_proposed commit_id status s = answer commit_id status s

-- The switch of read_commit; another type is only logged.
unfoldable pub apply_commit :
    RedisCommitData → List (List ℕ × List ℕ) → Result (List (List ℕ × List ℕ))
apply_commit d m =
    if d.type == k_commit_set
    then elim d.strs [
      | key ∷ rest ↦ elim rest [
        | value ∷ more ↦ elim more [ [] ↦ ok (set_key key value m) | x ∷ xs ↦ err assertion ]
        | [] ↦ err assertion
      ]
      | [] ↦ err assertion
    ]
    else if d.type == k_commit_del
    then ok (erase_keys d.strs m)
    else ok m

-- An entry that cannot be unpacked is only logged.
unfoldable pub read_commit : (List ℕ → Option RaftCommit) → Entry → RedisStore → Result RedisStore
read_commit unpack entry s = elim (unpack entry.payload) [
  | none ↦ ok s
  | some commit ↦ apply_commit commit.redis_data s.key_values >>= λ m.
      let applied : RedisStore = record s { key_values = m } in
      ok (if commit.node_id == s.node_id then answer commit.commit_id okay applied else applied)
]

-- The handler of get_snapshot: the bytes its callback is called with.
unfoldable pub get_snapshot : (List (List ℕ × List ℕ) → List ℕ) → RedisStore → List ℕ
get_snapshot pack s = pack s.key_values

-- The handler of recover_from_snapshot, and the status its callback is called with. Bytes that are not
-- those of msgpack raise an exception outside of the try; `none` is a value that is not a map.
unfoldable pub recover_from_snapshot :
    (List ℕ → Result (Option (List (List ℕ × List ℕ))))
    → List ℕ
    → RedisStore
    → Result (Status × RedisStore)
recover_from_snapshot unpack payload s = unpack payload >>= λ kv. elim kv [
  | none ↦ ok (io_error "invalid snapshot", s)
  | some m ↦ ok (okay, record s { key_values = m })
]

-- The constructor, with the data of a snapshot. What is not a map is logged and leaves the map empty.
unfoldable pub new :
    (List ℕ → Result (Option (List (List ℕ × List ℕ)))) → ℕ → List ℕ → Result RedisStore
new unpack node_id snap =
    let empty_store : RedisStore = record {
      node_id = node_id;
      key_values = [];
      next_request_id = 0;
      pending_requests = [];
      proposals = [];
      answers = [];
    } in
    if is_nil snap
    then ok empty_store
    else (unpack snap >>= λ kv. elim kv [
      | none ↦ ok empty_store
      | some m ↦ ok (record empty_store { key_values = m })
    ])
