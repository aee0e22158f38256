-- ===== src/Session/Answers.antt =====
-- redis_session.cpp: what a client gets for the commands get and keys.
use kvd.Base.{
  ℕ, ◌+◌, ◌*◌, ◌^◌, ◌<◌, ◌≡◌, refl, true, List, [], ◌∷◌, ◌++◌, some, ok, length, u32_mod, Returns,
  Returns-bind, ◌>>=◌,
}
use kvd.ReadOnly.{bytes_eq}
use kvd.Store
use kvd.Store.{RedisStore, RaftCommit}
use kvd.Store.Glob
use kvd.Store.Glob.{matches_key}
use kvd.Store.Glob.Total.{matched, matches_key-matched, selected, keys-selected, KeysFit}
use kvd.Session.{Reply, RedisSession, send_reply}
use kvd.Session.Replies.{codes, bulk_text, array_text, IsPrintable}
use kvd.Session.Commands.{is_command, get_command, run_command, keys_command, on_redis_reply}
use kvd.Session.Sending.{Sends, send_reply-Sends}
use kvd.Session.Resp.{read_bulk, read_bulk-bulk_text, read_array}
use kvd.Session.Resp.Arrays.{read_array-selected}

-- The request of a key.
abbrev pub get_request : List ℕ → Reply
get_request key = record {
  is_array = true;
  elements =
      record { is_string = true; str = codes "GET" } ∷ record { is_string = true; str = key } ∷ [];
}

-- The request of the keys that match a pattern.
abbrev pub keys_request : List ℕ → Reply
keys_request pattern = record {
  is_array = true;
  elements =
      record { is_string = true; str = codes "KEYS" }
      ∷ record { is_string = true; str = pattern }
      ∷ [];
}

module _ {Reader : Type 0} (pack : RaftCommit → List ℕ) (id : ℕ) where
  get_request-send_reply :
      (key value : List ℕ) (store : RedisStore) (s : RedisSession Reader)
      → Store.get key store ≡ some value
      → on_redis_reply pack id (get_request key) store s
        ≡ (send_reply (bulk_text value) s >>= λ t. ok (store, t))
  unfolding on_redis_reply run_command get_command is_command bytes_eq
  get_request-send_reply key value store s found = rw found refl

  -- A client that asks for a key of the store gets one reply, behind those before it, from which it reads
  -- the value of the key, whatever comes behind; the store stays as it is. The value has no byte 0, and
  -- the buffer of the session has room for the reply.
  pub on_redis_reply-get :
      (replies taken key value : List ℕ) (store : RedisStore) (s : RedisSession Reader)
      → Sends replies taken s
      → Store.get key store ≡ some value
      → IsPrintable value
      → length value < 2 ^ 64
      → length s.send_buffer.buff * 2 + length (bulk_text value) < u32_mod
      → Returns (on_redis_reply pack id (get_request key) store s) λ p.
        (p.0 ≡ store)
        × ((text : List ℕ) × Sends (replies ++ text) taken p.1
            × ((behind : List ℕ) → read_bulk (text ++ behind) ≡ some (value, behind)))
  on_redis_reply-get replies taken key value store s k found printable small fits =
      rw (get_request-send_reply key value store s found) (
        Returns-bind (Sends (replies ++ bulk_text value) taken) _ (send_reply (bulk_text value) s)
          (λ t. ok (store, t)) (send_reply-Sends replies taken s (bulk_text value) k fits)
          λ t sends. (
            refl,
            (bulk_text value, sends, λ behind. read_bulk-bulk_text value behind printable small),
          ))

  keys_request-send_reply :
      (pattern : List ℕ) (found : List (List ℕ)) (store : RedisStore) (s : RedisSession Reader)
      → Glob.keys pattern store.key_values ≡ some found
      → on_redis_reply pack id (keys_request pattern) store s
        ≡ (send_reply (array_text found) s >>= λ t. ok (store, t))
  unfolding on_redis_reply run_command keys_command is_command bytes_eq
  keys_request-send_reply pattern found store s searched = rw searched refl

  -- A client that asks for the keys that match a pattern gets one reply, behind those before it, from
  -- which it reads exactly the keys of the store that match it, in the order of the map; the match comes
  -- to its end for every key, and the store stays as it is. The pattern is not empty, its length and
  -- those of all keys are below 2 ^ 31, there are fewer than 2 ^ 64 keys, and the whole reply fits
  -- into the buffer of the session, whose lengths are below 2 ^ 32.
  pub on_redis_reply-keys :
      (replies taken : List ℕ) (c : ℕ) (p : List ℕ) (store : RedisStore) (s : RedisSession Reader)
      → Sends replies taken s
      → length (c ∷ p) < 2 ^ 31
      → KeysFit store.key_values
      → length store.key_values < 2 ^ 64
      → length s.send_buffer.buff * 2
          + length (array_text (selected (matched (c ∷ p)) store.key_values))
        < u32_mod
      → ((key : List ℕ) → matches_key (c ∷ p) key ≡ some (matched (c ∷ p) key))
        × Returns (on_redis_reply pack id (keys_request (c ∷ p)) store s) λ q.
          (q.0 ≡ store)
          × ((text : List ℕ) × Sends (replies ++ text) taken q.1
              × (read_array text ≡ some (selected (matched (c ∷ p)) store.key_values, [])))
  on_redis_reply-keys replies taken c p store s k small keys few fits =
      let found : List (List ℕ) = selected (matched (c ∷ p)) store.key_values in
      (
        matches_key-matched (c ∷ p),
        rw
            (keys_request-send_reply (c ∷ p) found store s
              (keys-selected (c ∷ p) store.key_values small keys))
            (Returns-bind (Sends (replies ++ array_text found) taken) _
              (send_reply (array_text found) s) (λ t. ok (store, t))
              (send_reply-Sends replies taken s (array_text found) k fits)
              λ t sends. (
                refl,
                (array_text found, sends, read_array-selected c p store.key_values keys few),
              )),
      )
