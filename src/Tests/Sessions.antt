-- ===== src/Tests/Sessions.antt =====
-- Runs of the sessions of clients: a ping with the start of another command behind it, the value of
-- a key, a command with a long name, and the search of keys.
use kvd.Base.{
  ℕ, suc, zero, ◌-◌, ◌≡◌, refl, List, [], ◌∷◌, ◌++◌, some, true, arith, replicate, Returns, take,
  length, ◌+◌, ◌*◌, ◌<◌, u32_mod,
}
use kvd.ByteBuffer
use kvd.ByteBuffer.{ByteBuffer}
use kvd.Store.{RedisStore, RaftCommit}
use kvd.Store.Glob.{matches_key, string_match_len, skip_stars, match_star, match_byte, next_round}
use kvd.Store.Glob.Plain.{glob, matches_key-glob}
use kvd.Store.Glob.Total.{selected, matched, KeysFit}
use kvd.Session.{RedisSession, new_session}
use kvd.Session.Replies.{
  codes, array_text, IsPrintable, bulk_text, decimal, digits, c_str, element_text, element_texts,
}
use kvd.Session.Reading.{Hiredis, handle_read}
use kvd.Session.Sending.{Sends, new_session-Sends}
use kvd.Session.Answers.{get_request, on_redis_reply-get, keys_request, on_redis_reply-keys}
use kvd.Store
use kvd.ReadOnly.{bytes_eq}
use kvd.Session.Lines.{
  feed_lines, lines_text, concluded, handle_read-lines, IsUnbroken, AreUnbroken,
}
use kvd.Session.Commands.{on_redis_reply}
use kvd.Session.Overflow.{named, Answer, on_redis_reply-unknown}
use kvd.Session.Resp.{read_array, read_bulk}

abbrev store : RedisStore
store = record {
  node_id = 1;
  key_values = (codes "ab", codes "x") ∷ (codes "b", codes "y") ∷ [];
  next_request_id = 0;
  pending_requests = [];
  proposals = [];
  answers = [];
}

-- A reader that takes each line for a command without arguments.
abbrev inline_reader : Hiredis (List ℕ)
inline_reader = record {
  feed = λ _ line. some (take (length line - 1) line);
  get_reply = λ line. some (some (named line []), []);
}

abbrev session : RedisSession (List ℕ)
session = new_session []

abbrev pack : RaftCommit → List ℕ
pack c = []

on_redis_reply-get_example :
    Returns (on_redis_reply pack 0 (get_request (codes "ab")) store session) λ p.
      (p.0 ≡ store)
      × ((text : List ℕ) × Sends ([] ++ text) [] p.1
          × ((behind : List ℕ) → read_bulk (text ++ behind) ≡ some (codes "x", behind)))
unfolding new_session ByteBuffer.new Store.get Store.find_key bytes_eq IsPrintable bulk_text decimal
    digits c_str
on_redis_reply-get_example =
    on_redis_reply-get pack 0 [] [] (codes "ab") (codes "x") store session (new_session-Sends [])
      refl (refl, tt) (omega arith) (omega arith)

handle_read-lines_example :
    handle_read inline_reader pack 0 (lines_text (codes "PING" ∷ []) ++ codes "GE") store session
    ≡ concluded pack 0
        (codes "GE")
        store
        session
        (feed_lines inline_reader (codes "PING" ∷ []) [] [])
unfolding IsUnbroken AreUnbroken new_session
handle_read-lines_example =
    handle_read-lines inline_reader pack 0 (codes "PING" ∷ []) (codes "GE") store session
      ((refl, (refl, (refl, (refl, tt)))), tt) (refl, (refl, tt)) refl

letters-IsPrintable : (n : ℕ) → IsPrintable (replicate n b'a')
unfolding IsPrintable
letters-IsPrintable zero = tt
letters-IsPrintable (suc n) = (refl, letters-IsPrintable n)

abbrev long_name : List ℕ
long_name = replicate 232 b'a'

on_redis_reply-unknown_example :
    Answer long_name store session (on_redis_reply pack 0 (named long_name []) store session)
on_redis_reply-unknown_example =
    on_redis_reply-unknown pack 0 long_name [] store session (letters-IsPrintable 232) (omega arith)

matches_key-glob_example : matches_key (codes "a*b?") (codes "axbbc") ≡ some true
unfolding glob
matches_key-glob_example = matches_key-glob (codes "a*b?") b'a' (codes "xbbc") (
  omega arith,
  omega arith,
  (omega arith, omega arith, (omega arith, omega arith, (omega arith, omega arith, tt))),
)

-- The pattern is found in one key.
finds_one :
    length session.send_buffer.buff * 2
      + length (array_text (selected (matched (codes "a*")) store.key_values))
    < u32_mod
unfolding matched selected matches_key string_match_len skip_stars match_star new_session
    ByteBuffer.new array_text element_texts element_text decimal digits match_byte next_round
finds_one = omega arith

on_redis_reply-keys_example :
    ((key : List ℕ) → matches_key (codes "a*") key ≡ some (matched (codes "a*") key))
    × Returns (on_redis_reply pack 0 (keys_request (codes "a*")) store session) λ q.
      (q.0 ≡ store)
      × ((text : List ℕ) × Sends ([] ++ text) [] q.1
          × (read_array text ≡ some (selected (matched (codes "a*")) store.key_values, [])))
unfolding KeysFit new_session ByteBuffer.new array_text
on_redis_reply-keys_example =
    on_redis_reply-keys pack 0 [] [] b'a' (codes "*") store session (new_session-Sends [])
      (omega arith) (omega arith, (omega arith, tt)) (omega arith) finds_one
