-- ===== src/Session/Reading.antt =====
-- redis_session.cpp: handle_read, which feeds what has come to the reader of hiredis, line by line. The
-- reader is a parameter: what it makes of a line, and the replies that it then has; `none` is an error.
use kvd.Base.{
  ℕ, zero, suc, ◌-◌, ◌||◌, Bool, true, false, List, [], ◌∷◌, ◌++◌, Option, none, some, ◌==◌,
  if◌then◌else◌, length, Result, ok, ◌>>=◌,
}
use kvd.Store.{RedisStore, RaftCommit}
use kvd.Session.{Reply, RedisSession, start}
use kvd.Session.Commands.{on_redis_reply}

-- Up to the first line feed, and the bytes after it.
unfoldable pub split_line : List ℕ → Option (List ℕ × List ℕ)
split_line [] = none
split_line (c ∷ bytes) =
    let rest = split_line bytes in
    if c == 10
    then some (c ∷ [], bytes)
    else elim rest [ none ↦ none | some (line, left) ↦ some (c ∷ line, left) ]

pub record Hiredis (Reader : Type 0) : Type 0 where
  pub feed : Reader → List ℕ → Option Reader
  pub get_reply : Reader → Option (Option Reply × Reader)

abbrev pub with_reply : Option Reply → List Reply → List Reply
with_reply none replies = replies
with_reply (some reply) replies = replies ++ (reply ∷ [])

module _ {Reader : Type 0} (h : Hiredis Reader) where
  -- A line that is fed, and the reply that it ends, if any.
  unfoldable pub feed_line : List ℕ → Reader → Option (Option Reply × Reader)
  feed_line line reader = elim (h.feed reader line) [ none ↦ none | some fed ↦ h.get_reply fed ]

  -- The loop, for at most `fuel` lines. The Boolean tells that there was no error.
  unfoldable pub read_lines :
      ℕ → List ℕ → List Reply → RedisSession Reader → Bool × List Reply × RedisSession Reader
  read_lines zero bytes replies s = (true, replies, s)
  read_lines (suc fuel) [] replies s = (true, replies, s)
  read_lines (suc fuel) (c ∷ bytes) replies s =
      if s.quit then (true, replies, s) else elim (split_line (c ∷ bytes)) [
        | none ↦ (true, replies, start s)
        | some (line, left) ↦ elim (feed_line line s.reader) [
          | none ↦ (false, replies, record s { quit = true })
          | some (reply, reader) ↦
              read_lines fuel left (with_reply reply replies) (record s { reader = reader })
        ]
      ]

module _ {Reader : Type 0} (pack : RaftCommit → List ℕ) (id : ℕ) where
  unfoldable pub on_replies :
      List Reply → RedisStore → RedisSession Reader → Result (RedisStore × RedisSession Reader)
  on_replies [] store s = ok (store, s)
  on_replies (reply ∷ replies) store s =
      on_redis_reply pack id reply store s >>= λ p. on_replies replies p.0 p.1

module _ {Reader : Type 0} (h : Hiredis Reader) (pack : RaftCommit → List ℕ) (id : ℕ) where
  -- A line has a byte at least, so the lines are no more than the bytes.
  unfoldable pub handle_read :
      List ℕ → RedisStore → RedisSession Reader → Result (RedisStore × RedisSession Reader)
  handle_read bytes store s =
      let (fine, replies, t) = read_lines h (length bytes) bytes [] s in
      if fine
      then (on_replies pack id replies store t >>= λ p. ok (p.0, start p.1))
      else ok (store, t)

  -- The handler of start: a read has ended.
  unfoldable pub read_done :
      Bool → List ℕ → RedisStore → RedisSession Reader → Result (RedisStore × RedisSession Reader)
  read_done failed bytes store s =
      let ended : RedisSession Reader = record s { reads = s.reads - 1 } in
      if length bytes == 0 || failed then ok (store, ended) else handle_read bytes store ended
