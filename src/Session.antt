-- ===== src/Session.antt =====
-- raft-kv/server/redis_session.h and redis_session.cpp: the session of one client. A handler of boost.asio
-- is a function that is called with what has come; `reads` counts the reads that the socket was asked
-- for and that have not ended.
pub mod Replies
pub mod Commands
pub mod Reading
pub mod Sending
pub mod Lines
pub mod Overflow
pub mod Resp
pub mod Answers
use kvd.Base.{
  ℕ, ◌+◌, ◌%◌, Bool, true, false, ◌&&◌, ◌||◌, is_some, u32_mod, List, [], ◌∷◌, ◌++◌, Option, none,
  some, ◌==◌, if◌then◌else◌, length, take, Result, ok, err, undefined, ltb, ◌>>=◌,
}
use kvd.ByteBuffer
use kvd.ByteBuffer.{ByteBuffer}

-- An element of a reply of hiredis: whether its type is REDIS_REPLY_STRING, and its text. A reply: whether its
-- type is REDIS_REPLY_ARRAY, and its elements.
pub record Element : Type 0 where
  pub is_string : Bool
  pub str : List ℕ

pub record Reply : Type 0 where
  pub is_array : Bool
  pub elements : List Element

-- The reader is hiredis' own state. `in_flight` are the bytes that the socket was asked to write, which it
-- reads where they lie in the buffer: `dangling` tells that put has moved the buffer in the meantime.
pub record RedisSession (Reader : Type 0) : Type 0 where
  pub quit : Bool
  pub reader : Reader
  pub send_buffer : ByteBuffer
  pub in_flight : Option (List ℕ)
  pub reads : ℕ
  pub dangling : Bool

module _ {Reader : Type 0} where
  -- The constructor, with the reader that hiredis made.
  unfoldable pub new_session : Reader → RedisSession Reader
  new_session reader = record {
    quit = false;
    reader = reader;
    send_buffer = ByteBuffer.new;
    in_flight = none;
    reads = 0;
    dangling = false;
  }

  unfoldable pub start : RedisSession Reader → RedisSession Reader
  start s = if s.quit then s else record s { reads = s.reads + 1 }

  unfoldable pub start_send : RedisSession Reader → Result (RedisSession Reader)
  start_send s =
      if ByteBuffer.readable s.send_buffer
      then (ByteBuffer.slice s.send_buffer >>= λ bytes. ok (record s { in_flight = some bytes }))
      else ok s

  -- The handler of start_send, when the socket has taken some bytes. What it took from a buffer that was
  -- moved is undefined.
  unfoldable pub send_done : Bool → ℕ → RedisSession Reader → Result (RedisSession Reader)
  send_done failed bytes s =
      let idle : RedisSession Reader = record s { in_flight = none; dangling = false } in
      if s.dangling
      then err undefined
      else if failed || bytes == 0
      then ok idle
      else (ByteBuffer.read_bytes bytes s.send_buffer >>= λ buffer.
          start_send (record idle { send_buffer = buffer }))

  -- The length of the data is narrowed to a uint32_t by the calls.
  unfoldable pub send_reply : List ℕ → RedisSession Reader → Result (RedisSession Reader)
  send_reply text s = do
    let bytes : List ℕ = take (length text % u32_mod) text
    remaining ← ByteBuffer.readable_bytes s.send_buffer
    buffer ← ByteBuffer.put bytes s.send_buffer
    let moved : Bool = ByteBuffer.grows bytes s.send_buffer
    let queued : RedisSession Reader = record s {
      send_buffer = buffer;
      dangling = s.dangling || (is_some s.in_flight && moved);
    }
    if remaining == 0 then start_send queued else ok queued

  -- The end of `snprintf(buffer, sizeof(buffer), …)` and `send_reply(buffer, n)` with a buffer of 256
  -- bytes: `n` is the length of the whole text, of which 255 bytes and a 0 are in the buffer.
  unfoldable pub send_printed : List ℕ → RedisSession Reader → Result (RedisSession Reader)
  send_printed text s =
      if ltb (length text) 256
      then send_reply text s
      else if length text == 256
      then send_reply (take 255 text ++ (0 ∷ [])) s
      else err undefined
