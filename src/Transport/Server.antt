-- ===== src/Transport/Server.antt =====
-- raft_server.cpp: ServerSession, which reads frames from its socket and hands their messages to the server.
pub mod Streams
pub mod Arrivals
use kvd.Base.{
  ℕ, zero, suc, ◌+◌, ◌*◌, Bool, true, false, not, List, [], ◌∷◌, ◌++◌, Option, none, some, ltb,
  ◌==◌, if◌then◌else◌, length, take, drop, add32, Result, ok, err, assertion, ◌>>=◌, ◌>>◌, check,
}
use kvd.Proto.{Message}
use kvd.Transport.{transport_stream, transport_debug}

-- ServerSession: the bytes that have come and are not read yet, the messages handed to the server, and
-- whether the session still reads.
pub record ServerSession : Type 0 where
  pub unread : List ℕ
  pub received : List Message
  pub reading : Bool

-- What is made of a frame.
pub data Decoded : Type 0 where
  stop tick_ok : Decoded
  stream : Message → Decoded

-- The number of four bytes in the order of the host.
unfoldable pub host_word : ℕ → ℕ → ℕ → ℕ → ℕ
host_word a b c d = a + b * 256 + c * 65536 + d * 16777216

unfoldable pub decode_debug : List ℕ → Result Decoded
decode_debug (a0 ∷ a1 ∷ a2 ∷ a3 ∷ b0 ∷ b1 ∷ b2 ∷ b3 ∷ []) =
    check (add32 (host_word a0 a1 a2 a3) 1 == host_word b0 b1 b2 b3) assertion >> ok tick_ok
decode_debug _ = err assertion

-- The header, and the bytes after it.
unfoldable pub read_meta : List ℕ → Option (ℕ × ℕ × List ℕ)
read_meta (type ∷ a ∷ b ∷ c ∷ d ∷ rest) = some (type, a * 16777216 + b * 65536 + c * 256 + d, rest)
read_meta _ = none

unfoldable pub new_server : ServerSession
new_server = record { unread = []; received = []; reading = true }

module _ (unpack : List ℕ → Option Message) where
  unfoldable pub decode_message : ℕ → List ℕ → Result Decoded
  decode_message type payload =
      if type == transport_debug
      then decode_debug payload
      else if type == transport_stream
      then elim (unpack payload) [ none ↦ ok stop | some msg ↦ ok (stream msg) ]
      else ok stop

  unfoldable pub receive : Decoded → ServerSession → ServerSession
  receive stop s = record s { reading = false }
  receive tick_ok s = s
  receive (stream msg) s = record s { received = s.received ++ (msg ∷ []) }

  -- The handler of a message of `len` bytes, which have come.
  unfoldable pub read_message : ℕ → List ℕ → ServerSession → Result ServerSession
  read_message type payload s = decode_message type payload >>= λ d. ok (receive d s)

  -- A header and its message are read, where enough bytes have come; a message of no bytes ends the
  -- session. Where more bytes are waited for, the result is `none`.
  unfoldable pub read_frame : ServerSession → Result (Option ServerSession)
  read_frame s =
      if s.reading
      then elim (read_meta s.unread) [
        | none ↦ ok none
        | some (type, len, rest) ↦
            if len == 0
            then ok (some (record s { unread = rest; reading = false }))
            else if ltb (length rest) len
            then ok none
            else (read_message type (take len rest) (record s { unread = drop len rest }) >>= λ t.
                ok (some t))
      ]
      else ok none

  -- The frames that have come; at most `fuel` of them.
  unfoldable pub read_frames : ℕ → ServerSession → Result ServerSession
  read_frames zero s = ok s
  read_frames (suc fuel) s =
      read_frame s >>= λ o. elim o [ none ↦ ok s | some t ↦ read_frames fuel t ]

  -- Some more bytes come. A frame has five bytes at least.
  unfoldable pub arrive : List ℕ → ServerSession → Result ServerSession
  arrive bytes s =
      read_frames (length (s.unread ++ bytes)) (record s { unread = s.unread ++ bytes })
