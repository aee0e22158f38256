-- ===== src/Transport/Client.antt =====
-- peer.cpp: ClientSession, which queues frames and writes them to its socket.
pub mod Wire
pub mod Runs
pub mod Moves
use kvd.Base.{
  ℕ, ◌+◌, Bool, true, false, ◌&&◌, ◌||◌, List, [], ◌∷◌, ◌++◌, Option, none, some, is_some, ◌==◌,
  if◌then◌else◌, length, Result, ok, err, undefined, assertion, ◌>>=◌, ◌>>◌, check,
}
use kvd.ByteBuffer
use kvd.ByteBuffer.{ByteBuffer}
use kvd.Transport.{meta_bytes}

-- `in_flight` are the bytes that the socket was asked to write, and `written` what it has taken. The socket
-- reads the bytes where they lie in the buffer: `dangling` tells that put has moved the buffer in the
-- meantime, so that the socket reads memory that was freed.
pub record ClientSession : Type 0 where
  pub buffer : ByteBuffer
  pub connected : Bool
  pub in_flight : Option (List ℕ)
  pub written : List ℕ
  pub dangling : Bool

-- The constructor.
unfoldable pub new_client : ClientSession
new_client = record {
  buffer = ByteBuffer.new;
  connected = false;
  in_flight = none;
  written = [];
  dangling = false;
}

unfoldable pub start_write : ClientSession → Result ClientSession
start_write s =
    if ByteBuffer.readable s.buffer
    then (ByteBuffer.slice s.buffer >>= λ bytes. ok (record s { in_flight = some bytes }))
    else ok s

unfoldable pub send_frame : ℕ → List ℕ → ClientSession → Result ClientSession
send_frame type payload s = do
  remaining ← ByteBuffer.readable_bytes s.buffer
  with_meta ← ByteBuffer.put (meta_bytes type (length payload)) s.buffer
  with_data ← ByteBuffer.put payload with_meta
  readable ← ByteBuffer.readable_bytes with_data
  check (remaining + 5 + length payload == readable) assertion
  let moved : Bool =
      ByteBuffer.grows (meta_bytes type (length payload)) s.buffer
      || ByteBuffer.grows payload with_meta
  let queued : ClientSession = record s {
    buffer = with_data;
    dangling = s.dangling || (is_some s.in_flight && moved);
  }
  if s.connected && remaining == 0 then start_write queued else ok queued

-- The handler of start_connect; `none` is a session that was closed.
unfoldable pub connect_done : Bool → ClientSession → Result (Option ClientSession)
connect_done failed s =
    let open_session : ClientSession = record s { connected = true } in
    if failed
    then ok none
    else if ByteBuffer.readable s.buffer
    then (start_write open_session >>= λ t. ok (some t))
    else ok (some open_session)

-- The handler of start_write, when the socket has taken some bytes. What it took from a buffer that was
-- moved is undefined.
unfoldable pub write_done : Bool → List ℕ → ClientSession → Result (Option ClientSession)
write_done failed bytes s =
    if s.dangling
    then err undefined
    else if failed || length bytes == 0
    then ok none
    else (ByteBuffer.read_bytes (length bytes) s.buffer >>= λ buffer.
        start_write (record s {
          buffer = buffer;
          in_flight = none;
          written = s.written ++ bytes;
          dangling = false;
        })
        >>= λ t. ok (some t))
