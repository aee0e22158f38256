-- ===== src/Tests/Wires.antt =====
-- Runs of the transport: a message and a tick are queued, the session connects, and the server gets the
-- bytes in pieces.
use kvd.Base.{
  ℕ, ◌≡◌, refl, List, [], ◌∷◌, ◌++◌, Option, some, none, true, false, ok, arith, replicate, Returns,
  ◌>>=◌, add32, sub32,
}
use kvd.Proto.{Message, empty_message}
use kvd.ByteBuffer
use kvd.ByteBuffer.{ByteBuffer}
use kvd.Transport.{frame, meta_bytes, host_bytes, debug_bytes}
use kvd.Transport.Client.{
  ClientSession, new_client, send_frame, start_write, connect_done, write_done,
}
use kvd.Transport.Client.Wire.{Carries}
use kvd.Transport.Client.Runs.{
  Run, start, next, sends, connects, writes, Run-Carries, complete, complete-delivers, offered,
}
use kvd.Transport.Client.Moves.{Moved, send_frame-moves}
use kvd.Transport.Server.{new_server}
use kvd.Transport.Server.Streams.{Item, sent, ticked, messages, Sendable, encode}
use kvd.Transport.Server.Arrivals.{arrivals}
use kvd.Transport.Delivery.{arrivals-messages, Run-delivers}

-- A message is packed as its index.
abbrev msg : Message
msg = record empty_message { index = 7 }

abbrev pack : Message → List ℕ
pack m = m.index ∷ []

abbrev unpack : List ℕ → Option Message
unpack bytes = some msg

abbrev items : List Item
items = sent msg ∷ ticked 0 ∷ []

items-Sendable : Sendable pack unpack items
items-Sendable = (refl, omega arith, omega arith, (omega arith, tt))

-- Two pieces: the first one ends within the header of the second frame.
abbrev pieces : List (List ℕ)
pieces =
    (1 ∷ 0 ∷ 0 ∷ 0 ∷ 1 ∷ 7 ∷ 5 ∷ 0 ∷ []) ∷ (0 ∷ 0 ∷ 8 ∷ 0 ∷ 0 ∷ 0 ∷ 0 ∷ 1 ∷ 0 ∷ 0 ∷ 0 ∷ []) ∷ []

arrivals-messages_example :
    Returns
      (arrivals unpack pieces new_server)
      λ t. (t.received ≡ msg ∷ []) × (t.unread ≡ []) × (t.reading ≡ true)
unfolding frame meta_bytes debug_bytes host_bytes add32
arrivals-messages_example = arrivals-messages pack unpack items pieces items-Sendable refl

-- The session after both frames, and after it connected.
abbrev both_queued : ClientSession
both_queued = record {
  buffer = record {
    reader = 0;
    writer = 19;
    buff =
        1
        ∷ 0
        ∷ 0
        ∷ 0
        ∷ 1
        ∷ 7
        ∷ 5
        ∷ 0
        ∷ 0
        ∷ 0
        ∷ 8
        ∷ 0
        ∷ 0
        ∷ 0
        ∷ 0
        ∷ 1
        ∷ 0
        ∷ 0
        ∷ 0
        ∷ replicate 4077 0;
  };
  connected = false;
  in_flight = none;
  dangling = false;
  written = [];
}

abbrev one_queued : ClientSession
one_queued = record both_queued {
  buffer = record { reader = 0; writer = 6; buff = 1 ∷ 0 ∷ 0 ∷ 0 ∷ 1 ∷ 7 ∷ replicate 4090 0 };
}

abbrev wire : List ℕ
wire = 1 ∷ 0 ∷ 0 ∷ 0 ∷ 1 ∷ 7 ∷ 5 ∷ 0 ∷ 0 ∷ 0 ∷ 8 ∷ 0 ∷ 0 ∷ 0 ∷ 0 ∷ 1 ∷ 0 ∷ 0 ∷ 0 ∷ []

abbrev connection : ClientSession
connection = record both_queued { connected = true; in_flight = some wire }

queues_one : send_frame 1 (7 ∷ []) new_client ≡ ok one_queued
unfolding send_frame new_client ByteBuffer.new ByteBuffer.put ByteBuffer.readable_bytes
    ByteBuffer.copy_bytes ByteBuffer.resize_bytes meta_bytes add32 sub32
queues_one = refl

queues_two : send_frame 5 (0 ∷ 0 ∷ 0 ∷ 0 ∷ 1 ∷ 0 ∷ 0 ∷ 0 ∷ []) one_queued ≡ ok both_queued
unfolding send_frame ByteBuffer.put ByteBuffer.readable_bytes ByteBuffer.copy_bytes
    ByteBuffer.resize_bytes meta_bytes add32 sub32
queues_two = refl

connecting : connect_done false both_queued ≡ ok (some connection)
unfolding connect_done start_write ByteBuffer.readable ByteBuffer.slice ByteBuffer.readable_bytes
    sub32
connecting = refl

-- The session after the socket took both frames.
abbrev flushed : ClientSession
flushed = record connection {
  buffer = record both_queued.buffer { reader = 0; writer = 0 };
  in_flight = none;
  written = wire;
}

flushing : write_done false wire connection ≡ ok (some flushed)
unfolding write_done start_write ByteBuffer.readable ByteBuffer.read_bytes ByteBuffer.readable_bytes
    ByteBuffer.may_shrink_to_fit sub32 add32
flushing = refl

to_connection : Run (encode pack items) connection
unfolding frame meta_bytes debug_bytes host_bytes add32 new_client ByteBuffer.new
to_connection =
    next
      (next (next start (sends 1 (7 ∷ []) (omega arith) queues_one refl))
        (sends 5 (0 ∷ 0 ∷ 0 ∷ 0 ∷ 1 ∷ 0 ∷ 0 ∷ 0 ∷ []) (omega arith) queues_two refl))
      (connects refl connecting)

complete-delivers_example :
    Returns
      (complete connection >>= complete)
      λ t. (t.written ≡ encode pack items) × (t.in_flight ≡ none)
complete-delivers_example = complete-delivers to_connection refl refl

to_flushed : Run (encode pack items) flushed
to_flushed = next to_connection (writes wire refl flushing)

Run-delivers_example : Returns (arrivals unpack pieces new_server) λ t.
    (done : List Item) × (left : List Item) × (items ≡ done ++ left) × (t.received ≡ messages done)
unfolding offered
Run-delivers_example = Run-delivers pack unpack items pieces [] items-Sendable to_flushed refl

-- A payload of 5000 bytes, which the buffer of 4096 has no room for, while both frames are written.
send_frame-moves_example :
    Returns
      (send_frame 1 (replicate 5000 0) connection)
      λ t. Carries (encode pack items ++ frame 1 (replicate 5000 0)) t × Moved connection 5005 t
send_frame-moves_example =
    send_frame-moves (encode pack items) connection 1 (replicate 5000 0) (Run-Carries to_connection)
      refl (omega arith)
