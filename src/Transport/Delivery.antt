-- ===== src/Transport/Delivery.antt =====
-- peer.cpp and raft_server.cpp: from the session that writes to the session that reads.
use kvd.Base.{
  ℕ, ◌≡◌, refl, sym, ap, ◌∙◌, List, [], ◌∷◌, ◌++◌, append_assoc, append-nil, length, length-append,
  Option, ok, arith, Returns, Returns-ok, true,
}
use kvd.Proto.{Message}
use kvd.Transport.{frame}
use kvd.Transport.Client.{ClientSession}
use kvd.Transport.Client.Runs.{Run, offered, offered-first}
use kvd.Transport.Server.{ServerSession, new_server}
use kvd.Transport.Server.Streams.{Item, messages, Sendable, encode, payload, type_of, length-frame}
use kvd.Transport.Server.Arrivals.{Read, IsShort, arrivals, arrivals-Read, concat}

module _ (pack : Message → List ℕ) (unpack : List ℕ → Option Message) where
  none-IsShort : (items : List Item) → IsShort pack unpack [] items
  none-IsShort [] = refl
  none-IsShort (item ∷ items) = omega (arith, length-frame (type_of pack item) (payload pack item))

  -- What was read from the first bytes of the frames.
  Read-first :
      (items : List Item) (pieces : List (List ℕ)) (later : List ℕ)
      → Sendable pack unpack items
      → concat pieces ++ later ≡ encode pack items
      → (t : ServerSession) × (arrivals unpack pieces new_server ≡ ok t)
        × Read pack unpack items [] later t
  unfolding new_server
  Read-first items pieces later sendable e =
      arrivals-Read pack unpack items pieces later new_server (record {
        done = [];
        left = items;
        split = refl;
        inbox = refl;
        front = e;
        on = refl;
        sendable = sendable;
        short = none-IsShort items;
      })

  -- A session that got all the frames has nothing left to read.
  none_left :
      (bytes : List ℕ) (left : List Item)
      → IsShort pack unpack bytes left
      → bytes ++ [] ≡ encode pack left
      → left ≡ []
  none_left bytes [] h e = refl
  none_left bytes (item ∷ items) h e = absurd (
      omega (
        arith,
        ap length e,
        length-append bytes [],
        length-append (frame (type_of pack item) (payload pack item)) (encode pack items),
      ))

  -- The frames of some messages and ticks come to a server's session in pieces of any lengths. It reads
  -- exactly the messages, in their order, and has no bytes left. msgpack reads back what it packed, and
  -- the packed messages are not empty and have lengths of 32 bits.
  pub arrivals-messages :
      (items : List Item) (pieces : List (List ℕ))
      → Sendable pack unpack items
      → concat pieces ≡ encode pack items
      → Returns
          (arrivals unpack pieces new_server)
          λ t. (t.received ≡ messages items) × (t.unread ≡ []) × (t.reading ≡ true)
  arrivals-messages items pieces sendable e =
      let (t, arrived, read) =
        Read-first items pieces [] sendable (append-nil (concat pieces) ∙ e) in
      let nothing : read.left ≡ [] = none_left t.unread read.left read.short read.front in
      Returns-ok _ arrived (
        read.inbox
            ∙ ap messages
                (sym (append-nil read.done) ∙ ap (◌++◌ read.done) (sym nothing) ∙ sym read.split),
        sym (append-nil t.unread) ∙ read.front ∙ ap (encode pack) nothing,
        read.on,
      )

  -- A client's session was given the frames of some messages and ticks, in a run with any order of its
  -- events, and no frame has moved the buffer under the write that is in flight. The socket has taken
  -- what it was told to before, and maybe a part of what it is asked to write now; this comes to a
  -- server's session in pieces of any lengths. The server reads the first of the messages, in their
  -- order, each once and none that was not sent.
  pub Run-delivers :
      {s : ClientSession} (items : List Item) (pieces : List (List ℕ)) (behind : List ℕ)
      → Sendable pack unpack items
      → Run (encode pack items) s
      → offered s ≡ ok (concat pieces ++ behind)
      → Returns (arrivals unpack pieces new_server) λ t.
        (done : List Item) × (left : List Item) × (items ≡ done ++ left)
        × (t.received ≡ messages done)
  Run-delivers {s} items pieces behind sendable run e =
      let (later, front) = offered-first (concat pieces ++ behind) run e in
      let (t, arrived, read) =
        Read-first items pieces (behind ++ later) sendable
          (sym (append_assoc (concat pieces) behind later) ∙ front) in
      Returns-ok _ arrived (read.done, read.left, read.split, read.inbox)
