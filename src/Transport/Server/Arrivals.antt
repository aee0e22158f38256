-- ===== src/Transport/Server/Arrivals.antt =====
-- raft_server.cpp and peer.cpp: the frames of some items come in pieces, of any lengths, and are read.
use kvd.Base.{
  ℕ, zero, suc, ◌-◌, ◌≤◌, ◌<◌, ◌≡◌, refl, sym, ap, ◌∙◌, subst, inl, inr, true, Bool-cases, List, [],
  ◌∷◌, ◌++◌, append_assoc, append-nil, length, length-append, Option, none, some, ok, Result, arith,
  ltb, ◌>>=◌,
}
use kvd.Proto.{Message}
use kvd.Transport.{frame}
use kvd.Transport.Server.{ServerSession, read_meta, read_frame, read_frames, arrive}
use kvd.Transport.Server.Streams.{
  Item, sent, ticked, messages, Sendable, payload, type_of, encode, length-frame, read_frame-whole,
  read_frame-part,
}

messages-append : (xs ys : List Item) → messages (xs ++ ys) ≡ messages xs ++ messages ys
messages-append [] ys = refl
messages-append (sent msg ∷ xs) ys = ap (◌∷◌ msg) (messages-append xs ys)
messages-append (ticked tick ∷ xs) ys = messages-append xs ys

-- Where the first of two lists that start alike is the longer one.
split_at :
    (xs later first rest : List ℕ)
    → xs ++ later ≡ first ++ rest
    → length first ≤ length xs
    → (left : List ℕ) × (xs ≡ first ++ left) × (left ++ later ≡ rest)
split_at xs later [] rest e h = (xs, refl, e)
split_at [] later (y ∷ first) rest e h = absurd (omega arith)
split_at (x ∷ xs) later (y ∷ first) rest e h =
    let tails : xs ++ later ≡ first ++ rest = cc in
    let heads : x ≡ y = cc in
    let (left, front, back) = split_at xs later first rest tails (omega arith) in
    (left, rw heads (ap (◌∷◌ y) front), back)

no_front : (xs later : List ℕ) → xs ++ later ≡ [] → xs ≡ []
no_front [] later e = refl
no_front (x ∷ xs) later e = cc

module _ (pack : Message → List ℕ) (unpack : List ℕ → Option Message) where
  -- The bytes hold no whole frame of what is left.
  abbrev pub IsShort : List ℕ → List Item → Type 0
  IsShort bytes [] = bytes ≡ []
  IsShort bytes (item ∷ items) =
      length bytes < length (frame (type_of pack item) (payload pack item))

  -- A session after it read the first of some items, of which `later` is to come.
  pub record Read (items : List Item) (received : List Message) (later : List ℕ) (t : ServerSession)
      : Type 0 where
    pub done : List Item
    pub left : List Item
    pub split : items ≡ done ++ left
    pub inbox : t.received ≡ received ++ messages done
    pub front : t.unread ++ later ≡ encode pack left
    pub on : t.reading ≡ true
    pub sendable : Sendable pack unpack left
    pub short : IsShort t.unread left

  read_frames-stop :
      (fuel : ℕ) (s : ServerSession)
      → read_frame unpack s ≡ ok none
      → read_frames unpack fuel s ≡ ok s
  unfolding read_frames
  read_frames-stop zero s e = refl
  read_frames-stop (suc fuel) s e = rw (e) refl

  read_frame-empty : (s : ServerSession) → s.unread ≡ [] → read_frame unpack s ≡ ok none
  unfolding read_frame read_meta
  read_frame-empty s e = rw (e) (ground arith)

  Sendable-tail :
      (item : Item) (items : List Item)
      → Sendable pack unpack (item ∷ items)
      → Sendable pack unpack items
  Sendable-tail (sent msg) items p = p.3
  Sendable-tail (ticked tick) items p = p.1

  next_round :
      (fuel : ℕ) (s t : ServerSession)
      → read_frame unpack s ≡ ok (some t)
      → 0 < fuel
      → read_frames unpack fuel s ≡ read_frames unpack (fuel - 1) t
  unfolding read_frames
  next_round zero s t e h = absurd (omega arith)
  next_round (suc fuel) s t e h = let one : suc fuel - 1 ≡ fuel = omega arith in rw (e, one) refl

  Read-more :
      (item : Item) (items : List Item) (received : List Message) (later : List ℕ)
      (t : ServerSession)
      → Read items (received ++ messages (item ∷ [])) later t
      → Read (item ∷ items) received later t
  Read-more item items received later t read = record {
    done = item ∷ read.done;
    left = read.left;
    split = ap (◌∷◌ item) read.split;
    inbox =
        read.inbox
        ∙ append_assoc received (messages (item ∷ [])) (messages read.done)
        ∙ ap (◌++◌ received) (sym (messages-append (item ∷ []) read.done));
    front = read.front;
    on = read.on;
    sendable = read.sendable;
    short = read.short;
  }

  read_frames-Read :
      (items : List Item) (fuel : ℕ) (s : ServerSession) (later : List ℕ)
      → Sendable pack unpack items
      → s.reading ≡ true
      → s.unread ++ later ≡ encode pack items
      → length s.unread ≤ fuel
      → (t : ServerSession) × (read_frames unpack fuel s ≡ ok t) × Read items s.received later t
  unfolding read_frames
  read_frames-Read [] fuel s later p on front h =
      let empty : s.unread ≡ [] = no_front s.unread later front in
      (
        s,
        read_frames-stop fuel s (read_frame-empty s empty),
        record {
          done = [];
          left = [];
          split = refl;
          inbox = sym (append-nil s.received);
          front = front;
          on = on;
          sendable = tt;
          short = empty;
        },
      )
  read_frames-Read (item ∷ items) fuel s later p on front h =
      elim (Bool-cases
        (ltb (length s.unread) (length (frame (type_of pack item) (payload pack item))))) [
          | inl part ↦ (
            s,
            read_frames-stop fuel s (
                read_frame-part pack unpack item items s (encode pack items) later p front
                  (ground arith)),
            record {
              done = [];
              left = item ∷ items;
              split = refl;
              inbox = sym (append-nil s.received);
              front = front;
              on = on;
              sendable = p;
              short = ground arith;
            },
          )
          | inr whole ↦
              let (left, first, back) =
                split_at s.unread later (frame (type_of pack item) (payload pack item))
                  (encode pack items) front (ground arith) in
              let (t, reads, read) =
                read_frames-Read items (fuel - 1)
                  (record s { unread = left; received = s.received ++ messages (item ∷ []) }) later
                  (Sendable-tail item items p) on back
                  (omega (
                    arith,
                    ap length first,
                    length-append (frame (type_of pack item) (payload pack item)) left,
                    length-frame (type_of pack item) (payload pack item),
                  )) in
              (
                t,
                next_round fuel s _ (read_frame-whole pack unpack item items s left p on first) (
                      omega (
                        arith,
                        ap length first,
                        length-append (frame (type_of pack item) (payload pack item)) left,
                        length-frame (type_of pack item) (payload pack item),
                      ))
                    ∙ reads,
                Read-more item items s.received later t read,
              )
        ]

-- The pieces come one after the other.
unfoldable pub arrivals :
    (List ℕ → Option Message) → List (List ℕ) → ServerSession → Result ServerSession
arrivals unpack [] s = ok s
arrivals unpack (piece ∷ pieces) s = arrive unpack piece s >>= λ t. arrivals unpack pieces t

abbrev pub concat : List (List ℕ) → List ℕ
concat [] = []
concat (piece ∷ pieces) = piece ++ concat pieces

module _ (pack : Message → List ℕ) (unpack : List ℕ → Option Message) where
  -- One more piece.
  arrive-Read :
      (items : List Item) (piece later : List ℕ) (s : ServerSession)
      → Read pack unpack items [] (piece ++ later) s
      → (t : ServerSession) × (arrive unpack piece s ≡ ok t) × Read pack unpack items [] later t
  unfolding arrive
  arrive-Read items piece later s k =
      let (t, reads, read) =
        read_frames-Read pack unpack k.left (length (s.unread ++ piece))
          (record s { unread = s.unread ++ piece }) later k.sendable k.on
          (append_assoc s.unread piece later ∙ k.front) (omega arith) in
      (
        t,
        reads,
        record {
          done = k.done ++ read.done;
          left = read.left;
          split =
              k.split ∙ ap (◌++◌ k.done) read.split ∙ sym (append_assoc k.done read.done read.left);
          inbox =
              read.inbox
              ∙ ap (λ xs. xs ++ messages read.done) k.inbox
              ∙ sym (messages-append k.done read.done);
          front = read.front;
          on = read.on;
          sendable = read.sendable;
          short = read.short;
        },
      )

  pub arrivals-Read :
      (items : List Item) (pieces : List (List ℕ)) (later : List ℕ) (s : ServerSession)
      → Read pack unpack items [] (concat pieces ++ later) s
      → (t : ServerSession) × (arrivals unpack pieces s ≡ ok t) × Read pack unpack items [] later t
  unfolding arrivals
  arrivals-Read items [] later s k = (s, refl, k)
  arrivals-Read items (piece ∷ pieces) later s k =
      let (t, arrived, read) = arrive-Read items piece (concat pieces ++ later) s (
        subst (λ bytes. Read pack unpack items [] bytes s)
          (append_assoc piece (concat pieces) later) k) in
      let (u, rest, reads) = arrivals-Read items pieces later t read in
      (u, rw (arrived) rest, reads)
