-- ===== src/Transport/Server/Streams.antt =====
-- raft_server.cpp: what a session makes of the bytes of some frames, however they come.
use kvd.Base.{
  ℕ, ◌+◌, ◌*◌, ◌/◌, ◌%◌, ◌<◌, ◌≡◌, ◌⊎◌, refl, sym, ap, ◌∙◌, inl, inr, true, false, List, [], ◌∷◌,
  ◌++◌, append-nil, length, length-append, Option, none, some, ok, arith, ltb, ◌==◌, add32, u32_mod,
  ◌>>=◌, not-ltb,
}
use kvd.Proto.{Message}
use kvd.ByteBuffer.Queue.{take-prefix}
use kvd.ByteBuffer.Reads.{drop-prefix}
use kvd.Transport.{meta_bytes, host_bytes, debug_bytes, frame, transport_stream, transport_debug}
use kvd.Transport.Server.{
  ServerSession, tick_ok, host_word, decode_debug, decode_message, receive, read_message, read_meta,
  read_frame,
}

-- What is sent: a message, or the ticks of the timer.
pub data Item : Type 0 where
  sent : Message → Item
  ticked : ℕ → Item

abbrev pub messages : List Item → List Message
messages [] = []
messages (sent msg ∷ items) = msg ∷ messages items
messages (ticked tick ∷ items) = messages items

-- msgpack reads back what it packed, which is never empty and has a length of 32 bits; and a tick has
-- 32 bits.
abbrev pub Sendable : (Message → List ℕ) → (List ℕ → Option Message) → List Item → Type 0
Sendable pack unpack [] = Unit {0}
Sendable pack unpack (sent msg ∷ items) =
    (unpack (pack msg) ≡ some msg)
    × (0 < length (pack msg))
    × (length (pack msg) < u32_mod)
    × Sendable pack unpack items
Sendable pack unpack (ticked tick ∷ items) = (tick < u32_mod) × Sendable pack unpack items

module _ (pack : Message → List ℕ) where
  abbrev pub payload : Item → List ℕ
  payload (sent msg) = pack msg
  payload (ticked tick) = debug_bytes tick

  abbrev pub type_of : Item → ℕ
  type_of (sent msg) = transport_stream
  type_of (ticked tick) = transport_debug

  -- The frames of some items.
  abbrev pub encode : List Item → List ℕ
  encode [] = []
  encode (item ∷ items) = frame (type_of item) (payload item) ++ encode items

-- The length that the four bytes of a header stand for.
length_bytes :
    (n : ℕ)
    → n < u32_mod
    → n / 16777216 % 256 * 16777216 + n / 65536 % 256 * 65536 + n / 256 % 256 * 256 + n % 256 ≡ n
length_bytes n h = omega (arith, h)

read_meta-frame :
    (type : ℕ) (bytes rest : List ℕ)
    → length bytes < u32_mod
    → read_meta (frame type bytes ++ rest) ≡ some (type, length bytes, bytes ++ rest)
unfolding read_meta frame meta_bytes
read_meta-frame type bytes rest h =
    ap (λ n. some (type, n, bytes ++ rest)) (length_bytes (length bytes) h)

-- The header of a frame that has come in part, where the header is there.
read_meta-part :
    (xs later : List ℕ) (type : ℕ) (bytes rest : List ℕ)
    → length bytes < u32_mod
    → xs ++ later ≡ frame type bytes ++ rest
    → length xs < 5 + length bytes
    → (read_meta xs ≡ none)
      ⊎ ((left : List ℕ) × (read_meta xs ≡ some (type, length bytes, left))
          × (length left < length bytes))
unfolding read_meta frame meta_bytes
read_meta-part [] later type bytes rest h e short = inl refl
read_meta-part (t ∷ []) later type bytes rest h e short = inl refl
read_meta-part (t ∷ a ∷ []) later type bytes rest h e short = inl refl
read_meta-part (t ∷ a ∷ b ∷ []) later type bytes rest h e short = inl refl
read_meta-part (t ∷ a ∷ b ∷ c ∷ []) later type bytes rest h e short = inl refl
read_meta-part (t ∷ a ∷ b ∷ c ∷ d ∷ left) later type bytes rest h e short =
    let t' : t ≡ type = cc in
    let a' : a ≡ length bytes / 16777216 % 256 = cc in
    let b' : b ≡ length bytes / 65536 % 256 = cc in
    let c' : c ≡ length bytes / 256 % 256 = cc in
    let d' : d ≡ length bytes % 256 = cc in
    let len : a * 16777216 + b * 65536 + c * 256 + d ≡ length bytes =
      omega (arith, length_bytes (length bytes) h) in
    inr (
      left,
      ap (λ n. some (t, n, left)) len ∙ ap (λ n. some (n, length bytes, left)) t',
      omega arith,
    )

pub length-frame : (type : ℕ) (bytes : List ℕ) → length (frame type bytes) ≡ 5 + length bytes
unfolding frame meta_bytes
length-frame type bytes = omega arith

decode_debug-tick : (tick : ℕ) → tick < u32_mod → decode_debug (debug_bytes tick) ≡ ok tick_ok
unfolding decode_debug debug_bytes host_bytes host_word add32
decode_debug-tick tick h =
    let low : host_word (tick % 256) (tick / 256 % 256) (tick / 65536 % 256) (tick / 16777216 % 256)
        ≡ tick =
      omega (arith, h) in
    let next : ℕ = (tick + 1) % u32_mod in
    let high : host_word (next % 256) (next / 256 % 256) (next / 65536 % 256)
          (next / 16777216 % 256)
        ≡ next =
      omega arith in
    let same : (add32 tick 1 == next) ≡ true = ground arith in rw (low, high, same) refl

length-debug : (tick : ℕ) → (0 < length (debug_bytes tick)) × (length (debug_bytes tick) < u32_mod)
unfolding debug_bytes host_bytes
length-debug tick = omega arith

module _ (pack : Message → List ℕ) (unpack : List ℕ → Option Message) where
  -- A whole frame at the front is read.
  read_frame-frame :
      (type : ℕ) (bytes rest : List ℕ) (s : ServerSession)
      → 0 < length bytes
      → length bytes < u32_mod
      → s.reading ≡ true
      → s.unread ≡ frame type bytes ++ rest
      → read_frame unpack s
        ≡ (read_message unpack type bytes (record s { unread = rest }) >>= λ t. ok (some t))
  unfolding read_frame
  read_frame-frame type bytes rest s some_bytes h on front =
      let nonempty : (length bytes == 0) ≡ false = ground arith in
      rw
        (
          on,
          front,
          read_meta-frame type bytes rest h,
          nonempty,
          not-ltb (length (bytes ++ rest)) (length bytes) (omega (arith, length-append bytes rest)),
          take-prefix bytes rest,
          drop-prefix bytes rest,
        )
        (ap
          (λ b.
            read_message unpack type bytes
              (record { unread = rest; received = s.received; reading = b })
            >>= λ t. ok (some t))
          on)

  pub read_frame-whole :
      (item : Item) (items : List Item) (s : ServerSession) (rest : List ℕ)
      → Sendable pack unpack (item ∷ items)
      → s.reading ≡ true
      → s.unread ≡ frame (type_of pack item) (payload pack item) ++ rest
      → read_frame unpack s
        ≡ ok (some (record s { unread = rest; received = s.received ++ messages (item ∷ []) }))
  unfolding read_message decode_message receive
  read_frame-whole (sent msg) items s rest p on front =
      read_frame-frame transport_stream (pack msg) rest s p.1 p.2 on front ∙ rw (p.0) refl
  read_frame-whole (ticked tick) items s rest p on front =
      read_frame-frame transport_debug (debug_bytes tick) rest s (length-debug tick).0
        (length-debug tick).1 on front
      ∙ rw (decode_debug-tick tick p.0) (
          ap (λ xs. ok (some (record s { unread = rest; received = xs })))
            (sym (append-nil s.received)))

  payload_small :
      (item : Item) (items : List Item)
      → Sendable pack unpack (item ∷ items)
      → length (payload pack item) < u32_mod
  payload_small (sent msg) items p = p.2
  payload_small (ticked tick) items p = (length-debug tick).1

  -- A part of a frame is left where it is.
  pub read_frame-part :
      (item : Item) (items : List Item) (s : ServerSession) (rest later : List ℕ)
      → Sendable pack unpack (item ∷ items)
      → s.unread ++ later ≡ frame (type_of pack item) (payload pack item) ++ rest
      → length s.unread < length (frame (type_of pack item) (payload pack item))
      → read_frame unpack s ≡ ok none
  unfolding read_frame
  read_frame-part item items s rest later p front short =
      elim (read_meta-part s.unread later (type_of pack item) (payload pack item) rest
        (payload_small item items p) front
        (omega (arith, length-frame (type_of pack item) (payload pack item)))) [
          | inl no_header ↦ rw (no_header) (ground arith)
          | inr (left, header, few) ↦
              let nonempty : (length (payload pack item) == 0) ≡ false = ground arith in
              let wanting : ltb (length left) (length (payload pack item)) ≡ true = ground arith in
              rw (header, nonempty, wanting) (ground arith)
        ]
