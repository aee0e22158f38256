-- ===== src/Transport/Client/Wire.antt =====
-- peer.cpp: the bytes that a session writes to its socket are the frames that were queued, in their order.
use kvd.Base.{
  ℕ, ◌+◌, ◌*◌, ◌<◌, ◌≡◌, ◌⊎◌, refl, sym, ap, ◌∙◌, subst, inl, inr, Bool, true, false, Bool-cases,
  ◌&&◌, ◌||◌, List, [], ◌∷◌, ◌++◌, append_assoc, append-nil, length, length-append, drop, Option,
  is_some, none, some, ok, arith, ltb, ◌==◌, if◌then◌else◌, u32_mod, Returns, Returns-ok, ◌>>=◌,
}
use kvd.ByteBuffer
use kvd.ByteBuffer.{ByteBuffer}
use kvd.ByteBuffer.Queue
use kvd.ByteBuffer.Queue.{contents}
use kvd.ByteBuffer.Reads.{
  took, added, grows-twice, drop-prefix, readable_bytes-contents, readable-contents, slice-contents,
  new-IsValid,
}
use kvd.Transport.{meta_bytes, frame}
use kvd.Transport.Client.{
  ClientSession, new_client, start_write, send_frame, connect_done, write_done,
}

-- A write is in flight whenever a session that is connected has bytes to write, and it is about the first
-- of them.
abbrev pub Writes : Option (List ℕ) → Bool → List ℕ → Type 0
Writes none connected bytes = (connected ≡ false) ⊎ (bytes ≡ [])
Writes (some first) connected bytes =
    (connected ≡ true) × (0 < length first) × ((rest : List ℕ) × (bytes ≡ first ++ rest))

-- What was written and what is left in the buffer are the queued frames.
pub record Carries (queued : List ℕ) (s : ClientSession) : Type 0 where
  pub valid : Queue.IsValid s.buffer
  pub bytes : s.written ++ contents s.buffer ≡ queued
  pub writes : Writes s.in_flight s.connected (contents s.buffer)

pub new_client-Carries : Carries [] new_client
unfolding new_client ByteBuffer.new
new_client-Carries = record { valid = new-IsValid; bytes = refl; writes = inl refl }

start_write-none :
    (s : ClientSession) → Queue.IsValid s.buffer → contents s.buffer ≡ [] → start_write s ≡ ok s
unfolding start_write
start_write-none s v e = rw (readable-contents s.buffer v, e) refl

start_write-some :
    (s : ClientSession)
    → Queue.IsValid s.buffer
    → 0 < length (contents s.buffer)
    → start_write s ≡ ok (record s { in_flight = some (contents s.buffer) })
unfolding start_write
start_write-some s v h =
    let some_bytes : ltb 0 (length (contents s.buffer)) ≡ true = ground arith in
    rw (readable-contents s.buffer v, some_bytes, slice-contents s.buffer v) refl

-- A session after start_write: a write that it has in flight is about all the bytes in the buffer.
pub record Started (queued written : List ℕ) (dangling : Bool) (t : ClientSession) : Type 0 where
  pub carries : Carries queued t
  pub connected : t.connected ≡ true
  pub same : t.written ≡ written
  pub kept : t.dangling ≡ dangling
  pub whole : (t.in_flight ≡ none) ⊎ (t.in_flight ≡ some (contents t.buffer))

-- A session that is connected and has no write in flight starts the next one.
start_write-Started :
    (queued : List ℕ) (s : ClientSession)
    → Queue.IsValid s.buffer
    → s.written ++ contents s.buffer ≡ queued
    → s.connected ≡ true
    → s.in_flight ≡ none
    → (t : ClientSession) × (start_write s ≡ ok t) × Started queued s.written s.dangling t
start_write-Started queued s v e c f = elim (empty_or_not (contents s.buffer)) [
  | inl empty ↦
      let idle : Writes s.in_flight s.connected (contents s.buffer) = rw f (inr empty) in
      (
        s,
        start_write-none s v empty,
        record {
          carries = record { valid = v; bytes = e; writes = idle };
          connected = c;
          same = refl;
          kept = refl;
          whole = inl f;
        },
      )
  | inr full ↦ (
    record s { in_flight = some (contents s.buffer) },
    start_write-some s v full,
    record {
      carries = record { valid = v; bytes = e; writes = (c, full, ([], sym (append-nil _))) };
      connected = c;
      same = refl;
      kept = refl;
      whole = inr refl;
    },
  )
]
  where
    empty_or_not : (xs : List ℕ) → (xs ≡ []) ⊎ (0 < length xs)
    empty_or_not [] = inl refl
    empty_or_not (x ∷ xs) = inr (omega arith)

connect_done-eq :
    (s : ClientSession)
    → connect_done false s ≡ (start_write (record s { connected = true }) >>= λ t. ok (some t))
unfolding connect_done start_write
connect_done-eq s = elim (Bool-cases (ByteBuffer.readable s.buffer)) [
  | inl some_bytes ↦ rw some_bytes refl
  | inr no_bytes ↦ rw no_bytes refl
]

-- Connecting starts to write what was queued before.
pub connect_done-Started :
    (queued : List ℕ) (s : ClientSession)
    → Carries queued s
    → s.in_flight ≡ none
    → (t : ClientSession) × (connect_done false s ≡ ok (some t))
      × Started queued s.written s.dangling t
connect_done-Started queued s k f =
    let (t, starts, started) =
      start_write-Started queued (record s { connected = true }) k.valid k.bytes refl f in
    (t, connect_done-eq s ∙ ap (λ r. r >>= λ u. ok (some u)) starts, started)

-- A write that the socket took is followed by one of what came in the meantime.
pub write_done-Started :
    (queued : List ℕ) (s : ClientSession) (bytes rest : List ℕ)
    → Carries queued s
    → s.connected ≡ true
    → s.dangling ≡ false
    → 0 < length bytes
    → contents s.buffer ≡ bytes ++ rest
    → (t : ClientSession) × (write_done false bytes s ≡ ok (some t))
      × Started queued (s.written ++ bytes) false t
unfolding write_done
write_done-Started queued s bytes rest k c intact some_bytes front =
    let (b, taken, valid, left) =
      took s.buffer (length bytes) k.valid
        (omega (arith, ap length front, length-append bytes rest)) in
    let rest_left : contents b ≡ rest =
      left ∙ ap (drop (length bytes)) front ∙ drop-prefix bytes rest in
    let (t, starts, started) =
      start_write-Started queued
        (record s { buffer = b; in_flight = none; written = s.written ++ bytes; dangling = false })
        valid
        (ap (◌++◌ (s.written ++ bytes)) rest_left
          ∙ append_assoc s.written bytes rest
          ∙ ap (◌++◌ s.written) (sym front)
          ∙ k.bytes)
        c refl in
    let taking : (length bytes == 0) ≡ false = ground arith in
    (t, rw (intact, taking, taken, starts) refl, started)

-- A session that is idle has no write in flight, and more bytes do not disturb the others.
pub idle_flight :
    (flight : Option (List ℕ)) (connected : Bool) (bytes : List ℕ)
    → Writes flight connected bytes
    → length bytes ≡ 0
    → flight ≡ none
idle_flight none connected bytes w e = refl
idle_flight (some first) connected bytes (c, h, (rest, front)) e =
    absurd (omega (arith, ap length front, length-append first rest))

Writes-more :
    (flight : Option (List ℕ)) (connected : Bool) (bytes more : List ℕ)
    → Writes flight connected bytes
    → (connected && length bytes == 0) ≡ false
    → Writes flight connected (bytes ++ more)
Writes-more none false bytes more w e = inl refl
Writes-more none true bytes more (inl off) e = cc
Writes-more none true bytes more (inr empty) e = absurd (ground (arith, ap length empty))
Writes-more (some first) connected bytes more (c, h, (rest, front)) e =
    (c, h, (rest ++ more, ap (λ xs. xs ++ more) front ∙ append_assoc first rest more))

-- What send does to the buffer, whatever it starts after.
module _ (queued : List ℕ) (s : ClientSession) (k : Carries queued s) (type : ℕ) (payload : List ℕ)
    (fits : length s.buffer.buff * 4 + 10 + length payload < u32_mod) where
  abbrev queued_as : ByteBuffer → Bool → ClientSession
  queued_as b moved = record s {
    buffer = b;
    dangling = s.dangling || (is_some s.in_flight && moved);
  }

  -- Whether the frame makes the buffer grow while a write is in flight.
  abbrev pub no_room : Bool
  no_room = is_some s.in_flight && ltb (length s.buffer.buff) (s.buffer.writer + 5 + length payload)

  queued_frame :
      (b : ByteBuffer) × (moved : Bool) × Queue.IsValid b
      × (contents b ≡ contents s.buffer ++ frame type payload)
      × (moved ≡ ltb (length s.buffer.buff) (s.buffer.writer + 5 + length payload))
      × (send_frame type payload s ≡ (
          if s.connected && length (contents s.buffer) == 0
          then start_write (queued_as b moved)
          else ok (queued_as b moved)))
  unfolding send_frame frame meta_bytes
  queued_frame =
      let (b, put_meta, valid, front, most) =
        added s.buffer (meta_bytes type (length payload)) k.valid (omega arith) in
      let (c, put_data, valid', back, _) = added b payload valid (omega arith) in
      let together : contents c ≡ contents s.buffer ++ frame type payload =
        back
        ∙ ap (λ xs. xs ++ payload) front
        ∙ append_assoc (contents s.buffer) (meta_bytes type (length payload)) payload in
      let counted : (length (contents s.buffer) + 5 + length payload == length (contents c))
          ≡ true =
        ground (
          arith,
          ap length together,
          length-append (contents s.buffer) (frame type payload),
          length-append (meta_bytes type (length payload)) payload,
        ) in
      (
        c,
        ByteBuffer.grows (meta_bytes type (length payload)) s.buffer || ByteBuffer.grows payload b,
        valid',
        together,
        grows-twice s.buffer b (meta_bytes type (length payload)) payload k.valid valid
            (omega arith) put_meta,
        rw
            (
              readable_bytes-contents s.buffer k.valid,
              put_meta,
              put_data,
              readable_bytes-contents c valid',
              counted,
            )
            refl,
      )

  -- send queues one frame, and starts a write if there is none.
  pub send_frame-Carries : Returns (send_frame type payload s) λ t.
      Carries (queued ++ frame type payload) t
      × (t.written ≡ s.written)
      × (t.dangling ≡ (s.dangling || no_room))
  send_frame-Carries =
      let (b, moved, valid, together, when, result) = queued_frame in
      let bytes : s.written ++ contents b ≡ queued ++ frame type payload =
        ap (◌++◌ s.written) together
        ∙ sym (append_assoc s.written (contents s.buffer) (frame type payload))
        ∙ ap (λ xs. xs ++ frame type payload) k.bytes in
      rw result (elim (Bool-cases (s.connected && length (contents s.buffer) == 0)) [
        | inl idle ↦ rw idle (
            let (t, starts, started) =
              start_write-Started (queued ++ frame type payload) (queued_as b moved) valid bytes
                (ground (arith, idle))
                (idle_flight s.in_flight s.connected (contents s.buffer) k.writes
                  (ground (arith, idle))) in
            Returns-ok _ starts (
              started.carries,
              started.same,
              started.kept ∙ ap (λ m. s.dangling || (is_some s.in_flight && m)) when,
            ))
        | inr busy ↦ rw busy (
          record {
            valid = valid;
            bytes = bytes;
            writes = subst (Writes s.in_flight s.connected) (sym together) (
                Writes-more s.in_flight s.connected (contents s.buffer) (frame type payload)
                  k.writes busy);
          },
          refl,
          ap (λ m. s.dangling || (is_some s.in_flight && m)) when,
        )
      ])
