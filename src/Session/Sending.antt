-- ===== src/Session/Sending.antt =====
-- redis_session.cpp: send_reply, start_send and its handler: the replies go to the socket in their order.
use kvd.Base.{
  ℕ, ◌+◌, ◌*◌, ◌<◌, ◌≡◌, ◌⊎◌, refl, sym, ap, ◌∙◌, subst, inl, inr, true, false, Bool-cases, List,
  [], ◌∷◌, ◌++◌, append_assoc, append-nil, length, length-append, drop, take, take-all, ◌%◌, ◌||◌,
  ◌&&◌, is_some, Option, none, some, arith, ltb, ◌==◌, u32_mod, Returns,
}
use kvd.ByteBuffer
use kvd.ByteBuffer.{ByteBuffer}
use kvd.ByteBuffer.Queue
use kvd.ByteBuffer.Queue.{contents}
use kvd.ByteBuffer.Reads.{
  took, added, drop-prefix, readable_bytes-contents, readable-contents, slice-contents, new-IsValid,
}
use kvd.Session.{RedisSession, new_session, start_send, send_done, send_reply}

-- The write that is in flight was asked for with the first of the bytes, and there is one if there are any.
abbrev pub Writing : Option (List ℕ) → List ℕ → Type 0
Writing none bytes = bytes ≡ []
Writing (some first) bytes = (0 < length first) × ((rest : List ℕ) × (bytes ≡ first ++ rest))

-- What the socket has taken and what is left in the buffer are the replies.
pub record Sends {Reader : Type 0} (replies taken : List ℕ) (s : RedisSession Reader) : Type 0 where
  pub valid : Queue.IsValid s.send_buffer
  pub bytes : taken ++ contents s.send_buffer ≡ replies
  pub writes : Writing s.in_flight (contents s.send_buffer)

empty_or_not : (xs : List ℕ) → (xs ≡ []) ⊎ (0 < length xs)
empty_or_not [] = inl refl
empty_or_not (x ∷ xs) = inr (omega arith)

idle_flight :
    (flight : Option (List ℕ)) (bytes : List ℕ)
    → Writing flight bytes
    → length bytes ≡ 0
    → flight ≡ none
idle_flight none bytes w e = refl
idle_flight (some first) bytes (h, (rest, front)) e =
    absurd (omega (arith, ap length front, length-append first rest))

Writing-more :
    (flight : Option (List ℕ)) (bytes more : List ℕ)
    → Writing flight bytes
    → (length bytes == 0) ≡ false
    → Writing flight (bytes ++ more)
Writing-more none bytes more empty e = absurd (ground (arith, ap length empty))
Writing-more (some first) bytes more (h, (rest, front)) e =
    (h, (rest ++ more, ap (λ xs. xs ++ more) front ∙ append_assoc first rest more))

module _ {Reader : Type 0} where
  pub new_session-Sends : (reader : Reader) → Sends [] [] (new_session reader)
  unfolding new_session ByteBuffer.new
  new_session-Sends reader = record { valid = new-IsValid; bytes = refl; writes = refl }

  -- A session with no write in flight starts the next one.
  start_send-Sends :
      (replies taken : List ℕ) (s : RedisSession Reader)
      → Queue.IsValid s.send_buffer
      → taken ++ contents s.send_buffer ≡ replies
      → s.in_flight ≡ none
      → Returns (start_send s) (Sends replies taken)
  unfolding start_send
  start_send-Sends replies taken s v e f = elim (empty_or_not (contents s.send_buffer)) [
    | inl empty ↦
        let idle : Writing s.in_flight (contents s.send_buffer) = rw f empty in
        rw (readable-contents s.send_buffer v, empty)
          (record { valid = v; bytes = e; writes = idle })
    | inr full ↦
        let some_bytes : ltb 0 (length (contents s.send_buffer)) ≡ true = ground arith in
        rw (readable-contents s.send_buffer v, some_bytes, slice-contents s.send_buffer v)
          (record { valid = v; bytes = e; writes = (full, ([], sym (append-nil _))) })
  ]

  -- A reply joins the replies behind the others, whether or not a write is in flight.
  pub send_reply-Sends :
      (replies taken : List ℕ) (s : RedisSession Reader) (bytes : List ℕ)
      → Sends replies taken s
      → length s.send_buffer.buff * 2 + length bytes < u32_mod
      → Returns (send_reply bytes s) (Sends (replies ++ bytes) taken)
  unfolding send_reply
  send_reply-Sends replies taken s bytes k fits =
      let whole : take (length bytes % u32_mod) bytes ≡ bytes =
        take-all (length bytes % u32_mod) bytes (omega arith) in
      let (b, putting, valid, back, _) = added s.send_buffer bytes k.valid fits in
      let joined : taken ++ contents b ≡ replies ++ bytes =
        ap (◌++◌ taken) back
        ∙ sym (append_assoc taken (contents s.send_buffer) bytes)
        ∙ ap (λ xs. xs ++ bytes) k.bytes in
      let queued_as : ByteBuffer → RedisSession Reader = λ c. record s {
        send_buffer = c;
        dangling = s.dangling || (is_some s.in_flight && ByteBuffer.grows bytes s.send_buffer);
      } in
      rw (whole, readable_bytes-contents s.send_buffer k.valid, putting)
        (elim (Bool-cases (length (contents s.send_buffer) == 0)) [
          | inl idle ↦ rw idle (
              start_send-Sends (replies ++ bytes) taken (queued_as b) valid joined
                (idle_flight s.in_flight (contents s.send_buffer) k.writes (ground (arith, idle))))
          | inr busy ↦ rw busy (record {
            valid = valid;
            bytes = joined;
            writes =
                subst (Writing s.in_flight) (sym back)
                  (Writing-more s.in_flight (contents s.send_buffer) bytes k.writes busy);
          })
        ])

  -- When the socket has taken what is in flight, the write of what came in the meantime begins.
  send_done-Sends :
      (replies taken : List ℕ) (s : RedisSession Reader) (bytes : List ℕ)
      → Sends replies taken s
      → s.in_flight ≡ some bytes
      → s.dangling ≡ false
      → Returns (send_done false (length bytes) s) (Sends replies (taken ++ bytes))
  unfolding send_done
  send_done-Sends replies taken s bytes k flight intact =
      let (some_bytes, (rest, front)) =
        subst (λ f. Writing f (contents s.send_buffer)) flight k.writes in
      let (b, reading, valid, left) =
        took s.send_buffer (length bytes) k.valid
          (omega (arith, ap length front, length-append bytes rest)) in
      let rest_left : contents b ≡ rest =
        left ∙ ap (drop (length bytes)) front ∙ drop-prefix bytes rest in
      let taking : (length bytes == 0) ≡ false = ground arith in
      rw (intact, taking, reading)
        (start_send-Sends replies (taken ++ bytes)
          (record s { send_buffer = b; in_flight = none; dangling = false }) valid
          (ap (◌++◌ (taken ++ bytes)) rest_left
            ∙ append_assoc taken bytes rest
            ∙ ap (◌++◌ taken) (sym front)
            ∙ k.bytes)
          refl)
