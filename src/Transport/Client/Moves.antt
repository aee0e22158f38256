-- ===== src/Transport/Client/Moves.antt =====
-- peer.cpp: a frame that makes the buffer grow while the socket writes from it.
use kvd.Base.{
  ℕ, ◌+◌, ◌*◌, ◌≤◌, ◌<◌, ◌≡◌, ◌⊎◌, refl, ap, ◌∙◌, inl, inr, Bool, true, false, Bool-cases, ◌&&◌,
  ◌||◌, List, ◌++◌, length, is_some, ltb, err, undefined, arith, u32_mod, Returns, Returns-mono,
}
use kvd.Transport.{frame}
use kvd.Transport.Client.{ClientSession, send_frame, write_done}
use kvd.Transport.Client.Wire.{Carries, send_frame-Carries, no_room}

write_done-dangling :
    (failed : Bool) (bytes : List ℕ) (t : ClientSession)
    → t.dangling ≡ true
    → write_done failed bytes t ≡ err undefined
unfolding write_done
write_done-dangling failed bytes t e = rw e refl

-- Whether a frame of a given length, header included, moves the buffer under a write, and what then becomes of
-- the write.
abbrev pub Moved : ClientSession → ℕ → ClientSession → Type 0
Moved s n t =
    (((is_some s.in_flight ≡ false) ⊎ (s.buffer.writer + n ≤ length s.buffer.buff))
      × (t.dangling ≡ false))
    ⊎ ((is_some s.in_flight ≡ true)
        × (length s.buffer.buff < s.buffer.writer + n)
        × (t.dangling ≡ true)
        × ((failed : Bool) (bytes : List ℕ) → write_done failed bytes t ≡ err undefined))

dangling-Moved :
    (s t : ClientSession) (n : ℕ)
    → t.dangling ≡ (is_some s.in_flight && ltb (length s.buffer.buff) (s.buffer.writer + n))
    → Moved s n t
dangling-Moved s t n moved = elim (Bool-cases (is_some s.in_flight)) [
  | inr idle ↦ inl (inl idle, rw idle at moved)
  | inl busy ↦
      let full : t.dangling ≡ ltb (length s.buffer.buff) (s.buffer.writer + n) = rw busy at moved in
      elim (Bool-cases (ltb (length s.buffer.buff) (s.buffer.writer + n))) [
        | inl lacks ↦
            let freed : t.dangling ≡ true = full ∙ lacks in
            inr (
              busy,
              ground (arith, lacks),
              freed,
              λ failed bytes. write_done-dangling failed bytes t freed,
            )
        | inr room ↦ inl (inr (ground (arith, room)), full ∙ room)
      ]
]

-- A frame is queued in any case. If no write is in flight, or the buffer has room for the frame, the write
-- stays sound; if one is in flight and the buffer has no room, the frame moves the buffer under it, and
-- the end of that write is undefined.
pub send_frame-moves :
    (queued : List ℕ) (s : ClientSession) (type : ℕ) (payload : List ℕ)
    → Carries queued s
    → s.dangling ≡ false
    → length s.buffer.buff * 4 + 10 + length payload < u32_mod
    → Returns
        (send_frame type payload s)
        λ t. Carries (queued ++ frame type payload) t × Moved s (5 + length payload) t
send_frame-moves queued s type payload k intact fits =
    Returns-mono _ _ (send_frame type payload s) (send_frame-Carries queued s k type payload fits)
      λ t (carries, same, moved). (
        carries,
        dangling-Moved s t (5 + length payload) (
            moved
            ∙ ap (λ d. d || no_room queued s k type payload fits) intact
            ∙ ap (λ n. is_some s.in_flight && ltb (length s.buffer.buff) n) (omega arith)),
      )
