-- ===== src/Transport/Client/Runs.antt =====
-- peer.cpp: the runs of a session, in which frames are queued, the session connects and the socket takes
-- what it was asked to write, in any order.
use kvd.Base.{
  ℕ, ◌+◌, ◌*◌, ◌<◌, ◌≡◌, refl, sym, ap, ◌∙◌, subst, inl, inr, Bool, true, false, Bool-cases, List,
  [], ◌++◌, append_assoc, append-nil, if◌then◌else◌, length, length-append, Option, none, some,
  Result, ok, err, undefined, ◌>>=◌, arith, u32_mod, Returns, Returns-ok,
}
use kvd.ByteBuffer.Queue.{contents}
use kvd.Transport.{frame}
use kvd.Transport.Client.{ClientSession, new_client, send_frame, connect_done, write_done}
use kvd.Transport.Client.Wire.{
  Writes, Carries, Started, new_client-Carries, connect_done-Started, write_done-Started,
  send_frame-Carries, idle_flight,
}

-- The event of one call or handler; the first list holds the frames queued before, the second those after.
pub data Step (queued : List ℕ) (s : ClientSession) : List ℕ → ClientSession → Type 0 where
  sends :
      {t : ClientSession} {later : List ℕ} (type : ℕ) (payload : List ℕ)
      → length s.buffer.buff * 4 + 10 + length payload < u32_mod
      → send_frame type payload s ≡ ok t
      → later ≡ queued ++ frame type payload
      → Step queued s later t
  connects :
      {t : ClientSession}
      → s.connected ≡ false
      → connect_done false s ≡ ok (some t)
      → Step queued s queued t
  writes :
      {t : ClientSession} (bytes : List ℕ)
      → s.in_flight ≡ some bytes
      → write_done false bytes s ≡ ok (some t)
      → Step queued s queued t

pub data Run : List ℕ → ClientSession → Type 0 where
  start : Run [] new_client
  next :
      {queued later : List ℕ} {s t : ClientSession}
      → Run queued s
      → Step queued s later t
      → Run later t

not_connected :
    (flight : Option (List ℕ)) (connected : Bool) (bytes : List ℕ)
    → Writes flight connected bytes
    → connected ≡ false
    → flight ≡ none
not_connected none connected bytes w e = refl
not_connected (some first) connected bytes (c, h, rest) e = cc

first_bytes :
    (s : ClientSession) (bytes : List ℕ)
    → Writes s.in_flight s.connected (contents s.buffer)
    → s.in_flight ≡ some bytes
    → Writes (some bytes) s.connected (contents s.buffer)
first_bytes s bytes w e = subst (λ flight. Writes flight s.connected (contents s.buffer)) e w

-- A write that was ended by its handler was of memory that is there.
write_done-intact :
    (failed : Bool) (bytes : List ℕ) (s t : ClientSession)
    → write_done failed bytes s ≡ ok (some t)
    → s.dangling ≡ false
unfolding write_done
write_done-intact failed bytes s t wrote = elim (Bool-cases s.dangling) [
  | inl freed ↦ let nothing : write_done failed bytes s ≡ err undefined = rw freed refl in absurd cc
  | inr there ↦ there
]

Step-Carries :
    {queued later : List ℕ} {s t : ClientSession}
    → Step queued s later t
    → Carries queued s
    → Carries later t
Step-Carries {queued} {later} {s} {t} (sends type payload fits sent more) k =
    rw more ((rw sent at (send_frame-Carries queued s k type payload fits)).0)
Step-Carries {queued} {later} {s} {t} (connects off connected) k =
    let (u, connection, started) =
      connect_done-Started queued s k
        (not_connected s.in_flight s.connected (contents s.buffer) k.writes off) in
    let same : u ≡ t = cc in subst (Carries queued) same started.carries
Step-Carries {queued} {later} {s} {t} (writes bytes flight wrote) k =
    let intact = write_done-intact false bytes s t wrote in
    let (c, some_bytes, (rest, front)) = first_bytes s bytes k.writes flight in
    let (u, writing, started) =
      write_done-Started queued s bytes rest k c intact some_bytes front in
    let same : u ≡ t = cc in subst (Carries queued) same started.carries

-- In every run of a session, what the handlers of its writes were told to be taken and what is left in the
-- buffer are the frames that were queued, one after the other; and while the session is connected and
-- has bytes left, a write is in flight that was asked for with the first of them. That its memory is
-- still there is not said: a frame that makes the buffer grow during the write sets `dangling`, and
-- then the run has no end of that write.
pub Run-Carries : {queued : List ℕ} {s : ClientSession} → Run queued s → Carries queued s
Run-Carries start = new_client-Carries
Run-Carries (next run step) = Step-Carries step (Run-Carries run)

-- The socket takes what it was asked to write, if anything.
unfoldable pub complete : ClientSession → Result ClientSession
complete s = elim s.in_flight [
  | none ↦ ok s
  | some bytes ↦ write_done false bytes s >>= λ o. elim o [ none ↦ err undefined | some t ↦ ok t ]
]

complete-none : (s : ClientSession) → s.in_flight ≡ none → complete s ≡ ok s
unfolding complete
complete-none s e = rw e refl

complete-some :
    (s t : ClientSession) (bytes : List ℕ)
    → s.in_flight ≡ some bytes
    → write_done false bytes s ≡ ok (some t)
    → complete s ≡ ok t
unfolding complete
complete-some s t bytes e w = rw (complete, e, w) refl

-- What the socket has taken and may take yet. Of memory that was freed there is nothing to be said.
unfoldable pub offered : ClientSession → Result (List ℕ)
offered s =
    if s.dangling
    then err undefined
    else elim s.in_flight [ none ↦ ok s.written | some bytes ↦ ok (s.written ++ bytes) ]

-- What is offered are the first bytes of the frames that were queued.
pub offered-first :
    {queued : List ℕ} {s : ClientSession} (bytes : List ℕ)
    → Run queued s
    → offered s ≡ ok bytes
    → (later : List ℕ) × (bytes ++ later ≡ queued)
unfolding offered
offered-first {queued} {s} bytes run e = elim (Bool-cases s.dangling) [
  | inl freed ↦ let nothing : offered s ≡ err undefined = rw freed refl in absurd cc
  | inr there ↦ let k = Run-Carries run in first s.in_flight k.writes k.bytes (rw there at e)
]
  where
    first :
        (flight : Option (List ℕ))
        → Writes flight s.connected (contents s.buffer)
        → s.written ++ contents s.buffer ≡ queued
        → elim flight as (λ _. Result (List ℕ)) [
          | none ↦ ok s.written
          | some front ↦ ok (s.written ++ front)
        ]
          ≡ ok bytes
        → (later : List ℕ) × (bytes ++ later ≡ queued)
    first none w all same =
        let eq : s.written ≡ bytes = cc in
        (contents s.buffer, ap (λ xs. xs ++ contents s.buffer) (sym eq) ∙ all)
    first (some front) (c, h, (rest, cut)) all same =
        let eq : s.written ++ front ≡ bytes = cc in
        (
          rest,
          ap (λ xs. xs ++ rest) (sym eq)
              ∙ append_assoc s.written front rest
              ∙ ap (◌++◌ s.written) (sym cut)
              ∙ all,
        )

-- After one write the next one is about all that is left.
complete-Started :
    (queued : List ℕ) (s : ClientSession) (flight : Option (List ℕ))
    → s.in_flight ≡ flight
    → Carries queued s
    → s.connected ≡ true
    → s.dangling ≡ false
    → (written : List ℕ) × (t : ClientSession) × (complete s ≡ ok t)
      × Started queued written false t
complete-Started queued s none e k c intact = (
  s.written,
  s,
  complete-none s e,
  record { carries = k; connected = c; same = refl; kept = intact; whole = inl e },
)
complete-Started queued s (some bytes) e k c intact =
    let (_, some_bytes, (rest, front)) = first_bytes s bytes k.writes e in
    let (t, wrote, started) = write_done-Started queued s bytes rest k c intact some_bytes front in
    (s.written ++ bytes, t, complete-some s t bytes e wrote, started)

no_bytes :
    (flight : Option (List ℕ)) (connected : Bool) (bytes : List ℕ)
    → Writes flight connected bytes
    → connected ≡ true
    → flight ≡ none
    → bytes ≡ []
no_bytes none connected bytes (inl off) c e = cc
no_bytes none connected bytes (inr empty) c e = empty
no_bytes (some first) connected bytes w c e = cc

nothing_after : (xs ys : List ℕ) → xs ++ ys ≡ xs → length ys ≡ 0
nothing_after xs ys e = omega (arith, ap length e, length-append xs ys)

complete-whole :
    (queued written : List ℕ) (s : ClientSession)
    → Started queued written false s
    → (t : ClientSession) × (complete s ≡ ok t) × (t.written ≡ queued) × (t.in_flight ≡ none)
complete-whole queued written s k = elim k.whole [
  | inl idle ↦ (
    s,
    complete-none s idle,
    sym (append-nil s.written)
        ∙ ap (◌++◌ s.written) (
            sym (
              no_bytes s.in_flight s.connected (contents s.buffer) k.carries.writes k.connected
                idle))
        ∙ k.carries.bytes,
    idle,
  )
  | inr all ↦
      let (_, some_bytes, _) = first_bytes s (contents s.buffer) k.carries.writes all in
      let (t, wrote, started) =
        write_done-Started queued s (contents s.buffer) [] k.carries k.connected k.kept some_bytes
          (sym (append-nil (contents s.buffer))) in
      let done : t.written ≡ queued = started.same ∙ k.carries.bytes in
      (
        t,
        complete-some s t (contents s.buffer) all wrote,
        done,
        idle_flight t.in_flight t.connected (contents t.buffer) started.carries.writes
            (nothing_after t.written (contents t.buffer) (started.carries.bytes ∙ sym done)),
      )
]

-- Once the socket of a session that is connected takes what it is asked to write, at most two writes
-- deliver all the frames that were queued, and none is in flight then. In the run before, whatever it
-- was, no frame has moved the buffer under the write that is in flight now.
pub complete-delivers :
    {queued : List ℕ} {s : ClientSession}
    → Run queued s
    → s.connected ≡ true
    → s.dangling ≡ false
    → Returns (complete s >>= complete) (λ t. (t.written ≡ queued) × (t.in_flight ≡ none))
complete-delivers {queued} {s} run c intact =
    let (written, t, once, started) =
      complete-Started queued s s.in_flight refl (Run-Carries run) c intact in
    let (u, twice, all, idle) = complete-whole queued written t started in
    Returns-ok _ (ap (λ r. r >>= complete) once ∙ twice) (all, idle)
