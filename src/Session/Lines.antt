-- ===== src/Session/Lines.antt =====
-- redis_session.cpp: handle_read feeds the whole lines of what has come, one after the other, and drops the
-- bytes behind the last line feed.
use kvd.Base.{
  ℕ, zero, suc, ◌≤◌, ◌≡◌, refl, ap, ◌∙◌, Bool, true, false, List, [], ◌∷◌, ◌++◌, append_assoc,
  Option, none, some, ok, arith, ◌==◌, if◌then◌else◌, length, length-append, Result, ◌>>=◌,
}
use kvd.Store.{RedisStore, RaftCommit}
use kvd.Session.{Reply, RedisSession, start}
use kvd.Session.Reading.{
  split_line, Hiredis, with_reply, feed_line, read_lines, on_replies, handle_read,
}

-- No byte is a line feed.
unfoldable pub IsUnbroken : List ℕ → Type 0
IsUnbroken [] = Unit
IsUnbroken (c ∷ bytes) = ((c == 10) ≡ false) × IsUnbroken bytes

-- The lines as they come, each with its line feed.
unfoldable pub lines_text : List (List ℕ) → List ℕ
lines_text [] = []
lines_text (line ∷ lines) = line ++ (10 ∷ lines_text lines)

unfoldable pub AreUnbroken : List (List ℕ) → Type 0
AreUnbroken [] = Unit
AreUnbroken (line ∷ lines) = IsUnbroken line × AreUnbroken lines

split_line-line :
    (line rest : List ℕ)
    → IsUnbroken line
    → split_line (line ++ (10 ∷ rest)) ≡ some (line ++ (10 ∷ []), rest)
unfolding split_line IsUnbroken
split_line-line [] rest u = refl
split_line-line (c ∷ line) rest (other, u) = rw (other, split_line-line line rest u) refl

split_line-none : (tail : List ℕ) → IsUnbroken tail → split_line tail ≡ none
unfolding split_line IsUnbroken
split_line-none [] u = refl
split_line-none (c ∷ tail) (other, u) = rw (other, split_line-none tail u) refl

-- The bytes behind the last line feed only make the session ask for one more read.
abbrev pub after_lines : {Reader : Type 0} → List ℕ → RedisSession Reader → RedisSession Reader
after_lines [] s = s
after_lines (c ∷ tail) s = start s

-- The session then: after an error it quits.
abbrev pub outcome :
    {Reader : Type 0}
    → List ℕ
    → RedisSession Reader
    → Bool × List Reply × Reader
    → Bool × List Reply × RedisSession Reader
outcome tail s (true, replies, reader) =
    (true, replies, after_lines tail (record s { reader = reader }))
outcome tail s (false, replies, reader) =
    (false, replies, record s { reader = reader; quit = true })

-- The commands that the lines ended, and the next read, unless there was an error.
abbrev pub concluded :
    {Reader : Type 0}
    → (RaftCommit → List ℕ)
    → ℕ
    → List ℕ
    → RedisStore
    → RedisSession Reader
    → Bool × List Reply × Reader
    → Result (RedisStore × RedisSession Reader)
concluded pack id tail store s (true, replies, reader) =
    on_replies pack id replies store (after_lines tail (record s { reader = reader })) >>= λ p.
    ok (p.0, start p.1)
concluded pack id tail store s (false, replies, reader) =
    ok (store, record s { reader = reader; quit = true })

module _ {Reader : Type 0} (h : Hiredis Reader) where
  -- The reader takes the lines in their order, up to one in which there is an error.
  unfoldable pub feed_lines : List (List ℕ) → List Reply → Reader → Bool × List Reply × Reader
  feed_lines [] replies reader = (true, replies, reader)
  feed_lines (line ∷ lines) replies reader = elim (feed_line h (line ++ (10 ∷ [])) reader) [
    | none ↦ (false, replies, reader)
    | some (reply, next) ↦ feed_lines lines (with_reply reply replies) next
  ]

  read_lines-line :
      (fuel : ℕ) (line rest : List ℕ) (replies : List Reply) (s : RedisSession Reader)
      → IsUnbroken line
      → s.quit ≡ false
      → read_lines h (suc fuel) (line ++ (10 ∷ rest)) replies s
        ≡ (elim (feed_line h (line ++ (10 ∷ [])) s.reader) [
          | none ↦ (false, replies, record s { quit = true })
          | some (reply, reader) ↦
              read_lines h fuel rest (with_reply reply replies) (record s { reader = reader })
        ])
  unfolding read_lines
  read_lines-line fuel [] rest replies s u active = rw (active, split_line-line [] rest u) refl
  read_lines-line fuel (c ∷ line) rest replies s u active =
      rw (active, split_line-line (c ∷ line) rest u) refl

  read_lines-tail :
      (fuel : ℕ) (tail : List ℕ) (replies : List Reply) (s : RedisSession Reader)
      → IsUnbroken tail
      → length tail ≤ fuel
      → s.quit ≡ false
      → read_lines h fuel tail replies s ≡ (true, replies, after_lines tail s)
  unfolding read_lines
  read_lines-tail zero [] replies s u enough active = refl
  read_lines-tail zero (c ∷ tail) replies s u enough active = absurd (omega arith)
  read_lines-tail (suc fuel) [] replies s u enough active = refl
  read_lines-tail (suc fuel) (c ∷ tail) replies s u enough active =
      simp (active, split_line-none (c ∷ tail) u) refl

  line_length :
      (line rest : List ℕ) (fuel : ℕ) → length (line ++ (10 ∷ rest)) ≤ suc fuel → length rest ≤ fuel
  line_length line rest fuel enough = omega (arith, length-append line (10 ∷ rest))

  read_lines-outcome :
      (fuel : ℕ) (lines : List (List ℕ)) (tail : List ℕ) (replies : List Reply)
      (s : RedisSession Reader)
      → AreUnbroken lines
      → IsUnbroken tail
      → length (lines_text lines ++ tail) ≤ fuel
      → s.quit ≡ false
      → read_lines h fuel (lines_text lines ++ tail) replies s
        ≡ outcome tail s (feed_lines lines replies s.reader)
  unfolding feed_lines lines_text AreUnbroken
  read_lines-outcome fuel [] tail replies s a u enough active =
      read_lines-tail fuel tail replies s u enough active
  read_lines-outcome zero (line ∷ lines) tail replies s a u enough active = absurd (
      omega (
        arith,
        length-append line (10 ∷ (lines_text lines ++ tail)),
        ap length (append_assoc line (10 ∷ lines_text lines) tail),
      ))
  read_lines-outcome (suc fuel) (line ∷ lines) tail replies s (first, others) u enough active =
      let moved = append_assoc line (10 ∷ lines_text lines) tail in
      let fits : length (lines_text lines ++ tail) ≤ fuel =
        line_length line (lines_text lines ++ tail) fuel (omega (arith, ap length moved)) in
      ap (λ bytes. read_lines h (suc fuel) bytes replies s) moved
      ∙ read_lines-line fuel line (lines_text lines ++ tail) replies s first active
      ∙ after_line (feed_line h (line ++ (10 ∷ [])) s.reader) (λ reply next.
        read_lines-outcome fuel lines tail (with_reply reply replies) (record s { reader = next })
          others u fits active)
    where
      after_line :
          (fed : Option (Option Reply × Reader))
          → ((reply : Option Reply) (next : Reader)
              → read_lines h fuel
                  (lines_text lines ++ tail)
                  (with_reply reply replies)
                  (record s { reader = next })
                ≡ outcome tail s (feed_lines lines (with_reply reply replies) next))
          → elim fed as (λ _. Bool × List Reply × RedisSession Reader) [
            | none ↦ (false, replies, record s { quit = true })
            | some (reply, next) ↦
                read_lines h fuel
                  (lines_text lines ++ tail)
                  (with_reply reply replies)
                  (record s { reader = next })
          ]
            ≡ outcome tail s (elim fed [
              | none ↦ (false, replies, s.reader)
              | some (reply, next) ↦ feed_lines lines (with_reply reply replies) next
            ])
      after_line none again = refl
      after_line (some (reply, next)) again = again reply next

  -- What has come is lines that end with a line feed and the bytes behind the last of them. The session
  -- feeds the lines in their order and then runs the commands that they ended, in their order; the bytes
  -- behind the last line are never fed, and if there are any, two reads are asked for in place of one.
  -- After an error in a line nothing is answered, nor read again.
  pub handle_read-lines :
      (pack : RaftCommit → List ℕ) (id : ℕ) (lines : List (List ℕ)) (tail : List ℕ)
      (store : RedisStore) (s : RedisSession Reader)
      → AreUnbroken lines
      → IsUnbroken tail
      → s.quit ≡ false
      → handle_read h pack id (lines_text lines ++ tail) store s
        ≡ concluded pack id tail store s (feed_lines lines [] s.reader)
  unfolding handle_read
  handle_read-lines pack id lines tail store s a u active =
      rw
        (read_lines-outcome (length (lines_text lines ++ tail)) lines tail [] s a u (omega arith)
          active)
        (conclude (feed_lines lines [] s.reader))
    where
      conclude :
          (fed : Bool × List Reply × Reader)
          → (let (fine, replies, t) = outcome tail s fed in
              if fine
              then (on_replies pack id replies store t >>= λ p. ok (p.0, start p.1))
              else ok (store, t))
            ≡ concluded pack id tail store s fed
      conclude (true, replies, reader) = refl
      conclude (false, replies, reader) = refl
