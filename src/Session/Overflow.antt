-- ===== src/Session/Overflow.antt =====
-- redis_session.cpp: the name of an unknown command is printed into a buffer of 256 bytes.
use kvd.Base.{
  ℕ, ◌+◌, ◌<◌, ◌≤◌, ◌≡◌, ◌⊎◌, inl, inr, refl, ap, ◌∙◌, true, false, List, [], ◌∷◌, ◌++◌, ok, err,
  undefined, arith, ltb, ◌==◌, length, length-append, take, Result, ◌>>=◌,
}
use kvd.ReadOnly.{bytes_eq}
use kvd.Store.{RedisStore, RaftCommit}
use kvd.Session.{Element, Reply, RedisSession, send_printed, send_reply}
use kvd.Session.Replies.{codes, crlf, unknown_command, IsPrintable, c_str-all}
use kvd.Session.Commands.{is_command, run_command, on_redis_reply}

bytes_eq-longer : (xs ys : List ℕ) → length ys < length xs → bytes_eq xs ys ≡ false
unfolding bytes_eq
bytes_eq-longer [] ys h = absurd (omega arith)
bytes_eq-longer (x ∷ xs) [] h = refl
bytes_eq-longer (x ∷ xs) (y ∷ ys) h = ground (arith, bytes_eq-longer xs ys (omega arith))

is_command-longer :
    (lower upper name : List ℕ)
    → length lower < length name
    → length upper < length name
    → is_command lower upper name ≡ false
unfolding is_command
is_command-longer lower upper name h k =
    rw (bytes_eq-longer name lower h, bytes_eq-longer name upper k) refl

length-unknown_command :
    (name : List ℕ) → IsPrintable name → length (unknown_command name) ≡ length name + 25
unfolding unknown_command
length-unknown_command name p =
    rw (c_str-all name p) (omega (arith, length-append name (codes "`" ++ crlf)))

-- A reply that is an array with the name of a command in front.
abbrev pub named : List ℕ → List Element → Reply
named name rest = record {
  is_array = true;
  elements = record { is_string = true; str = name } ∷ rest;
}

-- The three ways in which a name goes into the buffer.
abbrev pub Answer :
    {Reader : Type 0}
    → List ℕ
    → RedisStore
    → RedisSession Reader
    → Result (RedisStore × RedisSession Reader)
    → Type 0
Answer name store s r =
    ((length name ≤ 230) × (r ≡ (send_reply (unknown_command name) s >>= λ t. ok (store, t))))
    ⊎ (((length name ≡ 231)
          × (r ≡ (
              send_reply (take 255 (unknown_command name) ++ (0 ∷ [])) s >>= λ t. ok (store, t))))
        ⊎ ((231 < length name) × (r ≡ err undefined)))

module _ {Reader : Type 0} (pack : RaftCommit → List ℕ) (id : ℕ) where
  unknown-run_command :
      (name : List ℕ) (elements : List Element) (store : RedisStore) (s : RedisSession Reader)
      → 4 < length name
      → run_command pack id name elements store s
        ≡ (send_printed (unknown_command name) s >>= λ t. ok (store, t))
  unfolding run_command
  unknown-run_command name elements store s h =
      rw
        (
          is_command-longer (codes "ping") (codes "PING") name h h,
          is_command-longer (codes "get") (codes "GET") name (omega arith) (omega arith),
          is_command-longer (codes "set") (codes "SET") name (omega arith) (omega arith),
          is_command-longer (codes "del") (codes "DEL") name (omega arith) (omega arith),
          is_command-longer (codes "keys") (codes "KEYS") name h h,
        )
        refl

  on_redis_reply-name :
      (name : List ℕ) (rest : List Element) (store : RedisStore) (s : RedisSession Reader)
      → 4 < length name
      → on_redis_reply pack id (named name rest) store s
        ≡ (send_printed (unknown_command name) s >>= λ t. ok (store, t))
  unfolding on_redis_reply
  on_redis_reply-name name rest store s h =
      unknown-run_command name (record { is_string = true; str = name } ∷ rest) store s h

  printed_fits :
      (text : List ℕ) (s : RedisSession Reader)
      → length text < 256
      → send_printed text s ≡ send_reply text s
  unfolding send_printed
  printed_fits text s h = let e : ltb (length text) 256 ≡ true = ground arith in rw e refl

  printed_cut :
      (text : List ℕ) (s : RedisSession Reader)
      → length text ≡ 256
      → send_printed text s ≡ send_reply (take 255 text ++ (0 ∷ [])) s
  unfolding send_printed
  printed_cut text s h = rw h refl

  printed_behind :
      (text : List ℕ) (s : RedisSession Reader)
      → 256 < length text
      → send_printed text s ≡ err undefined
  unfolding send_printed
  printed_behind text s h =
      let e : ltb (length text) 256 ≡ false = ground arith in
      let f : (length text == 256) ≡ false = ground arith in rw (e, f) refl

  -- A command whose name is longer than every known one and has no byte 0 is answered by the text that
  -- names it, if the name has at most 230 bytes. With 231 bytes the last byte of the text that is sent
  -- is 0; with more the session reads behind the end of the buffer that holds the text.
  pub on_redis_reply-unknown :
      (name : List ℕ) (rest : List Element) (store : RedisStore) (s : RedisSession Reader)
      → IsPrintable name
      → 4 < length name
      → Answer name store s (on_redis_reply pack id (named name rest) store s)
  on_redis_reply-unknown name rest store s p h =
      let n = length-unknown_command name p in
      let e = on_redis_reply-name name rest store s h in
      elim (Nat_cases (length name)) [
        | inl short ↦ inl (
          short,
          e
              ∙ ap (λ r. r >>= λ t. ok (store, t))
                  (printed_fits (unknown_command name) s (omega (arith, n))),
        )
        | inr (inl edge) ↦ inr (
            inl (
              edge,
              e
                  ∙ ap (λ r. r >>= λ t. ok (store, t))
                      (printed_cut (unknown_command name) s (omega (arith, n))),
            ))
        | inr (inr long) ↦ inr (
            inr (
              long,
              e
                  ∙ ap (λ r. r >>= λ t. ok (store, t))
                      (printed_behind (unknown_command name) s (omega (arith, n))),
            ))
      ]
    where
      Nat_cases : (n : ℕ) → (n ≤ 230) ⊎ ((n ≡ 231) ⊎ (231 < n))
      Nat_cases n = ground arith
