-- ===== src/ByteBuffer/Queue.antt =====
-- The byte buffer as the queue of the bytes that were written and not yet read.
use kvd.Base.{
  ℕ, zero, suc, ◌+◌, ◌-◌, ◌*◌, ◌%◌, ◌≤◌, ◌<◌, ◌≡◌, refl, sym, ap, ◌∙◌, inl, inr, List, [], ◌∷◌,
  ◌++◌, length, take, drop, replicate, arith, ltb, ◌==◌, if◌then◌else◌, Bool-cases, length-append,
  length-take, length-drop, length-replicate, take-all, ◌>>=◌, drop-all, u32_mod, add32, add32-eq,
  sub32, sub32-eq, ok, Returns, not-ltb, le→leb,
}
use kvd.ByteBuffer.{
  ByteBuffer, put, grows, read_bytes, readable_bytes, resize_bytes, copy_bytes, may_shrink_to_fit,
}

pub record IsValid (b : ByteBuffer) : Type 0 where
  pub ordered : b.reader ≤ b.writer
  pub within : b.writer ≤ length b.buff
  pub small : length b.buff < u32_mod

abbrev pub contents : ByteBuffer → List ℕ
contents b = drop b.reader (take b.writer b.buff)

pub take-append : (xs ys : List ℕ) (n : ℕ) → take (length xs + n) (xs ++ ys) ≡ xs ++ take n ys
take-append [] ys n = let e : 0 + n ≡ n = omega arith in ap (λ k. take k ys) e
take-append (x ∷ xs) ys n =
    let e : suc (length xs) + n ≡ suc (length xs + n) = omega arith in
    ap (λ k. take k (x ∷ (xs ++ ys))) e ∙ ap (◌∷◌ x) (take-append xs ys n)

pub take-prefix : (xs ys : List ℕ) → take (length xs) (xs ++ ys) ≡ xs
take-prefix [] ys = refl
take-prefix (x ∷ xs) ys = ap (◌∷◌ x) (take-prefix xs ys)

drop-append : (n : ℕ) (xs ys : List ℕ) → n ≤ length xs → drop n (xs ++ ys) ≡ drop n xs ++ ys
drop-append zero xs ys h = refl
drop-append (suc n) [] ys h = absurd (omega (arith, h))
drop-append (suc n) (x ∷ xs) ys h = drop-append n xs ys (omega (arith, h))

take-append_left : (n : ℕ) (xs ys : List ℕ) → n ≤ length xs → take n (xs ++ ys) ≡ take n xs
take-append_left zero xs ys h = refl
take-append_left (suc n) [] ys h = absurd (omega (arith, h))
take-append_left (suc n) (x ∷ xs) ys h = ap (◌∷◌ x) (take-append_left n xs ys (omega (arith, h)))

drop-drop : (m n : ℕ) (xs : List ℕ) → drop n (drop m xs) ≡ drop (m + n) xs
drop-drop zero n xs = let e : n ≡ 0 + n = omega arith in ap (λ k. drop k xs) e
drop-drop (suc m) n [] = drop-all n [] (omega arith) ∙ sym (drop-all (suc m + n) [] (omega arith))
drop-drop (suc m) n (x ∷ xs) =
    let e : suc (m + n) ≡ suc m + n = omega arith in drop-drop m n xs ∙ ap (λ k. drop k (x ∷ xs)) e

pub length-contents : (b : ByteBuffer) → IsValid b → length (contents b) ≡ b.writer - b.reader
length-contents b v =
    omega (arith, length-drop b.reader (take b.writer b.buff), length-take b.writer b.buff, v)

-- The bytes up to the writer after data was copied behind them.
copied :
    (grown bytes : List ℕ) (w : ℕ)
    → w ≤ length grown
    → take (w + length bytes) (take w grown ++ (bytes ++ drop (w + length bytes) grown))
      ≡ take w grown ++ bytes
copied grown bytes w h =
    ap (λ k. take (k + length bytes) (take w grown ++ (bytes ++ drop (w + length bytes) grown)))
      front
    ∙ take-append (take w grown) (bytes ++ drop (w + length bytes) grown) (length bytes)
    ∙ ap (◌++◌ (take w grown)) (take-prefix bytes (drop (w + length bytes) grown))
  where
    front : w ≡ length (take w grown)
    front = omega (arith, length-take w grown, h)

copied-length :
    (grown bytes : List ℕ) (w : ℕ)
    → w + length bytes ≤ length grown
    → length (take w grown ++ (bytes ++ drop (w + length bytes) grown)) ≡ length grown
copied-length grown bytes w h = omega (
  arith,
  h,
  length-append (take w grown) (bytes ++ drop (w + length bytes) grown),
  length-append bytes (drop (w + length bytes) grown),
  length-take w grown,
  length-drop (w + length bytes) grown,
)

-- The buffer that put copies into: it has room, and its start is that of the old one.
abbrev pub grown_buffer : ByteBuffer → List ℕ → List ℕ
grown_buffer b bytes =
    if ltb (sub32 (length b.buff % u32_mod) b.writer) (length bytes)
    then resize_bytes (length b.buff * 2 + length bytes) b.buff
    else b.buff

module _ (b : ByteBuffer) (bytes : List ℕ) (v : IsValid b)
    (fits : length b.buff * 2 + length bytes < u32_mod) where
  resize-eq :
      resize_bytes (length b.buff * 2 + length bytes) b.buff
      ≡ b.buff ++ replicate (length b.buff * 2 + length bytes - length b.buff) 0
  unfolding resize_bytes
  resize-eq = rw (take-all (length b.buff * 2 + length bytes) b.buff (omega arith)) refl

  resized-length :
      length (resize_bytes (length b.buff * 2 + length bytes) b.buff)
      ≡ length b.buff * 2 + length bytes
  resized-length = omega (
    arith,
    ap length resize-eq,
    length-append b.buff (replicate (length b.buff * 2 + length bytes - length b.buff) 0),
    length-replicate {A = ℕ} (length b.buff * 2 + length bytes - length b.buff) 0,
  )

  room : sub32 (length b.buff % u32_mod) b.writer ≡ length b.buff - b.writer
  unfolding sub32
  room = omega (arith, v.small, v.within)

  grown-length :
      (b.writer + length bytes ≤ length (grown_buffer b bytes))
      × (length (grown_buffer b bytes) < u32_mod)
      × (length (grown_buffer b bytes) ≤ length b.buff * 2 + length bytes)
  grown-length = elim (Bool-cases (ltb (length b.buff - b.writer) (length bytes))) [
    | inl full ↦ rw (room, full) (omega (arith, resized-length, v.within, fits))
    | inr enough ↦ rw (room, enough) (ground (arith, enough, v.within, v.small))
  ]

  grown-start : take b.writer (grown_buffer b bytes) ≡ take b.writer b.buff
  grown-start = elim (Bool-cases (ltb (length b.buff - b.writer) (length bytes))) [
    | inl full ↦ rw (room, full) (rw resize-eq (take-append_left b.writer b.buff _ v.within))
    | inr enough ↦ rw (room, enough) refl
  ]

  -- put into a buffer that has room.
  put_into :
      (grown : List ℕ)
      → b.writer + length bytes ≤ length grown
      → length grown < u32_mod
      → length grown ≤ length b.buff * 2 + length bytes
      → take b.writer grown ≡ take b.writer b.buff
      → Returns
          (copy_bytes grown b.writer bytes >>= λ buff.
            ok (record b { buff = buff; writer = add32 b.writer (length bytes) }))
          λ c.
            IsValid c
            × (contents c ≡ contents b ++ bytes)
            × (length c.buff ≤ length b.buff * 2 + length bytes)
  unfolding copy_bytes
  put_into grown fit less most start =
      rw
        (
          not-ltb (length grown) (b.writer + length bytes) fit,
          add32-eq b.writer (length bytes) (omega (arith, fit, less)),
        )
        (
          record {
            ordered = omega (arith, v.ordered);
            within = omega (arith, fit, same);
            small = omega (arith, less, same);
          },
          ap (drop b.reader) (copied grown bytes b.writer (omega (arith, fit)))
              ∙ drop-append b.reader (take b.writer grown) bytes
                  (omega (arith, length-take b.writer grown, fit, v.ordered))
              ∙ ap (λ xs. drop b.reader xs ++ bytes) start,
          omega (arith, same, most),
        )
    where
      same :
          length (take b.writer grown ++ (bytes ++ drop (b.writer + length bytes) grown))
          ≡ length grown
      same = copied-length grown bytes b.writer fit

-- put adds the data at the end of the queue, whatever room the buffer has; twice the size of the buffer
-- and the data must fit a uint32_t, and the buffer is no larger than that afterwards.
pub put-contents :
    (b : ByteBuffer) (bytes : List ℕ)
    → IsValid b
    → length b.buff * 2 + length bytes < u32_mod
    → Returns (put bytes b) λ c.
      IsValid c
      × (contents c ≡ contents b ++ bytes)
      × (length c.buff ≤ length b.buff * 2 + length bytes)
unfolding put
put-contents b bytes v fits =
    put_into b bytes v fits (grown_buffer b bytes) (grown-length b bytes v fits).0
      (grown-length b bytes v fits).1 (grown-length b bytes v fits).2 (grown-start b bytes v fits)

-- Where put leaves the buffer.
pub put-place :
    (b : ByteBuffer) (bytes : List ℕ)
    → IsValid b
    → length b.buff * 2 + length bytes < u32_mod
    → Returns
        (put bytes b)
        λ c. (c.writer ≡ b.writer + length bytes) × (length c.buff ≡ length (grown_buffer b bytes))
unfolding put copy_bytes
put-place b bytes v fits =
    let (fit, less, most) = grown-length b bytes v fits in
    rw
      (
        not-ltb (length (grown_buffer b bytes)) (b.writer + length bytes) fit,
        add32-eq b.writer (length bytes) (omega (arith, fit, less)),
      )
      (refl, copied-length (grown_buffer b bytes) bytes b.writer fit)

pub grows-eq :
    (b : ByteBuffer) (bytes : List ℕ)
    → IsValid b
    → grows bytes b ≡ ltb (length b.buff - b.writer) (length bytes)
unfolding sub32
grows-eq b bytes v = ap (λ n. ltb n (length bytes)) (omega (arith, v.small, v.within))

-- read_bytes takes bytes off the front of the queue.
pub read_bytes-contents :
    (b : ByteBuffer) (n : ℕ)
    → IsValid b
    → n ≤ length (contents b)
    → Returns (read_bytes n b) λ c. IsValid c × (contents c ≡ drop n (contents b))
unfolding read_bytes readable_bytes may_shrink_to_fit
read_bytes-contents b n v h =
    let fits : n ≤ b.writer - b.reader = omega (arith, h, length-contents b v) in
    rw
      (
        le→leb b.reader b.writer v.ordered,
        sub32-eq b.writer b.reader v.ordered (omega (arith, v.within, v.small)),
        le→leb n (b.writer - b.reader) fits,
        add32-eq b.reader n (omega (arith, fits, v.within, v.small, v.ordered)),
      )
      (elim (Bool-cases (b.reader + n == b.writer)) [
        | inl empty ↦ rw empty (
          record { ordered = omega arith; within = omega arith; small = v.small },
          sym (drop-all n (contents b) (ground (arith, empty, length-contents b v))),
        )
        | inr rest ↦ rw rest (
          record { ordered = omega (arith, fits, v.ordered); within = v.within; small = v.small },
          sym (drop-drop b.reader n (take b.writer b.buff)),
        )
      ])
