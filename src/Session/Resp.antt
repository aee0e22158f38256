-- ===== src/Session/Resp.antt =====
-- redis_session.cpp: what a client reads from the replies of get and keys, by the protocol of Redis.
pub mod Arrays
use kvd.Base.{
  ℕ, zero, suc, ◌+◌, ◌-◌, ◌*◌, ◌/◌, ◌%◌, ◌<◌, ◌≤◌, ◌≡◌, ◌^◌, refl, sym, ap, ◌∙◌, Bool, true, false,
  ◌&&◌, ◌||◌, List, [], ◌∷◌, ◌++◌, append_assoc, Option, none, some, arith, ltb, leb, ◌==◌,
  if◌then◌else◌, length, length-append, take, drop,
}
use kvd.ByteBuffer.Queue.{take-prefix}
use kvd.ByteBuffer.Reads.{drop-prefix}
use kvd.Session.Replies.{
  crlf, decimal, digits, c_str, bulk_text, element_text, element_texts, array_text, IsPrintable,
  c_str-all,
}

-- Behind a line break.
unfoldable pub read_crlf : List ℕ → Option (List ℕ)
read_crlf [] = none
read_crlf (c ∷ []) = none
read_crlf (c ∷ d ∷ bytes) = if c == 13 && d == 10 then some bytes else none

-- A number up to the end of its line, behind the digits that make `n`.
unfoldable pub read_number : List ℕ → ℕ → Option (ℕ × List ℕ)
read_number [] n = none
read_number (c ∷ bytes) n =
    let more = read_number bytes (n * 10 + (c - b'0')) in
    if leb b'0' c && leb c b'9'
    then more
    else elim (read_crlf (c ∷ bytes)) [ none ↦ none | some rest ↦ some (n, rest) ]

-- The bytes of a given number and a line break.
unfoldable pub read_text : ℕ → List ℕ → Option (List ℕ × List ℕ)
read_text n bytes =
    if leb n (length bytes)
    then (elim (read_crlf (drop n bytes)) [ none ↦ none | some rest ↦ some (take n bytes, rest) ])
    else none

-- A bulk string, and what stands behind it.
unfoldable pub read_bulk : List ℕ → Option (List ℕ × List ℕ)
read_bulk [] = none
read_bulk (c ∷ bytes) =
    if c == b'$'
    then (elim (read_number bytes 0) [ none ↦ none | some (n, rest) ↦ read_text n rest ])
    else none

unfoldable pub read_bulks : ℕ → List ℕ → Option (List (List ℕ) × List ℕ)
read_bulks zero bytes = some ([], bytes)
read_bulks (suc n) bytes = elim (read_bulk bytes) [
  | none ↦ none
  | some (str, rest) ↦ elim (read_bulks n rest) [
    | none ↦ none
    | some (strs, left) ↦ some (str ∷ strs, left)
  ]
]

-- An array of bulk strings, and what stands behind it.
unfoldable pub read_array : List ℕ → Option (List (List ℕ) × List ℕ)
read_array [] = none
read_array (c ∷ bytes) =
    if c == b'*'
    then (elim (read_number bytes 0) [ none ↦ none | some (n, rest) ↦ read_bulks n rest ])
    else none

abbrev pub tens : ℕ → ℕ
tens zero = 1
tens (suc k) = tens k * 10

read_number-digit :
    (n : ℕ) (bytes : List ℕ) → read_number ((b'0' + n % 10) ∷ bytes) (n / 10) ≡ read_number bytes n
unfolding read_number
read_number-digit n bytes =
    let low : leb b'0' (b'0' + n % 10) ≡ true = ground arith in
    let high : leb (b'0' + n % 10) b'9' ≡ true = ground arith in
    let whole : n / 10 * 10 + (b'0' + n % 10 - b'0') ≡ n = omega arith in rw (low, high, whole) refl

read_number-digits :
    (fuel n : ℕ) (out bytes : List ℕ)
    → n < tens fuel
    → read_number (digits fuel n out ++ bytes) 0 ≡ read_number (out ++ bytes) n
unfolding digits
read_number-digits zero n out bytes h = let e : n ≡ 0 = omega arith in rw e refl
read_number-digits (suc fuel) zero out bytes h = refl
read_number-digits (suc fuel) (suc n) out bytes h =
    let some_left : ltb 0 (suc n) ≡ true = ground arith in
    rw some_left (
      read_number-digits fuel (suc n / 10) ((b'0' + suc n % 10) ∷ out) bytes (omega arith)
      ∙ read_number-digit (suc n) (out ++ bytes))

-- A uint64_t is read back from its digits.
pub read_number-decimal :
    (n : ℕ) (bytes : List ℕ)
    → n < 2 ^ 64
    → read_number (decimal n ++ (crlf ++ bytes)) 0 ≡ some (n, bytes)
unfolding decimal read_number read_crlf
read_number-decimal zero bytes h = refl
read_number-decimal (suc n) bytes h =
    let some_left : (suc n == 0) ≡ false = ground arith in
    rw some_left (read_number-digits 20 (suc n) [] (crlf ++ bytes) (omega arith))

leb-prefix : (xs ys : List ℕ) → leb (length xs) (length (xs ++ ys)) ≡ true
leb-prefix xs ys = ground (arith, length-append xs ys)

read_text-line :
    (str bytes : List ℕ) → read_text (length str) (str ++ (crlf ++ bytes)) ≡ some (str, bytes)
unfolding read_text read_crlf
read_text-line str bytes =
    rw
      (
        leb-prefix str (crlf ++ bytes),
        drop-prefix str (crlf ++ bytes),
        take-prefix str (crlf ++ bytes),
      )
      refl

-- A length and as many bytes, each with a line break.
pub read_bulk-text :
    (str bytes : List ℕ)
    → length str < 2 ^ 64
    → read_bulk (b'$' ∷ (decimal (length str) ++ (crlf ++ (str ++ (crlf ++ bytes)))))
      ≡ some (str, bytes)
unfolding read_bulk
read_bulk-text str bytes h =
    rw (read_number-decimal (length str) (str ++ (crlf ++ bytes)) h) (read_text-line str bytes)

-- The reply of get to a value with no byte 0 is read as the value, whatever stands behind it.
pub read_bulk-bulk_text :
    (value bytes : List ℕ)
    → IsPrintable value
    → length value < 2 ^ 64
    → read_bulk (bulk_text value ++ bytes) ≡ some (value, bytes)
unfolding bulk_text
read_bulk-bulk_text value bytes p h =
    rw (c_str-all value p)
      (ap read_bulk (moved (decimal (length value)) value) ∙ read_bulk-text value bytes h)
  where
    moved :
        (number str : List ℕ)
        → (b'$' ∷ (number ++ (crlf ++ (str ++ crlf)))) ++ bytes
          ≡ b'$' ∷ (number ++ (crlf ++ (str ++ (crlf ++ bytes))))
    moved number str = simp append_assoc refl
