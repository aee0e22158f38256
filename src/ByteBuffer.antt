-- ===== src/ByteBuffer.antt =====
-- raft-kv/common/bytebuffer.h and bytebuffer.cpp: a buffer of bytes that is written at its end and read
-- from its front.
pub mod Queue
pub mod Reads
use kvd.Base.{
  ℕ, ◌+◌, ◌-◌, ◌*◌, ◌%◌, Bool, List, [], ◌++◌, ltb, leb, ◌==◌, if◌then◌else◌, length, take, drop,
  replicate, add32, sub32, u32_mod, Result, ok, err, assertion, undefined, ◌>>=◌, ◌>>◌, check,
}

pub record ByteBuffer : Type 0 where
  pub reader : ℕ
  pub writer : ℕ
  pub buff : List ℕ

abbrev pub min_buffering : ℕ
min_buffering = 4096

unfoldable pub new : ByteBuffer
new = record { reader = 0; writer = 0; buff = replicate min_buffering 0 }

-- `buff_.resize(n, 0)`
unfoldable pub resize_bytes : ℕ → List ℕ → List ℕ
resize_bytes n xs = take n xs ++ replicate (n - length xs) 0

-- `memcpy(buff_.data() + at, data, len)`, undefined past the end.
unfoldable pub copy_bytes : List ℕ → ℕ → List ℕ → Result (List ℕ)
copy_bytes buff at bytes =
    if ltb (length buff) (at + length bytes)
    then err undefined
    else ok (take at buff ++ (bytes ++ drop (at + length bytes) buff))

-- `left < len`: put resizes the vector, which moves its bytes, since a vector that only put has resized has
-- no room to spare.
abbrev pub grows : List ℕ → ByteBuffer → Bool
grows bytes b = ltb (sub32 (length b.buff % u32_mod) b.writer) (length bytes)

-- The length of the data is a uint32_t.
unfoldable pub put : List ℕ → ByteBuffer → Result ByteBuffer
put bytes b =
    let grown : List ℕ =
      if grows bytes b then resize_bytes (length b.buff * 2 + length bytes) b.buff else b.buff in
    copy_bytes grown b.writer bytes >>= λ buff.
    ok (record b { buff = buff; writer = add32 b.writer (length bytes) })

unfoldable pub readable : ByteBuffer → Bool
readable b = ltb b.reader b.writer

unfoldable pub readable_bytes : ByteBuffer → Result ℕ
readable_bytes b = check (leb b.reader b.writer) assertion >> ok (sub32 b.writer b.reader)

unfoldable pub slice : ByteBuffer → Result (List ℕ)
slice b = readable_bytes b >>= λ n. ok (take n (drop b.reader b.buff))

unfoldable pub may_shrink_to_fit : ByteBuffer → ByteBuffer
may_shrink_to_fit b = if b.reader == b.writer then record b { reader = 0; writer = 0 } else b

unfoldable pub read_bytes : ℕ → ByteBuffer → Result ByteBuffer
read_bytes bytes b = readable_bytes b >>= λ n.
    check (leb bytes n) assertion
    >> ok (may_shrink_to_fit (record b { reader = add32 b.reader bytes }))

unfoldable pub reset : ByteBuffer → ByteBuffer
reset b = record { reader = 0; writer = 0; buff = resize_bytes min_buffering b.buff }
