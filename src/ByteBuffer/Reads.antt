-- ===== src/ByteBuffer/Reads.antt =====
-- bytebuffer.h: what is seen of the buffer's queue of bytes without taking it.
use kvd.Base.{
  ℕ, zero, suc, ◌+◌, ◌-◌, ◌*◌, ◌≤◌, ◌<◌, ◌≡◌, Returns-value, refl, sym, ap, ◌∙◌, inl, inr, true,
  false, Bool-cases, ◌||◌, List, [], ◌∷◌, ◌++◌, ok, arith, ltb, length, take, drop, le→leb,
  sub32-eq, length-replicate, take-all, u32_mod,
}
use kvd.ByteBuffer.{
  ByteBuffer, new, readable, readable_bytes, slice, min_buffering, read_bytes, put, grows,
}
use kvd.ByteBuffer.Queue.{
  IsValid, contents, length-contents, put-contents, put-place, grows-eq, grown_buffer,
  read_bytes-contents,
}

drop-take : (m n : ℕ) (xs : List ℕ) → m ≤ n → take (n - m) (drop m xs) ≡ drop m (take n xs)
drop-take zero n xs h = let e : n - 0 ≡ n = omega arith in ap (λ k. take k xs) e
drop-take (suc m) zero xs h = absurd (omega arith)
drop-take (suc m) (suc n) [] h = take-all (suc n - suc m) [] (omega arith)
drop-take (suc m) (suc n) (x ∷ xs) h =
    let e : suc n - suc m ≡ n - m = omega arith in
    ap (λ k. take k (drop m xs)) e ∙ drop-take m n xs (omega arith)

pub readable_bytes-contents :
    (b : ByteBuffer) → IsValid b → readable_bytes b ≡ ok (length (contents b))
unfolding readable_bytes
readable_bytes-contents b v =
    rw
      (
        le→leb b.reader b.writer v.ordered,
        sub32-eq b.writer b.reader v.ordered (omega (arith, v.within, v.small)),
      )
      (ap ok (sym (length-contents b v)))

pub readable-contents : (b : ByteBuffer) → IsValid b → readable b ≡ ltb 0 (length (contents b))
unfolding readable
readable-contents b v = rw (length-contents b v) (ground (arith, v.ordered))

pub slice-contents : (b : ByteBuffer) → IsValid b → slice b ≡ ok (contents b)
unfolding slice
slice-contents b v = rw (readable_bytes-contents b v) (
    ap ok (
      ap (λ n. take n (drop b.reader b.buff)) (length-contents b v)
      ∙ drop-take b.reader b.writer b.buff v.ordered))

pub new-IsValid : IsValid new
unfolding new
new-IsValid = record {
  ordered = omega arith;
  within = omega arith;
  small = omega (arith, length-replicate min_buffering (◌+◌ 0 0));
}

pub drop-prefix : (xs ys : List ℕ) → drop (length xs) (xs ++ ys) ≡ ys
drop-prefix [] ys = refl
drop-prefix (x ∷ xs) ys = drop-prefix xs ys

pub placed :
    (b c : ByteBuffer) (bytes : List ℕ)
    → IsValid b
    → length b.buff * 2 + length bytes < u32_mod
    → put bytes b ≡ ok c
    → (c.writer ≡ b.writer + length bytes) × (length c.buff ≡ length (grown_buffer b bytes))
placed b c bytes v h e = rw e at (put-place b bytes v h)

-- Two pieces of data are put one after the other: whether one of them makes the buffer grow.
pub grows-twice :
    (b c : ByteBuffer) (first second : List ℕ)
    → IsValid b
    → IsValid c
    → length b.buff * 2 + length first < u32_mod
    → put first b ≡ ok c
    → (grows first b || grows second c)
      ≡ ltb (length b.buff) (b.writer + length first + length second)
grows-twice b c first second v w h e =
    let (at, size) = placed b c first v h e in
    rw (grows-eq c second w) (elim (Bool-cases (grows first b)) [
      | inl grown ↦
          let full : ltb (length b.buff - b.writer) (length first) ≡ true =
            sym (grows-eq b first v) ∙ grown in
          rw grown (ground (arith, full, v.within))
      | inr room ↦
          let enough : ltb (length b.buff - b.writer) (length first) ≡ false =
            sym (grows-eq b first v) ∙ room in
          let same : length c.buff ≡ length b.buff = rw room at size in
          rw (room, at, same) (ground (arith, enough, v.within))
    ])

-- What the calls on the buffer end in.
pub took :
    (b : ByteBuffer) (n : ℕ)
    → IsValid b
    → n ≤ length (contents b)
    → (c : ByteBuffer) × (read_bytes n b ≡ ok c) × IsValid c × (contents c ≡ drop n (contents b))
took b n v h =
    let (c, e, k) = Returns-value _ (read_bytes n b) (read_bytes-contents b n v h) in
    (c, e, k.0, k.1)

pub added :
    (b : ByteBuffer) (bytes : List ℕ)
    → IsValid b
    → length b.buff * 2 + length bytes < u32_mod
    → (c : ByteBuffer) × (put bytes b ≡ ok c)
      × IsValid c
      × (contents c ≡ contents b ++ bytes)
      × (length c.buff ≤ length b.buff * 2 + length bytes)
added b bytes v h =
    let (c, e, k) = Returns-value _ (put bytes b) (put-contents b bytes v h) in
    (c, e, k.0, k.1, k.2)
