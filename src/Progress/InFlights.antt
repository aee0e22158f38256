-- ===== src/Progress/InFlights.antt =====
-- InFlights of raft-kv/raft/progress.h and progress.cpp: the last indices of the messages in flight,
-- in a ring buffer that grows up to its size.
pub mod Ring
pub mod Free
use kvd.Base.{
  ℕ, zero, suc, ◌*◌, ◌%◌, Bool, List, [], ◌++◌, ltb, leb, ◌==◌, if◌then◌else◌, ◌||◌, length,
  get_elem?, set, take, replicate, ◌-◌, add32, sub32, u32_mod, Result, ok, err, fatal, undefined,
  ◌>>=◌, ◌>>◌, check, deref, not,
}

pub record InFlights : Type 0 where
  pub start : ℕ
  pub count : ℕ
  pub size : ℕ
  pub buffer : List ℕ

-- The constructor truncates the size to 32 bits.
unfoldable pub new : ℕ → InFlights
new max_inflight_msgs = record {
  start = 0;
  count = 0;
  size = max_inflight_msgs % u32_mod;
  buffer = [];
}

unfoldable pub reset : InFlights → InFlights
reset f = record f { start = 0; count = 0 }

unfoldable pub is_full : InFlights → Bool
is_full f = f.size == f.count

-- `v.resize(n)` of a vector of integers.
unfoldable pub resize : List ℕ → ℕ → List ℕ
resize xs n = take n xs ++ replicate (n - length xs) 0

-- `v[i] = x`, undefined past the end.
unfoldable pub assign : List ℕ → ℕ → ℕ → Result (List ℕ)
assign xs i x = if ltb i (length xs) then ok (set xs i x) else err undefined

-- The size that a full buffer grows to.
unfoldable pub new_size : InFlights → ℕ
new_size f =
    let doubled : ℕ = (length f.buffer * 2) % u32_mod in
    if doubled == 0 then 1 else if ltb f.size doubled then f.size else doubled

-- The index where the next message goes: the sum is that of two uint32_t.
unfoldable pub next_slot : InFlights → ℕ
next_slot f =
    let next : ℕ = add32 f.start f.count in if leb f.size next then next - f.size else next

unfoldable pub add : InFlights → ℕ → Result InFlights
unfolding is_full assign resize new_size next_slot
add f inflight = do
  check (not (is_full f)) fatal
  let grown : List ℕ =
      if leb (length f.buffer) (next_slot f) then resize f.buffer (new_size f) else f.buffer
  buffer ← assign grown (next_slot f) inflight
  ok (record f { buffer = buffer; count = add32 f.count 1 })

-- The loop of free_to with `left` rounds to go: the index where it stops, and the rounds made.
unfoldable pub free_loop : InFlights → ℕ → ℕ → ℕ → ℕ → Result (ℕ × ℕ)
free_loop f to zero idx i = ok (idx, i)
free_loop f to (suc left) idx i =
    let next : ℕ = let up : ℕ = add32 idx 1 in if leb f.size up then sub32 up f.size else up in
    let rest = free_loop f to left next (suc i) in
    deref (get_elem? f.buffer idx) >>= λ x. if ltb to x then ok (idx, i) else rest

unfoldable pub free_to : InFlights → ℕ → Result InFlights
free_to f to =
    if f.count == 0
    then ok f
    else (deref (get_elem? f.buffer f.start) >>= λ first.
        if ltb to first
        then ok f
        else (free_loop f to f.count f.start 0 >>= λ r.
            let left : ℕ = sub32 f.count r.1 in
            ok (record f { count = left; start = if left == 0 then 0 else r.0 })))

unfoldable pub free_first_one : InFlights → Result InFlights
free_first_one f = do first ← deref (get_elem? f.buffer f.start); free_to f first
