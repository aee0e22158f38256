-- ===== src/Progress/InFlights/Free.antt =====
-- free_to and free_first_one on the queue of the indices in flight.
use kvd.Base.{
  ℕ, zero, suc, ◌+◌, ◌-◌, ◌^◌, ◌≤◌, ◌<◌, ◌≡◌, ◌⊎◌, inl, inr, refl, ◌∙◌, List, [], ◌∷◌, arith,
  length, get_or, ltb, leb, ◌==◌, if◌then◌else◌, add32, sub32, add32-eq, sub32-eq, Returns,
  Returns-bind, Returns-mono, Bool-cases, get_elem?-eq-get_or, not-==_zero,
}
use kvd.Progress.InFlights.{InFlights, free_loop, free_to}
use kvd.Progress.InFlights.Ring.{IsValid, contents, window, wrap}

-- The list from its first entry past `to` on.
abbrev pub drop_through : ℕ → List ℕ → List ℕ
drop_through to [] = []
drop_through to (x ∷ xs) = if ltb to x then x ∷ xs else drop_through to xs

-- `n` slots from `h` on can be read.
abbrev Readable : InFlights → ℕ → ℕ → Type 0
Readable f h n = (h < f.size) × ((h + n ≤ length f.buffer) ⊎ (length f.buffer ≡ f.size))

-- Where the loop stops: `r.1` rounds counted from `i`, and what is left is the rest of the queue.
record Stops (f : InFlights) (to left idx i : ℕ) (r : ℕ × ℕ) : Type 0 where
  from : i ≤ r.1
  upto : r.1 ≤ i + left
  readable : Readable f r.0 (i + left - r.1)
  rest :
      window f.buffer f.size r.0 (i + left - r.1)
      ≡ drop_through to (window f.buffer f.size idx left)

free_loop-Stops :
    (f : InFlights) (to left idx i : ℕ)
    → f.size < 2 ^ 31
    → Readable f idx left
    → Returns (free_loop f to left idx i) (Stops f to left idx i)
unfolding free_loop
free_loop-Stops f to zero idx i s r =
    let none_left : i + 0 - i ≡ 0 = omega arith in
    record {
      from = omega arith;
      upto = omega arith;
      readable = rw none_left r;
      rest = rw none_left refl;
    }
free_loop-Stops f to (suc left) idx i s r =
    let up : add32 idx 1 ≡ idx + 1 = add32-eq idx 1 (omega (arith, r.0)) in
    rw (get_elem?-eq-get_or f.buffer idx 0 (omega (arith, r.0, r.1)), up)
      (elim (Bool-cases (ltb to (get_or f.buffer idx 0))) [
        | inl past ↦
            let all_left : i + suc left - i ≡ suc left = omega arith in
            rw past (record {
              from = omega arith;
              upto = omega arith;
              readable = rw all_left r;
              rest = rw (all_left, past) refl;
            })
        | inr free ↦ rw free (
            rw (next_lem idx r.0) (
              Returns-mono (Stops f to left (wrap f.size (idx + 1)) (suc i))
                (Stops f to (suc left) idx i) (free_loop f to left (wrap f.size (idx + 1)) (suc i))
                (free_loop-Stops f to left (wrap f.size (idx + 1)) (suc i) s
                  (ground (arith, r.0, r.1)))
                λ q p.
                  let same : suc i + left - q.1 ≡ i + suc left - q.1 = omega arith in
                  record {
                    from = omega (arith, p.from);
                    upto = omega (arith, p.upto);
                    readable = rw (← same) p.readable;
                    rest = rw (← same, free) p.rest;
                  }))
      ])
  where
    next_lem :
        (k : ℕ)
        → k < f.size
        → (if leb f.size (k + 1) then sub32 (k + 1) f.size else k + 1) ≡ wrap f.size (k + 1)
    next_lem k h = ground (arith, sub32-eq (k + 1) f.size)

-- free_to of a valid window never reads out of bounds, and takes exactly the indices up to `to` off
-- its front, up to the first later one. It keeps the window valid and its size.
pub free_to-contents :
    (f : InFlights) (to : ℕ)
    → IsValid f
    → Returns
        (free_to f to)
        λ g. IsValid g × (contents g ≡ drop_through to (contents f)) × (g.size ≡ f.size)
unfolding free_to
free_to-contents f to v = by_count f.count v
  where
    finish :
        (k idx : ℕ) (xs : List ℕ)
        → k ≤ f.size
        → Readable f idx k
        → window f.buffer f.size idx k ≡ xs
        → let h : InFlights = record f { count = k; start = if k == 0 then 0 else idx } in
          IsValid h × (contents h ≡ xs) × (f.size ≡ f.size)
    finish zero idx xs b r e = (
      record {
        small = v.small;
        start_in = omega (arith, v.start_in);
        count_in = omega arith;
        buffer_in = v.buffer_in;
        covered = inl (omega arith);
      },
      e,
      refl,
    )
    finish (suc k) idx xs b r e = rw (not-==_zero (suc k) (omega arith)) (
      record {
        small = v.small;
        start_in = r.0;
        count_in = b;
        buffer_in = v.buffer_in;
        covered = r.1;
      },
      e,
      refl,
    )

    after_loop :
        (m : ℕ) (r : ℕ × ℕ)
        → let g : InFlights = record f { count = suc m } in
          IsValid g
          → Stops g to (suc m) f.start 0 r
          → let left : ℕ = sub32 (suc m) r.1 in
            let h : InFlights = record f { count = left; start = if left == 0 then 0 else r.0 } in
            IsValid h × (contents h ≡ drop_through to (contents g)) × (f.size ≡ f.size)
    after_loop m r w p =
        let left : sub32 (suc m) r.1 ≡ 0 + suc m - r.1 =
          sub32-eq (suc m) r.1 (omega (arith, p.upto)) (omega (arith, w.small, w.count_in))
          ∙ omega arith in
        rw left (finish (0 + suc m - r.1) r.0 _ (omega (arith, w.count_in)) p.readable p.rest)

    by_count :
        (n : ℕ)
        → IsValid (record f { count = n })
        → Returns (free_to (record f { count = n }) to) λ g.
          IsValid g
          × (contents g ≡ drop_through to (contents (record f { count = n })))
          × (g.size ≡ f.size)
    by_count zero w = (w, refl, refl)
    by_count (suc m) w =
        rw
          (
            not-==_zero (suc m) (omega arith),
            get_elem?-eq-get_or f.buffer f.start 0 (omega (arith, w.start_in, w.covered)),
          )
          (elim (Bool-cases (ltb to (get_or f.buffer f.start 0))) [
            | inl past ↦ rw past (w, refl, refl)
            | inr free ↦ rw free (
                Returns-bind (Stops (record f { count = suc m }) to (suc m) f.start 0) _
                  (free_loop (record f { count = suc m }) to (suc m) f.start 0) _
                  (free_loop-Stops (record f { count = suc m }) to (suc m) f.start 0 w.small
                    (w.start_in, w.covered))
                  λ r p. rw free at (after_loop m r w p))
          ])
