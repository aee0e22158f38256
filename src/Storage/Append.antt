-- ===== src/Storage/Append.antt =====
-- storage.cpp: append as a splice of the log.
use kvd.Base.{
  ℕ, zero, suc, ◌+◌, ◌-◌, ◌≤◌, ◌<◌, ◌≡◌, refl, sym, ◌∙◌, ap, subst, true, List, [], ◌∷◌, ◌++◌,
  arith, length, get_elem?, take, drop, ltb, ◌==◌, if◌then◌else◌, u64_mod, inl, inr, Bool-cases, ok,
  err, fatal, add64, sub64, sub64-eq, sub64-add64_one, not-ltb, erase_front, Returns, Returns-mono,
  take-all, length-take, length-append, length-drop, get_elem?-take, get_elem?-drop,
  get_elem?-append_left, get_elem?-append_right,
}
use kvd.Proto.{Entry, okay}
use kvd.Storage.{MemoryStorage, append, append_new}
use kvd.Storage.View.{IsValid, offset, offset_of, entry_at, dummy_index-ok, indices_lem}
use kvd.Unstable.Entries.{Contiguous, Contiguous-append, Contiguous-take, Contiguous-drop}

-- The storage with its log from position `n` on replaced by `xs`; the dummy stays where it is.
abbrev pub Splices : MemoryStorage → ℕ → List Entry → MemoryStorage → Type 0
Splices st n xs w =
    IsValid w
    × (offset w ≡ offset st)
    × ((i : ℕ) → entry_at w i ≡ (if ltb i n then entry_at st i else get_elem? xs (i - n)))

offset_of-take :
    (k : ℕ) (xs ys : List Entry)
    → 0 < k
    → 0 < length xs
    → offset_of (take k xs ++ ys) ≡ offset_of xs
offset_of-take zero xs ys h p = absurd (omega arith)
offset_of-take (suc k) [] ys h p = absurd (omega arith)
offset_of-take (suc k) (x ∷ xs) ys h p = refl

module _ (st : MemoryStorage) (v : IsValid st) (n : ℕ) (xs : List Entry) (c : Contiguous n xs)
    (b : n + length xs < u64_mod) (after : offset st < n)
    (no_gap : n ≤ offset st + length st.entries) where
  kept : List Entry
  kept = take (n - offset st) st.entries

  length-kept : length kept ≡ n - offset st
  unfolding kept
  length-kept = omega (arith, length-take (n - offset st) st.entries)

  keep_lem : Splices st n xs (record st { entries = take (n - offset st) st.entries ++ xs })
  unfolding entry_at kept
  keep_lem =
      let same : offset_of (take (n - offset st) st.entries ++ xs) ≡ offset st =
        offset_of-take (n - offset st) st.entries xs (omega arith) v.nonempty in
      (
        record {
          nonempty = omega (arith, length-kept, length-append (take (n - offset st) st.entries) xs);
          contiguous = rw same (
              Contiguous-append (offset st) n _ xs (omega (arith, length-kept))
                (Contiguous-take (offset st) (n - offset st) st.entries v.contiguous) c);
          bounded =
              omega (arith, same, length-kept, length-append (take (n - offset st) st.entries) xs);
        },
        same,
        λ i. rw same (
            ground (
              arith,
              length-kept,
              get_elem?-append_left (take (n - offset st) st.entries) xs (i - offset st),
              get_elem?-append_right (take (n - offset st) st.entries) xs (i - offset st),
              get_elem?-take (n - offset st) (i - offset st) st.entries,
              ap (get_elem? xs) (reindex i),
            )),
      )
    where
      reindex : (i : ℕ) → i - offset st - (n - offset st) ≡ i - n
      reindex i = omega arith

-- The entries at or past first_index replace the log from the first of them on.
append_new-Splices :
    (st : MemoryStorage) (e : Entry) (es : List Entry)
    → IsValid st
    → Contiguous e.index (e ∷ es)
    → e.index + length (e ∷ es) < u64_mod
    → offset st < e.index
    → e.index ≤ offset st + length st.entries
    → Returns (append_new st (e ∷ es)) (λ r. (r.0 ≡ okay) × Splices st e.index (e ∷ es) r.1)
unfolding append_new
append_new-Splices st e es v c b after no_gap =
    rw (dummy_index-ok st v, sub64-eq e.index (offset st) (omega arith) (omega arith))
      (elim (Bool-cases (ltb (e.index - offset st) (length st.entries))) [
        | inl inside ↦ rw inside (refl, keep_lem st v e.index (e ∷ es) c b after no_gap)
        | inr outside ↦
            let at_end : (length st.entries == e.index - offset st) ≡ true = ground arith in
            rw (outside, at_end)
              (
                refl,
                subst (λ ys. Splices st e.index (e ∷ es) (record st { entries = ys ++ (e ∷ es) }))
                    (take-all (e.index - offset st) st.entries (ground arith))
                    (keep_lem st v e.index (e ∷ es) c b after no_gap),
              )
      ])

-- The storage with the entries `xs`, which start at `n`, written over its log; those that are
-- compacted already are left out.
abbrev pub Writes : MemoryStorage → ℕ → List Entry → MemoryStorage → Type 0
Writes st n xs w =
    IsValid w
    × (offset w ≡ offset st)
    × ((i : ℕ)
        → offset st < i
        → entry_at w i ≡ (if ltb i n then entry_at st i else get_elem? xs (i - n)))

module _ (st : MemoryStorage) (v : IsValid st) (e : Entry) (es : List Entry)
    (c : Contiguous e.index (e ∷ es)) (b : e.index + length (e ∷ es) < u64_mod) where
  trimmed_lem :
      (n : ℕ) (k : ℕ) (ys : List Entry)
      → n ≡ offset st + 1
      → e.index + k ≡ n
      → ys ≡ drop k (e ∷ es)
      → n < e.index + length (e ∷ es)
      → Returns (append_new st ys) (λ r. (r.0 ≡ okay) × Writes st e.index (e ∷ es) r.1)
  trimmed_lem n k [] en ek ey h = absurd (omega (arith, ap length ey, length-drop k (e ∷ es)))
  trimmed_lem n k (y ∷ ys) en ek ey h =
      let cy : Contiguous n (y ∷ ys) =
        subst (Contiguous n) (sym ey) (Contiguous-drop e.index n k (e ∷ es) (omega arith) c) in
      let ly : length (y ∷ ys) ≡ length (e ∷ es) - k = ap length ey ∙ length-drop k (e ∷ es) in
      Returns-mono _ _ (append_new st (y ∷ ys))
        (append_new-Splices st y ys v (cy_at cy) (omega (arith, ly)) (omega arith) (omega arith))
        λ r p. (p.0, (p.1.0, p.1.1, λ i lt. p.1.2 i ∙ agree i cy.0 lt))
    where
      cy_at : Contiguous n (y ∷ ys) → Contiguous y.index (y ∷ ys)
      cy_at q = (refl, subst (λ m. Contiguous (suc m) ys) (sym q.0) q.1)

      at_y : (i : ℕ) → offset st < i → get_elem? (y ∷ ys) (i - n) ≡ get_elem? (e ∷ es) (i - e.index)
      at_y i lt =
          let position : k + (i - n) ≡ i - e.index = omega arith in
          ap (λ zs. get_elem? zs (i - n)) ey
          ∙ get_elem?-drop k (i - n) (e ∷ es)
          ∙ ap (get_elem? (e ∷ es)) position

      agree :
          (i : ℕ)
          → y.index ≡ n
          → offset st < i
          → (if ltb i y.index then entry_at st i else get_elem? (y ∷ ys) (i - y.index))
            ≡ (if ltb i e.index then entry_at st i else get_elem? (e ∷ es) (i - e.index))
      agree i q lt = rw q (ground (arith, at_y i lt))

-- append of entries that leave no gap, those that are all compacted and the others.
append_cases :
    (st : MemoryStorage) (e : Entry) (es : List Entry)
    → IsValid st
    → Contiguous e.index (e ∷ es)
    → e.index + length (e ∷ es) < u64_mod
    → e.index ≤ offset st + length st.entries
    → (e.index + length (e ∷ es) ≤ offset st + 1 → append st (e ∷ es) ≡ ok (okay, st))
      × (offset st + 1 < e.index + length (e ∷ es)
          → Returns (append st (e ∷ es)) (λ r. (r.0 ≡ okay) × Writes st e.index (e ∷ es) r.1))
unfolding append erase_front
append_cases st e es v c b no_gap = (
  λ h. rw ((indices_lem st v).0, last) (ground arith),
  λ h.
      rw
        (
          (indices_lem st v).0,
          last,
          not-ltb (e.index + length (e ∷ es) - 1) (offset st + 1) (omega arith),
        )
        (elim (Bool-cases (ltb e.index (offset st + 1))) [
          | inl old ↦
              rw (old, erased (ground arith) h)
                (trimmed_lem st v e es c b (offset st + 1) trim (drop trim (e ∷ es)) refl
                  (ground arith) refl h)
          | inr new ↦ rw new (
              Returns-mono _ _ (append_new st (e ∷ es))
                (append_new-Splices st e es v c b (ground arith) no_gap)
                λ r p. (p.0, (p.1.0, p.1.1, λ i lt. p.1.2 i)))
        ]),
)
  where
    last : sub64 (add64 e.index (length (e ∷ es))) 1 ≡ e.index + length (e ∷ es) - 1
    last = sub64-add64_one e.index (length (e ∷ es)) (omega arith) b

    trim : ℕ
    trim = offset st + 1 - e.index

    erased :
        e.index < offset st + 1
        → offset st + 1 < e.index + length (e ∷ es)
        → erase_front (sub64 (offset st + 1) e.index) (e ∷ es) ≡ ok (drop trim (e ∷ es))
    erased old h = rw (sub64-eq (offset st + 1) e.index (omega arith) (omega arith)) (ground arith)

-- append of entries that leave no gap and are not all compacted never fails. The log past the dummy is
-- then as before up to the first new entry, holds the new entries from there on and nothing after
-- them; the dummy stays.
pub append-Writes :
    (st : MemoryStorage) (e : Entry) (es : List Entry)
    → IsValid st
    → Contiguous e.index (e ∷ es)
    → e.index + length (e ∷ es) < u64_mod
    → e.index ≤ offset st + length st.entries
    → offset st + 1 < e.index + length (e ∷ es)
    → Returns (append st (e ∷ es)) (λ r. (r.0 ≡ okay) × Writes st e.index (e ∷ es) r.1)
append-Writes st e es v c b no_gap h = (append_cases st e es v c b no_gap).1 h

-- append of entries that are all compacted already changes nothing.
pub append-compacted :
    (st : MemoryStorage) (e : Entry) (es : List Entry)
    → IsValid st
    → Contiguous e.index (e ∷ es)
    → e.index + length (e ∷ es) < u64_mod
    → e.index ≤ offset st + length st.entries
    → e.index + length (e ∷ es) ≤ offset st + 1
    → append st (e ∷ es) ≡ ok (okay, st)
append-compacted st e es v c b no_gap h = (append_cases st e es v c b no_gap).0 h

-- A gap after the last entry is the fatal error.
pub append-gap :
    (st : MemoryStorage) (e : Entry) (es : List Entry)
    → IsValid st
    → e.index + length (e ∷ es) < u64_mod
    → offset st + length st.entries < e.index
    → append st (e ∷ es) ≡ err fatal
unfolding append append_new
append-gap st e es v b gap =
    rw ((indices_lem st v).0, dummy_index-ok st v)
      (ground (
        arith,
        sub64-add64_one e.index (length (e ∷ es)) (omega arith) b,
        sub64-eq e.index (offset st) (omega arith) (omega arith),
      ))
