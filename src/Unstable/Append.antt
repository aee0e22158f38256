-- ===== src/Unstable/Append.antt =====
-- unstable.cpp: truncate_and_append as a splice of the view.
use kvd.Base.{
  ℕ, min, ◌+◌, ◌-◌, ◌≤◌, ◌<◌, ◌≡◌, refl, ap, subst, List, ◌∷◌, ◌++◌, arith, length, get_elem?, take,
  drop, ltb, leb, ◌==◌, if◌then◌else◌, add64, u64_mod, ok, err, fatal, Returns, Bool-cases, inl,
  inr, take-all, get_elem?-take, length-take, length-append, get_elem?-append_left,
  get_elem?-append_right,
}
use kvd.Proto.{Entry}
use kvd.Unstable.{Unstable, slice, truncate_and_append}
use kvd.Unstable.Entries.{Contiguous, Contiguous-take, Contiguous-append}
use kvd.Unstable.View.{IsValid, SnapshotBefore, entry_at}

-- The unstable part `u` with its entries from position `n` on replaced by `xs`.
abbrev pub Splices : Unstable → ℕ → List Entry → Unstable → Type 0
Splices u n xs w =
    IsValid w
    × (w.snapshot ≡ u.snapshot)
    × (w.offset ≡ min u.offset n)
    × (w.offset + length w.entries ≡ n + length xs)
    × ((i : ℕ) → entry_at w i ≡ (if ltb i n then entry_at u i else get_elem? xs (i - n)))

module _ (u : Unstable) (v : IsValid u) (n : ℕ) (xs : List Entry) (c : Contiguous n xs)
    (b : n + length xs < u64_mod) where
  -- The first entries are kept, up to position `n`.
  keep_lem :
      u.offset ≤ n
      → n ≤ u.offset + length u.entries
      → Splices u n xs (record u { entries = take (n - u.offset) u.entries ++ xs })
  unfolding entry_at
  keep_lem h k = (
    record {
      contiguous =
          Contiguous-append u.offset n _ xs (omega (arith, len))
            (Contiguous-take u.offset (n - u.offset) u.entries v.contiguous) c;
      bounded = omega (arith, len, length-append (take (n - u.offset) u.entries) xs);
      snapshot_before = v.snapshot_before;
    },
    refl,
    omega arith,
    omega (arith, len, length-append (take (n - u.offset) u.entries) xs),
    λ i. ground (
      arith,
      len,
      get_elem?-append_left (take (n - u.offset) u.entries) xs (i - u.offset),
      get_elem?-append_right (take (n - u.offset) u.entries) xs (i - u.offset),
      get_elem?-take (n - u.offset) (i - u.offset) u.entries,
      ap (get_elem? xs) (reindex i),
    ),
  )
    where
      len : length (take (n - u.offset) u.entries) ≡ n - u.offset
      len = omega (arith, length-take (n - u.offset) u.entries)

      reindex : (i : ℕ) → i - u.offset - (n - u.offset) ≡ i - n
      reindex i = omega arith

slice_from_offset :
    (u : Unstable) (n : ℕ)
    → IsValid u
    → u.offset < n
    → n ≤ u.offset + length u.entries
    → slice u u.offset n ≡ ok (take (n - u.offset) u.entries)
unfolding slice add64
slice_from_offset u n v h k =
    let none_dropped : u.offset - u.offset ≡ 0 = omega arith in
    ground (arith, ap (λ d. drop d u.entries) none_dropped)

-- Appending entries that leave no gap after the ones held, and start after a pending snapshot, never
-- fails and keeps the part valid. The positions from the first new entry on then hold the new
-- entries, and those before it hold what they held.
pub truncate_and_append-Splices :
    (u : Unstable) (e : Entry) (es : List Entry)
    → IsValid u
    → Contiguous e.index (e ∷ es)
    → e.index + length (e ∷ es) < u64_mod
    → SnapshotBefore u.snapshot e.index
    → e.index ≤ u.offset + length u.entries
    → Returns (truncate_and_append u (e ∷ es)) (Splices u e.index (e ∷ es))
unfolding truncate_and_append add64 entry_at
truncate_and_append-Splices u e es v c b p h =
    elim (Bool-cases (e.index == add64 u.offset (length u.entries))) [
      | inl at_end ↦ rw at_end (
          subst (λ ys. Splices u e.index (e ∷ es) (record u { entries = ys ++ (e ∷ es) }))
            (take-all (e.index - u.offset) u.entries (ground arith))
            (keep_lem u v e.index (e ∷ es) c b (ground arith) h))
      | inr inside ↦ elim (Bool-cases (leb e.index u.offset)) [
        | inl before ↦
            rw (inside, before)
              (
                record { contiguous = c; bounded = b; snapshot_before = p },
                refl,
                ground arith,
                omega arith,
                λ i. ground arith,
              )
        | inr after ↦
            rw (inside, after)
              (rw (slice_from_offset u e.index v (ground arith) h)
                (keep_lem u v e.index (e ∷ es) c b (ground arith) h))
      ]
    ]

-- A gap before the first new entry is the fatal error of slice.
pub truncate_and_append-gap :
    (u : Unstable) (e : Entry) (es : List Entry)
    → IsValid u
    → u.offset + length u.entries < e.index
    → truncate_and_append u (e ∷ es) ≡ err fatal
unfolding truncate_and_append add64
truncate_and_append-gap u e es v h = ground arith
