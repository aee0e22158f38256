-- ===== src/Wal/Opening/Search.antt =====
-- wal.cpp: search_index finds the last file that starts at the index or before it.
use kvd.Base.{
  ℕ, zero, suc, ◌≤◌, ◌<◌, ◌≡◌, ◌⊎◌, refl, inl, inr, Bool-cases, List, [], ◌∷◌, Option, none, some,
  arith, leb, length, get_elem?, Result, ok, err, Returns,
}
use kvd.Wal.Opening.{NameReader, parse_wal_name, search_below, search_index}

module _ (r : NameReader) where
  -- Every name is one of a file of the log.
  unfoldable pub AreNames : List (List ℕ) → Type 0
  AreNames [] = Unit
  AreNames (name ∷ names) =
      ((seq : ℕ) × (index : ℕ) × (parse_wal_name r name ≡ some (seq, index))) × AreNames names

  -- The index of the first entry of the file at a position; 0 where there is none.
  unfoldable pub starts_at : List (List ℕ) → ℕ → ℕ
  starts_at names i = elim (get_elem? names i) [
    | none ↦ 0
    | some name ↦ elim (parse_wal_name r name) [ none ↦ 0 | some (seq, index) ↦ index ]
  ]

  -- What is found below `n`.
  abbrev pub Found : List (List ℕ) → ℕ → ℕ → Option ℕ → Type 0
  Found names index n none = (j : ℕ) → j < n → index < starts_at names j
  Found names index n (some i) =
      (i < n) × (starts_at names i ≤ index) × ((j : ℕ) → i < j → j < n → index < starts_at names j)

  named :
      (names : List (List ℕ)) (i : ℕ)
      → AreNames names
      → i < length names
      → (name : List ℕ) × (seq : ℕ) × (index : ℕ) × (get_elem? names i ≡ some name)
        × (parse_wal_name r name ≡ some (seq, index))
  unfolding AreNames
  named [] i a h = absurd (omega arith)
  named (name ∷ names) zero ((seq, index, parsed), others) h = (name, seq, index, refl, parsed)
  named (name ∷ names) (suc i) (first, others) h = named names i others (omega arith)

  last_or_below : (i j : ℕ) → j < suc i → (j ≡ i) ⊎ (j < i)
  last_or_below i j h = ground arith

  later :
      (names : List (List ℕ)) (index i : ℕ)
      → index < starts_at names i
      → Found names index i none
      → Found names index (suc i) none
  later names index i behind k j under = elim (last_or_below i j under) [
    | inl same ↦ rw same behind
    | inr less ↦ k j less
  ]

  lower :
      (names : List (List ℕ)) (index i : ℕ) (found : Result (Option ℕ))
      → index < starts_at names i
      → Returns found (Found names index i)
      → Returns found (Found names index (suc i))
  lower names index i (err e) behind k = absurd k
  lower names index i (ok none) behind k = later names index i behind k
  lower names index i (ok (some at)) behind (below, starts, later_ones) = (
    omega arith,
    starts,
    λ j above under. elim (last_or_below i j under) [
      | inl same ↦ rw same behind
      | inr less ↦ later_ones j above less
    ],
  )

  search_below-Found :
      (names : List (List ℕ)) (index n : ℕ)
      → AreNames names
      → n ≤ length names
      → Returns (search_below r names index n) (Found names index n)
  unfolding search_below starts_at
  search_below-Found names index zero a h = λ j below. absurd (omega arith)
  search_below-Found names index (suc i) a h =
      let (name, seq, cur_index, at, parsed) = named names i a (omega arith) in
      let here : starts_at names i ≡ cur_index = rw (starts_at, at, parsed) refl in
      rw (search_below, at, parsed)
        (elim (Bool-cases (leb cur_index index)) [
          | inl before ↦
              rw before
                (omega arith, ground (arith, here, before), λ j above below. absurd (omega arith))
          | inr behind ↦ rw behind (
              lower names index i (search_below r names index i) (ground (arith, here, behind))
                (search_below-Found names index i a (omega arith)))
        ])

  -- Where every name is one of a file of the log and there is one, search_index returns the last file that
  -- starts at the index or before it; it returns none only if all of them start behind the index.
  pub search_index-Found :
      (name : List ℕ) (names : List (List ℕ)) (index : ℕ)
      → AreNames (name ∷ names)
      → Returns
          (search_index r (name ∷ names) index)
          (Found (name ∷ names) index (length (name ∷ names)))
  unfolding search_index
  search_index-Found name names index a =
      search_below-Found (name ∷ names) index (length (name ∷ names)) a (omega arith)
