-- ===== src/Proto/Size/Limit.antt =====
-- util.cpp: what entry_limit_size keeps of a batch.
use kvd.Base.{
  ℕ, zero, suc, ◌⊎◌, inl, inr, ◌+◌, ◌≤◌, ◌<◌, ◌≡◌, refl, ap, List, [], ◌∷◌, ◌++◌, arith, length,
  take, ltb, u64_mod, Bool-cases, add64, add64-eq,
}
use kvd.Proto.{Entry}
use kvd.Proto.Size.{serialize_size, limit_rest, entry_limit_size}

-- The size of a batch, without wrap-around.
abbrev pub total_size : List Entry → ℕ
total_size [] = 0
total_size (e ∷ es) = serialize_size e + total_size es

-- The first `n` entries of a non-empty batch are what a limit leaves: at least one, within the limit
-- if it is more than one, and the next one would not fit.
pub record Limited (max_size : ℕ) (es : List Entry) (n : ℕ) : Type 0 where
  pub some_kept : 0 < n
  pub in_range : n ≤ length es
  pub fits : (n ≡ 1) ⊎ (total_size (take n es) ≤ max_size)
  pub greedy : (n ≡ length es) ⊎ (max_size < total_size (take (suc n) es))

record RestLimited (max_size size : ℕ) (es : List Entry) (n : ℕ) : Type 0 where
  in_range : n ≤ length es
  fits : (n ≡ 0) ⊎ (size + total_size (take n es) ≤ max_size)
  greedy : (n ≡ length es) ⊎ (max_size < size + total_size (take (suc n) es))

limit_rest-RestLimited :
    (max_size size : ℕ) (es : List Entry)
    → size + total_size es < u64_mod
    → (n : ℕ) × (limit_rest max_size size es ≡ take n es) × RestLimited max_size size es n
unfolding limit_rest
limit_rest-RestLimited max_size size [] b =
    (0, refl, record { in_range = omega arith; fits = inl refl; greedy = inl refl })
limit_rest-RestLimited max_size size (e ∷ es) b =
    let sum : add64 size (serialize_size e) ≡ size + serialize_size e =
      add64-eq size (serialize_size e) (omega arith) in
    elim (Bool-cases (ltb max_size (size + serialize_size e))) [
      | inl over ↦
          rw (sum, over)
            (
              0,
              refl,
              record { in_range = omega arith; fits = inl refl; greedy = inr (ground arith) },
            )
      | inr under ↦
          let (n, kept, r) =
            limit_rest-RestLimited max_size (size + serialize_size e) es (omega arith) in
          rw (sum, under)
            (
              suc n,
              ap (◌∷◌ e) kept,
              record {
                in_range = omega (arith, r.in_range);
                fits = inr (fits_next n r.fits (ground arith));
                greedy = greedy_next n r.greedy;
              },
            )
    ]
  where
    fits_next :
        (n : ℕ)
        → (n ≡ 0) ⊎ (size + serialize_size e + total_size (take n es) ≤ max_size)
        → size + serialize_size e ≤ max_size
        → size + total_size (take (suc n) (e ∷ es)) ≤ max_size
    fits_next zero f h = omega arith
    fits_next (suc n) f h = omega arith

    greedy_next :
        (n : ℕ)
        → (n ≡ length es) ⊎ (max_size < size + serialize_size e + total_size (take (suc n) es))
        → (suc n ≡ length (e ∷ es)) ⊎ (max_size < size + total_size (take (suc (suc n)) (e ∷ es)))
    greedy_next n (inl g) = inl (ap suc g)
    greedy_next n (inr g) = inr (omega arith)

-- entry_limit_size keeps a non-empty prefix: as many entries as fit, and one in any case. (The total
-- size of the batch is taken to fit a uint64_t.)
pub entry_limit_size-Limited :
    (max_size : ℕ) (e : Entry) (es : List Entry)
    → total_size (e ∷ es) < u64_mod
    → (n : ℕ) × (entry_limit_size max_size (e ∷ es) ≡ take n (e ∷ es)) × Limited max_size (e ∷ es) n
unfolding entry_limit_size
entry_limit_size-Limited max_size e es b =
    let (n, kept, r) = limit_rest-RestLimited max_size (serialize_size e) es b in
    (
      suc n,
      ap (◌∷◌ e) kept,
      record {
        some_kept = omega arith;
        in_range = omega (arith, r.in_range);
        fits = first_fits n r.fits;
        greedy = first_greedy n r.greedy;
      },
    )
  where
    first_fits :
        (n : ℕ)
        → (n ≡ 0) ⊎ (serialize_size e + total_size (take n es) ≤ max_size)
        → (suc n ≡ 1) ⊎ (total_size (take (suc n) (e ∷ es)) ≤ max_size)
    first_fits n (inl f) = inl (ap suc f)
    first_fits n (inr f) = inr f

    first_greedy :
        (n : ℕ)
        → (n ≡ length es) ⊎ (max_size < serialize_size e + total_size (take (suc n) es))
        → (suc n ≡ length (e ∷ es)) ⊎ (max_size < total_size (take (suc (suc n)) (e ∷ es)))
    first_greedy n (inl g) = inl (ap suc g)
    first_greedy n (inr g) = inr g

limit_rest-append :
    (m s : ℕ) (xs ys : List Entry)
    → (limit_rest m s xs ≡ xs) ⊎ (limit_rest m s (xs ++ ys) ≡ limit_rest m s xs)
unfolding limit_rest
limit_rest-append m s [] ys = inl refl
limit_rest-append m s (x ∷ xs) ys =
    ground (arith, limit_rest-append m (add64 s (serialize_size x)) xs ys)

-- Either a batch fits whole, or what follows it makes no difference.
pub entry_limit_size-append :
    (m : ℕ) (xs ys : List Entry)
    → (entry_limit_size m xs ≡ xs) ⊎ (entry_limit_size m (xs ++ ys) ≡ entry_limit_size m xs)
unfolding entry_limit_size
entry_limit_size-append m [] ys = inl refl
entry_limit_size-append m (x ∷ xs) ys = ground (arith, limit_rest-append m (serialize_size x) xs ys)

length-limit_rest :
    (m s : ℕ) (xs : List Entry)
    → (limit_rest m s xs ≡ xs) ⊎ (length (limit_rest m s xs) < length xs)
unfolding limit_rest
length-limit_rest m s [] = inl refl
length-limit_rest m s (x ∷ xs) = ground (arith, length-limit_rest m (add64 s (serialize_size x)) xs)

-- A batch that is not kept whole gets shorter.
pub length-entry_limit_size :
    (m : ℕ) (xs : List Entry)
    → (entry_limit_size m xs ≡ xs) ⊎ (length (entry_limit_size m xs) < length xs)
unfolding entry_limit_size
length-entry_limit_size m [] = inl refl
length-entry_limit_size m (x ∷ xs) = ground (arith, length-limit_rest m (serialize_size x) xs)
