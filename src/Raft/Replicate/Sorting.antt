-- ===== src/Raft/Replicate/Sorting.antt =====
-- What maybe_commit needs of std::sort: how many of the elements are at least a given number.
use kvd.Base.{
  ℕ, zero, suc, ◌+◌, ◌≤◌, ◌<◌, ◌≡◌, refl, ◌∙◌, inl, inr, List, [], ◌∷◌, length, get_or, leb,
  if◌then◌else◌, arith, Bool-cases,
}
use kvd.Raft.Replicate.{insert_sorted, sort}

-- How many elements are at least `n`.
abbrev pub count_from : ℕ → List ℕ → ℕ
count_from n [] = 0
count_from n (x ∷ xs) = if leb n x then suc (count_from n xs) else count_from n xs

-- All elements are at least `n`.
abbrev Above : ℕ → List ℕ → Type 0
Above n [] = Unit
Above n (x ∷ xs) = (n ≤ x) × Above n xs

abbrev Sorted : List ℕ → Type 0
Sorted [] = Unit
Sorted (x ∷ xs) = Above x xs × Sorted xs

Above-le : (m n : ℕ) (xs : List ℕ) → m ≤ n → Above n xs → Above m xs
Above-le m n [] h a = tt
Above-le m n (x ∷ xs) h a = (omega (arith, a.0), Above-le m n xs h a.1)

insert-Above : (n x : ℕ) (xs : List ℕ) → n ≤ x → Above n xs → Above n (insert_sorted x xs)
unfolding insert_sorted
insert-Above n x [] h a = (h, tt)
insert-Above n x (y ∷ ys) h a = elim (Bool-cases (leb x y)) [
  | inl e ↦ rw e (h, a)
  | inr e ↦ rw e (a.0, insert-Above n x ys h a.1)
]

insert-Sorted : (x : ℕ) (xs : List ℕ) → Sorted xs → Sorted (insert_sorted x xs)
unfolding insert_sorted
insert-Sorted x [] s = (tt, tt)
insert-Sorted x (y ∷ ys) s = elim (Bool-cases (leb x y)) [
  | inl e ↦ rw e ((ground arith, Above-le x y ys (ground arith) s.0), s)
  | inr e ↦ rw e (insert-Above y x ys (ground arith) s.0, insert-Sorted x ys s.1)
]

pub sort-Sorted : (xs : List ℕ) → Sorted (sort xs)
unfolding sort
sort-Sorted [] = tt
sort-Sorted (x ∷ xs) = insert-Sorted x (sort xs) (sort-Sorted xs)

count-insert : (n x : ℕ) (xs : List ℕ) → count_from n (insert_sorted x xs) ≡ count_from n (x ∷ xs)
unfolding insert_sorted
count-insert n x [] = refl
count-insert n x (y ∷ ys) = ground (arith, count-insert n x ys)

pub count-sort : (n : ℕ) (xs : List ℕ) → count_from n (sort xs) ≡ count_from n xs
unfolding sort
count-sort n [] = refl
count-sort n (x ∷ xs) = count-insert n x (sort xs) ∙ ground (arith, count-sort n xs)

count-zero : (xs : List ℕ) → count_from 0 xs ≡ length xs
count-zero [] = refl
count-zero (x ∷ xs) = ground (arith, count-zero xs)

pub length-sort : (xs : List ℕ) → length (sort xs) ≡ length xs
length-sort xs = omega (arith, count-zero (sort xs), count-zero xs, count-sort 0 xs)

count-Above : (n : ℕ) (xs : List ℕ) → Above n xs → count_from n xs ≡ length xs
count-Above n [] a = refl
count-Above n (x ∷ xs) a = ground (arith, a.0, count-Above n xs a.1)

count-le : (n : ℕ) (xs : List ℕ) → count_from n xs ≤ length xs
count-le n [] = omega arith
count-le n (x ∷ xs) = ground (arith, count-le n xs)

get_or-Above : (n i : ℕ) (xs : List ℕ) → i < length xs → Above n xs → n ≤ get_or xs i 0
get_or-Above n i [] h a = absurd (omega arith)
get_or-Above n zero (x ∷ xs) h a = a.0
get_or-Above n (suc i) (x ∷ xs) h a = get_or-Above n i xs (omega arith) a.1

-- The elements from the `i`th on are at least the `i`th.
pub count-from_elem :
    (xs : List ℕ) (i : ℕ)
    → Sorted xs
    → i < length xs
    → length xs ≤ i + count_from (get_or xs i 0) xs
count-from_elem [] i s h = absurd (omega arith)
count-from_elem (x ∷ xs) zero s h = ground (arith, count-Above x xs s.0)
count-from_elem (x ∷ xs) (suc i) s h = ground (arith, count-from_elem xs i s.1 (omega arith))

-- The elements up to the `i`th are less than what the `i`th is less than.
pub count-past_elem :
    (xs : List ℕ) (i m : ℕ)
    → Sorted xs
    → i < length xs
    → get_or xs i 0 < m
    → i + count_from m xs < length xs
count-past_elem [] i m s h k = absurd (omega arith)
count-past_elem (x ∷ xs) zero m s h k = ground (arith, count-le m xs)
count-past_elem (x ∷ xs) (suc i) m s h k =
    ground
      (arith, count-past_elem xs i m s.1 (omega arith) k, get_or-Above x i xs (omega arith) s.0)

pub count_mono : (m n : ℕ) (xs : List ℕ) → m ≤ n → count_from n xs ≤ count_from m xs
count_mono m n [] h = omega arith
count_mono m n (x ∷ xs) h = ground (arith, count_mono m n xs h)
