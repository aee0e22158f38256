-- ===== src/Unstable/Entries.antt =====
-- Lists of entries at consecutive log positions.
use kvd.Base.{
  ℕ, zero, suc, ◌+◌, ◌≡◌, List, [], ◌∷◌, ◌++◌, some, arith, length, get_elem?, take, drop,
}
use kvd.Proto.{Entry}

-- The entries have the indices n, n + 1, …
abbrev pub Contiguous : ℕ → List Entry → Type 0
Contiguous n [] = Unit {0}
Contiguous n (e ∷ es) = (e.index ≡ n) × Contiguous (suc n) es

pub Contiguous-append :
    (n m : ℕ) (xs ys : List Entry)
    → m ≡ n + length xs
    → Contiguous n xs
    → Contiguous m ys
    → Contiguous n (xs ++ ys)
Contiguous-append n m [] ys e hx hy = let e' : m ≡ n = omega arith in rw (← e') hy
Contiguous-append n m (x ∷ xs) ys e hx hy =
    (hx.0, Contiguous-append (suc n) m xs ys (omega arith) hx.1 hy)

pub Contiguous-take : (n k : ℕ) (xs : List Entry) → Contiguous n xs → Contiguous n (take k xs)
Contiguous-take n zero xs h = tt
Contiguous-take n (suc k) [] h = tt
Contiguous-take n (suc k) (x ∷ xs) h = (h.0, Contiguous-take (suc n) k xs h.1)

pub Contiguous-drop :
    (n m k : ℕ) (xs : List Entry) → m ≡ n + k → Contiguous n xs → Contiguous m (drop k xs)
Contiguous-drop n m zero xs e h = let e' : m ≡ n = omega arith in rw e' h
Contiguous-drop n m (suc k) [] e h = tt
Contiguous-drop n m (suc k) (x ∷ xs) e h = Contiguous-drop (suc n) m k xs (omega arith) h.1

pub Contiguous-index :
    (n i : ℕ) (xs : List Entry) (e : Entry)
    → Contiguous n xs
    → get_elem? xs i ≡ some e
    → e.index ≡ n + i
Contiguous-index n i [] e h p = cc
Contiguous-index n zero (x ∷ xs) e h p = ground arith
Contiguous-index n (suc i) (x ∷ xs) e h p = omega (arith, Contiguous-index (suc n) i xs e h.1 p)
