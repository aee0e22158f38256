-- ===== src/Wal/Reading/Partial.antt =====
-- wal.cpp: what read_all makes of a file of which only the first bytes reached the disk.
use kvd.Base.{
  ℕ, zero, suc, ◌-◌, ◌≤◌, ◌<◌, ◌≡◌, ◌⊎◌, refl, sym, ap, ◌∙◌, inl, inr, true, Bool-cases, List, [],
  ◌∷◌, ◌++◌, append_assoc, if◌then◌else◌, ltb, length, take, arith, ok,
}
use kvd.Wal.{Codec, WalSnapshot, WalFile, Progress, truncate, max_wal_record_len}
use kvd.Wal.Reading.{read_file, finish, cut_at}
use kvd.Wal.Reading.Records.{Rec, IsLawful, packed, bytes_of, encode, Fits}
use kvd.Wal.Reading.Replay.{replay}
use kvd.Wal.Reading.Torn.{before, read_file-encode, read_file-torn}

pub take-past :
    (xs ys : List ℕ) (n : ℕ) → length xs ≤ n → take n (xs ++ ys) ≡ xs ++ take (n - length xs) ys
take-past [] ys n h = ap (λ m. take m ys) (omega arith)
take-past (x ∷ xs) ys zero h = absurd (omega (arith, h))
take-past (x ∷ xs) ys (suc n) h =
    ap (◌∷◌ x) (take-past xs ys n (omega (arith, h)) ∙ ap (λ m. xs ++ take m ys) (omega arith))

take-within : (xs ys : List ℕ) (n : ℕ) → n ≤ length xs → take n (xs ++ ys) ≡ take n xs
take-within xs ys zero h = refl
take-within [] ys (suc n) h = absurd (omega (arith, h))
take-within (x ∷ xs) ys (suc n) h = ap (◌∷◌ x) (take-within xs ys n (omega (arith, h)))

take-nil : (n : ℕ) → take {A = ℕ} n [] ≡ []
take-nil zero = refl
take-nil (suc n) = refl

module _ (c : Codec) where
  -- The records that lie within the first bytes as a whole.
  abbrev pub whole_records : ℕ → List Rec → List Rec
  whole_records n [] = []
  whole_records n (rec ∷ recs) =
      let rest = whole_records (n - length (bytes_of c rec)) recs in
      if ltb n (length (bytes_of c rec)) then [] else rec ∷ rest

  -- The bytes of some records, and maybe a part of those of another.
  abbrev pub Ends : List ℕ → List Rec → Type 0
  Ends bytes recs =
      (bytes ≡ encode c recs)
      ⊎ ((rec : Rec) × (k : ℕ) × (length (packed c rec) ≤ max_wal_record_len)
          × (0 < k)
          × (k < length (bytes_of c rec))
          × (bytes ≡ encode c recs ++ take k (bytes_of c rec)))

  pub Ends-behind :
      (rec : Rec) (bytes : List ℕ) (recs : List Rec)
      → Ends bytes recs
      → Ends (bytes_of c rec ++ bytes) (rec ∷ recs)
  Ends-behind rec bytes recs (inl e) = inl (ap (◌++◌ (bytes_of c rec)) e)
  Ends-behind rec bytes recs (inr (torn, k, h, from, to, e)) = inr (
    torn,
    k,
    h,
    from,
    to,
    ap (◌++◌ (bytes_of c rec)) e
        ∙ sym (append_assoc (bytes_of c rec) (encode c recs) (take k (bytes_of c torn))),
  )

  Ends-first :
      (rec : Rec) (n : ℕ)
      → length (packed c rec) ≤ max_wal_record_len
      → n < length (bytes_of c rec)
      → Ends (take n (bytes_of c rec)) []
  Ends-first rec zero h less = inl refl
  Ends-first rec (suc n) h less = inr (rec, suc n, h, omega arith, less, refl)

  pub take-Ends :
      (n : ℕ) (recs : List Rec) → Fits c recs → Ends (take n (encode c recs)) (whole_records n recs)
  take-Ends n [] h = inl (take-nil n)
  take-Ends n (rec ∷ recs) h = elim (Bool-cases (ltb n (length (bytes_of c rec)))) [
    | inl part ↦
        rw (part, take-within (bytes_of c rec) (encode c recs) n (ground (arith, part)))
          (Ends-first rec n h.0 (ground (arith, part)))
    | inr whole ↦
        rw (whole, take-past (bytes_of c rec) (encode c recs) n (ground (arith, whole)))
          (Ends-behind rec (take (n - length (bytes_of c rec)) (encode c recs))
            (whole_records (n - length (bytes_of c rec)) recs)
            (take-Ends (n - length (bytes_of c rec)) recs h.1))
  ]

  pub whole_records-Fits : (n : ℕ) (recs : List Rec) → Fits c recs → Fits c (whole_records n recs)
  whole_records-Fits n [] h = tt
  whole_records-Fits n (rec ∷ recs) h = elim (Bool-cases (ltb n (length (bytes_of c rec)))) [
    | inl part ↦ rw part tt
    | inr whole ↦ rw whole (h.0, whole_records-Fits (n - length (bytes_of c rec)) recs h.1)
  ]

  -- A record that was written in part does not count.
  pub read_file-Ends :
      (start : WalSnapshot) (recs : List Rec) (f : WalFile) (p q : Progress)
      → IsLawful c
      → Fits c recs
      → Ends f.content recs
      → replay start recs (before p) ≡ ok q
      → q.matchsnap ≡ true
      → (r : Progress) × (g : WalFile) × (read_file c start f p ≡ ok (r, g)) × (r.ents ≡ q.ents)
  unfolding finish cut_at truncate
  read_file-Ends start recs f p q lawful h (inl e) replayed matches = (
    finish q,
    f,
    read_file-encode c lawful start recs f p h e ∙ rw (replayed, matches) refl,
    refl,
  )
  read_file-Ends start recs f p q lawful h (inr (rec, k, small, from, to, e)) replayed matches = (
    cut_at (length (encode c recs)) q,
    truncate (length (encode c recs)) f,
    read_file-torn c lawful start recs rec k f p (small, h) from to e ∙ rw (replayed, matches) refl,
    refl,
  )
