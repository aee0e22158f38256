-- ===== src/Store/Glob/Total.antt =====
-- redis_store.cpp: the loops of string_match_len come to their ends.
use kvd.Base.{
  ℕ, zero, suc, ◌≤◌, ◌<◌, ◌≡◌, refl, sym, ap, ◌∙◌, Bool, true, false, List, [], ◌∷◌, Option, some,
  arith, ◌==◌, ◌||◌, if◌then◌else◌, length, none, ltb, ◌%◌, ◌^◌, take, take-all, u32_mod,
}
use kvd.Store.Glob.{
  star, skip_stars, scan_class, match_class, try_suffixes, is_empty, next_round, match_byte,
  match_escaped, match_star, match_bracket, string_match_len, in_range, matches_key, keys, narrowed,
  matches_narrowed,
}

-- The rounds were enough.
abbrev Ends {ℓ} : {A : Type ℓ} → Option A → Type ℓ
Ends {A} r = (a : A) × (r ≡ some a)

Ends-if {ℓ} : {A : Type ℓ} (b : Bool) (r q : Option A) → Ends r → Ends q → Ends (if b then r else q)
Ends-if true r q h k = h
Ends-if false r q h k = k

pub skip_stars-le : (p : List ℕ) → length (skip_stars p) ≤ length p
unfolding skip_stars
skip_stars-le [] = omega arith
skip_stars-le (c ∷ p) = ground (arith, skip_stars-le p)

scan_class-le : (x : ℕ) (p : List ℕ) (found : Bool) → length (scan_class x p found).1 ≤ length p
unfolding scan_class
scan_class-le x [] found = omega arith
scan_class-le x (c ∷ []) found = ground arith
scan_class-le x (c ∷ d ∷ []) found = ground arith
scan_class-le x (c ∷ d ∷ e ∷ p) found = ground (
  arith,
  scan_class-le x (e ∷ p) (found || d == x),
  scan_class-le x p (found || in_range c e x),
  scan_class-le x (d ∷ e ∷ p) (found || c == x),
)

match_class-le : (x : ℕ) (p : List ℕ) → length (match_class x p).1 ≤ length p
unfolding match_class
match_class-le x [] = scan_class-le x [] false
match_class-le x (c ∷ p) = ground (arith, scan_class-le x p false, scan_class-le x (c ∷ p) false)

try_suffixes-cons :
    (g : List ℕ → Option Bool) (x : ℕ) (s : List ℕ) (b later : Bool)
    → g (x ∷ s) ≡ some b
    → try_suffixes g s ≡ some later
    → try_suffixes g (x ∷ s) ≡ some (if b then true else later)
unfolding try_suffixes
try_suffixes-cons g x s true later here rest = rw (try_suffixes, here) refl
try_suffixes-cons g x s false later here rest = rw (try_suffixes, here) rest

try_suffixes-Ends :
    (g : List ℕ → Option Bool) (s : List ℕ) → ((t : List ℕ) → Ends (g t)) → Ends (try_suffixes g s)
unfolding try_suffixes
try_suffixes-Ends g [] h = (false, refl)
try_suffixes-Ends g (x ∷ s) h =
    let (b, here) = h (x ∷ s) in
    let (later, rest) = try_suffixes-Ends g s h in
    (if b then true else later, try_suffixes-cons g x s b later here rest)

-- The rounds that are left end for every shorter pattern.
module _ (fuel : ℕ)
    (ends : (q t : List ℕ) → length q < fuel → Ends (string_match_len fuel q t)) where
  next_round-Ends : (p s : List ℕ) → length p < fuel → Ends (next_round (string_match_len fuel) p s)
  unfolding next_round
  next_round-Ends p [] h = (is_empty (skip_stars p), refl)
  next_round-Ends p (x ∷ s) h = ends p (x ∷ s) h

  match_byte-Ends :
      (c x : ℕ) (p s : List ℕ) → length p < fuel → Ends (match_byte (string_match_len fuel) c x p s)
  unfolding match_byte
  match_byte-Ends c x p s h = Ends-if (c == x) _ _ (next_round-Ends p s h) (false, refl)

  match_escaped-Ends :
      (c x : ℕ) (p s : List ℕ)
      → length p < fuel
      → Ends (match_escaped (string_match_len fuel) c x p s)
  unfolding match_escaped
  match_escaped-Ends c x [] s h = match_byte-Ends c x [] s h
  match_escaped-Ends c x (d ∷ p) s h = match_byte-Ends d x p s (omega arith)

  match_bracket-Ends :
      (r : Bool × List ℕ) (s : List ℕ)
      → length r.1 < fuel
      → Ends (match_bracket (string_match_len fuel) r s)
  unfolding match_bracket
  match_bracket-Ends (fits, p) s h = Ends-if fits _ _ (next_round-Ends p s h) (false, refl)

  match_star-Ends :
      (p : List ℕ) (last : Bool) (s : List ℕ)
      → length p < fuel
      → Ends (match_star (string_match_len fuel p) last s)
  unfolding match_star
  match_star-Ends p last s h =
      Ends-if last _ _ (true, refl)
        (try_suffixes-Ends (string_match_len fuel p) s (λ t. ends p t h))

string_match_len-Ends :
    (fuel : ℕ) (p s : List ℕ) → length p < fuel → Ends (string_match_len fuel p s)
unfolding string_match_len
string_match_len-Ends zero p s h = absurd (omega arith)
string_match_len-Ends (suc fuel) [] s h = (is_empty s, refl)
string_match_len-Ends (suc fuel) (c ∷ p) [] h = (false, refl)
string_match_len-Ends (suc fuel) (c ∷ p) (x ∷ s) h =
    let ends : (q t : List ℕ) → length q < fuel → Ends (string_match_len fuel q t) =
      string_match_len-Ends fuel in
    Ends-if (c == star) _ _
      (match_star-Ends fuel ends (skip_stars p) (is_empty (skip_stars p)) (x ∷ s)
        (omega (arith, skip_stars-le p)))
      (Ends-if (c == b'?') _ _ (next_round-Ends fuel ends p s (omega arith)) (
        Ends-if (c == b'[') _ _
          (match_bracket-Ends fuel ends (match_class x p) s (omega (arith, match_class-le x p)))
          (Ends-if (c == b'\\') _ _ (match_escaped-Ends fuel ends c x p s (omega arith))
            (match_byte-Ends fuel ends c x p s (omega arith)))))

-- What string_match_len answers.
unfoldable pub matched : List ℕ → List ℕ → Bool
matched p s = elim (matches_key p s) [ none ↦ false | some found ↦ found ]

matched-some : (p s : List ℕ) (b : Bool) → matches_key p s ≡ some b → matched p s ≡ b
unfolding matched
matched-some p s b e = rw (matched, e) refl

matches_key-Ends : (p s : List ℕ) → Ends (matches_key p s)
unfolding matches_key
matches_key-Ends p s = string_match_len-Ends (suc (length p)) p s (omega arith)

pub matches_key-matched : (p s : List ℕ) → matches_key p s ≡ some (matched p s)
matches_key-matched p s =
    let (b, e) = matches_key-Ends p s in e ∙ ap some (sym (matched-some p s b e))

-- The keys that a test selects.
unfoldable pub selected : (List ℕ → Bool) → List (List ℕ × List ℕ) → List (List ℕ)
selected test [] = []
selected test ((k, v) ∷ m) = let rest = selected test m in if test k then k ∷ rest else rest

-- The lengths of the keys are ints.
unfoldable pub KeysFit : List (List ℕ × List ℕ) → Type 0
KeysFit [] = Unit
KeysFit ((k, v) ∷ m) = (length k < 2 ^ 31) × KeysFit m

narrowed_int : (s : List ℕ) → length s < 2 ^ 31 → narrowed s ≡ some s
unfolding narrowed
narrowed_int s h =
    let is_int : ltb (length s % u32_mod) (2 ^ 31) ≡ true = ground arith in
    let whole : take (length s % u32_mod) s ≡ s = take-all (length s % u32_mod) s (omega arith) in
    rw (is_int, whole) refl

matches_narrowed-matched :
    (p s : List ℕ)
    → length p < 2 ^ 31
    → length s < 2 ^ 31
    → matches_narrowed p s ≡ some (matched p s)
unfolding matches_narrowed
matches_narrowed-matched p s h k =
    rw (matches_narrowed, narrowed_int p h, narrowed_int s k) (matches_key-matched p s)

-- Where the lengths are ints, the search of the map finds the keys that match, in their order.
pub keys-selected :
    (pattern : List ℕ) (m : List (List ℕ × List ℕ))
    → length pattern < 2 ^ 31
    → KeysFit m
    → keys pattern m ≡ some (selected (matched pattern) m)
unfolding keys selected KeysFit
keys-selected pattern [] h k = refl
keys-selected pattern ((key, v) ∷ m) h (small, others) =
    rw (keys, matches_narrowed-matched pattern key h small, keys-selected pattern m h others) refl
