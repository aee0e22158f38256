-- ===== src/Store/Glob/Plain.antt =====
-- redis_store.cpp: string_match_len on patterns of stars, question marks and plain bytes.
use kvd.Base.{
  ℕ, zero, suc, ◌≤◌, ◌<◌, ◌≡◌, ◌≢◌, refl, sym, ap, ◌∙◌, inl, inr, Bool, true, false, Bool-cases,
  ==_iff, ◌||◌, List, [], ◌∷◌, Option, some, arith, ◌==◌, if◌then◌else◌, length,
}
use kvd.Store.Glob.{
  star, skip_stars, try_suffixes, is_empty, next_round, match_byte, match_star, string_match_len,
  matches_key,
}
use kvd.Store.Glob.Total.{skip_stars-le}

-- What such a pattern means: a star stands for any bytes, a question mark for one.
unfoldable pub glob : List ℕ → List ℕ → Bool
glob [] s = is_empty s
glob (c ∷ p) [] = let rest = glob p [] in if c == star then rest else false
glob (c ∷ p) (x ∷ s) =
    let left = glob p (x ∷ s) in
    let taken = glob (c ∷ p) s in
    let rest = glob p s in
    if c == star then left || taken else if c == b'?' then rest else if c == x then rest else false

-- No brackets and no backslashes.
abbrev pub IsPlain : List ℕ → Type 0
IsPlain [] = Unit {0}
IsPlain (c ∷ p) = (c ≢ b'[') × (c ≢ b'\\') × IsPlain p

skip_stars-IsPlain : (p : List ℕ) → IsPlain p → IsPlain (skip_stars p)
unfolding skip_stars
skip_stars-IsPlain [] h = tt
skip_stars-IsPlain (c ∷ p) h = elim (Bool-cases (c == star)) [
  | inl yes_star ↦ rw yes_star (skip_stars-IsPlain p h.2)
  | inr no_star ↦ rw no_star h
]

-- At the end of the key only stars are left.
glob-end : (p : List ℕ) → glob p [] ≡ is_empty (skip_stars p)
unfolding glob skip_stars
glob-end [] = refl
glob-end (c ∷ p) = elim (Bool-cases (c == star)) [
  | inl yes_star ↦ rw yes_star (glob-end p)
  | inr no_star ↦ rw no_star refl
]

two_stars : (p s : List ℕ) → glob (star ∷ star ∷ p) s ≡ glob (star ∷ p) s
unfolding glob
two_stars p [] = refl
two_stars p (x ∷ s) = ground (arith, two_stars p s)

glob-stars : (p s : List ℕ) → glob (star ∷ p) s ≡ glob (star ∷ skip_stars p) s
unfolding skip_stars
glob-stars [] s = refl
glob-stars (c ∷ p) s = elim (Bool-cases (c == star)) [
  | inl yes_star ↦
      let e : c ≡ star = (==_iff c star).0 yes_star in
      rw yes_star (ap (λ d. glob (star ∷ d ∷ p) s) e ∙ two_stars p s ∙ glob-stars p s)
  | inr no_star ↦ rw no_star refl
]

only_star : (s : List ℕ) → glob (star ∷ []) s ≡ true
unfolding glob
only_star [] = refl
only_star (x ∷ s) = only_star s

skipped-end : (p : List ℕ) → glob (skip_stars p) [] ≡ is_empty (skip_stars p)
unfolding glob skip_stars
skipped-end [] = refl
skipped-end (c ∷ p) = elim (Bool-cases (c == star)) [
  | inl yes_star ↦ rw yes_star (skipped-end p)
  | inr no_star ↦ rw (no_star, no_star) refl
]

-- The suffixes of a key against a pattern that starts with no star.
try_suffixes-glob :
    (g : List ℕ → Option Bool) (q s : List ℕ)
    → ((x : ℕ) (t : List ℕ) → g (x ∷ t) ≡ some (glob q (x ∷ t)))
    → glob q [] ≡ false
    → try_suffixes g s ≡ some (glob (star ∷ q) s)
unfolding try_suffixes glob
try_suffixes-glob g q [] h e = rw e refl
try_suffixes-glob g q (x ∷ s) h e = elim (Bool-cases (glob q (x ∷ s))) [
  | inl here ↦ rw (try_suffixes, h x s, here) refl
  | inr later ↦ rw (try_suffixes, h x s, later) (try_suffixes-glob g q s h e)
]

match_star-glob :
    (g : List ℕ → Option Bool) (q s : List ℕ)
    → ((x : ℕ) (t : List ℕ) → g (x ∷ t) ≡ some (glob q (x ∷ t)))
    → glob q [] ≡ is_empty q
    → match_star g (is_empty q) s ≡ some (glob (star ∷ q) s)
unfolding match_star
match_star-glob g [] s h e = ap some (sym (only_star s))
match_star-glob g (d ∷ q) s h e = try_suffixes-glob g (d ∷ q) s h e

next_round-glob :
    (g : List ℕ → List ℕ → Option Bool) (p s : List ℕ)
    → ((x : ℕ) (t : List ℕ) → g p (x ∷ t) ≡ some (glob p (x ∷ t)))
    → next_round g p s ≡ some (glob p s)
unfolding next_round
next_round-glob g p [] h = ap some (sym (glob-end p))
next_round-glob g p (x ∷ s) h = h x s

glob-mark :
    (c : ℕ) (p : List ℕ) (x : ℕ) (s : List ℕ)
    → (c == star) ≡ false
    → (c == b'?') ≡ true
    → glob (c ∷ p) (x ∷ s) ≡ glob p s
unfolding glob
glob-mark c p x s no_star mark = rw (no_star, mark) refl

glob-same :
    (c : ℕ) (p : List ℕ) (x : ℕ) (s : List ℕ)
    → (c == star) ≡ false
    → (c == x) ≡ true
    → glob (c ∷ p) (x ∷ s) ≡ glob p s
unfolding glob
glob-same c p x s no_star same = elim (Bool-cases (c == b'?')) [
  | inl mark ↦ rw (no_star, mark) refl
  | inr no_mark ↦ rw (no_star, no_mark, same) refl
]

glob-other :
    (c : ℕ) (p : List ℕ) (x : ℕ) (s : List ℕ)
    → (c == star) ≡ false
    → (c == b'?') ≡ false
    → (c == x) ≡ false
    → glob (c ∷ p) (x ∷ s) ≡ false
unfolding glob
glob-other c p x s no_star no_mark other = rw (no_star, no_mark, other) refl

-- One round, where the later ones are right.
round :
    (fuel c : ℕ) (p : List ℕ) (x : ℕ) (s : List ℕ)
    → IsPlain (c ∷ p)
    → ((q : List ℕ)
        → length q ≤ length p
        → IsPlain q
        → (y : ℕ) (t : List ℕ) → string_match_len fuel q (y ∷ t) ≡ some (glob q (y ∷ t)))
    → string_match_len (suc fuel) (c ∷ p) (x ∷ s) ≡ some (glob (c ∷ p) (x ∷ s))
unfolding string_match_len match_byte
round fuel c p x s plain again =
    let bracket : (c == b'[') ≡ false = ground (arith, plain.0) in
    let escaped : (c == b'\\') ≡ false = ground (arith, plain.1) in
    let onward : next_round (string_match_len fuel) p s ≡ some (glob p s) =
      next_round-glob (string_match_len fuel) p s (again p (omega arith) plain.2) in
    elim (Bool-cases (c == star)) [
      | inl yes_star ↦
          let e : c ≡ star = (==_iff c star).0 yes_star in
          rw yes_star (
            match_star-glob (string_match_len fuel (skip_stars p)) (skip_stars p) (x ∷ s)
              (again (skip_stars p) (skip_stars-le p) (skip_stars-IsPlain p plain.2))
              (skipped-end p)
            ∙ ap some (sym (glob-stars p (x ∷ s)))
            ∙ ap (λ d. some (glob (d ∷ p) (x ∷ s))) (sym e))
      | inr no_star ↦ elim (Bool-cases (c == b'?')) [
        | inl mark ↦ rw (no_star, mark) (onward ∙ ap some (sym (glob-mark c p x s no_star mark)))
        | inr no_mark ↦
            rw (no_star, no_mark, bracket, escaped)
              (elim (Bool-cases (c == x)) [
                | inl same ↦ rw same (onward ∙ ap some (sym (glob-same c p x s no_star same)))
                | inr differs ↦
                    rw differs (ap some (sym (glob-other c p x s no_star no_mark differs)))
              ])
      ]
    ]

string_match_len-glob :
    (fuel : ℕ) (p : List ℕ) (x : ℕ) (s : List ℕ)
    → length p < fuel
    → IsPlain p
    → string_match_len fuel p (x ∷ s) ≡ some (glob p (x ∷ s))
unfolding string_match_len glob
string_match_len-glob zero p x s h plain = absurd (omega arith)
string_match_len-glob (suc fuel) [] x s h plain = refl
string_match_len-glob (suc fuel) (c ∷ p) x s h plain =
    let again : (q : List ℕ)
        → length q ≤ length p
        → IsPlain q
        → (y : ℕ) (t : List ℕ) → string_match_len fuel q (y ∷ t) ≡ some (glob q (y ∷ t)) =
      λ q k plain_q y t. string_match_len-glob fuel q y t (omega arith) plain_q in
    round fuel c p x s plain again

-- The match of a key that is not empty with such a pattern is what the pattern means.
pub matches_key-glob :
    (p : List ℕ) (x : ℕ) (s : List ℕ) → IsPlain p → matches_key p (x ∷ s) ≡ some (glob p (x ∷ s))
unfolding matches_key
matches_key-glob p x s plain = string_match_len-glob (suc (length p)) p x s (omega arith) plain

-- An empty key is matched by no pattern but the empty one, not even by a star.
pub matches_key-empty : (c : ℕ) (p : List ℕ) → matches_key (c ∷ p) [] ≡ some false
unfolding matches_key string_match_len
matches_key-empty c p = refl
