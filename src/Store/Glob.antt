-- ===== src/Store/Glob.antt =====
-- redis_store.cpp: string_match_len, called as keys does it, with `nocase` 0. A pattern is the list of its
-- bytes, behind which the text of the reply holds a byte 0 that no case takes for its own; the address
-- and the length of what is left of it move together.
pub mod Total
pub mod Plain
use kvd.Base.{
  ℕ, zero, suc, ◌+◌, ◌%◌, Bool, true, false, not, ◌&&◌, ◌||◌, List, [], ◌∷◌, Option, none, some,
  leb, ◌==◌, if◌then◌else◌, length, ltb, ◌^◌, take, u32_mod,
}

abbrev pub star : ℕ
star = b'*'

-- `while (*pattern == '*')`
unfoldable pub skip_stars : List ℕ → List ℕ
skip_stars [] = []
skip_stars (c ∷ p) = let rest = skip_stars p in if c == star then rest else c ∷ p

-- A char is signed: where its order is read, the bytes from 128 on stand below the others.
unfoldable pub signed_order : ℕ → ℕ
signed_order c = (c + 128) % 256

-- `start`-`end`, which may stand the wrong way round.
unfoldable pub in_range : ℕ → ℕ → ℕ → Bool
in_range from to x =
    let a : ℕ = signed_order from in
    let b : ℕ = signed_order to in
    let c : ℕ = signed_order x in if leb a b then leb a c && leb c b else leb b c && leb c a

-- The loop over what stands between brackets, with the pattern behind them.
unfoldable pub scan_class : ℕ → List ℕ → Bool → Bool × List ℕ
scan_class x [] found = (found, [])
scan_class x (c ∷ []) found = if c == b']' then (found, []) else (found || c == x, [])
scan_class x (c ∷ d ∷ []) found =
    let rest = scan_class x (d ∷ []) (found || c == x) in
    if c == b'\\' then (found || d == x, []) else if c == b']' then (found, d ∷ []) else rest
scan_class x (c ∷ d ∷ e ∷ p) found =
    let escaped = scan_class x (e ∷ p) (found || d == x) in
    let ranged = scan_class x p (found || in_range c e x) in
    let single = scan_class x (d ∷ e ∷ p) (found || c == x) in
    if c == b'\\'
    then escaped
    else if c == b']'
    then (found, d ∷ e ∷ p)
    else if d == b'-'
    then ranged
    else single

-- The case of a bracket: whether the byte fits, and the pattern behind.
unfoldable pub match_class : ℕ → List ℕ → Bool × List ℕ
match_class x [] = scan_class x [] false
match_class x (c ∷ p) =
    let inverted = scan_class x p false in
    let plain = scan_class x (c ∷ p) false in
    if c == b'^' then (not inverted.0, inverted.1) else plain

-- The case of a star: the rest of the pattern is tried at every place of the key but its end.
unfoldable pub try_suffixes : (List ℕ → Option Bool) → List ℕ → Option Bool
try_suffixes g [] = some false
try_suffixes g (x ∷ s) = elim (g (x ∷ s)) [
  | none ↦ none
  | some true ↦ some true
  | some false ↦ try_suffixes g s
]

abbrev pub is_empty : List ℕ → Bool
is_empty [] = true
is_empty (x ∷ s) = false

-- The end of a round, in which one byte of the key was taken.
unfoldable pub next_round : (List ℕ → List ℕ → Option Bool) → List ℕ → List ℕ → Option Bool
next_round again p [] = some (is_empty (skip_stars p))
next_round again p (x ∷ s) = again p (x ∷ s)

-- A byte of the pattern against a byte of the key.
unfoldable pub match_byte : (List ℕ → List ℕ → Option Bool) → ℕ → ℕ → List ℕ → List ℕ → Option Bool
match_byte again c x p s = if c == x then next_round again p s else some false

-- `\` takes the byte behind it, if there is one.
unfoldable pub match_escaped :
    (List ℕ → List ℕ → Option Bool) → ℕ → ℕ → List ℕ → List ℕ → Option Bool
match_escaped again c x [] s = match_byte again c x [] s
match_escaped again c x (d ∷ p) s = match_byte again d x p s

unfoldable pub match_star : (List ℕ → Option Bool) → Bool → List ℕ → Option Bool
match_star g last s = if last then some true else try_suffixes g s

unfoldable pub match_bracket :
    (List ℕ → List ℕ → Option Bool) → Bool × List ℕ → List ℕ → Option Bool
match_bracket again (fits, p) s = if fits then next_round again p s else some false

-- The loop, for at most `fuel` rounds; `none` is that they were not enough.
unfoldable pub string_match_len : ℕ → List ℕ → List ℕ → Option Bool
string_match_len zero p s = none
string_match_len (suc fuel) [] s = some (is_empty s)
string_match_len (suc fuel) (c ∷ p) [] = some false
string_match_len (suc fuel) (c ∷ p) (x ∷ s) =
    let again : List ℕ → List ℕ → Option Bool = string_match_len fuel in
    if c == star
    then match_star (again (skip_stars p)) (is_empty (skip_stars p)) (x ∷ s)
    else if c == b'?'
    then next_round again p s
    else if c == b'['
    then match_bracket again (match_class x p) s
    else if c == b'\\'
    then match_escaped again c x p s
    else match_byte again c x p s

-- A round takes a byte of the pattern at least.
unfoldable pub matches_key : List ℕ → List ℕ → Option Bool
matches_key p s = string_match_len (suc (length p)) p s

-- A string of which the length is narrowed to an int: the length counts modulo 2 ^ 32, and `none` stands for
-- a negative one, which the loop counts down from behind the string.
unfoldable pub narrowed : List ℕ → Option (List ℕ)
narrowed s =
    let len : ℕ = length s % u32_mod in if ltb len (2 ^ 31) then some (take len s) else none

unfoldable pub matches_narrowed : List ℕ → List ℕ → Option Bool
matches_narrowed p s = elim (narrowed p) [
  | none ↦ none
  | some pattern ↦ elim (narrowed s) [ none ↦ none | some key ↦ matches_key pattern key ]
]

-- keys; the lengths of the pattern and of the key are narrowed to the ints of string_match_len.
unfoldable pub keys : List ℕ → List (List ℕ × List ℕ) → Option (List (List ℕ))
keys pattern [] = some []
keys pattern ((k, v) ∷ m) = elim (matches_narrowed pattern k) [
  | none ↦ none
  | some found ↦ elim (keys pattern m) [
    | none ↦ none
    | some rest ↦ some (if found then k ∷ rest else rest)
  ]
]
