-- ===== src/Base/Results.antt =====
-- What a call can end in: a value, the exception of LOG_FATAL, a failed assert, or behaviour that
-- the language leaves undefined (an index out of range, a null pointer, an unset variable).
use mathlib.Core.Path.{◌≡◌, refl}
use mathlib.Core.Bool.{Bool, true, false}
use mathlib.Core.Option.{Option, none, some}
use mathlib.Core.List.{List}
use Prim.Native.Nat.{ℕ}
use kvd.Base.Tests.{ltb, if◌then◌else◌}
use kvd.Base.Lists.{length, drop}

pub data Error : Type 0 where
  fatal assertion undefined : Error

pub data Result {ℓ} (V : Type ℓ) : Type ℓ where
  err : Error → Result V
  ok : V → Result V

-- A failed call ends the calls after it.
infixl 5 ◌>>=◌ ◌>>◌
abbrev pub ◌>>=◌ {ℓ ℓ'} :
    {V : Type ℓ} {W : Type ℓ'} (call : Result V) (next : V → Result W) → Result W
err failure >>= next = err failure
ok value >>= next = next value

abbrev pub ◌>>◌ {ℓ} : {W : Type ℓ} (first : Result (Unit {0})) (second : Result W) → Result W
first >> second = first >>= λ nothing. second

-- `if (!test) fail`
abbrev pub check : Bool → Error → Result (Unit {0})
check true failure = ok tt
check false failure = err failure

-- `v[i]` and `*p`: undefined where nothing is there.
abbrev pub deref {ℓ} : {A : Type ℓ} → Option A → Result A
deref none = err undefined
deref (some a) = ok a

-- `v.erase(v.begin(), v.begin() + n)` is defined only for an `n` up to the size.
unfoldable pub erase_front {ℓ} : {A : Type ℓ} → ℕ → List A → Result (List A)
erase_front n xs = if ltb (length xs) n then err undefined else ok (drop n xs)

-- The call returns, and what it returns satisfies P.
abbrev pub Returns {ℓ} : {A : Type ℓ} → Result A → (A → Type 0) → Type 0
Returns (ok a) P = P a
Returns (err e) P = ⊥

pub Returns-ok {ℓ} :
    {A : Type ℓ} (P : A → Type 0) {r : Result A} {a : A} → r ≡ ok a → P a → Returns r P
Returns-ok P e h = rw e h

-- What a call that returns ends in.
pub Returns-value {ℓ} :
    {A : Type ℓ} (P : A → Type 0) (r : Result A) → Returns r P → (a : A) × (r ≡ ok a) × P a
Returns-value P (ok a) h = (a, refl, h)
Returns-value P (err e) h = absurd h

pub Returns-bind {ℓ κ} :
    {A : Type ℓ} {B : Type κ} (P : A → Type 0) (Q : B → Type 0) (r : Result A) (f : A → Result B)
    → Returns r P
    → ((a : A) → P a → Returns (f a) Q)
    → Returns (r >>= f) Q
Returns-bind P Q (ok a) f h k = k a h
Returns-bind P Q (err e) f h k = absurd h

pub Returns-mono {ℓ} :
    {A : Type ℓ} (P Q : A → Type 0) (r : Result A)
    → Returns r P
    → ((a : A) → P a → Q a)
    → Returns r Q
Returns-mono P Q (ok a) h k = k a h
Returns-mono P Q (err e) h k = absurd h
