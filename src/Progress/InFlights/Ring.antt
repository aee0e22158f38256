-- ===== src/Progress/InFlights/Ring.antt =====
-- The ring buffer of InFlights as the queue of the indices in flight, oldest first.
use kvd.Base.{
  ℕ, zero, suc, ◌+◌, ◌-◌, ◌^◌, ◌≤◌, ◌<◌, ◌≡◌, ◌⊎◌, inl, inr, refl, ◌∙◌, ap, ap₂, List, [], ◌∷◌,
  ◌++◌, arith, length, get_or, set, replicate, leb, if◌then◌else◌, add32-eq, err, fatal, Returns,
  Bool-cases, take-all, get_or-set_self, get_or-set_ne, get_or-append-replicate, length-append,
  length-replicate, length-set, lt→ltb, ==-ne,
}
use kvd.Progress.InFlights.{InFlights, new, is_full, next_slot, new_size, resize, assign, add}

-- An index past the end of a ring of `size` slots goes round once.
abbrev pub wrap : ℕ → ℕ → ℕ
wrap size k = if leb size k then k - size else k

-- The `n` values from slot `h` on.
abbrev pub window : List ℕ → ℕ → ℕ → ℕ → List ℕ
window buf size h zero = []
window buf size h (suc n) = get_or buf h 0 ∷ window buf size (wrap size (h + 1)) n

abbrev pub contents : InFlights → List ℕ
contents f = window f.buffer f.size f.start f.count

-- The slots in use are in the buffer, unless it has its full size. The size is far from the end of
-- a uint32_t, so that no sum of slots wraps.
pub record IsValid (f : InFlights) : Type 0 where
  pub small : f.size < 2 ^ 31
  pub start_in : f.start < f.size
  pub count_in : f.count ≤ f.size
  pub buffer_in : length f.buffer ≤ f.size
  pub covered : (f.start + f.count ≤ length f.buffer) ⊎ (length f.buffer ≡ f.size)

-- A new window is valid and empty.
pub new-IsValid :
    (n : ℕ) → 0 < n → n < 2 ^ 31 → IsValid (new n) × (contents (new n) ≡ []) × ((new n).size ≡ n)
unfolding new
new-IsValid n h k = (omega arith, refl, omega arith)

window-set :
    (buf grown : List ℕ) (size x n h i : ℕ)
    → ((j : ℕ) → get_or grown j 0 ≡ get_or buf j 0)
    → h < size
    → n < size
    → i ≡ wrap size (h + n)
    → i < length grown
    → window (set grown i x) size h (suc n) ≡ window buf size h n ++ (x ∷ [])
window-set buf grown size x zero h i same hh hn e b =
    let here : i ≡ h = ground arith in
    ap (λ y. y ∷ []) (rw here (get_or-set_self grown h x 0 (omega arith)))
window-set buf grown size x (suc n) h i same hh hn e b =
    ap₂ ◌∷◌ (get_or-set_ne grown {i = i} {j = h} x 0 (ground arith) ∙ same h) (
      window-set buf grown size x n (wrap size (h + 1)) i same (ground arith) (omega arith)
        (ground arith) b)

-- What the buffer is grown to.
abbrev pub grown_buffer : InFlights → List ℕ
grown_buffer f =
    if leb (length f.buffer) (next_slot f) then resize f.buffer (new_size f) else f.buffer

module _ (f : InFlights) (v : IsValid f) (room : f.count < f.size) where
  next_slot-wrap : next_slot f ≡ wrap f.size (f.start + f.count)
  unfolding next_slot
  next_slot-wrap = ground (arith, add32-eq f.start f.count, v)

  new_size-bounds :
      (length f.buffer ≤ next_slot f)
      → (next_slot f < new_size f) × (length f.buffer ≤ new_size f) × (new_size f ≤ f.size)
  unfolding new_size
  new_size-bounds full =
      ground (arith, next_slot-wrap, v.small, v.start_in, v.count_in, v.buffer_in, v.covered)

  grown-same : (j : ℕ) → get_or (grown_buffer f) j 0 ≡ get_or f.buffer j 0
  unfolding resize
  grown-same j = elim (Bool-cases (leb (length f.buffer) (next_slot f))) [
    | inl full ↦
        rw (full, take-all (new_size f) f.buffer (new_size-bounds (ground arith)).1)
          (get_or-append-replicate f.buffer (new_size f - length f.buffer) j 0)
    | inr fits ↦ rw fits refl
  ]

  grown-length :
      (next_slot f < length (grown_buffer f))
      × (length (grown_buffer f) ≤ f.size)
      × (length f.buffer ≤ length (grown_buffer f))
  unfolding resize
  grown-length = elim (Bool-cases (leb (length f.buffer) (next_slot f))) [
    | inl full ↦
        let (over, keeps, bound) = new_size-bounds (ground arith) in
        rw (full, take-all (new_size f) f.buffer keeps)
          (omega (
            arith,
            length-append f.buffer (replicate {A = ℕ} (new_size f - length f.buffer) 0),
            length-replicate {A = ℕ} (new_size f - length f.buffer) 0,
          ))
    | inr fits ↦ rw fits (ground (arith, v.buffer_in))
  ]

-- add to a window that is not full never fails: it puts the index at the end, and keeps the window
-- valid and its size.
pub add-contents :
    (f : InFlights) (x : ℕ)
    → IsValid f
    → f.count < f.size
    → Returns (add f x) λ g.
      IsValid g
      × (contents g ≡ contents f ++ (x ∷ []))
      × (g.size ≡ f.size)
      × (g.count ≡ f.count + 1)
unfolding add is_full assign
add-contents f x v room =
    let slot = next_slot-wrap f v room in
    let (inside, bound, kept) = grown-length f v room in
    let one : f.count + 1 ≡ suc f.count = omega arith in
    let len = length-set (grown_buffer f) (next_slot f) x in
    rw
      (
        ==-ne f.size f.count (omega arith),
        lt→ltb (next_slot f) (length (grown_buffer f)) inside,
        add32-eq f.count 1 (omega (arith, v.small)),
      )
      (
        record {
          small = v.small;
          start_in = v.start_in;
          count_in = omega arith;
          buffer_in = omega (arith, len);
          covered =
              ground (arith, slot, inside, bound, kept, len, v.covered, v.buffer_in, v.start_in);
        },
        rw one (
            window-set f.buffer (grown_buffer f) f.size x f.count f.start (next_slot f)
              (grown-same f v room) v.start_in room slot inside),
        refl,
        refl,
      )

-- A full window is the fatal error.
pub add-full : (f : InFlights) (x : ℕ) → f.count ≡ f.size → add f x ≡ err fatal
unfolding add is_full
add-full f x e = ground arith
