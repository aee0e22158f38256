-- ===== src/Store/View.antt =====
-- The store as a function from keys to values.
use kvd.Base.{
  ℕ, ◌≡◌, refl, ap, ap₂, ◌∙◌, inl, inr, Bool, true, false, ◌||◌, List, [], ◌∷◌, Option, none, some,
  ◌==◌, if◌then◌else◌, Bool-cases, lookup, ok, Returns, Returns-value, Returns-ok, Option-cases,
  subst, arith,
}
use kvd.Proto.{Entry, Status, okay}
use kvd.ReadOnly.{bytes_eq}
use kvd.Store.{
  RedisStore, RedisCommitData, RaftCommit, find_key, set_key, erase_key, erase_keys, get, answer,
  apply_commit, read_commit, k_commit_set, k_commit_del,
}

abbrev pub Map : Type 0
Map = List ℕ → Option (List ℕ)

bytes_eq_sound : (xs ys : List ℕ) → bytes_eq xs ys ≡ true → xs ≡ ys
unfolding bytes_eq
bytes_eq_sound [] [] h = refl
bytes_eq_sound [] (y ∷ ys) h = cc
bytes_eq_sound (x ∷ xs) [] h = cc
bytes_eq_sound (x ∷ xs) (y ∷ ys) h =
    ap₂ ◌∷◌ (ground (arith, h)) (bytes_eq_sound xs ys (ground (arith, h)))

bytes_eq_comm : (xs ys : List ℕ) → bytes_eq xs ys ≡ bytes_eq ys xs
unfolding bytes_eq
bytes_eq_comm [] [] = refl
bytes_eq_comm [] (y ∷ ys) = refl
bytes_eq_comm (x ∷ xs) [] = refl
bytes_eq_comm (x ∷ xs) (y ∷ ys) = ground (arith, bytes_eq_comm xs ys)

if_twice :
    {A : Type 0} (b : Bool) (x y z : A)
    → (if b then x else z) ≡ (if b then x else if b then y else z)
if_twice true x y z = refl
if_twice false x y z = refl

-- A key is not both of two keys that differ.
apart :
    {A : Type 0} (i k j : List ℕ) (x y z : A)
    → bytes_eq i k ≡ false
    → (if bytes_eq i j then x else if bytes_eq k j then y else z)
      ≡ (if bytes_eq k j then y else if bytes_eq i j then x else z)
apart i k j x y z h = elim (Bool-cases (bytes_eq k j)) [
  | inr other ↦ rw other refl
  | inl same ↦
      let no : bytes_eq i j ≡ false =
        subst (λ l. bytes_eq i l ≡ false) (bytes_eq_sound k j same) h in
      rw (same, no) refl
]

find-set :
    (k v j : List ℕ) (m : List (List ℕ × List ℕ))
    → find_key j (set_key k v m) ≡ (if bytes_eq k j then some v else find_key j m)
unfolding find_key set_key
find-set k v j [] = refl
find-set k v j ((i, w) ∷ m) = elim (Bool-cases (bytes_eq i k)) [
  | inl same ↦
      rw same
        (rw (bytes_eq_sound i k same) (if_twice (bytes_eq k j) (some v) (some w) (find_key j m)))
  | inr other ↦ rw (other, find-set k v j m) (apart i k j (some w) (some v) (find_key j m) other)
]

find-erase :
    (k j : List ℕ) (m : List (List ℕ × List ℕ))
    → find_key j (erase_key k m) ≡ (if bytes_eq k j then none else find_key j m)
unfolding find_key erase_key
find-erase k j [] = ground arith
find-erase k j ((i, w) ∷ m) = elim (Bool-cases (bytes_eq i k)) [
  | inl same ↦ rw same (
      find-erase k j m
      ∙ rw (bytes_eq_sound i k same) (if_twice (bytes_eq k j) none (some w) (find_key j m)))
  | inr other ↦ rw (other, find-erase k j m) (apart i k j (some w) none (find_key j m) other)
]

abbrev pub mentions : List (List ℕ) → List ℕ → Bool
mentions [] j = false
mentions (k ∷ ks) j = bytes_eq k j || mentions ks j

find-erase_keys :
    (ks : List (List ℕ)) (j : List ℕ) (m : List (List ℕ × List ℕ))
    → find_key j (erase_keys ks m) ≡ (if mentions ks j then none else find_key j m)
unfolding erase_keys
find-erase_keys [] j m = refl
find-erase_keys (k ∷ ks) j m =
    find-erase_keys ks j (erase_key k m) ∙ rw (find-erase k j m) (ground arith)

-- The requests that a store understands.
pub data Request : RedisCommitData → Type 0 where
  setting : (k v : List ℕ) → Request (record { type = k_commit_set; strs = k ∷ v ∷ [] })
  deleting : (ks : List (List ℕ)) → Request (record { type = k_commit_del; strs = ks })

-- What a request does to the function from keys to values.
abbrev pub updated : {d : RedisCommitData} → Request d → Map → Map
updated (setting k v) f j = if bytes_eq k j then some v else f j
updated (deleting ks) f j = if mentions ks j then none else f j

apply_commit-updated :
    (d : RedisCommitData) (r : Request d) (m : List (List ℕ × List ℕ))
    → Returns (apply_commit d m) λ n. (j : List ℕ) → find_key j n ≡ updated r (λ k. find_key k m) j
unfolding apply_commit
apply_commit-updated d (setting k v) m = λ j. find-set k v j m
apply_commit-updated d (deleting ks) m = λ j. find-erase_keys ks j m

answer_lem :
    (id : ℕ) (status : Status) (s : RedisStore) → (answer id status s).key_values ≡ s.key_values
unfolding answer
answer_lem id status s = elim (Option-cases (lookup id s.pending_requests)) [
  | inl absent ↦ rw (answer, absent) refl
  | inr (c, found) ↦ rw (answer, found) refl
]

read_commit-ok :
    (unpack : List ℕ → Option RaftCommit) (e : Entry) (s : RedisStore) (commit : RaftCommit)
    (m : List (List ℕ × List ℕ))
    → unpack e.payload ≡ some commit
    → apply_commit commit.redis_data s.key_values ≡ ok m
    → read_commit unpack e s
      ≡ ok (
          if commit.node_id == s.node_id
          then answer commit.commit_id okay (record s { key_values = m })
          else record s { key_values = m })
unfolding read_commit
read_commit-ok unpack e s commit m h same = rw (read_commit, h, same) refl

-- read_commit of a committed set or del never fails, and does to the function from keys to values what
-- the request says: a set gives its key the value, a del takes its keys away, and no other key changes.
pub read_commit-updated :
    (unpack : List ℕ → Option RaftCommit) (e : Entry) (s : RedisStore) (commit : RaftCommit)
    (r : Request commit.redis_data)
    → unpack e.payload ≡ some commit
    → Returns (read_commit unpack e s) λ t. (j : List ℕ) → get j t ≡ updated r (λ k. get k s) j
unfolding get
read_commit-updated unpack e s commit r h =
    let (m, same, agree) =
      Returns-value _ (apply_commit commit.redis_data s.key_values)
        (apply_commit-updated commit.redis_data r s.key_values) in
    Returns-ok _ (read_commit-ok unpack e s commit m h same)
      (λ j. ap (find_key j) (answered (commit.node_id == s.node_id) m) ∙ agree j)
  where
    answered :
        (own : Bool) (m : List (List ℕ × List ℕ))
        → (if own
            then answer commit.commit_id okay (record s { key_values = m })
            else record s { key_values = m }).key_values
          ≡ m
    answered true m = answer_lem commit.commit_id okay (record s { key_values = m })
    answered false m = refl
