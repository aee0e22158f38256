-- ===== src/Session/Resp/Arrays.antt =====
-- redis_session.cpp: the reply of keys, read by the protocol of Redis.
use kvd.Base.{
  ℕ, suc, ◌^◌, ◌<◌, ◌≤◌, ◌≡◌, refl, sym, ap, ◌∙◌, Bool, false, Bool-cases, inl, inr, List, [], ◌∷◌,
  ◌++◌, append_assoc, append-nil, some, arith, length,
}
use kvd.Store.Glob.Plain.{matches_key-empty}
use kvd.Store.Glob.Total.{selected, matched, matches_key-matched, KeysFit}
use kvd.Session.Replies.{crlf, decimal, element_text, element_texts, array_text}
use kvd.Session.Resp.{read_bulk, read_bulks, read_array, read_number-decimal, read_bulk-text}

-- Strings that are not empty and whose length is a uint64_t.
unfoldable pub AreTexts : List (List ℕ) → Type 0
AreTexts [] = Unit
AreTexts (str ∷ strs) = (0 < length str) × (length str < 2 ^ 64) × AreTexts strs

read_bulk-element_text :
    (str bytes : List ℕ)
    → 0 < length str
    → length str < 2 ^ 64
    → read_bulk (element_text str ++ bytes) ≡ some (str, bytes)
unfolding element_text
read_bulk-element_text [] bytes some_bytes h = absurd (omega arith)
read_bulk-element_text (c ∷ str) bytes some_bytes h =
    ap read_bulk (moved (decimal (suc (length str))) (c ∷ str)) ∙ read_bulk-text (c ∷ str) bytes h
  where
    moved :
        (number text : List ℕ)
        → (b'$' ∷ (number ++ (crlf ++ (text ++ crlf)))) ++ bytes
          ≡ b'$' ∷ (number ++ (crlf ++ (text ++ (crlf ++ bytes))))
    moved number text = simp append_assoc refl

read_bulks-element_texts :
    (strs : List (List ℕ)) (bytes : List ℕ)
    → AreTexts strs
    → read_bulks (length strs) (element_texts strs ++ bytes) ≡ some (strs, bytes)
unfolding read_bulks element_texts AreTexts
read_bulks-element_texts [] bytes k = refl
read_bulks-element_texts (str ∷ strs) bytes (some_bytes, h, others) =
    let moved = append_assoc (element_text str) (element_texts strs) bytes in
    ap (read_bulks (suc (length strs))) moved
    ∙ rw
        (
          read_bulks,
          read_bulk-element_text str (element_texts strs ++ bytes) some_bytes h,
          read_bulks-element_texts strs bytes others,
        )
        refl

pub read_array-array_text :
    (strs : List (List ℕ))
    → AreTexts strs
    → length strs < 2 ^ 64
    → read_array (array_text strs) ≡ some (strs, [])
unfolding read_array array_text
read_array-array_text strs k h = rw (read_number-decimal (length strs) (element_texts strs) h) (
    ap (read_bulks (length strs)) (sym (append-nil (element_texts strs)))
    ∙ read_bulks-element_texts strs [] k)

selected-AreTexts :
    (test : List ℕ → Bool) (m : List (List ℕ × List ℕ))
    → test [] ≡ false
    → KeysFit m
    → AreTexts (selected test m) × (length (selected test m) ≤ length m)
unfolding selected AreTexts KeysFit
selected-AreTexts test [] e k = (tt, omega arith)
selected-AreTexts test (([], v) ∷ m) e (h, k) =
    let (texts, fewer) = selected-AreTexts test m e k in rw e (texts, omega (arith, fewer))
selected-AreTexts test ((c ∷ key, v) ∷ m) e (h, k) =
    let (texts, fewer) = selected-AreTexts test m e k in
    elim (Bool-cases (test (c ∷ key))) [
      | inl found ↦ rw found ((omega arith, omega (arith, h), texts), omega (arith, fewer))
      | inr other ↦ rw other (texts, omega (arith, fewer))
    ]

-- The keys that match a pattern that is not empty are read from the text of the reply.
pub read_array-selected :
    (c : ℕ) (p : List ℕ) (m : List (List ℕ × List ℕ))
    → KeysFit m
    → length m < 2 ^ 64
    → read_array (array_text (selected (matched (c ∷ p)) m))
      ≡ some (selected (matched (c ∷ p)) m, [])
read_array-selected c p m k h =
    let never : matched (c ∷ p) [] ≡ false =
      (let answer = matches_key-matched (c ∷ p) [] in let no_match = matches_key-empty c p in cc) in
    let (texts, fewer) = selected-AreTexts (matched (c ∷ p)) m never k in
    read_array-array_text (selected (matched (c ∷ p)) m) texts (omega arith)
