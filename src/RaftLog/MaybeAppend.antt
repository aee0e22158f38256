-- ===== src/RaftLog/MaybeAppend.antt =====
-- raft_log.cpp: maybe_append, the check and the write of a follower's log.
use kvd.Base.{
  ℕ, min, max, ◌⊎◌, zero, suc, ◌+◌, ◌-◌, ◌≤◌, ◌<◌, ◌≡◌, ◌≢◌, refl, sym, ◌∙◌, ap, subst, List, [],
  ◌∷◌, some, none, arith, length, get_elem?, take, drop, ltb, u64_mod, inl, inr, Bool-cases, ok,
  err, fatal, add64, sub64, add64-eq, sub64-eq, Returns, Returns-bind, not-==_zero, get_elem?-some,
  get_elem?-drop, get_elem?-take, length-drop, take-all, ==_iff, le→leb, not-ltb, not-leb,
  erase_front,
}
use kvd.Proto.{Entry}
use kvd.Unstable.Entries.{Contiguous, Contiguous-drop, Contiguous-take}
use kvd.RaftLog.{RaftLog, append, append_from, maybe_append, commit_to}
use kvd.RaftLog.View.{IsValid, end_of, term_at, term_at-lt, entry_at}
use kvd.RaftLog.Terms.{Agrees, Conflict, find_conflict_value, match_term_lem}
use kvd.RaftLog.Commit.{commit_to_cases}
use kvd.RaftLog.Append.{Splices, append_at}

Agrees-intro :
    (l : RaftLog) (n : ℕ) (es : List Entry)
    → Contiguous n es
    → ((k : ℕ) (e : Entry) → get_elem? es k ≡ some e → e.term ≡ term_at l (n + k))
    → Agrees l es
Agrees-intro l n [] c h = tt
Agrees-intro l n (e ∷ es) c h =
    let here : e.index ≡ n + 0 = omega (arith, c.0) in
    (
      rw here (h 0 e refl),
      Agrees-intro l (suc n) es c.1 (λ k x p. h (suc k) x p ∙ ap (term_at l) (omega arith)),
    )

Agrees-elim :
    (l : RaftLog) (n : ℕ) (es : List Entry) (k : ℕ) (e : Entry)
    → Contiguous n es
    → Agrees l es
    → get_elem? es k ≡ some e
    → e.term ≡ term_at l (n + k)
Agrees-elim l n [] k e c a p = cc
Agrees-elim l n (x ∷ xs) zero e c a p =
    let here : x.index ≡ n + 0 = omega (arith, c.0) in cc (a.0, ap (term_at l) here)
Agrees-elim l n (x ∷ xs) (suc k) e c a p =
    Agrees-elim l (suc n) xs k e c.1 a.1 p ∙ ap (term_at l) (omega arith)

-- A conflict is 0, or a position of the entries before which they all agree with the log.
Conflict-cases :
    (l : RaftLog) (n : ℕ) (es : List Entry) (ci : ℕ)
    → 0 < n
    → Contiguous n es
    → Conflict l es ci
    → ((ci ≡ 0) × Agrees l es) ⊎ ((n ≤ ci) × (ci < n + length es) × Agrees l (take (ci - n) es))
Conflict-cases l n [] ci p c h = inl (h, tt)
Conflict-cases l n (e ∷ es) ci p c (inr (ne, at)) =
    let same : ci - n ≡ 0 = omega (arith, c.0) in
    inr (
      omega (arith, c.0),
      omega (arith, c.0),
      subst (λ k. Agrees l (take k (e ∷ es))) (sym same) tt,
    )
Conflict-cases l n (e ∷ es) ci p c (inl (eq, rest)) =
    elim (Conflict-cases l (suc n) es ci (omega arith) c.1 rest) [
      | inl (z, a) ↦ inl (z, (eq, a))
      | inr (lo, hi, a) ↦
          let next : ci - n ≡ suc (ci - suc n) = omega arith in
          inr (omega arith, omega arith, subst (λ k. Agrees l (take k (e ∷ es))) (sym next) (eq, a))
    ]

-- No entry has the term 0.
abbrev pub HasTerms : List Entry → Type 0
HasTerms [] = Unit {0}
HasTerms (e ∷ es) = (0 < e.term) × HasTerms es

HasTerms-elim :
    (es : List Entry) (k : ℕ) (e : Entry) → HasTerms es → get_elem? es k ≡ some e → 0 < e.term
HasTerms-elim [] k e h p = cc
HasTerms-elim (x ∷ xs) zero e h p = ground arith
HasTerms-elim (x ∷ xs) (suc k) e h p = HasTerms-elim xs k e h.1 p

-- The entries `es`, which start right after `index`, are in the log `w`; up to `index`, and up to
-- what `l` has committed, `w` is `l`.
pub record Written (l : RaftLog) (index : ℕ) (es : List Entry) (w : RaftLog) : Type 0 where
  pub valid : IsValid w
  pub committed : w.committed ≡ l.committed
  pub agrees : Agrees w es
  pub kept : (i : ℕ) → i ≤ max l.committed index → entry_at w i ≡ entry_at l i
  pub reaches : index + length es < end_of w

module _ (l : RaftLog) (index : ℕ) (es : List Entry) (v : IsValid l) (c : Contiguous (index + 1) es)
    (b : index + 1 + length es < u64_mod) (t : HasTerms es) (in_log : index < end_of l) where
  -- The log reaches past entries that agree with it.
  agreeing_reach : (k : ℕ) → k ≤ length es → Agrees l (take k es) → index + k < end_of l
  agreeing_reach zero h a = omega arith
  agreeing_reach (suc k) h a =
      let (e, p) = get_elem?-some es k h in
      let same : e.term ≡ term_at l (index + 1 + k) =
        Agrees-elim l (index + 1) (take (suc k) es) k e (Contiguous-take (index + 1) (suc k) es c) a
          (get_elem?-take (suc k) k es (omega arith) ∙ p) in
      omega
        (arith, same, HasTerms-elim es k e t p, term_at-lt l (index + 1 + k), v.unstable.bounded)

  unchanged-Written : Agrees l es → Written l index es l
  unchanged-Written a = record {
    valid = v;
    committed = refl;
    agrees = a;
    kept = λ i h. refl;
    reaches =
        agreeing_reach (length es) (omega arith)
          (subst (Agrees l) (sym (take-all (length es) es (omega arith))) a);
  }

  module _ (ci : ℕ) (after : index < ci) (past : l.committed < ci) (w : RaftLog)
      (sp : Splices l ci (drop (ci - (index + 1)) es) w) (inside : ci < index + 1 + length es)
      (a : Agrees l (take (ci - (index + 1)) es)) where
    spliced_term :
        (k : ℕ) (e : Entry) → get_elem? es k ≡ some e → e.term ≡ term_at w (index + 1 + k)
    spliced_term k e p = elim (Bool-cases (ltb (index + 1 + k) ci)) [
      | inl before ↦
          Agrees-elim l (index + 1) (take (ci - (index + 1)) es) k e
            (Contiguous-take (index + 1) (ci - (index + 1)) es c) a
            (get_elem?-take (ci - (index + 1)) k es (ground arith) ∙ p)
          ∙ ground (arith, sp.terms (index + 1 + k))
      | inr from ↦
          let position : ci - (index + 1) + (index + 1 + k - ci) ≡ k = ground arith in
          ground (
            arith,
            sp.terms (index + 1 + k),
            p,
            get_elem?-drop (ci - (index + 1)) (index + 1 + k - ci) es,
            ap (get_elem? es) position,
          )
    ]

    spliced-Written : Written l index es w
    spliced-Written = record {
      valid = sp.valid;
      committed = sp.committed;
      agrees = Agrees-intro w (index + 1) es c spliced_term;
      kept = λ i h. sp.entries i ∙ ground arith;
      reaches = omega (arith, sp.last, length-drop (ci - (index + 1)) es);
    }

  conflict_case :
      (ci : ℕ)
      → (ci ≡ 0) ⊎ (l.committed < ci)
      → index + 1 ≤ ci
      → ci < index + 1 + length es
      → Agrees l (take (ci - (index + 1)) es)
      → Returns (append_from l index ci es) (Written l index es)
  unfolding append_from erase_front
  conflict_case ci safe lo hi a =
      let n : ℕ = ci - (index + 1) in
      let past : l.committed < ci = omega arith in
      let count : sub64 ci (add64 index 1) ≡ n =
        ap (sub64 ci) (add64-eq index 1 (omega arith)) ∙ sub64-eq ci (index + 1) lo (omega arith) in
      let left : length (drop n es) ≡ length es - n = length-drop n es in
      let reach : index + n < end_of l = agreeing_reach n (omega arith) a in
      rw
        (
          not-==_zero ci (omega arith),
          not-leb ci l.committed past,
          count,
          not-ltb (length es) n (omega arith),
        )
        (Returns-bind (λ r. Splices l ci (drop n es) r.1) (Written l index es)
          (append l (drop n es)) (λ r. ok r.1)
          (append_at l ci (drop n es) v (Contiguous-drop (index + 1) ci n es (omega arith) c)
            (omega arith) (omega arith) past (omega arith))
          λ r sp. spliced-Written ci (omega arith) past r.1 sp hi a)

  -- The write of maybe_append, for a conflict past the commit index.
  append_from-Written :
      (ci : ℕ)
      → Conflict l es ci
      → (ci ≡ 0) ⊎ (l.committed < ci)
      → Returns (append_from l index ci es) (Written l index es)
  unfolding append_from erase_front
  append_from-Written ci cf safe = elim (Conflict-cases l (index + 1) es ci (omega arith) c cf) [
    | inl (z, a) ↦ rw z (unchanged-Written a)
    | inr (lo, hi, a) ↦ conflict_case ci safe lo hi a
  ]

term_at-committed : (l : RaftLog) (n i : ℕ) → term_at (record l { committed = n }) i ≡ term_at l i
unfolding term_at
term_at-committed l n i = refl

entry_at-committed :
    (l : RaftLog) (n i : ℕ) → entry_at (record l { committed = n }) i ≡ entry_at l i
unfolding entry_at
entry_at-committed l n i = refl

Agrees-committed :
    (l : RaftLog) (n : ℕ) (es : List Entry) → Agrees l es → Agrees (record l { committed = n }) es
Agrees-committed l n [] a = tt
Agrees-committed l n (e ∷ es) a =
    (a.0 ∙ sym (term_at-committed l n e.index), Agrees-committed l n es a.1)

-- What a follower's log is after it accepted entries, with the commit index `to` of the leader.
pub record Accepted (l : RaftLog) (index to : ℕ) (es : List Entry) (w : RaftLog) : Type 0 where
  pub valid : IsValid w
  pub committed : w.committed ≡ max l.committed (min to (index + length es))
  pub agrees : Agrees w es
  pub kept : (i : ℕ) → i ≤ max l.committed index → entry_at w i ≡ entry_at l i
  pub reaches : index + length es < end_of w

commit-Accepted :
    (l w : RaftLog) (index to : ℕ) (es : List Entry)
    → Written l index es w
    → Returns (commit_to w (min to (index + length es))) (Accepted l index to es)
commit-Accepted l w index to es p =
    elim (Bool-cases (ltb w.committed (min to (index + length es)))) [
      | inl later ↦
          let c : ℕ = min to (index + length es) in
          let (moved, valid) =
            (commit_to_cases w c p.valid).1 (ground arith) (omega (arith, p.reaches)) in
          rw moved (record {
            valid = valid;
            committed = ground (arith, p.committed);
            agrees = Agrees-committed w c es p.agrees;
            kept = λ i h. entry_at-committed w c i ∙ p.kept i h;
            reaches = p.reaches;
          })
      | inr same ↦
          rw ((commit_to_cases w (min to (index + length es)) p.valid).0 (ground arith)) (record {
            valid = p.valid;
            committed = ground (arith, p.committed);
            agrees = p.agrees;
            kept = p.kept;
            reaches = p.reaches;
          })
    ]

-- maybe_append changes nothing and refuses the entries when the log holds another term at the
-- position before them.
pub maybe_append-refuses :
    (l : RaftLog) (index log_term to : ℕ) (es : List Entry)
    → IsValid l
    → index < u64_mod
    → log_term ≢ term_at l index
    → maybe_append l index log_term to es ≡ ok (none, l)
unfolding maybe_append
maybe_append-refuses l index log_term to es v b ne =
    rw (match_term_lem l index log_term v b) (ground arith)

-- maybe_append of entries that start right after a position where the log holds the given term, and
-- of which none conflicts with a committed one, never fails. The log then agrees with all the
-- entries, is unchanged up to that position and up to the old commit index, and is committed up to
-- the leader's commit index or the last new entry, but never back.
pub maybe_append-Accepted :
    (l : RaftLog) (index to : ℕ) (es : List Entry) (ci : ℕ)
    → IsValid l
    → Contiguous (index + 1) es
    → index + 1 + length es < u64_mod
    → HasTerms es
    → index < end_of l
    → Conflict l es ci
    → (ci ≡ 0) ⊎ (l.committed < ci)
    → Returns
        (maybe_append l index (term_at l index) to es)
        λ r. (r.0 ≡ some (index + length es)) × Accepted l index to es r.1
unfolding maybe_append
maybe_append-Accepted l index to es ci v c b t in_log cf safe =
    rw
      (
        match_term_lem l index (term_at l index) v (omega arith),
        (==_iff (term_at l index) (term_at l index)).1 refl,
        find_conflict_value l (index + 1) es ci v c b cf,
        add64-eq index (length es) (omega arith),
      )
      (Returns-bind (Written l index es) _ (append_from l index ci es) _
        (append_from-Written l index es v c b t in_log ci cf safe)
        λ w p.
          Returns-bind (Accepted l index to es) _ (commit_to w (min to (index + length es))) _
            (commit-Accepted l w index to es p) λ w' q. (refl, q))

-- A conflict with a committed entry is the fatal error.
pub maybe_append-fatal :
    (l : RaftLog) (index to : ℕ) (es : List Entry) (ci : ℕ)
    → IsValid l
    → Contiguous (index + 1) es
    → index + 1 + length es < u64_mod
    → Conflict l es ci
    → 0 < ci
    → ci ≤ l.committed
    → maybe_append l index (term_at l index) to es ≡ err fatal
unfolding maybe_append append_from
maybe_append-fatal l index to es ci v c b cf pos early =
    rw
      (
        match_term_lem l index (term_at l index) v (omega arith),
        (==_iff (term_at l index) (term_at l index)).1 refl,
        find_conflict_value l (index + 1) es ci v c b cf,
        not-==_zero ci pos,
        le→leb ci l.committed early,
      )
      refl
