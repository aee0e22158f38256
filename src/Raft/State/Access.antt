-- ===== src/Raft/State/Access.antt =====
-- raft.cpp: the progress that is written through the pointer of get_progress is read back.
use kvd.Base.{
  ℕ, ◌≡◌, refl, sym, subst, inl, inr, none, some, lookup, lookup-insert, insert, Option-cases,
}
use kvd.Progress.{Progress}
use kvd.Raft.State.{Raft, get_progress, put_progress}

module _ (id : ℕ) (p : Progress) (r : Raft) (absent : lookup id r.prs ≡ none) where
  put_learner : put_progress id p r ≡ record r { learner_prs = insert id p r.learner_prs }
  unfolding put_progress
  put_learner = rw absent refl

  get_learner : get_progress (record r { learner_prs = insert id p r.learner_prs }) id ≡ some p
  unfolding get_progress
  get_learner = rw (get_progress, absent) (lookup-insert id p r.learner_prs)

pub get_progress-put :
    (id : ℕ) (p : Progress) (r : Raft) → get_progress (put_progress id p r) id ≡ some p
unfolding get_progress put_progress
get_progress-put id p r = elim (Option-cases (lookup id r.prs)) [
  | inr (v, found) ↦ rw (found, get_progress, lookup-insert id p r.prs) refl
  | inl absent ↦
      subst (λ s. get_progress s id ≡ some p) (sym (put_learner id p r absent))
        (get_learner id p r absent)
]
