-- ===== src/Driver/Applying.antt =====
-- raft_node.cpp: which of the committed entries the driver applies, and in which order.
use kvd.Base.{
  ℕ, suc, ◌+◌, ◌-◌, ◌≤◌, ◌<◌, ◌≡◌, refl, sym, ap, ap₂, ◌∙◌, inl, inr, Bool, true, false, Bool-cases,
  List, [], ◌∷◌, length, drop, length-drop, drop-all, max, arith, ltb, leb, ◌==◌, if◌then◌else◌,
  u64_mod, add64-eq, add64, sub64, erase_front, ok, err, Result, ◌>>=◌, Option,
}
use kvd.Proto.{Entry, entry_normal}
use kvd.Unstable.Entries.{Contiguous, Contiguous-drop}
use kvd.Ready.{is_nil}
use kvd.Store.{RedisStore, RaftCommit, read_commit}
use kvd.Driver.{
  Outside, RaftNode, entries_to_apply, publish_entry, publish_entries, apply_committed,
}

-- The entries past a position.
unfoldable pub newer : ℕ → List Entry → List Entry
newer applied [] = []
newer applied (e ∷ es) =
    let rest = newer applied es in if ltb applied e.index then e ∷ rest else rest

newer-past :
    (n applied : ℕ) (es : List Entry) → Contiguous n es → applied < n → newer applied es ≡ es
unfolding newer
newer-past n applied [] c h = refl
newer-past n applied (e ∷ es) c h =
    let past : ltb applied e.index ≡ true = ground (arith, c.0) in
    rw (past, newer-past (suc n) applied es c.1 (omega arith)) refl

newer-drop :
    (n applied : ℕ) (es : List Entry)
    → Contiguous n es
    → n ≤ applied + 1
    → newer applied es ≡ drop (applied + 1 - n) es
unfolding newer
newer-drop n applied [] c h = sym (drop-all (applied + 1 - n) [] (omega arith))
newer-drop n applied (e ∷ es) c h = elim (Bool-cases (ltb applied n)) [
  | inl past ↦
      let here : applied + 1 - n ≡ 0 = ground arith in
      rw (here) (newer-past n applied (e ∷ es) c (ground arith))
  | inr before ↦
      let old : ltb applied e.index ≡ false = rw (c.0) before in
      let later : applied + 1 - n ≡ suc (applied + 1 - suc n) = ground arith in
      rw (old, later) (newer-drop (suc n) applied es c.1 (ground arith))
]

-- The uint64_t that counts the entries already applied: 0 where the first one is the next to apply.
applied_count : (a i : ℕ) → i ≤ a + 1 → a + 1 < u64_mod → add64 (sub64 a i) 1 ≡ a + 1 - i
unfolding add64 sub64
applied_count a i h k = omega arith

-- Among committed entries at consecutive positions, of which the first is at most one past the applied
-- index, exactly those past the applied index are to be applied, in their order.
pub entries_to_apply-newer :
    (d : RaftNode) (e : Entry) (es : List Entry)
    → Contiguous e.index (e ∷ es)
    → e.index ≤ d.applied_index + 1
    → d.applied_index + 1 < u64_mod
    → entries_to_apply d (e ∷ es) ≡ ok (newer d.applied_index (e ∷ es))
unfolding entries_to_apply erase_front
entries_to_apply-newer d e es c h k =
    let starts : leb e.index (add64 d.applied_index 1) ≡ true =
      ground (arith, add64-eq d.applied_index 1 k) in
    rw
      (
        starts,
        applied_count d.applied_index e.index h k,
        newer-drop e.index d.applied_index (e ∷ es) c h,
      )
      (elim (Bool-cases (ltb (d.applied_index + 1 - e.index) (length (e ∷ es)))) [
        | inl some_left ↦
            let within : ltb (length (e ∷ es)) (d.applied_index + 1 - e.index) ≡ false =
              ground arith in
            rw (some_left, within) refl
        | inr none_left ↦
            rw (none_left)
              (ap ok (sym (drop-all (d.applied_index + 1 - e.index) (e ∷ es) (ground arith))))
      ])

-- Entries that are no changes of the configuration.
unfoldable pub Normal : List Entry → Type 0
Normal [] = Unit {0}
Normal (e ∷ es) = (e.type ≡ entry_normal) × Normal es

-- The store after the commits of some entries; an entry without data is none.
unfoldable pub replayed : (List ℕ → Option RaftCommit) → List Entry → RedisStore → Result RedisStore
replayed unpack [] s = ok s
replayed unpack (e ∷ es) s =
    (if is_nil e.payload then ok s else read_commit unpack e s) >>= λ t. replayed unpack es t

-- What a chain of calls that returns went through.
returned :
    {A : Type 0} {B : Type 0} (r : Result A) (f : A → Result B) (b : B)
    → (r >>= f) ≡ ok b
    → (a : A) × (r ≡ ok a) × (f a ≡ ok b)
returned (ok a) f b e = (a, refl, e)
returned (err x) f b e = cc

publish_entry_lem :
    (o : Outside) (d : RaftNode) (e : Entry) (t : RedisStore)
    → e.type ≡ entry_normal
    → (if is_nil e.payload then ok d.redis_server else read_commit o.unpack_commit e d.redis_server)
      ≡ ok t
    → publish_entry o e d ≡ ok (true, record d { redis_server = t; applied_index = e.index })
unfolding publish_entry
publish_entry_lem o d e t n r = by_call ∙ ap (λ q. q >>= publish) r
  where
    publish : RedisStore → Result (Bool × RaftNode)
    publish u = ok (true, record d { redis_server = u; applied_index = e.index })

    normal : (e.type == entry_normal) ≡ true
    normal = rw n refl

    by_call : publish_entry o e d ≡ (
        (if is_nil e.payload
          then ok d.redis_server
          else read_commit o.unpack_commit e d.redis_server)
        >>= publish)
    by_call = elim (Bool-cases (is_nil e.payload)) [
      | inl no_data ↦ rw (normal, no_data) refl
      | inr some_data ↦ rw (normal, some_data) refl
    ]

newer-Normal : (applied : ℕ) (es : List Entry) → Normal es → Normal (newer applied es)
unfolding Normal newer
newer-Normal applied [] n = tt
newer-Normal applied (e ∷ es) n = elim (Bool-cases (ltb applied e.index)) [
  | inl past ↦ rw (past) (n.0, newer-Normal applied es n.1)
  | inr before ↦ rw (before) (newer-Normal applied es n.1)
]

publish_entries-Normal :
    (o : Outside) (d : RaftNode) (es : List Entry) (s : RedisStore)
    → Normal es
    → Contiguous (suc d.applied_index) es
    → replayed o.unpack_commit es d.redis_server ≡ ok s
    → publish_entries o es d
      ≡ ok (true, record d { redis_server = s; applied_index = d.applied_index + length es })
unfolding publish_entries Normal replayed
publish_entries-Normal o d [] s n c r =
    let same : d.redis_server ≡ s = cc in
    ap₂ (λ t i. ok (true, record d { redis_server = t; applied_index = i })) same (omega arith)
publish_entries-Normal o d (e ∷ es) s n c r =
    let (t, called, left) =
      returned
        (if is_nil e.payload
          then ok d.redis_server
          else read_commit o.unpack_commit e d.redis_server)
        (replayed o.unpack_commit es) s r in
    let next : RaftNode = record d { redis_server = t; applied_index = e.index } in
    rw (publish_entry_lem o d e t n.0 called) (
      publish_entries-Normal o next es s n.1 (rw (c.0) c.1) left
      ∙ ap (λ i. ok (true, record d { redis_server = s; applied_index = i })) (omega (arith, c.0)))

-- Committed entries at consecutive positions, of which the first is at most one past the applied index
-- and none changes the configuration, are handed to the driver. It applies exactly those past the
-- applied index, each once and in their order, so that the store holds what replaying them gives; then
-- the applied index is at the last of them, and never moves back. The rest of the driver stays as it
-- was. The commits that are replayed can be applied.
pub apply_committed-once :
    (o : Outside) (d : RaftNode) (e : Entry) (es : List Entry) (s : RedisStore)
    → Contiguous e.index (e ∷ es)
    → Normal (e ∷ es)
    → e.index ≤ d.applied_index + 1
    → d.applied_index + 1 < u64_mod
    → replayed o.unpack_commit (newer d.applied_index (e ∷ es)) d.redis_server ≡ ok s
    → apply_committed o (e ∷ es) d
      ≡ ok
          (record d { redis_server = s; applied_index = max d.applied_index (e.index + length es) })
unfolding apply_committed
apply_committed-once o d e es s c n h k r =
    let dropped : newer d.applied_index (e ∷ es) ≡ drop (d.applied_index + 1 - e.index) (e ∷ es) =
      newer-drop e.index d.applied_index (e ∷ es) c h in
    let from_next : Contiguous (suc d.applied_index) (newer d.applied_index (e ∷ es)) =
      rw (dropped) (
        Contiguous-drop e.index (suc d.applied_index) (d.applied_index + 1 - e.index) (e ∷ es)
          (omega arith) c) in
    rw
      (
        entries_to_apply-newer d e es c h k,
        publish_entries-Normal o d (newer d.applied_index (e ∷ es)) s
            (newer-Normal d.applied_index (e ∷ es) n) from_next r,
      )
      (ap (λ i. ok (record d { redis_server = s; applied_index = i }))
        (omega (arith, ap length dropped, length-drop (d.applied_index + 1 - e.index) (e ∷ es))))
