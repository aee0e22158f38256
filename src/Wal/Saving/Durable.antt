-- ===== src/Wal/Saving/Durable.antt =====
-- wal.cpp: what save gives the stream of the file is what read_all reads back.
use kvd.Base.{
  ℕ, suc, ◌+◌, ◌-◌, ◌<◌, ◌≡◌, refl, sym, ap, ap₂, ◌∙◌, inl, inr, true, false, ◌&&◌, List, [], ◌∷◌,
  ◌++◌, append-nil, append_assoc, map, Option, some, none, ltb, if◌then◌else◌, length,
  length-append, arith, ok, Bool-cases, Bool, subst, sub64, sub64-eq, take-all, u64_mod, lt→ltb,
  ==_iff, replicate,
}
use kvd.Proto.{Entry, HardState, is_empty_state}
use kvd.Ready.{is_nil, is_must_sync}
use kvd.Unstable.Entries.{Contiguous}
use kvd.Wal.{
  Codec, WalSnapshot, Wal, Progress, append, sync, segment_size_bytes, state_type, header_bytes,
  resize,
}
use kvd.Wal.Saving.{save_entry, save_entries, save_hard_state, save, cut}
use kvd.Wal.Reading.{read_file, finish}
use kvd.Wal.Reading.Records.{Rec, entry, state, snapshot, IsLawful, bytes_of, encode, Fits}
use kvd.Wal.Reading.Replay.{replay}
use kvd.Wal.Reading.Torn.{read_file-encode, before}

-- The records that save adds.
abbrev pub saved : HardState → List Entry → List Rec
saved hs es = map entry es ++ (if is_empty_state hs then [] else state hs ∷ [])

and_false : (b : Bool) → (b && false) ≡ false
and_false true = refl
and_false false = refl

must_sync : (hs prev : HardState) (n : ℕ) → is_must_sync hs prev (suc n) ≡ true
unfolding is_must_sync
must_sync hs prev n = ground arith

not_nil : (xs : List ℕ) (y : ℕ) (ys : List ℕ) → is_nil (xs ++ (y ∷ ys)) ≡ false
unfolding is_nil
not_nil [] y ys = refl
not_nil (x ∷ xs) y ys = refl

module _ (c : Codec) where
  encode-append : (xs ys : List Rec) → encode c (xs ++ ys) ≡ encode c xs ++ encode c ys
  encode-append [] ys = refl
  encode-append (x ∷ xs) ys =
      ap (◌++◌ (bytes_of c x)) (encode-append xs ys)
      ∙ sym (append_assoc (bytes_of c x) (encode c xs) (encode c ys))

  -- The log after records were added to its buffer.
  abbrev Adds : List Rec → Wal → Wal → Type 0
  Adds recs w v =
      (v.last ≡ record w.last { data_buffer = w.last.data_buffer ++ encode c recs })
      × (v.state ≡ w.state)

  save_entries-Adds : (es : List Entry) (w : Wal) → Adds (map entry es) w (save_entries c es w)
  unfolding save_entries save_entry append
  save_entries-Adds [] w = (ap (λ b. record w.last { data_buffer = b }) (sym (append-nil _)), refl)
  save_entries-Adds (e ∷ es) w =
      let (l, s) = save_entries-Adds es (save_entry c e w) in
      (
        l
            ∙ ap (λ b. record w.last { data_buffer = b })
                (append_assoc w.last.data_buffer (bytes_of c (entry e)) (encode c (map entry es))),
        s,
      )

  -- What save puts in the buffer before it syncs.
  saves :
      (hs : HardState) (es : List Entry) (w : Wal)
      → (save_hard_state c hs (save_entries c es w)).last
        ≡ record w.last { data_buffer = w.last.data_buffer ++ encode c (saved hs es) }
  unfolding save_hard_state append
  saves hs es w = elim (Bool-cases (is_empty_state hs)) [
    | inl nothing ↦ rw nothing (
        (save_entries-Adds es w).0
        ∙ ap (λ recs. record w.last { data_buffer = w.last.data_buffer ++ encode c recs })
            (sym (append-nil (map entry es))))
    | inr something ↦ rw something (
        ap (append c state_type (c.pack_state hs)) (save_entries-Adds es w).0
        ∙ ap (λ b. record w.last { data_buffer = b })
            (append_assoc w.last.data_buffer (encode c (map entry es)) (bytes_of c (state hs))
              ∙ ap (◌++◌ w.last.data_buffer) (
                  ap (◌++◌ (encode c (map entry es))) (sym (append-nil (bytes_of c (state hs))))
                  ∙ sym (encode-append (map entry es) (state hs ∷ [])))))
  ]

  -- Entries are always synced.
  save-syncs :
      (hs : HardState) (e : Entry) (es : List Entry) (w : Wal)
      → (save c hs (e ∷ es) w).last
        ≡ sync (record w.last { data_buffer = w.last.data_buffer ++ encode c (saved hs (e ∷ es)) })
  unfolding save cut is_nil
  save-syncs hs e es w =
      rw (and_false (is_empty_state hs), must_sync hs w.state (length es))
        (elim (Bool-cases (
          ltb (save_hard_state c hs (save_entries c (e ∷ es) w)).last.file_size
            segment_size_bytes)) [
              | inl small ↦ rw small (ap sync (saves hs (e ∷ es) w))
              | inr large ↦ rw large (ap sync (saves hs (e ∷ es) w))
            ])

  -- What the stream of the file was given after a save of entries.
  pub save-content :
      (hs : HardState) (e : Entry) (es : List Entry) (w : Wal)
      → (save c hs (e ∷ es) w).last.content
        ≡ w.last.content ++ (w.last.data_buffer ++ encode c (saved hs (e ∷ es)))
  unfolding sync header_bytes
  save-content hs e es w =
      ap (λ f. f.content) (save-syncs hs e es w) ∙ rw (not_nil w.last.data_buffer _ _) refl

-- The index of the last entry.
abbrev pub last_index : ℕ → List Entry → ℕ
last_index n [] = n
last_index n (e ∷ es) = last_index e.index es

resize-length : (xs : List (Option Entry)) → resize (length xs) xs ≡ xs
unfolding resize
resize-length xs =
    let nothing : length xs - length xs ≡ 0 = omega arith in
    ap₂ (λ ys n. ys ++ replicate n none) (take-all (length xs) xs (omega arith)) nothing
    ∙ append-nil xs

pub replay-entries :
    (start : WalSnapshot) (es : List Entry) (tail : List Rec) (p : Progress)
    → Contiguous (start.index + 1 + length p.ents) es
    → start.index + 1 + length p.ents + length es < u64_mod
    → replay start (map entry es ++ tail) p
      ≡ replay start tail (record p { ents = p.ents ++ map some es; enti = last_index p.enti es })
unfolding sub64
replay-entries start [] tail p c b =
    ap (λ ents. replay start tail (record p { ents = ents })) (sym (append-nil p.ents))
replay-entries start (e ∷ es) tail p c b =
    rw (lt→ltb start.index e.index (omega (arith, c.0)), at, resize-length p.ents)
      (replay-entries start es tail (record p { ents = p.ents ++ (some e ∷ []); enti = e.index })
          (subst (λ n. Contiguous n es) one_more c.1) (omega (arith, b, one_more))
        ∙ ap (λ ents. replay start tail (record p { ents = ents; enti = last_index e.index es }))
            (append_assoc p.ents (some e ∷ []) (map some es)))
  where
    one_more :
        suc (start.index + 1 + length p.ents) ≡ start.index + 1 + length (p.ents ++ (some e ∷ []))
    one_more = omega (arith, length-append p.ents (some e ∷ []))

    at : sub64 (sub64 e.index start.index) 1 ≡ length p.ents
    at = omega (arith, c.0, b, sub64-eq e.index start.index, sub64-eq (e.index - start.index) 1)

-- What has been read after a save of entries that continue the snapshot.
abbrev pub recovered : HardState → List Entry → Progress → Progress
recovered hs es p = record {
  hs = if is_empty_state hs then p.hs else hs;
  ents = map some es;
  enti = last_index p.enti es;
  matchsnap = true;
  cut = none;
  ended = true;
}

replay-tail :
    (start : WalSnapshot) (hs : HardState) (p : Progress)
    → replay start (if is_empty_state hs then [] else state hs ∷ []) p
      ≡ ok (record p { hs = if is_empty_state hs then p.hs else hs })
replay-tail start hs p = elim (Bool-cases (is_empty_state hs)) [
  | inl nothing ↦ rw nothing refl
  | inr something ↦ rw something refl
]

replay-saved :
    (start : WalSnapshot) (hs : HardState) (es : List Entry) (p : Progress)
    → p.ents ≡ []
    → Contiguous (start.index + 1) es
    → start.index + 1 + length es < u64_mod
    → replay start (snapshot start ∷ saved hs es) (before p)
      ≡ ok (record (recovered hs es p) { ended = false })
replay-saved start hs es p none_yet c b =
    rw ((==_iff start.index start.index).1 refl, (==_iff start.term start.term).1 refl, none_yet)
      (replay-entries start es (if is_empty_state hs then [] else state hs ∷ [])
          (record (before p) { ents = []; matchsnap = true })
          (subst (λ n. Contiguous n es) (omega arith) c) (omega (arith, b))
        ∙ replay-tail start hs _)

-- The entries that a save writes after the snapshot that a log starts at are read back by read_all,
-- in their order and with the hard state that was saved with them; nothing is cut off. The log holds
-- nothing but the snapshot before, and the entries continue it.
pub save-read_file :
    (c : Codec) (hs : HardState) (e : Entry) (es : List Entry) (w : Wal) (p : Progress)
    → IsLawful c
    → w.last.content ≡ encode c (snapshot w.start ∷ [])
    → w.last.data_buffer ≡ []
    → Fits c (snapshot w.start ∷ saved hs (e ∷ es))
    → Contiguous (w.start.index + 1) (e ∷ es)
    → w.start.index + 1 + length (e ∷ es) < u64_mod
    → p.ents ≡ []
    → read_file c w.start (save c hs (e ∷ es) w).last p
      ≡ ok (recovered hs (e ∷ es) p, (save c hs (e ∷ es) w).last)
unfolding finish
save-read_file c hs e es w p lawful on_disk empty fits ce b none_yet =
    read_file-encode c lawful w.start (snapshot w.start ∷ saved hs (e ∷ es))
      (save c hs (e ∷ es) w).last p fits content
    ∙ rw (replay-saved w.start hs (e ∷ es) p none_yet ce b) refl
  where
    content : (save c hs (e ∷ es) w).last.content ≡ encode c (snapshot w.start ∷ saved hs (e ∷ es))
    content =
        save-content c hs e es w
        ∙ ap₂ (λ xs ys. xs ++ (ys ++ encode c (saved hs (e ∷ es)))) (on_disk ∙ append-nil _) empty
