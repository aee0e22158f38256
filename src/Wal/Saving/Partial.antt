-- ===== src/Wal/Saving/Partial.antt =====
-- wal.cpp: what read_all finds of a save of which only the first bytes reached the disk.
use kvd.Base.{
  ℕ, suc, ◌+◌, ◌-◌, ◌<◌, ◌≡◌, ◌⊎◌, refl, sym, ap, ap₂, ◌∙◌, subst, inl, inr, true, Bool-cases, List,
  [], ◌∷◌, ◌++◌, map, append-nil, some, if◌then◌else◌, ltb, length, length-append, take, arith, ok,
  u64_mod, ==_iff,
}
use kvd.Proto.{Entry, HardState, is_empty_state}
use kvd.Unstable.Entries.{Contiguous}
use kvd.Wal.{Codec, Wal, WalSnapshot, WalFile, Progress}
use kvd.Wal.Saving.{save}
use kvd.Wal.Saving.Durable.{saved, save-content, replay-entries, last_index}
use kvd.Wal.Reading.{read_file}
use kvd.Wal.Reading.Records.{Rec, entry, state, snapshot, IsLawful, bytes_of, encode, Fits}
use kvd.Wal.Reading.Replay.{replay}
use kvd.Wal.Reading.Torn.{before}
use kvd.Wal.Reading.Partial.{
  whole_records, whole_records-Fits, Ends, Ends-behind, take-Ends, take-past, read_file-Ends,
}

-- A prefix of the entries without a gap has none.
pub Contiguous-first :
    (n : ℕ) (done left : List Entry) → Contiguous n (done ++ left) → Contiguous n done
Contiguous-first n [] left h = tt
Contiguous-first n (e ∷ done) left h = (h.0, Contiguous-first (suc n) done left h.1)

module _ (c : Codec) where
  -- The entries of which the records lie within the first bytes.
  abbrev pub whole_entries : ℕ → List Entry → List Entry
  whole_entries n [] = []
  whole_entries n (e ∷ es) =
      let rest = whole_entries (n - length (bytes_of c (entry e))) es in
      if ltb n (length (bytes_of c (entry e))) then [] else e ∷ rest

  tail_whole :
      (hs : HardState) (n : ℕ)
      → let t = whole_records c n (if is_empty_state hs then [] else state hs ∷ []) in
        (t ≡ []) ⊎ (t ≡ state hs ∷ [])
  tail_whole hs n = elim (Bool-cases (is_empty_state hs)) [
    | inl nothing ↦ rw nothing (inl refl)
    | inr something ↦ rw something (elim (Bool-cases (ltb n (length (bytes_of c (state hs))))) [
      | inl part ↦ rw part (inl refl)
      | inr whole ↦ rw whole (inr refl)
    ])
  ]

  -- The records of a save that are there as a whole: entries, and maybe the hard state.
  saved_whole :
      (hs : HardState) (es : List Entry) (n : ℕ)
      → (left : List Entry) × (t : List Rec) × (es ≡ whole_entries n es ++ left)
        × ((n < length (encode c (saved hs es))) ⊎ (whole_entries n es ≡ es))
        × (whole_records c n (saved hs es) ≡ map entry (whole_entries n es) ++ t)
        × ((t ≡ []) ⊎ (t ≡ state hs ∷ []))
  saved_whole hs [] n = (
    [],
    whole_records c n (if is_empty_state hs then [] else state hs ∷ []),
    refl,
    inr refl,
    refl,
    tail_whole hs n,
  )
  saved_whole hs (e ∷ es) n = elim (Bool-cases (ltb n (length (bytes_of c (entry e))))) [
    | inl part ↦
        let short : n < length (bytes_of c (entry e)) = ground (arith, part) in
        let shorter : n < length (encode c (saved hs (e ∷ es))) =
          omega (arith, short, length-append (bytes_of c (entry e)) (encode c (saved hs es))) in
        rw part (e ∷ es, [], refl, inl shorter, refl, inl refl)
    | inr whole ↦
        let (left, t, split, all, same, tail) =
          saved_whole hs es (n - length (bytes_of c (entry e))) in
        rw whole (
          left,
          t,
          ap (◌∷◌ e) split,
          elim all [
            | inl less ↦
                inl (
                  omega
                    (arith, less, length-append (bytes_of c (entry e)) (encode c (saved hs es))))
            | inr every ↦ inr (ap (◌∷◌ e) every)
          ],
          ap (◌∷◌ (entry e)) same,
          tail,
        )
  ]

  replay-done :
      (start : WalSnapshot) (hs : HardState) (done : List Entry) (t : List Rec) (p : Progress)
      → (t ≡ []) ⊎ (t ≡ state hs ∷ [])
      → p.ents ≡ []
      → Contiguous (start.index + 1) done
      → start.index + 1 + length done < u64_mod
      → (q : Progress) × (replay start (snapshot start ∷ (map entry done ++ t)) (before p) ≡ ok q)
        × (q.matchsnap ≡ true)
        × (q.ents ≡ map some done)
  replay-done start hs done t p tail none_yet k b =
      let entries_read : replay start (snapshot start ∷ (map entry done ++ t)) (before p)
          ≡ replay start t (record (before p) {
            ents = map some done;
            matchsnap = true;
            enti = last_index p.enti done;
          }) =
        rw
          ((==_iff start.index start.index).1 refl, (==_iff start.term start.term).1 refl, none_yet)
          (replay-entries start done t (record (before p) { ents = []; matchsnap = true })
            (subst (λ n. Contiguous n done) (omega arith) k) (omega (arith, b))) in
      elim tail [
        | inl ends ↦ (
          record (before p) {
            ents = map some done;
            matchsnap = true;
            enti = last_index p.enti done;
          },
          entries_read ∙ rw ends refl,
          refl,
          refl,
        )
        | inr last ↦ (
          record (before p) {
            hs = hs;
            ents = map some done;
            matchsnap = true;
            enti = last_index p.enti done;
          },
          entries_read ∙ rw last refl,
          refl,
          refl,
        )
      ]

  -- The first bytes of a save behind the record of the snapshot: read_all finds the first of the entries.
  pub save-read_first :
      (hs : HardState) (e : Entry) (es : List Entry) (w : Wal) (p : Progress) (f : WalFile) (n : ℕ)
      → IsLawful c
      → w.last.content ≡ encode c (snapshot w.start ∷ [])
      → w.last.data_buffer ≡ []
      → f.content ≡ take (length w.last.content + n) (save c hs (e ∷ es) w).last.content
      → Fits c (snapshot w.start ∷ saved hs (e ∷ es))
      → Contiguous (w.start.index + 1) (e ∷ es)
      → w.start.index + 1 + length (e ∷ es) < u64_mod
      → p.ents ≡ []
      → (left : List Entry) × (e ∷ es ≡ whole_entries n (e ∷ es) ++ left)
        × ((n < length (encode c (saved hs (e ∷ es)))) ⊎ (whole_entries n (e ∷ es) ≡ e ∷ es))
        × ((r : Progress) × (g : WalFile) × (read_file c w.start f p ≡ ok (r, g))
            × (r.ents ≡ map some (whole_entries n (e ∷ es))))
  save-read_first hs e es w p f n lawful on_disk empty first fits k b none_yet =
      let done : List Entry = whole_entries n (e ∷ es) in
      let (left, t, split, all, same, tail) = saved_whole hs (e ∷ es) n in
      let contiguous : Contiguous (w.start.index + 1) done =
        Contiguous-first (w.start.index + 1) done left
          (subst (Contiguous (w.start.index + 1)) split k) in
      let bounded : w.start.index + 1 + length done < u64_mod =
        omega (arith, b, ap length split, length-append done left) in
      let (q, replayed, matches, got) =
        replay-done w.start hs done t p tail none_yet contiguous bounded in
      let content : f.content
          ≡ bytes_of c (snapshot w.start) ++ take n (encode c (saved hs (e ∷ es))) =
        first
        ∙ ap₂ take (ap (λ xs. length xs + n) begins)
            (save-content c hs e es w ∙ ap₂ joined begins empty)
        ∙ take-past (bytes_of c (snapshot w.start)) (encode c (saved hs (e ∷ es)))
            (length (bytes_of c (snapshot w.start)) + n) (omega arith)
        ∙ ap (λ m. bytes_of c (snapshot w.start) ++ take m (encode c (saved hs (e ∷ es))))
            (omega arith) in
      let ends : Ends c f.content (snapshot w.start ∷ (map entry done ++ t)) =
        subst (λ recs. Ends c f.content (snapshot w.start ∷ recs)) same
          (subst (λ bytes. Ends c bytes (snapshot w.start ∷ whole_records c n (saved hs (e ∷ es))))
            (sym content)
            (Ends-behind c (snapshot w.start) (take n (encode c (saved hs (e ∷ es))))
              (whole_records c n (saved hs (e ∷ es)))
              (take-Ends c n (saved hs (e ∷ es)) fits.1))) in
      let (r, g, reading, ents) =
        read_file-Ends c w.start (snapshot w.start ∷ (map entry done ++ t)) f p q lawful
          (fits.0, subst (Fits c) same (whole_records-Fits c n (saved hs (e ∷ es)) fits.1)) ends
          replayed matches in
      (left, split, all, (r, g, reading, ents ∙ got))
    where
      begins : w.last.content ≡ bytes_of c (snapshot w.start)
      begins = on_disk ∙ append-nil _

      joined : List ℕ → List ℕ → List ℕ
      joined xs ys = xs ++ (ys ++ encode c (saved hs (e ∷ es)))
