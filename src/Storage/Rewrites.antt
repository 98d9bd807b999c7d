-- ===== src/Storage/Rewrites.antt =====
-- The rewrites of the event log of components/storage/dd_storage.c: by time, by worker and by event.
use dingdong.Common.{
  Option-cases, ℕ, ◌+◌, ◌≤◌, ◌<◌, ◌≡◌, refl, sym, ap, ◌∙◌, Bool, true, false, ◌&&◌, ◌||◌, Option,
  none, some, List, [], ◌∷◌, ◌++◌, append_assoc, map, All, arith, length, ◌==◌, if◌then◌else◌,
  Bool-cases, inl, inr, Err,
}
use dingdong.Stdio.{newline, fgets_all}
use dingdong.Stdio.Lines.{IsLine, ended, join}
use dingdong.Storage.{Store, Io, opened, contents}
use dingdong.Storage.Files.{IsEvent, Holds}
use dingdong.Stdio.Lines.{fgets_all-join}
use dingdong.Storage.Delete.{Kept, filter_pieces, finish_delete, delete_where, delete_limit}

-- Lines that one fgets with a buffer of `limit + 1` bytes reads whole.
abbrev pub Fits : ℕ → List (List ℕ) → Type 0
Fits limit lines = All (λ line. IsLine line × (length line < limit)) lines

-- The lines that a test does not drop.
abbrev pub without : (List ℕ → Bool) → List (List ℕ) → List (List ℕ)
without drops [] = []
without drops (line ∷ lines) =
    if drops (ended line) then without drops lines else line ∷ without drops lines

filter_pieces-ended :
    (drops : List ℕ → Bool) (lines : List (List ℕ))
    → let k = filter_pieces drops (map ended lines) in
      (k.out ≡ join (without drops lines))
      × (k.kept ≡ length (without drops lines))
      × (k.kept + k.dropped ≡ length lines)
unfolding filter_pieces
filter_pieces-ended drops [] = (refl, refl, omega arith)
filter_pieces-ended drops (line ∷ lines) = elim (Bool-cases (drops (ended line))) [
  | inl gone ↦ let (o, k, d) = filter_pieces-ended drops lines in rw gone (o, k, omega arith)
  | inr stays ↦
      let (o, k, d) = filter_pieces-ended drops lines in
      rw stays (
        append_assoc line (newline ∷ []) (filter_pieces drops (map ended lines)).out
            ∙ ap (λ r. line ++ (newline ∷ r)) o,
        omega arith,
        omega arith,
      )
]

All-without :
    (drops : List ℕ → Bool) (lines : List (List ℕ))
    → All IsEvent lines
    → All IsEvent (without drops lines)
All-without drops [] a = tt
All-without drops (line ∷ lines) a = elim (Bool-cases (drops (ended line))) [
  | inl gone ↦ rw gone (All-without drops lines a.1)
  | inr stays ↦ rw stays (a.0, All-without drops lines a.1)
]

length-without :
    (drops : List ℕ → Bool) (lines : List (List ℕ)) → length (without drops lines) ≤ length lines
length-without drops [] = omega arith
length-without drops (line ∷ lines) = ground (arith, length-without drops lines)

-- A test that drops nothing.
without-all :
    (drops : List ℕ → Bool) (lines : List (List ℕ))
    → length (without drops lines) ≡ length lines
    → without drops lines ≡ lines
without-all drops [] e = refl
without-all drops (line ∷ lines) e = elim (Bool-cases (drops (ended line))) [
  | inl gone ↦ absurd (ground (arith, length-without drops lines))
  | inr stays ↦ rw stays (ap (λ r. line ∷ r) (without-all drops lines (ground arith)))
]

nil_of_length {ℓ} : {A : Type ℓ} (xs : List A) → length xs ≡ 0 → xs ≡ []
nil_of_length [] e = refl
nil_of_length (x ∷ xs) e = absurd (omega arith)

-- What the calls of a rewrite answer: whether the loop's writes and the closing go well, and where a renaming is
-- needed, that too.
abbrev pub goes_well : Io → List (List ℕ) → List (List ℕ) → Bool
goes_well io lines kept =
    io.writes && io.close_out && ((length kept == length lines) || (length kept == 0) || io.renames)

-- How the rewrite ends, by what the calls answer.
data Ends (io : Io) (k : Kept) (s : Store) (r : Err × Store) : Type 0 where
  failed :
      (io.writes && io.close_out && ((k.dropped == 0) || (k.kept == 0) || io.renames)) ≡ false
      → r.0 ≡ Err.fail
      → r.1.events ≡ s.events
      → r.1.event_count ≡ s.event_count
      → Ends io k s r
  untouched :
      (io.writes && io.close_out) ≡ true
      → r.0 ≡ Err.ok
      → k.dropped ≡ 0
      → r.1.events ≡ s.events
      → r.1.event_count ≡ s.event_count
      → Ends io k s r
  emptied :
      (io.writes && io.close_out) ≡ true
      → r.0 ≡ Err.ok
      → k.kept ≡ 0
      → contents r.1 ≡ []
      → r.1.event_count ≡ 0
      → Ends io k s r
  replaced :
      (io.writes && io.close_out && io.renames) ≡ true
      → r.0 ≡ Err.ok
      → contents r.1 ≡ k.out
      → r.1.event_count ≡ k.kept
      → Ends io k s r

finish_delete-Ends : (io : Io) (k : Kept) (s : Store) → Ends io k s (finish_delete io k s)
unfolding finish_delete
finish_delete-Ends io k s = elim (Bool-cases (io.writes && io.close_out)) [
  | inr bad ↦ rw bad (failed (ground arith) refl refl refl)
  | inl good ↦ rw good (elim (Bool-cases (k.dropped == 0)) [
    | inl none_dropped ↦ rw none_dropped (untouched good refl (ground arith) refl refl)
    | inr some_dropped ↦ rw some_dropped (elim (Bool-cases (k.kept == 0)) [
      | inl none_kept ↦ rw none_kept (emptied good refl (ground arith) refl refl)
      | inr some_kept ↦ rw some_kept (elim (Bool-cases io.renames) [
        | inl renamed ↦ rw renamed (replaced (ground arith) refl refl refl)
        | inr refused ↦ rw refused (failed (ground arith) refl refl refl)
      ])
    ])
  ])
]

-- How delete_where goes on from its two calls of fopen.
module _ (io : Io) (drops : List ℕ → Bool) (s : Store) where
  delete_where-missing : io.open_in ≡ true → s.events ≡ none → delete_where io drops s ≡ (Err.ok, s)
  unfolding delete_where opened
  delete_where-missing a e = ground arith

  delete_where-shut :
      (file : List ℕ)
      → io.open_in ≡ true
      → s.events ≡ some file
      → io.open_out ≡ false
      → delete_where io drops s ≡ (Err.fail, s)
  unfolding delete_where opened
  delete_where-shut file a e b = ground arith

  delete_where-opened :
      (file : List ℕ)
      → io.open_in ≡ true
      → s.events ≡ some file
      → io.open_out ≡ true
      → delete_where io drops s
        ≡ finish_delete io (filter_pieces drops (fgets_all delete_limit file)) s
  unfolding delete_where opened
  delete_where-opened file a e b = ground arith

-- There is no file, or what is done to it succeeds.
abbrev pub is_done : Option (List ℕ) → Bool → Bool
is_done none succeeds = true
is_done (some file) succeeds = succeeds

-- What a rewrite owes the log: where it `succeeds` it reports so and the log holds `kept`, and where not it reports
-- failure and the log is as it was.
abbrev pub Rewrites : Bool → List (List ℕ) → List (List ℕ) → Err × Store → Type 0
Rewrites succeeds lines kept (e, s') =
    (e ≡ (if succeeds then Err.ok else Err.fail)) × Holds s' (if succeeds then kept else lines)

module _ (s : Store) (lines : List (List ℕ)) (h : Holds s lines) where
  -- A call that leaves the file and the count alone.
  pub same-Holds :
      (s' : Store) → s'.events ≡ s.events → s'.event_count ≡ s.event_count → Holds s' lines
  same-Holds s' e c = record {
    file = ap (λ (f : Option (List ℕ)). elim f [ none ↦ [] | some file ↦ file ]) e ∙ h.file;
    count = c ∙ h.count;
    good = h.good;
  }

  Ends-Rewrites :
      (io : Io) (drops : List ℕ → Bool) (r : Err × Store)
      → Ends io (filter_pieces drops (map ended lines)) s r
      → Rewrites (goes_well io lines (without drops lines)) lines (without drops lines) r
  Ends-Rewrites io drops r (failed bad e ev c) =
      let (o, k, n) = filter_pieces-ended drops lines in
      let fails : goes_well io lines (without drops lines) ≡ false = ground (arith, bad, k, n) in
      rw fails (e, same-Holds r.1 ev c)
  Ends-Rewrites io drops r (untouched good e d ev c) =
      let (o, k, n) = filter_pieces-ended drops lines in
      let well : goes_well io lines (without drops lines) ≡ true = ground (arith, good, k, n, d) in
      rw well (e, rw (without-all drops lines (omega arith)) (same-Holds r.1 ev c))
  Ends-Rewrites io drops r (emptied good e d ev c) =
      let (o, k, n) = filter_pieces-ended drops lines in
      let well : goes_well io lines (without drops lines) ≡ true = ground (arith, good, k, n, d) in
      let none_left : without drops lines ≡ [] =
        nil_of_length (without drops lines) (omega arith) in
      rw well (e, rw none_left (record { file = ev; count = c; good = tt }))
  Ends-Rewrites io drops r (replaced good e ev c) =
      let (o, k, n) = filter_pieces-ended drops lines in
      let well : goes_well io lines (without drops lines) ≡ true = ground (arith, good) in
      rw well (e, record { file = ev ∙ o; count = c ∙ k; good = All-without drops lines h.good })

  pub no_lines : s.events ≡ none → lines ≡ []
  no_lines e = nil_of_join lines (sym h.file ∙ rw e refl)
    where
      nil_of_join : (ls : List (List ℕ)) → join ls ≡ [] → ls ≡ []
      nil_of_join [] q = refl
      nil_of_join ([] ∷ ls) q = cc
      nil_of_join ((c ∷ cs) ∷ ls) q = cc

  -- A rewrite that opens a log of lines shorter than 1023 bytes. Where there is no file it succeeds. Where there is
  -- one, it succeeds just where the temporary file opens, each write and the closing go well, and the renaming
  -- does, which is needed only where some lines are dropped and some are kept. Where it succeeds it drops exactly
  -- the lines that the test drops, keeps the others in order and sets the cached count to their number; where it does
  -- not it reports failure, and the file and the count are as they were.
  pub delete_where-Rewrites :
      (io : Io) (drops : List ℕ → Bool)
      → io.open_in ≡ true
      → Fits delete_limit lines
      → let kept = without drops lines in
        Rewrites
          (is_done s.events (io.open_out && goes_well io lines kept))
          lines
          kept
          (delete_where io drops s)
  delete_where-Rewrites io drops open_in fits = elim (Option-cases s.events) [
    | inl missing ↦
        let done : is_done s.events succeeds ≡ true = ap (λ o. is_done o succeeds) missing in
        let same : without drops lines ≡ lines = rw (no_lines missing) refl in
        rw (delete_where-missing io drops s open_in missing, done, same) (refl, h)
    | inr (file, e) ↦
        let done : is_done s.events succeeds ≡ succeeds = ap (λ o. is_done o succeeds) e in
        elim (Bool-cases io.open_out) [
          | inr shut ↦
              let fails : succeeds ≡ false = ground (arith, shut) in
              rw (delete_where-shut io drops s file open_in e shut, done, fails) (refl, h)
          | inl open_out ↦
              let well : succeeds ≡ goes_well io lines (without drops lines) = rw open_out refl in
              let whole : file ≡ join lines = ground (arith, h.file) in
              let read : fgets_all delete_limit file ≡ map ended lines =
                ap (fgets_all delete_limit) whole ∙ fgets_all-join delete_limit lines fits in
              rw (delete_where-opened io drops s file open_in e open_out, read, done, well)
                (Ends-Rewrites io drops (finish_delete io (filter_pieces drops (map ended lines)) s)
                  (finish_delete-Ends io (filter_pieces drops (map ended lines)) s))
        ]
  ]
    where
      succeeds : Bool
      succeeds = io.open_out && goes_well io lines (without drops lines)
