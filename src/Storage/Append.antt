-- ===== src/Storage/Append.antt =====
-- Appending to the event log of components/storage/dd_storage.c.
use dingdong.Common.{
  ℕ, ◌-◌, ◌/◌, ◌≤◌, ◌<◌, ◌≡◌, ◌≢◌, refl, sym, ap, ◌∙◌, Bool, true, false, ◌||◌, none, some, List,
  [], ◌∷◌, ◌++◌, arith, length, drop, take, length-append, ltb, ◌==◌, Bool-cases, Option-cases, ◌⊎◌,
  inl, inr, Err, take-append,
}
use dingdong.Stdio.{newline, skip_line, count_newlines}
use dingdong.Stdio.Lines.{
  ended, join, join-append, count_newlines-join, skip_line-drop-join, count_newlines-append,
  count_newlines-line,
}
use dingdong.Storage.{
  Store, Io, opened, contents, replace_events, rotate_events_locked, rotate_if_large,
  scan_event_count, Written, all, short, write_line, event_append, event_bytes, events_max_bytes,
  line_buf_max,
}
use dingdong.Storage.Files.{
  IsEvent, Holds, All-IsLine, All-drop, All-append, All-take, scan_event_count-join,
}

abbrev cut : List ℕ → List ℕ
cut file = skip_line (drop (length file - length file / 2) file)

-- What rotate_events_locked leaves in a file: its later half from the next line on, or on a failure all of it.
rotate-cases :
    (io : Io) (s : Store) (file : List ℕ)
    → s.events ≡ some file
    → (contents (rotate_events_locked io s).1 ≡ file)
      ⊎ (contents (rotate_events_locked io s).1 ≡ cut file)
unfolding rotate_events_locked opened replace_events
rotate-cases io s file e = ground arith

rotate-contents :
    (io : Io) (s : Store) (lines : List (List ℕ)) (file : List ℕ)
    → Holds s lines
    → s.events ≡ some file
    → (k : ℕ) × (contents (rotate_events_locked io s).1 ≡ join (drop k lines))
rotate-contents io s lines file h e = elim (rotate-cases io s file e) [
  | inl same ↦ (0, same ∙ whole)
  | inr later ↦
      let (k, kept) =
        skip_line-drop-join lines (length file - length file / 2) (All-IsLine lines h.good) in
      (
        k,
        later
            ∙ ap (λ (r : List ℕ). skip_line (drop (length file - length file / 2) r)) whole
            ∙ kept,
      )
]
  where
    whole : file ≡ join lines
    whole = ground (arith, h.file)

rotate_if_large-cases :
    (io : Io) (s : Store)
    → (rotate_if_large io true s ≡ s)
      ⊎ ((file : List ℕ) × (s.events ≡ some file)
          × (events_max_bytes < event_bytes s)
          × (rotate_if_large io true s ≡ record (rotate_events_locked io s).1 {
            event_count = scan_event_count (rotate_events_locked io s).1 true;
          }))
unfolding rotate_if_large event_bytes
rotate_if_large-cases io s = elim (Option-cases s.events) [
  | inl missing ↦ inl (ground arith)
  | inr (file, e) ↦ elim (Bool-cases (ltb events_max_bytes (length file))) [
    | inl large ↦ inr (file, e, ground arith, ground arith)
    | inr small ↦ inl (ground arith)
  ]
]

-- The rotation of a log over 512 KiB, with the recount, keeps the last lines; a smaller log is left alone.
pub rotate_if_large-Holds :
    (io : Io) (s : Store) (lines : List (List ℕ))
    → Holds s lines
    → (k : ℕ) × Holds (rotate_if_large io true s) (drop k lines)
      × (event_bytes s ≤ events_max_bytes → k ≡ 0)
rotate_if_large-Holds io s lines h = elim (rotate_if_large-cases io s) [
  | inl same ↦ (0, rw same h, λ _. refl)
  | inr (file, e, large, made) ↦
      let (k, kept) = rotate-contents io s lines file h e in
      let good = All-drop IsEvent lines k h.good in
      (
        k,
        rw made (record {
          file = kept;
          count = scan_event_count-join (rotate_events_locked io s).1 (drop k lines) kept good;
          good = good;
        }),
        λ small. absurd (omega arith),
      )
]

-- An append that the file system carries out puts the line behind the last of the lines, all of
-- them while the file is not over 512 KiB; over that the rotation may first drop some of the
-- oldest lines. The file stays a sequence of whole lines and the cached count their number. The recount's fopen is
-- taken to succeed.
pub event_append-Holds :
    (io : Io) (s : Store) (lines : List (List ℕ)) (line : List ℕ)
    → Holds s lines
    → IsEvent line
    → let (e, s') = event_append io true true all (some line) s in
      (e ≡ Err.ok)
      × ((k : ℕ) × Holds s' (drop k lines ++ (line ∷ []))
          × (event_bytes s ≤ events_max_bytes → k ≡ 0))
unfolding event_append write_line
event_append-Holds io s lines line h ok =
    let (k, r, small) = rotate_if_large-Holds io s lines h in
    let size : ((length line == 0) || ltb line_buf_max (length line)) ≡ false = ground arith in
    rw size (
      refl,
      (
        k,
        record {
          file =
              ap (λ (f : List ℕ). f ++ ended line) r.file
              ∙ sym (join-append (drop k lines) (line ∷ []));
          count = omega (arith, r.count, length-append (drop k lines) (line ∷ []));
          good = All-append IsEvent (drop k lines) (line ∷ []) r.good (ok, tt);
        },
        small,
      ),
    )

-- An append that stops short, of which no newline reached the file, reports failure and leaves
-- the cached count at the number of whole lines in the file.
pub event_append-short :
    (io : Io) (s : Store) (lines : List (List ℕ)) (line : List ℕ) (n : ℕ)
    → Holds s lines
    → IsEvent line
    → n ≤ length line
    → let (e, s') = event_append io true true (short n) (some line) s in
      (e ≡ Err.fail) × (s'.event_count ≡ count_newlines (contents s'))
unfolding event_append write_line
event_append-short io s lines line n h ok le =
    let (k, r, small) = rotate_if_large-Holds io s lines h in
    let size : ((length line == 0) || ltb line_buf_max (length line)) ≡ false = ground arith in
    rw size (
      refl,
      r.count
          ∙ sym (
              ap (λ (f : List ℕ). count_newlines (f ++ take n (ended line))) r.file
              ∙ count_newlines-append (join (drop k lines)) (take n (ended line))
              ∙ omega (
                arith,
                count_newlines-join (drop k lines) (All-IsLine (drop k lines) r.good),
                torn,
              )),
    )
  where
    torn : count_newlines (take n (ended line)) ≡ 0
    torn =
        ap count_newlines (take-append line (newline ∷ []) n le)
        ∙ count_newlines-line (take n line) (All-take (λ c. c ≢ newline) line n ok.0)

-- What is refused changes nothing and is an invalid argument: no line, an empty one and one of more than 1024 bytes. An
-- append whose fopen fails reports failure and, while the file is not over 512 KiB, changes nothing.
event_append-refused :
    (io : Io) (open_a : Bool) (w : Written) (s : Store) (line : List ℕ)
    → (event_append io true open_a w none s ≡ (Err.invalid_arg, s))
      × ((length line ≡ 0) ⊎ (line_buf_max < length line)
          → event_append io true open_a w (some line) s ≡ (Err.invalid_arg, s))
      × (IsEvent line
          → event_bytes s ≤ events_max_bytes
          → event_append io true false w (some line) s ≡ (Err.fail, s))
unfolding event_append
event_append-refused io open_a w s line = (
  refl,
  λ bad.
      let refused : ((length line == 0) || ltb line_buf_max (length line)) ≡ true = ground arith in
      rw refused refl,
  λ ok small.
      let size : ((length line == 0) || ltb line_buf_max (length line)) ≡ false = ground arith in
      rw size (ap (λ (r : Store). (Err.fail, r)) (unrotated small)),
)
  where
    unrotated : event_bytes s ≤ events_max_bytes → rotate_if_large io true s ≡ s
    unrotated small = elim (rotate_if_large-cases io s) [
      | inl same ↦ same
      | inr (file, e, large, made) ↦ absurd (omega arith)
    ]
