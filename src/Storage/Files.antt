-- ===== src/Storage/Files.antt =====
-- The log of components/storage/dd_storage.c as what it stands for: a list of event lines.
use dingdong.Common.{
  ◌&&◌, ℕ, zero, suc, ◌≤◌, ◌<◌, ◌≡◌, ap, ◌∙◌, true, false, Option, none, some, List, [], ◌∷◌, ◌++◌,
  All, arith, length, drop, take,
}
use dingdong.Stdio.{count_newlines}
use dingdong.Stdio.Lines.{IsLine, join, count_newlines-join}
use dingdong.Storage.{Store, Io, contents, replace_events, scan_event_count, line_buf_max}

-- What `dd_storage_event_append` takes: a line with something in it and no newline, of at most LINE_BUF_MAX bytes.
abbrev pub IsEvent : List ℕ → Type 0
IsEvent line = IsLine line × (0 < length line) × (length line ≤ line_buf_max)

-- The file is made of these lines, and the cached count is their number.
pub record Holds (s : Store) (lines : List (List ℕ)) : Type 0 where
  pub file : contents s ≡ join lines
  pub count : s.event_count ≡ length lines
  pub good : All IsEvent lines

pub All-IsLine : (lines : List (List ℕ)) → All IsEvent lines → All IsLine lines
All-IsLine [] a = tt
All-IsLine (line ∷ lines) a = (a.0.0, All-IsLine lines a.1)

module _ {ℓ κ} {A : Type ℓ} (P : A → Type κ) where
  pub All-drop : (xs : List A) (n : ℕ) → All P xs → All P (drop n xs)
  All-drop xs zero a = a
  All-drop [] (suc n) a = tt
  All-drop (x ∷ xs) (suc n) a = All-drop xs n a.1

  pub All-take : (xs : List A) (n : ℕ) → All P xs → All P (take n xs)
  All-take xs zero a = tt
  All-take [] (suc n) a = tt
  All-take (x ∷ xs) (suc n) a = (a.0, All-take xs n a.1)

  pub All-append : (xs ys : List A) → All P xs → All P ys → All P (xs ++ ys)
  All-append [] ys a b = b
  All-append (x ∷ xs) ys a b = (a.0, All-append xs ys a.1 b)

-- A scan that opens the file counts its lines.
pub scan_event_count-join :
    (s : Store) (lines : List (List ℕ))
    → contents s ≡ join lines
    → All IsEvent lines
    → scan_event_count s true ≡ length lines
unfolding scan_event_count count_newlines
scan_event_count-join s lines e good = by_events s.events e
  where
    by_events :
        (f : Option (List ℕ))
        → (elim f [ none ↦ [] | some file ↦ file ]) ≡ join lines
        → (elim f [ none ↦ 0 | some file ↦ count_newlines file ]) ≡ length lines
    by_events none e = ap count_newlines e ∙ count_newlines-join lines (All-IsLine lines good)
    by_events (some file) e =
        ap count_newlines e ∙ count_newlines-join lines (All-IsLine lines good)

-- The common end of a rewrite: where all its calls go well it gives the new file, and otherwise it changes neither
-- the file nor the count.
pub replace_events_lem :
    (io : Io) (kept : List ℕ) (s : Store)
    → let (done, s') = replace_events io kept s in
      (s'.event_count ≡ s.event_count)
      × (done ≡ (io.open_out && io.writes && io.close_out && io.renames))
      × (done ≡ true → contents s' ≡ kept)
      × (done ≡ false → s'.events ≡ s.events)
unfolding replace_events
replace_events_lem io kept s = ground arith
