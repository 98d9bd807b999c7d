-- ===== src/Storage/ByTime.antt =====
-- dd_storage_event_rotate_by_time of components/storage/dd_storage.c.
use dingdong.Common.{
  ℕ, ◌+◌, Bool, not, Option, none, some, List, [], ◌∷◌, length, drop, leb, ◌==◌, if◌then◌else◌, Err,
  codes,
}
use dingdong.Stdio.{fgets_all, starts_with, atoll}
use dingdong.Storage.{Store, Io, opened, replace_events, scan_event_count}

-- parse_ts_from_line; a negative number counts as 0, which no cutoff tells apart
unfoldable pub parse_ts_from_line : List ℕ → ℕ
parse_ts_from_line line =
    if not (starts_with (codes "{\"ts\":") line) then 0 else atoll (drop 6 line)

-- The buffer of the scan is of 512 bytes.
abbrev pub scan_limit : ℕ
scan_limit = 511

-- The loop that looks for the first piece with a time not before the cutoff, and gives its offset.
unfoldable pub keep_offset_from : ℕ → ℕ → List (List ℕ) → Option ℕ
unfolding parse_ts_from_line
keep_offset_from cutoff offset [] = none
keep_offset_from cutoff offset (piece ∷ ps) =
    if leb cutoff (parse_ts_from_line piece)
    then some offset
    else keep_offset_from cutoff (offset + length piece) ps

-- What the rewrite does once the offset is known; `recount` is whether the scan's fopen succeeds.
unfoldable pub keep_from : Io → Bool → ℕ → List ℕ → Store → Err × Store
unfolding replace_events scan_event_count
keep_from io recount offset file s =
    if offset == 0
    then (Err.ok, s)
    else (let (done, s') = replace_events io (drop offset file) s in
        if not done
        then (Err.fail, s')
        else (Err.ok, record s' { event_count = scan_event_count s' recount }))

-- dd_storage_event_rotate_by_time, whose argument is signed: a negative cutoff is refused as 0 is. The unlink of
-- the events file, whose result is not read, is taken to succeed.
unfoldable pub rotate_by_time : Io → Bool → ℕ → Store → Err × Store
unfolding keep_offset_from keep_from opened
rotate_by_time io recount cutoff s =
    if cutoff == 0 then (Err.invalid_arg, s) else elim (opened s io.open_in) [
      | none ↦ (Err.ok, s)
      | some file ↦ elim (keep_offset_from cutoff 0 (fgets_all scan_limit file)) [
        | none ↦ (Err.ok, record s { events = none; event_count = 0 })
        | some offset ↦ keep_from io recount offset file s
      ]
    ]
