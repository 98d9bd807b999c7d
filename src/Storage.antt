-- ===== src/Storage.antt =====
-- components/storage/dd_storage.c: the append-only log of events, one JSON line each. The state is
-- the events file, its `.tmp` sibling and the cached count; each call holds the mutex throughout.
-- What the file system answers is an argument: `Io` holds the outcome of each call that can fail.
-- A file that is opened for reading gives its bytes.
pub mod ByTime
pub mod Delete
pub mod Files
pub mod Append
pub mod Rewrites
pub mod Cutoff
pub mod Matching
pub mod Iterate
mod Tests
use dingdong.Common.{
  ℕ, suc, ◌+◌, ◌-◌, ◌*◌, ◌/◌, ◌≤◌, Bool, true, false, not, ◌&&◌, ◌||◌, Option, none, some, List, [],
  ◌∷◌, ◌++◌, length, take, drop, get_or, ltb, leb, ◌==◌, if◌then◌else◌, Err, is_ok, codes,
}
use dingdong.Stdio.{
  newline, fgets_all, skip_line, count_newlines, starts_with, strstr, atoll, decimal,
}

-- LINE_BUF_MAX, DD_EVENTS_MAX_BYTES
abbrev pub line_buf_max : ℕ
line_buf_max = 1024

abbrev pub events_max_bytes : ℕ
events_max_bytes = 512 * 1024

-- The events file, the temporary file (`none` where there is none) and s_event_count.
pub record Store : Type 0 where
  pub events : Option (List ℕ)
  pub tmp : Option (List ℕ)
  pub event_count : ℕ

-- Whether each call succeeds: fopen of the events file for reading, fopen of the temporary file
-- for writing, the writes to it, fclose of it, and rename.
pub record Io : Type 0 where
  pub open_in : Bool
  pub open_out : Bool
  pub writes : Bool
  pub close_out : Bool
  pub renames : Bool

-- What fopen(DD_STORAGE_EVENTS, "r") reads.
unfoldable pub opened : Store → Bool → Option (List ℕ)
opened s open_in = if open_in then s.events else none

-- scan_event_count
unfoldable pub scan_event_count : Store → Bool → ℕ
unfolding opened
scan_event_count s open_in = elim (opened s open_in) [ none ↦ 0 | some file ↦ count_newlines file ]

-- From fopen of the temporary file to rename: the common end of a rewrite to `kept`. On a failure the temporary file is
-- unlinked, so what a failed write left in it is not seen.
unfoldable pub replace_events : Io → List ℕ → Store → Bool × Store
replace_events io kept s =
    if not io.open_out
    then (false, s)
    else if not (io.writes && io.close_out)
    then (false, record s { tmp = none })
    else if not io.renames
    then (false, record s { tmp = none })
    else (true, record s { events = some kept; tmp = none })

-- rotate_events_locked
unfoldable pub rotate_events_locked : Io → Store → Err × Store
unfolding opened replace_events
rotate_events_locked io s = elim (opened s io.open_in) [
  | none ↦ (Err.ok, s)
  | some file ↦
      let size : ℕ = length file in
      let target_keep : ℕ = size / 2 in
      let (done, s') = replace_events io (skip_line (drop (size - target_keep) file)) s in
      if done then (Err.ok, s') else (Err.fail, s')
]

-- What the append's fwrite, fputc and fflush did: all reported success and the line and its
-- newline are in the file, or one reported failure and the file has the first so many bytes of them.
pub data Written : Type 0 where
  all : Written
  short : ℕ → Written

abbrev pub contents : Store → List ℕ
contents s = elim s.events [ none ↦ [] | some file ↦ file ]

-- The rotation at the start of an append, with the recount; `recount` is whether the scan's fopen succeeds.
unfoldable pub rotate_if_large : Io → Bool → Store → Store
unfolding rotate_events_locked scan_event_count
rotate_if_large io recount s = elim s.events [
  | none ↦ s
  | some file ↦
      if ltb events_max_bytes (length file)
      then (let rotated = (rotate_events_locked io s).1 in
          record rotated { event_count = scan_event_count rotated recount })
      else s
]

unfoldable pub write_line : Written → List ℕ → Store → Err × Store
write_line all line s = (
  Err.ok,
  record s {
    events = some (contents s ++ (line ++ (newline ∷ [])));
    event_count = s.event_count + 1;
  },
)
write_line (short n) line s =
    (Err.fail, record s { events = some (contents s ++ take n (line ++ (newline ∷ []))) })

-- dd_storage_event_append; `open_a` is whether fopen(DD_STORAGE_EVENTS, "a") succeeds
unfoldable pub event_append : Io → Bool → Bool → Written → Option (List ℕ) → Store → Err × Store
unfolding rotate_if_large write_line
event_append io recount open_a written none s = (Err.invalid_arg, s)
event_append io recount open_a written (some line) s =
    if (length line == 0) || ltb line_buf_max (length line)
    then (Err.invalid_arg, s)
    else if not open_a
    then (Err.fail, rotate_if_large io recount s)
    else write_line written line (rotate_if_large io recount s)

-- dd_storage_event_count, dd_storage_event_bytes
unfoldable pub event_count : Store → ℕ
event_count s = s.event_count

unfoldable pub event_bytes : Store → ℕ
event_bytes s = elim s.events [ none ↦ 0 | some file ↦ length file ]

-- `if (l && buf[l - 1] == '\n') buf[--l] = '\0';`
unfoldable pub strip_newline : List ℕ → List ℕ
strip_newline [] = []
strip_newline (c ∷ []) = if c == newline then [] else c ∷ []
strip_newline (c ∷ d ∷ cs) = c ∷ strip_newline (d ∷ cs)

-- The loop of dd_storage_event_iter: the callback's context `x` goes through its calls.
unfoldable pub iter_loop : {X : Type 0} → (List ℕ → X → Err × X) → List (List ℕ) → X → Err × X
unfolding strip_newline
iter_loop cb [] x = (Err.ok, x)
iter_loop cb (piece ∷ ps) x =
    let line : List ℕ = strip_newline piece in
    let (e, x') = cb line x in
    let skipped = iter_loop cb ps x in
    let rest = iter_loop cb ps x' in
    if length line == 0 then skipped else if is_ok e then rest else (e, x')

-- dd_storage_event_iter; `none` is a callback that is NULL. The buffer is of LINE_BUF_MAX + 1 bytes.
unfoldable pub event_iter :
    {X : Type 0} → Bool → Option (List ℕ → X → Err × X) → Store → X → Err × X
unfolding iter_loop opened
event_iter open_in none s x = (Err.invalid_arg, x)
event_iter open_in (some cb) s x = elim (opened s open_in) [
  | none ↦ (Err.ok, x)
  | some file ↦ iter_loop cb (fgets_all line_buf_max file) x
]

-- What unlink answers: done, errno ENOENT, or another errno.
pub data Unlink : Type 0 where
  removed missing refused : Unlink

-- dd_storage_event_wipe
unfoldable pub event_wipe : Unlink → Store → Err × Store
event_wipe Unlink.removed s = (Err.ok, record s { events = none; event_count = 0 })
event_wipe Unlink.missing s = (Err.ok, record s { event_count = 0 })
event_wipe Unlink.refused s = (Err.fail, s)
