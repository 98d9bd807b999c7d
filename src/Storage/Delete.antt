-- ===== src/Storage/Delete.antt =====
-- dd_storage_event_delete_by_worker and dd_storage_event_delete_one of
-- components/storage/dd_storage.c: rewrites of the events file without some of its lines.
use dingdong.Common.{
  ℕ, ◌+◌, Bool, false, not, ◌&&◌, ◌||◌, none, some, List, [], ◌∷◌, ◌++◌, length, get_or, ◌==◌,
  if◌then◌else◌, Err, codes,
}
use dingdong.Stdio.{fgets_all, strstr, decimal}
use dingdong.Storage.{Store, Io, opened}

-- The buffer is of LINE_BUF_MAX bytes.
abbrev pub delete_limit : ℕ
delete_limit = 1023

abbrev pub worker_needle : ℕ → List ℕ
worker_needle id = codes "\"worker_id\":" ++ decimal id

-- Whether the first place of `needle` in the line is followed by one of three characters. The
-- character after the end of the line is its NUL.
unfoldable pub drops_for_worker : ℕ → List ℕ → Bool
drops_for_worker id line = elim (strstr line (worker_needle id)) [
  | none ↦ false
  | some m ↦
      let after : ℕ = get_or m (length (worker_needle id)) 0 in
      (after == b',') || (after == b'}') || (after == 32)
]

abbrev pub ts_needle : ℕ → List ℕ
ts_needle ts = codes "\"ts\":" ++ decimal ts

abbrev pub mono_needle : ℕ → List ℕ
mono_needle mono = codes "\"mono_us\":" ++ decimal mono

-- The test of dd_storage_event_delete_one.
unfoldable pub drops_one : ℕ → ℕ → List ℕ → Bool
drops_one ts mono line = elim (strstr line (ts_needle ts)) [
  | none ↦ false
  | some m_ts ↦ elim (strstr line (mono_needle mono)) [
    | none ↦ false
    | some m_mono ↦
        let after_ts : ℕ = get_or m_ts (length (ts_needle ts)) 0 in
        let after_mono : ℕ = get_or m_mono (length (mono_needle mono)) 0 in
        ((after_ts == b',') || (after_ts == b'}')) && ((after_mono == b',') || (after_mono == b'}'))
  ]
]

-- The loop over the pieces: the bytes written to the temporary file, and how many pieces were kept and dropped.
pub record Kept : Type 0 where
  pub out : List ℕ
  pub kept : ℕ
  pub dropped : ℕ

unfoldable pub filter_pieces : (List ℕ → Bool) → List (List ℕ) → Kept
filter_pieces drops [] = record { out = []; kept = 0; dropped = 0 }
filter_pieces drops (piece ∷ ps) =
    let rest = filter_pieces drops ps in
    if drops piece
    then record rest { dropped = rest.dropped + 1 }
    else record rest { out = piece ++ rest.out; kept = rest.kept + 1 }

-- What follows the loop. On a failed write the loop stops, and the temporary file is unlinked; the unlinks are taken to succeed.
unfoldable pub finish_delete : Io → Kept → Store → Err × Store
finish_delete io k s =
    if not (io.writes && io.close_out)
    then (Err.fail, record s { tmp = none })
    else if k.dropped == 0
    then (Err.ok, record s { tmp = none })
    else if k.kept == 0
    then (Err.ok, record s { events = none; tmp = none; event_count = 0 })
    else if not io.renames
    then (Err.fail, record s { tmp = none })
    else (Err.ok, record s { events = some k.out; tmp = none; event_count = k.kept })

-- The two handlers from fopen on.
unfoldable pub delete_where : Io → (List ℕ → Bool) → Store → Err × Store
unfolding filter_pieces finish_delete opened
delete_where io drops s = elim (opened s io.open_in) [
  | none ↦ (Err.ok, s)
  | some file ↦
      if not io.open_out
      then (Err.fail, s)
      else finish_delete io (filter_pieces drops (fgets_all delete_limit file)) s
]

-- dd_storage_event_delete_by_worker
unfoldable pub delete_by_worker : Io → ℕ → Store → Err × Store
unfolding delete_where drops_for_worker
delete_by_worker io id s =
    if id == 0 then (Err.invalid_arg, s) else delete_where io (drops_for_worker id) s

-- dd_storage_event_delete_one; the numbers in the log are not negative
unfoldable pub delete_one : Io → ℕ → ℕ → Store → Err × Store
unfolding delete_where drops_one
delete_one io ts mono s = delete_where io (drops_one ts mono) s
