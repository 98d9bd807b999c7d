-- ===== src/Storage/Tests.antt =====
-- The properties of the event log at concrete files.
use dingdong.Common.{
  ◌&&◌, ℕ, zero, suc, ◌+◌, ◌≤◌, ◌≡◌, refl, true, not, ◌&&◌, ◌==◌, none, some, List, [], ◌∷◌, ◌++◌,
  arith, drop, codes, Err, Bool, if◌then◌else◌,
}
use dingdong.Stdio.{strstr, atoll, count_newlines, starts_with, decimal}
use dingdong.Stdio.Lines.{join}
use dingdong.Storage.{Store, Io, contents, all, short, event_append, event_bytes, events_max_bytes}
use dingdong.Storage.Files.{IsEvent, Holds}
use dingdong.Storage.Append.{event_append-Holds, event_append-short}
use dingdong.Storage.Delete.{delete_where, drops_for_worker}
use dingdong.Storage.ByTime.{parse_ts_from_line, rotate_by_time}
use dingdong.Storage.Rewrites.{Rewrites, goes_well, is_done, without, delete_where-Rewrites}
use dingdong.Storage.Cutoff.{from_cutoff, rotates, rotate_by_time-Rewrites}
use dingdong.Storage.Matching.{worker_field, ends_number, event_line, drops_for_worker-eq}

abbrev first : List ℕ
first = codes "{\"ts\":100,\"worker_id\":1}"

abbrev second : List ℕ
second = codes "{\"ts\":200,\"worker_id\":12}"

abbrev lines : List (List ℕ)
lines = first ∷ second ∷ []

abbrev store : Store
store = record { events = some (join lines); tmp = none; event_count = 2 }

abbrev fine : Io
fine = record { open_in = true; open_out = true; writes = true; close_out = true; renames = true }

first-IsEvent : IsEvent first
first-IsEvent = ground arith

store-Holds : Holds store lines
store-Holds = record { file = refl; count = refl; good = ground arith }

event_append-Holds_example :
    let (e, s') = event_append fine true true all (some first) store in
    (e ≡ Err.ok)
    × ((k : ℕ) × Holds s' (drop k lines ++ (first ∷ []))
        × (event_bytes store ≤ events_max_bytes → k ≡ 0))
event_append-Holds_example = event_append-Holds fine store lines first store-Holds first-IsEvent

event_append-short_example :
    let (e, s') = event_append fine true true (short 5) (some first) store in
    (e ≡ Err.fail) × (s'.event_count ≡ count_newlines (contents s'))
event_append-short_example =
    event_append-short fine store lines first 5 store-Holds first-IsEvent (omega arith)

-- A test that drops the lines of worker 1.
abbrev of_worker_1 : List ℕ → Bool
of_worker_1 = drops_for_worker 1

delete_where-Rewrites_example :
    let kept = without of_worker_1 lines in
    Rewrites
      (is_done store.events (fine.open_out && goes_well fine lines kept))
      lines
      kept
      (delete_where fine of_worker_1 store)
delete_where-Rewrites_example =
    delete_where-Rewrites store lines store-Holds fine of_worker_1 refl (ground arith)

worker_1_only : without of_worker_1 lines ≡ second ∷ []
unfolding drops_for_worker strstr starts_with decimal
worker_1_only = refl

rotate_by_time-Rewrites_example :
    let kept = from_cutoff 150 lines in
    Rewrites (rotates fine lines kept) lines kept (rotate_by_time fine true 150 store)
rotate_by_time-Rewrites_example =
    rotate_by_time-Rewrites fine store lines 150 store-Holds (ground arith) refl (omega arith)

kept_from_150 : from_cutoff 150 lines ≡ second ∷ []
unfolding parse_ts_from_line starts_with atoll
kept_from_150 = refl

-- Whether a text occurs in a line, of which `i` bytes lie behind, at `k` only.
only_at : ℕ → List ℕ → List ℕ → ℕ → Bool
only_at i text [] k = not (starts_with text [])
only_at i text (c ∷ cs) k =
    (if starts_with text (c ∷ cs) then i == k else true) && only_at (suc i) text cs k

only_at_sound :
    (i : ℕ) (text line : List ℕ) (k : ℕ)
    → only_at i text line k ≡ true
    → (j : ℕ) → starts_with text (drop j line) ≡ true
    → i + j ≡ k
unfolding only_at
only_at_sound i text [] k h zero s = absurd (ground arith)
only_at_sound i text [] k h (suc j) s = absurd (ground arith)
only_at_sound i text (c ∷ cs) k h zero s = ground arith
only_at_sound i text (c ∷ cs) k h (suc j) s =
    omega (arith, only_at_sound (suc i) text cs k (ground arith) j s)

drops_for_worker-eq_example :
    drops_for_worker 1 (event_line (codes "{\"ts\":200,") [] 12 b'}')
    ≡ ((1 == 12) && ends_number b'}')
unfolding decimal starts_with only_at
drops_for_worker-eq_example =
    drops_for_worker-eq 1 12 b'}' (codes "{\"ts\":200,") []
      (λ j h. let e = only_at_sound 0 worker_field second 10 refl j h in omega arith) refl
