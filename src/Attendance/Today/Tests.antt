-- ===== src/Attendance/Today/Tests.antt =====
-- The summary of today at the log of single letters.
use dingdong.Common.{ℕ, ◌≤◌, ◌≡◌, ◌⊎◌, refl, true, none, List, [], ◌∷◌, length, arith, bytes_eq}
use dingdong.Stdio.{fgets_all}
use dingdong.Attendance.Tests.{parse, lines, store, store-Holds}
use dingdong.Attendance.Today.{
  TodayWorker, today_entries, today_max_workers, added_seconds, is_entry_of,
}
use dingdong.Attendance.Today.Entries.{entry_of}
use dingdong.Attendance.Today.Reached.{Summary, todays}
use dingdong.Attendance.Today.Stays.{today_entries-stays}
use dingdong.Attendance.Lines.{lines_of}

today_entries-stays_example :
    let es = today_entries parse true 50 1000 store in
    (length es ≤ today_max_workers)
    × (Summary 1000 (todays 1 50 (lines_of parse lines)) (entry_of 1 es)
        ⊎ ((entry_of 1 es ≡ none) × (length es ≡ today_max_workers)))
today_entries-stays_example =
    today_entries-stays 1 50 1000 (omega arith) (omega arith) parse store lines (omega arith)
      store-Holds ((λ e. refl), ((λ e. refl), ((λ e. refl), tt)))
      (omega arith, (omega arith, (omega arith, tt)))

abbrev totals : List TodayWorker → List (ℕ × ℕ × ℕ)
totals [] = []
totals (e ∷ es) = (e.worker_id, e.total_seconds, e.segments) ∷ totals es

one_left_one_in : totals (today_entries parse true 50 1000 store) ≡ (1, 600, 1) ∷ (2, 800, 0) ∷ []
unfolding today_entries bytes_eq fgets_all added_seconds is_entry_of
one_left_one_in = refl
