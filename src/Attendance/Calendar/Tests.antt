-- ===== src/Attendance/Calendar/Tests.antt =====
-- The calendar at the log of single letters, with days of 500 seconds.
use dingdong.Common.{
  ℕ, ◌+◌, ◌-◌, ◌*◌, ◌/◌, ◌≤◌, ◌≡◌, ◌⊎◌, refl, true, false, none, List, [], ◌∷◌, length,
}
use dingdong.Stdio.{fgets_all}
use dingdong.Attendance.Tests.{parse, lines, store, store-Holds}
use dingdong.Attendance.Calendar.{
  CalDay, calendar_buckets, cal_max_days, days_of, set_bit, count_bits,
}
use dingdong.Attendance.Calendar.Buckets.{events_on, has_day, happened, calendar_buckets-count}
use dingdong.Attendance.Lines.{lines_of}

abbrev midnight : ℕ → ℕ
midnight t = t / 500 * 500

calendar_buckets-count_example :
    let ds = calendar_buckets midnight parse true none 1000 store in
    let from_ts = midnight 1000 - (days_of none - 1) * 86400 in
    let to_ts = midnight 1000 + 86400 in
    (length ds ≤ cal_max_days)
    × ((events_on 0 ds ≡ happened midnight 0 from_ts to_ts (lines_of parse lines))
        ⊎ ((has_day 0 ds ≡ false) × (length ds ≡ cal_max_days)))
calendar_buckets-count_example =
    calendar_buckets-count midnight parse 0 1000 none store lines store-Holds

abbrev shown : List CalDay → List (ℕ × ℕ × ℕ)
shown [] = []
shown (d ∷ ds) = (d.date_unix, d.events, count_bits 32 d.worker_mask) ∷ shown ds

two_days :
    shown (calendar_buckets midnight parse true none 1000 store) ≡ (0, 2, 2) ∷ (500, 1, 1) ∷ []
unfolding calendar_buckets fgets_all set_bit count_bits
two_days = refl
