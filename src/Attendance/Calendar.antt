-- ===== src/Attendance/Calendar.antt =====
-- calendar_get of components/http_app/dd_http_attendance.c: the number of events on each of the last days.
pub mod Buckets
mod Tests
use dingdong.Common.{
  ℕ, zero, suc, ◌+◌, ◌-◌, ◌*◌, ◌/◌, ◌%◌, ◌^◌, Bool, true, false, not, ◌&&◌, ◌||◌, Option, none,
  some, List, [], ◌∷◌, length, ltb, ◌==◌, if◌then◌else◌, Err,
}
use dingdong.Storage.{Store, event_iter}
use dingdong.Attendance.{LogLine, or_zero}
use dingdong.Attendance.Listing.Query.{atoi, not_negative}

-- CAL_MAX_DAYS
abbrev pub cal_max_days : ℕ
cal_max_days = 62

-- cal_day_t
pub record CalDay : Type 0 where
  pub date_unix : ℕ
  pub events : ℕ
  pub worker_mask : ℕ

abbrev pub new_day : ℕ → CalDay
new_day day = record { date_unix = day; events = 0; worker_mask = 0 }

-- `mask |= (1U << k)`
unfoldable pub set_bit : ℕ → ℕ → ℕ
set_bit mask k = if mask / 2 ^ k % 2 == 1 then mask else mask + 2 ^ k

abbrev pub mask_worker : Option ℕ → ℕ → ℕ
mask_worker none mask = mask
mask_worker (some wid) mask = if ltb 0 wid && ltb wid 32 then set_bit mask wid else mask

-- What an event does to the entry of its day.
unfoldable pub count_event : Option ℕ → CalDay → CalDay
unfolding set_bit
count_event wid d = record d { events = d.events + 1; worker_mask = mask_worker wid d.worker_mask }

-- cal_get_day and the update of the entry that it gives; `room` is how many entries may be added.
unfoldable pub cal_update : ℕ → Option ℕ → List CalDay → ℕ → List CalDay
unfolding count_event
cal_update day wid [] zero = []
cal_update day wid [] (suc room) = count_event wid (new_day day) ∷ []
cal_update day wid (d ∷ ds) room =
    if d.date_unix == day then count_event wid d ∷ ds else d ∷ cal_update day wid ds (room - 1)

-- The days of the query.
abbrev pub days_of : Option (List ℕ) → ℕ
days_of none = 30
days_of (some val) =
    let n = not_negative (atoi val) in if (n == 0) || ltb cal_max_days n then 30 else n

-- `while (m) { n += m & 1; m >>= 1; }` on 32 bits
unfoldable pub count_bits : ℕ → ℕ → ℕ
count_bits zero m = 0
count_bits (suc fuel) m = let rest = count_bits fuel (m / 2) in if m == 0 then 0 else m % 2 + rest

abbrev pub in_window : ℕ → ℕ → LogLine → Bool
in_window from_ts to_ts l = elim l.ts [
  | none ↦ false
  | some ts ↦ not (ltb ts from_ts) && ltb ts to_ts
]

-- `midnight` gives the midnight before a time, by localtime_r and mktime.
module _ (midnight : ℕ → ℕ) where
  -- The part of cal_iter_cb behind the parse.
  unfoldable pub cal_line : ℕ → ℕ → LogLine → List CalDay → List CalDay
  unfolding cal_update
  cal_line from_ts to_ts l ds =
      if in_window from_ts to_ts l
      then cal_update (midnight (or_zero l.ts)) l.worker_id ds cal_max_days
      else ds

  module _ (parse : List ℕ → Option LogLine) where
    unfoldable pub cal_iter_cb : ℕ → ℕ → List ℕ → List CalDay → Err × List CalDay
    unfolding cal_line
    cal_iter_cb from_ts to_ts line ds = elim (parse line) [
      | none ↦ (Err.ok, ds)
      | some l ↦ (Err.ok, cal_line from_ts to_ts l ds)
    ]

    -- The buckets that calendar_get answers with.
    unfoldable pub calendar_buckets : Bool → Option (List ℕ) → ℕ → Store → List CalDay
    unfolding cal_iter_cb event_iter atoi
    calendar_buckets open_in query now store =
        let to_ts = midnight now + 86400 in
        let from_ts = midnight now - (days_of query - 1) * 86400 in
        (event_iter open_in (some (cal_iter_cb from_ts to_ts)) store []).1
