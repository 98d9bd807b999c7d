-- ===== src/Attendance/Today.antt =====
-- today_get of components/http_app/dd_http_attendance.c: how long each worker was in since midnight.
pub mod Entries
pub mod Totals
pub mod Reached
pub mod Stays
mod Tests
use dingdong.Common.{
  ℕ, zero, suc, ◌+◌, ◌-◌, ◌%◌, ◌^◌, Bool, true, false, not, ◌&&◌, ◌||◌, Option, none, some, List,
  [], ◌∷◌, ◌++◌, length, take, ltb, leb, ◌==◌, if◌then◌else◌, Err, codes, bytes_eq,
}
use dingdong.Util.{scan_mac}
use dingdong.Storage.{Store, event_iter}
use dingdong.Attendance.{LogLine, or_zero, or_text, same_addr, worker_of, addr_of}

-- TODAY_MAX_WORKERS
abbrev pub today_max_workers : ℕ
today_max_workers = 16

-- today_worker_t; in_src, which nothing reads, is left out, and addr and has_addr are one option
pub record TodayWorker : Type 0 where
  pub worker_id : ℕ
  pub addr : Option (List ℕ)
  pub in_ts : ℕ
  pub total_seconds : ℕ
  pub segments : ℕ
  pub currently_in : Bool

abbrev pub new_entry : ℕ → Option (List ℕ) → TodayWorker
new_entry wid addr = record {
  worker_id = wid;
  addr = addr;
  in_ts = 0;
  total_seconds = 0;
  segments = 0;
  currently_in = false;
}

-- The two tests of the loop of today_get_or_create.
unfoldable pub is_entry_of : ℕ → Option (List ℕ) → TodayWorker → Bool
is_entry_of wid addr w =
    (not (wid == 0) && (w.worker_id == wid)) || ((wid == 0) && same_addr w.addr addr)

-- `(int)(b - a)` of two times, where it is positive and less than a day, and 0 where not.
unfoldable pub added_seconds : ℕ → ℕ → ℕ
added_seconds a b =
    let dur = (b % 2 ^ 32 + 2 ^ 32 - a % 2 ^ 32) % 2 ^ 32 in
    if ltb 0 dur && ltb dur 86400 then dur else 0

-- What an arrival and a departure do to the entry.
unfoldable pub today_event : Bool → ℕ → TodayWorker → TodayWorker
unfolding added_seconds
today_event is_in ts w =
    if is_in
    then record w { in_ts = ts; currently_in = true }
    else if ltb 0 w.in_ts
    then record w {
      total_seconds = w.total_seconds + added_seconds w.in_ts ts;
      segments = w.segments + 1;
      in_ts = 0;
      currently_in = false;
    }
    else w

-- today_get_or_create and the update of the entry that it gives; `room` is how many entries may be added.
unfoldable pub today_update :
    ℕ → Option (List ℕ) → (TodayWorker → TodayWorker) → List TodayWorker → ℕ → List TodayWorker
unfolding is_entry_of
today_update wid addr f [] zero = []
today_update wid addr f [] (suc room) = f (new_entry wid addr) ∷ []
today_update wid addr f (w ∷ ws) room =
    if is_entry_of wid addr w then f w ∷ ws else w ∷ today_update wid addr f ws (room - 1)

-- `!cJSON_IsString(type_j) || !cJSON_IsNumber(ts_j)`, and the cutoff
abbrev pub since : ℕ → LogLine → Bool
since cutoff l = elim l.type [
  | none ↦ false
  | some type ↦ elim l.ts [ none ↦ false | some ts ↦ not (ltb ts cutoff) ]
]

abbrev pub comes_in : LogLine → Bool
comes_in l = bytes_eq (or_text [] l.type) (codes "in")

-- The part of today_iter_cb behind the parse.
unfoldable pub today_line : ℕ → LogLine → List TodayWorker → List TodayWorker
unfolding today_update today_event
today_line cutoff l ws =
    if since cutoff l
    then today_update (worker_of l) (addr_of l) (today_event (comes_in l) (or_zero l.ts)) ws
        today_max_workers
    else ws

-- The loop of today_get that adds the time up to now.
abbrev pub up_to_now : ℕ → TodayWorker → TodayWorker
up_to_now now w =
    if ltb 0 w.in_ts
    then record w { total_seconds = w.total_seconds + added_seconds w.in_ts now }
    else w

abbrev pub all_up_to_now : ℕ → List TodayWorker → List TodayWorker
all_up_to_now now [] = []
all_up_to_now now (w ∷ ws) = up_to_now now w ∷ all_up_to_now now ws

module _ (parse : List ℕ → Option LogLine) where
  unfoldable pub today_iter_cb : ℕ → List ℕ → List TodayWorker → Err × List TodayWorker
  unfolding today_line
  today_iter_cb cutoff line ws = elim (parse line) [
    | none ↦ (Err.ok, ws)
    | some l ↦ (Err.ok, today_line cutoff l ws)
  ]

  -- The entries that today_get answers with; `cutoff` is the midnight before `now`
  unfoldable pub today_entries : Bool → ℕ → ℕ → Store → List TodayWorker
  unfolding today_iter_cb event_iter added_seconds
  today_entries open_in cutoff now store =
      all_up_to_now now (event_iter open_in (some (today_iter_cb cutoff)) store []).1
