-- ===== src/Attendance.antt =====
-- components/http_app/dd_http_attendance.c: what the web page reads from the event log. This file is what
-- its parts share; Export writes the CSV, Visits pairs arrivals with departures, Listing is the list of
-- events, Today and Calendar are the summaries. cJSON is an argument, the
-- requests have passed require_auth, and what a handler sends is the text of all its chunks.
pub mod Lines
pub mod Export
pub mod Visits
pub mod Listing
pub mod Today
pub mod Calendar
mod Tests
use dingdong.Util.{scan_mac}
use dingdong.Common.{
  ℕ, ◌%◌, ◌^◌, Bool, true, false, not, ◌&&◌, ◌||◌, Option, none, some, List, ltb, ◌==◌, bytes_eq,
  codes,
}

-- What the handlers ask a parsed line for: the strings and the numbers under these names, `none` where there
-- is none. Numbers are not negative. A line that is no JSON has no LogLine.
pub record LogLine : Type 0 where
  pub type : Option (List ℕ)
  pub src : Option (List ℕ)
  pub peer : Option (List ℕ)
  pub note : Option (List ℕ)
  pub ts : Option ℕ
  pub mono_us : Option ℕ
  pub worker_id : Option ℕ
  pub reason : Option ℕ

abbrev pub comma : ℕ
comma = 44

-- `cJSON_IsNumber(x) ? x->valuedouble : 0`, and a string or a text in its place
abbrev pub or_zero : Option ℕ → ℕ
or_zero none = 0
or_zero (some n) = n

abbrev pub or_text : List ℕ → Option (List ℕ) → List ℕ
or_text text none = text
or_text text (some s) = s

-- The test of a time against the bounds, 0 for none.
abbrev pub out_of_range : ℕ → ℕ → ℕ → Bool
out_of_range from_ts to_ts ts =
    (not (from_ts == 0) && ltb ts from_ts) || (not (to_ts == 0) && not (ltb ts to_ts))

abbrev pub same_addr : Option (List ℕ) → Option (List ℕ) → Bool
same_addr (some a) (some b) = bytes_eq a b
same_addr (some a) none = false
same_addr none b = false

-- The worker, address, time and source that paired_iter_cb reads from a line.
abbrev pub worker_of : LogLine → ℕ
worker_of l = or_zero l.worker_id % 2 ^ 16

abbrev pub addr_of : LogLine → Option (List ℕ)
addr_of l = elim l.peer [ none ↦ none | some peer ↦ scan_mac 6 peer ]
