-- ===== src/Attendance/Listing/Tests.antt =====
-- The list of events at a log of single letters.
use dingdong.Common.{ℕ, ◌-◌, ◌≡◌, refl, true, false, none, some, [], length, drop, codes, arith}
use dingdong.Storage.{event_iter}
use dingdong.Stdio.{fgets_all, decimal}
use dingdong.Attendance.Tests.{parse, lines, store, store-Holds}
use dingdong.Attendance.Listing.{ctx_of, tail_offset, events_iter_cb, passes}
use dingdong.Attendance.Listing.Query.{Query, events_get, scan_date, atoi}
use dingdong.Attendance.Listing.Window.{commas, passing}
use dingdong.Attendance.Listing.Tail.{listing-newest}

listing-newest_example :
    let offset = tail_offset parse true none 2 0 0 0 store in
    let listed = passing parse 0 0 0 lines in
    let r = event_iter true (some (events_iter_cb parse)) store (ctx_of parse [] offset 2 0 0 0) in
    (r.1.sent ≡ commas true (drop (length listed - 2) listed))
    × (r.1.emitted ≡ length listed - (length listed - 2))
    × (◌≡◌ {A = ℕ} 0 0 → listed ≡ lines)
listing-newest_example = listing-newest parse 0 store lines 2 store-Holds (omega arith)

abbrev last_two : Query
last_two = record {
  offset = none;
  limit = some (codes "2");
  worker_id = none;
  date = none;
  from = none;
  to = none;
}

listed_last :
    events_get (λ y m d. 0) parse true last_two store
    ≡ codes
        "{\"events\":[?,c],\"count\":4,\"emitted\":2,\"offset\":2,\"limit\":2,\"from_ts\":0,\"to_ts\":0,\"worker_id\":0}"
unfolding events_get fgets_all passes decimal
listed_last = refl

numbers_read :
    (scan_date (codes "2024-05-06") ≡ some (2024, 5, 6))
    × (scan_date (codes "2024/05/06") ≡ none)
    × (atoi (codes " -12x") ≡ (true, 12))
    × (atoi (codes "99999999999") ≡ (false, 2147483647))
unfolding scan_date atoi
numbers_read = (refl, refl, refl, refl)
