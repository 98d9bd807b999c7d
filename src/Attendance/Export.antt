-- ===== src/Attendance/Export.antt =====
-- The CSV export of components/http_app/dd_http_attendance.c.
pub mod Csv
pub mod Rows
mod Tests
use dingdong.Common.{
  ℕ, ◌+◌, ◌%◌, ◌^◌, Bool, true, false, not, ◌&&◌, ◌||◌, Option, none, some, List, [], ◌∷◌, ◌++◌,
  length, ltb, ◌==◌, if◌then◌else◌, Err, codes,
}
use dingdong.Stdio.{decimal, newline}
use dingdong.Storage.{Store, event_iter}
use dingdong.Workers.{Table, Worker, worker_get}
use dingdong.Attendance.{comma, LogLine, or_zero, or_text, out_of_range}

abbrev pub quote_mark : ℕ
quote_mark = 34

abbrev pub carriage_return : ℕ
carriage_return = 13

-- `strchr(s, c)`, whether it finds c
abbrev pub has_char : ℕ → List ℕ → Bool
has_char c [] = false
has_char c (x ∷ xs) = (x == c) || has_char c xs

-- The loop of csv_field_quote, with the closing mark.
unfoldable pub double_quotes : List ℕ → List ℕ
double_quotes [] = quote_mark ∷ []
double_quotes (c ∷ cs) =
    let rest = double_quotes cs in
    if c == quote_mark then quote_mark ∷ quote_mark ∷ rest else c ∷ rest

-- csv_field_quote: what it sends
unfoldable pub csv_field_quote : List ℕ → List ℕ
unfolding double_quotes
csv_field_quote s =
    if has_char comma s || has_char quote_mark s || has_char newline s || has_char carriage_return s
    then quote_mark ∷ double_quotes s
    else s

-- The name of the worker of an id, where there is one.
abbrev pub name_of : Table → ℕ → List ℕ
name_of table wid = elim (worker_get table wid true).1 [ none ↦ [] | some w ↦ w.name ]

-- The cells for the worker: `snprintf("%d")`, a comma and the name, or the comma alone.
unfoldable pub worker_cells : Table → ℕ → List ℕ
unfolding csv_field_quote worker_get
worker_cells table wid =
    if ltb 0 wid
    then decimal wid ++ (comma ∷ csv_field_quote (name_of table (wid % 2 ^ 16)))
    else comma ∷ []

abbrev pub reason_cell : Option ℕ → List ℕ
reason_cell none = []
reason_cell (some n) = decimal n

-- `iso` is strftime of the local time.
module _ (parse : List ℕ → Option LogLine) (table : Table) (iso : ℕ → List ℕ) where
  -- The chunks of events_csv_iter_cb for an event in range. The id of a worker and the reason are those that the device
  -- writes, which an int holds.
  unfoldable pub csv_row : LogLine → List ℕ
  unfolding csv_field_quote worker_cells
  csv_row l =
      let ts = or_zero l.ts in
      decimal ts
      ++ (comma
          ∷ ((if ltb 0 ts then iso ts else [])
              ++ (comma
                  ∷ (csv_field_quote (or_text [] l.type)
                      ++ (comma
                          ∷ (csv_field_quote (or_text [] l.src)
                              ++ (comma
                                  ∷ (worker_cells table (or_zero l.worker_id)
                                      ++ (comma
                                          ∷ (csv_field_quote (or_text [] l.peer)
                                              ++ (comma
                                                  ∷ (reason_cell l.reason
                                                      ++ (comma
                                                          ∷ (csv_field_quote (or_text [] l.note)
                                                            ++ (newline ∷ [])))))))))))))))

  -- events_csv_iter_cb; the context is what was sent
  unfoldable pub events_csv_iter_cb : ℕ → ℕ → List ℕ → List ℕ → Err × List ℕ
  unfolding csv_row
  events_csv_iter_cb from_ts to_ts line sent = elim (parse line) [
    | none ↦ (Err.ok, sent)
    | some l ↦
        if out_of_range from_ts to_ts (or_zero l.ts)
        then (Err.ok, sent)
        else (Err.ok, sent ++ csv_row l)
  ]

  -- The branch of events_export_get for `csv` and not `paired`.
  unfoldable pub export_csv : Bool → ℕ → ℕ → Store → List ℕ
  unfolding events_csv_iter_cb event_iter
  export_csv open_in from_ts to_ts store =
      (event_iter open_in (some (events_csv_iter_cb from_ts to_ts)) store
        (codes "ts,iso_local,type,src,worker_id,worker_name,peer,reason,note" ++ (newline ∷ []))).1
