-- ===== src/Attendance/Visits/Sent.antt =====
-- What components/http_app/dd_http_attendance.c sends for a segment, as JSON or as a row of CSV, and
-- the answers that are made of them.
use dingdong.Common.{
  ℕ, ◌+◌, ◌-◌, ◌/◌, Bool, true, false, Option, none, some, List, [], ◌∷◌, ◌++◌, ltb, ◌==◌,
  if◌then◌else◌, codes,
}
use dingdong.Stdio.{decimal, newline}
use dingdong.Storage.{Store}
use dingdong.Workers.{Table}
use dingdong.Attendance.{comma, LogLine}
use dingdong.Attendance.Export.{csv_field_quote, name_of}
use dingdong.Attendance.Visits.{Segment, paired_segments}

-- `(int)((out_ts - open->in_ts) / 60)` printed by `%d`: the division rounds towards 0.
abbrev pub minutes : ℕ → ℕ → List ℕ
minutes out_ts in_ts =
    let late = (in_ts - out_ts) / 60 in
    if ltb 0 late then b'-' ∷ decimal late else decimal ((out_ts - in_ts) / 60)

-- The cells for the end of a visit: the time and the minutes.
abbrev pub end_cells : (ℕ → List ℕ) → ℕ → Option (ℕ × List ℕ) → List ℕ
end_cells clock in_ts none = comma ∷ codes "open"
end_cells clock in_ts (some (out_ts, src)) =
    if ltb 0 out_ts then clock out_ts ++ (comma ∷ minutes out_ts in_ts) else comma ∷ codes "open"

abbrev pub end_source : Option (ℕ × List ℕ) → List ℕ
end_source none = []
end_source (some (out_ts, src)) = csv_field_quote src

-- `date` and `clock` are strftime of the local time, and `print` is cJSON with the members of a segment.
module _ (table : Table) (date clock : ℕ → List ℕ) (print : Segment → Option (List ℕ)) where
  -- emit_segment in csv_mode
  unfoldable pub segment_row : Segment → List ℕ
  unfolding csv_field_quote
  segment_row s =
      let o = s.visit in
      decimal o.worker_id
      ++ (comma
          ∷ ((if o.worker_id == 0 then [] else csv_field_quote (name_of table o.worker_id))
              ++ (comma
                  ∷ ((if ltb 0 o.in_ts then date o.in_ts ++ (comma ∷ clock o.in_ts) else comma ∷ [])
                      ++ (comma
                          ∷ (end_cells clock o.in_ts s.out
                              ++ (comma
                                  ∷ (csv_field_quote o.in_src
                                      ++ (comma ∷ (end_source s.out ++ (newline ∷ [])))))))))))

  abbrev pub segment_rows : List Segment → List ℕ
  segment_rows [] = []
  segment_rows (s ∷ ss) = segment_row s ++ segment_rows ss

  -- emit_segment without csv_mode: the text and how many were printed; `first` is the field of the context
  unfoldable pub segments_json : Bool → List Segment → List ℕ × ℕ
  segments_json first [] = ([], 0)
  segments_json first (s ∷ ss) =
      let (rest, n) = segments_json false ss in
      let lead = if first then [] else comma ∷ [] in
      elim (print s) [ none ↦ (lead ++ rest, n) | some text ↦ (lead ++ (text ++ rest), n + 1) ]

  module _ (parse : List ℕ → Option LogLine) where
    -- events_paired_get
    unfoldable pub events_paired_get : Bool → Store → List ℕ
    unfolding segments_json paired_segments
    events_paired_get open_in store =
        let (text, count) = segments_json true (paired_segments parse open_in 0 0 store) in
        codes "{\"segments\":[" ++ (text ++ (codes "],\"count\":" ++ (decimal count ++ codes "}")))

    -- The branch of events_export_get for `paired`.
    unfoldable pub export_paired : Bool → Bool → ℕ → ℕ → Store → List ℕ
    unfolding segments_json segment_row paired_segments
    export_paired csv open_in from_ts to_ts store =
        let segments = paired_segments parse open_in from_ts to_ts store in
        if csv
        then codes "worker_id,worker_name,date,in,out,duration_min,in_src,out_src"
          ++ (newline ∷ segment_rows segments)
        else (segments_json true segments).0 ++ (newline ∷ [])
