-- ===== src/Attendance/Listing/Query.antt =====
-- The queries of components/http_app/dd_http_attendance.c and the answers to them. The values of a query
-- (httpd_query_key_value, `none` where it gives none) and mktime are arguments.
use dingdong.Common.{
  ℕ, ◌+◌, ◌-◌, ◌%◌, ◌^◌, min, Bool, true, false, ◌||◌, Option, none, some, List, [], ◌∷◌, ◌++◌, ltb,
  ◌==◌, if◌then◌else◌, codes,
}
use dingdong.Stdio.{decimal, newline, is_digit, read_digits, skip_spaces, skip_plus}
use dingdong.Storage.{Store, event_iter, event_count}
use dingdong.Attendance.{LogLine}
use dingdong.Attendance.Listing.{ctx_of, events_iter_cb, tail_offset}

-- atoi: whether the number is negative, and its size; strtol of 32 bits stops at the ends of its range.
abbrev is_minus : List ℕ → Bool
is_minus [] = false
is_minus (c ∷ cs) = c == b'-'

abbrev skip_minus : List ℕ → List ℕ
skip_minus [] = []
skip_minus (c ∷ cs) = if c == b'-' then cs else c ∷ cs

unfoldable pub atoi : List ℕ → Bool × ℕ
unfolding skip_spaces read_digits
atoi s =
    let text = skip_spaces s in
    if is_minus text
    then (true, min (2 ^ 31) (read_digits 0 (skip_minus text)))
    else (false, min (2 ^ 31 - 1) (read_digits 0 (skip_plus text)))

-- A number where a negative one counts as 0, and `(uint16_t)` of a number.
abbrev pub not_negative : Bool × ℕ → ℕ
not_negative (negative, n) = if negative then 0 else n

abbrev pub to_uint16 : Bool × ℕ → ℕ
to_uint16 (negative, n) = if negative then (2 ^ 16 - n % 2 ^ 16) % 2 ^ 16 else n % 2 ^ 16

-- `if (limit <= 0 || limit > 5000) limit = 200;`
abbrev pub limit_of : Option (List ℕ) → ℕ
limit_of none = 200
limit_of (some val) = let n = not_negative (atoi val) in if (n == 0) || ltb 5000 n then 200 else n

-- A `%d` of sscanf for a number that is not negative, and "%d-%d-%d".
abbrev drop_digits : List ℕ → List ℕ
drop_digits [] = []
drop_digits (c ∷ cs) = if is_digit c then drop_digits cs else c ∷ cs

abbrev starts_digit : List ℕ → Bool
starts_digit [] = false
starts_digit (c ∷ cs) = is_digit c

abbrev scan_number : List ℕ → Option (ℕ × List ℕ)
scan_number s =
    let text = skip_plus (skip_spaces s) in
    if starts_digit text then some (read_digits 0 text, drop_digits text) else none

abbrev skip_dash : List ℕ → Option (List ℕ)
skip_dash [] = none
skip_dash (c ∷ cs) = if c == b'-' then some cs else none

unfoldable pub scan_date : List ℕ → Option (ℕ × ℕ × ℕ)
unfolding skip_spaces read_digits
scan_date s = elim (scan_number s) [
  | none ↦ none
  | some (y, s1) ↦ elim (skip_dash s1) [
    | none ↦ none
    | some s2 ↦ elim (scan_number s2) [
      | none ↦ none
      | some (m, s3) ↦ elim (skip_dash s3) [
        | none ↦ none
        | some s4 ↦ elim (scan_number s4) [ none ↦ none | some (d, _) ↦ some (y, m, d) ]
      ]
    ]
  ]
]

-- The values of the query string.
pub record Query : Type 0 where
  pub offset : Option (List ℕ)
  pub limit : Option (List ℕ)
  pub worker_id : Option (List ℕ)
  pub date : Option (List ℕ)
  pub from : Option (List ℕ)
  pub to : Option (List ℕ)

-- `midnight` is mktime of a year, a month and a day.
module _ (midnight : ℕ → ℕ → ℕ → ℕ) where
  -- The time of a date, `none` where the text is none.
  abbrev pub date_of : Option (List ℕ) → Option ℕ
  date_of none = none
  date_of (some val) = elim (scan_date val) [ none ↦ none | some (y, m, d) ↦ some (midnight y m d) ]

  -- offset, limit, from_ts, to_ts and worker_id of events_get; an offset that was not given is `none`
  unfoldable pub listing_query : Query → Option ℕ × ℕ × ℕ × ℕ × ℕ
  unfolding atoi scan_date
  listing_query q =
      let offset : Option ℕ = elim q.offset [
        | none ↦ none
        | some val ↦ some (not_negative (atoi val))
      ] in
      let worker_id : ℕ = elim q.worker_id [ none ↦ 0 | some val ↦ to_uint16 (atoi val) ] in
      elim (date_of q.date) [
        | none ↦ (offset, limit_of q.limit, 0, 0, worker_id)
        | some from_ts ↦ (offset, 0, from_ts, from_ts + 86400, worker_id)
      ]

  -- from_ts, to_ts and worker_id of events_export_get
  unfoldable pub export_query : Query → ℕ × ℕ × ℕ
  unfolding atoi scan_date
  export_query q =
      let worker_id : ℕ = elim q.worker_id [ none ↦ 0 | some val ↦ to_uint16 (atoi val) ] in
      (
        elim (date_of q.from) [ none ↦ 0 | some t ↦ t ],
        elim (date_of q.to) [ none ↦ 0 | some t ↦ t + 86400 ],
        worker_id,
      )

  module _ (parse : List ℕ → Option LogLine) where
    -- events_get
    unfoldable pub events_get : Bool → Query → Store → List ℕ
    unfolding listing_query tail_offset events_iter_cb event_iter event_count
    events_get open_in q store =
        let (given, limit, from_ts, to_ts, worker_id) = listing_query q in
        let offset = tail_offset parse open_in given limit from_ts to_ts worker_id store in
        let c =
          (event_iter open_in (some (events_iter_cb parse)) store
            (ctx_of parse [] offset limit from_ts to_ts worker_id)).1 in
        codes "{\"events\":["
        ++ (c.sent
            ++ (codes "],\"count\":"
                ++ (decimal (event_count store)
                    ++ (codes ",\"emitted\":"
                        ++ (decimal c.emitted
                            ++ (codes ",\"offset\":"
                                ++ (decimal offset
                                    ++ (codes ",\"limit\":"
                                        ++ (decimal limit
                                            ++ (codes ",\"from_ts\":"
                                                ++ (decimal from_ts
                                                    ++ (codes ",\"to_ts\":"
                                                        ++ (decimal to_ts
                                                            ++ (codes ",\"worker_id\":"
                                                            ++ (decimal worker_id
                                                            ++ codes "}")))))))))))))))

    -- The branch of events_export_get for neither `paired` nor `csv`.
    unfoldable pub export_jsonl : Bool → ℕ → ℕ → ℕ → Store → List ℕ
    unfolding events_iter_cb event_iter
    export_jsonl open_in from_ts to_ts worker_id store =
        (event_iter open_in (some (events_iter_cb parse)) store
          (ctx_of parse [] 0 0 from_ts to_ts worker_id)).1.sent
        ++ (newline ∷ [])
