-- ===== src/Attendance/Listing/Tail.antt =====
-- The newest events: what events_get of components/http_app/dd_http_attendance.c lists with no
-- offset and no date.
use dingdong.Common.{
  ℕ, ◌+◌, ◌-◌, ◌<◌, ◌≡◌, refl, sym, ap, ◌∙◌, true, false, Option, none, some, List, [], ◌∷◌, length,
  drop, take-all, length-drop, ltb, ◌==◌, if◌then◌else◌, arith, Bool-cases, Option-cases, inl, inr,
  Err, lt→ltb,
}
use dingdong.Storage.{Store, event_count, event_iter}
use dingdong.Storage.Files.{Holds}
use dingdong.Storage.Iterate.{visit, visit-ok, event_iter-visit}
use dingdong.Attendance.{LogLine}
use dingdong.Attendance.Listing.{
  ListCtx, ctx_of, passes, count_iter_cb, events_iter_cb, matching, tail_offset,
}
use dingdong.Attendance.Listing.Window.{commas, passing, window, visit-window}

module _ (parse : List ℕ → Option LogLine) (w : ℕ) where
  count-line :
      (line : List ℕ) (n : ℕ)
      → 0 < w
      → count_iter_cb parse w line n ≡ (Err.ok, if passes parse 0 0 w line then n + 1 else n)
  unfolding count_iter_cb passes
  count-line line n pos =
      let filtered : (w == 0) ≡ false = ground arith in
      elim (Option-cases (parse line)) [
        | inl no_json ↦ rw (no_json, count_iter_cb, passes, filtered) refl
        | inr (l, parsed) ↦ rw (parsed, count_iter_cb, passes, filtered) refl
      ]

  -- The walk counts the lines that the filter lets through.
  visit-count :
      (lines : List (List ℕ)) (n : ℕ)
      → 0 < w
      → (visit (count_iter_cb parse w) lines n).1 ≡ n + length (passing parse 0 0 w lines)
  unfolding visit
  visit-count [] n pos = omega arith
  visit-count (line ∷ lines) n pos =
      ap (λ (r : Err × ℕ). r.1)
        (visit-ok (count_iter_cb parse w) line lines n _ (count-line line n pos))
      ∙ visit-count lines (if passes parse 0 0 w line then n + 1 else n) pos
      ∙ elim (Bool-cases (passes parse 0 0 w line)) [
        | inl counted ↦ rw counted (omega arith)
        | inr passed_over ↦ rw passed_over refl
      ]

  passing-all : (lines : List (List ℕ)) → w ≡ 0 → passing parse 0 0 w lines ≡ lines
  unfolding passes
  passing-all [] e = refl
  passing-all (line ∷ lines) e =
      let all : passes parse 0 0 w line ≡ true = rw e refl in
      rw all (ap (λ r. line ∷ r) (passing-all lines e))

  matching-length :
      (store : Store) (lines : List (List ℕ))
      → Holds store lines
      → matching parse true w store ≡ length (passing parse 0 0 w lines)
  unfolding matching event_count
  matching-length store lines holds = elim (Bool-cases (w == 0)) [
    | inl all ↦ rw all (
        holds.count ∙ ap (λ (l : List (List ℕ)). length l) (sym (passing-all lines (ground arith))))
    | inr one ↦ rw one (
        ap (λ (r : Err × ℕ). r.1) (event_iter-visit (count_iter_cb parse w) store lines 0 holds)
        ∙ visit-count lines 0 (ground arith)
        ∙ omega arith)
  ]

  window-end :
      (lines : List (List ℕ)) (limit offset : ℕ)
      → 0 < limit
      → offset ≡ length (passing parse 0 0 w lines) - limit
      → window parse (ctx_of parse [] offset limit 0 0 w) lines
        ≡ drop offset (passing parse 0 0 w lines)
  window-end lines limit offset pos e =
      let listed = passing parse 0 0 w lines in
      let some_limit : ltb 0 limit ≡ true = lt→ltb 0 limit pos in
      let start : offset - 0 ≡ offset = omega arith in
      rw (some_limit, start)
        (take-all (limit - 0) (drop offset listed) (omega (arith, length-drop offset listed)))

  newest :
      (store : Store) (lines : List (List ℕ)) (limit offset : ℕ)
      → Holds store lines
      → 0 < limit
      → offset ≡ length (passing parse 0 0 w lines) - limit
      → let r =
          event_iter true
            (some (events_iter_cb parse))
            store
            (ctx_of parse [] offset limit 0 0 w) in
        (r.1.sent ≡ commas true (drop offset (passing parse 0 0 w lines)))
        × (r.1.emitted ≡ length (passing parse 0 0 w lines) - offset)
  newest store lines limit offset holds pos e =
      let c = ctx_of parse [] offset limit 0 0 w in
      let end = window-end lines limit offset pos e in
      let sent = visit-window parse lines c in
      let walk = event_iter-visit (events_iter_cb parse) store lines c holds in
      (
        ap (λ (r : Err × ListCtx). r.1.sent) walk ∙ sent.0 ∙ ap (commas true) end,
        ap (λ (r : Err × ListCtx). r.1.emitted) walk
            ∙ sent.1
            ∙ ap (λ (l : List (List ℕ)). 0 + length l) end
            ∙ omega (arith, length-drop offset (passing parse 0 0 w lines)),
      )

  -- With a limit and neither an offset nor a date, the events that are listed are the newest of those that the
  -- filter by worker lets through, as many as the limit says or all where there are fewer, in the order of the
  -- log; with no filter these are the last lines of the log.
  pub listing-newest :
      (store : Store) (lines : List (List ℕ)) (limit : ℕ)
      → Holds store lines
      → 0 < limit
      → let offset = tail_offset parse true none limit 0 0 w store in
        let listed = passing parse 0 0 w lines in
        let r =
          event_iter true
            (some (events_iter_cb parse))
            store
            (ctx_of parse [] offset limit 0 0 w) in
        (r.1.sent ≡ commas true (drop (length listed - limit) listed))
        × (r.1.emitted ≡ length listed - (length listed - limit))
        × (w ≡ 0 → listed ≡ lines)
  unfolding tail_offset
  listing-newest store lines limit holds pos =
      let listed = passing parse 0 0 w lines in
      let some_limit : ltb 0 limit ≡ true = lt→ltb 0 limit pos in
      let start : matching parse true w store - limit ≡ length listed - limit =
        ap (λ (n : ℕ). n - limit) (matching-length store lines holds) in
      let done = newest store lines limit (length listed - limit) holds pos refl in
      rw (some_limit, start) (done.0, done.1, passing-all lines)
