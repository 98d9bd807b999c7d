-- ===== src/Attendance/Listing.antt =====
-- events_get of components/http_app/dd_http_attendance.c: the list of events, a window of those that
-- pass the filters, and the plain export. The text is that of all chunks.
pub mod Query
pub mod Window
pub mod Tail
mod Tests
use dingdong.Common.{
  ℕ, zero, suc, ◌+◌, ◌-◌, ◌*◌, ◌%◌, ◌^◌, min, Bool, true, false, not, ◌&&◌, ◌||◌, Option, none,
  some, List, [], ◌∷◌, ◌++◌, length, ltb, leb, ◌==◌, if◌then◌else◌, Err, codes,
}
use dingdong.Stdio.{decimal, newline}
use dingdong.Storage.{Store, event_iter, event_count}
use dingdong.Attendance.{comma, LogLine, or_zero, out_of_range}

-- events_iter_ctx_t, with what was sent in place of the request
pub record ListCtx : Type 0 where
  pub sent : List ℕ
  pub first : Bool
  pub skipped : ℕ
  pub emitted : ℕ
  pub offset : ℕ
  pub limit : ℕ
  pub from_ts : ℕ
  pub to_ts : ℕ
  pub worker_id : ℕ

module _ (parse : List ℕ → Option LogLine) where
  -- count_iter_cb; the context is worker_id and the count
  unfoldable pub count_iter_cb : ℕ → List ℕ → ℕ → Err × ℕ
  count_iter_cb worker_id line count = elim (parse line) [
    | none ↦ (Err.ok, count)
    | some l ↦ (Err.ok, if or_zero l.worker_id == worker_id then count + 1 else count)
  ]

  -- The filters of events_iter_cb. A line is parsed only where there is a filter.
  unfoldable pub passes : ℕ → ℕ → ℕ → List ℕ → Bool
  passes from_ts to_ts worker_id line =
      if (from_ts == 0) && (to_ts == 0) && (worker_id == 0) then true else elim (parse line) [
        | none ↦ false
        | some l ↦
            not (out_of_range from_ts to_ts (or_zero l.ts))
            && ((worker_id == 0) || (or_zero l.worker_id == worker_id))
      ]

  unfoldable pub events_iter_cb : List ℕ → ListCtx → Err × ListCtx
  unfolding passes
  events_iter_cb line c =
      if not (passes c.from_ts c.to_ts c.worker_id line)
      then (Err.ok, c)
      else if ltb c.skipped c.offset
      then (Err.ok, record c { skipped = c.skipped + 1 })
      else if ltb 0 c.limit && not (ltb c.emitted c.limit)
      then (Err.fail, c)
      else (
        Err.ok,
        record c {
          sent = c.sent ++ ((if c.first then [] else comma ∷ []) ++ line);
          first = false;
          emitted = c.emitted + 1;
        },
      )

  -- The query of events_get: the offset, the limit, the bounds and the worker, 0 for none of it. `offset_set` is
  -- whether the offset was given.
  abbrev pub ctx_of : List ℕ → ℕ → ℕ → ℕ → ℕ → ℕ → ListCtx
  ctx_of sent offset limit from_ts to_ts worker_id = record {
    sent = sent;
    first = true;
    skipped = 0;
    emitted = 0;
    offset = offset;
    limit = limit;
    from_ts = from_ts;
    to_ts = to_ts;
    worker_id = worker_id;
  }

  -- `int matching`: the cached count, or that of a walk over the log
  unfoldable pub matching : Bool → ℕ → Store → ℕ
  unfolding count_iter_cb event_iter event_count
  matching open_in worker_id store =
      if worker_id == 0
      then event_count store
      else (event_iter open_in (some (count_iter_cb worker_id)) store 0).1

  -- The offset that events_get uses.
  unfoldable pub tail_offset : Bool → Option ℕ → ℕ → ℕ → ℕ → ℕ → Store → ℕ
  unfolding matching
  tail_offset open_in (some offset) limit from_ts to_ts worker_id store = offset
  tail_offset open_in none limit from_ts to_ts worker_id store =
      if ltb 0 limit && ((from_ts == 0) && (to_ts == 0))
      then matching open_in worker_id store - limit
      else 0
