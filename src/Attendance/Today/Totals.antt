-- ===== src/Attendance/Today/Totals.antt =====
-- The totals of one worker in today_get of components/http_app/dd_http_attendance.c, whatever the
-- others do.
use dingdong.Common.{
  ℕ, ◌≤◌, ◌<◌, ◌≡◌, refl, ap, true, ◌&&◌, Option, none, some, List, [], ◌∷◌, length, ltb, ◌==◌,
  if◌then◌else◌, arith, Bool-cases, inl, inr, ◌⊎◌, All,
}
use mathlib.Core.Path.{subst}
use dingdong.Storage.{Store}
use dingdong.Storage.Files.{Holds}
use dingdong.Attendance.{LogLine, or_zero, worker_of, addr_of}
use dingdong.Attendance.Lines.{lines_of, over, Takes, event_iter-over}
use dingdong.Attendance.Today.{
  TodayWorker, new_entry, today_event, today_update, today_line, today_iter_cb, since, comes_in,
  today_max_workers, up_to_now, all_up_to_now, today_entries,
}
use dingdong.Attendance.Visits.Paired.{NamesWorker}
use dingdong.Attendance.Today.Entries.{
  entry_of, or_new, day_of, now_of, today_event-worker, update-own, update-new, update-full,
  update-other, update-length, Kept,
}

module _ (w : ℕ) (pos : 0 < w) (l : LogLine) (f : TodayWorker → TodayWorker)
    (same : (e : TodayWorker) → (f e).worker_id ≡ e.worker_id) where
  -- A new worker, where there is an entry left and where there is none.
  absent-own :
      (es : List TodayWorker)
      → length es ≤ today_max_workers
      → entry_of w es ≡ none
      → let es' = today_update w (addr_of l) f es today_max_workers in
        (entry_of w es' ≡ some (f (new_entry w (addr_of l))))
        ⊎ ((entry_of w es' ≡ none) × (length es' ≡ today_max_workers))
  absent-own es fits absent = elim (Bool-cases (ltb (length es) today_max_workers)) [
    | inl room ↦
        inl (update-new w pos (addr_of l) f same es today_max_workers absent (ground arith))
    | inr full ↦
        let unchanged =
          update-full w pos (addr_of l) f same es today_max_workers absent (ground arith) in
        inr (rw unchanged (absent, ground arith))
  ]

  own_line :
      (es : List TodayWorker) (v : Option TodayWorker)
      → Kept w v es
      → Kept w (some (f (or_new w l v))) (today_update w (addr_of l) f es today_max_workers)
  own_line es v kept =
      ((update-length w w (addr_of l) f same es today_max_workers).1 kept.0, entry v kept)
    where
      full_stays :
          (v : Option TodayWorker)
          → (entry_of w es ≡ none) × (length es ≡ today_max_workers)
          → let es' = today_update w (addr_of l) f es today_max_workers in
            (entry_of w es' ≡ v) ⊎ ((entry_of w es' ≡ none) × (length es' ≡ today_max_workers))
      full_stays v (absent, full) =
          let unchanged =
            update-full w pos (addr_of l) f same es today_max_workers absent (omega arith) in
          inr (rw unchanged (absent, full))

      entry :
          (v : Option TodayWorker)
          → Kept w v es
          → let es' = today_update w (addr_of l) f es today_max_workers in
            (entry_of w es' ≡ some (f (or_new w l v)))
            ⊎ ((entry_of w es' ≡ none) × (length es' ≡ today_max_workers))
      entry none (fits, inl absent) = absent-own es fits absent
      entry (some e) (fits, inl there) =
          inl (update-own w pos (addr_of l) f same es today_max_workers e there)
      entry v (fits, inr full) = full_stays _ full

module _ (w : ℕ) (pos : 0 < w) (cutoff : ℕ) where
  today_line-Kept :
      (l : LogLine) (es : List TodayWorker) (v : Option TodayWorker)
      → NamesWorker l
      → Kept w v es
      → Kept w
          (if since cutoff l && (worker_of l == w)
            then some (today_event (comes_in l) (or_zero l.ts) (or_new w l v))
            else v)
          (today_line cutoff l es)
  unfolding today_line
  today_line-Kept l es v named kept =
      let f = today_event (comes_in l) (or_zero l.ts) in
      let same = today_event-worker (comes_in l) (or_zero l.ts) in
      let size = update-length w (worker_of l) (addr_of l) f same es today_max_workers in
      elim (Bool-cases (since cutoff l)) [
        | inr old ↦ rw old kept
        | inl new ↦ rw new (elim (Bool-cases (worker_of l == w)) [
          | inl own ↦
              let e : w ≡ worker_of l = ground arith in
              rw own (
                subst
                  (λ k.
                    Kept w (some (f (or_new w l v)))
                      (today_update k (addr_of l) f es today_max_workers))
                  e (own_line w pos l f same es v kept))
          | inr other ↦
              let alone =
                update-other w (worker_of l) (addr_of l) f same es today_max_workers pos
                  (ground arith) named in
              rw other (
                size.1 kept.0,
                rw alone (elim (kept.1) [
                  | inl there ↦ inl there
                  | inr (absent, full) ↦ inr (absent, omega (arith, size.0, size.1))
                ]),
              )
        ])
      ]

  over-Kept :
      (ls : List LogLine) (es : List TodayWorker) (v : Option TodayWorker)
      → All NamesWorker ls
      → Kept w v es
      → Kept w (day_of w cutoff ls v) (over (today_line cutoff) ls es)
  over-Kept [] es v named kept = kept
  over-Kept (l ∷ ls) es v named kept =
      over-Kept ls (today_line cutoff l es) _ named.1 (today_line-Kept l es v named.0 kept)

  entry_of-now :
      (now : ℕ) (es : List TodayWorker)
      → entry_of w (all_up_to_now now es) ≡ now_of now (entry_of w es)
  entry_of-now now [] = refl
  entry_of-now now (e ∷ es) =
      let same : (up_to_now now e).worker_id ≡ e.worker_id = elim (Bool-cases (ltb 0 e.in_ts)) [
        | inl came ↦ rw came refl
        | inr out ↦ rw out refl
      ] in
      rw same (elim (Bool-cases (e.worker_id == w)) [
        | inl own ↦ rw own refl
        | inr other ↦ rw other (entry_of-now now es)
      ])

  length-now : (now : ℕ) (es : List TodayWorker) → length (all_up_to_now now es) ≡ length es
  length-now now [] = refl
  length-now now (e ∷ es) = omega (arith, length-now now es)

  module _ (parse : List ℕ → Option LogLine) where
    today_iter_cb-Takes : Takes parse (today_line cutoff) (today_iter_cb parse cutoff)
    unfolding today_iter_cb
    today_iter_cb-Takes line es = refl

    -- The entry of a worker is what its own lines make of it, one after another.
    pub today_entries-own :
        (now : ℕ) (store : Store) (lines : List (List ℕ))
        → Holds store lines
        → All NamesWorker (lines_of parse lines)
        → let es = today_entries parse true cutoff now store in
          (length es ≤ today_max_workers)
          × ((entry_of w es ≡ now_of now (day_of w cutoff (lines_of parse lines) none))
              ⊎ ((entry_of w es ≡ none) × (length es ≡ today_max_workers)))
    unfolding today_entries
    today_entries-own now store lines holds named =
        let walk =
          event_iter-over parse (today_line cutoff) (today_iter_cb parse cutoff) today_iter_cb-Takes
            store lines [] holds in
        let es = over (today_line cutoff) (lines_of parse lines) [] in
        let kept = over-Kept (lines_of parse lines) [] none named (omega arith, inl refl) in
        rw (walk, length-now now es, entry_of-now now es)
          (
            kept.0,
            elim (kept.1) [
              | inl there ↦ inl (ap (now_of now) there)
              | inr (absent, full) ↦ inr (ap (now_of now) absent, full)
            ],
          )
