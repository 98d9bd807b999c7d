-- ===== src/Attendance/Visits/Paired.antt =====
-- The paired view of components/http_app/dd_http_attendance.c over the whole log: each worker's
-- segments are those of its own lines.
use dingdong.Common.{
  ℕ, ◌<◌, ◌≡◌, ◌≢◌, refl, ap, ap₂, map, ◌∙◌, true, false, Option, none, some, List, [], ◌∷◌, ◌++◌,
  append_assoc, ◌==◌, arith, Bool-cases, inl, inr, All,
}
use mathlib.Core.Path.{subst}
use dingdong.Storage.{Store}
use dingdong.Storage.Files.{Holds}
use dingdong.Attendance.{worker_of, addr_of, LogLine}
use dingdong.Attendance.Lines.{lines_of, over, Takes, event_iter-over}
use dingdong.Attendance.Visits.{
  Open, Segment, PairCtx, find_open_slot, find_free_slot, end_visit, arrive, depart, counts,
  pair_line, paired_iter_cb, paired_segments, left_open, blank_ctx, open_segment, is_in,
}
use dingdong.Attendance.Visits.Slots.{live}
use dingdong.Attendance.Visits.Worker.{
  only, segments_of, next_visit, listed, ended, only-append, left_open-live, pair_line-own,
  pair_line-other,
}

-- A line that has an address names a worker.
abbrev pub NamesWorker : LogLine → Type 0
NamesWorker l = worker_of l ≡ 0 → addr_of l ≡ none

-- In front of each line one of the sixteen slots is free.
abbrev pub Roomy : List LogLine → PairCtx → Type 0
Roomy [] c = Unit {0}
Roomy (l ∷ ls) c = (find_free_slot c.opens ≢ none) × Roomy ls (pair_line l c)

end_visit-bounds :
    (found : Option ℕ) (out : Option (ℕ × List ℕ)) (c : PairCtx)
    → ((end_visit found out c).from_ts ≡ c.from_ts) × ((end_visit found out c).to_ts ≡ c.to_ts)
unfolding end_visit
end_visit-bounds none out c = (refl, refl)
end_visit-bounds (some i) out c = (refl, refl)

pair_line-skipped :
    (l : LogLine) (c : PairCtx) → counts c.from_ts c.to_ts l ≡ false → pair_line l c ≡ c
unfolding pair_line
pair_line-skipped l c skipped = rw skipped refl

pair_line-bounds :
    (l : LogLine) (c : PairCtx)
    → ((pair_line l c).from_ts ≡ c.from_ts) × ((pair_line l c).to_ts ≡ c.to_ts)
unfolding pair_line arrive depart
pair_line-bounds l c = elim (Bool-cases (counts c.from_ts c.to_ts l)) [
  | inr skipped ↦ rw skipped (refl, refl)
  | inl counted ↦ rw counted (elim (Bool-cases (is_in l)) [
    | inl comes ↦
        rw comes (end_visit-bounds (find_open_slot c.opens (worker_of l) (addr_of l)) none c)
    | inr goes ↦ rw goes (end_visit-bounds (find_open_slot c.opens (worker_of l) (addr_of l)) _ c)
  ])
]

module _ (parse : List ℕ → Option LogLine) (w : ℕ) (pos : 0 < w) where
  -- The segments of the worker at the end.
  abbrev sent : PairCtx → List Segment
  sent c = only w (c.segments ++ left_open c.opens)

  sent-none :
      (c : PairCtx) (v : Option Open)
      → live w c.opens ≡ listed v
      → sent c ≡ only w c.segments ++ ended v none
  sent-none c v held =
      only-append w c.segments (left_open c.opens)
      ∙ ap (λ r. only w c.segments ++ r) (left_open-live w pos c.opens ∙ rw held (opened v))
    where
      opened : (v : Option Open) → map open_segment (listed v) ≡ ended v none
      opened none = refl
      opened (some o) = refl

  step :
      (l : LogLine) (c : PairCtx) (v : Option Open) (ls : List LogLine)
      → NamesWorker l
      → find_free_slot c.opens ≢ none
      → live w c.opens ≡ listed v
      → (v' : Option Open) × (live w (pair_line l c).opens ≡ listed v')
        × (only w (pair_line l c).segments ++ segments_of w c.from_ts c.to_ts ls v'
            ≡ only w c.segments ++ segments_of w c.from_ts c.to_ts (l ∷ ls) v)
  step l c v ls named room held = elim (Bool-cases (counts c.from_ts c.to_ts l)) [
    | inr skipped ↦
        let same = pair_line-skipped l c skipped in
        (v, ap (λ (x : PairCtx). live w x.opens) same ∙ held, rw (same, skipped) refl)
    | inl counted ↦ elim (Bool-cases (worker_of l == w)) [
      | inl own ↦
          let e : worker_of l ≡ w = ground arith in
          let done =
            subst
              (λ k.
                0 < k
                → live k c.opens ≡ listed v
                → (only k (pair_line l c).segments ≡ only k c.segments ++ (next_visit l v).0)
                  × (live k (pair_line l c).opens ≡ listed (next_visit l v).1))
              e (λ p h. pair_line-own l c v p counted room h) pos held in
          let later = segments_of w c.from_ts c.to_ts ls (next_visit l v).1 in
          (
            (next_visit l v).1,
            done.1,
            ap (λ r. r ++ later) (done.0)
                ∙ append_assoc (only w c.segments) (next_visit l v).0 later
                ∙ rw (counted, own) refl,
          )
      | inr other ↦
          let done = pair_line-other w pos l c (ground arith) named room in
          (v, done.1 ∙ held, rw (done.0, counted, other) refl)
    ]
  ]

  paired-lines :
      (ls : List LogLine) (c : PairCtx) (v : Option Open)
      → All NamesWorker ls
      → Roomy ls c
      → live w c.opens ≡ listed v
      → sent (over pair_line ls c) ≡ only w c.segments ++ segments_of w c.from_ts c.to_ts ls v
  paired-lines [] c v named room held = sent-none c v held
  paired-lines (l ∷ ls) c v named room held =
      let (v', held', same) = step l c v ls named.0 room.0 held in
      let bounds = pair_line-bounds l c in
      paired-lines ls (pair_line l c) v' named.1 room.1 held'
      ∙ ap₂ (λ from to. only w (pair_line l c).segments ++ segments_of w from to ls v') bounds.0
          bounds.1
      ∙ same

  paired_iter_cb-Takes : Takes parse pair_line (paired_iter_cb parse)
  unfolding paired_iter_cb
  paired_iter_cb-Takes line c = refl

  -- In the paired view, and in the paired export within bounds, the segments of a worker are those that
  -- its own lines make, in their order, whatever the lines of others say between them: an arrival at a time above 0 begins a visit,
  -- the departure that follows ends it, an arrival on top of a visit leaves that visit open, a departure without
  -- one makes nothing, and the visit that is under way at the end is open. This is so where a line
  -- with an address names a worker, and one of the sixteen slots is free in front of each line.
  pub paired_segments-only :
      (from_ts to_ts : ℕ) (store : Store) (lines : List (List ℕ))
      → Holds store lines
      → All NamesWorker (lines_of parse lines)
      → Roomy (lines_of parse lines) (blank_ctx from_ts to_ts)
      → only w (paired_segments parse true from_ts to_ts store)
        ≡ segments_of w from_ts to_ts (lines_of parse lines) none
  unfolding paired_segments
  paired_segments-only from_ts to_ts store lines holds named room =
      let blank = blank_ctx from_ts to_ts in
      ap sent (
        event_iter-over parse pair_line (paired_iter_cb parse) paired_iter_cb-Takes store lines
          blank holds)
      ∙ paired-lines (lines_of parse lines) blank none named room refl
