-- ===== src/Attendance/Today/Stays.antt =====
-- The summary of one worker by today_get of components/http_app/dd_http_attendance.c against its stays: what its
-- lines since midnight say of when it came and went.
use dingdong.Common.{
  ℕ, ◌≤◌, ◌<◌, ◌≡◌, refl, sym, ap, ◌∙◌, Bool, true, false, ◌&&◌, Option, none, some, List, [], ◌∷◌,
  length, ltb, ◌==◌, if◌then◌else◌, arith, Bool-cases, inl, inr, ◌⊎◌, All,
}
use mathlib.Core.Path.{subst}
use dingdong.Storage.{Store}
use dingdong.Storage.Files.{Holds}
use dingdong.Attendance.{LogLine, or_zero, worker_of, addr_of}
use dingdong.Attendance.Lines.{lines_of}
use dingdong.Attendance.Visits.Paired.{NamesWorker}
use dingdong.Attendance.Today.{
  TodayWorker, new_entry, today_event, since, comes_in, today_max_workers, up_to_now, today_entries,
}
use dingdong.Attendance.Today.Entries.{entry_of, or_new, day_of, now_of}
use dingdong.Attendance.Today.Totals.{today_entries-own}
use dingdong.Attendance.Today.Reached.{
  todays, Summary, InTime, latest_time, since-late, Adds-nil, Reached, Reached-came, Reached-idle,
  Reached-went, came-Began, went-Began, Began,
}

module _ (w midnight now : ℕ) (pos : 0 < midnight) (soon : now < latest_time) where
  own_day :
      (l : LogLine) (ls : List LogLine) (v : Option TodayWorker)
      → (since midnight l && (worker_of l == w)) ≡ true
      → (day_of w midnight (l ∷ ls) v
          ≡ day_of w midnight ls (some (today_event (comes_in l) (or_zero l.ts) (or_new w l v))))
        × (todays w midnight (l ∷ ls) ≡ l ∷ todays w midnight ls)
  own_day l ls v own = (
    ap (day_of w midnight ls) (
        ap
          (λ (b : Bool).
            if b then some (today_event (comes_in l) (or_zero l.ts) (or_new w l v)) else v)
          own),
    ap (λ (b : Bool). if b then l ∷ todays w midnight ls else todays w midnight ls) own,
  )

  other_day :
      (l : LogLine) (ls : List LogLine) (v : Option TodayWorker)
      → (since midnight l && (worker_of l == w)) ≡ false
      → (day_of w midnight (l ∷ ls) v ≡ day_of w midnight ls v)
        × (todays w midnight (l ∷ ls) ≡ todays w midnight ls)
  other_day l ls v other = (
    ap (day_of w midnight ls) (
        ap
          (λ (b : Bool).
            if b then some (today_event (comes_in l) (or_zero l.ts) (or_new w l v)) else v)
          other),
    ap (λ (b : Bool). if b then l ∷ todays w midnight ls else todays w midnight ls) other,
  )

  Reached-own :
      (v : Option TodayWorker) (ls : List LogLine) (l : LogLine) (e : TodayWorker) (from : Option ℕ)
      → 0 < or_zero l.ts
      → InTime l
      → Began from e
      → ((from' : Option ℕ)
          → Began from' (today_event (comes_in l) (or_zero l.ts) e)
          → Reached now v ls from' (today_event (comes_in l) (or_zero l.ts) e))
      → Reached now v (l ∷ ls) from e
  Reached-own v ls l e from some_time in_time b later = elim (Bool-cases (comes_in l)) [
    | inl comes ↦
        Reached-came now v ls l e from comes
          ((rw comes at later) (some (or_zero l.ts)) (came-Began l e some_time in_time))
    | inr goes ↦ went from b goes ((rw goes at later) none (went-Began l e from b))
  ]
    where
      went :
          (from : Option ℕ)
          → Began from e
          → comes_in l ≡ false
          → Reached now v ls none (today_event false (or_zero l.ts) e)
          → Reached now v (l ∷ ls) from e
      went none b goes r = Reached-idle now v ls l e goes b r
      went (some start) b goes r = Reached-went now v ls l e start goes in_time b r

  day_of-Reached :
      (ls : List LogLine) (e : TodayWorker) (from : Option ℕ)
      → All InTime ls
      → Began from e
      → Reached now (day_of w midnight ls (some e)) (todays w midnight ls) from e
  day_of-Reached [] e from times b = (e, refl, Adds-nil now from e soon b)
  day_of-Reached (l ∷ ls) e from times b =
      elim (Bool-cases (since midnight l && (worker_of l == w))) [
        | inr other ↦
            let (day, lines) = other_day l ls (some e) other in
            subst (λ v. Reached now v (todays w midnight (l ∷ ls)) from e) (sym day)
              (subst (λ r. Reached now (day_of w midnight ls (some e)) r from e) (sym lines)
                (day_of-Reached ls e from times.1 b))
        | inl own ↦
            let (day, lines) = own_day l ls (some e) own in
            let e1 = today_event (comes_in l) (or_zero l.ts) e in
            let late = since-late midnight l (ground (arith, own)) in
            subst (λ v. Reached now v (todays w midnight (l ∷ ls)) from e) (sym day)
              (subst (λ r. Reached now (day_of w midnight ls (some e1)) r from e) (sym lines)
                (Reached-own (day_of w midnight ls (some e1)) (todays w midnight ls) l e from
                  (omega (arith, late, pos)) times.0 b
                  (λ from' b'. day_of-Reached ls e1 from' times.1 b')))
      ]

  Reached-Summary :
      (v : Option TodayWorker) (ls : List LogLine) (l : LogLine) (a : Option (List ℕ))
      → Reached now v (l ∷ ls) none (new_entry w a)
      → Summary now (l ∷ ls) (now_of now v)
  Reached-Summary v ls l a (e', q, adds) =
      let total = adds.total in
      let count = adds.count in
      let still : (up_to_now now e').currently_in ≡ e'.currently_in =
        elim (Bool-cases (ltb 0 e'.in_ts)) [ inl b ↦ rw b refl | inr b ↦ rw b refl ] in
      let as_many : (up_to_now now e').segments ≡ e'.segments = elim (Bool-cases (ltb 0 e'.in_ts)) [
        | inl b ↦ rw b refl
        | inr b ↦ rw b refl
      ] in
      (
        up_to_now now e',
        ap (now_of now) q,
        record {
          total = total ∙ omega arith;
          count = as_many ∙ count ∙ omega arith;
          under_way = still ∙ adds.under_way;
        },
      )

  day_of-Summary :
      (ls : List LogLine)
      → All InTime ls
      → Summary now (todays w midnight ls) (now_of now (day_of w midnight ls none))
  day_of-Summary [] times = refl
  day_of-Summary (l ∷ ls) times = elim (Bool-cases (since midnight l && (worker_of l == w))) [
    | inr other ↦
        let (day, lines) = other_day l ls none other in
        subst (λ v. Summary now (todays w midnight (l ∷ ls)) (now_of now v)) (sym day)
          (subst (λ r. Summary now r (now_of now (day_of w midnight ls none))) (sym lines)
            (day_of-Summary ls times.1))
    | inl own ↦
        let (day, lines) = own_day l ls none own in
        let e = new_entry w (addr_of l) in
        let e1 = today_event (comes_in l) (or_zero l.ts) e in
        let late = since-late midnight l (ground (arith, own)) in
        let fresh : Began none e = record {
          in_ts = refl;
          under_way = refl;
          positive = refl;
          early = omega arith;
        } in
        subst (λ v. Summary now (todays w midnight (l ∷ ls)) (now_of now v)) (sym day)
          (subst (λ r. Summary now r (now_of now (day_of w midnight ls (some e1)))) (sym lines)
            (Reached-Summary (day_of w midnight ls (some e1)) (todays w midnight ls) l (addr_of l) (
              Reached-own (day_of w midnight ls (some e1)) (todays w midnight ls) l e none
                (omega (arith, late, pos)) times.0 fresh
                (λ from' b'. day_of-Reached ls e1 from' times.1 b'))))
  ]

  -- The summary of today has at most sixteen entries. A worker without a line since midnight has none. Of another
  -- the entry tells the seconds and the number of its stays, and whether one is under way, whatever the lines of
  -- others say: a stay is from an arrival to the departure that follows, an arrival on top of a stay begins it anew, a
  -- departure without one does nothing, and a stay counts where it is longer than nothing and shorter than a day,
  -- also the one under way, up to now. Only where sixteen entries are there without the worker's it may have none. This is so where a line with an
  -- address names a worker, midnight is above 0 and the times are before the year 2106.
  pub today_entries-stays :
      (parse : List ℕ → Option LogLine) (store : Store) (lines : List (List ℕ))
      → 0 < w
      → Holds store lines
      → All NamesWorker (lines_of parse lines)
      → All InTime (lines_of parse lines)
      → let es = today_entries parse true midnight now store in
        (length es ≤ today_max_workers)
        × (Summary now (todays w midnight (lines_of parse lines)) (entry_of w es)
            ⊎ ((entry_of w es ≡ none) × (length es ≡ today_max_workers)))
  today_entries-stays parse store lines named_pos holds named times =
      let (few, cases) = today_entries-own w named_pos midnight parse now store lines holds named in
      (
        few,
        elim cases [
          | inr full ↦ inr full
          | inl its ↦ inl (
              subst (Summary now (todays w midnight (lines_of parse lines))) (sym its)
                (day_of-Summary (lines_of parse lines) times))
        ],
      )
