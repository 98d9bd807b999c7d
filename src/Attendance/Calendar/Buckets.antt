-- ===== src/Attendance/Calendar/Buckets.antt =====
-- The buckets of calendar_get of components/http_app/dd_http_attendance.c against a count over the log.
use dingdong.Common.{
  ℕ, zero, suc, ◌+◌, ◌-◌, ◌*◌, ◌≤◌, ◌<◌, ◌≡◌, refl, ap, ◌∙◌, Bool, true, false, ◌&&◌, Option, List,
  [], ◌∷◌, length, ltb, ◌==◌, if◌then◌else◌, arith, Bool-cases, inl, inr, ◌⊎◌,
}
use mathlib.Core.Path.{subst}
use dingdong.Storage.{Store}
use dingdong.Storage.Files.{Holds}
use dingdong.Attendance.{LogLine, or_zero}
use dingdong.Attendance.Lines.{lines_of, over, Takes, event_iter-over}
use dingdong.Attendance.Calendar.{
  CalDay, count_event, cal_update, cal_line, cal_iter_cb, cal_max_days, in_window, days_of,
  calendar_buckets,
}

-- The events in the buckets of a day.
abbrev pub events_on : ℕ → List CalDay → ℕ
events_on day [] = 0
events_on day (d ∷ ds) = (if d.date_unix == day then d.events else 0) + events_on day ds

-- The events of a day in a log.
module _ (midnight : ℕ → ℕ) where
  abbrev pub happened : ℕ → ℕ → ℕ → List LogLine → ℕ
  happened day from_ts to_ts [] = 0
  happened day from_ts to_ts (l ∷ ls) =
      (if in_window from_ts to_ts l && (midnight (or_zero l.ts) == day) then 1 else 0)
      + happened day from_ts to_ts ls

-- A day's bucket is there.
abbrev pub has_day : ℕ → List CalDay → Bool
has_day day [] = false
has_day day (d ∷ ds) = if d.date_unix == day then true else has_day day ds

update-counts :
    (day other : ℕ) (wid : Option ℕ) (ds : List CalDay) (room : ℕ)
    → (length ds < room) ⊎ (has_day other ds ≡ true)
    → events_on day (cal_update other wid ds room)
      ≡ events_on day ds + (if other == day then 1 else 0)
unfolding cal_update count_event
update-counts day other wid [] zero = λ h. absurd (elim h [ inl lt ↦ omega arith | inr e ↦ cc ])
update-counts day other wid [] (suc room) = λ h. ground arith
update-counts day other wid (d ∷ ds) room = elim (Bool-cases (d.date_unix == other)) [
  | inl hit ↦ rw hit (λ h. ground arith)
  | inr miss ↦ rw miss (λ h.
      let rest =
        update-counts day other wid ds (room - 1)
          (elim h [ inl lt ↦ inl (omega arith) | inr e ↦ inr e ]) in
      omega (arith, rest))
]

update-full :
    (other : ℕ) (wid : Option ℕ) (ds : List CalDay) (room : ℕ)
    → room ≤ length ds
    → has_day other ds ≡ false
    → cal_update other wid ds room ≡ ds
unfolding cal_update
update-full other wid [] zero = λ h k. refl
update-full other wid [] (suc room) = λ h k. absurd (omega arith)
update-full other wid (d ∷ ds) room = elim (Bool-cases (d.date_unix == other)) [
  | inl hit ↦ rw hit (λ h k. absurd cc)
  | inr miss ↦
      rw miss (λ h k. ap (λ r. d ∷ r) (update-full other wid ds (room - 1) (omega arith) k))
]

update-length :
    (other : ℕ) (wid : Option ℕ) (ds : List CalDay) (room : ℕ)
    → (length ds ≤ length (cal_update other wid ds room))
      × (length ds ≤ room → length (cal_update other wid ds room) ≤ room)
unfolding cal_update
update-length other wid [] zero = (omega arith, λ h. omega arith)
update-length other wid [] (suc room) = (omega arith, λ h. omega arith)
update-length other wid (d ∷ ds) room = elim (Bool-cases (d.date_unix == other)) [
  | inl hit ↦ rw hit (omega arith, λ h. h)
  | inr miss ↦
      let rest = update-length other wid ds (room - 1) in
      rw miss (omega (arith, rest.0), λ h. omega (arith, rest.1))
]

update-other :
    (day other : ℕ) (wid : Option ℕ) (ds : List CalDay) (room : ℕ)
    → (other == day) ≡ false
    → has_day day (cal_update other wid ds room) ≡ has_day day ds
unfolding cal_update count_event
update-other day other wid [] zero ne = refl
update-other day other wid [] (suc room) ne = rw ne refl
update-other day other wid (d ∷ ds) room ne = elim (Bool-cases (d.date_unix == other)) [
  | inl hit ↦ rw hit refl
  | inr miss ↦ rw miss (
      ap (λ r. if d.date_unix == day then true else r)
        (update-other day other wid ds (room - 1) ne))
]

-- The buckets of a day hold so many events, or the day came when all 62 buckets were taken.
abbrev Kept : ℕ → ℕ → List CalDay → Type 0
Kept day n ds =
    (length ds ≤ cal_max_days)
    × ((events_on day ds ≡ n) ⊎ ((has_day day ds ≡ false) × (length ds ≡ cal_max_days)))

update-Kept :
    (day other n : ℕ) (wid : Option ℕ) (ds : List CalDay)
    → Kept day n ds
    → Kept day (n + (if other == day then 1 else 0)) (cal_update other wid ds cal_max_days)
update-Kept day other n wid ds kept =
    let size = update-length other wid ds cal_max_days in
    (
      size.1 kept.0,
      elim (Bool-cases (ltb (length ds) cal_max_days)) [
        | inl room ↦ inl (
            update-counts day other wid ds cal_max_days (inl (ground arith))
            ∙ ap (λ (k : ℕ). k + (if other == day then 1 else 0)) (counted room (kept.1)))
        | inr full ↦ elim (Bool-cases (has_day other ds)) [
          | inl there ↦ elim (kept.1) [
            | inl exact ↦ inl (
                update-counts day other wid ds cal_max_days (inr there)
                ∙ ap (λ (k : ℕ). k + (if other == day then 1 else 0)) exact)
            | inr (absent, taken) ↦ elim (Bool-cases (other == day)) [
              | inl same ↦ absurd (
                  let e : other ≡ day = ground arith in
                  let c : has_day day ds ≡ true = subst (λ k. has_day k ds ≡ true) e there in cc)
              | inr ne ↦ inr (
                update-other day other wid ds cal_max_days ne ∙ absent,
                omega (arith, taken, size.0, size.1 kept.0),
              )
            ]
          ]
          | inr new ↦
              let unchanged = update-full other wid ds cal_max_days (ground arith) new in
              rw unchanged (elim (Bool-cases (other == day)) [
                | inl same ↦
                    let e : other ≡ day = ground arith in
                    inr (subst (λ k. has_day k ds ≡ false) e new, ground arith)
                | inr ne ↦
                    rw ne (elim (kept.1) [
                      | inl exact ↦ inl (exact ∙ omega arith)
                      | inr both ↦ inr both
                    ])
              ])
        ]
      ],
    )
  where
    counted :
        ltb (length ds) cal_max_days ≡ true
        → (events_on day ds ≡ n) ⊎ ((has_day day ds ≡ false) × (length ds ≡ cal_max_days))
        → events_on day ds ≡ n
    counted room (inl exact) = exact
    counted room (inr (_, full)) = absurd (ground arith)

module _ (midnight : ℕ → ℕ) (day from_ts to_ts : ℕ) where
  cal_line-Kept :
      (l : LogLine) (ds : List CalDay) (n : ℕ)
      → Kept day n ds
      → Kept day
          (n + (if in_window from_ts to_ts l && (midnight (or_zero l.ts) == day) then 1 else 0))
          (cal_line midnight from_ts to_ts l ds)
  unfolding cal_line
  cal_line-Kept l ds n kept = elim (Bool-cases (in_window from_ts to_ts l)) [
    | inl inside ↦ rw inside (update-Kept day (midnight (or_zero l.ts)) n l.worker_id ds kept)
    | inr outside ↦ rw outside (let same : n + 0 ≡ n = omega arith in rw same kept)
  ]

  over-Kept :
      (ls : List LogLine) (ds : List CalDay) (n : ℕ)
      → Kept day n ds
      → Kept day
          (n + happened midnight day from_ts to_ts ls)
          (over (cal_line midnight from_ts to_ts) ls ds)
  over-Kept [] ds n kept = let same : n + 0 ≡ n = omega arith in rw same kept
  over-Kept (l ∷ ls) ds n kept =
      let one : ℕ =
        if in_window from_ts to_ts l && (midnight (or_zero l.ts) == day) then 1 else 0 in
      let later = happened midnight day from_ts to_ts ls in
      let sum : n + one + later ≡ n + (one + later) = omega arith in
      subst
        (λ (k : ℕ).
          Kept day k
            (over (cal_line midnight from_ts to_ts) ls (cal_line midnight from_ts to_ts l ds)))
        sum
        (over-Kept ls (cal_line midnight from_ts to_ts l ds) (n + one) (cal_line-Kept l ds n kept))

module _ (midnight : ℕ → ℕ) (parse : List ℕ → Option LogLine) (from_ts to_ts : ℕ) where
  cal_iter_cb-Takes :
      Takes parse (cal_line midnight from_ts to_ts) (cal_iter_cb midnight parse from_ts to_ts)
  unfolding cal_iter_cb
  cal_iter_cb-Takes line ds = refl

-- The calendar has at most 62 buckets, and the buckets of a day hold as many events as the log has on that day
-- in the window of the query; only a day that came when 62 others had a bucket has none.
pub calendar_buckets-count :
    (midnight : ℕ → ℕ) (parse : List ℕ → Option LogLine) (day now : ℕ) (query : Option (List ℕ))
    (store : Store) (lines : List (List ℕ))
    → Holds store lines
    → let ds = calendar_buckets midnight parse true query now store in
      let from_ts = midnight now - (days_of query - 1) * 86400 in
      let to_ts = midnight now + 86400 in
      (length ds ≤ cal_max_days)
      × ((events_on day ds ≡ happened midnight day from_ts to_ts (lines_of parse lines))
          ⊎ ((has_day day ds ≡ false) × (length ds ≡ cal_max_days)))
unfolding calendar_buckets
calendar_buckets-count midnight parse day now query store lines holds =
    let to_ts = midnight now + 86400 in
    let from_ts = midnight now - (days_of query - 1) * 86400 in
    let logged = lines_of parse lines in
    let kept = over-Kept midnight day from_ts to_ts logged [] 0 (omega arith, inl refl) in
    let none_before : 0 + happened midnight day from_ts to_ts logged
        ≡ happened midnight day from_ts to_ts logged =
      omega arith in
    let walk =
      event_iter-over parse (cal_line midnight from_ts to_ts)
        (cal_iter_cb midnight parse from_ts to_ts) (cal_iter_cb-Takes midnight parse from_ts to_ts)
        store lines [] holds in
    rw walk (
      subst (λ (k : ℕ). Kept day k (over (cal_line midnight from_ts to_ts) logged [])) none_before
        kept)
