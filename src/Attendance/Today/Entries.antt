-- ===== src/Attendance/Today/Entries.antt =====
-- The table of entries of today_get in components/http_app/dd_http_attendance.c: the entry of one worker under an update.
use dingdong.Common.{
  ℕ, zero, suc, ◌-◌, ◌≤◌, ◌<◌, ◌≡◌, ◌≢◌, refl, ap, Bool, true, false, ◌&&◌, Option, none, some,
  List, [], ◌∷◌, length, ltb, ◌==◌, if◌then◌else◌, arith, Bool-cases, inl, inr, ◌⊎◌, some_eq,
}
use dingdong.Attendance.{LogLine, or_zero, same_addr, worker_of, addr_of}
use dingdong.Attendance.Today.{
  TodayWorker, new_entry, is_entry_of, today_event, today_update, since, comes_in,
  today_max_workers, up_to_now,
}

-- The entry of a worker.
abbrev pub entry_of : ℕ → List TodayWorker → Option TodayWorker
entry_of w [] = none
entry_of w (e ∷ es) = if e.worker_id == w then some e else entry_of w es

-- What the worker's own lines make of its entry.
abbrev pub or_new : ℕ → LogLine → Option TodayWorker → TodayWorker
or_new w l none = new_entry w (addr_of l)
or_new w l (some e) = e

abbrev pub day_of : ℕ → ℕ → List LogLine → Option TodayWorker → Option TodayWorker
day_of w cutoff [] v = v
day_of w cutoff (l ∷ ls) v = day_of w cutoff ls (
    if since cutoff l && (worker_of l == w)
    then some (today_event (comes_in l) (or_zero l.ts) (or_new w l v))
    else v)

-- The time up to now is added.
abbrev pub now_of : ℕ → Option TodayWorker → Option TodayWorker
now_of now none = none
now_of now (some e) = some (up_to_now now e)

pub today_event-worker :
    (b : Bool) (ts : ℕ) (e : TodayWorker) → (today_event b ts e).worker_id ≡ e.worker_id
unfolding today_event
today_event-worker true ts e = refl
today_event-worker false ts e = elim (Bool-cases (ltb 0 e.in_ts)) [
  | inl came ↦ rw came refl
  | inr out ↦ rw out refl
]

module _ (w : ℕ) (pos : 0 < w) (addr : Option (List ℕ)) (f : TodayWorker → TodayWorker)
    (same_worker : (e : TodayWorker) → (f e).worker_id ≡ e.worker_id) where
  own_entry : (e : TodayWorker) → is_entry_of w addr e ≡ (e.worker_id == w)
  unfolding is_entry_of
  own_entry e = ground arith

  pub update-own :
      (es : List TodayWorker) (room : ℕ) (e : TodayWorker)
      → entry_of w es ≡ some e
      → entry_of w (today_update w addr f es room) ≡ some (f e)
  unfolding today_update
  update-own [] room e = λ h. absurd cc
  update-own (x ∷ es) room e = rw (own_entry x) (elim (Bool-cases (x.worker_id == w)) [
    | inl own ↦
        let still : ((f x).worker_id == w) ≡ true = ground (arith, same_worker x) in
        rw own (λ h. rw still (ap (λ y. some (f y)) (some_eq h)))
    | inr other ↦ rw other (λ h. rw other (update-own es (room - 1) e h))
  ])

  pub update-new :
      (es : List TodayWorker) (room : ℕ)
      → entry_of w es ≡ none
      → length es < room
      → entry_of w (today_update w addr f es room) ≡ some (f (new_entry w addr))
  unfolding today_update
  update-new [] zero = λ h lt. absurd (omega arith)
  update-new [] (suc room) = λ h lt.
      let still : ((f (new_entry w addr)).worker_id == w) ≡ true =
        ground (arith, same_worker (new_entry w addr)) in
      rw still refl
  update-new (x ∷ es) room = rw (own_entry x) (elim (Bool-cases (x.worker_id == w)) [
    | inl own ↦ rw own (λ h lt. absurd cc)
    | inr other ↦ rw other (λ h lt. rw other (update-new es (room - 1) h (omega arith)))
  ])

  pub update-full :
      (es : List TodayWorker) (room : ℕ)
      → entry_of w es ≡ none
      → room ≤ length es
      → today_update w addr f es room ≡ es
  unfolding today_update
  update-full [] zero = λ h le. refl
  update-full [] (suc room) = λ h le. absurd (omega arith)
  update-full (x ∷ es) room = rw (own_entry x) (elim (Bool-cases (x.worker_id == w)) [
    | inl own ↦ rw own (λ h le. absurd cc)
    | inr other ↦ rw other (λ h le. ap (λ r. x ∷ r) (update-full es (room - 1) h (omega arith)))
  ])

same_addr-none : (a : Option (List ℕ)) → same_addr a none ≡ false
same_addr-none none = refl
same_addr-none (some a) = refl

other_entry :
    (w v : ℕ) (addr : Option (List ℕ)) (e : TodayWorker)
    → v ≢ w
    → (v ≡ 0 → addr ≡ none)
    → is_entry_of v addr e ≡ true
    → (e.worker_id == w) ≡ false
unfolding is_entry_of
other_entry w v none e ne unnamed hit = ground (arith, same_addr-none e.addr)
other_entry w v (some a) e ne unnamed hit = let named : v ≢ 0 = λ z. cc (unnamed z) in ground arith

module _ (w v : ℕ) (addr : Option (List ℕ)) (f : TodayWorker → TodayWorker)
    (same_worker : (e : TodayWorker) → (f e).worker_id ≡ e.worker_id) where
  pub update-other :
      (es : List TodayWorker) (room : ℕ)
      → 0 < w
      → v ≢ w
      → (v ≡ 0 → addr ≡ none)
      → entry_of w (today_update v addr f es room) ≡ entry_of w es
  unfolding today_update
  update-other [] zero pos ne unnamed = refl
  update-other [] (suc room) pos ne unnamed =
      let other : ((f (new_entry v addr)).worker_id == w) ≡ false =
        ground (arith, same_worker (new_entry v addr)) in
      rw other refl
  update-other (x ∷ es) room pos ne unnamed = elim (Bool-cases (is_entry_of v addr x)) [
    | inl hit ↦
        let other = other_entry w v addr x ne unnamed hit in
        let still : ((f x).worker_id == w) ≡ false = ground (arith, same_worker x) in
        rw hit (rw (other, still) refl)
    | inr miss ↦ rw miss (elim (Bool-cases (x.worker_id == w)) [
      | inl own ↦ rw own refl
      | inr other ↦ rw other (update-other es (room - 1) pos ne unnamed)
    ])
  ]

  pub update-length :
      (es : List TodayWorker) (room : ℕ)
      → (length es ≤ length (today_update v addr f es room))
        × (length es ≤ room → length (today_update v addr f es room) ≤ room)
  unfolding today_update
  update-length [] zero = (omega arith, λ h. omega arith)
  update-length [] (suc room) = (omega arith, λ h. omega arith)
  update-length (x ∷ es) room = elim (Bool-cases (is_entry_of v addr x)) [
    | inl hit ↦ rw hit (omega arith, λ h. h)
    | inr miss ↦
        let rest = update-length es (room - 1) in
        rw miss (omega (arith, rest.0), λ h. omega (arith, rest.1))
  ]

-- The entry of the worker is what its own lines make of it, or there is none since sixteen others were first.
abbrev pub Kept : ℕ → Option TodayWorker → List TodayWorker → Type 0
Kept w v es =
    (length es ≤ today_max_workers)
    × ((entry_of w es ≡ v) ⊎ ((entry_of w es ≡ none) × (length es ≡ today_max_workers)))
