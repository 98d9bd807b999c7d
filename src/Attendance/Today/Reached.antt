-- ===== src/Attendance/Today/Reached.antt =====
-- What one line of a worker does to its entry in today_get of components/http_app/dd_http_attendance.c, against its stays.
-- lines since midnight say of when it came and went.
use dingdong.Common.{
  ℕ, ◌+◌, ◌-◌, ◌^◌, ◌≤◌, ◌<◌, ◌≡◌, refl, ap, Bool, true, false, not, ◌&&◌, Option, none, some, List,
  [], ◌∷◌, length, ltb, ◌==◌, if◌then◌else◌, arith, Bool-cases, inl, inr,
}
use mathlib.Core.Path.{subst}
use dingdong.Attendance.{LogLine, or_zero, worker_of}
use dingdong.Attendance.Today.{TodayWorker, added_seconds, today_event, since, comes_in, up_to_now}

-- The lines of a worker that count: with a type and a time that is not before midnight.
abbrev pub todays : ℕ → ℕ → List LogLine → List LogLine
todays w midnight [] = []
todays w midnight (l ∷ ls) =
    if since midnight l && (worker_of l == w)
    then l ∷ todays w midnight ls
    else todays w midnight ls

-- The stays that are over, each from an arrival to the departure that follows, and since when one is under way. An
-- arrival on top of a stay begins it anew, and a departure without one does nothing.
abbrev pub stays : List LogLine → Option ℕ → List (ℕ × ℕ) × Option ℕ
stays [] from = ([], from)
stays (l ∷ ls) from = if comes_in l then stays ls (some (or_zero l.ts)) else elim from [
  | none ↦ stays ls none
  | some start ↦ let later = stays ls none in ((start, or_zero l.ts) ∷ later.0, later.1)
]

-- How long a stay counts: not at all where it takes a day or more, or ends before it begins.
abbrev pub counted : ℕ → ℕ → ℕ
counted start end = if ltb start end && ltb (end - start) 86400 then end - start else 0

abbrev pub seconds : List (ℕ × ℕ) → ℕ
seconds [] = 0
seconds ((start, end) ∷ more) = counted start end + seconds more

abbrev pub seconds_since : Option ℕ → ℕ → ℕ
seconds_since none now = 0
seconds_since (some start) now = counted start now

abbrev pub is_under_way : Option ℕ → Bool
is_under_way none = false
is_under_way (some start) = true

-- Times of which the difference of two does not wrap around into a day: before the year 2106.
abbrev pub latest_time : ℕ
latest_time = 2 ^ 32 - 86400

abbrev pub InTime : LogLine → Type 0
InTime l = or_zero l.ts < latest_time

-- What an entry tells: the seconds and the number of the stays, and whether one is under way.
pub record Tells (now : ℕ) (days : List (ℕ × ℕ) × Option ℕ) (e : TodayWorker) : Type 0 where
  pub total : e.total_seconds ≡ seconds days.0 + seconds_since days.1 now
  pub count : e.segments ≡ length days.0
  pub under_way : e.currently_in ≡ is_under_way days.1

-- The entry for the lines of a worker that count, and none where there are none.
abbrev pub Summary : ℕ → List LogLine → Option TodayWorker → Type 0
Summary now [] v = v ≡ none
Summary now (l ∷ ls) v = (e : TodayWorker) × (v ≡ some e) × Tells now (stays (l ∷ ls) none) e

added_seconds-counted :
    (a b : ℕ) → a < latest_time → b < latest_time → added_seconds a b ≡ counted a b
unfolding added_seconds
added_seconds-counted a b before_a before_b = elim (Bool-cases (ltb a b)) [
  | inl lt ↦ ground arith
  | inr ge ↦ ground arith
]

pub since-late : (midnight : ℕ) (l : LogLine) → since midnight l ≡ true → midnight ≤ or_zero l.ts
since-late midnight l = late l.type l.ts
  where
    late :
        (type : Option (List ℕ)) (ts : Option ℕ)
        → (elim type [
          | none ↦ false
          | some text ↦ elim ts [ none ↦ false | some t ↦ not (ltb t midnight) ]
        ])
          ≡ true
        → midnight ≤ or_zero ts
    late none ts h = absurd cc
    late (some text) none h = absurd cc
    late (some text) (some t) h = ground (arith, h)

-- An entry in which a stay is under way since some time, or none is.
pub record Began (from : Option ℕ) (e : TodayWorker) : Type 0 where
  pub in_ts : e.in_ts ≡ or_zero from
  pub under_way : e.currently_in ≡ is_under_way from
  pub positive : ltb 0 e.in_ts ≡ is_under_way from
  pub early : e.in_ts < latest_time

-- What more an entry tells than the one that it was.
pub record Adds (now : ℕ) (days : List (ℕ × ℕ) × Option ℕ) (e e' : TodayWorker) : Type 0 where
  pub total :
      (up_to_now now e').total_seconds ≡ e.total_seconds + seconds days.0 + seconds_since days.1 now
  pub count : e'.segments ≡ e.segments + length days.0
  pub under_way : e'.currently_in ≡ is_under_way days.1

pub Adds-nil :
    (now : ℕ) (from : Option ℕ) (e : TodayWorker)
    → now < latest_time
    → Began from e
    → Adds now ([], from) e e
Adds-nil now none e soon b = record {
  total = let out = b.positive in rw out (omega arith);
  count = omega arith;
  under_way = b.under_way;
}
Adds-nil now (some start) e soon b = record {
  total =
      let is_in = b.positive in
      let secs = added_seconds-counted e.in_ts now b.early soon in
      let same : counted e.in_ts now ≡ counted start now = ap (λ t. counted t now) b.in_ts in
      rw is_in (omega (arith, secs, same));
  count = omega arith;
  under_way = b.under_way;
}

-- The entry that the lines lead to from an entry.
abbrev pub Reached : ℕ → Option TodayWorker → List LogLine → Option ℕ → TodayWorker → Type 0
Reached now v ls from e = (e' : TodayWorker) × (v ≡ some e') × Adds now (stays ls from) e e'

module _ (now : ℕ) (v : Option TodayWorker) (ls : List LogLine) (l : LogLine)
    (e : TodayWorker) where
  pub Reached-came :
      (from : Option ℕ)
      → comes_in l ≡ true
      → Reached now v ls (some (or_zero l.ts)) (today_event true (or_zero l.ts) e)
      → Reached now v (l ∷ ls) from e
  unfolding today_event
  Reached-came from comes (e', q, adds) = (
    e',
    q,
    rw comes (record { total = adds.total; count = adds.count; under_way = adds.under_way }),
  )

  pub Reached-idle :
      comes_in l ≡ false
      → Began none e
      → Reached now v ls none (today_event false (or_zero l.ts) e)
      → Reached now v (l ∷ ls) none e
  unfolding today_event
  Reached-idle goes b (e', q, adds) =
      let same : today_event false (or_zero l.ts) e ≡ e = let out = b.positive in rw out refl in
      (e', q, rw goes (subst (λ x. Adds now (stays ls none) x e') same adds))

  pub Reached-went :
      (start : ℕ)
      → comes_in l ≡ false
      → InTime l
      → Began (some start) e
      → Reached now v ls none (today_event false (or_zero l.ts) e)
      → Reached now v (l ∷ ls) (some start) e
  unfolding today_event
  Reached-went start goes in_time b (e', q, adds) =
      let is_in : ltb 0 e.in_ts ≡ true = b.positive in
      let left : today_event false (or_zero l.ts) e ≡ record e {
        total_seconds = e.total_seconds + added_seconds e.in_ts (or_zero l.ts);
        segments = e.segments + 1;
        in_ts = 0;
        currently_in = false;
      } =
        rw is_in refl in
      let its = subst (λ x. Adds now (stays ls none) x e') left adds in
      let total = its.total in
      let count = its.count in
      let secs = added_seconds-counted e.in_ts (or_zero l.ts) b.early in_time in
      let same : counted e.in_ts (or_zero l.ts) ≡ counted start (or_zero l.ts) =
        ap (λ t. counted t (or_zero l.ts)) b.in_ts in
      (
        e',
        q,
        rw goes (record {
          total = omega (arith, total, secs, same);
          count = omega (arith, count);
          under_way = its.under_way;
        }),
      )

-- An arrival begins a stay, and after a departure none is under way.
pub came-Began :
    (l : LogLine) (e : TodayWorker)
    → 0 < or_zero l.ts
    → InTime l
    → Began (some (or_zero l.ts)) (today_event true (or_zero l.ts) e)
unfolding today_event
came-Began l e some_time in_time = record {
  in_ts = refl;
  under_way = refl;
  positive = ground arith;
  early = in_time;
}

pub went-Began :
    (l : LogLine) (e : TodayWorker) (from : Option ℕ)
    → Began from e
    → Began none (today_event false (or_zero l.ts) e)
unfolding today_event
went-Began l e none b = let out : ltb 0 e.in_ts ≡ false = b.positive in rw out b
went-Began l e (some start) b =
    let is_in : ltb 0 e.in_ts ≡ true = b.positive in
    rw is_in (record { in_ts = refl; under_way = refl; positive = refl; early = omega arith })
