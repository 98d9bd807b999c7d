-- ===== src/Wifi/Giveup.antt =====
-- The timer that gives up in components/wifi_mgr/dd_wifi.c while the attempts of the station fail: when it is armed, and how
-- fast failures put it off.
use dingdong.Common.{
  ℕ, ◌+◌, ◌*◌, ◌≤◌, ◌<◌, ◌≡◌, refl, ◌∙◌, Bool, true, false, ◌&&◌, ◌||◌, none, some, List, [], ◌∷◌,
  ◌++◌, length, ltb, ◌==◌, if◌then◌else◌, arith, Bool-cases, inl, inr, Option-cases, some_eq,
}
use dingdong.Wifi.{Wifi, WifiState, disconnected, giveup_period, sta_retry_max}

-- Failures at these times, one after another.
abbrev pub drop_all : Bool → List ℕ → Wifi → Wifi
drop_all made [] w = w
drop_all made (t ∷ ts) w = drop_all made ts (disconnected made t w)

abbrev pub last_time : ℕ → List ℕ → ℕ
last_time t [] = t
last_time t (u ∷ ts) = last_time u ts

-- Whether the timer is due at no time before a failure of the list comes.
abbrev pub never_due : Bool → List ℕ → Wifi → Bool
never_due made [] w = true
never_due made (t ∷ ts) w =
    elim w.alarm [ none ↦ true | some due ↦ ltb t due ] && never_due made ts (disconnected made t w)

-- Times each of which comes after the one before, by less than so many microseconds.
abbrev pub Close : ℕ → ℕ → List ℕ → Type 0
Close gap t [] = Unit
Close gap t (u ∷ ts) = (t ≤ u) × (u < t + gap) × Close gap u ts

-- The timer, if it is armed, is put off far enough for the failures that are left before it is armed anew.
abbrev PutOff : ℕ → Wifi → Type 0
PutOff t w =
    (w.sta_retry ≤ sta_retry_max)
    × ((due : ℕ) → w.alarm ≡ some due → t + giveup_period ≤ due + w.sta_retry * 10000000)

armed_alarm :
    (there : Bool) (set due : ℕ) → (if there then some set else none) ≡ some due → set ≡ due
armed_alarm true set due e = some_eq e
armed_alarm false set due e = absurd cc

disconnected-PutOff :
    (made : Bool) (t u : ℕ) (w : Wifi)
    → t ≤ u
    → u < t + 10000000
    → PutOff t w
    → PutOff u (disconnected made u w)
unfolding disconnected
disconnected-PutOff made t u w after close (max, off) =
    elim (Bool-cases (ltb w.sta_retry sta_retry_max)) [
      | inl more ↦
          rw more (ground (arith, more), (λ due e. let o = off due e in ground (arith, more, o)))
      | inr slow ↦ rw slow (
        omega arith,
        (λ due e.
            let o = armed_alarm (w.has_timer || made) (u + giveup_period) due e in
            omega (arith, o)),
      )
    ]

not_due :
    (t u : ℕ) (w : Wifi)
    → u < t + 10000000
    → PutOff t w
    → elim w.alarm [ none ↦ true | some due ↦ ltb u due ] ≡ true
not_due t u w close (max, off) = elim (Option-cases w.alarm) [
  | inl unset ↦ rw unset refl
  | inr (due, set) ↦ let o = off due set in rw set (ground (arith, o, max))
]

since_kept :
    (made : Bool) (u : ℕ) (w : Wifi)
    → 0 < w.sta_down_since
    → (disconnected made u w).sta_down_since ≡ w.sta_down_since
unfolding disconnected
since_kept made u w down =
    let is_down : (w.sta_down_since == 0) ≡ false = ground arith in
    elim (Bool-cases (ltb w.sta_retry sta_retry_max)) [
      | inl more ↦ rw (more, is_down) refl
      | inr slow ↦ rw (slow, is_down) refl
    ]

never_due-PutOff :
    (made : Bool) (t : ℕ) (ts : List ℕ) (w : Wifi)
    → 0 < w.sta_down_since
    → PutOff t w
    → Close 10000000 t ts
    → (never_due made ts w ≡ true) × ((drop_all made ts w).sta_down_since ≡ w.sta_down_since)
never_due-PutOff made t [] w down off close = (refl, refl)
never_due-PutOff made t (u ∷ ts) w down off (after, near, close) =
    let kept = since_kept made u w down in
    let next = disconnected made u w in
    let (rest, since) =
      never_due-PutOff made u ts next (omega (arith, kept))
        (disconnected-PutOff made t u w after near off) close in
    (rw (not_due t u w near off, rest) refl, since ∙ kept)

-- From a station that is down with the timer not yet set and at most five retries: as long as the attempts to connect fail less than ten seconds apart,
-- the timer that gives up is never due, since each sixth failure sets it anew before it is. The time since which the station is down stays that of the first
-- failure, however long ago that is.
pub never_due-Close :
    (made : Bool) (t : ℕ) (ts : List ℕ) (w : Wifi)
    → 0 < w.sta_down_since
    → w.sta_retry ≤ sta_retry_max
    → w.alarm ≡ none
    → Close 10000000 t ts
    → (never_due made ts w ≡ true) × ((drop_all made ts w).sta_down_since ≡ w.sta_down_since)
never_due-Close made t ts w down max unset close =
    never_due-PutOff made t ts w down (max, (λ due e. absurd cc)) close

-- From any number of retries, the failures that complete six in a row arm the timer for a minute after the last of them, and the
-- retries are counted from 0 again.
drop_all-arms :
    (t : ℕ) (ts : List ℕ) (w : Wifi)
    → length ts + w.sta_retry ≡ sta_retry_max
    → let w' = drop_all true (ts ++ (t ∷ [])) w in
      (w'.state ≡ WifiState.down) × (w'.sta_retry ≡ 0) × (w'.alarm ≡ some (t + giveup_period))
unfolding disconnected
drop_all-arms t [] w full =
    let slow : ltb w.sta_retry sta_retry_max ≡ false = ground (arith, full) in
    elim (Bool-cases w.has_timer) [
      | inl there ↦ rw (slow, there) (refl, refl, refl)
      | inr not_yet ↦ rw (slow, not_yet) (refl, refl, refl)
    ]
drop_all-arms t (u ∷ ts) w full =
    let more : ltb w.sta_retry sta_retry_max ≡ true = ground (arith, full) in
    drop_all-arms t ts (disconnected true u w) (rw more (omega (arith, full)))
