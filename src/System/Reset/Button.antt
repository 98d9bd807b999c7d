-- ===== src/System/Reset/Button.antt =====
-- The BOOT button of main/main.c: it resets the device just where it is held for five seconds.
use dingdong.Common.{
  ℕ, ◌+◌, ◌≤◌, ◌<◌, ◌≡◌, refl, sym, ◌∙◌, Bool, true, false, List, [], ◌∷◌, leb, ◌==◌, if◌then◌else◌,
  arith, Bool-cases, inl, inr, ◌⊎◌,
}
use dingdong.System.Reset.{held_ms, poll_button, boot_button_task, long_press_ms}

-- The button is found pressed from `start` on up to a time that is five seconds later.
abbrev pub Stays : ℕ → List (Bool × ℕ) → Type 0
Stays start [] = ⊥
Stays start ((pressed, now) ∷ polls) =
    (pressed ≡ true) × ((start + 5000000 ≤ now) ⊎ Stays start polls)

-- Somewhere among the polls the button is pressed and stays so for five seconds.
abbrev pub LongPress : List (Bool × ℕ) → Type 0
LongPress [] = ⊥
LongPress ((pressed, now) ∷ polls) = ((pressed ≡ true) × Stays now polls) ⊎ LongPress polls

-- Times above 0 that rise, below 2 ^ 31 milliseconds.
abbrev pub Rising : ℕ → List (Bool × ℕ) → Type 0
Rising last [] = Unit
Rising last ((pressed, now) ∷ polls) =
    (last ≤ now) × (0 < now) × (now < 2147483648000) × Rising now polls

held-long : (start now : ℕ) → leb long_press_ms (held_ms start now) ≡ true → start + 5000000 ≤ now
unfolding held_ms
held-long start now h = ground arith

held-short :
    (start now : ℕ)
    → now < 2147483648000
    → start + 5000000 ≤ now
    → leb long_press_ms (held_ms start now) ≡ true
unfolding held_ms
held-short start now small long = ground arith

Stays-earlier :
    (start start' : ℕ) (polls : List (Bool × ℕ))
    → start' ≤ start
    → Stays start polls
    → Stays start' polls
Stays-earlier start start' [] le stays = stays
Stays-earlier start start' ((pressed, now) ∷ polls) le (on, inl long) = (on, inl (omega arith))
Stays-earlier start start' ((pressed, now) ∷ polls) le (on, inr stays) =
    (on, inr (Stays-earlier start start' polls le stays))

-- A press under way since a time above 0 that lasts, or a long press to come.
abbrev Pressed : ℕ → List (Bool × ℕ) → Type 0
Pressed start polls = ((0 < start) × Stays start polls) ⊎ LongPress polls

-- The start of the press at a poll that finds the button pressed.
abbrev begun : ℕ → ℕ → ℕ
begun start now = if start == 0 then now else start

poll_pressed :
    (start now : ℕ) (polls : List (Bool × ℕ))
    → boot_button_task ((true, now) ∷ polls) start ≡ (
        if leb long_press_ms (held_ms (begun start now) now)
        then true
        else boot_button_task polls (begun start now))
unfolding boot_button_task poll_button
poll_pressed start now polls = refl

poll_released :
    (start now : ℕ) (polls : List (Bool × ℕ))
    → boot_button_task ((false, now) ∷ polls) start ≡ boot_button_task polls 0
unfolding boot_button_task poll_button
poll_released start now polls = refl

skip_reset :
    (first now : ℕ) (polls : List (Bool × ℕ))
    → leb long_press_ms (held_ms first now) ≡ false
    → (if leb long_press_ms (held_ms first now) then true else boot_button_task polls first) ≡ true
    → boot_button_task polls first ≡ true
skip_reset first now polls not_yet = rw not_yet (λ h. h)

held_enough :
    (start now : ℕ) (polls : List (Bool × ℕ))
    → begun start now + 5000000 ≤ now
    → Pressed start ((true, now) ∷ polls)
held_enough start now polls long = elim (Bool-cases (start == 0)) [
  | inl fresh ↦ absurd (ground (arith, fresh, long))
  | inr held ↦ inl (ground (arith, held), (refl, inl (ground (arith, held, long))))
]

going_on :
    (start now : ℕ) (polls : List (Bool × ℕ))
    → 0 < begun start now
    → Stays (begun start now) polls
    → Pressed start ((true, now) ∷ polls)
going_on start now polls = elim (Bool-cases (start == 0)) [
  | inl fresh ↦ rw fresh (λ pos stays. inr (inl (refl, stays)))
  | inr held ↦ rw held (λ pos stays. inl (pos, (refl, inr stays)))
]

task-Pressed :
    (polls : List (Bool × ℕ)) (start : ℕ)
    → boot_button_task polls start ≡ true
    → Pressed start polls
unfolding boot_button_task
task-Pressed [] start h = absurd cc
task-Pressed ((false, now) ∷ polls) start h =
    elim (task-Pressed polls 0 (sym (poll_released start now polls) ∙ h)) [
      | inl (pos, _) ↦ absurd (omega arith)
      | inr long ↦ inr (inr long)
    ]
task-Pressed ((true, now) ∷ polls) start h =
    let first = begun start now in
    let stepped = sym (poll_pressed start now polls) ∙ h in
    elim (Bool-cases (leb long_press_ms (held_ms first now))) [
      | inl resets ↦ held_enough start now polls (held-long first now resets)
      | inr not_yet ↦ elim (task-Pressed polls first (skip_reset first now polls not_yet stepped)) [
        | inl (pos, stays) ↦ going_on start now polls pos stays
        | inr long ↦ inr (inr long)
      ]
    ]

Pressed-after :
    (start now : ℕ) (polls : List (Bool × ℕ))
    → start ≤ now
    → 0 < now
    → now < 2147483648000
    → leb long_press_ms (held_ms (begun start now) now) ≡ false
    → Pressed start ((true, now) ∷ polls)
    → Pressed (begun start now) polls
Pressed-after start now polls le pos small not_yet (inl (since, (on, inl long))) =
    let same : begun start now ≡ start = ground arith in
    let resets : leb long_press_ms (held_ms (begun start now) now) ≡ true =
      rw same (held-short start now small long) in
    absurd cc
Pressed-after start now polls le pos small not_yet (inl (since, (on, inr stays))) =
    let same : begun start now ≡ start = ground arith in rw same (inl (since, stays))
Pressed-after start now polls le pos small not_yet (inr (inl (on, stays))) =
    inl (ground arith, Stays-earlier now (begun start now) polls (ground arith) stays)
Pressed-after start now polls le pos small not_yet (inr (inr long)) = inr long

Pressed-task :
    (polls : List (Bool × ℕ)) (start last : ℕ)
    → Rising last polls
    → start ≤ last
    → Pressed start polls
    → boot_button_task polls start ≡ true
unfolding boot_button_task
Pressed-task [] start last rising le (inl (pos, stays)) = absurd stays
Pressed-task [] start last rising le (inr long) = absurd long
Pressed-task ((false, now) ∷ polls) start last rising le (inl (pos, (on, _))) = absurd cc
Pressed-task ((false, now) ∷ polls) start last rising le (inr (inl (on, _))) = absurd cc
Pressed-task ((false, now) ∷ polls) start last rising le (inr (inr long)) =
    poll_released start now polls ∙ Pressed-task polls 0 now (rising.3) (omega arith) (inr long)
Pressed-task ((true, now) ∷ polls) start last rising le pressed =
    let first = begun start now in
    elim (Bool-cases (leb long_press_ms (held_ms first now))) [
      | inl resets ↦ poll_pressed start now polls ∙ rw resets refl
      | inr not_yet ↦
          poll_pressed start now polls
          ∙ rw not_yet (
              Pressed-task polls first now (rising.3) (ground (arith, rising, le)) (
                Pressed-after start now polls (omega (arith, rising, le)) (rising.1) (rising.2)
                  not_yet pressed))
    ]

-- Polls of the button at rising times above 0, in the first 24 days after the boot: the device is reset just where the button is found
-- pressed for five seconds on end, and no shorter presses, however many, reset it.
pub boot_button_task-LongPress :
    (polls : List (Bool × ℕ))
    → Rising 0 polls
    → (boot_button_task polls 0 ≡ true → LongPress polls)
      × (LongPress polls → boot_button_task polls 0 ≡ true)
boot_button_task-LongPress polls rising = (
  (λ resets. elim (task-Pressed polls 0 resets) [
    | inl (pos, _) ↦ absurd (omega arith)
    | inr long ↦ long
  ]),
  (λ long. Pressed-task polls 0 0 rising (omega arith) (inr long)),
)
