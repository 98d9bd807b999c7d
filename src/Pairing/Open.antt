-- ===== src/Pairing/Open.antt =====
-- How the pairing window of components/ble/dd_ble.c opens and closes.
use dingdong.Common.{
  ℕ, ◌+◌, ◌≤◌, ◌≡◌, refl, true, false, Option, none, some, List, [], ◌∷◌, ltb, ◌≢◌, arith, ◌*◌,
}
use dingdong.Presence.{no_handle}
use dingdong.Pairing.{
  Window, Call, inject, pairing_active, clear_numcmp_pending, on_pairing_expire, clamped_ttl,
  pairing_start, pairing_cancel, pairing_numcmp, pairing_remaining_ms, enc_change,
}

-- A start opens the window for between 5 and 120 seconds and clears a comparison that waited: at each
-- time it is open just before its end, and the remaining time is then at most its length, and 0 once it is closed.
pairing_start-active :
    (now ttl_ms later : ℕ) (w : Window)
    → let (calls, w') = pairing_start now ttl_ms w in
      let length_ms = clamped_ttl ttl_ms in
      (5000 ≤ length_ms)
      × (length_ms ≤ 120000)
      × (pairing_active later w' ≡ ltb later (now + length_ms * 1000))
      × (now ≤ later → pairing_remaining_ms later w' ≤ length_ms)
      × (pairing_active later w' ≡ false → pairing_remaining_ms later w' ≡ 0)
      × (pairing_numcmp w' ≡ 0)
unfolding pairing_start pairing_active clear_numcmp_pending pairing_remaining_ms pairing_numcmp
pairing_start-active now ttl_ms later w =
    (ground arith, ground arith, refl, λ le. ground arith, λ shut. ground arith, refl)

-- The first call of a handler.
abbrev pub first_call : List Call → Option Call
first_call [] = none
first_call (c ∷ cs) = some c

-- The window is closed at a time, no comparison waits, and one that waited before was rejected first.
abbrev pub Shut : List Call × Window → Window → ℕ → Type 0
Shut (calls, w') w later =
    (pairing_active later w' ≡ false)
    × (pairing_numcmp w' ≡ 0)
    × (w'.handle ≡ no_handle)
    × (w.handle ≢ no_handle → first_call calls ≡ some (inject w.handle false))

-- However it ends, by a cancel, by the end of a pairing or by the timer once its time has come, the
-- window is closed at every time and no comparison waits; a comparison that waited is rejected before
-- anything else.
pub closing-Shut :
    (now later : ℕ) (w : Window)
    → Shut (pairing_cancel w) w later
      × Shut (enc_change true w) w later
      × (w.until ≢ 0 → w.until ≤ now → Shut (on_pairing_expire now w) w later)
unfolding pairing_cancel enc_change on_pairing_expire pairing_active clear_numcmp_pending
    pairing_numcmp
closing-Shut now later w = (
  (ground arith, refl, refl, λ ne. ground arith),
  (ground arith, refl, refl, λ ne. ground arith),
  λ opened over. (ground arith, ground arith, ground arith, λ ne. ground arith),
)
