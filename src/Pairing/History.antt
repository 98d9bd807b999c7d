-- ===== src/Pairing/History.antt =====
-- The pairing window of components/ble/dd_ble.c after any history of the handlers that change it, against what
-- the history says of it.
use dingdong.Common.{ℕ, ◌+◌, ◌*◌, ◌≤◌, Bool, false, List, [], ◌∷◌, ltb, if◌then◌else◌, max, min}
use dingdong.Pairing.{
  Window, closed, on_pairing_expire, pairing_start, pairing_cancel, pairing_confirm, passkey_action,
  enc_change,
}

-- A handler that ran, with its time where it reads the clock.
pub data Handled : Type 0 where
  started : ℕ → ℕ → Handled
  cancelled : Handled
  expired : ℕ → Handled
  confirmed : Bool → Bool → Handled
  asked : Bool → ℕ → ℕ → ℕ → Handled
  encrypted : Bool → Handled

-- The window behind a handler, and behind a history with the latest handler first.
abbrev pub step : Handled → Window → Window
unfolding pairing_start pairing_cancel on_pairing_expire pairing_confirm passkey_action enc_change
step (Handled.started now ttl_ms) w = (pairing_start now ttl_ms w).1
step Handled.cancelled w = (pairing_cancel w).1
step (Handled.expired now) w = (on_pairing_expire now w).1
step (Handled.confirmed accept injected) w = (pairing_confirm accept injected w).2
step (Handled.asked numeric now handle numcmp) w = (passkey_action numeric now handle numcmp w).2
step (Handled.encrypted succeeded) w = (enc_change succeeded w).1

abbrev pub window_after : List Handled → Window
window_after [] = closed
window_after (h ∷ hs) = step h (window_after hs)

-- Whether the latest of the starts, the cancels and the pairings that succeeded is a start, and its time to live,
-- from 5 to 120 seconds, is not over.
abbrev pub open_at : ℕ → List Handled → Bool
open_at now [] = false
open_at now (Handled.started t ttl_ms ∷ hs) = ltb now (t + max 5000 (min ttl_ms 120000) * 1000)
open_at now (Handled.cancelled ∷ hs) = false
open_at now (Handled.encrypted succeeded ∷ hs) = if succeeded then false else open_at now hs
open_at now (Handled.expired t ∷ hs) = open_at now hs
open_at now (Handled.confirmed accept injected ∷ hs) = open_at now hs
open_at now (Handled.asked numeric t handle numcmp ∷ hs) = open_at now hs

-- No timer ran later than now.
abbrev pub NotLater : ℕ → Handled → Type 0
NotLater now (Handled.expired t) = t ≤ now
NotLater now _ = Unit {0}
