-- ===== src/Pairing.antt =====
-- The pairing window of components/ble/dd_ble.c: when it is open, the numeric comparison, and what the
-- GAP handler does with security events. Times are microseconds of the monotonic clock. The restarts of
-- advertising and the timer that calls the expiry are effects.
pub mod Open
pub mod History
mod Tests
use dingdong.Common.{
  ℕ, ◌+◌, ◌-◌, ◌*◌, ◌/◌, Bool, true, false, not, ◌&&◌, List, [], ◌∷◌, ◌++◌, ltb, leb, ◌==◌,
  if◌then◌else◌, Err,
}
use dingdong.Presence.{no_handle}

-- s_pairing_until_us, s_pairing_numcmp, s_pairing_numcmp_handle
pub record Window : Type 0 where
  pub until : ℕ
  pub numcmp : ℕ
  pub handle : ℕ

-- The state after start-up.
abbrev pub closed : Window
closed = record { until = 0; numcmp = 0; handle = no_handle }

-- What a handler calls: ble_sm_inject_io with its answer, a restart of advertising at once or after a delay,
-- and the expiry timer, set or stopped.
pub data Call : Type 0 where
  inject : ℕ → Bool → Call
  restart_adv : Call
  schedule_adv : ℕ → Call
  set_timer : ℕ → Call
  stop_timer : Call

-- dd_ble_pairing_active
unfoldable pub pairing_active : ℕ → Window → Bool
pairing_active now w = ltb now w.until

-- clear_numcmp_pending
unfoldable pub clear_numcmp_pending : Bool → Window → List Call × Window
clear_numcmp_pending reject w = (
  if not (w.handle == no_handle) && reject then inject w.handle false ∷ [] else [],
  record w { numcmp = 0; handle = no_handle },
)

-- on_pairing_expire
unfoldable pub on_pairing_expire : ℕ → Window → List Call × Window
unfolding clear_numcmp_pending
on_pairing_expire now w =
    let (calls, w') = clear_numcmp_pending true (record w { until = 0 }) in
    if not (w.until == 0) && leb w.until now then (calls ++ (restart_adv ∷ []), w') else ([], w)

abbrev pub clamped_ttl : ℕ → ℕ
clamped_ttl ttl_ms = if ltb ttl_ms 5000 then 5000 else if ltb 120000 ttl_ms then 120000 else ttl_ms

-- dd_ble_pairing_start; a negative time to live is below the minimum, and 0 stands for it. It returns
-- ESP_OK.
unfoldable pub pairing_start : ℕ → ℕ → Window → List Call × Window
unfolding clear_numcmp_pending
pairing_start now ttl_ms w =
    let (calls, w') =
      clear_numcmp_pending false (record w { until = now + clamped_ttl ttl_ms * 1000 }) in
    (calls ++ (stop_timer ∷ set_timer (clamped_ttl ttl_ms * 1000) ∷ restart_adv ∷ []), w')

-- dd_ble_pairing_cancel; stopping a timer that was never made is left out, and does nothing
unfoldable pub pairing_cancel : Window → List Call × Window
unfolding clear_numcmp_pending
pairing_cancel w =
    let (calls, w') = clear_numcmp_pending true (record w { until = 0 }) in
    let stopped = calls ++ (stop_timer ∷ []) in
    (if w.until == 0 then stopped else stopped ++ (schedule_adv 50 ∷ []), w')

-- dd_ble_pairing_numcmp
unfoldable pub pairing_numcmp : Window → ℕ
pairing_numcmp w = w.numcmp

-- dd_ble_pairing_confirm; `injected` is whether ble_sm_inject_io gives 0
unfoldable pub pairing_confirm : Bool → Bool → Window → Err × List Call × Window
pairing_confirm accept injected w = if w.handle == no_handle then (Err.invalid_state, [], w) else (
  if injected then Err.ok else Err.fail,
  inject w.handle accept ∷ [],
  record w { numcmp = 0; handle = no_handle },
)

-- dd_ble_pairing_remaining_ms
unfoldable pub pairing_remaining_ms : ℕ → Window → ℕ
pairing_remaining_ms now w = if leb w.until now then 0 else (w.until - now) / 1000

-- BLE_GAP_EVENT_PASSKEY_ACTION of gap_event_cb: whether the event is denied with BLE_HS_EREJECT, the
-- calls and the window. `numeric` is an action of BLE_SM_IOACT_NUMCMP.
unfoldable pub passkey_action : Bool → ℕ → ℕ → ℕ → Window → Bool × List Call × Window
unfolding pairing_active
passkey_action numeric now handle numcmp w =
    if not numeric
    then (true, [], w)
    else if not (pairing_active now w)
    then (false, inject handle false ∷ [], w)
    else (false, inject handle true ∷ [], record w { numcmp = numcmp; handle = handle })

-- BLE_GAP_EVENT_ENC_CHANGE of gap_event_cb, as far as the window goes: `succeeded` is status == 0.
unfoldable pub enc_change : Bool → Window → List Call × Window
unfolding pairing_cancel
enc_change succeeded w =
    let (calls, w') = pairing_cancel w in
    if succeeded then (calls ++ (schedule_adv 100 ∷ []), w') else ([], w)

-- BLE_GAP_EVENT_REPEAT_PAIRING of gap_event_cb: whether the stale bond is deleted, and whether the
-- answer is RETRY and not IGNORE. `found` is whether NimBLE finds the connection.
unfoldable pub repeat_pairing : Bool → ℕ → Window → Bool × Bool
unfolding pairing_active
repeat_pairing found now w = (found, if pairing_active now w then true else false)

-- should_be_strict, from the number of bonds
unfoldable pub should_be_strict : ℕ → ℕ → Window → Bool
unfolding pairing_active
should_be_strict bonds now w = if pairing_active now w then false else ltb 0 bonds
