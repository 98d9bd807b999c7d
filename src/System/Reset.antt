-- ===== src/System/Reset.antt =====
-- The factory reset of components/http_app/dd_http_system.c, and the BOOT button of main/main.c that does the
-- same when it is held for five seconds.
pub mod Erased
pub mod Button
mod Tests
use dingdong.Common.{
  ℕ, ◌+◌, ◌-◌, ◌/◌, ◌%◌, ◌^◌, Bool, true, false, not, ◌&&◌, ◌||◌, Option, none, some, List, [], ◌∷◌,
  length, ltb, leb, ◌==◌, if◌then◌else◌, Err, is_ok, codes, bytes_eq,
}
use dingdong.Nvs.{Nvs}
use dingdong.Config.Erase.{factory_reset}
use dingdong.Metrics.{set_restart_cause}
use dingdong.Storage.{Store, Unlink, event_wipe}
use dingdong.Http.{Reply, reply_text, is_authed}
use dingdong.System.{Site}

-- DD_RESTART_FACTORY, LONG_PRESS_MS
abbrev pub restart_factory : ℕ
restart_factory = 3

abbrev pub long_press_ms : ℕ
long_press_ms = 5000

-- The press so far in milliseconds, as an int: one of 2 ^ 31 or more is negative, and counts as 0.
unfoldable pub held_ms : ℕ → ℕ → ℕ
held_ms start now = let ms = (now - start) / 1000 % 2 ^ 32 in if ltb ms (2 ^ 31) then ms else 0

-- A round of the loop of boot_button_task, with one reading of the clock: whether it resets, and press_start_us.
unfoldable pub poll_button : Bool → ℕ → ℕ → Bool × ℕ
unfolding held_ms
poll_button pressed now start =
    let begun = if start == 0 then now else start in
    if pressed then (leb long_press_ms (held_ms begun now), begun) else (false, 0)

-- boot_button_task at these levels and times, up to the reset
unfoldable pub boot_button_task : List (Bool × ℕ) → ℕ → Bool
unfolding poll_button
boot_button_task [] start = false
boot_button_task ((pressed, now) ∷ polls) start =
    let (resets, begun) = poll_button pressed now start in
    let later = boot_button_task polls begun in if resets then true else later

module _ {S : Type 0} (nvs : Nvs S) where
  -- dd_config_factory_reset, dd_storage_event_wipe and dd_metrics_set_restart_cause, whose results are not looked at
  unfoldable pub reset_device : Unlink → Site S → Site S
  unfolding factory_reset event_wipe set_restart_cause
  reset_device unlink site = record site {
    flash = set_restart_cause nvs restart_factory (factory_reset nvs site.flash).1;
    store = (event_wipe unlink site.store).1;
  }

  -- factory_reset_post: in the parsed body `confirm`, if it is a string. The last part is whether a restart is scheduled.
  unfoldable pub factory_reset_post :
      Option (List ℕ) → Option (Option (List ℕ)) → ℕ → Unlink → Site S → Reply × Bool × Site S
  unfolding is_authed reset_device bytes_eq
  factory_reset_post header body now unlink site =
      if not (is_authed header site.sessions now)
      then (reply_text 401 (codes "auth required"), false, site)
      else elim body [
        | none ↦ (reply_text 400 (codes "bad json"), false, site)
        | some none ↦
            (reply_text 400 (codes "must POST {\"confirm\":\"FACTORY_RESET\"}"), false, site)
        | some (some word) ↦
            if not (bytes_eq word (codes "FACTORY_RESET"))
            then (reply_text 400 (codes "must POST {\"confirm\":\"FACTORY_RESET\"}"), false, site)
            else (
              reply_text 200 (codes "factory reset, restarting"),
              true,
              reset_device unlink site,
            )
      ]
