-- ===== src/Wifi/States.antt =====
-- The states of the station in components/wifi_mgr/dd_wifi.c over any sequence of events.
use dingdong.Common.{
  ℕ, ◌+◌, ◌≤◌, ◌<◌, ◌≡◌, ◌≢◌, refl, Bool, true, false, ◌||◌, none, some, ltb, ◌==◌, if◌then◌else◌,
  arith, Bool-cases, inl, inr,
}
use dingdong.Wifi.{
  Wifi, WifiState, Started, soft_ap, station, not_started, starting, WifiEvent, has_ip, wifi_boot,
  disconnected, on_wifi_event, gives_up, giveup_period, sta_retry_max,
}

-- A state of the running station: at boot, after dd_wifi_start, after an event, and after the timer has fired
-- and has not given up.
pub data Runs : Wifi → Type 0 where
  at_boot : Runs wifi_boot
  started : (s : Started) → Runs (starting s wifi_boot)
  event :
      (made mdns : Bool) (now : ℕ) (ev : WifiEvent) (w : Wifi)
      → 0 < now
      → Runs w
      → Runs (on_wifi_event made mdns now ev w).1
  fired :
      (now due : ℕ) (w : Wifi)
      → w.alarm ≡ some due
      → due ≤ now
      → gives_up now w ≡ false
      → Runs w
      → Runs (record w { alarm = some (due + giveup_period) })

-- What holds of a state that can be reached.
pub record IsSound (w : Wifi) : Type 0 where
  pub retry_max : w.sta_retry ≤ sta_retry_max
  pub with_ip :
      has_ip w.state ≡ true → (w.sta_retry ≡ 0) × (w.sta_down_since ≡ 0) × (w.alarm ≡ none)
  pub retrying : 0 < w.sta_retry → 0 < w.sta_down_since
  pub alarm_down : w.alarm ≢ none → (0 < w.sta_down_since) × (w.has_timer ≡ true)

since_positive : (now since : ℕ) → 0 < now → 0 < (if since == 0 then now else since)
since_positive now since pos = ground arith

there_if_armed : (there : Bool) (due : ℕ) → (if there then some due else none) ≢ none → there ≡ true
there_if_armed true due armed = refl
there_if_armed false due armed = absurd (armed refl)

disconnected-IsSound :
    (made : Bool) (now : ℕ) (w : Wifi) → 0 < now → IsSound w → IsSound (disconnected made now w)
unfolding disconnected
disconnected-IsSound made now w pos sound =
    let since = since_positive now w.sta_down_since pos in
    elim (Bool-cases (ltb w.sta_retry sta_retry_max)) [
      | inl more ↦ rw more (record {
        retry_max = ground (arith, more);
        with_ip = λ h. absurd cc;
        retrying = λ h. since;
        alarm_down = λ h. (since, (sound.alarm_down h).1);
      })
      | inr slow ↦ rw slow (record {
        retry_max = omega arith;
        with_ip = λ h. absurd cc;
        retrying = λ h. since;
        alarm_down = λ h. (since, there_if_armed (w.has_timer || made) (now + giveup_period) h);
      })
    ]

event-IsSound :
    (made mdns : Bool) (now : ℕ) (ev : WifiEvent) (w : Wifi)
    → 0 < now
    → IsSound w
    → IsSound (on_wifi_event made mdns now ev w).1
unfolding on_wifi_event
event-IsSound made mdns now WifiEvent.sta_start w pos sound = sound
event-IsSound made mdns now WifiEvent.sta_disconnected w pos sound =
    disconnected-IsSound made now w pos sound
event-IsSound made mdns now WifiEvent.ap_start w pos sound = record {
  retry_max = sound.retry_max;
  with_ip = λ h. absurd cc;
  retrying = sound.retrying;
  alarm_down = sound.alarm_down;
}
event-IsSound made mdns now WifiEvent.got_ip w pos sound = record {
  retry_max = omega arith;
  with_ip = λ h. (refl, refl, refl);
  retrying = λ h. absurd (omega arith);
  alarm_down = λ h. absurd (h refl);
}
event-IsSound made mdns now WifiEvent.logged w pos sound = sound

boot-IsSound :
    (state : WifiState) → has_ip state ≡ false → IsSound (record wifi_boot { state = state })
boot-IsSound state no_ip = record {
  retry_max = omega arith;
  with_ip = λ h. absurd cc;
  retrying = λ h. absurd (omega arith);
  alarm_down = λ h. absurd (h refl);
}

-- However the events come, the station counts at most five retries, and none while it has an address; then it
-- counts as not down and the timer that gives up is not set. While it counts retries or the timer is set it has a time since which it is
-- down, and a timer that is set exists.
pub wifi-IsSound : (w : Wifi) → Runs w → IsSound w
unfolding starting
wifi-IsSound w at_boot = boot-IsSound WifiState.down refl
wifi-IsSound w (started (station ssid password)) = boot-IsSound WifiState.sta_connecting refl
wifi-IsSound w (started (soft_ap ssid)) = boot-IsSound WifiState.down refl
wifi-IsSound w (started (not_started err)) = boot-IsSound WifiState.down refl
wifi-IsSound w (event made mdns now ev v pos runs) =
    event-IsSound made mdns now ev v pos (wifi-IsSound v runs)
wifi-IsSound w (fired now due v armed late stays runs) =
    let sound = wifi-IsSound v runs in
    let set : v.alarm ≢ none = λ h. cc in
    record {
      retry_max = sound.retry_max;
      with_ip = λ h. absurd (set (sound.with_ip h).2);
      retrying = sound.retrying;
      alarm_down = λ h. sound.alarm_down set;
    }
