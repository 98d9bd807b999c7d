-- ===== src/Wifi.antt =====
-- components/wifi_mgr/dd_wifi.c: the state machine of the WiFi station, the choice of the mode at boot and
-- the timer that gives up. The driver, mDNS and esp_timer are outside the model: their events and results are arguments, and the
-- calls that a handler makes of them come out as a list.
pub mod States
pub mod Recovery
pub mod Giveup
mod Tests
use dingdong.Common.{
  ℕ, zero, suc, ◌+◌, ◌-◌, ◌*◌, ◌/◌, ◌%◌, ◌^◌, Bool, true, false, not, ◌&&◌, ◌||◌, Option, none,
  some, List, [], ◌∷◌, ◌++◌, length, take, ltb, leb, ◌==◌, if◌then◌else◌, Err, is_ok, codes,
}
use dingdong.Nvs.{Nvs}
use dingdong.Config.{BootMode, boot_mode, get_wifi, wifi_ssid_max, wifi_pass_max}
use dingdong.Metrics.{
  LastCause, boot_loop_inc, boot_loop_count, in_recovery_mode, set_restart_cause,
  recovery_threshold,
}

-- STA_RETRY_MAX, STA_GIVE_UP_MS, DD_RESTART_BOOT_LOOP, and the period of the timer in microseconds
abbrev pub sta_retry_max : ℕ
sta_retry_max = 5

abbrev pub sta_give_up_ms : ℕ
sta_give_up_ms = 10 * 60 * 1000

abbrev pub restart_boot_loop : ℕ
restart_boot_loop = 6

abbrev pub giveup_period : ℕ
giveup_period = 60 * 1000 * 1000

-- dd_wifi_state_t
pub data WifiState : Type 0 where
  down ap sta_connecting sta_got_ip : WifiState

-- dd_wifi_state_str
unfoldable pub wifi_state_str : WifiState → List ℕ
wifi_state_str WifiState.down = codes "DOWN"
wifi_state_str WifiState.ap = codes "AP"
wifi_state_str WifiState.sta_connecting = codes "STA_CONNECTING"
wifi_state_str WifiState.sta_got_ip = codes "STA_GOT_IP"

abbrev pub has_ip : WifiState → Bool
has_ip WifiState.sta_got_ip = true
has_ip s = false

-- The events of on_wifi_event; `logged` is one that it only logs or ignores.
pub data WifiEvent : Type 0 where
  sta_start sta_disconnected ap_start got_ip logged : WifiEvent

-- s_state, s_sta_retry, s_sta_down_since_us, whether s_sta_giveup_timer is there, when it is due next, and s_mdns_started
pub record Wifi : Type 0 where
  pub state : WifiState
  pub sta_retry : ℕ
  pub sta_down_since : ℕ
  pub has_timer : Bool
  pub alarm : Option ℕ
  pub mdns_started : Bool

-- The statics at boot.
abbrev pub wifi_boot : Wifi
wifi_boot = record {
  state = WifiState.down;
  sta_retry = 0;
  sta_down_since = 0;
  has_timer = false;
  alarm = none;
  mdns_started = false;
}

-- esp_wifi_connect and dd_captive_start
pub data Call : Type 0 where
  connect start_captive : Call

-- The case WIFI_EVENT_STA_DISCONNECTED at the time `now`; `made` is whether esp_timer_create would succeed
unfoldable pub disconnected : Bool → ℕ → Wifi → Wifi
disconnected made now w =
    let since = if w.sta_down_since == 0 then now else w.sta_down_since in
    let there = w.has_timer || made in
    if ltb w.sta_retry sta_retry_max
    then record w {
      sta_down_since = since;
      sta_retry = w.sta_retry + 1;
      state = WifiState.sta_connecting;
    }
    else record w {
      sta_down_since = since;
      state = WifiState.down;
      sta_retry = 0;
      has_timer = there;
      alarm = if there then some (now + giveup_period) else none;
    }

-- on_wifi_event; `mdns` is whether mdns_init would succeed
unfoldable pub on_wifi_event : Bool → Bool → ℕ → WifiEvent → Wifi → List Call × Wifi
unfolding disconnected
on_wifi_event made mdns now WifiEvent.sta_start w = (Call.connect ∷ [], w)
on_wifi_event made mdns now WifiEvent.sta_disconnected w =
    (Call.connect ∷ [], disconnected made now w)
on_wifi_event made mdns now WifiEvent.ap_start w =
    (Call.start_captive ∷ [], record w { state = WifiState.ap })
on_wifi_event made mdns now WifiEvent.got_ip w = (
  [],
  record w {
    sta_retry = 0;
    sta_down_since = 0;
    alarm = none;
    state = WifiState.sta_got_ip;
    mdns_started = w.mdns_started || mdns;
  },
)
on_wifi_event made mdns now WifiEvent.logged w = ([], w)

-- The test of sta_giveup_cb.
unfoldable pub gives_up : ℕ → Wifi → Bool
gives_up now w =
    if has_ip w.state
    then false
    else if w.sta_down_since == 0
    then false
    else leb sta_give_up_ms ((now - w.sta_down_since) / 1000)

-- The SSID of the access point: "%s%02X%02X" of the prefix and the last two bytes of the MAC
abbrev pub upper_digit : ℕ → ℕ
upper_digit d = if ltb d 10 then b'0' + d else b'A' + (d - 10)

unfoldable pub ap_ssid : Bool → ℕ → ℕ → List ℕ
ap_ssid recovery m4 m5 =
    (if recovery then codes "dingdong-rec-" else codes "dingdong-setup-")
    ++ (upper_digit (m4 / 16 % 16)
        ∷ upper_digit (m4 % 16)
        ∷ upper_digit (m5 / 16 % 16)
        ∷ upper_digit (m5 % 16)
        ∷ [])

-- What dd_wifi_start sets going: the access point with its SSID, the station with an SSID and a password, or
-- nothing, with the error that it returns.
pub data Started : Type 0 where
  soft_ap : (ssid : List ℕ) → Started
  station : (ssid password : List ℕ) → Started
  not_started : (err : Err) → Started

-- What dd_wifi_start does to the statics: start_sta sets the state.
unfoldable pub starting : Started → Wifi → Wifi
starting (station ssid password) w = record w { state = WifiState.sta_connecting }
starting (soft_ap ssid) w = w
starting (not_started err) w = w

module _ {S : Type 0} (nvs : Nvs S) where
  -- The loop of sta_giveup_cb, so many times.
  unfoldable pub inc_times : ℕ → S → S
  unfolding boot_loop_inc
  inc_times zero s = s
  inc_times (suc n) s = inc_times n (boot_loop_inc nvs s).1

  -- sta_giveup_cb; the first part is whether it calls esp_restart
  unfoldable pub sta_giveup_cb : ℕ → Wifi → S → Bool × S
  unfolding gives_up inc_times boot_loop_count set_restart_cause
  sta_giveup_cb now w s =
      if gives_up now w
      then (
        true,
        set_restart_cause nvs restart_boot_loop
            (inc_times (recovery_threshold - boot_loop_count nvs s) s),
      )
      else (false, s)

  -- start_sta; the SSID and the password are cut to the fields of wifi_config_t, of 32 and 64 bytes
  unfoldable pub start_sta : S → Started
  unfolding get_wifi
  start_sta s =
      let (err, ssid, pass) = get_wifi nvs wifi_ssid_max wifi_pass_max s in
      if not (is_ok err) then not_started err else station (take 31 ssid) (take 63 pass)

  -- dd_wifi_start
  unfoldable pub wifi_start : ℕ → ℕ → S → Started
  unfolding in_recovery_mode boot_mode start_sta ap_ssid
  wifi_start m4 m5 s =
      if in_recovery_mode nvs s then soft_ap (ap_ssid true m4 m5) else elim (boot_mode nvs s) [
        | BootMode.normal ↦ start_sta s
        | BootMode.no_wifi ↦ soft_ap (ap_ssid false m4 m5)
        | BootMode.first_run ↦ soft_ap (ap_ssid false m4 m5)
      ]
