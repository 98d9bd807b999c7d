-- ===== src/Wifi/Tests.antt =====
-- The station and its timer at concrete times.
use dingdong.Common.{
  ℕ, ◌+◌, ◌*◌, ◌^◌, ◌<◌, replicate, Err, ◌≡◌, refl, true, some, List, [], ◌∷◌, if◌then◌else◌, codes,
  arith, bytes_eq,
}
use dingdong.Nvs.Memory.{Entry, memory, memory-KeepsNumbers, memory-KeepsStrings}
use dingdong.Config.{set_wifi, ns, has_admin, key_admin_salt, key_admin_hash}
use dingdong.Metrics.{boot_loop_inc, boot_loop_count, in_recovery_mode}
use dingdong.Metrics.Counts.{Works}
use dingdong.Wifi.{
  Wifi, WifiState, WifiEvent, wifi_boot, starting, on_wifi_event, sta_giveup_cb, wifi_start,
  soft_ap, station, ap_ssid,
}
use dingdong.Wifi.States.{started, event, IsSound, wifi-IsSound}
use dingdong.Wifi.Recovery.{sta_giveup_cb-recovers, wifi_start-set}
use dingdong.Wifi.Giveup.{drop_all, never_due, never_due-Close}

abbrev second : ℕ
second = 1000000

-- A station that fails at second 1 and gets an address.
abbrev failed : Wifi
failed =
    (on_wifi_event true true second WifiEvent.sta_disconnected
      (starting (station [] []) wifi_boot)).1

wifi-IsSound_example : IsSound (on_wifi_event true true (2 * second) WifiEvent.got_ip failed).1
wifi-IsSound_example =
    wifi-IsSound (on_wifi_event true true (2 * second) WifiEvent.got_ip failed).1 (
      event true true (2 * second) WifiEvent.got_ip failed (omega arith) (
        event true true second WifiEvent.sta_disconnected (starting (station [] []) wifi_boot)
          (omega arith) (started (station [] []))))

memory-Works : Works memory
memory-Works = record { opens = λ mode s. refl; set_num = λ kind key v s. refl; commit = λ s. refl }

-- A station that is down since second 1.
abbrev down_long : Wifi
down_long = record wifi_boot {
  state = WifiState.sta_connecting;
  sta_retry = 3;
  sta_down_since = second;
}

abbrev flash : List Entry
flash = []

none_counted : boot_loop_count memory flash + 1 < 2 ^ 32
unfolding boot_loop_count
none_counted = omega arith

sta_giveup_cb-recovers_example :
    let (restarts, s1) = sta_giveup_cb memory (700 * second) down_long flash in
    let s2 = (boot_loop_inc memory s1).1 in
    (restarts ≡ true)
    × (in_recovery_mode memory s2 ≡ true)
    × (wifi_start memory 0x12 0xab s2 ≡ soft_ap (ap_ssid true 0x12 0xab))
sta_giveup_cb-recovers_example =
    sta_giveup_cb-recovers memory memory-KeepsNumbers memory-Works (700 * second) 0x12 0xab
      down_long flash refl (omega arith) (omega arith) none_counted

recovery_ssid : ap_ssid true 0x12 0xab ≡ codes "dingdong-rec-12AB"
unfolding ap_ssid
recovery_ssid = refl

-- Failures every three seconds, for a minute and more.
abbrev every_three : List ℕ
every_three =
    4 * second
    ∷ 7 * second
    ∷ 10 * second
    ∷ 13 * second
    ∷ 16 * second
    ∷ 19 * second
    ∷ 22 * second
    ∷ []

abbrev first_failure : Wifi
first_failure = record wifi_boot { sta_retry = 1; sta_down_since = second }

never_due-Close_example :
    (never_due true every_three first_failure ≡ true)
    × ((drop_all true every_three first_failure).sta_down_since ≡ second)
never_due-Close_example =
    never_due-Close true second every_three first_failure (omega arith) (omega arith) refl
      (omega arith)

abbrev with_admin : List Entry
with_admin =
    record { ns = ns; key = key_admin_salt; value = replicate 16 1 }
    ∷ record { ns = ns; key = key_admin_hash; value = replicate 32 2 }
    ∷ []

wifi_set : (set_wifi memory (some (codes "home")) (some (codes "secret78")) with_admin).0 ≡ Err.ok
unfolding set_wifi
wifi_set = refl

admin_there :
    has_admin memory (set_wifi memory (some (codes "home")) (some (codes "secret78")) with_admin).1
    ≡ true
unfolding set_wifi has_admin bytes_eq
admin_there = refl

wifi_start-set_example :
    let s' = (set_wifi memory (some (codes "home")) (some (codes "secret78")) with_admin).1 in
    wifi_start memory 0x12 0xab s' ≡ (
      if in_recovery_mode memory s'
      then soft_ap (ap_ssid true 0x12 0xab)
      else station (codes "home") (codes "secret78"))
wifi_start-set_example =
    wifi_start-set memory with_admin (codes "home") (some (codes "secret78")) 0x12 0xab
      memory-KeepsStrings wifi_set refl admin_there
