-- ===== src/Wifi/Recovery.antt =====
-- The end of a station that stays down, in components/wifi_mgr/dd_wifi.c, over the counter of boot loops in
-- components/config/dd_config.c: the next boot opens the access point.
use dingdong.Common.{
  ℕ, zero, suc, ◌+◌, ◌-◌, ◌*◌, ◌/◌, ◌%◌, ◌^◌, ◌≤◌, ◌<◌, ◌≡◌, ◌≢◌, refl, ap, ◌∙◌, Bool, true, false,
  Option, some, List, take-all, get_or, leb, ◌==◌, if◌then◌else◌, arith, Bool-cases, inl, inr, Err,
}
use dingdong.Nvs.{Nvs, KeepsNumbers, KeepsStrings, u8, u32, readonly, readwrite}
use dingdong.Config.{ns, BootMode, boot_mode, set_wifi, has_admin, or_empty}
use dingdong.Config.Wifi.{get_wifi-set}
use dingdong.Metrics.{
  boot_loop_inc, boot_loop_count, in_recovery_mode, set_restart_cause, recovery_threshold,
  key_boot_loop, key_restart_cause, uint32,
}
use dingdong.Metrics.Counts.{Works, boots, boots-from, boot_loop_inc-count}
use dingdong.Wifi.{
  Wifi, has_ip, gives_up, inc_times, sta_giveup_cb, start_sta, wifi_start, ap_ssid, soft_ap,
  station, restart_boot_loop,
}

causes_differ : key_restart_cause ≢ key_boot_loop
causes_differ e = let c = ap (λ (l : List ℕ). get_or l 0 0) e in omega arith

module _ {S : Type 0} (nvs : Nvs S) (keeps : KeepsNumbers nvs) (works : Works nvs) where
  inc_times-boots : (n : ℕ) (s : S) → inc_times nvs n s ≡ boots nvs n s
  unfolding inc_times
  inc_times-boots zero s = refl
  inc_times-boots (suc n) s = inc_times-boots n (boot_loop_inc nvs s).1

  set_restart_cause-count :
      (c : ℕ) (s : S) → boot_loop_count nvs (set_restart_cause nvs c s) ≡ boot_loop_count nvs s
  unfolding set_restart_cause boot_loop_count
  set_restart_cause-count c s =
      let s1 = (nvs.set_num u8 ns key_restart_cause (c % 2 ^ 8) s).1 in
      let s2 = (nvs.commit ns s1).1 in
      let same =
        keeps.get_num-commit u32 ns key_boot_loop s1
        ∙ keeps.get_num-set_num_ne u32 u8 ns key_boot_loop key_restart_cause (c % 2 ^ 8) s
            causes_differ in
      rw (works.opens readwrite s, works.opens readonly s, works.opens readonly s2, same) refl

  sta_giveup_cb-restarts :
      (now : ℕ) (w : Wifi) (s : S)
      → has_ip w.state ≡ false
      → 0 < w.sta_down_since
      → w.sta_down_since + 10 * 60 * 1000000 ≤ now
      → sta_giveup_cb nvs now w s ≡ (
        true,
        set_restart_cause nvs restart_boot_loop
            (inc_times nvs (recovery_threshold - boot_loop_count nvs s) s),
      )
  unfolding sta_giveup_cb gives_up
  sta_giveup_cb-restarts now w s no_ip down long =
      let is_down : (w.sta_down_since == 0) ≡ false = ground arith in
      let late : leb (10 * 60 * 1000) ((now - w.sta_down_since) / 1000) ≡ true = ground arith in
      rw (no_ip, is_down, late) refl

  raised-count :
      (s : S)
      → boot_loop_count nvs s + 1 < uint32
      → let s0 = inc_times nvs (recovery_threshold - boot_loop_count nvs s) s in
        let s1 = set_restart_cause nvs restart_boot_loop s0 in
        in_recovery_mode nvs (boot_loop_inc nvs s1).1 ≡ true
  unfolding in_recovery_mode
  raised-count s low =
      let times = recovery_threshold - boot_loop_count nvs s in
      let s0 = inc_times nvs times s in
      let s1 = set_restart_cause nvs restart_boot_loop s0 in
      let raised = boots-from nvs keeps works times s (omega arith) in
      let same = set_restart_cause-count restart_boot_loop s0 in
      let total = ap (boot_loop_count nvs) (inc_times-boots times s) in
      let (n, next) = boot_loop_inc-count nvs keeps works s1 in
      ground (arith, n, next, same, total, raised)

  in_recovery_mode-soft_ap :
      (m4 m5 : ℕ) (s : S)
      → in_recovery_mode nvs s ≡ true
      → wifi_start nvs m4 m5 s ≡ soft_ap (ap_ssid true m4 m5)
  unfolding wifi_start
  in_recovery_mode-soft_ap m4 m5 s recovers = rw recovers refl

  -- A station that has been down for ten minutes when the timer fires: the device restarts, and after the count of
  -- that boot it is in recovery mode and opens the access point for it, whatever credentials are stored. Fewer than 2 ^ 32 - 1
  -- boots are counted before, and the store of settings works.
  pub sta_giveup_cb-recovers :
      (now m4 m5 : ℕ) (w : Wifi) (s : S)
      → has_ip w.state ≡ false
      → 0 < w.sta_down_since
      → w.sta_down_since + 10 * 60 * 1000000 ≤ now
      → boot_loop_count nvs s + 1 < uint32
      → let (restarts, s1) = sta_giveup_cb nvs now w s in
        let s2 = (boot_loop_inc nvs s1).1 in
        (restarts ≡ true)
        × (in_recovery_mode nvs s2 ≡ true)
        × (wifi_start nvs m4 m5 s2 ≡ soft_ap (ap_ssid true m4 m5))
  sta_giveup_cb-recovers now m4 m5 w s no_ip down long low =
      let recovers = raised-count s low in
      rw (sta_giveup_cb-restarts now w s no_ip down long)
        (refl, recovers, in_recovery_mode-soft_ap m4 m5 _ recovers)

normal-or_not :
    (mode : BootMode) (admin : Bool)
    → mode ≡ (if admin then BootMode.normal else BootMode.first_run)
    → admin ≡ true
    → mode ≡ BootMode.normal
normal-or_not mode true e h = e
normal-or_not mode false e h = absurd cc

-- Credentials that were set with success, in a store that keeps strings and opens afterwards, while there is an admin password: they are those that
-- the station is started with at boot, unless the boots that were counted put the device into recovery mode, which opens the access point all the same.
pub wifi_start-set :
    {S : Type 0} (nvs : Nvs S) (s : S) (ssid : List ℕ) (password : Option (List ℕ)) (m4 m5 : ℕ)
    → KeepsStrings nvs
    → (set_wifi nvs (some ssid) password s).0 ≡ Err.ok
    → let s' = (set_wifi nvs (some ssid) password s).1 in
      nvs.opens readonly ns s' ≡ Err.ok
      → has_admin nvs s' ≡ true
      → wifi_start nvs m4 m5 s' ≡ (
          if in_recovery_mode nvs s'
          then soft_ap (ap_ssid true m4 m5)
          else station ssid (or_empty password))
unfolding wifi_start start_sta
wifi_start-set nvs s ssid password m4 m5 keeps ok opened admin =
    let s' = (set_wifi nvs (some ssid) password s).1 in
    let (fits, read, mode) = get_wifi-set nvs s ssid password keeps ok opened in
    let normal = normal-or_not (boot_mode nvs s') (has_admin nvs s') mode admin in
    elim (Bool-cases (in_recovery_mode nvs s')) [
      | inl recovery ↦ rw recovery refl
      | inr regular ↦
          rw
            (
              regular,
              normal,
              read,
              take-all 31 ssid (omega (arith, fits)),
              take-all 63 (or_empty password) (omega (arith, fits)),
            )
            refl
    ]
