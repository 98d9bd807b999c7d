-- ===== src/Metrics.antt =====
-- The counters of components/config/dd_config.c: boots, uptime, boot loops and the cause of the last
-- restart. They are kept in the NVS; two statics live in RAM.
pub mod Counts
mod Tests
use dingdong.Common.{
  ℕ, ◌+◌, ◌-◌, ◌%◌, ◌^◌, Bool, true, false, not, ◌&&◌, ◌||◌, Option, none, some, List, [], ◌∷◌, ltb,
  leb, ◌==◌, if◌then◌else◌, Err, is_ok, codes,
}
use dingdong.Config.{ns}
use dingdong.Nvs.{Nvs, Kind, u8, u32, u64, readonly, readwrite}

-- The keys, and DD_BOOT_LOOP_RECOVERY_THRESHOLD
abbrev pub key_boot_count : List ℕ
key_boot_count = codes "boot_count"

abbrev pub key_total_uptime : List ℕ
key_total_uptime = codes "total_up_s"

abbrev pub key_last_uptime : List ℕ
key_last_uptime = codes "last_up_s"

abbrev pub key_restart_cause : List ℕ
key_restart_cause = codes "rst_cause"

abbrev pub key_boot_loop : List ℕ
key_boot_loop = codes "boot_loop"

abbrev pub recovery_threshold : ℕ
recovery_threshold = 3

abbrev pub uint32 : ℕ
uint32 = 2 ^ 32

abbrev pub uint64 : ℕ
uint64 = 2 ^ 64

-- dd_metrics_t
pub record MetricsData : Type 0 where
  pub boot_count : ℕ
  pub total_uptime_s : ℕ
  pub last_uptime_s : ℕ

-- dd_restart_cause_t is its number.
abbrev pub restart_unknown : ℕ
restart_unknown = 0

-- s_last_cause and s_last_cause_init
pub record LastCause : Type 0 where
  pub cause : ℕ
  pub init : Bool

module _ {S : Type 0} (nvs : Nvs S) where
  -- A number read into a variable that was 0.
  abbrev pub number_of : Kind → List ℕ → S → ℕ
  number_of kind key s = let (err, n) = nvs.get_num kind ns key s in if is_ok err then n else 0

  -- dd_metrics_load
  unfoldable pub metrics_load : S → MetricsData
  metrics_load s =
      if not (is_ok (nvs.opens readonly ns s))
      then record { boot_count = 0; total_uptime_s = 0; last_uptime_s = 0 }
      else record {
        boot_count = number_of u32 key_boot_count s;
        total_uptime_s = number_of u64 key_total_uptime s;
        last_uptime_s = number_of u32 key_last_uptime s;
      }

  -- dd_metrics_record_boot
  unfoldable pub record_boot : S → Err × S
  record_boot s =
      let e_open = nvs.opens readwrite ns s in
      let n = (number_of u32 key_boot_count s + 1) % uint32 in
      let (e1, s1) = nvs.set_num u32 ns key_boot_count n s in
      if not (is_ok e_open) then (e_open, s) else if is_ok e1 then nvs.commit ns s1 else (e1, s1)

  -- What the NVS part of dd_metrics_save_uptime does with the delta.
  unfoldable pub add_uptime : ℕ → ℕ → S → Err × S
  add_uptime seconds delta s =
      let total = (number_of u64 key_total_uptime s + delta) % uint64 in
      let (e1, s1) = nvs.set_num u64 ns key_total_uptime total s in
      let (e2, s2) = nvs.set_num u32 ns key_last_uptime seconds s1 in
      if not (is_ok e1) then (e1, s1) else if is_ok e2 then nvs.commit ns s2 else (e2, s2)

  -- dd_metrics_save_uptime; the second part is its static last_saved
  unfoldable pub save_uptime : ℕ → ℕ → S → Err × ℕ × S
  unfolding add_uptime
  save_uptime seconds last_saved s =
      let delta = if ltb last_saved seconds then seconds - last_saved else seconds in
      let e_open = nvs.opens readwrite ns s in
      let (err, s') = add_uptime seconds delta s in
      if not (is_ok e_open) then (e_open, seconds, s) else (err, seconds, s')

  -- dd_metrics_reset
  unfoldable pub metrics_reset : S → Err × S
  metrics_reset s =
      let e_open = nvs.opens readwrite ns s in
      let s1 = nvs.erase_key ns key_boot_count s in
      let s2 = nvs.erase_key ns key_total_uptime s1 in
      let s3 = nvs.erase_key ns key_last_uptime s2 in
      if not (is_ok e_open) then (e_open, s) else nvs.commit ns s3

  -- dd_metrics_boot_loop_inc: the results of set and commit are not looked at
  unfoldable pub boot_loop_inc : S → ℕ × S
  boot_loop_inc s =
      let n = (number_of u32 key_boot_loop s + 1) % uint32 in
      if not (is_ok (nvs.opens readwrite ns s))
      then (0, s)
      else (n, (nvs.commit ns (nvs.set_num u32 ns key_boot_loop n s).1).1)

  -- dd_metrics_boot_loop_count
  unfoldable pub boot_loop_count : S → ℕ
  boot_loop_count s =
      if not (is_ok (nvs.opens readonly ns s)) then 0 else number_of u32 key_boot_loop s

  -- dd_metrics_boot_loop_clear
  unfoldable pub boot_loop_clear : S → S
  boot_loop_clear s =
      if not (is_ok (nvs.opens readwrite ns s)) || (number_of u32 key_boot_loop s == 0)
      then s
      else (nvs.commit ns (nvs.erase_key ns key_boot_loop s)).1

  -- dd_metrics_in_recovery_mode
  unfoldable pub in_recovery_mode : S → Bool
  unfolding boot_loop_count
  in_recovery_mode s = leb recovery_threshold (boot_loop_count s)

  -- dd_metrics_set_restart_cause; the cause is cast to a uint8_t
  unfoldable pub set_restart_cause : ℕ → S → S
  set_restart_cause c s =
      if not (is_ok (nvs.opens readwrite ns s))
      then s
      else (nvs.commit ns (nvs.set_num u8 ns key_restart_cause (c % 2 ^ 8) s).1).1

  -- dd_metrics_consume_restart_cause
  unfoldable pub consume_restart_cause : LastCause → S → LastCause × S
  consume_restart_cause l s =
      let (err, v) = nvs.get_num u8 ns key_restart_cause s in
      let cause = if is_ok err then v else l.cause in
      if l.init
      then (l, s)
      else if not (is_ok (nvs.opens readwrite ns s))
      then (record l { init = true }, s)
      else (
        record { cause = cause; init = true },
        (nvs.commit ns (nvs.erase_key ns key_restart_cause s)).1,
      )

-- dd_metrics_get_last_cause
unfoldable pub get_last_cause : LastCause → ℕ
get_last_cause l = l.cause

-- dd_restart_cause_str
unfoldable pub restart_cause_str : ℕ → List ℕ
restart_cause_str c =
    if c == 0
    then codes "unknown"
    else if c == 1
    then codes "ota"
    else if c == 2
    then codes "admin"
    else if c == 3
    then codes "factory"
    else if c == 4
    then codes "setup"
    else if c == 5
    then codes "heap_critical"
    else if c == 6
    then codes "boot_loop_recovery"
    else codes "?"
