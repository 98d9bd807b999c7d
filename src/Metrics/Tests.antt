-- ===== src/Metrics/Tests.antt =====
-- The counters at a store in memory.
use dingdong.Common.{◌≡◌, refl, true, false, List, [], ◌∷◌, bytes_eq}
use dingdong.Nvs.{u64}
use dingdong.Nvs.Memory.{Entry, memory}
use dingdong.Metrics.{
  LastCause, restart_unknown, number_of, key_total_uptime, boot_loop_inc, boot_loop_count,
  boot_loop_clear, in_recovery_mode, set_restart_cause, consume_restart_cause, save_uptime,
}
use dingdong.Metrics.Counts.{boots, save_all}

abbrev flash : List Entry
flash = []

abbrev booted : LastCause
booted = record { cause = restart_unknown; init = false }

four_boots :
    (boot_loop_count memory (boots memory 4 flash) ≡ 4)
    × (in_recovery_mode memory (boots memory 4 flash) ≡ true)
    × (boot_loop_count memory (boot_loop_clear memory (boots memory 4 flash)) ≡ 0)
unfolding boot_loop_inc in_recovery_mode boot_loop_clear bytes_eq
four_boots = (refl, refl, refl)

cause_kept : (consume_restart_cause memory booted (set_restart_cause memory 5 flash)).0.cause ≡ 5
unfolding consume_restart_cause set_restart_cause bytes_eq
cause_kept = refl

uptime_summed :
    number_of memory u64 key_total_uptime (save_all memory (60 ∷ 120 ∷ 185 ∷ []) 0 flash) ≡ 185
unfolding save_uptime bytes_eq
uptime_summed = refl
