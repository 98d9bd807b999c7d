-- ===== src/Clock/Tests.antt =====
-- The clock at concrete answers of SNTP.
use dingdong.Common.{◌+◌, ◌-◌, ◌≤◌, ◌≡◌, false, arith, ◌/◌, ◌*◌}
use dingdong.Clock.{powered_on, on_sync, mono_to_unix, last_sync_unix, now_unix}
use dingdong.Clock.Sync.{mono_to_unix-on_sync}

mono_to_unix-on_sync_example :
    let c' = on_sync 1700000000 500000 9000000 powered_on in
    (mono_to_unix (9000000 + 700000) c' ≡ 1700000000 + (500000 + 700000) / 1000000)
    × (mono_to_unix (9000000 - 600000) c' ≡ (1700000000 * 1000000 + 500000 - 600000) / 1000000)
    × (mono_to_unix (9000000 - 600000) c' ≤ mono_to_unix (9000000 + 700000) c')
    × (last_sync_unix c' ≡ mono_to_unix 9000000 c')
    × (powered_on.synced ≡ false
        → (mono_to_unix 9000000 powered_on ≡ 0) × (now_unix 1700000000 powered_on ≡ 0))
mono_to_unix-on_sync_example =
    mono_to_unix-on_sync 1700000000 500000 9000000 700000 600000 powered_on (omega arith)
      (omega arith) (omega arith)
