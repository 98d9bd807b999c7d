-- ===== src/Clock/Sync.antt =====
-- The wall clock of components/time_sync/dd_time.c after a sync.
use dingdong.Common.{ℕ, ◌+◌, ◌-◌, ◌≤◌, ◌<◌, ◌≡◌, refl, false, arith, ◌/◌, ◌*◌}
use dingdong.Clock.{Clock, on_sync, now_unix, mono_to_unix, last_sync_unix}

-- After a sync at some seconds and microseconds of the wall clock, a monotonic time stands for the
-- second of the wall clock that is as far from the sync as it is, after it or, while that is not before 1970, in front of it;
-- a later time never stands for an earlier second; and before the first sync every time stands for 0.
pub mono_to_unix-on_sync :
    (sec usec mono later ago : ℕ) (c : Clock)
    → usec < 1000000
    → ago ≤ mono
    → ago ≤ sec * 1000000 + usec
    → let c' = on_sync sec usec mono c in
      (mono_to_unix (mono + later) c' ≡ sec + (usec + later) / 1000000)
      × (mono_to_unix (mono - ago) c' ≡ (sec * 1000000 + usec - ago) / 1000000)
      × (mono_to_unix (mono - ago) c' ≤ mono_to_unix (mono + later) c')
      × (last_sync_unix c' ≡ mono_to_unix mono c')
      × (c.synced ≡ false → (mono_to_unix mono c ≡ 0) × (now_unix sec c ≡ 0))
unfolding mono_to_unix on_sync last_sync_unix now_unix
mono_to_unix-on_sync sec usec mono later ago c small old past =
    (omega arith, omega arith, omega arith, omega arith, λ unsynced. rw unsynced (refl, refl))
