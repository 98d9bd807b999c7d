-- ===== src/System.antt =====
-- components/http_app/dd_http_system.c: the handlers of the system, of which the login, the password and the
-- factory reset are here, with the BOOT button of main/main.c, which resets in the same way.
pub mod Login
pub mod Reset
pub mod Backup
use dingdong.Common.{List, ℕ}
use dingdong.Session.{Slot}
use dingdong.Storage.{Store}

-- What the handlers change: the sessions, the settings in the NVS and the log of events.
pub record Site (S : Type 0) : Type 0 where
  pub sessions : List Slot
  pub flash : S
  pub store : Store
