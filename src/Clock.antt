-- ===== src/Clock.antt =====
-- components/time_sync/dd_time.c: the wall clock that SNTP sets, and the NTP server. The NVS and the
-- answers of SNTP are arguments; the mutex is held around each use of what it protects, so calls do not interleave.
pub mod Sync
pub mod Server
mod Tests
use dingdong.Common.{
  ℕ, ◌+◌, ◌-◌, ◌*◌, ◌/◌, Bool, true, false, not, ◌&&◌, ◌||◌, Option, none, some, List, [], ◌∷◌,
  ◌++◌, length, take, ltb, leb, ◌==◌, if◌then◌else◌, Err, is_ok, codes,
}
use dingdong.Nvs.{Nvs, readonly, readwrite}

-- DD_NTP_SERVER_MAX, NTP_SERVER_DEFAULT, NTP_NVS_NS, NTP_NVS_KEY
abbrev pub ntp_server_max : ℕ
ntp_server_max = 64

abbrev pub ntp_server_default : List ℕ
ntp_server_default = codes "ntp.aliyun.com"

abbrev pub ntp_ns : List ℕ
ntp_ns = codes "time"

abbrev pub ntp_key : List ℕ
ntp_key = codes "ntp_server"

-- s_lock (whether it was made), s_synced, s_wall_at_sync_us, s_mono_at_sync_us, s_ntp_server, s_sntp_inited
pub record Clock : Type 0 where
  pub lock : Bool
  pub synced : Bool
  pub wall_at_sync : ℕ
  pub mono_at_sync : ℕ
  pub ntp_server : List ℕ
  pub sntp_inited : Bool

abbrev pub powered_on : Clock
powered_on = record {
  lock = false;
  synced = false;
  wall_at_sync = 0;
  mono_at_sync = 0;
  ntp_server = ntp_server_default;
  sntp_inited = false;
}

-- esp_netif_sntp_deinit, and esp_netif_sntp_init with a server
pub data SntpCall : Type 0 where
  deinit : SntpCall
  init : List ℕ → SntpCall

-- on_sync: the seconds and microseconds of the answer, and the monotonic clock
unfoldable pub on_sync : ℕ → ℕ → ℕ → Clock → Clock
on_sync sec usec mono c = record c {
  synced = true;
  wall_at_sync = sec * 1000000 + usec;
  mono_at_sync = mono;
}

-- dd_time_is_synced
unfoldable pub is_synced : Clock → Bool
is_synced c = c.synced

-- dd_time_now_unix; `now` is time(NULL)
unfoldable pub now_unix : ℕ → Clock → ℕ
now_unix now c = if not c.synced then 0 else now

-- dd_time_mono_to_unix. A time before the sync gives a negative delta; the sum with the wall time is not negative.
unfoldable pub mono_to_unix : ℕ → Clock → ℕ
mono_to_unix mono c = if not c.synced then 0 else (c.wall_at_sync + mono - c.mono_at_sync) / 1000000

-- dd_time_last_sync_unix
unfoldable pub last_sync_unix : Clock → ℕ
last_sync_unix c = c.wall_at_sync / 1000000

-- dd_time_get_ntp_server
unfoldable pub get_ntp_server : Clock → List ℕ
get_ntp_server c = c.ntp_server

-- dd_time_sntp_start; `started` is what esp_netif_sntp_init gives
unfoldable pub sntp_start : Err → Clock → Err × List SntpCall × Clock
sntp_start started c = (
  started,
  (if c.sntp_inited then deinit ∷ [] else []) ++ (init c.ntp_server ∷ []),
  record c { sntp_inited = is_ok started },
)

module _ {S : Type 0} (nvs : Nvs S) where
  -- load_ntp_server: a string that does not fit the buffer is an error of nvs_get_str
  unfoldable pub load_ntp_server : S → Clock → Clock
  load_ntp_server s c =
      let (err, v) = nvs.get_str ntp_ns ntp_key s in
      if is_ok (nvs.opens readonly ntp_ns s)
        && (is_ok err && (leb (length v + 1) ntp_server_max && not (length v == 0)))
      then record c { ntp_server = take (ntp_server_max - 1) v }
      else c

  -- dd_time_init; `made` is whether the mutex could be created
  unfoldable pub time_init : Bool → S → Clock → Err × Clock
  unfolding load_ntp_server
  time_init made s c =
      if c.lock
      then (Err.ok, load_ntp_server s c)
      else if not made
      then (Err.no_mem, c)
      else (Err.ok, load_ntp_server s (record c { lock = true }))

  -- dd_time_set_ntp_server; `none` is NULL. The result of the set and of the restart are not looked at.
  unfoldable pub set_ntp_server :
      Option (List ℕ) → Err → Clock → S → Err × List SntpCall × Clock × S
  unfolding sntp_start
  set_ntp_server none started c s = (Err.invalid_arg, [], c, s)
  set_ntp_server (some server) started c s =
      let e_open = nvs.opens readwrite ntp_ns s in
      let (err, s') = nvs.commit ntp_ns (nvs.set_str ntp_ns ntp_key server s).1 in
      let (_, calls, c') =
        sntp_start started
          (record c { ntp_server = take (ntp_server_max - 1) server; synced = false }) in
      if length server == 0
      then (Err.invalid_arg, [], c, s)
      else if leb ntp_server_max (length server)
      then (Err.invalid_size, [], c, s)
      else if is_ok e_open
      then (err, calls, c', s')
      else (e_open, calls, c', s)
