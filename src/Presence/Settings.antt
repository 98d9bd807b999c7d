-- ===== src/Presence/Settings.antt =====
-- The view of the presence table that components/ble/dd_ble.c gives to the web page, and the
-- presence timeout that it reads from the NVS and writes there.
use dingdong.Common.{
  ℕ, ◌-◌, ◌*◌, ◌/◌, Bool, not, ◌&&◌, Option, none, some, List, [], ◌∷◌, ltb, leb, ◌==◌,
  if◌then◌else◌, Err, is_ok, codes,
}
use dingdong.Nvs.{Nvs, readonly, readwrite, i32}
use dingdong.Presence.{PresenceSlot}
use dingdong.Presence.Tick.{ms_since}

-- dd_ble_presence_snapshot_t; an age of -1 is `none`
pub record Snapshot : Type 0 where
  pub addr : List ℕ
  pub present : Bool
  pub ack_event : Bool
  pub connected : Bool
  pub probing : Bool
  pub last_seen_ago_ms : Option ℕ
  pub last_probe_ago_ms : Option ℕ

abbrev pub age : ℕ → ℕ → Option ℕ
age now t = if t == 0 then none else some (ms_since now t)

abbrev pub snapshot_of : ℕ → PresenceSlot → Snapshot
snapshot_of now s = record {
  addr = s.addr;
  present = s.present;
  ack_event = s.ack_event;
  connected = s.connected;
  probing = s.probing;
  last_seen_ago_ms = age now s.last_seen;
  last_probe_ago_ms = age now s.last_probe;
}

-- dd_ble_presence_snapshot
unfoldable pub presence_snapshot : ℕ → ℕ → List PresenceSlot → List Snapshot
presence_snapshot now cap [] = []
presence_snapshot now cap (s ∷ slots) =
    let skipped = presence_snapshot now cap slots in
    let rest = presence_snapshot now (cap - 1) slots in
    if cap == 0 then [] else if s.used then snapshot_of now s ∷ rest else skipped

-- PRESENCE_TIMEOUT_DEFAULT_S, PRESENCE_TIMEOUT_MIN_S, PRESENCE_TIMEOUT_MAX_S
abbrev pub timeout_default_s : ℕ
timeout_default_s = 60

abbrev pub timeout_min_s : ℕ
timeout_min_s = 30

abbrev pub timeout_max_s : ℕ
timeout_max_s = 600

abbrev pub presence_ns : List ℕ
presence_ns = codes "presence"

abbrev pub presence_key : List ℕ
presence_key = codes "timeout_s"

-- dd_ble_get_presence_timeout_s, from s_presence_timeout_ms
unfoldable pub get_presence_timeout : ℕ → ℕ
get_presence_timeout timeout_ms = timeout_ms / 1000

abbrev pub clamped : ℕ → ℕ
clamped seconds =
    if ltb seconds timeout_min_s
    then timeout_min_s
    else if ltb timeout_max_s seconds
    then timeout_max_s
    else seconds

module _ {S : Type 0} (nvs : Nvs S) where
  -- dd_ble_set_presence_timeout_s: the result, s_presence_timeout_ms and the NVS. A negative number
  -- of seconds is below the minimum, as 0 is, and stands for it here.
  unfoldable pub set_presence_timeout : ℕ → S → Err × ℕ × S
  set_presence_timeout seconds s =
      let e_open = nvs.opens readwrite presence_ns s in
      let s1 = (nvs.set_num i32 presence_ns presence_key (clamped seconds) s).1 in
      let (err, s2) = nvs.commit presence_ns s1 in
      if is_ok e_open
      then (err, clamped seconds * 1000, s2)
      else (e_open, clamped seconds * 1000, s)

  -- load_presence_settings, from the value of s_presence_timeout_ms
  unfoldable pub load_presence_settings : ℕ → S → ℕ
  load_presence_settings timeout_ms s =
      let (err, v) = nvs.get_num i32 presence_ns presence_key s in
      if not (is_ok (nvs.opens readonly presence_ns s))
      then timeout_ms
      else if is_ok err && (leb timeout_min_s v && leb v timeout_max_s)
      then v * 1000
      else timeout_ms
