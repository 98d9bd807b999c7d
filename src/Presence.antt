-- ===== src/Presence.antt =====
-- The presence table of components/ble/dd_ble.c: one slot for each bonded phone, from which the IN and
-- OUT events follow; Tick is what the timer does with it. Handlers run one after another. Times are
-- microseconds of the monotonic clock, which is never behind a time that was stored. The answers of
-- NimBLE are arguments, and the calls that a handler makes are its list of effects.
pub mod Links
pub mod Tick
pub mod Settings
pub mod Alternation
pub mod Balance
pub mod Fair
pub mod Resumed
pub mod Runs
pub mod Unique
pub mod Revoke
pub mod Timeout
mod Tests
use dingdong.Common.{
  ℕ, suc, ◌+◌, ◌-◌, ◌*◌, ◌/◌, Bool, true, false, not, ◌&&◌, ◌||◌, Option, none, some, List, [], ◌∷◌,
  ◌++◌, set, replicate, get_or, ltb, leb, ◌==◌, if◌then◌else◌, bytes_eq,
}

-- PRESENCE_MAX, PRESENCE_PROBE_AFTER_MS, PRESENCE_PROBE_COOLDOWN_MS, PRESENCE_REPROBE_OUT_MS
abbrev pub presence_max : ℕ
presence_max = 8

abbrev pub probe_after_ms : ℕ
probe_after_ms = 15000

abbrev pub probe_cooldown_ms : ℕ
probe_cooldown_ms = 10000

abbrev pub reprobe_out_ms : ℕ
reprobe_out_ms = 30000

abbrev pub no_handle : ℕ
no_handle = 0xffff

-- presence_slot_t
pub record PresenceSlot : Type 0 where
  pub addr : List ℕ
  pub addr_type : ℕ
  pub last_seen : ℕ
  pub last_probe : ℕ
  pub present : Bool
  pub ack_event : Bool
  pub probing : Bool
  pub connected : Bool
  pub probe_handle : ℕ
  pub used : Bool

-- A slot that memset cleared.
abbrev pub cleared : PresenceSlot
cleared = record {
  addr = replicate 6 0;
  addr_type = 0;
  last_seen = 0;
  last_probe = 0;
  present = false;
  ack_event = false;
  probing = false;
  connected = false;
  probe_handle = 0;
  used = false;
}

-- A bonded peer as NimBLE's store gives it.
pub record Bond : Type 0 where
  pub addr : List ℕ
  pub addr_type : ℕ

-- What a handler calls: dd_event_record of an IN or OUT by BLE_AUTO, ble_gap_connect with the promoted type of
-- address, and a restart of the scanner.
pub data Effect : Type 0 where
  record_in record_out : List ℕ → Effect
  connect : ℕ → List ℕ → Effect
  scan_restart : ℕ → Effect

-- bond_addr_lookup; `none` is a store that could not be read
unfoldable pub bond_lookup : List Bond → List ℕ → Option Bond
bond_lookup [] addr = none
bond_lookup (b ∷ bs) addr = if bytes_eq b.addr addr then some b else bond_lookup bs addr

unfoldable pub bond_addr_lookup : Option (List Bond) → List ℕ → Option Bond
unfolding bond_lookup
bond_addr_lookup none addr = none
bond_addr_lookup (some bonds) addr = bond_lookup bonds addr

-- The loops for the first slot of an address, and for the first slot that is not used.
abbrev pub shifted : Option ℕ → Option ℕ
shifted none = none
shifted (some i) = some (suc i)

unfoldable pub slot_of : List ℕ → List PresenceSlot → Option ℕ
slot_of addr [] = none
slot_of addr (s ∷ slots) =
    if s.used && bytes_eq s.addr addr then some 0 else shifted (slot_of addr slots)

unfoldable pub free_slot : List PresenceSlot → Option ℕ
free_slot [] = none
free_slot (s ∷ slots) = if s.used then shifted (free_slot slots) else some 0

-- A slot claimed for a bonded peer at its first sighting; `connected` and `last_seen` stay.
abbrev pub claimed : List ℕ → ℕ → PresenceSlot → PresenceSlot
claimed addr addr_type s = record s {
  used = true;
  addr = addr;
  addr_type = addr_type;
  present = false;
  ack_event = false;
  probing = false;
  probe_handle = no_handle;
  last_probe = 0;
}

-- The end of presence_seen_addr: the slot is seen, and an IN is recorded once the wall clock is known.
unfoldable pub seen_slot : ℕ → ℕ → PresenceSlot → List Effect × PresenceSlot
seen_slot now unix s =
    let s' = record s { last_seen = now; present = true } in
    if not s.ack_event && ltb 0 unix
    then (record_in s.addr ∷ [], record s' { ack_event = true })
    else ([], s')

-- presence_seen_addr
abbrev pub seen_at : ℕ → ℕ → ℕ → PresenceSlot → List PresenceSlot → List Effect × List PresenceSlot
seen_at now unix i s slots = let (effects, s') = seen_slot now unix s in (effects, set slots i s')

unfoldable pub seen_addr :
    Option (List Bond) → ℕ → ℕ → List ℕ → List PresenceSlot → List Effect × List PresenceSlot
unfolding slot_of free_slot bond_addr_lookup seen_slot
seen_addr bonds now unix addr slots = elim (slot_of addr slots) [
  | some i ↦ seen_at now unix i (get_or slots i cleared) slots
  | none ↦ elim (free_slot slots) [
    | none ↦ ([], slots)
    | some i ↦ elim (bond_addr_lookup bonds addr) [
      | none ↦ ([], slots)
      | some bond ↦ seen_at now unix i (claimed addr bond.addr_type (get_or slots i cleared)) slots
    ]
  ]
]

-- Whether ble_gap_disc_cancel (or EALREADY) and ble_gap_connect succeed.
pub record Radio : Type 0 where
  pub disc_cancel : Bool
  pub connects : Bool

-- BLE_ADDR_PUBLIC and BLE_ADDR_RANDOM become their _ID forms.
abbrev pub promoted : ℕ → ℕ
promoted t = if t == 0 then 2 else if t == 1 then 3 else t

-- presence_probe_start; `pairing` is dd_ble_pairing_active()
unfoldable pub probe_start : Radio → Bool → ℕ → PresenceSlot → List Effect × PresenceSlot
probe_start radio pairing now s =
    if s.probing
    then ([], s)
    else if pairing
    then ([], s)
    else if not radio.disc_cancel
    then (scan_restart 50 ∷ [], record s { last_probe = now })
    else if not radio.connects
    then (
      connect (promoted s.addr_type) s.addr ∷ scan_restart 50 ∷ [],
      record s { probe_handle = no_handle; probing = false; last_probe = now },
    )
    else (
      connect (promoted s.addr_type) s.addr ∷ [],
      record s { probe_handle = no_handle; probing = true },
    )
