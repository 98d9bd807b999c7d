-- ===== src/Events.antt =====
-- components/events/dd_event.c: recording an event, with the debounce of BLE sightings; Tracks is the
-- newest event of each peer. It calls the worker registry and the event log as modelled in Workers and
-- Storage. cJSON is an argument. Times are microseconds of the monotonic clock, which is never behind a time
-- that was stored.
pub mod Slots
pub mod Debounce
pub mod Tracks
pub mod Newest
pub mod Each
pub mod Latest
mod Tests
use dingdong.Common.{
  ℕ, suc, ◌+◌, ◌-◌, ◌*◌, ◌^◌, max, Bool, true, false, not, ◌&&◌, ◌||◌, Option, none, some, List, [],
  ◌∷◌, length, take, set, replicate, get_or, ltb, ◌==◌, if◌then◌else◌, Err, is_ok, codes, bytes_eq,
}
use dingdong.Util.{format_mac}
use dingdong.Nvs.{Nvs}
use dingdong.Workers.{Table, Json}
use dingdong.Workers.Change.{lookup_or_create}
use dingdong.Storage.{Store, Io, Written, event_append, event_iter}

-- DEBOUNCE_US, DEBOUNCE_SLOTS
abbrev pub debounce_us : ℕ
debounce_us = 10 * 1000 * 1000

abbrev pub debounce_slots : ℕ
debounce_slots = 4

abbrev pub int64_max : ℕ
int64_max = 2 ^ 63 - 1

-- debounce_slot_t
pub record DebounceSlot : Type 0 where
  pub addr : List ℕ
  pub last_in : ℕ
  pub last_out : ℕ
  pub used : Bool

abbrev pub unused : DebounceSlot
unused = record { addr = replicate 6 0; last_in = 0; last_out = 0; used = false }

-- dd_event_type_t and dd_event_source_t
pub data EventType : Type 0 where
  ev_in ev_out : EventType

pub data EventSource : Type 0 where
  ble_auto manual_web manual_btn : EventSource

-- dd_event_type_str
unfoldable pub event_type_str : EventType → List ℕ
event_type_str EventType.ev_in = codes "in"
event_type_str EventType.ev_out = codes "out"

-- dd_event_source_str
unfoldable pub event_source_str : EventSource → List ℕ
event_source_str EventSource.ble_auto = codes "ble_auto"
event_source_str EventSource.manual_web = codes "manual_web"
event_source_str EventSource.manual_btn = codes "manual_btn"

-- The loop of get_slot, as the slot that it returns from inside and the one that is left at its end.
abbrev pub shifted : Option ℕ → Option ℕ
shifted none = none
shifted (some i) = some (suc i)

unfoldable pub match_of : List ℕ → List DebounceSlot → Option ℕ
match_of addr [] = none
match_of addr (s ∷ slots) =
    if s.used && bytes_eq s.addr addr then some 0 else shifted (match_of addr slots)

unfoldable pub victim_loop : List DebounceSlot → ℕ → Option ℕ → ℕ → ℕ → ℕ
victim_loop [] i free oldest oldest_ts = elim free [ some j ↦ j | none ↦ oldest ]
victim_loop (s ∷ slots) i free oldest oldest_ts =
    let most_recent = max s.last_in s.last_out in
    let taken =
      victim_loop slots (i + 1) (elim free [ some j ↦ some j | none ↦ some i ]) oldest oldest_ts in
    let older = victim_loop slots (i + 1) free i most_recent in
    let newer = victim_loop slots (i + 1) free oldest oldest_ts in
    if not s.used then taken else if ltb most_recent oldest_ts then older else newer

-- get_slot: the index of the slot, and the slots
unfoldable pub get_slot : List ℕ → List DebounceSlot → ℕ × List DebounceSlot
unfolding match_of victim_loop
get_slot addr slots = elim (match_of addr slots) [
  | some i ↦ (i, slots)
  | none ↦
      let idx = victim_loop slots 0 none 0 int64_max in
      (idx, set slots idx (record { addr = addr; last_in = 0; last_out = 0; used = true }))
]

abbrev pub last_of : EventType → DebounceSlot → ℕ
last_of EventType.ev_in s = s.last_in
last_of EventType.ev_out s = s.last_out

abbrev pub with_last : EventType → ℕ → DebounceSlot → DebounceSlot
with_last EventType.ev_in mono s = record s { last_in = mono }
with_last EventType.ev_out mono s = record s { last_out = mono }

-- The debounce of dd_event_record: whether the event is dropped, and the slots.
unfoldable pub debounce : EventType → List ℕ → ℕ → List DebounceSlot → Bool × List DebounceSlot
unfolding get_slot
debounce type addr mono slots =
    let (i, slots') = get_slot addr slots in
    let slot = get_or slots' i unused in
    let last = last_of type slot in
    if not (last == 0) && ltb (mono - last) debounce_us
    then (true, slots')
    else (false, set slots' i (with_last type mono slot))

abbrev pub debounced_source : EventSource → Bool
debounced_source EventSource.ble_auto = true
debounced_source _ = false

-- The members of the object that dd_event_record makes; a `none` is not added, nor a worker of 0.
pub record Fields : Type 0 where
  pub ts : ℕ
  pub mono_us : ℕ
  pub type : List ℕ
  pub src : List ℕ
  pub peer : Option (List ℕ)
  pub worker_id : ℕ
  pub reason : Option ℕ
  pub note : Option (List ℕ)

abbrev pub reason_of : EventType → ℕ → Option ℕ
reason_of EventType.ev_in reason = none
reason_of EventType.ev_out reason = some reason

abbrev pub given_note : Option (List ℕ) → Option (List ℕ)
given_note none = none
given_note (some []) = none
given_note (some (c ∷ cs)) = some (c ∷ cs)

-- The state that recording an event changes.
pub record State (S : Type 0) : Type 0 where
  pub slots : List DebounceSlot
  pub table : Table
  pub flash : S
  pub store : Store

-- What the file system answers in the append.
pub record AppendIo : Type 0 where
  pub io : Io
  pub recount : Bool
  pub open_a : Bool
  pub written : Written

module _ {S : Type 0} (nvs : Nvs S) (json : Json) (print : Fields → Option (List ℕ)) where
  -- dd_event_record after the debounce; `ts` is dd_time_now_unix(), which time(NULL) agrees with
  unfoldable pub store_event :
      EventType
      → EventSource
      → Option (List ℕ)
      → ℕ
      → Option (List ℕ)
      → ℕ
      → ℕ
      → AppendIo
      → State S
      → Err × State S
  unfolding lookup_or_create event_append
  store_event type src peer reason text mono ts a st =
      let (worker_id, table, flash) = lookup_or_create nvs json peer ts st.table st.flash in
      let made : State S = record st { table = table; flash = flash } in
      let fields : Fields = record {
        ts = ts;
        mono_us = mono;
        type = event_type_str type;
        src = event_source_str src;
        peer = elim peer [ none ↦ none | some addr ↦ some (format_mac addr) ];
        worker_id = worker_id;
        reason = reason_of type reason;
        note = given_note text;
      } in
      elim (print fields) [
        | none ↦ (Err.no_mem, made)
        | some line ↦
            let (err, store) =
              event_append a.io a.recount a.open_a a.written (some line) st.store in
            (err, record made { store = store })
      ]

  -- dd_event_record
  unfoldable pub event_record :
      EventType
      → EventSource
      → Option (List ℕ)
      → ℕ
      → Option (List ℕ)
      → ℕ
      → ℕ
      → AppendIo
      → State S
      → Err × State S
  unfolding debounce store_event
  event_record type src none reason text mono ts a st =
      store_event type src none reason text mono ts a st
  event_record type src (some addr) reason text mono ts a st =
      let (dropped, slots') = debounce type addr mono st.slots in
      let st' : State S = record st { slots = slots' } in
      if not (debounced_source src)
      then store_event type src (some addr) reason text mono ts a st
      else if dropped
      then (Err.ok, st')
      else store_event type src (some addr) reason text mono ts a st'
