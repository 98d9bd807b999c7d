-- ===== src/Events/Tests.antt =====
-- Recording and reading events at concrete sightings.
use dingdong.Common.{
  ◌<◌, ◌==◌, length, if◌then◌else◌, ℕ, ◌-◌, ◌≡◌, refl, true, false, Option, none, some, List, [],
  ◌∷◌, ◌++◌, ltb, Err, All, arith, bytes_eq, replicate, codes,
}
use dingdong.Nvs.Memory.{Entry, memory}
use dingdong.Workers.{Json}
use dingdong.Storage.{Store, all}
use dingdong.Events.{
  DebounceSlot, unused, EventType, EventSource, Fields, State, AppendIo, event_type_str, debounce,
  debounce_us, event_record,
}
use dingdong.Events.Tracks.{Line, tracks_of, latest_for_peers}
use dingdong.Events.Debounce.{Remembers, Forgot, sight, stored, event_record-again}
use dingdong.Events.Newest.{own, Stamped}
use dingdong.Events.Each.{Apart}
use dingdong.Events.Latest.{AllReported, latest_for_peers-newest}
use dingdong.Util.{format_mac}
use dingdong.Stdio.{fgets_all}
use dingdong.Storage.Files.{Holds}

abbrev phone : List ℕ
phone = 1 ∷ 2 ∷ 3 ∷ 4 ∷ 5 ∷ 6 ∷ []

abbrev json : Json
json = record { print = λ addr name category t. some (codes "{}"); parse = λ text. none }

abbrev print : Fields → Option (List ℕ)
print f = some (f.type ++ (f.worker_id ∷ []))

abbrev io : AppendIo
io = record {
  io = record { open_in = true; open_out = true; writes = true; close_out = true; renames = true };
  recount = true;
  open_a = true;
  written = all;
}

abbrev start : State (List Entry)
start = record {
  slots = replicate 4 unused;
  table = record { workers = []; next_id = 1 };
  flash = [];
  store = record { events = none; tmp = none; event_count = 0 };
}

abbrev sighting : Err × State (List Entry)
sighting =
    event_record memory json print EventType.ev_in EventSource.ble_auto (some phone) 0 none 1000 50
      io start

is_logged : (sighting.0 ≡ Err.ok) × (sighting.1.store.events ≡ some (105 ∷ 110 ∷ 1 ∷ 10 ∷ []))
unfolding event_record bytes_eq event_type_str
is_logged = (refl, refl)

first_kept : (debounce EventType.ev_in phone 1000 start.slots).0 ≡ false
unfolding debounce bytes_eq
first_kept = refl

four_slots : 0 < length sighting.1.slots
unfolding event_record debounce bytes_eq
four_slots = omega arith

-- The second sighting comes a millisecond after the first.
event_record-again_example :
    let first = (debounce EventType.ev_in phone 1000 start.slots).1 in
    let again = sight memory json print EventType.ev_in phone 0 51 none io 2000 sighting.1 in
    let new = stored memory json print EventType.ev_in phone 0 51 none io 2000 sighting.1 in
    let held = (debounce EventType.ev_in phone 2000 sighting.1.slots).1 in
    Remembers EventType.ev_in phone 1000 first
    × (Remembers EventType.ev_in phone 1000 sighting.1.slots
        → ltb (2000 - 1000) debounce_us ≡ true
        → again ≡ (Err.ok, sighting.1))
    × (Remembers EventType.ev_in phone 1000 sighting.1.slots
        → ltb (2000 - 1000) debounce_us ≡ false
        → (again ≡ new) × Remembers EventType.ev_in phone 2000 held)
    × (Forgot EventType.ev_in phone sighting.1.slots
        → (again ≡ new) × Remembers EventType.ev_in phone 2000 held)
event_record-again_example =
    event_record-again memory json print EventType.ev_in phone 0 51 none io 1000 2000 start
      sighting.1 (omega arith) four_slots (omega arith) first_kept

-- A phone and four others within ten seconds: the phone's slot is taken, and its second sighting is let through.
abbrev seen_by : List ℕ → ℕ → List DebounceSlot → List DebounceSlot
unfolding debounce
seen_by addr mono slots = (debounce EventType.ev_in addr mono slots).1

evicted :
    (debounce EventType.ev_in phone 6000 (
      seen_by (5 ∷ []) 5000 (
        seen_by
          (4 ∷ [])
          4000
          (seen_by (3 ∷ []) 3000 (seen_by (2 ∷ []) 2000 (seen_by phone 1000 start.slots)))))).0
    ≡ false
unfolding debounce bytes_eq
evicted = refl

abbrev other : List ℕ
other = 9 ∷ 2 ∷ 3 ∷ 4 ∷ 5 ∷ 6 ∷ []

abbrev line : ℕ → ℕ → List ℕ → Line
line ts mono type = record { peer = format_mac phone; type = type; ts = ts; mono = mono }

abbrev parse_letter : List ℕ → Option Line
parse_letter [] = none
parse_letter (c ∷ _) =
    if c == b'a'
    then some (line 5 1 (codes "in"))
    else if c == b'b'
    then some (line 9 7 (codes "out"))
    else if c == b'c'
    then some (line 8 9 (codes "in"))
    else none

abbrev letters : List (List ℕ)
letters = codes "a" ∷ codes "?" ∷ codes "b" ∷ codes "c" ∷ []

abbrev log : Store
log = record { events = some (codes "a\n?\nb\nc\n"); event_count = 4; tmp = none }

log-Holds : Holds log letters
log-Holds = record { file = refl; count = refl; good = omega arith }

newest_is_out :
    (latest_for_peers parse_letter true (phone ∷ other ∷ []) log).1
    ≡ (true, EventType.ev_out) ∷ (false, EventType.ev_in) ∷ []
unfolding latest_for_peers bytes_eq format_mac fgets_all
newest_is_out = refl

phones-Apart : Apart (tracks_of parse_letter (phone ∷ other ∷ []))
unfolding bytes_eq format_mac
phones-Apart = ((refl, tt), (tt, tt))

all-Stamped :
    All (λ addr. All Stamped (own parse_letter (format_mac addr) letters)) (phone ∷ other ∷ [])
unfolding bytes_eq format_mac
all-Stamped = ((omega arith, (omega arith, (omega arith, tt))), (tt, tt))

latest_for_peers-newest_example :
    let (e, reports) = latest_for_peers parse_letter true (phone ∷ other ∷ []) log in
    (e ≡ Err.ok) × AllReported parse_letter letters (phone ∷ other ∷ []) reports
latest_for_peers-newest_example =
    latest_for_peers-newest parse_letter log letters (phone ∷ other ∷ []) log-Holds (omega arith)
      (omega arith) phones-Apart all-Stamped
