-- ===== src/Events/Debounce.antt =====
-- The debounce of components/events/dd_event.c: a second sighting within ten seconds records nothing.
use dingdong.Common.{
  ◌⊎◌, inl, ℕ, ◌-◌, ◌<◌, ◌≡◌, refl, ap, ◌∙◌, true, false, Option, none, some, List, length, get_or,
  ltb, Err, inr,
}
use dingdong.Nvs.{Nvs}
use dingdong.Workers.{Json}
use dingdong.Events.{
  DebounceSlot, unused, EventType, EventSource, get_slot, last_of, with_last, debounce, debounce_us,
  match_of, Fields, State, AppendIo, store_event, event_record,
}
use dingdong.Events.Slots.{
  match_of-set, get_or-set, get_slot-Gives, last_of-with_last, with_last-same, debounce-kept,
  debounce-at, get_slot-new, get_slot-matched,
}

-- The table has a slot of the peer, with a time as that of the last sighting of the type.
abbrev pub Remembers : EventType → List ℕ → ℕ → List DebounceSlot → Type 0
Remembers type addr mono slots =
    (i : ℕ) × (match_of addr slots ≡ some i) × (last_of type (get_or slots i unused) ≡ mono)

debounce-Remembers :
    (type : EventType) (addr : List ℕ) (mono : ℕ) (slots : List DebounceSlot)
    → 0 < length slots
    → (debounce type addr mono slots).0 ≡ false
    → Remembers type addr mono (debounce type addr mono slots).1
debounce-Remembers type addr mono slots some_slots kept =
    let i = (get_slot addr slots).0 in
    let given = (get_slot addr slots).1 in
    let g = get_slot-Gives addr slots some_slots in
    let v = with_last type mono (get_or given i unused) in
    let same = with_last-same type mono (get_or given i unused) in
    let there =
      match_of-set addr given i v g.inside (inr g.matched) (same.1 ∙ g.used) (same.0 ∙ g.its) in
    let its =
      ap (last_of type) (get_or-set given i v g.inside)
      ∙ last_of-with_last type mono (get_or given i unused) in
    rw (debounce-kept type addr mono slots kept) (i, there, its)

-- The table has no slot of the peer, or one without a time of the type.
abbrev pub Forgot : EventType → List ℕ → List DebounceSlot → Type 0
Forgot type addr slots = (match_of addr slots ≡ none) ⊎ Remembers type addr 0 slots

debounce-new :
    (type : EventType) (addr : List ℕ) (mono : ℕ) (slots : List DebounceSlot)
    → 0 < length slots
    → Forgot type addr slots
    → (debounce type addr mono slots).0 ≡ false
unfolding debounce
debounce-new type addr mono slots some_slots (inl absent) =
    rw (debounce, get_slot-new type addr slots some_slots absent) refl
debounce-new type addr mono slots some_slots (inr (i, there, its)) =
    rw (debounce, get_slot-matched addr slots i there, its) refl

module _ {S : Type 0} (nvs : Nvs S) (json : Json) (print : Fields → Option (List ℕ))
    (type : EventType) (addr : List ℕ) (reason ts : ℕ) (text : Option (List ℕ)) (a : AppendIo) where
  -- A sighting by BLE, and what it is where the debounce lets it through.
  abbrev pub sight : ℕ → State S → Err × State S
  unfolding event_record
  sight mono st =
      event_record nvs json print type EventSource.ble_auto (some addr) reason text mono ts a st

  abbrev pub stored : ℕ → State S → Err × State S
  unfolding store_event
  stored mono st =
      store_event nvs json print type EventSource.ble_auto (some addr) reason text mono ts a
        (record st { slots = (debounce type addr mono st.slots).1 })

  -- A sighting by BLE that the debounce lets through leaves its time in a slot of the peer. As long as a slot of the
  -- peer holds that time, a later sighting of its type within ten seconds reports success and changes nothing, neither
  -- the log nor the registry nor the slots, and one after that is stored and leaves its own time. There are
  -- four slots: where sightings of others have taken the peer's, so that it has none, or one without a time of the
  -- type, a sighting is stored and leaves its time, however soon it comes.
  pub event_record-again :
      (mono later : ℕ) (before after : State S)
      → 0 < length before.slots
      → 0 < length after.slots
      → 0 < mono
      → (debounce type addr mono before.slots).0 ≡ false
      → Remembers type addr mono (debounce type addr mono before.slots).1
        × (Remembers type addr mono after.slots
            → ltb (later - mono) debounce_us ≡ true
            → sight later after ≡ (Err.ok, after))
        × (Remembers type addr mono after.slots
            → ltb (later - mono) debounce_us ≡ false
            → (sight later after ≡ stored later after)
              × Remembers type addr later (debounce type addr later after.slots).1)
        × (Forgot type addr after.slots
            → (sight later after ≡ stored later after)
              × Remembers type addr later (debounce type addr later after.slots).1)
  unfolding event_record
  event_record-again mono later before after some_slots slots_left pos kept = (
    debounce-Remembers type addr mono before.slots some_slots kept,
    λ (i, there, its) soon.
        (let at = debounce-at type addr mono later i after.slots there its pos in
          rw (event_record, at.0, soon)
            (ap (λ (l : List DebounceSlot). (Err.ok, record after { slots = l })) (at.1 soon))),
    λ (i, there, its) late.
        (let at = debounce-at type addr mono later i after.slots there its pos in
          (
            rw (event_record, at.0, late) refl,
            debounce-Remembers type addr later after.slots slots_left (at.0 ∙ late),
          )),
    λ forgot.
        (let new = debounce-new type addr later after.slots slots_left forgot in
          (
            rw (event_record, new) refl,
            debounce-Remembers type addr later after.slots slots_left new,
          )),
  )
