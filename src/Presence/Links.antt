-- ===== src/Presence/Links.antt =====
-- The handlers of components/ble/dd_ble.c that change the presence table: probe and link events, the
-- slots of the bonds at boot, the reset after a wipe, and the revocation of a bond.
use dingdong.Common.{
  ℕ, Bool, true, false, not, ◌&&◌, Option, none, some, List, [], ◌∷◌, ◌++◌, set, get_or, ◌==◌,
  if◌then◌else◌, bytes_eq, Err, take,
}
use dingdong.Presence.{
  PresenceSlot, Bond, Effect, scan_restart, cleared, no_handle, slot_of, free_slot, bond_lookup,
  seen_addr,
}

-- probe_event_cb, for the slot of the probe: a connection (`some` its handle, `none` a failure), and a
-- disconnection of a handle. Other events change nothing.
unfoldable pub probe_connected :
    Option (List Bond) → ℕ → ℕ → ℕ → Option ℕ → List PresenceSlot → List Effect × List PresenceSlot
unfolding seen_addr
probe_connected bonds now unix i none slots =
    let s = get_or slots i cleared in
    (scan_restart 50 ∷ [], set slots i (record s { probing = false; last_probe = now }))
probe_connected bonds now unix i (some handle) slots =
    let s = get_or slots i cleared in
    let held = record s { probe_handle = handle; connected = true; probing = false } in
    let (effects, slots') = seen_addr bonds now unix s.addr (set slots i held) in
    (effects ++ (scan_restart 50 ∷ []), slots')

unfoldable pub dropped : ℕ → PresenceSlot → PresenceSlot
dropped now s = record s {
  probe_handle = no_handle;
  probing = false;
  connected = false;
  last_seen = now;
  last_probe = now;
}

unfoldable pub probe_disconnected : ℕ → ℕ → ℕ → List PresenceSlot → List Effect × List PresenceSlot
unfolding dropped
probe_disconnected now i handle slots =
    let s = get_or slots i cleared in
    if s.probe_handle == handle
    then (scan_restart 50 ∷ [], set slots i (dropped now s))
    else ([], slots)

-- The loop over the slots that changes the first one of an address.
abbrev pub at_addr : List ℕ → (PresenceSlot → PresenceSlot) → List PresenceSlot → List PresenceSlot
at_addr addr f slots = elim (slot_of addr slots) [
  | none ↦ slots
  | some i ↦ set slots i (f (get_or slots i cleared))
]

-- The slots in BLE_GAP_EVENT_CONNECT of gap_event_cb, for a connection that NimBLE finds.
unfoldable pub gap_connected :
    Option (List Bond) → ℕ → ℕ → List ℕ → List PresenceSlot → List Effect × List PresenceSlot
unfolding seen_addr
gap_connected bonds now unix addr slots =
    let (effects, slots') = seen_addr bonds now unix addr slots in
    (effects, at_addr addr (λ s. record s { connected = true }) slots')

-- The slots in BLE_GAP_EVENT_DISCONNECT of gap_event_cb.
unfoldable pub gap_disconnected : ℕ → List ℕ → List PresenceSlot → List PresenceSlot
gap_disconnected now addr slots =
    at_addr addr (λ s. record s { connected = false; last_seen = now }) slots

-- dd_ble_presence_reset_events
unfoldable pub reset_slot : PresenceSlot → PresenceSlot
reset_slot s = if s.used && s.present then record s { ack_event = false } else s

unfoldable pub reset_events : List PresenceSlot → List PresenceSlot
unfolding reset_slot
reset_events [] = []
reset_events (s ∷ slots) = reset_slot s ∷ reset_events slots

-- A slot of presence_preallocate_bonded; `was_in` is whether the newest event of the peer is an IN.
abbrev pub preallocated : Bond → Bool → ℕ → PresenceSlot
preallocated b was_in now = record {
  addr = b.addr;
  addr_type = b.addr_type;
  last_seen = if was_in then now else 0;
  last_probe = 0;
  present = was_in;
  ack_event = was_in;
  probing = false;
  connected = false;
  probe_handle = no_handle;
  used = true;
}

-- The loop of presence_preallocate_bonded, over the bonds with the answers of dd_event_latest_for_peers.
unfoldable pub preallocate_loop : ℕ → List (Bond × Bool) → List PresenceSlot → List PresenceSlot
unfolding slot_of free_slot
preallocate_loop now [] slots = slots
preallocate_loop now ((b, was_in) ∷ bs) slots =
    let known = preallocate_loop now bs slots in
    elim (slot_of b.addr slots) [
      | some j ↦ known
      | none ↦ elim (free_slot slots) [
        | none ↦ slots
        | some i ↦ preallocate_loop now bs (set slots i (preallocated b was_in now))
      ]
    ]

-- presence_preallocate_bonded; `none` is a store that could not be read
unfoldable pub preallocate_bonded :
    ℕ → Option (List (Bond × Bool)) → List PresenceSlot → List PresenceSlot
unfolding preallocate_loop
preallocate_bonded now none slots = slots
preallocate_bonded now (some bonds) slots = preallocate_loop now bonds slots

-- The handles of the live connections to an address, which a revocation terminates.
unfoldable pub handles_of : List ℕ → List (ℕ × List ℕ) → List ℕ
handles_of addr [] = []
handles_of addr ((h, peer) ∷ links) =
    if bytes_eq peer addr then h ∷ handles_of addr links else handles_of addr links

-- dd_ble_bond_revoke: the result, the handles it terminates and the slots. `bonds` are the bonds that
-- the store gives, none where it cannot be read, and `deleted` whether it deletes the peer. The
-- restart of advertising at the end is not in the model.
unfoldable pub bond_revoke :
    List Bond
    → Bool
    → List (ℕ × List ℕ)
    → Option (List ℕ)
    → List PresenceSlot
    → Err × List ℕ × List PresenceSlot
unfolding bond_lookup handles_of
bond_revoke bonds deleted links none slots = (Err.invalid_arg, [], slots)
bond_revoke bonds deleted links (some addr) slots = elim (bond_lookup bonds addr) [
  | none ↦ (Err.not_found, [], slots)
  | some matched ↦
      if not deleted
      then (Err.fail, handles_of addr links, slots)
      else (Err.ok, handles_of addr links, at_addr addr (λ s. cleared) slots)
]

-- dd_ble_bond_list
unfoldable pub addresses : List Bond → List (List ℕ)
addresses [] = []
addresses (b ∷ bs) = b.addr ∷ addresses bs

unfoldable pub bond_list : Option (List Bond) → ℕ → List (List ℕ)
unfolding addresses
bond_list none cap = []
bond_list (some bonds) cap = if cap == 0 then [] else addresses (take cap bonds)

-- dd_ble_bond_exists
unfoldable pub bond_exists : Option (List Bond) → Option (List ℕ) → Bool
unfolding bond_lookup
bond_exists bonds none = false
bond_exists none (some addr) = false
bond_exists (some bonds) (some addr) = elim (bond_lookup bonds addr) [
  | none ↦ false
  | some b ↦ true
]
