-- ===== src/Presence/Fair.antt =====
-- What each handler on the presence table of components/ble/dd_ble.c does to the events that are owed
-- to one address.
use dingdong.Common.{
  ℕ, zero, suc, ◌+◌, ◌≤◌, ◌<◌, ◌≡◌, Bool, true, false, Option, none, some, List, [], ◌∷◌, ◌++◌,
  length, set, get_or, ◌==◌, arith, Bool-cases, Option-cases, inl, inr,
}
use dingdong.Presence.{
  PresenceSlot, Effect, record_in, record_out, connect, scan_restart, Bond, Radio, cleared, claimed,
  seen_slot, seen_addr, slot_of, free_slot, bond_addr_lookup, bond_lookup,
}
use dingdong.Presence.Tick.{Env, tick_slot, tick_loop}
use dingdong.Presence.Links.{
  probe_connected, probe_disconnected, dropped, gap_connected, reset_events, reset_slot,
  bond_revoke, at_addr,
}
use dingdong.Presence.Alternation.{tick_slot-Balanced, seen_slot-Balanced}
use dingdong.Presence.Balance.{
  ins_of, outs_of, slot_owes, owed_at, Fair, Local-Fair, seen_slot-Local, tick_slot-Local,
}

module _ (a : List ℕ) where
  pub ins_of-append : (es fs : List Effect) → ins_of a (es ++ fs) ≡ ins_of a es + ins_of a fs
  ins_of-append [] fs = omega arith
  ins_of-append (record_in b ∷ es) fs = omega (arith, ins_of-append es fs)
  ins_of-append (record_out b ∷ es) fs = ins_of-append es fs
  ins_of-append (connect t b ∷ es) fs = ins_of-append es fs
  ins_of-append (scan_restart n ∷ es) fs = ins_of-append es fs

  pub outs_of-append : (es fs : List Effect) → outs_of a (es ++ fs) ≡ outs_of a es + outs_of a fs
  outs_of-append [] fs = omega arith
  outs_of-append (record_in b ∷ es) fs = outs_of-append es fs
  outs_of-append (record_out b ∷ es) fs = omega (arith, outs_of-append es fs)
  outs_of-append (connect t b ∷ es) fs = outs_of-append es fs
  outs_of-append (scan_restart n ∷ es) fs = outs_of-append es fs

  -- The table as a whole is as fair to the address.
  abbrev pub FairTable : List PresenceSlot → List Effect × List PresenceSlot → Type 0
  FairTable slots r = outs_of a r.0 + owed_at a r.1 ≤ ins_of a r.0 + owed_at a slots

  owed_at-set_le :
      (slots : List PresenceSlot) (i : ℕ) (v : PresenceSlot)
      → slot_owes a v ≤ slot_owes a (get_or slots i cleared)
      → owed_at a (set slots i v) ≤ owed_at a slots
  owed_at-set_le [] i v le = omega arith
  owed_at-set_le (s ∷ slots) zero v le = omega (arith, le)
  owed_at-set_le (s ∷ slots) (suc i) v le = omega (arith, owed_at-set_le slots i v le)

  pub owed_at-set :
      (slots : List PresenceSlot) (i : ℕ) (v : PresenceSlot)
      → i < length slots
      → owed_at a (set slots i v) + slot_owes a (get_or slots i cleared)
        ≡ owed_at a slots + slot_owes a v
  owed_at-set [] i v lt = absurd (omega arith)
  owed_at-set (s ∷ slots) zero v lt = omega arith
  owed_at-set (s ∷ slots) (suc i) v lt = omega (arith, owed_at-set slots i v (omega arith))

  pub at_addr-le :
      (addr : List ℕ) (f : PresenceSlot → PresenceSlot) (slots : List PresenceSlot)
      → ((s : PresenceSlot) → slot_owes a (f s) ≤ slot_owes a s)
      → owed_at a (at_addr addr f slots) ≤ owed_at a slots
  at_addr-le addr f slots le = elim (Option-cases (slot_of addr slots)) [
    | inl absent ↦ rw (at_addr, absent) (omega arith)
    | inr (i, there) ↦
        rw (at_addr, there)
          (owed_at-set_le slots i (f (get_or slots i cleared)) (le (get_or slots i cleared)))
  ]

  slot_of-inside :
      (addr : List ℕ) (slots : List PresenceSlot) (i : ℕ)
      → slot_of addr slots ≡ some i
      → i < length slots
  unfolding slot_of
  slot_of-inside addr [] i e = absurd cc
  slot_of-inside addr (s ∷ slots) i e = elim (Option-cases (slot_of addr slots)) [
    | inl absent ↦ ground (arith, e, absent)
    | inr (j, there) ↦ ground (arith, e, there, slot_of-inside addr slots j there)
  ]

  pub free_slot-inside :
      (slots : List PresenceSlot) (i : ℕ) → free_slot slots ≡ some i → i < length slots
  unfolding free_slot
  free_slot-inside [] i e = absurd cc
  free_slot-inside (s ∷ slots) i e = elim (Option-cases (free_slot slots)) [
    | inl absent ↦ ground (arith, e, absent)
    | inr (j, there) ↦ ground (arith, e, there, free_slot-inside slots j there)
  ]

  seen_slot-Fair : (now unix : ℕ) (s : PresenceSlot) → Fair a s (seen_slot now unix s)
  seen_slot-Fair now unix s =
      Local-Fair a s (seen_slot now unix s) (seen_slot-Local now unix s)
        (seen_slot-Balanced now unix s)

  cleared_owes : slot_owes a cleared ≡ 0
  cleared_owes = ground arith

  claimed_owes : (addr : List ℕ) (t : ℕ) (s : PresenceSlot) → slot_owes a (claimed addr t s) ≡ 0
  claimed_owes addr t s = ground arith

  pub seen_addr-FairTable :
      (bonds : Option (List Bond)) (now unix : ℕ) (addr : List ℕ) (slots : List PresenceSlot)
      → FairTable slots (seen_addr bonds now unix addr slots)
  unfolding seen_addr
  seen_addr-FairTable bonds now unix addr slots = elim (Option-cases (slot_of addr slots)) [
    | inr (i, there) ↦
        let s = get_or slots i cleared in
        let fair = seen_slot-Fair now unix s in
        let moved =
          owed_at-set slots i (seen_slot now unix s).1 (slot_of-inside addr slots i there) in
        rw (seen_addr, there) (omega (arith, fair, moved))
    | inl absent ↦ elim (Option-cases (free_slot slots)) [
      | inl full ↦ rw (seen_addr, absent, full) (omega arith)
      | inr (i, free) ↦ elim (Option-cases (bond_addr_lookup bonds addr)) [
        | inl stranger ↦ rw (seen_addr, absent, free, stranger) (omega arith)
        | inr (bond, known) ↦
            let s = claimed addr bond.addr_type (get_or slots i cleared) in
            let fair = seen_slot-Fair now unix s in
            let moved =
              owed_at-set slots i (seen_slot now unix s).1 (free_slot-inside slots i free) in
            rw (seen_addr, absent, free, known)
              (omega
                (arith, fair, moved, claimed_owes addr bond.addr_type (get_or slots i cleared)))
      ]
    ]
  ]

  pub tick_loop-FairTable :
      (env : Env) (radio : ℕ → Radio) (i : ℕ) (slots : List PresenceSlot)
      → FairTable slots (tick_loop env radio i slots)
  unfolding tick_loop
  tick_loop-FairTable env radio i [] = omega arith
  tick_loop-FairTable env radio i (s ∷ slots) =
      let fair =
        Local-Fair a s (tick_slot env (radio i) s) (tick_slot-Local env (radio i) s)
          (tick_slot-Balanced env (radio i) s) in
      let later = tick_loop-FairTable env radio (i + 1) slots in
      omega (
        arith,
        fair,
        later,
        ins_of-append (tick_slot env (radio i) s).0 (tick_loop env radio (i + 1) slots).0,
        outs_of-append (tick_slot env (radio i) s).0 (tick_loop env radio (i + 1) slots).0,
      )

  pub reset_events-le :
      (slots : List PresenceSlot) → owed_at a (reset_events slots) ≤ owed_at a slots
  unfolding reset_events reset_slot
  reset_events-le [] = omega arith
  reset_events-le (s ∷ slots) =
      let one : slot_owes a (reset_slot s) ≤ slot_owes a s = ground arith in
      omega (arith, one, reset_events-le slots)

  pub probe_connected-FairTable :
      (bonds : Option (List Bond)) (now unix i : ℕ) (outcome : Option ℕ) (slots : List PresenceSlot)
      → FairTable slots (probe_connected bonds now unix i outcome slots)
  unfolding probe_connected
  probe_connected-FairTable bonds now unix i none slots =
      let s = get_or slots i cleared in
      omega (
        arith,
        owed_at-set_le slots i (record s { probing = false; last_probe = now }) (omega arith),
      )
  probe_connected-FairTable bonds now unix i (some handle) slots =
      let s = get_or slots i cleared in
      let held = record s { probe_handle = handle; connected = true; probing = false } in
      let r = seen_addr bonds now unix s.addr (set slots i held) in
      omega (
        arith,
        seen_addr-FairTable bonds now unix s.addr (set slots i held),
        owed_at-set_le slots i held (omega arith),
        ins_of-append r.0 (scan_restart 50 ∷ []),
        outs_of-append r.0 (scan_restart 50 ∷ []),
      )

  pub probe_disconnected-FairTable :
      (now i handle : ℕ) (slots : List PresenceSlot)
      → FairTable slots (probe_disconnected now i handle slots)
  unfolding probe_disconnected dropped
  probe_disconnected-FairTable now i handle slots =
      elim (Bool-cases ((get_or slots i cleared).probe_handle == handle)) [
        | inl its ↦
            rw (probe_disconnected, its)
              (omega (
                arith,
                owed_at-set_le slots i (dropped now (get_or slots i cleared)) (omega arith),
              ))
        | inr others ↦ rw (probe_disconnected, others) (omega arith)
      ]

  pub gap_connected-FairTable :
      (bonds : Option (List Bond)) (now unix : ℕ) (addr : List ℕ) (slots : List PresenceSlot)
      → FairTable slots (gap_connected bonds now unix addr slots)
  unfolding gap_connected
  gap_connected-FairTable bonds now unix addr slots = omega (
    arith,
    seen_addr-FairTable bonds now unix addr slots,
    at_addr-le addr (λ s. record s { connected = true }) (seen_addr bonds now unix addr slots).1
        (λ s. omega arith),
  )

  pub bond_revoke-le :
      (bonds : List Bond) (deleted : Bool) (links : List (ℕ × List ℕ)) (addr : Option (List ℕ))
      (slots : List PresenceSlot)
      → owed_at a (bond_revoke bonds deleted links addr slots).2 ≤ owed_at a slots
  unfolding bond_revoke
  bond_revoke-le bonds deleted links none slots = omega arith
  bond_revoke-le bonds deleted links (some addr) slots =
      elim (Option-cases (bond_lookup bonds addr)) [
        | inl stranger ↦ rw (bond_revoke, stranger) (omega arith)
        | inr (b, known) ↦ elim (Bool-cases deleted) [
          | inr kept ↦ rw (bond_revoke, known, kept) (omega arith)
          | inl gone ↦
              rw (bond_revoke, known, gone)
                (at_addr-le addr (λ s. cleared) slots (λ s. omega (arith, cleared_owes)))
        ]
      ]
