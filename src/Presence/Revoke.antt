-- ===== src/Presence/Revoke.antt =====
-- Revoking a bond in components/ble/dd_ble.c frees the slot of the peer.
use dingdong.Common.{
  ℕ, suc, ◌≡◌, refl, sym, ◌∙◌, Bool, true, ◌&&◌, none, some, List, [], ◌∷◌, set, Err, ◌≢◌, All,
  arith, Bool-cases, Option-cases, inl, inr, bytes_eq, bytes_eq_iff, bytes_eq-cases,
}
use dingdong.Presence.{PresenceSlot, Bond, cleared, slot_of, bond_lookup}
use dingdong.Presence.Links.{bond_revoke, at_addr}
use dingdong.Presence.Unique.{Distinct, Apart}

slot_of-Apart :
    (addr : List ℕ) (s : PresenceSlot) (slots : List PresenceSlot)
    → s.used ≡ true
    → s.addr ≡ addr
    → All (Apart s) slots
    → slot_of addr slots ≡ none
unfolding slot_of
slot_of-Apart addr s [] used its a = refl
slot_of-Apart addr s (t ∷ slots) used its a =
    let rest = slot_of-Apart addr s slots used its a.1 in
    elim (bytes_eq-cases t.addr addr) [
      | inr (differ, _) ↦ ground (arith, rest, differ)
      | inl (same, e) ↦ elim (Bool-cases t.used) [
        | inr free ↦ ground (arith, rest, free)
        | inl held ↦ elim a.0 [
          | inl free ↦ absurd (ground (arith, used, free))
          | inr (inl free) ↦ absurd (ground (arith, held, free))
          | inr (inr ne) ↦ absurd (ne (its ∙ sym e))
        ]
      ]
    ]

slot_of-cleared :
    (addr : List ℕ) (slots : List PresenceSlot) (i : ℕ)
    → Distinct slots
    → slot_of addr slots ≡ some i
    → slot_of addr (set slots i cleared) ≡ none
unfolding slot_of
slot_of-cleared addr [] i d e = absurd cc
slot_of-cleared addr (s ∷ slots) i d e = elim (Bool-cases (s.used && bytes_eq s.addr addr)) [
  | inl hit ↦
      (let first : i ≡ 0 = ground (arith, hit, e) in
        let its = (bytes_eq_iff s.addr addr).0 (ground (arith, hit)) in
        rw first (ground (arith, slot_of-Apart addr s slots (ground (arith, hit)) its d.0)))
  | inr miss ↦ elim (Option-cases (slot_of addr slots)) [
    | inl absent ↦ absurd (ground (arith, miss, e, absent))
    | inr (j, there) ↦
        (let later : i ≡ suc j = ground (arith, miss, e, there) in
          rw later (ground (arith, miss, slot_of-cleared addr slots j d.1 there)))
  ]
]

-- In a table without two slots for one address, a revocation that reports success leaves no slot for
-- the address, so that it is probed no more; one that reports an error leaves the table as it was. An
-- address that has no bond is not found.
bond_revoke_lem :
    (bonds : List Bond) (deleted : Bool) (links : List (ℕ × List ℕ)) (addr : List ℕ)
    (slots : List PresenceSlot)
    → Distinct slots
    → let (e, handles, slots') = bond_revoke bonds deleted links (some addr) slots in
      (e ≡ Err.ok → slot_of addr slots' ≡ none)
      × (e ≢ Err.ok → slots' ≡ slots)
      × (bond_lookup bonds addr ≡ none → e ≡ Err.not_found)
unfolding bond_revoke
bond_revoke_lem bonds deleted links addr slots d = elim (Option-cases (bond_lookup bonds addr)) [
  | inl stranger ↦ rw (bond_revoke, stranger) (λ e. absurd cc, λ _. refl, λ _. refl)
  | inr (b, known) ↦ elim (Bool-cases deleted) [
    | inr kept ↦ rw (bond_revoke, known, kept) (λ e. absurd cc, λ _. refl, λ e. absurd cc)
    | inl gone ↦ elim (Option-cases (slot_of addr slots)) [
      | inl absent ↦
          rw (bond_revoke, known, gone, at_addr, absent)
            (λ _. absent, λ ne. absurd (ne refl), λ e. absurd cc)
      | inr (i, there) ↦
          rw (bond_revoke, known, gone, at_addr, there)
            (λ _. slot_of-cleared addr slots i d there, λ ne. absurd (ne refl), λ e. absurd cc)
    ]
  ]
]
