-- ===== src/Presence/Unique.antt =====
-- No two slots of the presence table of components/ble/dd_ble.c are used for one address.
use dingdong.Common.{
  ℕ, zero, suc, ◌≡◌, refl, sym, ◌∙◌, Bool, false, Option, none, some, List, [], ◌∷◌, set, get_or,
  ◌≢◌, All, arith, Bool-cases, Option-cases, inl, inr, ◌⊎◌, bytes_eq-cases,
}
use dingdong.Presence.{
  PresenceSlot, Bond, cleared, claimed, slot_of, free_slot, seen_addr, seen_slot, bond_addr_lookup,
  shifted,
}
use dingdong.Presence.Links.{preallocate_bonded, preallocate_loop, preallocated}

abbrev pub Apart : PresenceSlot → PresenceSlot → Type 0
Apart s t = (s.used ≡ false) ⊎ ((t.used ≡ false) ⊎ (s.addr ≢ t.addr))

abbrev pub Distinct : List PresenceSlot → Type 0
Distinct [] = Unit
Distinct (s ∷ slots) = All (Apart s) slots × Distinct slots

Apart-sym : (s t : PresenceSlot) → Apart s t → Apart t s
Apart-sym s t (inl free) = inr (inl free)
Apart-sym s t (inr (inl free)) = inl free
Apart-sym s t (inr (inr ne)) = inr (inr (λ e. ne (sym e)))

-- Slots that are used for one address, or not used.
abbrev Alike : PresenceSlot → PresenceSlot → Type 0
Alike s t = (s.used ≡ t.used) × (s.addr ≡ t.addr)

Apart-Alike : (s t v : PresenceSlot) → Alike t v → Apart s t → Apart s v
Apart-Alike s t v same (inl free) = inl free
Apart-Alike s t v same (inr (inl free)) = inr (inl (sym same.0 ∙ free))
Apart-Alike s t v same (inr (inr ne)) = inr (inr (λ e. ne (e ∙ sym same.1)))

All-set :
    (s v : PresenceSlot) (slots : List PresenceSlot) (i : ℕ)
    → All (Apart s) slots
    → Apart s v
    → All (Apart s) (set slots i v)
All-set s v [] i a p = tt
All-set s v (t ∷ slots) zero a p = (p, a.1)
All-set s v (t ∷ slots) (suc i) a p = (a.0, All-set s v slots i a.1 p)

All-from :
    (v : PresenceSlot) (slots : List PresenceSlot)
    → All (λ t. Apart t v) slots
    → All (Apart v) slots
All-from v [] a = tt
All-from v (t ∷ slots) a = (Apart-sym t v a.0, All-from v slots a.1)

Distinct-new :
    (v : PresenceSlot) (slots : List PresenceSlot) (i : ℕ)
    → Distinct slots
    → All (λ t. Apart t v) slots
    → Distinct (set slots i v)
Distinct-new v [] i d a = tt
Distinct-new v (t ∷ slots) zero d a = (All-from v slots a.1, d.1)
Distinct-new v (t ∷ slots) (suc i) d a =
    (All-set t v slots i d.0 a.0, Distinct-new v slots i d.1 a.1)

All-Alike :
    (s v : PresenceSlot) (slots : List PresenceSlot)
    → Alike s v
    → All (Apart s) slots
    → All (Apart v) slots
All-Alike s v [] same a = tt
All-Alike s v (t ∷ slots) same a =
    (Apart-sym t v (Apart-Alike t s v same (Apart-sym s t a.0)), All-Alike s v slots same a.1)

All-at :
    (s : PresenceSlot) (slots : List PresenceSlot) (i : ℕ)
    → All (Apart s) slots
    → Apart s (get_or slots i cleared)
All-at s [] i a = inr (inl refl)
All-at s (t ∷ slots) zero a = a.0
All-at s (t ∷ slots) (suc i) a = All-at s slots i a.1

Distinct-same :
    (v : PresenceSlot) (slots : List PresenceSlot) (i : ℕ)
    → Distinct slots
    → Alike (get_or slots i cleared) v
    → Distinct (set slots i v)
Distinct-same v [] i d same = tt
Distinct-same v (t ∷ slots) zero d same = (All-Alike t v slots same d.0, d.1)
Distinct-same v (t ∷ slots) (suc i) d same = (
  All-set t v slots i d.0 (Apart-Alike t (get_or slots i cleared) v same (All-at t slots i d.0)),
  Distinct-same v slots i d.1 same,
)

-- An address that the search does not find is apart from every slot.
slot_of-none :
    (addr : List ℕ) (slots : List PresenceSlot) (v : PresenceSlot)
    → slot_of addr slots ≡ none
    → v.addr ≡ addr
    → All (λ t. Apart t v) slots
unfolding slot_of
slot_of-none addr [] v e its = tt
slot_of-none addr (t ∷ slots) v e its = elim (Bool-cases t.used) [
  | inr free ↦ (inl free, slot_of-none addr slots v (later (ground arith)) its)
  | inl used ↦ elim (bytes_eq-cases t.addr addr) [
    | inl (same, _) ↦ absurd (ground arith)
    | inr (differ, ne) ↦
        (inr (inr (λ p. ne (p ∙ its))), slot_of-none addr slots v (later (ground arith)) its)
  ]
]
  where
    later : shifted (slot_of addr slots) ≡ none → slot_of addr slots ≡ none
    later h = ground arith

seen_slot-Alike : (now unix : ℕ) (s : PresenceSlot) → Alike s (seen_slot now unix s).1
unfolding seen_slot
seen_slot-Alike now unix s = (ground arith, ground arith)

-- A sighting keeps the table free of two slots for one address, and a sighting of an address that has
-- no slot and no bond changes nothing and records nothing.
pub seen_addr-Distinct :
    (bonds : Option (List Bond)) (now unix : ℕ) (addr : List ℕ) (slots : List PresenceSlot)
    → Distinct slots
    → Distinct (seen_addr bonds now unix addr slots).1
      × (slot_of addr slots ≡ none
          → bond_addr_lookup bonds addr ≡ none
          → seen_addr bonds now unix addr slots ≡ ([], slots))
unfolding seen_addr
seen_addr-Distinct bonds now unix addr slots d = elim (Option-cases (slot_of addr slots)) [
  | inr (i, there) ↦ (
    rw (seen_addr, there)
        (Distinct-same _ slots i d (seen_slot-Alike now unix (get_or slots i cleared))),
    λ absent. absurd (ground (arith, there, absent)),
  )
  | inl absent ↦ elim (Option-cases (free_slot slots)) [
    | inl full ↦ (rw (seen_addr, absent, full) d, λ _ _. rw (seen_addr, absent, full) refl)
    | inr (i, free) ↦ elim (Option-cases (bond_addr_lookup bonds addr)) [
      | inl stranger ↦ (
        rw (seen_addr, absent, free, stranger) d,
        λ _ _. rw (seen_addr, absent, free, stranger) refl,
      )
      | inr (bond, known) ↦ (
        rw (seen_addr, absent, free, known) (claim i bond absent),
        λ _ none_known. absurd (ground (arith, known, none_known)),
      )
    ]
  ]
]
  where
    claim :
        (i : ℕ) (bond : Bond)
        → slot_of addr slots ≡ none
        → Distinct (
            set slots i
              (seen_slot now unix (claimed addr bond.addr_type (get_or slots i cleared))).1)
    claim i bond absent =
        let s = claimed addr bond.addr_type (get_or slots i cleared) in
        Distinct-new (seen_slot now unix s).1 slots i d (
          slot_of-none addr slots (seen_slot now unix s).1 absent
            (sym (seen_slot-Alike now unix s).1))

preallocate_loop-Distinct :
    (now : ℕ) (bs : List (Bond × Bool)) (slots : List PresenceSlot)
    → Distinct slots
    → Distinct (preallocate_loop now bs slots)
unfolding preallocate_loop
preallocate_loop-Distinct now [] slots d = d
preallocate_loop-Distinct now ((b, was_in) ∷ bs) slots d =
    elim (Option-cases (slot_of b.addr slots)) [
      | inr (j, there) ↦ rw (preallocate_loop, there) (preallocate_loop-Distinct now bs slots d)
      | inl absent ↦ elim (Option-cases (free_slot slots)) [
        | inl full ↦ rw (preallocate_loop, absent, full) d
        | inr (i, free) ↦
            rw (preallocate_loop, absent, free)
              (preallocate_loop-Distinct now bs (set slots i (preallocated b was_in now)) (
                Distinct-new (preallocated b was_in now) slots i d
                  (slot_of-none b.addr slots (preallocated b was_in now) absent refl)))
      ]
    ]

-- Giving every bond a slot keeps the table free of two slots for one address.
preallocate_bonded-Distinct :
    (now : ℕ) (bonds : Option (List (Bond × Bool))) (slots : List PresenceSlot)
    → Distinct slots
    → Distinct (preallocate_bonded now bonds slots)
unfolding preallocate_bonded
preallocate_bonded-Distinct now none slots d = d
preallocate_bonded-Distinct now (some bonds) slots d = preallocate_loop-Distinct now bonds slots d
