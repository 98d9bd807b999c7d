-- ===== src/Presence/Resumed.antt =====
-- What presence_preallocate_bonded of components/ble/dd_ble.c does to the events that are owed to one address: a
-- slot that it makes for a peer whose newest event is an IN owes the OUT of that IN.
use dingdong.Common.{
  ℕ, suc, ◌+◌, ◌≤◌, ◌≡◌, ap, Bool, false, ◌&&◌, Option, none, some, List, [], ◌∷◌, set,
  if◌then◌else◌, arith, Bool-cases, Option-cases, inl, inr, bytes_eq, bytes_eq-cases,
}
use dingdong.Presence.{PresenceSlot, Bond, slot_of, free_slot}
use dingdong.Presence.Links.{preallocated, preallocate_loop, preallocate_bonded}
use dingdong.Presence.Balance.{slot_owes, owed_at}
use dingdong.Presence.Fair.{owed_at-set, free_slot-inside}

module _ (a : List ℕ) where
  -- The bonds of the address whose newest event in the log is an IN.
  abbrev pub logged_in : List (Bond × Bool) → ℕ
  logged_in [] = 0
  logged_in ((b, was_in) ∷ bs) = (if was_in && bytes_eq b.addr a then 1 else 0) + logged_in bs

  -- The slots that come to owe an OUT: none where the address has a slot.
  abbrev pub resumed : Option (List (Bond × Bool)) → List PresenceSlot → ℕ
  resumed none slots = 0
  resumed (some bonds) slots = elim (slot_of a slots) [ some i ↦ 0 | none ↦ logged_in bonds ]

  made_owes :
      (b : Bond) (was_in : Bool) (now : ℕ)
      → slot_owes a (preallocated b was_in now) ≡ (if was_in && bytes_eq b.addr a then 1 else 0)
  made_owes b was_in now = ground arith

  preallocate_loop-le :
      (now : ℕ) (bs : List (Bond × Bool)) (slots : List PresenceSlot)
      → owed_at a (preallocate_loop now bs slots) ≤ owed_at a slots + logged_in bs
  unfolding preallocate_loop
  preallocate_loop-le now [] slots = omega arith
  preallocate_loop-le now ((b, was_in) ∷ bs) slots = elim (Option-cases (slot_of b.addr slots)) [
    | inr (j, there) ↦
        rw (preallocate_loop, there) (omega (arith, preallocate_loop-le now bs slots))
    | inl absent ↦ elim (Option-cases (free_slot slots)) [
      | inl full ↦ rw (preallocate_loop, absent, full) (omega arith)
      | inr (i, free) ↦
          let v = preallocated b was_in now in
          rw (preallocate_loop, absent, free)
            (omega (
              arith,
              preallocate_loop-le now bs (set slots i v),
              owed_at-set a slots i v (free_slot-inside a slots i free),
              made_owes b was_in now,
            ))
    ]
  ]

  -- A slot made for another address leaves the one of this address in its place.
  slot_of-made :
      (slots : List PresenceSlot) (i j : ℕ) (v : PresenceSlot)
      → slot_of a slots ≡ some j
      → free_slot slots ≡ some i
      → bytes_eq v.addr a ≡ false
      → slot_of a (set slots i v) ≡ some j
  unfolding slot_of free_slot
  slot_of-made [] i j v = λ there free other. absurd cc
  slot_of-made (s ∷ slots) i j v = elim (Bool-cases s.used) [
    | inr unused ↦ rw unused (λ there free other. ground (arith, there, free, other))
    | inl used ↦ elim (Option-cases (free_slot slots)) [
      | inl full ↦ rw (used, full) (λ there free other. absurd cc)
      | inr (k, free_k) ↦
          rw (used, free_k)
            (λ there free other.
              let at : i ≡ suc k = ground (arith, free) in
              rw at (elim (Bool-cases (bytes_eq s.addr a)) [
                | inl its ↦ ground (arith, there, used, its)
                | inr others ↦ elim (Option-cases (slot_of a slots)) [
                  | inl absent ↦ absurd (ground (arith, there, others, absent))
                  | inr (m, there_m) ↦
                      let later = slot_of-made slots k m v there_m free_k other in
                      ground (arith, there, used, others, there_m, later)
                ]
              ]))
    ]
  ]

  preallocate_loop-known :
      (now : ℕ) (bs : List (Bond × Bool)) (slots : List PresenceSlot) (j : ℕ)
      → slot_of a slots ≡ some j
      → owed_at a (preallocate_loop now bs slots) ≤ owed_at a slots
  unfolding preallocate_loop
  preallocate_loop-known now [] slots j at = omega arith
  preallocate_loop-known now ((b, was_in) ∷ bs) slots j at =
      elim (Option-cases (slot_of b.addr slots)) [
        | inr (k, there) ↦ rw (preallocate_loop, there) (preallocate_loop-known now bs slots j at)
        | inl absent ↦ elim (Option-cases (free_slot slots)) [
          | inl full ↦ rw (preallocate_loop, absent, full) (omega arith)
          | inr (i, free) ↦ elim (bytes_eq-cases b.addr a) [
            | inl (same, its) ↦ absurd (let e = ap (λ x. slot_of x slots) its in cc)
            | inr (differ, ne) ↦
                let v = preallocated b was_in now in
                let owes_nothing : slot_owes a v ≡ 0 = ground (arith, differ) in
                rw (preallocate_loop, absent, free)
                  (omega (
                    arith,
                    preallocate_loop-known now bs (set slots i v) j
                        (slot_of-made slots i j v at free differ),
                    owed_at-set a slots i v (free_slot-inside a slots i free),
                    owes_nothing,
                  ))
          ]
        ]
      ]

  pub preallocate_bonded-le :
      (now : ℕ) (bonds : Option (List (Bond × Bool))) (slots : List PresenceSlot)
      → owed_at a (preallocate_bonded now bonds slots) ≤ owed_at a slots + resumed bonds slots
  unfolding preallocate_bonded
  preallocate_bonded-le now none slots = omega arith
  preallocate_bonded-le now (some bonds) slots = elim (Option-cases (slot_of a slots)) [
    | inl absent ↦ rw (resumed, absent) (preallocate_loop-le now bonds slots)
    | inr (j, there) ↦
        rw (resumed, there) (omega (arith, preallocate_loop-known now bonds slots j there))
  ]
