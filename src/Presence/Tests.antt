-- ===== src/Presence/Tests.antt =====
-- The presence table at a phone that comes, is probed and goes.
use dingdong.Common.{
  ℕ, ◌+◌, ◌≤◌, ◌≡◌, refl, true, false, not, ◌&&◌, none, some, List, [], ◌∷◌, ◌++◌, ltb,
  if◌then◌else◌, arith, replicate, bytes_eq,
}
use dingdong.Presence.{
  PresenceSlot, Bond, Effect, record_in, record_out, connect, Radio, cleared, no_handle, seen_slot,
  slot_of, bond_addr_lookup, seen_addr,
}
use dingdong.Presence.Tick.{Env, tick, tick_slot, ms_since}
use dingdong.Presence.Alternation.{outs, tick_slot-outs}
use dingdong.Presence.Balance.{ins_of, outs_of, owed_at}
use dingdong.Presence.Runs.{Handled, Runs, resumptions, Runs-outs}
use dingdong.Presence.Unique.{Distinct, seen_addr-Distinct}

abbrev phone : List ℕ
phone = 1 ∷ 2 ∷ 3 ∷ 4 ∷ 5 ∷ 6 ∷ []

abbrev other : List ℕ
other = 9 ∷ 2 ∷ 3 ∷ 4 ∷ 5 ∷ 6 ∷ []

abbrev bonds : List Bond
bonds = record { addr = phone; addr_type = 1 } ∷ []

abbrev slot : PresenceSlot
slot = record cleared { used = true; addr = phone; addr_type = 1; probe_handle = no_handle }

-- 100 seconds on, with the clock known and a timeout of a minute
abbrev env : Env
env = record { now = 100000000; unix = 1700000000; pairing = false; timeout_ms = 60000 }

abbrev radio : Radio
radio = record { disc_cancel = true; connects = true }

abbrev seen_once : PresenceSlot
seen_once = (seen_slot 1000000 1700000000 slot).1

comes_and_goes :
    ((seen_slot 1000000 1700000000 slot).0 ≡ record_in phone ∷ [])
    × ((tick_slot env radio seen_once).0 ≡ record_out phone ∷ [])
unfolding seen_slot tick_slot
comes_and_goes = (refl, refl)

stays_quiet : (tick_slot (record env { now = 11000000 }) radio seen_once).0 ≡ []
unfolding seen_slot tick_slot
stays_quiet = refl

is_probed : (tick_slot (record env { now = 21000000 }) radio seen_once).0 ≡ connect 3 phone ∷ []
unfolding seen_slot tick_slot
is_probed = refl

tick_slot-outs_example : outs (tick_slot env radio seen_once).0 ≡ (
    if seen_once.used
      && (not seen_once.connected
          && (seen_once.present
              && (ltb 0 1700000000
                  && (ltb 60000 (ms_since 100000000 seen_once.last_seen)
                      && not seen_once.probing))))
    then 1
    else 0)
tick_slot-outs_example = tick_slot-outs env radio seen_once

abbrev table : List PresenceSlot
table = slot ∷ replicate 7 cleared

abbrev table_seen : List PresenceSlot
table_seen = (seen_addr (some bonds) 1000000 1700000000 phone table).1

abbrev table_after : List PresenceSlot
table_after = (tick env (λ i. radio) table_seen).1

abbrev visit_effects : List Effect
visit_effects =
    (seen_addr (some bonds) 1000000 1700000000 phone table).0
    ++ ((tick env (λ i. radio) table_seen).0 ++ [])

visit : Runs table visit_effects table_after
visit =
    Runs.then (Handled.sighted (some bonds) 1000000 1700000000 phone table)
      (Runs.then (Handled.ticked env (λ i. radio) table_seen) (Runs.rest table_after))

visit_events : visit_effects ≡ record_in phone ∷ record_out phone ∷ []
unfolding seen_addr tick bytes_eq
visit_events = refl

Runs-outs_example :
    outs_of phone visit_effects + owed_at phone table_after
    ≤ ins_of phone visit_effects + owed_at phone table + resumptions phone visit
Runs-outs_example = Runs-outs phone table table_after visit_effects visit

table-Distinct : Distinct table
table-Distinct = ground arith

seen_addr-Distinct_example :
    Distinct (seen_addr (some bonds) 5 0 other table).1
    × (slot_of other table ≡ none
        → bond_addr_lookup (some bonds) other ≡ none
        → seen_addr (some bonds) 5 0 other table ≡ ([], table))
seen_addr-Distinct_example = seen_addr-Distinct (some bonds) 5 0 other table table-Distinct
