-- ===== src/Presence/Runs.antt =====
-- Any run of the handlers on the presence table of components/ble/dd_ble.c, seen from one address.
use dingdong.Common.{ℕ, ◌+◌, ◌≤◌, Bool, false, Option, List, [], ◌++◌, arith}
use dingdong.Presence.{PresenceSlot, Effect, Bond, Radio, seen_addr}
use dingdong.Presence.Tick.{Env, tick}
use dingdong.Presence.Links.{
  probe_connected, probe_disconnected, gap_connected, gap_disconnected, reset_events, bond_revoke,
  preallocate_bonded,
}
use dingdong.Presence.Balance.{ins_of, outs_of, owed_at}
use dingdong.Presence.Resumed.{resumed, preallocate_bonded-le}
use dingdong.Presence.Fair.{
  ins_of-append, outs_of-append, at_addr-le, seen_addr-FairTable, tick_loop-FairTable,
  reset_events-le, probe_connected-FairTable, probe_disconnected-FairTable, gap_connected-FairTable,
  bond_revoke-le,
}

-- One handler, with the table before, its effects and the table after.
pub data Handled : List PresenceSlot → List Effect → List PresenceSlot → Type 0 where
  sighted :
      (bonds : Option (List Bond)) (now unix : ℕ) (addr : List ℕ) (slots : List PresenceSlot)
      → Handled slots
          (seen_addr bonds now unix addr slots).0
          (seen_addr bonds now unix addr slots).1
  ticked :
      (env : Env) (radio : ℕ → Radio) (slots : List PresenceSlot)
      → Handled slots (tick env radio slots).0 (tick env radio slots).1
  probed :
      (bonds : Option (List Bond)) (now unix i : ℕ) (outcome : Option ℕ) (slots : List PresenceSlot)
      → Handled slots
          (probe_connected bonds now unix i outcome slots).0
          (probe_connected bonds now unix i outcome slots).1
  probe_dropped :
      (now i handle : ℕ) (slots : List PresenceSlot)
      → Handled slots
          (probe_disconnected now i handle slots).0
          (probe_disconnected now i handle slots).1
  linked :
      (bonds : Option (List Bond)) (now unix : ℕ) (addr : List ℕ) (slots : List PresenceSlot)
      → Handled slots
          (gap_connected bonds now unix addr slots).0
          (gap_connected bonds now unix addr slots).1
  unlinked :
      (now : ℕ) (addr : List ℕ) (slots : List PresenceSlot)
      → Handled slots [] (gap_disconnected now addr slots)
  wiped : (slots : List PresenceSlot) → Handled slots [] (reset_events slots)
  revoked :
      (bonds : List Bond) (deleted : Bool) (links : List (ℕ × List ℕ)) (addr : Option (List ℕ))
      (slots : List PresenceSlot)
      → Handled slots [] (bond_revoke bonds deleted links addr slots).2
  made :
      (now : ℕ) (bonds : Option (List (Bond × Bool))) (slots : List PresenceSlot)
      → Handled slots [] (preallocate_bonded now bonds slots)

-- Handlers one after another, with their effects in order.
pub data Runs : List PresenceSlot → List Effect → List PresenceSlot → Type 0 where
  rest : (slots : List PresenceSlot) → Runs slots [] slots
  then :
      {s t u : List PresenceSlot} {es fs : List Effect}
      → Handled s es t
      → Runs t fs u
      → Runs s (es ++ fs) u

-- The slots that a handler makes for the address as owing the OUT of an IN that stood in the log before.
abbrev resumed_by : {s t : List PresenceSlot} {es : List Effect} → List ℕ → Handled s es t → ℕ
resumed_by a (Handled.made now bonds slots) = resumed a bonds slots
resumed_by a _ = 0

abbrev pub resumptions : {s t : List PresenceSlot} {es : List Effect} → List ℕ → Runs s es t → ℕ
resumptions a (Runs.rest slots) = 0
resumptions a (Runs.then step later) = resumed_by a step + resumptions a later

Handled-Fair :
    (a : List ℕ) (s t : List PresenceSlot) (es : List Effect) (h : Handled s es t)
    → outs_of a es + owed_at a t ≤ ins_of a es + owed_at a s + resumed_by a h
unfolding tick gap_disconnected
Handled-Fair a _ _ _ (Handled.sighted bonds now unix addr slots) =
    omega (arith, seen_addr-FairTable a bonds now unix addr slots)
Handled-Fair a _ _ _ (Handled.ticked env radio slots) =
    omega (arith, tick_loop-FairTable a env radio 0 slots)
Handled-Fair a _ _ _ (Handled.probed bonds now unix i outcome slots) =
    omega (arith, probe_connected-FairTable a bonds now unix i outcome slots)
Handled-Fair a _ _ _ (Handled.probe_dropped now i handle slots) =
    omega (arith, probe_disconnected-FairTable a now i handle slots)
Handled-Fair a _ _ _ (Handled.linked bonds now unix addr slots) =
    omega (arith, gap_connected-FairTable a bonds now unix addr slots)
Handled-Fair a _ _ _ (Handled.unlinked now addr slots) = omega (
  arith,
  at_addr-le a addr (λ s. record s { connected = false; last_seen = now }) slots (λ s. omega arith),
)
Handled-Fair a _ _ _ (Handled.wiped slots) = omega (arith, reset_events-le a slots)
Handled-Fair a _ _ _ (Handled.revoked bonds deleted links addr slots) =
    omega (arith, bond_revoke-le a bonds deleted links addr slots)
Handled-Fair a _ _ _ (Handled.made now bonds slots) =
    omega (arith, preallocate_bonded-le a now bonds slots)

-- In any run of the handlers on the table, for each address the OUTs that are recorded are no more than
-- the INs, with one more for a slot of the address in which an IN was acknowledged at the start, and one less
-- where one still is at the end, and one more for each bond of the address whose newest event in the log is an IN
-- when the slots of the bonds are made while the address has none: no OUT is recorded without an IN that
-- it closes, in the run or before it.
pub Runs-outs :
    (a : List ℕ) (s t : List PresenceSlot) (es : List Effect) (run : Runs s es t)
    → outs_of a es + owed_at a t ≤ ins_of a es + owed_at a s + resumptions a run
Runs-outs a _ _ _ (Runs.rest slots) = omega arith
Runs-outs a _ _ _ (Runs.then {s} {t} {u} {es} {fs} step later) = omega (
  arith,
  Handled-Fair a s t es step,
  Runs-outs a t u fs later,
  ins_of-append a es fs,
  outs_of-append a es fs,
)
