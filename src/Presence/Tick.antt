-- ===== src/Presence/Tick.antt =====
-- The tick of the presence table, presence_tick_cb of components/ble/dd_ble.c.
use dingdong.Common.{
  ℕ, ◌+◌, ◌-◌, ◌/◌, Bool, true, false, not, ◌&&◌, ◌||◌, List, [], ◌∷◌, ◌++◌, ltb, leb, ◌==◌,
  if◌then◌else◌,
}
use dingdong.Presence.{
  PresenceSlot, Effect, Radio, probe_start, probe_after_ms, probe_cooldown_ms, reprobe_out_ms,
}

-- What a tick reads besides the slots: the clocks, dd_ble_pairing_active() and s_presence_timeout_ms.
pub record Env : Type 0 where
  pub now : ℕ
  pub unix : ℕ
  pub pairing : Bool
  pub timeout_ms : ℕ

-- A held connection refreshes the slot.
unfoldable pub refreshed : Env → PresenceSlot → PresenceSlot
refreshed env s =
    if not s.connected
    then s
    else if s.present
    then record s { last_seen = env.now }
    else record s { last_seen = env.now; present = true; ack_event = false }

-- The catch-up of an IN.
unfoldable pub caught_up : Env → PresenceSlot → List Effect × PresenceSlot
caught_up env s =
    if s.present && (not s.ack_event && ltb 0 env.unix)
    then (Effect.record_in s.addr ∷ [], record s { ack_event = true })
    else ([], s)

abbrev pub ms_since : ℕ → ℕ → ℕ
ms_since now t = (now - t) / 1000

-- The part of the tick for a slot that is not present.
unfoldable pub tick_absent : Env → Radio → PresenceSlot → List Effect × PresenceSlot
unfolding probe_start
tick_absent env radio s =
    if s.probing || env.pairing
    then ([], s)
    else if not (s.last_probe == 0) && ltb (ms_since env.now s.last_probe) reprobe_out_ms
    then ([], s)
    else probe_start radio env.pairing env.now s

-- The probe before a slot falls off, and then the OUT.
unfoldable pub tick_stale : Env → Radio → PresenceSlot → List Effect × PresenceSlot
unfolding probe_start
tick_stale env radio s =
    let since = ms_since env.now s.last_seen in
    if ltb probe_after_ms since
      && (leb since env.timeout_ms
          && (not s.probing
              && ((s.last_probe == 0) || leb probe_cooldown_ms (ms_since env.now s.last_probe))))
    then probe_start radio env.pairing env.now s
    else ([], s)

unfoldable pub tick_out : Env → ℕ → PresenceSlot → List Effect × PresenceSlot
tick_out env since s =
    if ltb env.timeout_ms since && not s.probing
    then (
      if s.ack_event && ltb 0 env.unix then Effect.record_out s.addr ∷ [] else [],
      record s { present = false; ack_event = false },
    )
    else ([], s)

-- The body of the loop of presence_tick_cb.
unfoldable pub tick_slot : Env → Radio → PresenceSlot → List Effect × PresenceSlot
unfolding refreshed caught_up tick_absent tick_stale tick_out
tick_slot env radio s =
    let (e1, s1) = caught_up env (refreshed env s) in
    let (e2, s2) = tick_absent env radio s1 in
    let (e3, s3) = tick_stale env radio s1 in
    let (e4, s4) = tick_out env (ms_since env.now s1.last_seen) s3 in
    if not s.used
    then ([], s)
    else if s1.connected
    then (e1, s1)
    else if not s1.present
    then (e1 ++ e2, s2)
    else (e1 ++ (e3 ++ e4), s4)

-- presence_tick_cb; `radio` gives the answers for each slot
unfoldable pub tick_loop :
    Env → (ℕ → Radio) → ℕ → List PresenceSlot → List Effect × List PresenceSlot
unfolding tick_slot
tick_loop env radio i [] = ([], [])
tick_loop env radio i (s ∷ slots) =
    let (e, s') = tick_slot env (radio i) s in
    let (es, slots') = tick_loop env radio (i + 1) slots in (e ++ es, s' ∷ slots')

unfoldable pub tick : Env → (ℕ → Radio) → List PresenceSlot → List Effect × List PresenceSlot
unfolding tick_loop
tick env radio slots = tick_loop env radio 0 slots
