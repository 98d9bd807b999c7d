-- ===== src/Presence/Alternation.antt =====
-- The order of the IN and OUT events that the presence table of components/ble/dd_ble.c records for a peer.
use dingdong.Common.{
  ℕ, suc, ◌+◌, ◌≤◌, ◌≡◌, refl, ap, Bool, true, false, not, ◌&&◌, List, [], ◌∷◌, ◌++◌, ltb,
  if◌then◌else◌, arith,
}
use dingdong.Presence.{
  PresenceSlot, Effect, record_in, record_out, connect, scan_restart, Radio, seen_slot, probe_start,
}
use dingdong.Presence.Tick.{
  Env, refreshed, caught_up, tick_absent, tick_stale, tick_out, tick_slot, ms_since,
}

abbrev pub ins : List Effect → ℕ
ins [] = 0
ins (record_in a ∷ es) = suc (ins es)
ins (record_out a ∷ es) = ins es
ins (connect t a ∷ es) = ins es
ins (scan_restart n ∷ es) = ins es

abbrev pub outs : List Effect → ℕ
outs [] = 0
outs (record_in a ∷ es) = outs es
outs (record_out a ∷ es) = suc (outs es)
outs (connect t a ∷ es) = outs es
outs (scan_restart n ∷ es) = outs es

abbrev pub owed_if : Bool → ℕ
owed_if b = if b then 1 else 0

-- 1 while an IN is acknowledged that no OUT has closed
abbrev pub owed : PresenceSlot → ℕ
owed s = owed_if s.ack_event

pub ins-append : (es fs : List Effect) → ins (es ++ fs) ≡ ins es + ins fs
ins-append [] fs = omega arith
ins-append (record_in a ∷ es) fs = omega (arith, ins-append es fs)
ins-append (record_out a ∷ es) fs = omega (arith, ins-append es fs)
ins-append (connect t a ∷ es) fs = omega (arith, ins-append es fs)
ins-append (scan_restart n ∷ es) fs = omega (arith, ins-append es fs)

pub outs-append : (es fs : List Effect) → outs (es ++ fs) ≡ outs es + outs fs
outs-append [] fs = omega arith
outs-append (record_in a ∷ es) fs = omega (arith, outs-append es fs)
outs-append (record_out a ∷ es) fs = omega (arith, outs-append es fs)
outs-append (connect t a ∷ es) fs = omega (arith, outs-append es fs)
outs-append (scan_restart n ∷ es) fs = omega (arith, outs-append es fs)

-- A probe records nothing and keeps what decides on events.
record Quiet (r : List Effect × PresenceSlot) (s : PresenceSlot) : Type 0 where
  pub no_ins : ins r.0 ≡ 0
  pub no_outs : outs r.0 ≡ 0
  pub same_ack : r.1.ack_event ≡ s.ack_event

probe_start-Quiet :
    (radio : Radio) (pairing : Bool) (now : ℕ) (s : PresenceSlot)
    → Quiet (probe_start radio pairing now s) s
unfolding probe_start
probe_start-Quiet radio pairing now s = record {
  no_ins = ground arith;
  no_outs = ground arith;
  same_ack = ground arith;
}

quiet : (s : PresenceSlot) → Quiet ([], s) s
quiet s = record { no_ins = refl; no_outs = refl; same_ack = refl }

if_Quiet :
    (b : Bool) (s : PresenceSlot) (x y : List Effect × PresenceSlot)
    → Quiet x s
    → Quiet y s
    → Quiet (if b then x else y) s
if_Quiet true s x y p q = p
if_Quiet false s x y p q = q

tick_absent-Quiet :
    (env : Env) (radio : Radio) (s : PresenceSlot) → Quiet (tick_absent env radio s) s
unfolding tick_absent
tick_absent-Quiet env radio s =
    if_Quiet _ s _ _ (quiet s)
      (if_Quiet _ s _ _ (quiet s) (probe_start-Quiet radio env.pairing env.now s))

tick_stale-Quiet : (env : Env) (radio : Radio) (s : PresenceSlot) → Quiet (tick_stale env radio s) s
unfolding tick_stale
tick_stale-Quiet env radio s =
    if_Quiet _ s _ _ (probe_start-Quiet radio env.pairing env.now s) (quiet s)

-- A step owes no more OUTs than it was owed and records INs.
abbrev pub Balanced : PresenceSlot → List Effect → PresenceSlot → Type 0
Balanced s es t = outs es + owed t ≤ ins es + owed s

caught_up-Balanced :
    (env : Env) (s : PresenceSlot)
    → Balanced s (caught_up env (refreshed env s)).0 (caught_up env (refreshed env s)).1
unfolding caught_up refreshed
caught_up-Balanced env s = ground arith

tick_out-Balanced :
    (env : Env) (since : ℕ) (s : PresenceSlot)
    → Balanced s (tick_out env since s).0 (tick_out env since s).1
unfolding tick_out
tick_out-Balanced env since s = ground arith

if_Balanced :
    (b : Bool) (s : PresenceSlot) (x y : List Effect × PresenceSlot)
    → Balanced s x.0 x.1
    → Balanced s y.0 y.1
    → Balanced s (if b then x else y).0 (if b then x else y).1
if_Balanced true s x y p q = p
if_Balanced false s x y p q = q

owed-eq : (s t : PresenceSlot) → s.ack_event ≡ t.ack_event → owed s ≡ owed t
owed-eq s t e = ap owed_if e

pub tick_slot-Balanced :
    (env : Env) (radio : Radio) (s : PresenceSlot)
    → Balanced s (tick_slot env radio s).0 (tick_slot env radio s).1
unfolding tick_slot
tick_slot-Balanced env radio s = if_Balanced (not s.used) s _ _ (omega arith) (
    if_Balanced s1.connected s (e1, s1) _ first
      (if_Balanced (not s1.present) s (e1 ++ a.0, a.1) (e1 ++ (b.0 ++ c.0), c.1)
        (omega (
          arith,
          first,
          outs-append e1 a.0,
          ins-append e1 a.0,
          qa.no_ins,
          qa.no_outs,
          owed-eq a.1 s1 qa.same_ack,
        ))
        (omega (
          arith,
          first,
          last,
          outs-append e1 (b.0 ++ c.0),
          ins-append e1 (b.0 ++ c.0),
          outs-append b.0 c.0,
          ins-append b.0 c.0,
          qb.no_ins,
          qb.no_outs,
          owed-eq b.1 s1 qb.same_ack,
        ))))
  where
    e1 : List Effect
    e1 = (caught_up env (refreshed env s)).0

    s1 : PresenceSlot
    s1 = (caught_up env (refreshed env s)).1

    a : List Effect × PresenceSlot
    a = tick_absent env radio s1

    b : List Effect × PresenceSlot
    b = tick_stale env radio s1

    c : List Effect × PresenceSlot
    c = tick_out env (ms_since env.now s1.last_seen) b.1

    first : Balanced s e1 s1
    first = caught_up-Balanced env s

    last : Balanced b.1 c.0 c.1
    last = tick_out-Balanced env (ms_since env.now s1.last_seen) b.1

    qa : Quiet a s1
    qa = tick_absent-Quiet env radio s1

    qb : Quiet b s1
    qb = tick_stale-Quiet env radio s1

pub seen_slot-Balanced :
    (now unix : ℕ) (s : PresenceSlot) → Balanced s (seen_slot now unix s).0 (seen_slot now unix s).1
unfolding seen_slot
seen_slot-Balanced now unix s = ground arith

-- A tick records an OUT of a slot, and only one, just where the slot is used, holds no connection, is
-- present, was last seen longer ago than the timeout, has no probe in flight, and the wall clock is known.
pub tick_slot-outs :
    (env : Env) (radio : Radio) (s : PresenceSlot)
    → outs (tick_slot env radio s).0 ≡ (
        if s.used
          && (not s.connected
              && (s.present
                  && (ltb 0 env.unix
                      && (ltb env.timeout_ms (ms_since env.now s.last_seen) && not s.probing))))
        then 1
        else 0)
unfolding tick_slot caught_up refreshed tick_absent tick_stale tick_out probe_start
tick_slot-outs env radio s = ground arith
