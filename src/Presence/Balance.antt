-- ===== src/Presence/Balance.antt =====
-- The IN and OUT events of one address over the whole presence table of components/ble/dd_ble.c.
use dingdong.Common.{
  ℕ, ◌+◌, ◌≤◌, ◌≡◌, refl, ◌∙◌, Bool, true, false, not, ◌&&◌, List, [], ◌∷◌, ◌++◌, ltb,
  if◌then◌else◌, arith, Bool-cases, inl, inr, bytes_eq,
}
use mathlib.Core.Path.{subst}
use dingdong.Presence.{
  PresenceSlot, Effect, record_in, record_out, connect, scan_restart, Radio, seen_slot, probe_start,
}
use dingdong.Presence.Tick.{
  Env, refreshed, caught_up, tick_absent, tick_stale, tick_out, tick_slot, ms_since,
}
use dingdong.Presence.Alternation.{ins, outs, owed}

-- Every event that is recorded is one of the address.
abbrev pub About : List ℕ → List Effect → Type 0
About addr [] = Unit
About addr (record_in b ∷ es) = (b ≡ addr) × About addr es
About addr (record_out b ∷ es) = (b ≡ addr) × About addr es
About addr (connect t b ∷ es) = About addr es
About addr (scan_restart n ∷ es) = About addr es

About-append :
    (addr : List ℕ) (es fs : List Effect) → About addr es → About addr fs → About addr (es ++ fs)
About-append addr [] fs p q = q
About-append addr (record_in b ∷ es) fs p q = (p.0, About-append addr es fs p.1 q)
About-append addr (record_out b ∷ es) fs p q = (p.0, About-append addr es fs p.1 q)
About-append addr (connect t b ∷ es) fs p q = About-append addr es fs p q
About-append addr (scan_restart n ∷ es) fs p q = About-append addr es fs p q

-- What a handler does to a slot keeps its address and records events of that address.
pub record Local (s : PresenceSlot) (r : List Effect × PresenceSlot) : Type 0 where
  pub about : About s.addr r.0
  pub same : r.1.addr ≡ s.addr

if_Local :
    (b : Bool) (s : PresenceSlot) (x y : List Effect × PresenceSlot)
    → Local s x
    → Local s y
    → Local s (if b then x else y)
if_Local true s x y p q = p
if_Local false s x y p q = q

still : (s : PresenceSlot) → Local s ([], s)
still s = record { about = tt; same = refl }

probe_start-Local :
    (radio : Radio) (pairing : Bool) (now : ℕ) (s : PresenceSlot)
    → Local s (probe_start radio pairing now s)
unfolding probe_start
probe_start-Local radio pairing now s = if_Local s.probing s _ _ (still s) (
    if_Local pairing s _ _ (still s) (
      if_Local (not radio.disc_cancel) s _ _ (record { about = tt; same = refl })
        (if_Local (not radio.connects) s _ _ (record { about = tt; same = refl })
          (record { about = tt; same = refl }))))

tick_absent-Local :
    (env : Env) (radio : Radio) (s : PresenceSlot) → Local s (tick_absent env radio s)
unfolding tick_absent
tick_absent-Local env radio s =
    if_Local _ s _ _ (still s)
      (if_Local _ s _ _ (still s) (probe_start-Local radio env.pairing env.now s))

tick_stale-Local : (env : Env) (radio : Radio) (s : PresenceSlot) → Local s (tick_stale env radio s)
unfolding tick_stale
tick_stale-Local env radio s =
    if_Local _ s _ _ (probe_start-Local radio env.pairing env.now s) (still s)

out_About : (b : Bool) (addr : List ℕ) → About addr (if b then record_out addr ∷ [] else [])
out_About true addr = (refl, tt)
out_About false addr = tt

tick_out-Local : (env : Env) (since : ℕ) (s : PresenceSlot) → Local s (tick_out env since s)
unfolding tick_out
tick_out-Local env since s =
    if_Local (ltb env.timeout_ms since && not s.probing) s _ _
      (record { about = out_About (s.ack_event && ltb 0 env.unix) s.addr; same = refl }) (still s)

caught_up-Local : (env : Env) (s : PresenceSlot) → Local s (caught_up env s)
unfolding caught_up
caught_up-Local env s =
    if_Local (s.present && (not s.ack_event && ltb 0 env.unix)) s _ _
      (record { about = (refl, tt); same = refl }) (still s)

refreshed-addr : (env : Env) (s : PresenceSlot) → (refreshed env s).addr ≡ s.addr
unfolding refreshed
refreshed-addr env s = ground arith

Local-then :
    (s : PresenceSlot) (x y : List Effect × PresenceSlot)
    → Local s x
    → Local x.1 y
    → Local s (x.0 ++ y.0, y.1)
Local-then s x y p q = record {
  about = About-append s.addr x.0 y.0 p.about (subst (λ (a : List ℕ). About a y.0) p.same q.about);
  same = q.same ∙ p.same;
}

first_Local : (env : Env) (s : PresenceSlot) → Local s (caught_up env (refreshed env s))
first_Local env s =
    let inner = caught_up-Local env (refreshed env s) in
    record {
      about =
          subst (λ (a : List ℕ). About a (caught_up env (refreshed env s)).0) (refreshed-addr env s)
            inner.about;
      same = inner.same ∙ refreshed-addr env s;
    }

pub tick_slot-Local :
    (env : Env) (radio : Radio) (s : PresenceSlot) → Local s (tick_slot env radio s)
unfolding tick_slot
tick_slot-Local env radio s =
    let r1 = caught_up env (refreshed env s) in
    let r3 = tick_stale env radio r1.1 in
    let r4 = tick_out env (ms_since env.now r1.1.last_seen) r3.1 in
    if_Local _ s _ _ (still s) (
      if_Local _ s _ _ (first_Local env s) (
        if_Local _ s _ _
          (Local-then s r1 (tick_absent env radio r1.1) (first_Local env s)
            (tick_absent-Local env radio r1.1))
          (Local-then s r1 (r3.0 ++ r4.0, r4.1) (first_Local env s)
            (Local-then r1.1 r3 r4 (tick_stale-Local env radio r1.1)
              (tick_out-Local env (ms_since env.now r1.1.last_seen) r3.1)))))

pub seen_slot-Local : (now unix : ℕ) (s : PresenceSlot) → Local s (seen_slot now unix s)
unfolding seen_slot
seen_slot-Local now unix s =
    if_Local (not s.ack_event && ltb 0 unix) s _ _ (record { about = (refl, tt); same = refl })
      (record { about = tt; same = refl })

-- The events of an address.
abbrev pub ins_of : List ℕ → List Effect → ℕ
ins_of a [] = 0
ins_of a (record_in b ∷ es) = (if bytes_eq b a then 1 else 0) + ins_of a es
ins_of a (record_out b ∷ es) = ins_of a es
ins_of a (connect t b ∷ es) = ins_of a es
ins_of a (scan_restart n ∷ es) = ins_of a es

abbrev pub outs_of : List ℕ → List Effect → ℕ
outs_of a [] = 0
outs_of a (record_in b ∷ es) = outs_of a es
outs_of a (record_out b ∷ es) = (if bytes_eq b a then 1 else 0) + outs_of a es
outs_of a (connect t b ∷ es) = outs_of a es
outs_of a (scan_restart n ∷ es) = outs_of a es

-- The slots of the address in which an IN is acknowledged that no OUT has closed.
abbrev pub slot_owes : List ℕ → PresenceSlot → ℕ
slot_owes a s = if bytes_eq s.addr a then owed s else 0

abbrev pub owed_at : List ℕ → List PresenceSlot → ℕ
owed_at a [] = 0
owed_at a (s ∷ slots) = slot_owes a s + owed_at a slots

events_of-About :
    (a addr : List ℕ) (es : List Effect)
    → About addr es
    → (ins_of a es ≡ (if bytes_eq addr a then ins es else 0))
      × (outs_of a es ≡ (if bytes_eq addr a then outs es else 0))
events_of-About a addr [] p = (ground arith, ground arith)
events_of-About a addr (record_in b ∷ es) p =
    let inner = events_of-About a addr es p.1 in
    rw (p.0) (elim (Bool-cases (bytes_eq addr a)) [
      | inl its ↦ (ground (arith, its, inner.0), ground (arith, its, inner.1))
      | inr others ↦ (ground (arith, others, inner.0), ground (arith, others, inner.1))
    ])
events_of-About a addr (record_out b ∷ es) p =
    let inner = events_of-About a addr es p.1 in
    rw (p.0) (elim (Bool-cases (bytes_eq addr a)) [
      | inl its ↦ (ground (arith, its, inner.0), ground (arith, its, inner.1))
      | inr others ↦ (ground (arith, others, inner.0), ground (arith, others, inner.1))
    ])
events_of-About a addr (connect t b ∷ es) p = events_of-About a addr es p
events_of-About a addr (scan_restart n ∷ es) p = events_of-About a addr es p

-- A change of one slot, seen from an address.
abbrev pub Fair : List ℕ → PresenceSlot → List Effect × PresenceSlot → Type 0
Fair a s r = outs_of a r.0 + slot_owes a r.1 ≤ ins_of a r.0 + slot_owes a s

pub Local-Fair :
    (a : List ℕ) (s : PresenceSlot) (r : List Effect × PresenceSlot)
    → Local s r
    → outs r.0 + owed r.1 ≤ ins r.0 + owed s
    → Fair a s r
Local-Fair a s r l b =
    let (i, o) = events_of-About a s.addr r.0 l.about in
    rw (i, o, l.same)
      (elim (Bool-cases (bytes_eq s.addr a)) [
        | inl its ↦ rw its b
        | inr others ↦ rw others (omega arith)
      ])
