-- ===== src/Attendance/Visits.antt =====
-- The paired view of components/http_app/dd_http_attendance.c, which makes a segment of each arrival
-- and the departure that follows. A slot that is not taken is one whose in_ts is 0, as in the code; addr and
-- has_addr are one option. Segments are kept in the order in which they are sent.
pub mod Sent
pub mod Slots
pub mod Worker
pub mod Paired
mod Tests
use dingdong.Common.{
  ℕ, suc, ◌+◌, ◌/◌, ◌%◌, ◌^◌, Bool, true, false, not, ◌&&◌, Option, none, some, List, [], ◌∷◌, ◌++◌,
  set, get_or, take, replicate, ltb, ◌==◌, if◌then◌else◌, Err, bytes_eq, codes,
}
use dingdong.Util.{scan_mac}
use dingdong.Storage.{Store, event_iter}
use dingdong.Attendance.{same_addr, worker_of, addr_of, LogLine, or_zero, or_text, out_of_range}

-- PAIR_MAX_OPEN
abbrev pub pair_max_open : ℕ
pair_max_open = 16

-- pair_open_t
pub record Open : Type 0 where
  pub worker_id : ℕ
  pub addr : Option (List ℕ)
  pub in_ts : ℕ
  pub in_mono : ℕ
  pub in_src : List ℕ

abbrev pub no_visit : Open
no_visit = record { worker_id = 0; addr = none; in_ts = 0; in_mono = 0; in_src = [] }

-- The arguments of emit_segment: the visit, and the time and source of its end; `none` is an open segment.
pub record Segment : Type 0 where
  pub visit : Open
  pub out : Option (ℕ × List ℕ)

-- pair_ctx_t, without what is sent for a segment, which is in Sent
pub record PairCtx : Type 0 where
  pub from_ts : ℕ
  pub to_ts : ℕ
  pub opens : List Open
  pub segments : List Segment

-- The tests of find_open_slot for one slot.
unfoldable pub is_visit_of : ℕ → Option (List ℕ) → Open → Bool
is_visit_of worker_id addr o =
    if o.in_ts == 0
    then false
    else if not (worker_id == 0) && (o.worker_id == worker_id)
    then true
    else (worker_id == 0) && same_addr o.addr addr

abbrev pub is_empty : Open → Bool
is_empty o = o.in_ts == 0

-- The index of the first slot that passes a test: the loops of find_open_slot and find_free_slot.
unfoldable pub first_slot : (Open → Bool) → List Open → Option ℕ
first_slot p [] = none
first_slot p (o ∷ os) =
    if p o then some 0 else elim (first_slot p os) [ none ↦ none | some i ↦ some (suc i) ]

unfoldable pub find_open_slot : List Open → ℕ → Option (List ℕ) → Option ℕ
unfolding first_slot
find_open_slot opens worker_id addr = first_slot (is_visit_of worker_id addr) opens

unfoldable pub find_free_slot : List Open → Option ℕ
unfolding first_slot
find_free_slot opens = first_slot is_empty opens

-- `for (int i = 1; ...) if (opens[i].in_ts < opens[slot].in_ts) slot = i;`, from slot `i` on
unfoldable pub oldest_loop : List Open → ℕ → ℕ → ℕ → ℕ
oldest_loop [] i slot best = slot
oldest_loop (o ∷ os) i slot best =
    oldest_loop os (i + 1) (if ltb o.in_ts best then i else slot)
      (if ltb o.in_ts best then o.in_ts else best)

unfoldable pub oldest_slot : List Open → ℕ
unfolding oldest_loop
oldest_slot [] = 0
oldest_slot (o ∷ os) = oldest_loop os 1 0 o.in_ts

-- Sending a segment for the visit of a slot and clearing the slot, where there is one.
unfoldable pub end_visit : Option ℕ → Option (ℕ × List ℕ) → PairCtx → PairCtx
end_visit none out c = c
end_visit (some i) out c = record c {
  opens = set c.opens i no_visit;
  segments = c.segments ++ (record { visit = get_or c.opens i no_visit; out = out } ∷ []);
}

-- The slot that a new visit goes to: a free one, or else the one that came in first.
unfoldable pub slot_for : List Open → ℕ
unfolding find_free_slot oldest_slot
slot_for opens = elim (find_free_slot opens) [ none ↦ oldest_slot opens | some i ↦ i ]

-- `ts > 0 ? ts : mono / 1000000`
abbrev pub stamp : ℕ → ℕ → ℕ
stamp ts mono = if ltb 0 ts then ts else mono / 1000000

-- The branches of paired_iter_cb for an arrival and for a departure.
unfoldable pub arrive : Open → PairCtx → PairCtx
unfolding end_visit slot_for find_open_slot
arrive visit c =
    let c' = end_visit (find_open_slot c.opens visit.worker_id visit.addr) none c in
    record c' { opens = set c'.opens (slot_for c'.opens) visit }

unfoldable pub depart : ℕ → Option (List ℕ) → ℕ → List ℕ → PairCtx → PairCtx
unfolding end_visit find_open_slot
depart worker_id addr out_ts src c =
    end_visit (find_open_slot c.opens worker_id addr) (some (out_ts, src)) c

abbrev pub visit_of : LogLine → Open
visit_of l = record {
  worker_id = worker_of l;
  addr = addr_of l;
  in_ts = stamp (or_zero l.ts) (or_zero l.mono_us);
  in_mono = or_zero l.mono_us;
  in_src = take 15 (or_text (codes "?") l.src);
}

-- `!cJSON_IsString(type_j) || !cJSON_IsNumber(ts_j)`, and the bounds
abbrev pub counts : ℕ → ℕ → LogLine → Bool
counts from_ts to_ts l = elim l.type [
  | none ↦ false
  | some type ↦ elim l.ts [ none ↦ false | some ts ↦ not (out_of_range from_ts to_ts ts) ]
]

abbrev pub is_in : LogLine → Bool
is_in l = bytes_eq (or_text [] l.type) (codes "in")

-- The part of paired_iter_cb behind the parse.
unfoldable pub pair_line : LogLine → PairCtx → PairCtx
unfolding arrive depart
pair_line l c =
    if not (counts c.from_ts c.to_ts l)
    then c
    else if is_in l
    then arrive (visit_of l) c
    else depart (worker_of l) (addr_of l) (stamp (or_zero l.ts) (or_zero l.mono_us))
        (or_text (codes "?") l.src) c

abbrev pub open_segment : Open → Segment
open_segment o = record { visit = o; out = none }

-- The loop over the slots at the end of events_paired_get and events_export_get.
unfoldable pub left_open : List Open → List Segment
left_open [] = []
left_open (o ∷ os) = if is_empty o then left_open os else open_segment o ∷ left_open os

abbrev pub blank_ctx : ℕ → ℕ → PairCtx
blank_ctx from_ts to_ts = record {
  from_ts = from_ts;
  to_ts = to_ts;
  opens = replicate pair_max_open no_visit;
  segments = [];
}

module _ (parse : List ℕ → Option LogLine) where
  unfoldable pub paired_iter_cb : List ℕ → PairCtx → Err × PairCtx
  unfolding pair_line
  paired_iter_cb line c = elim (parse line) [
    | none ↦ (Err.ok, c)
    | some l ↦ (Err.ok, pair_line l c)
  ]

  -- The segments that events_paired_get sends, with no bounds, and events_export_get in the mode `paired`.
  unfoldable pub paired_segments : Bool → ℕ → ℕ → Store → List Segment
  unfolding paired_iter_cb left_open event_iter
  paired_segments open_in from_ts to_ts store =
      let c = (event_iter open_in (some paired_iter_cb) store (blank_ctx from_ts to_ts)).1 in
      c.segments ++ left_open c.opens
