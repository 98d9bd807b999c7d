-- ===== src/Attendance/Visits/Worker.antt =====
-- The visits of one worker in the paired view of components/http_app/dd_http_attendance.c, whatever
-- the others do.
use dingdong.Common.{
  ℕ, ◌<◌, ◌≡◌, ◌≢◌, refl, sym, ap, ◌∙◌, true, false, ◌&&◌, Option, none, some, List, [], ◌∷◌, ◌++◌,
  append-nil, drop, map, set, get_or, ◌==◌, if◌then◌else◌, arith, Bool-cases, Option-cases, inl,
  inr, codes,
}
use dingdong.Attendance.{worker_of, addr_of, LogLine, or_zero, or_text}
use dingdong.Attendance.Visits.{
  Open, no_visit, Segment, PairCtx, is_empty, is_visit_of, first_slot, find_open_slot,
  find_free_slot, slot_for, end_visit, arrive, depart, visit_of, stamp, counts, is_in, pair_line,
  open_segment, left_open,
}
use dingdong.Attendance.Visits.Slots.{
  lives, live, is_visit_of-other, is_visit_of-lives, first_slot-some, live-set_other, live-set_own,
  live-none, live-found, first_slot-set_free,
}

-- The visits of one worker as a machine of its own: the visit that is under way, if any.
abbrev pub ended : Option Open → Option (ℕ × List ℕ) → List Segment
ended none out = []
ended (some o) out = record { visit = o; out = out } ∷ []

abbrev pub begun : Open → Option Open
begun o = if is_empty o then none else some o

-- What a line of the worker sends, and the visit that is under way behind it.
abbrev pub next_visit : LogLine → Option Open → List Segment × Option Open
next_visit l v = if is_in l then (ended v none, begun (visit_of l)) else (
  ended v (some (stamp (or_zero l.ts) (or_zero l.mono_us), or_text (codes "?") l.src)),
  none,
)

abbrev pub segments_of : ℕ → ℕ → ℕ → List LogLine → Option Open → List Segment
segments_of w from_ts to_ts [] v = ended v none
segments_of w from_ts to_ts (l ∷ ls) v =
    let skipped = segments_of w from_ts to_ts ls v in
    let taken = (next_visit l v).0 ++ segments_of w from_ts to_ts ls (next_visit l v).1 in
    if counts from_ts to_ts l && (worker_of l == w) then taken else skipped

-- The segments of one worker among those of all.
abbrev pub only : ℕ → List Segment → List Segment
only w [] = []
only w (s ∷ ss) = if s.visit.worker_id == w then s ∷ only w ss else only w ss

pub only-append : (w : ℕ) (xs ys : List Segment) → only w (xs ++ ys) ≡ only w xs ++ only w ys
only-append w [] ys = refl
only-append w (s ∷ ss) ys = elim (Bool-cases (s.visit.worker_id == w)) [
  | inl own ↦ rw own (ap (λ r. s ∷ r) (only-append w ss ys))
  | inr other ↦ rw other (only-append w ss ys)
]

abbrev pub listed : Option Open → List Open
listed none = []
listed (some o) = o ∷ []

module _ (w : ℕ) (pos : 0 < w) where
  -- The worker's own line ends its visit.
  end_visit-own :
      (addr : Option (List ℕ)) (out : Option (ℕ × List ℕ)) (c : PairCtx) (v : Option Open)
      → live w c.opens ≡ listed v
      → let c' = end_visit (find_open_slot c.opens w addr) out c in
        (only w c'.segments ≡ only w c.segments ++ ended v out) × (live w c'.opens ≡ [])
  unfolding end_visit find_open_slot
  end_visit-own addr out c none held =
      elim (Option-cases (first_slot (is_visit_of w addr) c.opens)) [
        | inl no_slot ↦ rw no_slot (sym (append-nil (only w c.segments)), held)
        | inr (i, found) ↦ absurd (let e = sym held ∙ live-found w addr c.opens i pos found in cc)
      ]
  end_visit-own addr out c (some o) held =
      elim (Option-cases (first_slot (is_visit_of w addr) c.opens)) [
        | inl no_slot ↦ absurd (let e = sym held ∙ live-none w addr c.opens pos no_slot in cc)
        | inr (i, found) ↦
            let slot = get_or c.opens i no_visit in
            let e = sym held ∙ live-found w addr c.opens i pos found in
            let head : o ≡ slot = ap (λ (l : List Open). get_or l 0 no_visit) e in
            let tail : [] ≡ live w (set c.opens i no_visit) = ap (λ (l : List Open). drop 1 l) e in
            let mine : lives w slot ≡ true =
              sym (is_visit_of-lives w addr slot pos)
              ∙ (first_slot-some (is_visit_of w addr) c.opens i found).0 in
            let id : (slot.worker_id == w) ≡ true = ground arith in
            rw found (
              only-append w c.segments (record { visit = slot; out = out } ∷ [])
                  ∙ ap (λ r. only w c.segments ++ r)
                      (rw id (ap (λ x. record { visit = x; out = out } ∷ []) (sym head))),
              sym tail,
            )
      ]

  not_own :
      (v : ℕ) (addr : Option (List ℕ)) (o : Open)
      → is_visit_of v addr o ≡ true
      → lives w o ≡ false
      → (o.worker_id == w) ≡ false
  unfolding is_visit_of
  not_own v addr o = elim (Bool-cases (o.in_ts == 0)) [
    | inl free ↦ rw free (λ hit dead. absurd cc)
    | inr taken ↦ rw taken (λ hit dead. dead)
  ]

  -- A line of another worker leaves it alone.
  end_visit-other :
      (v : ℕ) (addr : Option (List ℕ)) (out : Option (ℕ × List ℕ)) (c : PairCtx)
      → v ≢ w
      → (v ≡ 0 → addr ≡ none)
      → let c' = end_visit (find_open_slot c.opens v addr) out c in
        (only w c'.segments ≡ only w c.segments) × (live w c'.opens ≡ live w c.opens)
  unfolding end_visit find_open_slot
  end_visit-other v addr out c ne unnamed =
      elim (Option-cases (first_slot (is_visit_of v addr) c.opens)) [
        | inl no_slot ↦ rw no_slot (refl, refl)
        | inr (i, found) ↦
            let slot = get_or c.opens i no_visit in
            let hit = (first_slot-some (is_visit_of v addr) c.opens i found).0 in
            let not_mine = is_visit_of-other w v addr slot pos ne unnamed hit in
            let id : (slot.worker_id == w) ≡ false = not_own v addr slot hit not_mine in
            rw found (
              only-append w c.segments (record { visit = slot; out = out } ∷ [])
                  ∙ rw id (append-nil (only w c.segments)),
              live-set_other w c.opens i no_visit not_mine (ground arith),
            )
      ]

  slot_for-empty :
      (opens : List Open)
      → find_free_slot opens ≢ none
      → (i : ℕ) × (slot_for opens ≡ i) × (first_slot is_empty opens ≡ some i)
  unfolding slot_for find_free_slot
  slot_for-empty opens room = elim (Option-cases (first_slot is_empty opens)) [
    | inl full ↦ absurd (room full)
    | inr (i, found) ↦ (i, rw (found, slot_for) refl, found)
  ]

  -- Writing the visit that a line begins into a free slot.
  begin-own :
      (o : Open) (opens : List Open)
      → o.worker_id ≡ w
      → find_free_slot opens ≢ none
      → live w opens ≡ []
      → live w (set opens (slot_for opens) o) ≡ listed (begun o)
  begin-own o opens own room empty =
      let (i, chosen, found) = slot_for-empty opens room in
      let at = first_slot-some is_empty opens i found in
      let not_mine : lives w (get_or opens i no_visit) ≡ false = ground arith in
      rw chosen (elim (Bool-cases (is_empty o)) [
        | inl free ↦ rw free (live-set_other w opens i o not_mine (ground arith) ∙ empty)
        | inr taken ↦ rw taken (live-set_own w opens i o at.1 empty (ground arith))
      ])

  begin-other :
      (o : Open) (opens : List Open)
      → o.worker_id ≢ w
      → find_free_slot opens ≢ none
      → live w (set opens (slot_for opens) o) ≡ live w opens
  begin-other o opens ne room =
      let (i, chosen, found) = slot_for-empty opens room in
      let at = first_slot-some is_empty opens i found in
      rw chosen (live-set_other w opens i o (ground arith) (ground arith))

  -- A slot is free also behind the end of a visit.
  end_visit-room :
      (found : Option ℕ) (out : Option (ℕ × List ℕ)) (c : PairCtx)
      → find_free_slot c.opens ≢ none
      → find_free_slot (end_visit found out c).opens ≢ none
  unfolding end_visit find_free_slot
  end_visit-room none out c room = room
  end_visit-room (some i) out c room = first_slot-set_free c.opens i room

  -- Behind a line of another.
  pub pair_line-other :
      (l : LogLine) (c : PairCtx)
      → worker_of l ≢ w
      → (worker_of l ≡ 0 → addr_of l ≡ none)
      → find_free_slot c.opens ≢ none
      → (only w (pair_line l c).segments ≡ only w c.segments)
        × (live w (pair_line l c).opens ≡ live w c.opens)
  unfolding pair_line arrive depart
  pair_line-other l c ne unnamed room = elim (Bool-cases (counts c.from_ts c.to_ts l)) [
    | inr skipped ↦ rw skipped (refl, refl)
    | inl counted ↦ rw counted (elim (Bool-cases (is_in l)) [
      | inl comes ↦
          let done = end_visit-other (worker_of l) (addr_of l) none c ne unnamed in
          rw comes (
            done.0,
            begin-other (visit_of l)
                  (end_visit (find_open_slot c.opens (worker_of l) (addr_of l)) none c).opens ne
                  (end_visit-room (find_open_slot c.opens (worker_of l) (addr_of l)) none c room)
                ∙ done.1,
          )
      | inr goes ↦ rw goes (
          end_visit-other (worker_of l) (addr_of l)
            (some (stamp (or_zero l.ts) (or_zero l.mono_us), or_text (codes "?") l.src)) c ne
            unnamed)
    ])
  ]

  pub left_open-live :
      (opens : List Open) → only w (left_open opens) ≡ map open_segment (live w opens)
  unfolding left_open
  left_open-live [] = refl
  left_open-live (o ∷ os) = elim (Bool-cases (is_empty o)) [
    | inl free ↦ rw free (left_open-live os)
    | inr taken ↦ rw taken (elim (Bool-cases (o.worker_id == w)) [
      | inl own ↦ rw own (ap (λ r. open_segment o ∷ r) (left_open-live os))
      | inr other ↦ rw other (left_open-live os)
    ])
  ]

-- Behind a line of the worker.
pub pair_line-own :
    (l : LogLine) (c : PairCtx) (v : Option Open)
    → 0 < worker_of l
    → counts c.from_ts c.to_ts l ≡ true
    → find_free_slot c.opens ≢ none
    → live (worker_of l) c.opens ≡ listed v
    → (only (worker_of l) (pair_line l c).segments
        ≡ only (worker_of l) c.segments ++ (next_visit l v).0)
      × (live (worker_of l) (pair_line l c).opens ≡ listed (next_visit l v).1)
unfolding pair_line arrive depart
pair_line-own l c v pos counted room held = rw counted (elim (Bool-cases (is_in l)) [
  | inl comes ↦
      let done = end_visit-own (worker_of l) pos (addr_of l) none c v held in
      let found = find_open_slot c.opens (worker_of l) (addr_of l) in
      rw comes (
        done.0,
        begin-own (worker_of l) pos (visit_of l) (end_visit found none c).opens refl
            (end_visit-room (worker_of l) pos found none c room) done.1,
      )
  | inr goes ↦ rw goes (
      end_visit-own (worker_of l) pos (addr_of l)
        (some (stamp (or_zero l.ts) (or_zero l.mono_us), or_text (codes "?") l.src)) c v held)
])
