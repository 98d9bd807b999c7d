-- ===== src/Attendance/Listing/Window.antt =====
-- The window of events that components/http_app/dd_http_attendance.c sends: which lines of the log, in
-- what order.
use dingdong.Common.{
  ℕ, suc, ◌+◌, ◌-◌, ◌≡◌, refl, sym, ap, ◌∙◌, Bool, false, Option, List, [], ◌∷◌, ◌++◌, append_assoc,
  append-nil, length, take, drop, drop-all, take-all, ltb, if◌then◌else◌, arith, Bool-cases, inl,
  inr, Err,
}
use dingdong.Storage.Iterate.{visit, visit-ok, visit-fail}
use dingdong.Attendance.{comma, LogLine}
use dingdong.Attendance.Listing.{ListCtx, passes, events_iter_cb}

-- Lines with commas between; `first` is whether nothing stands in front.
abbrev pub commas : Bool → List (List ℕ) → List ℕ
commas first [] = []
commas first (line ∷ lines) = (if first then [] else comma ∷ []) ++ (line ++ commas false lines)

-- At most `limit` lines, and all of them where the limit is 0; `emitted` are sent already.
abbrev pub limited : ℕ → ℕ → List (List ℕ) → List (List ℕ)
limited limit emitted lines = if ltb 0 limit then take (limit - emitted) lines else lines

module _ (parse : List ℕ → Option LogLine) where
  -- The lines that pass the filters.
  abbrev pub passing : ℕ → ℕ → ℕ → List (List ℕ) → List (List ℕ)
  passing from_ts to_ts worker_id [] = []
  passing from_ts to_ts worker_id (line ∷ lines) =
      if passes parse from_ts to_ts worker_id line
      then line ∷ passing from_ts to_ts worker_id lines
      else passing from_ts to_ts worker_id lines

  -- The window of a context in the lines that are left.
  abbrev pub window : ListCtx → List (List ℕ) → List (List ℕ)
  window c lines =
      limited c.limit c.emitted
        (drop (c.offset - c.skipped) (passing c.from_ts c.to_ts c.worker_id lines))

  abbrev skipped : ListCtx → ListCtx
  skipped c = record c { skipped = c.skipped + 1 }

  abbrev emitted : List ℕ → ListCtx → ListCtx
  emitted line c = record c {
    sent = c.sent ++ ((if c.first then [] else comma ∷ []) ++ line);
    first = false;
    emitted = c.emitted + 1;
  }

  -- What a line does: it is passed over, skipped, sent, or ends the listing.
  data Outcome (line : List ℕ) (lines : List (List ℕ)) (c : ListCtx) : Type 0 where
    over :
        events_iter_cb parse line c ≡ (Err.ok, c)
        → window c (line ∷ lines) ≡ window c lines
        → Outcome line lines c
    skip :
        events_iter_cb parse line c ≡ (Err.ok, skipped c)
        → window c (line ∷ lines) ≡ window (skipped c) lines
        → Outcome line lines c
    send :
        events_iter_cb parse line c ≡ (Err.ok, emitted line c)
        → window c (line ∷ lines) ≡ line ∷ window (emitted line c) lines
        → Outcome line lines c
    full :
        events_iter_cb parse line c ≡ (Err.fail, c)
        → window c (line ∷ lines) ≡ []
        → Outcome line lines c

  outcome : (line : List ℕ) (lines : List (List ℕ)) (c : ListCtx) → Outcome line lines c
  unfolding events_iter_cb
  outcome line lines c =
      let ms = passing c.from_ts c.to_ts c.worker_id lines in
      elim (Bool-cases (passes parse c.from_ts c.to_ts c.worker_id line)) [
        | inr fails ↦ Outcome.over (rw (fails, events_iter_cb) refl) (rw fails refl)
        | inl passed ↦ elim (Bool-cases (ltb c.skipped c.offset)) [
          | inl early ↦
              let left : c.offset - c.skipped ≡ suc (c.offset - (c.skipped + 1)) = ground arith in
              Outcome.skip (rw (passed, early, events_iter_cb) refl) (rw (passed, left) refl)
          | inr due ↦
              let none_left : c.offset - c.skipped ≡ 0 = ground arith in
              elim (Bool-cases (ltb 0 c.limit)) [
                | inr unlimited ↦
                    Outcome.send (rw (passed, due, unlimited, events_iter_cb) refl)
                      (rw (passed, none_left, unlimited) refl)
                | inl limit ↦ elim (Bool-cases (ltb c.emitted c.limit)) [
                  | inl room ↦
                      let left : c.limit - c.emitted ≡ suc (c.limit - (c.emitted + 1)) =
                        ground arith in
                      Outcome.send (rw (passed, due, limit, room, events_iter_cb) refl)
                        (rw (passed, none_left, limit, left) refl)
                  | inr reached ↦
                      let left : c.limit - c.emitted ≡ 0 = ground arith in
                      Outcome.full (rw (passed, due, limit, reached, events_iter_cb) refl)
                        (rw (passed, none_left, limit, left) refl)
                ]
              ]
        ]
      ]

  window-nil : (c : ListCtx) → window c [] ≡ []
  window-nil c = elim (Bool-cases (ltb 0 c.limit)) [
    | inl limit ↦ rw limit (ap (λ l. take (c.limit - c.emitted) l) none_left ∙ take-nil)
    | inr unlimited ↦ rw unlimited none_left
  ]
    where
      none_left : drop (c.offset - c.skipped) (passing c.from_ts c.to_ts c.worker_id []) ≡ []
      none_left = drop-all (c.offset - c.skipped) [] (omega arith)

      take-nil : take {A = List ℕ} (c.limit - c.emitted) [] ≡ []
      take-nil = take-all (c.limit - c.emitted) [] (omega arith)

  -- What a listing of these lines is, from a context on.
  abbrev Lists : ListCtx → List (List ℕ) → Err × ListCtx → Type 0
  Lists c lines r =
      (r.1.sent ≡ c.sent ++ commas c.first (window c lines))
      × (r.1.emitted ≡ c.emitted + length (window c lines))

  -- A listing sends the lines of its window in order, with commas between, and counts them.
  pub visit-window :
      (lines : List (List ℕ)) (c : ListCtx) → Lists c lines (visit (events_iter_cb parse) lines c)
  unfolding visit
  visit-window [] c = rw (window-nil c) (sym (append-nil c.sent), omega arith)
  visit-window (line ∷ lines) c = elim (outcome line lines c) [
    | Outcome.over e w ↦
        rw (visit-ok (events_iter_cb parse) line lines c c e, w) (visit-window lines c)
    | Outcome.skip e w ↦
        rw (visit-ok (events_iter_cb parse) line lines c (skipped c) e, w)
          (visit-window lines (skipped c))
    | Outcome.send e w ↦
        let rest = visit-window lines (emitted line c) in
        rw (visit-ok (events_iter_cb parse) line lines c (emitted line c) e, w)
          (
            rest.0
                ∙ append_assoc c.sent ((if c.first then [] else comma ∷ []) ++ line) _
                ∙ ap (λ r. c.sent ++ r) (append_assoc (if c.first then [] else comma ∷ []) line _),
            omega (arith, rest.1),
          )
    | Outcome.full e w ↦
        rw (visit-fail (events_iter_cb parse) line lines c c e, w)
          (sym (append-nil c.sent), omega arith)
  ]
