-- ===== src/Events/Each.antt =====
-- The walk of dd_event_latest_for_peers of components/events/dd_event.c, one track at a time.
use dingdong.Common.{
  ℕ, ◌+◌, ◌≡◌, refl, sym, ap, ◌∙◌, true, false, Option, none, some, List, [], ◌∷◌, if◌then◌else◌,
  All, Bool-cases, Option-cases, inl, inr, bytes_eq, bytes_eq-cases, Err,
}
use mathlib.Core.Path.{subst}
use dingdong.Storage.Iterate.{visit, visit-ok}
use dingdong.Events.Tracks.{Track, Line, Bulk, is_newer, update_track, update_tracks, bulk_iter_cb}
use dingdong.Events.Newest.{line_track, own_track}

update_track-addr : (idx : ℕ) (l : Line) (t : Track) → (update_track idx l t).addr_str ≡ t.addr_str
unfolding update_track
update_track-addr idx l t = elim (Bool-cases (is_newer idx l t)) [
  | inl newer ↦ rw newer refl
  | inr older ↦ rw older refl
]

-- The texts of the addresses differ from one another.
abbrev pub Apart : List Track → Type 0
Apart [] = Unit {0}
Apart (t ∷ ts) = All (λ u. bytes_eq t.addr_str u.addr_str ≡ false) ts × Apart ts

module _ (parse : List ℕ → Option Line) where
  -- Each track by itself.
  abbrev pub each : (Track → Track) → List Track → List Track
  each f [] = []
  each f (t ∷ ts) = f t ∷ each f ts

  abbrev one_line : ℕ → List ℕ → Track → Track
  one_line idx line t = line_track parse t.addr_str idx line t

  -- A line of the peer of one track is none of the others'.
  untouched :
      (idx : ℕ) (l : Line) (t : Track) (ts : List Track)
      → All (λ u. bytes_eq t.addr_str u.addr_str ≡ false) ts
      → bytes_eq t.addr_str l.peer ≡ true
      → each (λ u. if bytes_eq u.addr_str l.peer then update_track idx l u else u) ts ≡ ts
  untouched idx l t [] apart hit = refl
  untouched idx l t (u ∷ ts) apart hit = elim (bytes_eq-cases u.addr_str l.peer) [
    | inl (its, same) ↦
        absurd (
          let e = subst (λ p. bytes_eq t.addr_str p ≡ true) (sym same) hit in
          let ne = apart.0 in cc)
    | inr (others, ne) ↦ rw others (ap (λ r. u ∷ r) (untouched idx l t ts apart.1 hit))
  ]

  update_tracks-each :
      (idx : ℕ) (l : Line) (ts : List Track)
      → Apart ts
      → update_tracks idx l ts
        ≡ each (λ u. if bytes_eq u.addr_str l.peer then update_track idx l u else u) ts
  unfolding update_tracks
  update_tracks-each idx l [] apart = refl
  update_tracks-each idx l (t ∷ ts) apart = elim (Bool-cases (bytes_eq t.addr_str l.peer)) [
    | inl hit ↦ rw hit (ap (λ r. update_track idx l t ∷ r) (sym (untouched idx l t ts apart.0 hit)))
    | inr miss ↦ rw miss (ap (λ r. t ∷ r) (update_tracks-each idx l ts apart.1))
  ]

  one_line-addr :
      (idx : ℕ) (line : List ℕ) (t : Track) → (one_line idx line t).addr_str ≡ t.addr_str
  one_line-addr idx line t = elim (Option-cases (parse line)) [
    | inl no_json ↦ rw (one_line, line_track, no_json) refl
    | inr (l, parsed) ↦ elim (Bool-cases (bytes_eq t.addr_str l.peer)) [
      | inl its ↦ rw (one_line, line_track, parsed, its) (update_track-addr idx l t)
      | inr others ↦ rw (one_line, line_track, parsed, others) refl
    ]
  ]

  All-each :
      (idx : ℕ) (line a b : List ℕ) (ts : List Track)
      → a ≡ b
      → All (λ u. bytes_eq b u.addr_str ≡ false) ts
      → All (λ u. bytes_eq a u.addr_str ≡ false) (each (one_line idx line) ts)
  All-each idx line a b [] e h = tt
  All-each idx line a b (u ∷ ts) e h = (
    ap (λ x. bytes_eq x (one_line idx line u).addr_str) e
        ∙ ap (bytes_eq b) (one_line-addr idx line u)
        ∙ h.0,
    All-each idx line a b ts e h.1,
  )

  Apart-each :
      (idx : ℕ) (line : List ℕ) (ts : List Track) → Apart ts → Apart (each (one_line idx line) ts)
  Apart-each idx line [] apart = tt
  Apart-each idx line (t ∷ ts) apart = (
    All-each idx line (one_line idx line t).addr_str t.addr_str ts (one_line-addr idx line t)
        apart.0,
    Apart-each idx line ts apart.1,
  )

  bulk_iter_cb-each :
      (line : List ℕ) (c : Bulk)
      → Apart c.tracks
      → bulk_iter_cb parse line c ≡ (
        Err.ok,
        record { tracks = each (one_line (c.cur_idx + 1) line) c.tracks; cur_idx = c.cur_idx + 1 },
      )
  unfolding bulk_iter_cb
  bulk_iter_cb-each line c apart = elim (Option-cases (parse line)) [
    | inl no_json ↦
        rw (bulk_iter_cb, no_json)
          (ap (λ (ts : List Track). (Err.ok, record { tracks = ts; cur_idx = c.cur_idx + 1 }))
            (sym (each-none c.tracks no_json)))
    | inr (l, parsed) ↦
        rw (bulk_iter_cb, parsed)
          (ap (λ (ts : List Track). (Err.ok, record { tracks = ts; cur_idx = c.cur_idx + 1 }))
            (update_tracks-each (c.cur_idx + 1) l c.tracks apart
              ∙ sym (each-some l c.tracks parsed)))
  ]
    where
      each-none :
          (ts : List Track) → parse line ≡ none → each (one_line (c.cur_idx + 1) line) ts ≡ ts
      each-none [] e = refl
      each-none (t ∷ ts) e = rw (one_line, line_track, e) (ap (λ r. t ∷ r) (each-none ts e))

      each-some :
          (l : Line) (ts : List Track)
          → parse line ≡ some l
          → each (one_line (c.cur_idx + 1) line) ts
            ≡ each
                (λ u. if bytes_eq u.addr_str l.peer then update_track (c.cur_idx + 1) l u else u)
                ts
      each-some l [] e = refl
      each-some l (t ∷ ts) e =
          rw (one_line, line_track, e)
            (ap
              (λ r.
                (if bytes_eq t.addr_str l.peer then update_track (c.cur_idx + 1) l t else t) ∷ r)
              (each-some l ts e))

  -- The tracks at the end of the walk, each by itself.
  abbrev pub at_end : ℕ → List (List ℕ) → List Track → List Track
  at_end idx lines = each (λ t. own_track parse t.addr_str idx lines t)

  at_end-next :
      (idx : ℕ) (line : List ℕ) (lines : List (List ℕ)) (ts : List Track)
      → at_end (idx + 1) lines (each (one_line (idx + 1) line) ts) ≡ at_end idx (line ∷ lines) ts
  at_end-next idx line lines [] = refl
  at_end-next idx line lines (t ∷ ts) =
      let t' = one_line (idx + 1) line t in
      ap
        (λ a.
          own_track parse a (idx + 1) lines t'
          ∷ at_end (idx + 1) lines (each (one_line (idx + 1) line) ts))
        (one_line-addr (idx + 1) line t)
      ∙ ap (λ r. own_track parse t.addr_str (idx + 1) lines t' ∷ r) (at_end-next idx line lines ts)

  at_end-nil : (idx : ℕ) (ts : List Track) → at_end idx [] ts ≡ ts
  at_end-nil idx [] = refl
  at_end-nil idx (t ∷ ts) = ap (λ r. t ∷ r) (at_end-nil idx ts)

  pub visit-at_end :
      (lines : List (List ℕ)) (c : Bulk)
      → Apart c.tracks
      → (visit (bulk_iter_cb parse) lines c).1.tracks ≡ at_end c.cur_idx lines c.tracks
  unfolding visit
  visit-at_end [] c apart = sym (at_end-nil c.cur_idx c.tracks)
  visit-at_end (line ∷ lines) c apart =
      let c' : Bulk = record {
        tracks = each (one_line (c.cur_idx + 1) line) c.tracks;
        cur_idx = c.cur_idx + 1;
      } in
      ap (λ (r : Err × Bulk). r.1.tracks)
        (visit-ok (bulk_iter_cb parse) line lines c c' (bulk_iter_cb-each line c apart))
      ∙ visit-at_end lines c' (Apart-each (c.cur_idx + 1) line c.tracks apart)
      ∙ at_end-next c.cur_idx line lines c.tracks
