-- ===== src/Events/Newest.antt =====
-- The newest event of a peer, as the fold of components/events/dd_event.c over the log finds it.
use dingdong.Common.{
  ℕ, ◌+◌, ◌≤◌, ◌<◌, ◌≡◌, refl, sym, ap, ◌∙◌, true, false, Option, none, some, Option-cases, ◌&&◌,
  ◌||◌, List, [], ◌∷◌, ltb, ◌==◌, if◌then◌else◌, All, arith, Bool-cases, inl, inr, ◌⊎◌, bytes_eq,
  codes,
}
use mathlib.Core.Path.{subst}
use dingdong.Events.{EventType}
use dingdong.Events.Tracks.{Track, Line, is_newer, update_track}

-- A line is not after the best that a track holds.
abbrev pub NotAfter : Track → Line → Type 0
NotAfter t l = (l.ts < t.best_ts) ⊎ ((l.ts ≡ t.best_ts) × (l.mono ≤ t.best_mono))

abbrev pub type_of : Line → EventType
type_of l = if bytes_eq l.type (codes "in") then EventType.ev_in else EventType.ev_out

-- The track holds this line.
abbrev pub HoldsLine : Track → Line → Type 0
HoldsLine t l =
    (t.found ≡ true) × (l.ts ≡ t.best_ts) × (l.mono ≡ t.best_mono) × (type_of l ≡ t.type)

abbrev pub Stamped : Line → Type 0
Stamped l = 0 < l.ts

NotAfter-trans :
    (t u : Track) (l : Line)
    → NotAfter t l
    → (t.best_ts < u.best_ts) ⊎ ((t.best_ts ≡ u.best_ts) × (t.best_mono ≤ u.best_mono))
    → NotAfter u l
NotAfter-trans t u l p q = ground (arith, p, q)

abbrev Upto : Track → Track → Type 0
Upto t u = (t.best_ts < u.best_ts) ⊎ ((t.best_ts ≡ u.best_ts) × (t.best_mono ≤ u.best_mono))

Upto-trans : (t u v : Track) → Upto t u → Upto u v → Upto t v
Upto-trans t u v p q = ground (arith, p, q)

-- What an update of a track that holds a stamped line does.
record Better (t u : Track) (l : Line) : Type 0 where
  pub not_after : NotAfter u l
  pub upto : Upto t u
  pub found : u.found ≡ true
  pub stamped : 0 < u.best_ts
  pub from : (u ≡ t) ⊎ HoldsLine u l

later_line :
    (l : Line) (t : Track)
    → (ltb t.best_ts l.ts || (l.ts == t.best_ts && ltb t.best_mono l.mono)) ≡ false
    → NotAfter t l
later_line l t h = ground (arith, h)

update_track-Better :
    (idx : ℕ) (l : Line) (t : Track)
    → Stamped l
    → t.found ≡ true
    → 0 < t.best_ts
    → Better t (update_track idx l t) l
unfolding update_track is_newer
update_track-Better idx l t stamped found pos =
    let both : (ltb 0 l.ts && ltb 0 t.best_ts) ≡ true = ground arith in
    elim (Bool-cases (ltb t.best_ts l.ts || (l.ts == t.best_ts && ltb t.best_mono l.mono))) [
      | inl newer ↦
          rw (update_track, is_newer, found, both, newer)
            (record {
              not_after = inr (refl, omega arith);
              upto = ground (arith, newer);
              found = refl;
              stamped = stamped;
              from = inr (refl, refl, refl, refl);
            })
      | inr older ↦
          let stays : is_newer idx l t ≡ false = rw (is_newer, found, both, older) refl in
          rw (update_track, stays)
            (record {
              not_after = later_line l t older;
              upto = inr (refl, omega arith);
              found = found;
              stamped = pos;
              from = inl refl;
            })
    ]

-- A line of the list has the property.
abbrev pub Some : (Line → Type 0) → List Line → Type 0
Some P [] = ⊥
Some P (l ∷ ls) = P l ⊎ Some P ls

Some-found : (u : Track) (ls : List Line) → Some (HoldsLine u) ls → u.found ≡ true
Some-found u [] h = absurd h
Some-found u (l ∷ ls) (inl held) = held.0
Some-found u (l ∷ ls) (inr later) = Some-found u ls later

first_held : (idx : ℕ) (l : Line) (t : Track) → t.found ≡ false → HoldsLine (update_track idx l t) l
unfolding update_track is_newer
first_held idx l t fresh = rw (update_track, is_newer, fresh) (refl, refl, refl, refl)

-- What lines do to a track that holds one.
abbrev Best : List Line → Track → Track → Type 0
Best ls t u =
    All Stamped ls
    → t.found ≡ true
    → 0 < t.best_ts
    → All (NotAfter u) ls × Upto t u × ((u ≡ t) ⊎ Some (HoldsLine u) ls)

Best-next :
    (idx : ℕ) (l : Line) (ls : List Line) (t u : Track)
    → Best ls (update_track idx l t) u
    → Best (l ∷ ls) t u
Best-next idx l ls t u best a found pos =
    let one = update_track-Better idx l t a.0 found pos in
    let (rest, upto, from) = best a.1 one.found one.stamped in
    (
      (NotAfter-trans (update_track idx l t) u l one.not_after upto, rest),
      Upto-trans t (update_track idx l t) u one.upto upto,
      elim from [
        | inr later ↦ inr (inr later)
        | inl same ↦ elim one.from [
          | inl kept ↦ inl (same ∙ kept)
          | inr held ↦ inr (inl (rw same held))
        ]
      ],
    )

-- What a track tells of the lines of its peer: nothing where there are none, and otherwise the times and the
-- type of one of them, with none of them after it.
abbrev pub Newest : List Line → Track → Type 0
Newest [] u = u.found ≡ false
Newest (l ∷ ls) u = (u.found ≡ true) × All (NotAfter u) (l ∷ ls) × Some (HoldsLine u) (l ∷ ls)

-- What lines do to a track that holds nothing.
abbrev Begun : List Line → Track → Track → Type 0
Begun ls t u = t.found ≡ false → All Stamped ls → Newest ls u

Begun-next :
    (idx : ℕ) (l : Line) (ls : List Line) (t u : Track)
    → Best ls (update_track idx l t) u
    → Begun (l ∷ ls) t u
Begun-next idx l ls t u best fresh a =
    let t' = update_track idx l t in
    let held = first_held idx l t fresh in
    let (rest, upto, from) = best a.1 held.0 (let pos = a.0 in omega (arith, pos, held.1)) in
    let first = NotAfter-trans t' u l (inr (held.1, omega (arith, held.2))) upto in
    elim from [
      | inl same ↦ (rw same held.0, (first, rest), inl (rw same held))
      | inr later ↦ (Some-found u ls later, (first, rest), inr later)
    ]

-- The lines of a peer, and what the walk makes of its track, the first of them at the index behind `idx`.
module _ (parse : List ℕ → Option Line) (peer : List ℕ) where
  abbrev pub own : List (List ℕ) → List Line
  own [] = []
  own (line ∷ lines) = elim (parse line) [
    | none ↦ own lines
    | some l ↦ if bytes_eq peer l.peer then l ∷ own lines else own lines
  ]

  abbrev pub line_track : ℕ → List ℕ → Track → Track
  line_track idx line t = elim (parse line) [
    | none ↦ t
    | some l ↦ if bytes_eq peer l.peer then update_track idx l t else t
  ]

  abbrev pub own_track : ℕ → List (List ℕ) → Track → Track
  own_track idx [] t = t
  own_track idx (line ∷ lines) t = own_track (idx + 1) lines (line_track (idx + 1) line t)

  -- A line is one of the peer or is passed over.
  own-cases :
      (idx : ℕ) (line : List ℕ) (lines : List (List ℕ)) (t : Track)
      → ((own (line ∷ lines) ≡ own lines)
          × (own_track idx (line ∷ lines) t ≡ own_track (idx + 1) lines t))
        ⊎ ((l : Line) × (own (line ∷ lines) ≡ l ∷ own lines)
            × (own_track idx (line ∷ lines) t
                ≡ own_track (idx + 1) lines (update_track (idx + 1) l t)))
  own-cases idx line lines t = elim (Option-cases (parse line)) [
    | inl no_json ↦
        let same : line_track (idx + 1) line t ≡ t = rw (line_track, no_json) refl in
        inl (rw (own, no_json) refl, ap (own_track (idx + 1) lines) same)
    | inr (l, parsed) ↦ elim (Bool-cases (bytes_eq peer l.peer)) [
      | inl its ↦
          let new : line_track (idx + 1) line t ≡ update_track (idx + 1) l t =
            rw (line_track, parsed, its) refl in
          inr (l, rw (own, parsed, its) refl, ap (own_track (idx + 1) lines) new)
      | inr others ↦
          let same : line_track (idx + 1) line t ≡ t = rw (line_track, parsed, others) refl in
          inl (rw (own, parsed, others) refl, ap (own_track (idx + 1) lines) same)
    ]
  ]

  own_track-Best :
      (idx : ℕ) (lines : List (List ℕ)) (t : Track) → Best (own lines) t (own_track idx lines t)
  own_track-Best idx [] t = λ a found pos. (tt, inr (refl, omega arith), inl refl)
  own_track-Best idx (line ∷ lines) t = elim (own-cases idx line lines t) [
    | inl (passed, same) ↦
        subst (λ ls. Best ls t (own_track idx (line ∷ lines) t)) (sym passed)
          (subst (Best (own lines) t) (sym same) (own_track-Best (idx + 1) lines t))
    | inr (l, new, same) ↦
        let t' = update_track (idx + 1) l t in
        subst (λ ls. Best ls t (own_track idx (line ∷ lines) t)) (sym new)
          (subst (Best (l ∷ own lines) t) (sym same) (
            Best-next (idx + 1) l (own lines) t (own_track (idx + 1) lines t')
              (own_track-Best (idx + 1) lines t')))
  ]

  pub own_track-Newest :
      (idx : ℕ) (lines : List (List ℕ)) (t : Track) → Begun (own lines) t (own_track idx lines t)
  own_track-Newest idx [] t = λ fresh a. fresh
  own_track-Newest idx (line ∷ lines) t = elim (own-cases idx line lines t) [
    | inl (passed, same) ↦
        subst (λ ls. Begun ls t (own_track idx (line ∷ lines) t)) (sym passed)
          (subst (Begun (own lines) t) (sym same) (own_track-Newest (idx + 1) lines t))
    | inr (l, new, same) ↦
        let t' = update_track (idx + 1) l t in
        subst (λ ls. Begun ls t (own_track idx (line ∷ lines) t)) (sym new)
          (subst (Begun (l ∷ own lines) t) (sym same) (
            Begun-next (idx + 1) l (own lines) t (own_track (idx + 1) lines t')
              (own_track-Best (idx + 1) lines t')))
  ]
