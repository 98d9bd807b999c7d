-- ===== src/Attendance/Lines.antt =====
-- The lines of the event log as the callbacks of components/http_app/dd_http_attendance.c read them: one that
-- cJSON does not parse is passed over, the others are taken in turn.
use dingdong.Common.{
  ℕ, ◌≡◌, refl, ap, ◌∙◌, true, Option, none, some, List, [], ◌∷◌, Option-cases, inl, inr, Err,
}
use dingdong.Storage.{Store, event_iter}
use dingdong.Storage.Files.{Holds}
use dingdong.Storage.Iterate.{visit, visit-ok, event_iter-visit}
use dingdong.Attendance.{LogLine}

abbrev pub lines_of : (List ℕ → Option LogLine) → List (List ℕ) → List LogLine
lines_of parse [] = []
lines_of parse (line ∷ lines) = elim (parse line) [
  | none ↦ lines_of parse lines
  | some l ↦ l ∷ lines_of parse lines
]

module _ {X : Type 0} where
  -- Each line in turn, from the oldest.
  abbrev pub over : (LogLine → X → X) → List LogLine → X → X
  over f [] x = x
  over f (l ∷ ls) x = over f ls (f l x)

  -- A callback that takes the lines by f and never stops.
  abbrev pub Takes : (List ℕ → Option LogLine) → (LogLine → X → X) → (List ℕ → X → Err × X) → Type 0
  Takes parse f cb =
      (line : List ℕ) (x : X)
      → cb line x ≡ (elim (parse line) [ none ↦ (Err.ok, x) | some l ↦ (Err.ok, f l x) ])

  module _ (parse : List ℕ → Option LogLine) (f : LogLine → X → X) (cb : List ℕ → X → Err × X)
      (takes : Takes parse f cb) where
    visit-over :
        (lines : List (List ℕ)) (x : X)
        → visit cb lines x ≡ (Err.ok, over f (lines_of parse lines) x)
    unfolding visit
    visit-over [] x = refl
    visit-over (line ∷ lines) x = elim (Option-cases (parse line)) [
      | inl no_json ↦
          let passed : cb line x ≡ (Err.ok, x) = takes line x ∙ rw no_json refl in
          visit-ok cb line lines x x passed ∙ visit-over lines x ∙ rw (no_json, lines_of) refl
      | inr (l, parsed) ↦
          let taken : cb line x ≡ (Err.ok, f l x) = takes line x ∙ rw parsed refl in
          visit-ok cb line lines x (f l x) taken
          ∙ visit-over lines (f l x)
          ∙ rw (parsed, lines_of) refl
    ]

    pub event_iter-over :
        (store : Store) (lines : List (List ℕ)) (x : X)
        → Holds store lines
        → (event_iter true (some cb) store x).1 ≡ over f (lines_of parse lines) x
    event_iter-over store lines x holds =
        ap (λ (r : Err × X). r.1) (event_iter-visit cb store lines x holds ∙ visit-over lines x)
