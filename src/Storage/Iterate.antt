-- ===== src/Storage/Iterate.antt =====
-- dd_storage_event_iter of components/storage/dd_storage.c: the callback sees each event once, in order.
use dingdong.Common.{
  ℕ, ◌<◌, ◌≡◌, refl, sym, ap, ◌∙◌, true, false, ◌==◌, none, some, List, [], ◌∷◌, ◌++◌, arith,
  length, All, if◌then◌else◌, Bool-cases, inl, inr, Err, is_ok, Option-cases, ltb, ltb→lt,
}
use mathlib.Core.Path.{subst}
use dingdong.Stdio.{newline, pieces, fgets_all}
use dingdong.Stdio.Lines.{IsLine, ended, join, pieces-line, pieces-full}
use dingdong.Storage.{
  Store, opened, event_iter, event_wipe, Unlink, iter_loop, strip_newline, line_buf_max,
}
use dingdong.Storage.Files.{IsEvent, Holds}
use dingdong.Storage.Rewrites.{no_lines}

module _ {X : Type 0} (cb : List ℕ → X → Err × X) where
  -- The callback on each line in turn, until it answers anything but ESP_OK.
  unfoldable pub visit : List (List ℕ) → X → Err × X
  visit [] x = (Err.ok, x)
  visit (line ∷ lines) x = elim (is_ok (cb line x).0) [
    | true ↦ visit lines (cb line x).1
    | false ↦ cb line x
  ]

  pub visit-ok :
      (line : List ℕ) (lines : List (List ℕ)) (x x' : X)
      → cb line x ≡ (Err.ok, x')
      → visit (line ∷ lines) x ≡ visit lines x'
  unfolding visit
  visit-ok line lines x x' e =
      subst
        (λ (r : Err × X).
          (elim (is_ok (r.0)) [ true ↦ visit lines (r.1) | false ↦ r ]) ≡ visit lines x')
        (sym e) refl

  pub visit-fail :
      (line : List ℕ) (lines : List (List ℕ)) (x x' : X)
      → cb line x ≡ (Err.fail, x')
      → visit (line ∷ lines) x ≡ (Err.fail, x')
  unfolding visit
  visit-fail line lines x x' e =
      subst
        (λ (r : Err × X).
          (elim (is_ok (r.0)) [ true ↦ visit lines (r.1) | false ↦ r ]) ≡ (Err.fail, x'))
        (sym e) refl

  iter_loop-piece :
      (piece line : List ℕ) (ps : List (List ℕ)) (x : X)
      → strip_newline piece ≡ line
      → 0 < length line
      → iter_loop cb (piece ∷ ps) x
        ≡ (if is_ok (cb line x).0 then iter_loop cb ps (cb line x).1 else cb line x)
  unfolding iter_loop
  iter_loop-piece piece line ps x e h =
      let some_text : (length line == 0) ≡ false = ground arith in rw (e, some_text) refl

  iter_loop-newline :
      (ps : List (List ℕ)) (x : X) → iter_loop cb ((newline ∷ []) ∷ ps) x ≡ iter_loop cb ps x
  unfolding iter_loop
  iter_loop-newline ps x = refl

strip_newline-ended : (line : List ℕ) → IsLine line → strip_newline (ended line) ≡ line
unfolding strip_newline
strip_newline-ended [] h = refl
strip_newline-ended (c ∷ []) h = refl
strip_newline-ended (c ∷ d ∷ cs) h = ap (λ r. c ∷ r) (strip_newline-ended (d ∷ cs) h.1)

strip_newline-line : (line : List ℕ) → IsLine line → strip_newline line ≡ line
unfolding strip_newline
strip_newline-line [] h = refl
strip_newline-line (c ∷ []) h = ground arith
strip_newline-line (c ∷ d ∷ cs) h = ap (λ r. c ∷ r) (strip_newline-line (d ∷ cs) h.1)

module _ {X : Type 0} (cb : List ℕ → X → Err × X) where
  -- One line of a file: its piece, or its two pieces where it fills the buffer.
  iter_loop-line :
      (line rest : List ℕ) (x : X)
      → IsEvent line
      → iter_loop cb (fgets_all line_buf_max (line ++ (newline ∷ rest))) x ≡ (
          if is_ok (cb line x).0
          then iter_loop cb (fgets_all line_buf_max rest) (cb line x).1
          else cb line x)
  unfolding fgets_all
  iter_loop-line line rest x ok = elim (Bool-cases (ltb (length line) line_buf_max)) [
    | inl short ↦
        ap (λ ps. iter_loop cb ps x)
          (pieces-line line_buf_max line_buf_max line rest ok.0 (ltb→lt _ _ short))
        ∙ iter_loop-piece cb (ended line) line (pieces line_buf_max line_buf_max rest) x
            (strip_newline-ended line ok.0) ok.1
    | inr full ↦
        ap (λ ps. iter_loop cb ps x)
          (pieces-full line_buf_max line_buf_max line rest ok.0 (ground arith) (omega arith)
            (omega arith))
        ∙ iter_loop-piece cb line line ((newline ∷ []) ∷ pieces line_buf_max line_buf_max rest) x
            (strip_newline-line line ok.0) ok.1
        ∙ ap (λ r. if is_ok (cb line x).0 then r else cb line x)
            (iter_loop-newline cb (pieces line_buf_max line_buf_max rest) (cb line x).1)
  ]

  iter_loop-visit :
      (lines : List (List ℕ)) (x : X)
      → All IsEvent lines
      → iter_loop cb (fgets_all line_buf_max (join lines)) x ≡ visit cb lines x
  unfolding visit iter_loop fgets_all
  iter_loop-visit [] x ok = refl
  iter_loop-visit (line ∷ lines) x ok =
      iter_loop-line line (join lines) x ok.0 ∙ elim (Bool-cases (is_ok (cb line x).0)) [
        | inl go_on ↦ rw (go_on, visit) (iter_loop-visit lines (cb line x).1 ok.1)
        | inr stop ↦ rw (stop, visit) refl
      ]

  -- An iteration that opens the log calls back with each event in order, one call for each event up to 1024 bytes long without its
  -- newline, and stops at the first answer that is not ESP_OK, which it returns.
  pub event_iter-visit :
      (s : Store) (lines : List (List ℕ)) (x : X)
      → Holds s lines
      → event_iter true (some cb) s x ≡ visit cb lines x
  unfolding event_iter opened visit
  event_iter-visit s lines x h = elim (Option-cases s.events) [
    | inl missing ↦ rw (missing, no_lines s lines h missing) refl
    | inr (file, e) ↦ rw e (
        ap (λ f. iter_loop cb (fgets_all line_buf_max f) x) (ground (arith, h.file))
        ∙ iter_loop-visit lines x h.good)
  ]

-- Wiping the log empties it, also where there was no file; an unlink that is refused reports failure and changes
-- nothing.
event_wipe-Holds :
    (s : Store) (lines : List (List ℕ))
    → Holds s lines
    → ((event_wipe Unlink.removed s).0 ≡ Err.ok)
      × Holds (event_wipe Unlink.removed s).1 []
      × (s.events ≡ none
          → (event_wipe Unlink.missing s).0 ≡ Err.ok × Holds (event_wipe Unlink.missing s).1 [])
      × ((event_wipe Unlink.refused s).0 ≡ Err.fail)
      × Holds (event_wipe Unlink.refused s).1 lines
unfolding event_wipe
event_wipe-Holds s lines h = (
  refl,
  record { file = refl; count = refl; good = tt },
  λ e. (refl, record { file = rw e refl; count = refl; good = tt }),
  refl,
  h,
)
