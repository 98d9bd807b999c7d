-- ===== src/Stdio/Lines.antt =====
-- Files that are made of lines: what fgets reads from them, and how newlines count them.
use dingdong.Common.{
  ℕ, zero, suc, ◌+◌, ◌-◌, ◌<◌, ◌≡◌, ◌≢◌, refl, sym, ap, ◌∙◌, true, false, ◌||◌, List, [], ◌∷◌, ◌++◌,
  append_assoc, map, All, arith, length, drop, leb, ◌==◌, drop-append_le, drop-append_ge, drop-all,
  Bool-cases, leb→le, inl, inr,
}
use dingdong.Stdio.{newline, pieces, add_to_piece, fgets_all, skip_line, count_newlines}

-- Text with no newline in it.
abbrev pub IsLine : List ℕ → Type 0
IsLine line = All (λ c. c ≢ newline) line

-- A line as it stands in a file.
abbrev pub ended : List ℕ → List ℕ
ended line = line ++ (newline ∷ [])

-- The file with these lines.
abbrev pub join : List (List ℕ) → List ℕ
join [] = []
join (line ∷ lines) = line ++ (newline ∷ join lines)

abbrev pub concat : List (List ℕ) → List ℕ
concat [] = []
concat (p ∷ ps) = p ++ concat ps

concat-add_to_piece : (c : ℕ) (ps : List (List ℕ)) → concat (add_to_piece c ps) ≡ c ∷ concat ps
concat-add_to_piece c [] = refl
concat-add_to_piece c (p ∷ ps) = refl

-- One byte of a file, which ends its piece or does not.
pieces-last :
    (limit left c : ℕ) (cs : List ℕ)
    → ((c == newline) || leb left 1) ≡ true
    → pieces limit left (c ∷ cs) ≡ (c ∷ []) ∷ pieces limit limit cs
unfolding pieces
pieces-last limit left c cs h = rw (h, pieces) refl

pieces-more :
    (limit left c : ℕ) (cs : List ℕ)
    → ((c == newline) || leb left 1) ≡ false
    → pieces limit left (c ∷ cs) ≡ add_to_piece c (pieces limit (left - 1) cs)
unfolding pieces
pieces-more limit left c cs h = rw (h, pieces) refl

concat-pieces : (limit left : ℕ) (file : List ℕ) → concat (pieces limit left file) ≡ file
unfolding pieces
concat-pieces limit left [] = refl
concat-pieces limit left (c ∷ cs) = elim (Bool-cases ((c == newline) || leb left 1)) [
  | inl last ↦
      rw (pieces-last limit left c cs last) (ap (λ r. c ∷ r) (concat-pieces limit limit cs))
  | inr more ↦ rw (pieces-more limit left c cs more) (
      concat-add_to_piece c (pieces limit (left - 1) cs)
      ∙ ap (λ r. c ∷ r) (concat-pieces limit (left - 1) cs))
]

-- The pieces make up the file, whatever the buffer's size.
pub concat-fgets_all : (limit : ℕ) (file : List ℕ) → concat (fgets_all limit file) ≡ file
unfolding fgets_all
concat-fgets_all limit file = concat-pieces limit limit file

-- A line that fits with its newline is one piece.
pub pieces-line :
    (limit left : ℕ) (line rest : List ℕ)
    → IsLine line
    → length line < left
    → pieces limit left (line ++ (newline ∷ rest)) ≡ ended line ∷ pieces limit limit rest
unfolding pieces
pieces-line limit left [] rest ok h = refl
pieces-line limit left (c ∷ cs) rest ok h =
    let more : ((c == newline) || leb left 1) ≡ false = ground arith in
    pieces-more limit left c (cs ++ (newline ∷ rest)) more
    ∙ (ap (add_to_piece c) (pieces-line limit (left - 1) cs rest ok.1 (omega arith)))

-- A line that fills the buffer is a piece, and its newline another.
pub pieces-full :
    (limit left : ℕ) (line rest : List ℕ)
    → IsLine line
    → length line ≡ left
    → 0 < left
    → 0 < limit
    → pieces limit left (line ++ (newline ∷ rest)) ≡ line ∷ (newline ∷ []) ∷ pieces limit limit rest
unfolding pieces
pieces-full limit left [] rest ok e h p = absurd (omega arith)
pieces-full limit left (c ∷ []) rest ok e h p =
    let last : ((c == newline) || leb left 1) ≡ true = ground arith in
    let next : ((newline == newline) || leb limit 1) ≡ true = refl in
    pieces-last limit left c (newline ∷ rest) last
    ∙ ap (λ r. (c ∷ []) ∷ r) (pieces-last limit limit newline rest next)
pieces-full limit left (c ∷ d ∷ cs) rest ok e h p =
    let more : ((c == newline) || leb left 1) ≡ false = ground arith in
    pieces-more limit left c (d ∷ (cs ++ (newline ∷ rest))) more
    ∙ (ap (add_to_piece c)
        (pieces-full limit (left - 1) (d ∷ cs) rest ok.1 (omega arith) (omega arith) p))

-- Lines that fit, read one by one.
pub fgets_all-join :
    (limit : ℕ) (lines : List (List ℕ))
    → All (λ line. IsLine line × (length line < limit)) lines
    → fgets_all limit (join lines) ≡ map ended lines
unfolding fgets_all pieces
fgets_all-join limit [] ok = refl
fgets_all-join limit (line ∷ lines) ok =
    pieces-line limit limit line (join lines) ok.0.0 ok.0.1
    ∙ ap (λ r. ended line ∷ r) (fgets_all-join limit lines ok.1)

pub count_newlines-append :
    (xs ys : List ℕ) → count_newlines (xs ++ ys) ≡ count_newlines xs + count_newlines ys
unfolding count_newlines
count_newlines-append [] ys = omega arith
count_newlines-append (c ∷ cs) ys = ground (arith, count_newlines-append cs ys)

pub count_newlines-line : (line : List ℕ) → IsLine line → count_newlines line ≡ 0
unfolding count_newlines
count_newlines-line [] h = refl
count_newlines-line (c ∷ cs) h = ground (arith, count_newlines-line cs h.1)

pub count_newlines-join :
    (lines : List (List ℕ)) → All IsLine lines → count_newlines (join lines) ≡ length lines
unfolding count_newlines
count_newlines-join [] ok = refl
count_newlines-join (line ∷ lines) ok = omega (
  arith,
  count_newlines-append line (newline ∷ join lines),
  count_newlines-line line ok.0,
  count_newlines-join lines ok.1,
)

pub join-append : (xs ys : List (List ℕ)) → join (xs ++ ys) ≡ join xs ++ join ys
join-append [] ys = refl
join-append (x ∷ xs) ys =
    ap (λ r. x ++ (newline ∷ r)) (join-append xs ys)
    ∙ sym (append_assoc x (newline ∷ join xs) (join ys))

pub join-ended : (line : List ℕ) → join (line ∷ []) ≡ ended line
join-ended line = refl

skip_line-line : (line rest : List ℕ) → IsLine line → skip_line (line ++ (newline ∷ rest)) ≡ rest
unfolding skip_line
skip_line-line [] rest ok = refl
skip_line-line (c ∷ cs) rest ok = ground (arith, skip_line-line cs rest ok.1)

All-drop : (line : List ℕ) (n : ℕ) → IsLine line → IsLine (drop n line)
All-drop line zero ok = ok
All-drop [] (suc n) ok = tt
All-drop (c ∷ cs) (suc n) ok = All-drop cs n ok.1

skip_line-nil : skip_line [] ≡ []
unfolding skip_line
skip_line-nil = refl

-- Cutting a file at any place and skipping to the next line keeps the last lines whole.
pub skip_line-drop-join :
    (lines : List (List ℕ)) (n : ℕ)
    → All IsLine lines
    → (k : ℕ) × (skip_line (drop n (join lines)) ≡ join (drop k lines))
skip_line-drop-join [] n ok = (0, ap skip_line (drop-all n [] (omega arith)) ∙ skip_line-nil)
skip_line-drop-join (line ∷ lines) n ok = elim (Bool-cases (leb n (length line))) [
  | inl inside ↦ (
    1,
    ap skip_line (drop-append_le line (newline ∷ join lines) n (leb→le _ _ inside))
        ∙ skip_line-line (drop n line) (join lines) (All-drop line n ok.0),
  )
  | inr past ↦
      let (k, e) = skip_line-drop-join lines (n - suc (length line)) ok.1 in
      (
        suc k,
        ap skip_line (
              drop-append_ge line (newline ∷ join lines) n (suc (n - suc (length line)))
                (ground arith))
            ∙ e,
      )
]
