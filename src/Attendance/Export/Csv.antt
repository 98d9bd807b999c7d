-- ===== src/Attendance/Export/Csv.antt =====
-- The CSV fields of components/http_app/dd_http_attendance.c, read by a reader of RFC 4180.
use dingdong.Common.{
  ℕ, zero, suc, Option, none, some, ◌≡◌, refl, ap, ◌∙◌, Bool, true, false, not, ◌||◌, List, [], ◌∷◌,
  ◌++◌, ◌==◌, if◌then◌else◌, arith, Bool-cases, inl, inr,
}
use dingdong.Stdio.{newline}
use dingdong.Attendance.{comma}
use dingdong.Attendance.Export.{
  quote_mark, carriage_return, has_char, double_quotes, csv_field_quote,
}

-- A field in quotes behind its opening mark: the field, and what follows its closing mark.
pub read_quoted : List ℕ → List ℕ × List ℕ
read_quoted [] = ([], [])
read_quoted (c ∷ []) = if c == quote_mark then ([], []) else (c ∷ [], [])
read_quoted (c ∷ d ∷ cs) =
    let doubled = read_quoted cs in
    let plain = read_quoted (d ∷ cs) in
    if not (c == quote_mark)
    then (c ∷ plain.0, plain.1)
    else if d == quote_mark
    then (quote_mark ∷ doubled.0, doubled.1)
    else ([], d ∷ cs)

abbrev pub ends_field : ℕ → Bool
ends_field c = (c == comma) || (c == newline)

-- What TEXTDATA of RFC 4180 leaves out, as far as a text can have it: a comma, a quotation mark, LF and CR.
abbrev pub is_special : ℕ → Bool
is_special c = (c == comma) || (c == quote_mark) || (c == newline) || (c == carriage_return)

-- A field without quotes, as far as its TEXTDATA goes.
pub read_plain : List ℕ → List ℕ × List ℕ
read_plain [] = ([], [])
read_plain (c ∷ cs) =
    let rest = read_plain cs in if is_special c then ([], c ∷ cs) else (c ∷ rest.0, rest.1)

pub read_field : List ℕ → List ℕ × List ℕ
unfolding read_quoted read_plain
read_field [] = ([], [])
read_field (c ∷ cs) = if c == quote_mark then read_quoted cs else read_plain (c ∷ cs)

-- What follows a character, where that is what comes next.
abbrev pub behind : ℕ → List ℕ → Option (List ℕ)
behind c [] = none
behind c (x ∷ xs) = if x == c then some xs else none

-- A field at the end of a row, and one in front of a row that is read on behind a comma.
abbrev pub last_field : List ℕ × List ℕ → Option (List (List ℕ) × List ℕ)
last_field (field, rest) = elim (behind newline rest) [
  | none ↦ none
  | some after ↦ some (field ∷ [], after)
]

abbrev pub in_front : List ℕ → Option (List (List ℕ) × List ℕ) → Option (List (List ℕ) × List ℕ)
in_front field none = none
in_front field (some (fields, after)) = some (field ∷ fields, after)

abbrev pub next_field :
    (List ℕ → Option (List (List ℕ) × List ℕ)) → List ℕ × List ℕ → Option (List (List ℕ) × List ℕ)
next_field read (field, rest) = elim (behind comma rest) [
  | none ↦ none
  | some more ↦ in_front field (read more)
]

-- A row of a field and `n` more, with a comma in front of each of them and a newline at the end: the fields, and
-- what follows the row. Anything else is no row.
unfoldable pub read_row : ℕ → List ℕ → Option (List (List ℕ) × List ℕ)
read_row zero s = last_field (read_field s)
read_row (suc n) s = next_field (read_row n) (read_field s)

read_quoted-other :
    (x : ℕ) (t : List ℕ)
    → (x == quote_mark) ≡ false
    → read_quoted (x ∷ t) ≡ (x ∷ (read_quoted t).0, (read_quoted t).1)
unfolding read_quoted
read_quoted-other x [] other = rw other refl
read_quoted-other x (d ∷ t) other = rw other refl

read_quoted-double_quotes :
    (s : List ℕ) (c : ℕ) (rest : List ℕ)
    → ends_field c ≡ true
    → read_quoted (double_quotes s ++ (c ∷ rest)) ≡ (s, c ∷ rest)
unfolding read_quoted double_quotes
read_quoted-double_quotes [] c rest h = ground arith
read_quoted-double_quotes (x ∷ s) c rest h =
    let ih = read_quoted-double_quotes s c rest h in
    elim (Bool-cases (x == quote_mark)) [
      | inl mark ↦ rw (mark, ih) (ground arith)
      | inr other ↦ rw (other, read_quoted-other x (double_quotes s ++ (c ∷ rest)) other, ih) refl
    ]

read_plain-field :
    (s : List ℕ) (c : ℕ) (rest : List ℕ)
    → (has_char comma s
        || has_char quote_mark s
        || has_char newline s
        || has_char carriage_return s)
      ≡ false
    → ends_field c ≡ true
    → read_plain (s ++ (c ∷ rest)) ≡ (s, c ∷ rest)
unfolding read_plain
read_plain-field [] c rest plain h =
    let ends : is_special c ≡ true = ground (arith, h) in rw ends refl
read_plain-field (x ∷ s) c rest plain h =
    let goes_on : is_special x ≡ false = ground arith in
    rw (goes_on, read_plain-field s c rest (ground arith) h) refl

read_field-plain :
    (x : ℕ) (t : List ℕ) → (x == quote_mark) ≡ false → read_field (x ∷ t) ≡ read_plain (x ∷ t)
unfolding read_field
read_field-plain x t other = rw other refl

-- Whatever bytes a field has, what csv_field_quote writes in front of a comma or the end of the line is read
-- back as that field, with the comma or the end of the line next.
pub read_field-csv_field_quote :
    (s : List ℕ) (c : ℕ) (rest : List ℕ)
    → ends_field c ≡ true
    → read_field (csv_field_quote s ++ (c ∷ rest)) ≡ (s, c ∷ rest)
unfolding csv_field_quote read_field
read_field-csv_field_quote s c rest h =
    elim (Bool-cases (
      has_char comma s
      || has_char quote_mark s
      || has_char newline s
      || has_char carriage_return s)) [
        | inl special ↦ rw special (read_quoted-double_quotes s c rest h)
        | inr plain ↦ rw plain (unquoted s c rest plain h)
      ]
  where
    unquoted :
        (s : List ℕ) (c : ℕ) (rest : List ℕ)
        → (has_char comma s
            || has_char quote_mark s
            || has_char newline s
            || has_char carriage_return s)
          ≡ false
        → ends_field c ≡ true
        → read_field (s ++ (c ∷ rest)) ≡ (s, c ∷ rest)
    unquoted [] c rest plain h =
        let no_mark : (c == quote_mark) ≡ false = ground arith in
        read_field-plain c rest no_mark ∙ read_plain-field [] c rest refl h
    unquoted (x ∷ s) c rest plain h =
        let no_mark : (x == quote_mark) ≡ false = ground arith in
        read_field-plain x (s ++ (c ∷ rest)) no_mark ∙ read_plain-field (x ∷ s) c rest plain h

pub read_row-last :
    (f s rest : List ℕ) → read_field s ≡ (f, newline ∷ rest) → read_row 0 s ≡ some (f ∷ [], rest)
unfolding read_row
read_row-last f s rest e = ap last_field e

pub read_row-next :
    (n : ℕ) (f s more rest : List ℕ) (fs : List (List ℕ))
    → read_field s ≡ (f, comma ∷ more)
    → read_row n more ≡ some (fs, rest)
    → read_row (suc n) s ≡ some (f ∷ fs, rest)
unfolding read_row
read_row-next n f s more rest fs e later = ap (next_field (read_row n)) e ∙ ap (in_front f) later
