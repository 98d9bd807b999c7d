-- ===== src/Attendance/Export/Rows.antt =====
-- The rows of the CSV export of components/http_app/dd_http_attendance.c, read back.
use dingdong.Common.{
  ℕ, zero, suc, ◌+◌, ◌/◌, ◌%◌, ◌^◌, ◌≡◌, refl, true, false, Option, none, some, List, [], ◌∷◌, ◌++◌,
  append_assoc, length, ltb, ◌==◌, if◌then◌else◌, arith, Bool-cases, inl, inr, All,
}
use dingdong.Stdio.{digits, decimal, is_digit, newline}
use dingdong.Workers.{Table}
use dingdong.Attendance.{comma, LogLine, or_zero, or_text}
use dingdong.Attendance.Export.{
  quote_mark, carriage_return, has_char, csv_field_quote, name_of, worker_cells, reason_cell,
  csv_row,
}
use dingdong.Attendance.Export.Csv.{
  read_row, read_row-last, read_row-next, read_field-csv_field_quote,
}

abbrev IsDigits : List ℕ → Type 0
IsDigits = All (λ c. is_digit c ≡ true)

IsDigits-append : (xs ys : List ℕ) → IsDigits xs → IsDigits ys → IsDigits (xs ++ ys)
IsDigits-append [] ys p q = q
IsDigits-append (x ∷ xs) ys p q = (p.0, IsDigits-append xs ys p.1 q)

digits-IsDigits : (fuel n : ℕ) → IsDigits (digits fuel n)
unfolding digits
digits-IsDigits zero n = tt
digits-IsDigits (suc fuel) n = elim (Bool-cases (ltb n 10)) [
  | inl small ↦ rw small (ground arith, tt)
  | inr large ↦
      rw large (
        IsDigits-append (digits fuel (n / 10)) _ (digits-IsDigits fuel (n / 10)) (ground arith, tt))
]

has_char-IsDigits : (c : ℕ) (s : List ℕ) → is_digit c ≡ false → IsDigits s → has_char c s ≡ false
has_char-IsDigits c [] h p = refl
has_char-IsDigits c (x ∷ s) h p =
    let differ : (x == c) ≡ false = ground (arith, p.0) in rw differ (has_char-IsDigits c s h p.1)

-- A text that needs no quotes.
abbrev pub IsPlain : List ℕ → Type 0
IsPlain s = csv_field_quote s ≡ s

decimal-IsPlain : (n : ℕ) → IsPlain (decimal n)
unfolding decimal csv_field_quote
decimal-IsPlain n =
    let p = digits-IsDigits (n + 1) n in
    rw (
      has_char-IsDigits comma (digits (n + 1) n) refl p,
      has_char-IsDigits quote_mark (digits (n + 1) n) refl p,
      has_char-IsDigits newline (digits (n + 1) n) refl p,
      has_char-IsDigits carriage_return (digits (n + 1) n) refl p,
    )

nil-IsPlain : IsPlain []
unfolding csv_field_quote
nil-IsPlain = refl

-- A row of fields.
abbrev cells : List (List ℕ) → List ℕ
cells [] = []
cells (f ∷ []) = csv_field_quote f ++ (newline ∷ [])
cells (f ∷ g ∷ fs) = csv_field_quote f ++ (comma ∷ cells (g ∷ fs))

read_row-cells :
    (f : List ℕ) (fs : List (List ℕ)) (rest : List ℕ)
    → read_row (length fs) (cells (f ∷ fs) ++ rest) ≡ some (f ∷ fs, rest)
read_row-cells f [] rest =
    rw (append_assoc (csv_field_quote f) (newline ∷ []) rest)
      (read_row-last f _ rest (read_field-csv_field_quote f newline rest refl))
read_row-cells f (g ∷ fs) rest =
    rw (append_assoc (csv_field_quote f) (comma ∷ cells (g ∷ fs)) rest) (
      read_row-next (length fs) f _ (cells (g ∷ fs) ++ rest) rest (g ∷ fs)
        (read_field-csv_field_quote f comma (cells (g ∷ fs) ++ rest) refl)
        (read_row-cells g fs rest))

module _ (table : Table) (iso : ℕ → List ℕ) where
  -- What an event's row tells.
  abbrev pub fields_of : LogLine → List (List ℕ)
  fields_of l =
      decimal (or_zero l.ts)
      ∷ (if ltb 0 (or_zero l.ts) then iso (or_zero l.ts) else [])
      ∷ or_text [] l.type
      ∷ or_text [] l.src
      ∷ (if ltb 0 (or_zero l.worker_id) then decimal (or_zero l.worker_id) else [])
      ∷ (if ltb 0 (or_zero l.worker_id) then name_of table (or_zero l.worker_id % 2 ^ 16) else [])
      ∷ or_text [] l.peer
      ∷ reason_cell l.reason
      ∷ or_text [] l.note
      ∷ []

  worker_cells-fields :
      (wid : ℕ) (rest : List ℕ)
      → worker_cells table wid ++ (comma ∷ rest)
        ≡ csv_field_quote (if ltb 0 wid then decimal wid else [])
          ++ (comma
              ∷ (csv_field_quote (if ltb 0 wid then name_of table (wid % 2 ^ 16) else [])
                  ++ (comma ∷ rest)))
  unfolding worker_cells
  worker_cells-fields wid rest = elim (Bool-cases (ltb 0 wid)) [
    | inl known ↦
        rw (known, decimal-IsPlain wid)
          (append_assoc (decimal wid) (comma ∷ csv_field_quote (name_of table (wid % 2 ^ 16)))
            (comma ∷ rest))
    | inr unknown ↦ rw unknown refl
  ]

  reason_cell-IsPlain : (o : Option ℕ) → IsPlain (reason_cell o)
  reason_cell-IsPlain none = nil-IsPlain
  reason_cell-IsPlain (some n) = decimal-IsPlain n

  csv_row-cells :
      (parse : List ℕ → Option LogLine) (l : LogLine)
      → ((t : ℕ) → IsPlain (iso t))
      → csv_row parse table iso l ≡ cells (fields_of l)
  unfolding csv_row
  csv_row-cells parse l plain =
      let dated : IsPlain (if ltb 0 (or_zero l.ts) then iso (or_zero l.ts) else []) =
        elim (Bool-cases (ltb 0 (or_zero l.ts))) [
          | inl set ↦ rw set (plain (or_zero l.ts))
          | inr unset ↦ rw unset nil-IsPlain
        ] in
      rw
        (
          worker_cells-fields (or_zero l.worker_id) _,
          decimal-IsPlain (or_zero l.ts),
          dated,
          reason_cell-IsPlain l.reason,
        )
        refl

  -- Where the local time is printed without a special character, the row of an event is read back as its nine
  -- fields by a strict reader of RFC 4180, to whom a comma, a quotation mark, CR or LF outside quotes is no part of a
  -- field and the row ends at LF, with what follows the row untouched: the time, the local time, the type, the
  -- source, the worker's id and name, the peer, the reason and the note.
  pub read_row-csv_row :
      (parse : List ℕ → Option LogLine) (l : LogLine) (rest : List ℕ)
      → ((t : ℕ) → IsPlain (iso t))
      → read_row 8 (csv_row parse table iso l ++ rest) ≡ some (fields_of l, rest)
  read_row-csv_row parse l rest plain = rw (csv_row-cells parse l plain) (read_row-cells _ _ rest)
