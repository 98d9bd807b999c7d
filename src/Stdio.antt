-- ===== src/Stdio.antt =====
-- What the sources use of C's <stdio.h>, <stdlib.h> and <string.h>, over strings and files of bytes.
-- A C string is its bytes up to the NUL.
pub mod Lines
pub mod Decimal
pub mod Search
use dingdong.Common.{
  ℕ, zero, suc, ◌+◌, ◌-◌, ◌*◌, ◌/◌, ◌%◌, ◌^◌, ◌<◌, min, Bool, true, false, ◌&&◌, ◌||◌, Option, none,
  some, List, [], ◌∷◌, ◌++◌, ltb, leb, ◌==◌, if◌then◌else◌,
}

abbrev pub newline : ℕ
newline = 10

-- fgets: the pieces that successive calls read, each up to a newline or of `limit` bytes (the
-- buffer's size less one for the NUL). `left` is the room left in the current buffer.
abbrev pub add_to_piece : ℕ → List (List ℕ) → List (List ℕ)
add_to_piece c [] = (c ∷ []) ∷ []
add_to_piece c (p ∷ ps) = (c ∷ p) ∷ ps

unfoldable pub pieces : ℕ → ℕ → List ℕ → List (List ℕ)
pieces limit left [] = []
pieces limit left (c ∷ cs) = elim ((c == newline) || leb left 1) [
  | true ↦ (c ∷ []) ∷ pieces limit limit cs
  | false ↦ add_to_piece c (pieces limit (left - 1) cs)
]

unfoldable pub fgets_all : ℕ → List ℕ → List (List ℕ)
unfolding pieces
fgets_all limit file = pieces limit limit file

-- `while ((c = fgetc(in)) != EOF && c != '\n') { }`: what is left to read.
unfoldable pub skip_line : List ℕ → List ℕ
skip_line [] = []
skip_line (c ∷ cs) = if c == newline then cs else skip_line cs

-- `while ((c = fgetc(f)) != EOF) if (c == '\n') n++;`
unfoldable pub count_newlines : List ℕ → ℕ
count_newlines [] = 0
count_newlines (c ∷ cs) = if c == newline then suc (count_newlines cs) else count_newlines cs

-- strncmp(s, prefix, strlen(prefix)) == 0
unfoldable pub starts_with : List ℕ → List ℕ → Bool
starts_with [] s = true
starts_with (p ∷ ps) [] = false
starts_with (p ∷ ps) (c ∷ cs) = p == c && starts_with ps cs

-- strstr: the string from the first place at which `needle` occurs
unfoldable pub strstr : List ℕ → List ℕ → Option (List ℕ)
unfolding starts_with
strstr [] needle = if starts_with needle [] then some [] else none
strstr (c ∷ cs) needle = if starts_with needle (c ∷ cs) then some (c ∷ cs) else strstr cs needle

abbrev pub is_digit : ℕ → Bool
is_digit c = leb b'0' c && leb c b'9'

abbrev pub is_space : ℕ → Bool
is_space c = (c == 32) || (leb 9 c && leb c 13)

-- The value of the digits in front of `s`, after `acc`.
unfoldable pub read_digits : ℕ → List ℕ → ℕ
read_digits acc [] = acc
read_digits acc (c ∷ cs) = if is_digit c then read_digits (acc * 10 + (c - b'0')) cs else acc

unfoldable pub skip_spaces : List ℕ → List ℕ
skip_spaces [] = []
skip_spaces (c ∷ cs) = if is_space c then skip_spaces cs else c ∷ cs

abbrev pub skip_plus : List ℕ → List ℕ
skip_plus [] = []
skip_plus (c ∷ cs) = if c == b'+' then cs else c ∷ cs

-- atoll, for a result that is only compared with positive numbers: a negative number counts as 0.
unfoldable pub atoll : List ℕ → ℕ
unfolding read_digits skip_spaces
atoll s = min (2 ^ 63 - 1) (read_digits 0 (skip_plus (skip_spaces s)))

-- The decimal form of a number (`%u`, and `%lld` of one that is not negative); fuel above the
-- number is enough.
unfoldable pub digits : ℕ → ℕ → List ℕ
digits zero n = []
digits (suc fuel) n =
    let before = digits fuel (n / 10) in
    if ltb n 10 then (b'0' + n) ∷ [] else before ++ ((b'0' + n % 10) ∷ [])

unfoldable pub decimal : ℕ → List ℕ
unfolding digits
decimal n = digits (n + 1) n
