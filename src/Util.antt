-- ===== src/Util.antt =====
-- components/util/include/dd_util.h: addresses as text, with the `%02x` and `%04x` of printf and the
-- `%02x` of scanf that they and components/workers/dd_worker.c use.
use dingdong.Common.{
  ℕ, zero, suc, ◌+◌, ◌-◌, ◌*◌, ◌/◌, ◌%◌, ◌<◌, ◌≡◌, refl, ap, ◌∙◌, false, ◌&&◌, Option, none, some,
  List, [], ◌∷◌, ◌++◌, length, ltb, leb, ◌==◌, if◌then◌else◌, All, arith,
}
use dingdong.Stdio.{skip_spaces, is_space}

abbrev pub hex_digit : ℕ → ℕ
hex_digit d = if ltb d 10 then b'0' + d else b'a' + (d - 10)

-- `%02x` of a byte
abbrev pub hex2 : ℕ → List ℕ
hex2 b = hex_digit (b / 16 % 16) ∷ hex_digit (b % 16) ∷ []

-- `%04x` of a uint16_t
abbrev pub hex4 : ℕ → List ℕ
hex4 n = hex2 (n / 256) ++ hex2 (n % 256)

-- `%02x` for each byte, with a colon between: dd_format_mac of six bytes
unfoldable pub format_mac : List ℕ → List ℕ
format_mac [] = []
format_mac (b ∷ []) = hex2 b
format_mac (b ∷ c ∷ bs) = hex2 b ++ (b':' ∷ format_mac (c ∷ bs))

unfoldable pub hex_value : ℕ → Option ℕ
hex_value c =
    if leb b'0' c && leb c b'9'
    then some (c - b'0')
    else if leb b'a' c && leb c b'f'
    then some (c - b'a' + 10)
    else if leb b'A' c && leb c b'F'
    then some (c - b'A' + 10)
    else none

-- One `%02x` of sscanf: the value and what is left, `none` where it does not match. A sign or a `0x`,
-- which scanf would take, matches nothing here: no stored address has one.
abbrev second_digit : ℕ → List ℕ → ℕ × List ℕ
second_digit high [] = (high, [])
second_digit high (c ∷ cs) = elim (hex_value c) [
  | none ↦ (high, c ∷ cs)
  | some low ↦ (high * 16 + low, cs)
]

abbrev scan_digits : List ℕ → Option (ℕ × List ℕ)
scan_digits [] = none
scan_digits (c ∷ cs) = elim (hex_value c) [ none ↦ none | some high ↦ some (second_digit high cs) ]

unfoldable pub scan_byte : List ℕ → Option (ℕ × List ℕ)
unfolding skip_spaces
scan_byte s = scan_digits (skip_spaces s)

abbrev skip_colon : List ℕ → Option (List ℕ)
skip_colon [] = none
skip_colon (c ∷ cs) = if c == b':' then some cs else none

-- sscanf of so many `%02x` with colons between; `none` where fewer are assigned
unfoldable pub scan_mac : ℕ → List ℕ → Option (List ℕ)
scan_mac zero s = some []
scan_mac (suc zero) s = elim (scan_byte s) [ none ↦ none | some (b, _) ↦ some (b ∷ []) ]
scan_mac (suc (suc n)) s = elim (scan_byte s) [
  | none ↦ none
  | some (b, left) ↦ elim (skip_colon left) [
    | none ↦ none
    | some rest ↦ elim (scan_mac (suc n) rest) [ none ↦ none | some bs ↦ some (b ∷ bs) ]
  ]
]

pub hex_value-hex_digit : (d : ℕ) → d < 16 → hex_value (hex_digit d) ≡ some d
unfolding hex_value
hex_value-hex_digit d h = ground arith

no_space : (d : ℕ) → d < 16 → is_space (hex_digit d) ≡ false
no_space d h = ground arith

scan_digits-two :
    (c d x y : ℕ) (s : List ℕ)
    → hex_value c ≡ some x
    → hex_value d ≡ some y
    → scan_digits (c ∷ d ∷ s) ≡ some (x * 16 + y, s)
scan_digits-two c d x y s p q = ground (arith, p, q)

scan_byte-hex2 : (b : ℕ) (s : List ℕ) → b < 256 → scan_byte (hex2 b ++ s) ≡ some (b, s)
unfolding scan_byte skip_spaces
scan_byte-hex2 b s h =
    let value : b / 16 % 16 * 16 + b % 16 ≡ b = omega arith in
    rw (no_space (b / 16 % 16) (omega arith)) (
      scan_digits-two (hex_digit (b / 16 % 16)) (hex_digit (b % 16)) (b / 16 % 16) (b % 16) s
        (hex_value-hex_digit (b / 16 % 16) (omega arith))
        (hex_value-hex_digit (b % 16) (omega arith))
      ∙ ap (λ (v : ℕ). some (v, s)) value)

-- An address that is printed is read back.
pub scan_mac-format_mac :
    (b : ℕ) (bs : List ℕ)
    → All (λ c. c < 256) (b ∷ bs)
    → scan_mac (length (b ∷ bs)) (format_mac (b ∷ bs)) ≡ some (b ∷ bs)
unfolding scan_mac format_mac
scan_mac-format_mac b [] h = rw (scan_mac, scan_byte-hex2 b [] h.0) refl
scan_mac-format_mac b (c ∷ bs) h =
    rw (scan_mac, scan_byte-hex2 b (b':' ∷ format_mac (c ∷ bs)) h.0, scan_mac-format_mac c bs h.1)
      refl
