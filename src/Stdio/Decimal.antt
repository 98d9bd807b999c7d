-- ===== src/Stdio/Decimal.antt =====
-- Decimal numbers: what is printed reads back.
use dingdong.Common.{
  ℕ, zero, suc, ◌+◌, ◌-◌, ◌*◌, ◌/◌, ◌%◌, ◌<◌, ◌≡◌, refl, sym, ap, ◌∙◌, true, false, List, [], ◌∷◌,
  ◌++◌, append_assoc, arith, ltb, Bool-cases, inl, inr, ltb→lt, get_or,
}
use dingdong.Stdio.{is_digit, read_digits, digits, decimal}

-- A digit in front of a text is taken into the value.
read_digits-digit :
    (acc d : ℕ) (rest : List ℕ)
    → d < 10
    → read_digits acc ((b'0' + d) ∷ rest) ≡ read_digits (acc * 10 + d) rest
unfolding read_digits
read_digits-digit acc d rest h =
    let digit : is_digit (b'0' + d) ≡ true = ground arith in
    let value : b'0' + d - b'0' ≡ d = omega arith in rw (digit, value) refl

digits-small : (fuel n : ℕ) → n < 10 → digits (suc fuel) n ≡ (b'0' + n) ∷ []
unfolding digits
digits-small fuel n h = let small : ltb n 10 ≡ true = ground arith in rw small refl

digits-large :
    (fuel n : ℕ)
    → ltb n 10 ≡ false
    → digits (suc fuel) n ≡ digits fuel (n / 10) ++ ((b'0' + n % 10) ∷ [])
unfolding digits
digits-large fuel n h = rw h refl

read_digits-digits :
    (fuel n : ℕ) (rest : List ℕ)
    → n < fuel
    → read_digits 0 (digits fuel n ++ rest) ≡ read_digits n rest
read_digits-digits zero n rest h = absurd (omega arith)
read_digits-digits (suc fuel) n rest h = elim (Bool-cases (ltb n 10)) [
  | inl small ↦ rw (digits-small fuel n (ltb→lt _ _ small)) (
      read_digits-digit 0 n rest (ltb→lt _ _ small)
      ∙ ap (λ (m : ℕ). read_digits m rest) (omega arith))
  | inr large ↦
      let value : n / 10 * 10 + n % 10 ≡ n = omega arith in
      rw
        (digits-large fuel n large, append_assoc (digits fuel (n / 10)) ((b'0' + n % 10) ∷ []) rest)
        (read_digits-digits fuel (n / 10) ((b'0' + n % 10) ∷ rest) (ground arith)
          ∙ read_digits-digit (n / 10) (n % 10) rest (omega arith)
          ∙ ap (λ (m : ℕ). read_digits m rest) value)
]

-- The decimal form of a number, in front of what is no digit, reads back as the number.
pub read_digits-decimal :
    (n : ℕ) (rest : List ℕ) → read_digits 0 (decimal n ++ rest) ≡ read_digits n rest
unfolding decimal
read_digits-decimal n rest = read_digits-digits (n + 1) n rest (omega arith)

pub read_digits-stop :
    (n : ℕ) (rest : List ℕ) → is_digit (get_or rest 0 0) ≡ false → read_digits n rest ≡ n
unfolding read_digits
read_digits-stop n [] h = refl
read_digits-stop n (c ∷ cs) h = rw h refl

-- Two numbers printed in front of what is no digit are one if the texts are.
pub decimal-injective :
    (m n : ℕ) (r s : List ℕ)
    → is_digit (get_or r 0 0) ≡ false
    → is_digit (get_or s 0 0) ≡ false
    → decimal m ++ r ≡ decimal n ++ s
    → m ≡ n
decimal-injective m n r s hr hs e =
    sym (read_digits-stop m r hr)
    ∙ sym (read_digits-decimal m r)
    ∙ ap (read_digits 0) e
    ∙ read_digits-decimal n s
    ∙ read_digits-stop n s hs
