-- ===== src/Session/Hex.antt =====
-- `hex_encode` of components/session/dd_session.c, by which random bytes become a token.
use dingdong.Common.{
  ℕ, ◌+◌, ◌*◌, ◌/◌, ◌%◌, ◌<◌, ◌≡◌, refl, List, [], ◌∷◌, length, get_or, arith, All, ap, sym, ◌∙◌,
  Bool, true, false, zero, suc, inl, inr, Bool-cases, if◌then◌else◌, ◌==◌, ap₂,
}
use dingdong.Session.{hex_encode, hex_digits}

-- A character of `hex_digits` read back.
abbrev digit_value : ℕ → ℕ
digit_value c = c % 48 + (c / 97) * 9

digit : ℕ → ℕ
digit d = get_or hex_digits d 0

-- Whether each digit under `limit` is read back from its character.
reads_back : ℕ → Bool
reads_back zero = true
reads_back (suc d) = if digit_value (digit d) == d then reads_back d else false

reads_back-under : (d limit : ℕ) → d < limit → reads_back limit ≡ true → digit_value (digit d) ≡ d
unfolding reads_back
reads_back-under d zero lt h = absurd (omega arith)
reads_back-under d (suc top) lt h = elim (Bool-cases (d == top)) [
  | inl top_one ↦ ground arith
  | inr lower ↦ reads_back-under d top (ground arith) (ground arith)
]

sixteen : reads_back 16 ≡ true
unfolding reads_back digit
sixteen = refl

digit_value-digit : (d : ℕ) → d < 16 → digit_value (digit d) ≡ d
digit_value-digit d h = reads_back-under d 16 h sixteen

digit-injective : (d e : ℕ) → d < 16 → e < 16 → digit d ≡ digit e → d ≡ e
digit-injective d e hd he p =
    sym (digit_value-digit d hd) ∙ ap digit_value p ∙ digit_value-digit e he

pub length-hex_encode : (bs : List ℕ) → length (hex_encode bs) ≡ 2 * length bs + 1
unfolding hex_encode
length-hex_encode [] = omega arith
length-hex_encode (b ∷ bs) = omega (arith, length-hex_encode bs)

head_eq : (x y : ℕ) (xs ys : List ℕ) → x ∷ xs ≡ y ∷ ys → (x ≡ y) × (xs ≡ ys)
head_eq x y xs ys e = (cc, cc)

hex_encode-cons :
    (b c : ℕ) (bs cs : List ℕ)
    → hex_encode (b ∷ bs) ≡ hex_encode (c ∷ cs)
    → (digit (b / 16 % 16) ≡ digit (c / 16 % 16))
      × (digit (b % 16) ≡ digit (c % 16))
      × (hex_encode bs ≡ hex_encode cs)
unfolding hex_encode digit
hex_encode-cons b c bs cs e =
    let first = head_eq _ _ _ _ e in
    let second = head_eq _ _ _ _ first.1 in (first.0, second.0, second.1)

hex_encode-ne : (b : ℕ) (bs : List ℕ) → hex_encode (b ∷ bs) ≡ hex_encode [] → ⊥
hex_encode-ne b bs e =
    let n = ap length e in omega (arith, length-hex_encode (b ∷ bs), length-hex_encode [])

-- Two strings of bytes that have one hex form are one: distinct random bytes give distinct tokens.
hex_encode-injective :
    (bs cs : List ℕ)
    → All (λ b. b < 256) bs
    → All (λ c. c < 256) cs
    → hex_encode bs ≡ hex_encode cs
    → bs ≡ cs
hex_encode-injective [] [] hb hc e = refl
hex_encode-injective [] (c ∷ cs) hb hc e = absurd (hex_encode-ne c cs (sym e))
hex_encode-injective (b ∷ bs) [] hb hc e = absurd (hex_encode-ne b bs e)
hex_encode-injective (b ∷ bs) (c ∷ cs) hb hc e =
    let parts = hex_encode-cons b c bs cs e in
    let high = digit-injective (b / 16 % 16) (c / 16 % 16) (omega arith) (omega arith) parts.0 in
    let low = digit-injective (b % 16) (c % 16) (omega arith) (omega arith) parts.1 in
    ap₂ (λ x xs. x ∷ xs) (omega (arith, high, low)) (hex_encode-injective bs cs hb.1 hc.1 parts.2)
