-- ===== src/Config/Compare.antt =====
-- The comparison of hashes of components/config/dd_config.c: no bit differs just where the bytes are the same.
use dingdong.Common.{
  max, ℕ, zero, suc, ◌+◌, ◌%◌, ◌<◌, ◌≡◌, refl, sym, ap, ◌∙◌, List, [], ◌∷◌, length, All, arith, ap₂,
  ◌/◌, ◌*◌,
}
use dingdong.Config.{bitwise, xor_byte, or_byte, diff_loop}

abbrev limit : ℕ → ℕ
limit zero = 1
limit (suc n) = 2 * limit n

abbrev xor_bit : ℕ → ℕ → ℕ
xor_bit x y = (x + y) % 2

xor_zero : (n a b : ℕ) → a < limit n → b < limit n → bitwise xor_bit n a b ≡ 0 → a ≡ b
unfolding bitwise
xor_zero zero a b ha hb e = omega arith
xor_zero (suc n) a b ha hb e =
    omega (arith, xor_zero n (a / 2) (b / 2) (omega arith) (omega arith) (omega (arith, e)))

xor_self : (n a : ℕ) → bitwise xor_bit n a a ≡ 0
unfolding bitwise
xor_self zero a = refl
xor_self (suc n) a = omega (arith, xor_self n (a / 2))

or_zero : (n a b : ℕ) → a < limit n → b < limit n → bitwise max n a b ≡ 0 → (a ≡ 0) × (b ≡ 0)
unfolding bitwise
or_zero zero a b ha hb e = (omega arith, omega arith)
or_zero (suc n) a b ha hb e =
    let inner = or_zero n (a / 2) (b / 2) (omega arith) (omega arith) (omega (arith, e)) in
    (omega (arith, inner.0, e), omega (arith, inner.1, e))

bitwise-limit :
    (f : ℕ → ℕ → ℕ) (n a b : ℕ)
    → ((x y : ℕ) → x < 2 → y < 2 → f x y < 2)
    → bitwise f n a b < limit n
unfolding bitwise
bitwise-limit f zero a b bit = omega arith
bitwise-limit f (suc n) a b bit =
    omega (
      arith,
      bit (a % 2) (b % 2) (omega arith) (omega arith),
      bitwise-limit f n (a / 2) (b / 2) bit,
    )

or_none : or_byte 0 0 ≡ 0
unfolding bitwise
or_none = refl

-- The loop ends with 0 just where it began with 0 and the arrays of bytes are equal.
pub diff_loop-zero :
    (diff : ℕ) (want got : List ℕ)
    → diff < 256
    → All (λ b. b < 256) want
    → All (λ b. b < 256) got
    → length want ≡ length got
    → (diff_loop diff want got ≡ 0 → (diff ≡ 0) × (want ≡ got))
      × (diff ≡ 0 → want ≡ got → diff_loop diff want got ≡ 0)
unfolding diff_loop
diff_loop-zero diff [] [] hd hw hg n = (λ e. (e, refl), λ e _. e)
diff_loop-zero diff [] (g ∷ got) hd hw hg n = absurd (omega (arith, n))
diff_loop-zero diff (w ∷ want) [] hd hw hg n = absurd (omega (arith, n))
diff_loop-zero diff (w ∷ want) (g ∷ got) hd hw hg n =
    let x_limit = bitwise-limit xor_bit 8 w g (λ x y hx hy. omega arith) in
    let o_limit = bitwise-limit max 8 diff (xor_byte w g) (λ x y hx hy. omega arith) in
    let inner =
      diff_loop-zero (or_byte diff (xor_byte w g)) want got o_limit hw.1 hg.1 (omega (arith, n)) in
    (
      λ e.
          let (none_so_far, rest) = inner.0 e in
          let (before, here) = or_zero 8 diff (xor_byte w g) hd x_limit none_so_far in
          (before, ap₂ (λ x xs. x ∷ xs) (xor_zero 8 w g hw.0 hg.0 here) rest),
      λ z same.
          let (first, rest) = cons_eq w g want got same in
          inner.1
            (ap₂ or_byte z (ap (λ (x : ℕ). xor_byte w x) (sym first) ∙ xor_self 8 w) ∙ or_none)
            rest,
    )
  where
    cons_eq : (x y : ℕ) (xs ys : List ℕ) → x ∷ xs ≡ y ∷ ys → (x ≡ y) × (xs ≡ ys)
    cons_eq x y xs ys e = (cc, cc)
