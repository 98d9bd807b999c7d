-- ===== src/Stdio/Search.antt =====
-- strstr: where it finds a text, and what it finds there.
use dingdong.Common.{
  ℕ, zero, suc, ◌≡◌, refl, true, none, some, List, [], ◌∷◌, ◌++◌, arith, length, drop,
  if◌then◌else◌, Bool-cases, inl, inr, ap₂, drop-all,
}
use dingdong.Stdio.{starts_with, strstr}

pub starts_with-append : (needle rest : List ℕ) → starts_with needle (needle ++ rest) ≡ true
unfolding starts_with
starts_with-append [] rest = refl
starts_with-append (c ∷ cs) rest = ground (arith, starts_with-append cs rest)

pub starts_with-split :
    (needle s : List ℕ) → starts_with needle s ≡ true → needle ++ drop (length needle) s ≡ s
unfolding starts_with
starts_with-split [] s h = refl
starts_with-split (n ∷ ns) [] h = cc
starts_with-split (n ∷ ns) (c ∷ cs) h =
    ap₂ (λ x xs. x ∷ xs) (ground arith) (starts_with-split ns cs (ground arith))

-- The front part of a needle is found wherever the needle is.
pub starts_with-front : (a b s : List ℕ) → starts_with (a ++ b) s ≡ true → starts_with a s ≡ true
unfolding starts_with
starts_with-front [] b s h = refl
starts_with-front (x ∷ a) b [] h = cc
starts_with-front (x ∷ a) b (c ∷ cs) h = ground (arith, starts_with-front a b cs)

-- A text that occurs at one place only, and a needle that begins with it: strstr looks there.
abbrev pub OnlyAt : List ℕ → List ℕ → ℕ → Type 0
OnlyAt text line k = (j : ℕ) → starts_with text (drop j line) ≡ true → j ≡ k

strstr-none :
    (text more line : List ℕ)
    → ((j : ℕ) → starts_with text (drop j line) ≡ true → ⊥)
    → strstr line (text ++ more) ≡ none
unfolding strstr
strstr-none text more [] nowhere = elim (Bool-cases (starts_with (text ++ more) [])) [
  | inl hit ↦ absurd (nowhere 0 (starts_with-front text more [] hit))
  | inr miss ↦ rw miss refl
]
strstr-none text more (c ∷ cs) nowhere = elim (Bool-cases (starts_with (text ++ more) (c ∷ cs))) [
  | inl hit ↦ absurd (nowhere 0 (starts_with-front text more (c ∷ cs) hit))
  | inr miss ↦ rw miss (strstr-none text more cs (λ j h. nowhere (suc j) h))
]

pub strstr-only :
    (text more line : List ℕ) (k : ℕ)
    → OnlyAt text line k
    → strstr line (text ++ more)
      ≡ (if starts_with (text ++ more) (drop k line) then some (drop k line) else none)
unfolding strstr
strstr-only text more [] k only =
    let nil : drop {A = ℕ} k [] ≡ [] = drop-all k [] (omega arith) in rw nil refl
strstr-only text more (c ∷ cs) zero only = elim (Bool-cases (starts_with (text ++ more) (c ∷ cs))) [
  | inl hit ↦ rw hit refl
  | inr miss ↦ rw miss (strstr-none text more cs (λ j h. let e = only (suc j) h in omega arith))
]
strstr-only text more (c ∷ cs) (suc k) only =
    elim (Bool-cases (starts_with (text ++ more) (c ∷ cs))) [
      | inl hit ↦ let e = only 0 (starts_with-front text more (c ∷ cs) hit) in absurd (omega arith)
      | inr miss ↦
          rw miss (strstr-only text more cs k (λ j h. let e = only (suc j) h in omega arith))
    ]
