-- ===== src/Captive/Names.antt =====
-- The name of a DNS question: skip_qname of components/captive_portal/dd_captive.c against a
-- description of the names that it accepts.
use dingdong.Common.{
  ℕ, zero, suc, ◌+◌, ◌-◌, ◌/◌, ◌%◌, ◌≤◌, ◌<◌, ◌≡◌, refl, ◌∙◌, List, get_or, ltb, ◌==◌, arith,
  Bool-cases, inl, inr, ◌≢◌, All, [], ◌∷◌, ◌↔◌,
}
use dingdong.Captive.{Skipped, skip_qname}

-- A name stands in the first `len` bytes from `pos` on, and ends in front of `stop`: labels of 1 to 63 bytes,
-- each behind its length, and a 0.
pub data Name (buf : List ℕ) (len stop : ℕ) : ℕ → Type 0 where
  root : (pos : ℕ) → pos < len → get_or buf pos 0 ≡ 0 → stop ≡ pos + 1 → Name buf len stop pos
  label :
      (pos : ℕ)
      → pos < len
      → 0 < get_or buf pos 0
      → get_or buf pos 0 < 64
      → Name buf len stop (pos + 1 + get_or buf pos 0)
      → Name buf len stop pos

pub Name-end :
    {buf : List ℕ} {len stop pos : ℕ} → Name buf len stop pos → (pos < stop) × (stop ≤ len)
Name-end (root pos inside null at) = omega arith
Name-end (label pos inside some short rest) = omega (arith, Name-end rest)

-- One round.
step-end :
    (fuel : ℕ) (buf : List ℕ) (len pos : ℕ)
    → pos < len
    → get_or buf pos 0 ≡ 0
    → skip_qname (suc fuel) buf len pos ≡ Skipped.ended (pos + 1)
unfolding skip_qname
step-end fuel buf len pos inside null = ground arith

step-label :
    (fuel : ℕ) (buf : List ℕ) (len pos : ℕ)
    → pos < len
    → 0 < get_or buf pos 0
    → get_or buf pos 0 < 64
    → skip_qname (suc fuel) buf len pos ≡ skip_qname fuel buf len (pos + 1 + get_or buf pos 0)
unfolding skip_qname
step-label fuel buf len pos inside some short = ground arith

-- With fuel for each byte that is left, a name is skipped exactly.
skip_qname-Name :
    (fuel : ℕ) (buf : List ℕ) (len stop pos : ℕ)
    → Name buf len stop pos
    → len - pos < fuel
    → skip_qname fuel buf len pos ≡ Skipped.ended stop
skip_qname-Name zero buf len stop pos n enough = absurd (omega arith)
skip_qname-Name (suc fuel) buf len stop pos (Name.root _ inside null at) enough =
    rw (step-end fuel buf len pos inside null, at) refl
skip_qname-Name (suc fuel) buf len stop pos (Name.label _ inside some short rest) enough =
    step-label fuel buf len pos inside some short
    ∙ skip_qname-Name fuel buf len stop (pos + 1 + get_or buf pos 0) rest (omega arith)

abbrev pub IsBytes : List ℕ → Type 0
IsBytes = All (λ b. b < 256)

get_or-lt : (buf : List ℕ) (i : ℕ) → IsBytes buf → get_or buf i 0 < 256
get_or-lt [] i h = omega arith
get_or-lt (b ∷ buf) zero h = h.0
get_or-lt (b ∷ buf) (suc i) h = get_or-lt buf i h.1

-- What is skipped is a name.
Name-skip_qname :
    (fuel : ℕ) (buf : List ℕ) (len pos stop : ℕ)
    → IsBytes buf
    → skip_qname fuel buf len pos ≡ Skipped.ended stop
    → Name buf len stop pos
unfolding skip_qname
Name-skip_qname zero buf len pos stop bytes = λ h. absurd cc
Name-skip_qname (suc fuel) buf len pos stop bytes = elim (Bool-cases (ltb pos len)) [
  | inr over ↦ rw over (λ h. absurd cc)
  | inl inside ↦ rw inside (elim (Bool-cases (get_or buf pos 0 == 0)) [
    | inl null ↦ rw null (λ h. Name.root pos (ground arith) (ground arith) (ground arith))
    | inr some_bytes ↦ rw some_bytes (elim (Bool-cases (get_or buf pos 0 / 64 % 4 == 0)) [
      | inr pointer ↦ rw pointer (λ h. absurd cc)
      | inl short ↦ rw short (λ h.
          let rest = Name-skip_qname fuel buf len (pos + 1 + get_or buf pos 0) stop bytes h in
          let byte = get_or-lt buf pos bytes in
          Name.label pos (ground arith) (ground arith) (ground arith) rest)
    ])
  ])
]

skip_qname-fuel :
    (fuel : ℕ) (buf : List ℕ) (len pos : ℕ)
    → len - pos < fuel
    → skip_qname fuel buf len pos ≢ Skipped.out_of_fuel
unfolding skip_qname
skip_qname-fuel zero buf len pos enough = absurd (omega arith)
skip_qname-fuel (suc fuel) buf len pos enough =
    ground (arith, skip_qname-fuel fuel buf len (pos + 1 + get_or buf pos 0))

-- The loop of skip_qname ends within one round for each byte that is left, and accepts exactly the
-- names: with that fuel the model never runs out, and it gives an offset just where a name of
-- labels of 1 to 63 bytes that lies inside the buffer ends in front of that offset.
pub skip_qname-ended :
    (fuel : ℕ) (buf : List ℕ) (len pos stop : ℕ)
    → IsBytes buf
    → len - pos < fuel
    → (skip_qname fuel buf len pos ≢ Skipped.out_of_fuel)
      × ((skip_qname fuel buf len pos ≡ Skipped.ended stop) ↔ Name buf len stop pos)
skip_qname-ended fuel buf len pos stop bytes enough = (
  skip_qname-fuel fuel buf len pos enough,
  (
    Name-skip_qname fuel buf len pos stop bytes,
    λ n. skip_qname-Name fuel buf len stop pos n enough,
  ),
)
