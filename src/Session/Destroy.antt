-- ===== src/Session/Destroy.antt =====
-- What destroying a session does in components/session/dd_session.c.
use dingdong.Common.{
  ℕ, ◌≡◌, refl, sym, ◌∙◌, true, false, some, List, [], ◌∷◌, ◌++◌, length, take, ◌==◌, All, arith,
  ◌⊎◌, inl, inr, Bool-cases, ◌≢◌, bytes_eq_iff, take-append, take-all,
}
use dingdong.Session.{
  Slot, same_token, session_is_valid, session_destroy, session_destroy_all, session_init,
  valid_loop, destroy_loop,
}
use dingdong.Session.Valid.{IsValid}

-- A slot holds a token of 64 characters exactly where the comparison says so.
same_token_iff :
    (s : Slot) (token : List ℕ)
    → length token ≡ 64
    → same_token s token ≡ true
    → take 64 s.token ≡ token
same_token_iff s token n h =
    (bytes_eq_iff (take 64 s.token) (take 64 (token ++ (0 ∷ [])))).0 h
    ∙ take-append token (0 ∷ []) 64 (omega arith)
    ∙ take-all 64 token (omega arith)

-- No two occupied slots hold one token.
abbrev pub Apart : Slot → Slot → Type 0
Apart s t = (s.expires ≡ 0) ⊎ ((t.expires ≡ 0) ⊎ (take 64 s.token ≢ take 64 t.token))

abbrev pub Distinct : List Slot → Type 0
Distinct [] = Unit
Distinct (s ∷ slots) = All (Apart s) slots × Distinct slots

module _ (token : List ℕ) (long : length token ≡ 64) (now : ℕ) where
  destroy_loop-others :
      (slots : List Slot) (other : List ℕ)
      → length other ≡ 64
      → token ≢ other
      → valid_loop (destroy_loop slots token) other now ≡ valid_loop slots other now
  unfolding valid_loop destroy_loop
  destroy_loop-others [] other n ne = refl
  destroy_loop-others (s ∷ slots) other n ne = elim (Bool-cases (same_token s token)) [
    | inr miss ↦ ground (arith, destroy_loop-others slots other n ne)
    | inl hit ↦ elim (Bool-cases (same_token s other)) [
      | inl both ↦
          absurd (ne (sym (same_token_iff s token long hit) ∙ same_token_iff s other n both))
      | inr miss ↦ ground (arith, destroy_loop-others slots other n ne)
    ]
  ]

  rest-Apart :
      (s : Slot) (slots : List Slot)
      → All (Apart s) slots
      → s.expires ≢ 0
      → same_token s token ≡ true
      → valid_loop slots token now ≡ false
  unfolding valid_loop
  rest-Apart s [] a pos hit = refl
  rest-Apart s (t ∷ slots) a pos hit = elim (Bool-cases (same_token t token)) [
    | inr miss ↦ ground (arith, rest-Apart s slots a.1 pos hit)
    | inl both ↦ ground (
      arith,
      a.0,
      same_token_iff s token long hit ∙ sym (same_token_iff t token long both),
      rest-Apart s slots a.1 pos hit,
    )
  ]

  destroy_loop-gone :
      (slots : List Slot) → Distinct slots → valid_loop (destroy_loop slots token) token now ≡ false
  unfolding valid_loop destroy_loop
  destroy_loop-gone [] d = refl
  destroy_loop-gone (s ∷ slots) d = elim (Bool-cases (same_token s token)) [
    | inr miss ↦ ground (arith, destroy_loop-gone slots d.1)
    | inl hit ↦ ground (arith, destroy_loop-gone slots d.1, rest-Apart s slots d.0)
  ]

-- With distinct tokens, destroying one makes it invalid at every time, and leaves every other
-- token as valid, or invalid, as it was.
pub session_destroy_lem :
    (slots : List Slot) (token other : List ℕ) (now : ℕ)
    → Distinct slots
    → length token ≡ 64
    → token ≢ other
    → (session_is_valid (session_destroy slots (some token)) (some token) now ≡ false)
      × (session_is_valid (session_destroy slots (some token)) (some other) now
          ≡ session_is_valid slots (some other) now)
unfolding session_is_valid session_destroy
session_destroy_lem slots token other now d long ne = (
  ground (arith, destroy_loop-gone token long now slots d),
  elim (Bool-cases (length other == 64)) [
    | inr short ↦ rw short
    | inl n ↦ rw n (destroy_loop-others token long now slots other (ground arith) ne)
  ],
)

-- After `dd_session_destroy_all`, and after a boot whose mutex could be created, no token is valid at any time, and the table is well formed.
pub session_destroy_all_lem :
    (slots : List Slot) (token : List ℕ) (now : ℕ)
    → (session_is_valid (session_destroy_all slots) (some token) now ≡ false)
      × ((session_init slots true).1 ≡ session_destroy_all slots)
      × IsValid (session_destroy_all slots)
unfolding session_is_valid session_destroy_all session_init valid_loop
session_destroy_all_lem slots token now =
    (ground arith, refl, record { size = refl; bounded = omega arith })
