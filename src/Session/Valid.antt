-- ===== src/Session/Valid.antt =====
-- The calls of components/session/dd_session.c together: what create, check and destroy promise.
use dingdong.Common.{
  ℕ, zero, suc, ◌+◌, ◌-◌, ◌≤◌, ◌<◌, ◌≡◌, refl, sym, ap, ◌∙◌, true, false, ◌&&◌, some, List, [], ◌∷◌,
  length, take, set, get_elem?, ltb, ◌==◌, All, arith, ◌⊎◌, inl, inr, Bool-cases, some_eq, ◌≢◌, Err,
  bytes_eq_refl, get_elem?-set_self, get_elem?-set_ne, length-set, length-take, take-append,
  take-all,
}
use mathlib.Core.Path.{subst}
use dingdong.Session.{
  Slot, is_free, find_slot, int64_max, max_sessions, token_len, ttl_usec, same_token, hex_encode,
  session_create, session_is_valid, valid_loop,
}
use dingdong.Session.Slots.{AllLive, AllLater, Picked, free, oldest, kept, find_slot-Picked}
use dingdong.Session.Hex.{length-hex_encode}

pub record IsValid (slots : List Slot) : Type 0 where
  pub size : length slots ≡ max_sessions
  pub bounded : All (λ s. s.expires < int64_max) slots

-- The slot that a new session goes to.
abbrev Evicts : ℕ → List Slot → ℕ → Slot → Type 0
Evicts now slots i s =
    (get_elem? slots i ≡ some s)
    × ((is_free now s ≡ true) ⊎ (AllLive now slots × AllLater s.expires slots))

not-AllLater : (slots : List Slot) → IsValid slots → AllLater int64_max slots → ⊥
not-AllLater [] v a = let n = v.size in omega arith
not-AllLater (s ∷ slots) v a = let b = v.bounded in omega arith

find_slot-Evicts :
    (now : ℕ) (slots : List Slot)
    → IsValid slots
    → (s : Slot) × Evicts now slots (find_slot now slots) s
find_slot-Evicts now slots v = go (find_slot now slots) (find_slot-Picked now slots)
  where
    at : (r k : ℕ) (s : Slot) → r ≡ 0 + k → get_elem? slots k ≡ some s → get_elem? slots r ≡ some s
    at r k s e g = let e' : r ≡ k = omega arith in rw e' g

    go : (r : ℕ) → Picked now slots 0 0 int64_max r → (s : Slot) × Evicts now slots r s
    go r (free s (k, e, g) f) = (s, (at r k s e g, inl f))
    go r (oldest s (k, e, g) l lt later) = (s, (at r k s e g, inr (l, later)))
    go r (kept e l later) = absurd (not-AllLater slots v later)

-- A call with room for the token writes the new session over one slot, and no other: an empty or
-- expired slot, or, where all four are live, one that expires first. It returns the token.
pub session_create-evicts :
    (slots : List Slot) (bytes : List ℕ) (now room : ℕ)
    → IsValid slots
    → token_len ≤ room
    → (i : ℕ) × (s : Slot) × (get_elem? slots i ≡ some s)
      × ((is_free now s ≡ true) ⊎ (AllLive now slots × AllLater s.expires slots))
      × (session_create slots bytes now true room ≡ (
        Err.ok,
        hex_encode bytes,
        set slots i (record { token = hex_encode bytes; expires = now + ttl_usec }),
      ))
unfolding session_create
session_create-evicts slots bytes now room v h =
    let (s, e) = find_slot-Evicts now slots v in (find_slot now slots, s, e.0, e.1, ground arith)

-- A check that finds its token in a live slot, wherever it stands.
valid_loop-at :
    (slots : List Slot) (token : List ℕ) (now k : ℕ) (s : Slot)
    → get_elem? slots k ≡ some s
    → now < s.expires
    → same_token s token ≡ true
    → valid_loop slots token now ≡ true
unfolding valid_loop
valid_loop-at [] token now k s g h m = cc
valid_loop-at (t ∷ slots) token now zero s g h m = ground arith
valid_loop-at (t ∷ slots) token now (suc k) s g h m =
    ground (arith, valid_loop-at slots token now k s g h m)

valid_loop-find :
    (slots : List Slot) (token : List ℕ) (now : ℕ)
    → valid_loop slots token now ≡ true
    → (k : ℕ) × (s : Slot) × (get_elem? slots k ≡ some s)
      × (now < s.expires)
      × (same_token s token ≡ true)
unfolding valid_loop
valid_loop-find [] token now h = cc
valid_loop-find (t ∷ slots) token now h =
    elim (Bool-cases (ltb now t.expires && same_token t token)) [
      | inl hit ↦ (0, t, refl, ground arith, ground arith)
      | inr miss ↦
          let (k, s, g, lt, m) = valid_loop-find slots token now (rw miss at h) in
          (suc k, s, g, lt, m)
    ]

lt_of_get : (slots : List Slot) (i : ℕ) (s : Slot) → get_elem? slots i ≡ some s → i < length slots
lt_of_get [] i s g = cc
lt_of_get (t ∷ slots) zero s g = omega arith
lt_of_get (t ∷ slots) (suc i) s g = omega (arith, lt_of_get slots i s g)

-- The token that the browser sends back is the 64 digits, without the NUL.
abbrev pub cookie : List ℕ → List ℕ
cookie bytes = take (token_len - 1) (hex_encode bytes)

pub length-cookie : (bytes : List ℕ) → length bytes ≡ 32 → length (cookie bytes) ≡ 64
length-cookie bytes h = omega (arith, length-take 64 (hex_encode bytes), length-hex_encode bytes)

same_token-cookie :
    (bytes : List ℕ) (e : ℕ)
    → length bytes ≡ 32
    → same_token (record { token = hex_encode bytes; expires = e }) (cookie bytes) ≡ true
same_token-cookie bytes e h =
    rw
      (
        take-append (cookie bytes) (0 ∷ []) 64 (omega (arith, length-cookie bytes h)),
        take-all 64 (cookie bytes) (omega (arith, length-cookie bytes h)),
      )
      (bytes_eq_refl (cookie bytes))

-- The token of a new session is accepted at every time before `now` plus seven days.
pub session_is_valid-create :
    (slots : List Slot) (bytes : List ℕ) (now room later : ℕ)
    → IsValid slots
    → token_len ≤ room
    → length bytes ≡ 32
    → later < now + ttl_usec
    → session_is_valid (session_create slots bytes now true room).2 (some (cookie bytes)) later
      ≡ true
unfolding session_is_valid
session_is_valid-create slots bytes now room later v h n lt =
    let (i, s, g, e, made) = session_create-evicts slots bytes now room v h in
    let new : Slot = record { token = hex_encode bytes; expires = now + ttl_usec } in
    let stored : (session_create slots bytes now true room).2 ≡ set slots i new =
      ap (λ r. r.2) made in
    let long : (length (cookie bytes) == 64) ≡ true = rw (length-cookie bytes n) in
    rw long (
      ap (λ t. valid_loop t (cookie bytes) later) stored
      ∙ valid_loop-at (set slots i new) (cookie bytes) later i new
          (get_elem?-set_self slots i new (lt_of_get slots i s g)) lt
          (same_token-cookie bytes (now + ttl_usec) n))

All-get {κ} :
    (P : Slot → Type κ) (slots : List Slot) (k : ℕ) (s : Slot)
    → All P slots
    → get_elem? slots k ≡ some s
    → P s
All-get P [] k s a g = cc
All-get P (t ∷ slots) zero s a g = subst P (some_eq g) a.0
All-get P (t ∷ slots) (suc k) s a g = All-get P slots k s a.1 g

create-refused :
    (slots : List Slot) (bytes : List ℕ) (now room : ℕ)
    → ltb room token_len ≡ true
    → (session_create slots bytes now true room).2 ≡ slots
unfolding session_create
create-refused slots bytes now room h = rw h

-- A token that is valid stays valid when another session is created, as long as some slot is free.
pub session_create-keeps :
    (slots : List Slot) (bytes token : List ℕ) (now room : ℕ)
    → IsValid slots
    → (k : ℕ) (f : Slot) → get_elem? slots k ≡ some f
    → is_free now f ≡ true
    → session_is_valid slots (some token) now ≡ true
    → session_is_valid (session_create slots bytes now true room).2 (some token) now ≡ true
unfolding session_is_valid
session_create-keeps slots bytes token now room v k f g fr h =
    elim (Bool-cases (length token == token_len - 1)) [
      | inr short ↦ cc (rw short at h)
      | inl long ↦ elim (Bool-cases (ltb room token_len)) [
        | inl refused ↦ rw (long, create-refused slots bytes now room refused) (rw long at h)
        | inr enough ↦
            let (i, s, gi, e, made) = session_create-evicts slots bytes now room v (ground arith) in
            let (j, t, gj, lt, m) = valid_loop-find slots token now (rw long at h) in
            let new : Slot = record { token = hex_encode bytes; expires = now + ttl_usec } in
            let stored : (session_create slots bytes now true room).2 ≡ set slots i new =
              ap (λ r. r.2) made in
            rw long (
              ap (λ r. valid_loop r token now) stored
              ∙ valid_loop-at (set slots i new) token now j t
                  (get_elem?-set_ne slots i j new (evicted-ne i j s t e gi gj lt) ∙ gj) lt m)
      ]
    ]
  where
    evicted-free :
        (s : Slot)
        → (is_free now s ≡ true) ⊎ (AllLive now slots × AllLater s.expires slots)
        → is_free now s ≡ true
    evicted-free s (inl e) = e
    evicted-free s (inr (live, _)) =
        let no_free = All-get (λ x. is_free now x ≡ false) slots k f live g in cc

    evicted-ne :
        (i j : ℕ) (s t : Slot)
        → (is_free now s ≡ true) ⊎ (AllLive now slots × AllLater s.expires slots)
        → get_elem? slots i ≡ some s
        → get_elem? slots j ≡ some t
        → now < t.expires
        → i ≢ j
    evicted-ne i j s t e gi gj lt same =
        let is_same : some s ≡ some t = sym gi ∙ ap (get_elem? slots) same ∙ gj in
        ground (arith, evicted-free s e, some_eq is_same)

All-set {κ} :
    (P : Slot → Type κ) (slots : List Slot) (i : ℕ) (s : Slot)
    → All P slots
    → P s
    → All P (set slots i s)
All-set P [] i s a p = tt
All-set P (t ∷ slots) zero s a p = (p, a.1)
All-set P (t ∷ slots) (suc i) s a p = (a.0, All-set P slots i s a.1 p)

-- Creating a session keeps the table well formed, at any time before the last seven days of the
-- clock's range.
session_create-IsValid :
    (slots : List Slot) (bytes : List ℕ) (now room : ℕ)
    → IsValid slots
    → now + ttl_usec < int64_max
    → IsValid (session_create slots bytes now true room).2
unfolding session_create
session_create-IsValid slots bytes now room v h = elim (Bool-cases (ltb room token_len)) [
  | inl refused ↦ rw refused v
  | inr enough ↦
      let new : Slot = record { token = hex_encode bytes; expires = now + ttl_usec } in
      rw enough (record {
        size = length-set slots (find_slot now slots) new ∙ v.size;
        bounded = All-set (λ s. s.expires < int64_max) slots (find_slot now slots) new v.bounded h;
      })
]
