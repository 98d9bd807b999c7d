-- ===== src/Attendance/Visits/Slots.antt =====
-- The slots of the paired view of components/http_app/dd_http_attendance.c, as one worker sees them.
use dingdong.Common.{
  ℕ, zero, suc, ◌<◌, ◌≡◌, ◌≢◌, refl, ap, Bool, true, false, not, ◌&&◌, Option, none, some, List, [],
  ◌∷◌, length, set, get_or, ◌==◌, if◌then◌else◌, arith, Bool-cases, Option-cases, inl, inr, some_eq,
}
use mathlib.Core.Path.{subst}
use dingdong.Attendance.{same_addr}
use dingdong.Attendance.Visits.{Open, no_visit, is_visit_of, is_empty, first_slot}

-- A slot that is taken by a worker.
abbrev pub lives : ℕ → Open → Bool
lives w o = not (is_empty o) && (o.worker_id == w)

abbrev pub live : ℕ → List Open → List Open
live w [] = []
live w (o ∷ os) = if lives w o then o ∷ live w os else live w os

pub is_visit_of-lives :
    (w : ℕ) (addr : Option (List ℕ)) (o : Open) → 0 < w → is_visit_of w addr o ≡ lives w o
unfolding is_visit_of
is_visit_of-lives w addr o pos = ground arith

-- A search by another worker, or by no worker and no address, finds no slot of this one.
pub is_visit_of-other :
    (w v : ℕ) (addr : Option (List ℕ)) (o : Open)
    → 0 < w
    → v ≢ w
    → (v ≡ 0 → addr ≡ none)
    → is_visit_of v addr o ≡ true
    → lives w o ≡ false
unfolding is_visit_of
is_visit_of-other w v none o pos ne unnamed h =
    elim o.addr
        as (λ a.
          (if o.in_ts == 0
              then false
              else if not (v == 0) && (o.worker_id == v)
              then true
              else (v == 0) && same_addr a none)
            ≡ true
          → lives w o ≡ false) [ none ↦ (λ h. ground arith) | some b ↦ (λ h. ground arith) ]
      h
is_visit_of-other w v (some a) o pos ne unnamed h =
    let named : v ≢ 0 = λ e. cc (unnamed e) in ground arith

pub first_slot-some :
    (p : Open → Bool) (xs : List Open) (i : ℕ)
    → first_slot p xs ≡ some i
    → (p (get_or xs i no_visit) ≡ true) × (i < length xs)
unfolding first_slot
first_slot-some p [] i = λ h. absurd cc
first_slot-some p (o ∷ os) i = elim (Bool-cases (p o)) [
  | inl hit ↦ rw hit (λ h.
      subst (λ k. (p (get_or (o ∷ os) k no_visit) ≡ true) × (k < suc (length os))) (some_eq h)
        (hit, omega arith))
  | inr miss ↦ rw miss (elim (Option-cases (first_slot p os)) [
    | inl none_left ↦ rw none_left (λ h. absurd cc)
    | inr (j, found) ↦ rw found (λ h.
        let rest = first_slot-some p os j found in
        subst (λ k. (p (get_or (o ∷ os) k no_visit) ≡ true) × (k < suc (length os))) (some_eq h)
          (rest.0, omega (arith, rest.1)))
  ])
]

-- Writing a slot that is not the worker's with a visit that is not.
pub live-set_other :
    (w : ℕ) (xs : List Open) (i : ℕ) (v : Open)
    → lives w (get_or xs i no_visit) ≡ false
    → lives w v ≡ false
    → live w (set xs i v) ≡ live w xs
live-set_other w [] i v h k = refl
live-set_other w (o ∷ os) zero v h k = rw (h, k) refl
live-set_other w (o ∷ os) (suc i) v h k = rw (live-set_other w os i v h k) refl

rest_empty :
    (w : ℕ) (o : Open) (os : List Open) → lives w o ≡ false → live w (o ∷ os) ≡ [] → live w os ≡ []
rest_empty w o os other = rw other (λ h. h)

some_live : (w : ℕ) (o : Open) (os : List Open) → lives w o ≡ true → live w (o ∷ os) ≢ []
some_live w o os own = rw own (λ h. cc)

-- Writing a free slot with the worker's visit.
pub live-set_own :
    (w : ℕ) (xs : List Open) (i : ℕ) (v : Open)
    → i < length xs
    → live w xs ≡ []
    → lives w v ≡ true
    → live w (set xs i v) ≡ v ∷ []
live-set_own w [] i v lt h k = absurd (omega arith)
live-set_own w (o ∷ os) zero v lt h k = rw k (elim (Bool-cases (lives w o)) [
  | inl own ↦ absurd (some_live w o os own h)
  | inr other ↦ ap (λ l. v ∷ l) (rest_empty w o os other h)
])
live-set_own w (o ∷ os) (suc i) v lt h k = elim (Bool-cases (lives w o)) [
  | inl own ↦ absurd (some_live w o os own h)
  | inr other ↦ rw other (live-set_own w os i v (omega arith) (rest_empty w o os other h) k)
]

pub live-none :
    (w : ℕ) (addr : Option (List ℕ)) (xs : List Open)
    → 0 < w
    → first_slot (is_visit_of w addr) xs ≡ none
    → live w xs ≡ []
unfolding first_slot
live-none w addr [] pos = λ h. refl
live-none w addr (o ∷ os) pos = rw (is_visit_of-lives w addr o pos) (elim (Bool-cases (lives w o)) [
  | inl own ↦ rw own (λ h. absurd cc)
  | inr other ↦ rw other (elim (Option-cases (first_slot (is_visit_of w addr) os)) [
    | inl none_left ↦ rw none_left (λ h. live-none w addr os pos none_left)
    | inr (j, found) ↦ rw found (λ h. absurd cc)
  ])
])

-- The slot that the worker's search finds is the first of its slots.
pub live-found :
    (w : ℕ) (addr : Option (List ℕ)) (xs : List Open) (i : ℕ)
    → 0 < w
    → first_slot (is_visit_of w addr) xs ≡ some i
    → live w xs ≡ get_or xs i no_visit ∷ live w (set xs i no_visit)
unfolding first_slot
live-found w addr [] i pos = λ h. absurd cc
live-found w addr (o ∷ os) i pos =
    rw (is_visit_of-lives w addr o pos) (elim (Bool-cases (lives w o)) [
      | inl own ↦ rw own (λ h.
          subst (λ k. o ∷ live w os ≡ get_or (o ∷ os) k no_visit ∷ live w (set (o ∷ os) k no_visit))
            (some_eq h) refl)
      | inr other ↦ rw other (elim (Option-cases (first_slot (is_visit_of w addr) os)) [
        | inl none_left ↦ rw none_left (λ h. absurd cc)
        | inr (j, found) ↦ rw found (λ h.
            subst (λ k. live w os ≡ get_or (o ∷ os) k no_visit ∷ live w (set (o ∷ os) k no_visit))
              (some_eq h) (rw other (live-found w addr os j pos found)))
      ])
    ])

pub first_slot-set_free :
    (xs : List Open) (i : ℕ)
    → first_slot is_empty xs ≢ none
    → first_slot is_empty (set xs i no_visit) ≢ none
unfolding first_slot
first_slot-set_free [] i = λ h. h
first_slot-set_free (o ∷ os) zero = λ h e. cc
first_slot-set_free (o ∷ os) (suc i) = elim (Bool-cases (is_empty o)) [
  | inl free ↦ rw free (λ h e. cc)
  | inr taken ↦ rw taken (elim (Option-cases (first_slot is_empty os)) [
    | inl full ↦ rw full (λ h. absurd (h refl))
    | inr (j, found) ↦ λ h.
        let rest = first_slot-set_free os i (λ e. absurd cc) in
        elim (Option-cases (first_slot is_empty (set os i no_visit))) [
          | inl none_left ↦ absurd (rest none_left)
          | inr (k, e) ↦ rw e (λ c. cc)
        ]
  ])
]
