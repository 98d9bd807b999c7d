-- ===== src/Events/Slots.antt =====
-- The debounce slots of components/events/dd_event.c: which slot an address gets, and what a sighting leaves in it.
use dingdong.Common.{
  max, ℕ, zero, suc, ◌+◌, ◌-◌, ◌≤◌, ◌<◌, ◌≡◌, refl, ap, ◌∙◌, Bool, true, false, not, ◌&&◌, Option,
  none, some, List, [], ◌∷◌, length, set, get_or, ltb, ◌==◌, if◌then◌else◌, arith, length-set,
  Bool-cases, Option-cases, inl, inr, ◌⊎◌, bytes_eq, bytes_eq_iff, some_eq,
}
use dingdong.Events.{
  DebounceSlot, unused, EventType, shifted, match_of, victim_loop, get_slot, last_of, with_last,
  debounce, debounce_us, int64_max,
}

if_lt : (b : Bool) (x y n : ℕ) → x < n → y < n → (if b then x else y) < n
if_lt true x y n p q = p
if_lt false x y n p q = q

abbrev first_free : ℕ → Option ℕ → Option ℕ
first_free i free = elim free [ some j ↦ some j | none ↦ some i ]

taken :
    (i : ℕ) (free : Option ℕ) (n : ℕ)
    → i < n
    → ((j : ℕ) → free ≡ some j → j < n)
    → (j : ℕ) → first_free i free ≡ some j
    → j < n
taken i none n lt hf j e = let same = some_eq e in omega arith
taken i (some k) n lt hf j e = hf j e

victim_loop-bound :
    (slots : List DebounceSlot) (i : ℕ) (free : Option ℕ) (oldest oldest_ts n : ℕ)
    → i + length slots ≤ n
    → oldest < n
    → ((j : ℕ) → free ≡ some j → j < n)
    → victim_loop slots i free oldest oldest_ts < n
unfolding victim_loop
victim_loop-bound [] i none oldest oldest_ts n le lo hf = lo
victim_loop-bound [] i (some j) oldest oldest_ts n le lo hf = hf j refl
victim_loop-bound (s ∷ slots) i free oldest oldest_ts n le lo hf =
    if_lt (not s.used) _ _ n
      (victim_loop-bound slots (i + 1) (first_free i free) oldest oldest_ts n (omega arith) lo
        (taken i free n (omega arith) hf))
      (if_lt (ltb (max s.last_in s.last_out) oldest_ts) _ _ n
        (victim_loop-bound slots (i + 1) free i (max s.last_in s.last_out) n (omega arith)
          (omega arith) hf)
        (victim_loop-bound slots (i + 1) free oldest oldest_ts n (omega arith) lo hf))

pub match_of-set :
    (addr : List ℕ) (slots : List DebounceSlot) (i : ℕ) (v : DebounceSlot)
    → i < length slots
    → (match_of addr slots ≡ none) ⊎ (match_of addr slots ≡ some i)
    → v.used ≡ true
    → v.addr ≡ addr
    → match_of addr (set slots i v) ≡ some i
unfolding match_of
match_of-set addr [] i v lt e used its = absurd (omega arith)
match_of-set addr (s ∷ slots) zero v lt e used its =
    let same = (bytes_eq_iff v.addr addr).1 its in rw (used, same) refl
match_of-set addr (s ∷ slots) (suc i) v lt e used its =
    elim (Bool-cases (s.used && bytes_eq s.addr addr)) [
      | inl hit ↦ elim e [
        | inl absent ↦ absurd (ground (arith, hit, absent))
        | inr later ↦ absurd (ground (arith, hit, later))
      ]
      | inr miss ↦ rw miss (
          ap shifted (
            match_of-set addr slots i v (omega arith)
              (elim e [
                | inl absent ↦ inl (ground (arith, miss, absent))
                | inr later ↦ inr (ground (arith, miss, later))
              ])
              used its))
    ]

match_of-found :
    (addr : List ℕ) (slots : List DebounceSlot) (i : ℕ)
    → match_of addr slots ≡ some i
    → (i < length slots)
      × ((get_or slots i unused).addr ≡ addr)
      × ((get_or slots i unused).used ≡ true)
unfolding match_of
match_of-found addr [] i e = absurd cc
match_of-found addr (s ∷ slots) i e = elim (Bool-cases (s.used && bytes_eq s.addr addr)) [
  | inl hit ↦
      (let first : i ≡ 0 = ground (arith, hit, e) in
        rw first
          (omega arith, (bytes_eq_iff s.addr addr).0 (ground (arith, hit)), ground (arith, hit)))
  | inr miss ↦ elim (Option-cases (match_of addr slots)) [
    | inl absent ↦ absurd (ground (arith, miss, e, absent))
    | inr (j, there) ↦
        (let later : i ≡ suc j = ground (arith, miss, e, there) in
          let inner = match_of-found addr slots j there in
          rw later (omega (arith, inner.0), inner.1, inner.2))
  ]
]

pub get_or-set :
    (slots : List DebounceSlot) (i : ℕ) (v : DebounceSlot)
    → i < length slots
    → get_or (set slots i v) i unused ≡ v
get_or-set [] i v lt = absurd (omega arith)
get_or-set (s ∷ slots) zero v lt = refl
get_or-set (s ∷ slots) (suc i) v lt = get_or-set slots i v (omega arith)

-- The slot that get_slot gives is in the table, and is the one of the address.
pub record Gives (addr : List ℕ) (i : ℕ) (slots : List DebounceSlot) : Type 0 where
  pub inside : i < length slots
  pub its : (get_or slots i unused).addr ≡ addr
  pub used : (get_or slots i unused).used ≡ true
  pub matched : match_of addr slots ≡ some i

pub get_slot-Gives :
    (addr : List ℕ) (slots : List DebounceSlot)
    → 0 < length slots
    → Gives addr (get_slot addr slots).0 (get_slot addr slots).1
unfolding get_slot
get_slot-Gives addr slots some_slots = elim (Option-cases (match_of addr slots)) [
  | inr (i, there) ↦
      let found = match_of-found addr slots i there in
      rw (get_slot, there)
        (record { inside = found.0; its = found.1; used = found.2; matched = there })
  | inl absent ↦
      let v : DebounceSlot = record { addr = addr; last_in = 0; last_out = 0; used = true } in
      let idx = victim_loop slots 0 none 0 int64_max in
      let lt =
        victim_loop-bound slots 0 none 0 int64_max (length slots) (omega arith) some_slots
          (λ j e. absurd cc) in
      let got = get_or-set slots idx v lt in
      rw (get_slot, absent)
        (record {
          inside = (let n = length-set slots idx v in omega arith);
          its = ap (λ (s : DebounceSlot). s.addr) got;
          used = ap (λ (s : DebounceSlot). s.used) got;
          matched = match_of-set addr slots idx v lt (inl absent) refl refl;
        })
]

-- A new address gets a slot that holds no times.
pub get_slot-new :
    (type : EventType) (addr : List ℕ) (slots : List DebounceSlot)
    → 0 < length slots
    → match_of addr slots ≡ none
    → last_of type (get_or (get_slot addr slots).1 (get_slot addr slots).0 unused) ≡ 0
unfolding get_slot
get_slot-new type addr slots some_slots absent =
    let v : DebounceSlot = record { addr = addr; last_in = 0; last_out = 0; used = true } in
    let idx = victim_loop slots 0 none 0 int64_max in
    let lt =
      victim_loop-bound slots 0 none 0 int64_max (length slots) (omega arith) some_slots
        (λ j e. absurd cc) in
    rw (get_slot, absent) (ap (last_of type) (get_or-set slots idx v lt) ∙ no_time type v refl refl)
  where
    no_time :
        (type : EventType) (s : DebounceSlot) → s.last_in ≡ 0 → s.last_out ≡ 0 → last_of type s ≡ 0
    no_time EventType.ev_in s i o = i
    no_time EventType.ev_out s i o = o

pub last_of-with_last :
    (type : EventType) (mono : ℕ) (s : DebounceSlot) → last_of type (with_last type mono s) ≡ mono
last_of-with_last EventType.ev_in mono s = refl
last_of-with_last EventType.ev_out mono s = refl

pub with_last-same :
    (type : EventType) (mono : ℕ) (s : DebounceSlot)
    → ((with_last type mono s).addr ≡ s.addr) × ((with_last type mono s).used ≡ s.used)
with_last-same EventType.ev_in mono s = (refl, refl)
with_last-same EventType.ev_out mono s = (refl, refl)

pub debounce-kept :
    (type : EventType) (addr : List ℕ) (mono : ℕ) (slots : List DebounceSlot)
    → (debounce type addr mono slots).0 ≡ false
    → (debounce type addr mono slots).1
      ≡ set
          (get_slot addr slots).1
          (get_slot addr slots).0
          (with_last type mono (get_or (get_slot addr slots).1 (get_slot addr slots).0 unused))
unfolding debounce
debounce-kept type addr mono slots =
    let slot = get_or (get_slot addr slots).1 (get_slot addr slots).0 unused in
    elim (Bool-cases (not (last_of type slot == 0) && ltb (mono - last_of type slot) debounce_us)) [
      | inl dropped ↦ rw dropped (λ e. absurd cc)
      | inr kept ↦ rw kept (λ e. refl)
    ]

pub get_slot-matched :
    (addr : List ℕ) (slots : List DebounceSlot) (i : ℕ)
    → match_of addr slots ≡ some i
    → get_slot addr slots ≡ (i, slots)
unfolding get_slot
get_slot-matched addr slots i there = rw (get_slot, there) refl

pub debounce-at :
    (type : EventType) (addr : List ℕ) (mono later i : ℕ) (slots : List DebounceSlot)
    → match_of addr slots ≡ some i
    → last_of type (get_or slots i unused) ≡ mono
    → 0 < mono
    → ((debounce type addr later slots).0 ≡ ltb (later - mono) debounce_us)
      × (ltb (later - mono) debounce_us ≡ true → (debounce type addr later slots).1 ≡ slots)
unfolding debounce
debounce-at type addr mono later i slots there its pos =
    let recent : (mono == 0) ≡ false = ground arith in
    rw (debounce, get_slot-matched addr slots i there, its, recent)
      (elim (Bool-cases (ltb (later - mono) debounce_us)) [
        | inl soon ↦ rw soon (refl, λ _. refl)
        | inr late ↦ rw late (refl, λ e. absurd cc)
      ])
