-- ===== src/Session/Slots.antt =====
-- Which slot `find_slot_locked` of components/session/dd_session.c picks.
use dingdong.Common.{
  ℕ, suc, ◌+◌, ◌≤◌, ◌<◌, ◌≡◌, refl, ◌∙◌, true, false, none, some, List, [], ◌∷◌, get_elem?, ltb,
  if◌then◌else◌, All, arith, inl, inr, Bool-cases, ltb→lt,
}
use dingdong.Session.{Slot, is_free, find_loop, find_slot, int64_max}

-- A slot of the list at an index counted from `i`.
abbrev pub At : List Slot → ℕ → ℕ → Slot → Type 0
At slots i r s = (k : ℕ) × (r ≡ i + k) × (get_elem? slots k ≡ some s)

abbrev pub AllLive : ℕ → List Slot → Type 0
AllLive now slots = All (λ s. is_free now s ≡ false) slots

abbrev pub AllLater : ℕ → List Slot → Type 0
AllLater e slots = All (λ s. e ≤ s.expires) slots

-- Once a free slot is known the loop keeps it.
find_loop-known :
    (now : ℕ) (slots : List Slot) (i j o e : ℕ) → find_loop now slots i (some j) o e ≡ j
unfolding find_loop
find_loop-known now [] i j o e = refl
find_loop-known now (s ∷ slots) i j o e = elim (Bool-cases (is_free now s)) [
  | inl f ↦ rw f (find_loop-known now slots (i + 1) j _ _)
  | inr f ↦ rw f (find_loop-known now slots (i + 1) j _ _)
]

-- What the loop picks with no free slot known: the first free slot, or, with none, a slot of the
-- least expiry time.
pub data Picked (now : ℕ) (slots : List Slot) (i o e r : ℕ) : Type 0 where
  free : (s : Slot) → At slots i r s → is_free now s ≡ true → Picked now slots i o e r
  oldest :
      (s : Slot)
      → At slots i r s
      → AllLive now slots
      → s.expires < e
      → AllLater s.expires slots
      → Picked now slots i o e r
  kept : r ≡ o → AllLive now slots → AllLater e slots → Picked now slots i o e r

At-cons : (s t : Slot) (slots : List Slot) (i r : ℕ) → At slots (i + 1) r t → At (s ∷ slots) i r t
At-cons s t slots i r (k, e, g) = (suc k, omega arith, g)

AllLater-mono : (d e : ℕ) (slots : List Slot) → d ≤ e → AllLater e slots → AllLater d slots
AllLater-mono d e [] h a = tt
AllLater-mono d e (s ∷ slots) h a = (omega arith, AllLater-mono d e slots h a.1)

Picked-cons :
    (now : ℕ) (s : Slot) (slots : List Slot) (i o e r : ℕ)
    → is_free now s ≡ false
    → Picked now slots
        (i + 1)
        (if ltb s.expires e then i else o)
        (if ltb s.expires e then s.expires else e)
        r
    → Picked now (s ∷ slots) i o e r
Picked-cons now s slots i o e r live (free t a f) = free t (At-cons s t slots i r a) f
Picked-cons now s slots i o e r live (oldest t a l lt later) =
    oldest t (At-cons s t slots i r a) (live, l) (ground arith) (ground arith, later)
Picked-cons now s slots i o e r live (kept k l later) = elim (Bool-cases (ltb s.expires e)) [
  | inl lt ↦
      oldest s (0, (rw lt at k) ∙ omega arith, refl) (live, l) (ltb→lt _ _ lt)
        (omega arith, rw lt at later)
  | inr ge ↦ kept (rw ge at k) (live, l) (ground arith, rw ge at later)
]

find_loop-Picked :
    (now : ℕ) (slots : List Slot) (i o e : ℕ)
    → Picked now slots i o e (find_loop now slots i none o e)
unfolding find_loop
find_loop-Picked now [] i o e = kept refl tt tt
find_loop-Picked now (s ∷ slots) i o e = elim (Bool-cases (is_free now s)) [
  | inl f ↦ rw f (free s (0, find_loop-known now slots (i + 1) i _ _ ∙ omega arith, refl) f)
  | inr f ↦ rw f (Picked-cons now s slots i o e _ f (find_loop-Picked now slots (i + 1) _ _))
]

pub find_slot-Picked :
    (now : ℕ) (slots : List Slot) → Picked now slots 0 0 int64_max (find_slot now slots)
unfolding find_slot
find_slot-Picked now slots = find_loop-Picked now slots 0 0 int64_max
