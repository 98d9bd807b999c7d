-- ===== src/Session/Tests.antt =====
-- The properties of the session table at concrete tables.
use dingdong.Common.{
  ℕ, ap, get_or, ◌≡◌, refl, ◌≢◌, true, false, some, List, [], ◌∷◌, arith, replicate, bytes_eq,
}
use dingdong.Session.{Slot, empty_slot, session_create, session_is_valid, find_slot}
use dingdong.Session.Valid.{IsValid, session_create-keeps}

abbrev bytes : List ℕ
bytes = replicate 32 0x5a

abbrev token_a : List ℕ
token_a = replicate 64 b'a'

abbrev token_b : List ℕ
token_b = replicate 64 b'b'

-- Two sessions, one of them expired at 50, and two empty slots.
abbrev table : List Slot
table =
    record { token = token_a; expires = 100 }
    ∷ record { token = token_b; expires = 40 }
    ∷ empty_slot
    ∷ empty_slot
    ∷ []

table-IsValid : IsValid table
table-IsValid = record { size = refl; bounded = omega arith }

find_slot-table : find_slot 50 table ≡ 1
unfolding find_slot
find_slot-table = refl

a_is_valid : session_is_valid table (some token_a) 50 ≡ true
unfolding session_is_valid bytes_eq
a_is_valid = refl

b_has_expired : session_is_valid table (some token_b) 50 ≡ false
unfolding session_is_valid bytes_eq
b_has_expired = refl

tokens_differ : token_a ≢ token_b
tokens_differ e = let first = ap (λ (l : List ℕ). get_or l 0 0) e in omega arith

session_create-keeps_example :
    session_is_valid (session_create table bytes 50 true 65).2 (some token_a) 50 ≡ true
session_create-keeps_example =
    session_create-keeps table bytes token_a 50 65 table-IsValid 2 empty_slot refl refl a_is_valid
