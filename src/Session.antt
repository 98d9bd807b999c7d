-- ===== src/Session.antt =====
-- components/session/dd_session.c: the table of Web UI sessions. A table is the list of its four
-- slots; a call takes the clock's reading and returns the new table. The mutex is held throughout
-- each call, so calls do not interleave.
pub mod Slots
pub mod Valid
pub mod Destroy
pub mod Hex
mod Tests
use dingdong.Common.{
  ℕ, ◌+◌, ◌-◌, ◌*◌, ◌/◌, ◌%◌, ◌^◌, Bool, true, false, not, ◌&&◌, ◌||◌, Option, none, some, List, [],
  ◌∷◌, ◌++◌, length, take, set, replicate, get_or, ltb, ◌==◌, if◌then◌else◌, Err, codes, bytes_eq,
}

-- DD_SESSION_TOKEN_LEN, MAX_SESSIONS, TTL_USEC, INT64_MAX
abbrev pub token_len : ℕ
token_len = 65

abbrev pub max_sessions : ℕ
max_sessions = 4

abbrev pub ttl_usec : ℕ
ttl_usec = 7 * 24 * 3600 * 1000000

abbrev pub int64_max : ℕ
int64_max = 2 ^ 63 - 1

-- slot_t; `expires` is 0 in an empty slot
pub record Slot : Type 0 where
  pub token : List ℕ
  pub expires : ℕ

abbrev pub empty_slot : Slot
empty_slot = record { token = replicate token_len 0; expires = 0 }

abbrev pub hex_digits : List ℕ
hex_digits = codes "0123456789abcdef"

-- hex_encode, with the NUL at the end
unfoldable pub hex_encode : List ℕ → List ℕ
hex_encode [] = 0 ∷ []
hex_encode (b ∷ bs) =
    get_or hex_digits (b / 2 ^ 4 % 16) 0 ∷ get_or hex_digits (b % 16) 0 ∷ hex_encode bs

-- dd_session_init; `made` is whether the mutex could be created
pub session_init : List Slot → Bool → Err × List Slot
session_init slots made =
    if made then (Err.ok, replicate max_sessions empty_slot) else (Err.no_mem, slots)

-- the test for a slot that may be used again
abbrev pub is_free : ℕ → Slot → Bool
is_free now s = (s.expires == 0) || ltb s.expires now

-- the loop of find_slot_locked from slot `i` on, with the first free index and the oldest so far
pub find_loop : ℕ → List Slot → ℕ → Option ℕ → ℕ → ℕ → ℕ
find_loop now [] i free oldest oldest_exp = elim free [ some j ↦ j | none ↦ oldest ]
find_loop now (s ∷ slots) i free oldest oldest_exp =
    find_loop now slots (i + 1)
      (if is_free now s then elim free [ some j ↦ some j | none ↦ some i ] else free)
      (if ltb s.expires oldest_exp then i else oldest)
      (if ltb s.expires oldest_exp then s.expires else oldest_exp)

-- find_slot_locked
pub find_slot : ℕ → List Slot → ℕ
unfolding find_loop
find_slot now slots = find_loop now slots 0 none 0 int64_max

-- dd_session_create: `bytes` are the 32 that esp_fill_random gives; `given` is `token_out != NULL`. The second part is what goes
-- to `token_out`.
pub session_create : List Slot → List ℕ → ℕ → Bool → ℕ → Err × List ℕ × List Slot
unfolding find_slot hex_encode
session_create slots bytes now given room =
    if not given || ltb room token_len then (Err.invalid_arg, [], slots) else (
      Err.ok,
      hex_encode bytes,
      set slots (find_slot now slots)
          (record { token = hex_encode bytes; expires = now + ttl_usec }),
    )

-- memcmp(slot.token, token, 64) == 0. The C string `token` is its bytes; its NUL is compared where it is shorter, and ends the comparison: a token in a slot has
-- no NUL among its first 64 bytes.
abbrev pub same_token : Slot → List ℕ → Bool
same_token s token =
    bytes_eq (take (token_len - 1) s.token) (take (token_len - 1) (token ++ (0 ∷ [])))

pub valid_loop : List Slot → List ℕ → ℕ → Bool
valid_loop [] token now = false
valid_loop (s ∷ slots) token now =
    if ltb now s.expires && same_token s token then true else valid_loop slots token now

-- dd_session_is_valid; `none` is NULL
pub session_is_valid : List Slot → Option (List ℕ) → ℕ → Bool
unfolding valid_loop
session_is_valid slots none now = false
session_is_valid slots (some token) now =
    if not (length token == token_len - 1) then false else valid_loop slots token now

pub destroy_loop : List Slot → List ℕ → List Slot
destroy_loop [] token = []
destroy_loop (s ∷ slots) token =
    if not (s.expires == 0) && same_token s token
    then empty_slot ∷ slots
    else s ∷ destroy_loop slots token

-- dd_session_destroy
pub session_destroy : List Slot → Option (List ℕ) → List Slot
unfolding destroy_loop
session_destroy slots none = slots
session_destroy slots (some token) = destroy_loop slots token

-- dd_session_destroy_all
pub session_destroy_all : List Slot → List Slot
session_destroy_all slots = replicate max_sessions empty_slot
